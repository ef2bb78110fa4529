-- ===== src/Engine/Gate.antt =====
-- What a finished cycle says of the decisions and of the executor.
use moreney.Prelude.{
  ℕ, suc, ◌≡◌, refl, sym, ap, subst, ◌∙◌, Bool, true, not, Option, none, some, List, [], ◌∷◌, ◌++◌,
  map, keep_if, keep_if-last, keep_if-drop_last, append_assoc, append_nil, map-append, arith,
  if_rule, option_rule,
}
use moreney.Core.Text.{Str}
use moreney.Core.Models.{OrderBook, MarketSnapshot, TradeOpportunity}
use moreney.Execution.Executor.{
  ExecutorSettings, OrderRequest, Executor, Outcome, returned, raised, ExecutionResult,
}
use moreney.Core.Enums.{OrderType}
use moreney.Profitability.NetProfit.{ProfitabilityResult}
use moreney.Risk.Models.{RiskDecision, is_approved}
use moreney.Risk.Engine.{evaluate}
use moreney.Engine.Market.{load_snapshots, enrich_for_risk}
use moreney.Engine.Cycle.{
  Parts, Engine, Cycle, Run, running, aborted, Draw, TradeCycleResult, view, execution_book,
  order_request, execute_opportunity, collect_order_fill, record_execution, act_on, process,
  process_all, find_opportunities, conclude, run_once, mark_opportunity,
}
use moreney.Engine.Outcomes.{Answers, execute-Answers, evaluate-opportunity_id}

abbrev pub is_refused : RiskDecision → Bool
is_refused d = not (is_approved d)

abbrev pub decided_id : RiskDecision → ℕ
decided_id d = d.opportunity_id

abbrev pub executed_id : ExecutionResult → ℕ
executed_id x = x.opportunity_id

abbrev pub opportunity_id_of : TradeOpportunity → ℕ
opportunity_id_of o = o.id

abbrev pub rejected_id : TradeOpportunity × RiskDecision → ℕ
rejected_id (o, d) = o.id

abbrev pub reason_id : TradeOpportunity × RiskDecision → ℕ
reason_id (o, d) = d.opportunity_id

-- Approved decisions were executed, in their order, and the others are listed as rejected, each
-- with the opportunity it is about.
pub record IsGated (r : TradeCycleResult) : Type 0 where
  pub executed :
      map executed_id r.executions ≡ map decided_id (keep_if is_approved r.risk_decisions)
  pub refused : map (λ x. x.1) r.rejected ≡ keep_if is_refused r.risk_decisions
  pub paired : map rejected_id r.rejected ≡ map reason_id r.rejected

-- The cycle, with the opportunities that are left.
record Loop {S : Type 0} (left : List TradeOpportunity) (c : Cycle S) : Type 0 where
  gated : IsGated c.result
  decided :
      map decided_id c.result.risk_decisions ++ map opportunity_id_of left
      ≡ map opportunity_id_of c.result.opportunities

Loops : {S : Type 0} → List TradeOpportunity → Run S → Type 0
Loops left (aborted e) = Unit
Loops left (running c) = Loop left c

-- A decision on the next opportunity is one more that is decided.
decide_next :
    (ds : List RiskDecision) (d : RiskDecision) (o : TradeOpportunity)
    (left : List TradeOpportunity)
    → d.opportunity_id ≡ o.id
    → map decided_id (ds ++ (d ∷ [])) ++ map opportunity_id_of left
      ≡ map decided_id ds ++ map opportunity_id_of (o ∷ left)
decide_next ds d o left e =
    ap (λ ids. ids ++ map opportunity_id_of left) (map-append decided_id ds (d ∷ []))
    ∙ append_assoc (map decided_id ds) (d.opportunity_id ∷ []) (map opportunity_id_of left)
    ∙ ap (λ i. map decided_id ds ++ (i ∷ map opportunity_id_of left)) e

-- A result that is returned is about the opportunity.
ForOpportunity : ℕ → Executor × Outcome → Type 0
ForOpportunity i (st, raised) = Unit
ForOpportunity i (st, returned x) = x.opportunity_id ≡ i

Answers-ForOpportunity :
    (req : OrderRequest) (i : ℕ) (x : Executor × Outcome)
    → req.opportunity_id ≡ i
    → Answers req x
    → ForOpportunity i x
unfolding Answers ForOpportunity
Answers-ForOpportunity req i (st, raised) e a = tt
Answers-ForOpportunity req i (st, returned x) e (_, a) = a ∙ e

order_request_about :
    (id : ℕ) (d : RiskDecision) (o : TradeOpportunity) (req : OrderRequest)
    → order_request id d o ≡ some req
    → req.opportunity_id ≡ o.id
unfolding order_request
order_request_about id d o req e = ground arith

execute_opportunity-ForOpportunity :
    (cfg : ExecutorSettings) (draw : Draw) (d : RiskDecision) (o : TradeOpportunity)
    (given : Option OrderBook) (primary : Option MarketSnapshot) (st : Executor)
    → d.opportunity_id ≡ o.id
    → ForOpportunity d.opportunity_id (execute_opportunity cfg draw d o given primary st)
unfolding execute_opportunity ForOpportunity
execute_opportunity-ForOpportunity cfg draw d o given primary st h =
    option_rule (ForOpportunity d.opportunity_id) (order_request draw.order_id d o) (λ _. tt)
      λ req e.
        Answers-ForOpportunity req d.opportunity_id _
          (order_request_about draw.order_id d o req e ∙ sym h)
          (execute-Answers cfg req (execution_book given o primary) OrderType.limit draw.fill_id st)

module _ {S : Type 0} (parts : Parts S) where
  -- The result once the decision is written down.
  abbrev with_decision : ProfitabilityResult → RiskDecision → TradeCycleResult → TradeCycleResult
  with_decision profit d r = record r {
    profitability = r.profitability ++ (profit ∷ []);
    risk_decisions = r.risk_decisions ++ (d ∷ []);
  }

  record_execution-Loops :
      (left : List TradeOpportunity) (o : TradeOpportunity) (d : RiskDecision)
      (profit : ProfitabilityResult) (e : Engine S) (r : TradeCycleResult) (x : Executor × Outcome)
      → IsGated r
      → map decided_id (r.risk_decisions ++ (d ∷ [])) ++ map opportunity_id_of left
        ≡ map opportunity_id_of r.opportunities
      → is_approved d ≡ true
      → ForOpportunity d.opportunity_id x
      → Loops left (record_execution parts e (with_decision profit d r) x)
  unfolding record_execution Loops ForOpportunity collect_order_fill
  record_execution-Loops left o d profit e r (st, raised) g k a f = tt
  record_execution-Loops left o d profit e r (st, returned x) g k a f = record {
    gated = record {
      executed =
          map-append executed_id r.executions (x ∷ [])
          ∙ ap (λ ids. ids ++ (x.opportunity_id ∷ [])) g.executed
          ∙ ap (λ i. map decided_id (keep_if is_approved r.risk_decisions) ++ (i ∷ [])) f
          ∙ sym (map-append decided_id (keep_if is_approved r.risk_decisions) (d ∷ []))
          ∙ ap (map decided_id) (sym (keep_if-last is_approved r.risk_decisions d a));
      refused = g.refused ∙ sym (keep_if-drop_last is_refused r.risk_decisions d (ap not a));
      paired = g.paired;
    };
    decided = k;
  }

  act_on-Loops :
      (left : List TradeOpportunity) (venues : List MarketSnapshot) (primary : MarketSnapshot)
      (draw : Draw) (o : TradeOpportunity) (d : RiskDecision) (profit : ProfitabilityResult)
      (c : Cycle S)
      → Loop (o ∷ left) c
      → d.opportunity_id ≡ o.id
      → Loops left (
          act_on parts venues primary draw o d
            (record c { result = with_decision profit d c.result }))
  unfolding act_on Loops
  act_on-Loops left venues primary draw o d profit c l e =
      let ds = c.result.risk_decisions in
      let k = decide_next ds d o left e ∙ l.decided in
      if_rule (Loops left) (not (is_approved d))
        (λ no. record {
          gated = record {
            executed =
                l.gated.executed
                ∙ ap (map decided_id) (sym (keep_if-drop_last is_approved ds d (ground arith)));
            refused =
                map-append (λ x. x.1) c.result.rejected ((o, d) ∷ [])
                ∙ ap (λ xs. xs ++ (d ∷ [])) l.gated.refused
                ∙ sym (keep_if-last is_refused ds d no);
            paired =
                map-append rejected_id c.result.rejected ((o, d) ∷ [])
                ∙ ap (λ ids. ids ++ (o.id ∷ [])) l.gated.paired
                ∙ ap (λ i. map reason_id c.result.rejected ++ (i ∷ [])) (sym e)
                ∙ sym (map-append reason_id c.result.rejected ((o, d) ∷ []));
          };
          decided = k;
        })
        (λ yes.
          record_execution-Loops left o d profit c.engine c.result _ l.gated k (ground arith) (
            execute_opportunity-ForOpportunity parts.executor_settings draw d o _ _
              c.engine.executor e))

  process-Loops :
      (left : List TradeOpportunity) (venues : List MarketSnapshot) (primary : MarketSnapshot)
      (draw : Draw) (o : TradeOpportunity) (c : Cycle S)
      → Loop (o ∷ left) c
      → Loops left (process parts venues primary draw o c)
  unfolding process enrich_for_risk
  process-Loops left venues primary draw o c l =
      let (enriched, ctx) = enrich_for_risk parts.market_data o venues in
      let (risk, d) =
        evaluate parts.risk_settings draw.now enriched (view (parts.profitability o)) c.portfolio
          ctx c.engine.risk in
      let e = record (c.engine) { risk = risk; executor = mark_opportunity o c.engine.executor } in
      act_on-Loops left venues primary draw enriched d (parts.profitability o)
        (record c { engine = e }) (record { gated = l.gated; decided = l.decided })
        (evaluate-opportunity_id parts.risk_settings draw.now enriched _ c.portfolio ctx
          c.engine.risk)

  process_all-Loops :
      (os : List TradeOpportunity) (venues : List MarketSnapshot) (primary : MarketSnapshot)
      (draws : ℕ → Draw) (n : ℕ) (r : Run S)
      → Loops os r
      → Loops [] (process_all parts venues primary draws n os r)
  unfolding process_all Loops
  process_all-Loops os venues primary draws n (aborted e) l = tt
  process_all-Loops [] venues primary draws n (running c) l = l
  process_all-Loops (o ∷ os) venues primary draws n (running c) l =
      process_all-Loops os venues primary draws (suc n) (process parts venues primary (draws n) o c)
        (process-Loops os venues primary (draws n) o c l)

  -- The result of a cycle that ends.
  Finished : Engine S × Option TradeCycleResult → Type 0
  Finished (e, none) = Unit
  Finished (e, some r) =
      IsGated r × (map decided_id r.risk_decisions ≡ map opportunity_id_of r.opportunities)

  conclude-Finished : (r : Run S) → Loops [] r → Finished (conclude parts r)
  unfolding conclude Loops Finished
  conclude-Finished (aborted e) l = tt
  conclude-Finished (running c) l = (
    record { executed = l.gated.executed; refused = l.gated.refused; paired = l.gated.paired },
    sym (append_nil (map decided_id c.result.risk_decisions)) ∙ l.decided,
  )

  run_once-Finished :
      (draws : ℕ → Draw) (symbol : Str) (e : Engine S) → Finished (run_once parts draws symbol e)
  unfolding run_once Finished Loops
  run_once-Finished draws symbol e =
      option_rule Finished (load_snapshots parts.market_data symbol) (λ _. tt)
        λ (venues, primary) _.
          let (s, os) = find_opportunities parts venues primary e.strategy_state in
          conclude-Finished _ (
            process_all-Loops os venues primary draws 0 _ (record {
              gated = record { executed = refl; refused = refl; paired = refl };
              decided = refl;
            }))

  Finished-some :
      (x : Engine S × Option TradeCycleResult) {r : TradeCycleResult}
      → x.1 ≡ some r
      → Finished x
      → IsGated r × (map decided_id r.risk_decisions ≡ map opportunity_id_of r.opportunities)
  unfolding Finished
  Finished-some (e, none) h f = cc
  Finished-some (e, some s) {r} h f = subst (λ (o : Option TradeCycleResult). Finished (e, o)) h f

  -- Whatever the market data, the strategy and the profitability engine: when a cycle ends with a
  -- result, each opportunity has one risk decision, in order, the executed ones are exactly those
  -- whose decision approves, in order, and the others are listed as rejected, each with a decision
  -- about it.
  pub run_once-IsGated :
      (draws : ℕ → Draw) (symbol : Str) (e : Engine S) {r : TradeCycleResult}
      → (run_once parts draws symbol e).1 ≡ some r
      → IsGated r × (map decided_id r.risk_decisions ≡ map opportunity_id_of r.opportunities)
  run_once-IsGated draws symbol e done =
      Finished-some (run_once parts draws symbol e) done (run_once-Finished draws symbol e)
