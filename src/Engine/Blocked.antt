-- ===== src/Engine/Blocked.antt =====
-- A cycle while the kill switch blocks new orders.
use moreney.Prelude.{
  ℕ, suc, ◌≡◌, refl, ◌∙◌, true, false, not, Option, none, some, List, [], ◌∷◌, arith, if_rule,
  option_rule,
}
use moreney.Core.Enums.{RiskDecisionStatus}
use moreney.Core.Text.{Str}
use moreney.Core.Models.{MarketSnapshot, TradeOpportunity}
use moreney.Portfolio.Paper.{set_mark_price, get_snapshot, update_unrealized, update_drawdown}
use moreney.Execution.Executor.{Executor}
use moreney.Risk.Models.{RiskDecision, is_approved}
use moreney.Risk.KillSwitch.{allows_new_orders}
use moreney.Risk.Engine.{evaluate}
use moreney.Risk.Decisions.{evaluate_blocked}
use moreney.Engine.Market.{load_snapshots, enrich_for_risk}
use moreney.Engine.Cycle.{
  Parts, Engine, Cycle, Run, running, aborted, Draw, TradeCycleResult, view, act_on, process,
  process_all, find_opportunities, conclude, run_once, mark_opportunity, take_snapshot,
}

-- Orders, fills, balances, positions and the record of processed fills are the same.
pub record SameBooks (st' st : Executor) : Type 0 where
  pub orders : st'.orders ≡ st.orders
  pub tracker : st'.tracker ≡ st.tracker
  pub history : st'.history ≡ st.history
  pub balances : st'.portfolio.state.balances ≡ st.portfolio.state.balances
  pub positions : st'.portfolio.state.positions ≡ st.portfolio.state.positions
  pub processed : st'.portfolio.processed ≡ st.portfolio.processed

SameBooks-refl : (st : Executor) → SameBooks st st
SameBooks-refl st = record {
  orders = refl;
  tracker = refl;
  history = refl;
  balances = refl;
  positions = refl;
  processed = refl;
}

SameBooks-trans : {a b c : Executor} → SameBooks a b → SameBooks b c → SameBooks a c
SameBooks-trans s t = record {
  orders = s.orders ∙ t.orders;
  tracker = s.tracker ∙ t.tracker;
  history = s.history ∙ t.history;
  balances = s.balances ∙ t.balances;
  positions = s.positions ∙ t.positions;
  processed = s.processed ∙ t.processed;
}

take_snapshot-SameBooks : (st : Executor) → SameBooks (take_snapshot st).0 st
unfolding get_snapshot update_unrealized update_drawdown
take_snapshot-SameBooks st = record {
  orders = refl;
  tracker = refl;
  history = refl;
  balances = refl;
  positions = refl;
  processed = refl;
}

mark_opportunity-SameBooks :
    (o : TradeOpportunity) (st : Executor) → SameBooks (mark_opportunity o st) st
unfolding mark_opportunity set_mark_price update_unrealized update_drawdown
mark_opportunity-SameBooks o st =
    option_rule (λ x. SameBooks x st) o.market (λ _. SameBooks-refl st)
      λ s _. record {
        orders = refl;
        tracker = refl;
        history = refl;
        balances = refl;
        positions = refl;
        processed = refl;
      }

-- The cycle has executed nothing since the executor was `st`, and the switch blocks.
record IsIdle {S : Type 0} (st : Executor) (c : Cycle S) : Type 0 where
  none_executed : c.result.executions ≡ []
  blocked : allows_new_orders c.engine.risk.kill_switch ≡ false
  books : SameBooks c.engine.executor st

Idles : {S : Type 0} → Executor → Run S → Type 0
Idles st (aborted e) = ⊥
Idles st (running c) = IsIdle st c

-- A cycle that ends with a result, no execution and the books as they were.
pub record EndsIdle {S : Type 0} (st : Executor) (x : Engine S × Option TradeCycleResult)
    : Type 0 where
  pub result : TradeCycleResult
  pub returns : x.1 ≡ some result
  pub none_executed : result.executions ≡ []
  pub still_blocked : allows_new_orders x.0.risk.kill_switch ≡ false
  pub books : SameBooks x.0.executor st

none_not_some {ℓ} : {A : Type ℓ} {o : Option A} {a : A} → o ≡ none → o ≡ some a → ⊥
none_not_some h k = cc

rejected_not_approved :
    (d : RiskDecision) → d.status ≡ RiskDecisionStatus.rejected → not (is_approved d) ≡ true
rejected_not_approved d h = ground arith

module _ {S : Type 0} (parts : Parts S) (st : Executor) where
  process-Idles :
      (venues : List MarketSnapshot) (primary : MarketSnapshot) (draw : Draw) (o : TradeOpportunity)
      (c : Cycle S)
      → IsIdle st c
      → Idles st (process parts venues primary draw o c)
  unfolding process act_on Idles
  process-Idles venues primary draw o c l =
      let (enriched, ctx) = enrich_for_risk parts.market_data o venues in
      let (risk, d) =
        evaluate parts.risk_settings draw.now enriched (view (parts.profitability o)) c.portfolio
          ctx c.engine.risk in
      let (refuses, _, _, still) =
        evaluate_blocked parts.risk_settings draw.now enriched (view (parts.profitability o))
          c.portfolio ctx c.engine.risk l.blocked in
      if_rule (Idles st) (not (is_approved d))
        (λ _. record {
          none_executed = l.none_executed;
          blocked = still;
          books = SameBooks-trans (mark_opportunity-SameBooks o c.engine.executor) l.books;
        })
        (λ yes. ground (arith, rejected_not_approved d refuses))

  process_all-Idles :
      (os : List TradeOpportunity) (venues : List MarketSnapshot) (primary : MarketSnapshot)
      (draws : ℕ → Draw) (n : ℕ) (r : Run S)
      → Idles st r
      → Idles st (process_all parts venues primary draws n os r)
  unfolding process_all Idles
  process_all-Idles os venues primary draws n (aborted e) l = l
  process_all-Idles [] venues primary draws n (running c) l = l
  process_all-Idles (o ∷ os) venues primary draws n (running c) l =
      process_all-Idles os venues primary draws (suc n) (process parts venues primary (draws n) o c)
        (process-Idles venues primary (draws n) o c l)

  conclude-EndsIdle : (r : Run S) → Idles st r → EndsIdle st (conclude parts r)
  unfolding conclude Idles
  conclude-EndsIdle (aborted e) l = absurd l
  conclude-EndsIdle (running c) l = record {
    result = _;
    returns = refl;
    none_executed = l.none_executed;
    still_blocked = l.blocked;
    books = l.books;
  }

-- While the kill switch blocks, a cycle whose snapshots load ends with a result in which nothing was
-- executed; orders, fills, balances, positions and processed fills are as they were, and the switch
-- goes on blocking.
pub run_once_blocked :
    {S : Type 0} (parts : Parts S) (draws : ℕ → Draw) (symbol : Str) (e : Engine S)
    {venues : List MarketSnapshot} {primary : MarketSnapshot}
    → load_snapshots parts.market_data symbol ≡ some (venues, primary)
    → allows_new_orders e.risk.kill_switch ≡ false
    → EndsIdle e.executor (run_once parts draws symbol e)
unfolding run_once Idles
run_once_blocked parts draws symbol e loads blocks =
    option_rule (EndsIdle e.executor) (load_snapshots parts.market_data symbol)
      (λ missing. absurd (none_not_some missing loads))
      λ (venues, primary) _.
        let (s, os) = find_opportunities parts venues primary e.strategy_state in
        conclude-EndsIdle parts e.executor _ (
          process_all-Idles parts e.executor os venues primary draws 0 _ (record {
            none_executed = refl;
            blocked = blocks;
            books = take_snapshot-SameBooks e.executor;
          }))
