-- ===== src/Strategies/Counting.antt =====
-- The counters of the strategy, over the calls that change them.
use moreney.Prelude.{
  ℕ, ◌+◌, ◌≤◌, ◌≡◌, refl, true, false, ◌||◌, not, Option, List, [], ◌∷◌, length, length-append, ltb,
  if_rule, arith,
}
use moreney.Prelude.Int.{ltb_ℤ}
use moreney.Prelude.Dict.{Dict, sum_values, sum_values-insert}
use moreney.Core.Text.{Str, str_eq, str_instance}
use moreney.Core.Models.{MarketSnapshot, TradeOpportunity}
use moreney.Strategies.Scan.{Scan, reject_scan}
use moreney.Strategies.Arbitrage.{
  ArbitrageSettings, ProfitabilityEngine, Venue, Verdict, accepted, refused, venue_verdict,
  group_snapshots, file_verdict, Pairing, edge, no_edge, candidate_of, opportunity_of,
  opportunity_is_valid, gate_candidate, emit, settle_pairing, evaluate_pair, evaluate_sells,
  evaluate_buys, scan_symbol, evaluate_symbols, evaluate_markets,
}

-- From `sc` to `sc'` so many opportunities came out.
pub record Progress (sc sc' : Scan) (found : ℕ) : Type 0 where
  pub emitted : sc'.opportunities_emitted ≡ sc.opportunities_emitted + found
  pub counted :
      sum_values sc'.reject_counts + sc.scan_rejections
      ≡ sum_values sc.reject_counts + sc'.scan_rejections
  pub edges_in_pairs :
      sc'.depth_edges_found + sc.pairs_evaluated ≤ sc.depth_edges_found + sc'.pairs_evaluated
  pub found_in_edges : sc.depth_edges_found + found ≤ sc'.depth_edges_found
  pub explained :
      sc'.raised ≡ false
      → sc'.pairs_evaluated + sc.scan_rejections ≤ sc.pairs_evaluated + sc'.scan_rejections + found

-- A step also does not take back that the pass has raised.
record Passes (sc sc' : Scan) (found : ℕ) : Type 0 where
  progress : Progress sc sc' found
  stays : sc.raised ≡ true → sc'.raised ≡ true

-- What a scan and its opportunities come to.
Scanned : Scan → Scan × List TradeOpportunity → Type 0
Scanned sc r = Passes sc r.0 (length r.1)

Passes-refl : (sc : Scan) → Passes sc sc 0
Passes-refl sc = record {
  progress = record {
    emitted = omega arith;
    counted = omega arith;
    edges_in_pairs = omega arith;
    found_in_edges = omega arith;
    explained = λ _. omega arith;
  };
  stays = λ h. h;
}

Passes-trans :
    {sc sc' sc'' : Scan} {m n k : ℕ}
    → k ≡ m + n
    → Passes sc sc' m
    → Passes sc' sc'' n
    → Passes sc sc'' k
Passes-trans {sc} {sc'} {sc''} h p q =
    let P = p.progress in
    let Q = q.progress in
    record {
      progress = record {
        emitted = omega (arith, P.emitted, Q.emitted);
        counted = omega (arith, P.counted, Q.counted);
        edges_in_pairs = omega (arith, P.edges_in_pairs, Q.edges_in_pairs);
        found_in_edges = omega (arith, P.found_in_edges, Q.found_in_edges);
        explained = λ ends.
            let goes_on : sc'.raised ≡ false = ground (arith, q.stays) in
            omega (arith, P.explained goes_on, Q.explained ends);
      };
      stays = λ r. q.stays (p.stays r);
    }

reject_scan-Passes : (code : Str) (sc : Scan) → Passes sc (reject_scan code sc) 0
unfolding reject_scan
reject_scan-Passes code sc = record {
  progress = record {
    emitted = omega arith;
    counted = omega (arith, sum_values-insert code sc.reject_counts);
    edges_in_pairs = omega arith;
    found_in_edges = omega arith;
    explained = λ _. omega arith;
  };
  stays = λ h. h;
}

-- A pair that comes to nothing is rejected once.
pair_refused :
    (code : Str) (sc : Scan) (edges drawn : ℕ)
    → sc.depth_edges_found ≤ edges
    → edges ≤ sc.depth_edges_found + 1
    → Passes sc
        (reject_scan code (record sc {
          pairs_evaluated = sc.pairs_evaluated + 1;
          depth_edges_found = edges;
          drawn = drawn;
        }))
        0
unfolding reject_scan
pair_refused code sc edges drawn h k = record {
  progress = record {
    emitted = omega arith;
    counted = omega (arith, sum_values-insert code sc.reject_counts);
    edges_in_pairs = omega arith;
    found_in_edges = omega arith;
    explained = λ _. omega arith;
  };
  stays = λ h. h;
}

-- A pair whose opportunity is not valid ends the pass.
pair_raised :
    (sc : Scan)
    → Passes sc
        (record sc {
          pairs_evaluated = sc.pairs_evaluated + 1;
          depth_edges_found = sc.depth_edges_found + 1;
          raised = true;
        })
        0
pair_raised sc = record {
  progress = record {
    emitted = omega arith;
    counted = omega arith;
    edges_in_pairs = omega arith;
    found_in_edges = omega arith;
    explained = λ ends. cc;
  };
  stays = λ _. refl;
}

-- A pair whose opportunity is emitted.
pair_emitted :
    (sc : Scan)
    → Passes sc
        (record sc {
          pairs_evaluated = sc.pairs_evaluated + 1;
          depth_edges_found = sc.depth_edges_found + 1;
          opportunities_emitted = sc.opportunities_emitted + 1;
          drawn = sc.drawn + 1;
        })
        1
pair_emitted sc = record {
  progress = record {
    emitted = omega arith;
    counted = omega arith;
    edges_in_pairs = omega arith;
    found_in_edges = omega arith;
    explained = λ _. omega arith;
  };
  stays = λ h. h;
}

module _ (a : ArbitrageSettings) (profit : ProfitabilityEngine) where
  settle_pairing-Scanned :
      (p : Pairing) (sc : Scan)
      → Scanned sc
          (settle_pairing a profit p (record sc { pairs_evaluated = sc.pairs_evaluated + 1 }))
  unfolding settle_pairing Scanned gate_candidate emit
  settle_pairing-Scanned (no_edge code) sc =
      pair_refused code sc sc.depth_edges_found sc.drawn (omega arith) (omega arith)
  settle_pairing-Scanned (edge c) sc =
      let P = λ (r : Scan × Option TradeOpportunity). Scanned sc (emit a profit r) in
      let r = profit (opportunity_of sc.drawn c) in
      let refuse = λ (code : Str).
        pair_refused code sc (sc.depth_edges_found + 1) (sc.drawn + 1) (omega arith)
          (omega arith) in
      if_rule P (not (opportunity_is_valid (opportunity_of sc.drawn c))) (λ _. pair_raised sc)
        λ _.
          if_rule P (not r.trade_allowed) (λ _. refuse _)
            λ _.
              if_rule P (ltb_ℤ r.net_profit_usd a.min_profit_eur) (λ _. refuse _)
                λ _.
                  if_rule P (ltb_ℤ r.net_return a.min_profit_pct) (λ _. refuse _)
                    (λ _. pair_emitted sc)

  evaluate_pair-Scanned :
      (buy sell : Venue) (sc : Scan) → Scanned sc (evaluate_pair a profit buy sell sc)
  unfolding evaluate_pair Scanned
  evaluate_pair-Scanned buy sell sc =
      if_rule (Scanned sc) (sc.raised || str_eq buy.exchange sell.exchange) (λ _. Passes-refl sc)
        (λ _. settle_pairing-Scanned (candidate_of a buy sell) sc)

  evaluate_sells-Scanned :
      (buy : Venue) (sells : List Venue) (sc : Scan)
      → Scanned sc (evaluate_sells a profit buy sells sc)
  unfolding evaluate_sells Scanned
  evaluate_sells-Scanned buy [] sc = Passes-refl sc
  evaluate_sells-Scanned buy (sell ∷ sells) sc =
      let (sc', os) = evaluate_pair a profit buy sell sc in
      Passes-trans (length-append os (evaluate_sells a profit buy sells sc').1)
        (evaluate_pair-Scanned buy sell sc) (evaluate_sells-Scanned buy sells sc')

  evaluate_buys-Scanned :
      (venues buys : List Venue) (sc : Scan) → Scanned sc (evaluate_buys a profit venues buys sc)
  unfolding evaluate_buys Scanned
  evaluate_buys-Scanned venues [] sc = Passes-refl sc
  evaluate_buys-Scanned venues (buy ∷ buys) sc =
      let (sc', os) = evaluate_sells a profit buy venues sc in
      Passes-trans (length-append os (evaluate_buys a profit venues buys sc').1)
        (evaluate_sells-Scanned buy venues sc) (evaluate_buys-Scanned venues buys sc')

  scan_symbol-Scanned :
      (venues : List Venue) (sc : Scan) → Scanned sc (scan_symbol a profit venues sc)
  unfolding scan_symbol Scanned
  scan_symbol-Scanned venues sc =
      if_rule (Scanned sc) sc.raised (λ _. Passes-refl sc)
        λ _.
          if_rule (Scanned sc) (ltb (length venues) 2) (λ _. reject_scan-Passes _ sc)
            (λ _. evaluate_buys-Scanned venues venues sc)

  evaluate_symbols-Scanned :
      (g : Dict Str (List Venue)) (sc : Scan) → Scanned sc (evaluate_symbols a profit g sc)
  unfolding evaluate_symbols Scanned
  evaluate_symbols-Scanned [] sc = Passes-refl sc
  evaluate_symbols-Scanned ((symbol, venues) ∷ g) sc =
      let (sc', os) = scan_symbol a profit venues sc in
      Passes-trans (length-append os (evaluate_symbols a profit g sc').1)
        (scan_symbol-Scanned venues sc) (evaluate_symbols-Scanned g sc')

  file_verdict-Passes :
      (symbol : Str) (v : Verdict) (g : Dict Str (List Venue)) (sc : Scan)
      → Passes sc (file_verdict symbol v g sc).1 0
  unfolding file_verdict
  file_verdict-Passes symbol (accepted v) g sc = Passes-refl sc
  file_verdict-Passes symbol (refused code) g sc = reject_scan-Passes code sc

  group_snapshots-Passes :
      (now : ℕ) (snapshots : List MarketSnapshot) (g : Dict Str (List Venue)) (sc : Scan)
      → Passes sc (group_snapshots a now snapshots g sc).1 0
  unfolding group_snapshots
  group_snapshots-Passes now [] g sc = Passes-refl sc
  group_snapshots-Passes now (s ∷ ss) g sc =
      let v = venue_verdict a now s in
      let (g', sc') = file_verdict s.symbol v g sc in
      Passes-trans {m = 0} {n = 0} (omega arith) (file_verdict-Passes s.symbol v g sc)
        (group_snapshots-Passes now ss g' sc')

  -- A pass adds to the counter of emitted opportunities as many as it emits, to the rejections what it
  -- adds to the counts by code, to the pairs no fewer than to the edges, and to the edges no fewer than
  -- the opportunities; unless it raises, the pairs it adds are no more than the rejections it adds and
  -- the opportunities together.
  pub evaluate_markets-Progress :
      (now : ℕ) (snapshots : List MarketSnapshot) (sc : Scan)
      → let r = evaluate_markets a profit now snapshots sc in Progress sc r.0 (length r.1)
  unfolding evaluate_markets Scanned
  evaluate_markets-Progress now snapshots sc =
      let start = record sc { raised = false } in
      let p =
        Passes-trans {m = 0} (omega arith) (group_snapshots-Passes now snapshots [] start)
          (evaluate_symbols-Scanned _ _) in
      record {
        emitted = p.progress.emitted;
        counted = p.progress.counted;
        edges_in_pairs = p.progress.edges_in_pairs;
        found_in_edges = p.progress.found_in_edges;
        explained = p.progress.explained;
      }
