-- ===== src/Strategies/Soundness.antt =====
-- What holds of each opportunity that the strategy emits.
use moreney.Prelude.{
  ℕ, ◌≡◌, ◌≢◌, refl, ap, sym, ◌∙◌, true, false, not, ◌||◌, Option, none, some, List, [], ◌∷◌, All,
  All-append, length, ltb, if_rule, arith,
}
use moreney.Prelude.Int.{◌≤ℤ◌, ◌<ℤ◌, ltb_ℤ, leb_ℤ, min_ℤ_le}
use moreney.Prelude.Dict.{Dict, Entries}
use moreney.Core.Enums.{OpportunitySide}
use moreney.Core.Text.{Str, str_eq, str_eq_iff, str_instance, upper}
use moreney.Core.Models.{MarketSnapshot, TradeOpportunity}
use moreney.Decimal.{Decimal, zero_d}
use moreney.Strategies.Depth.{ArbitrageCandidate, fill_depth}
use moreney.Strategies.Scan.{Scan}
use moreney.Strategies.Admission.{IsAdmitted, Admitted, Grouped, group_snapshots-Grouped}
use moreney.Strategies.Arbitrage.{
  ArbitrageSettings, ProfitabilityEngine, Venue, group_snapshots, overlap, Pairing, edge, no_edge,
  candidate_of, opportunity_of, opportunity_is_valid, with_profit, gate_candidate, emit,
  settle_pairing, evaluate_pair, evaluate_sells, evaluate_buys, scan_symbol, evaluate_symbols,
  evaluate_markets,
}

-- The opportunity buys at one venue and sells at another, and pays.
pub record IsSound (a : ArbitrageSettings) (now : ℕ) (profit : ProfitabilityEngine)
    (o : TradeOpportunity) : Type 0 where
  pub buy_venue : Venue
  pub sell_venue : Venue
  pub exit_price : Decimal
  pub buy_admitted : IsAdmitted a now o.symbol buy_venue
  pub sell_admitted : IsAdmitted a now o.symbol sell_venue
  pub two_exchanges : buy_venue.exchange ≢ sell_venue.exchange
  pub buys : o.side ≡ OpportunitySide.buy
  pub enough : a.min_liquidity ≤ℤ o.quantity
  pub capped : o.quantity ≤ℤ a.max_quantity
  pub some_quantity : zero_d <ℤ o.quantity
  pub some_price : zero_d <ℤ o.entry_price
  pub fills_buy : (fill_depth buy_venue.book.asks o.quantity).sufficient ≡ true
  pub fills_sell : (fill_depth sell_venue.book.bids o.quantity).sufficient ≡ true
  pub entry : o.entry_price ≡ (fill_depth buy_venue.book.asks o.quantity).vwap
  pub exit : o.expected_exit_price ≡ some exit_price
  pub exit_vwap : exit_price ≡ (fill_depth sell_venue.book.bids o.quantity).vwap
  pub has_edge : o.entry_price <ℤ exit_price
  pub market : o.market ≡ some (record (buy_venue.snapshot) { order_book = none })
  pub at_buy : o.metadata.buy_exchange ≡ some buy_venue.exchange
  pub at_sell : o.metadata.sell_exchange ≡ some sell_venue.exchange
  pub draft : TradeOpportunity
  pub shows : o ≡ with_profit (profit draft) draft
  pub allowed : (profit draft).trade_allowed ≡ true
  pub enough_profit : a.min_profit_eur ≤ℤ (profit draft).net_profit_usd
  pub enough_return : a.min_profit_pct ≤ℤ (profit draft).net_return

-- What a candidate keeps of the two venues it stands for.
record IsFor (a : ArbitrageSettings) (buy sell : Venue) (c : ArbitrageCandidate) : Type 0 where
  symbol_is : c.symbol ≡ upper buy.snapshot.symbol
  buy_is : c.buy_exchange ≡ buy.exchange
  sell_is : c.sell_exchange ≡ sell.exchange
  snapshot_is : c.buy_snapshot ≡ buy.snapshot
  enough : a.min_liquidity ≤ℤ c.quantity
  capped : c.quantity ≤ℤ a.max_quantity
  fills_buy : (fill_depth buy.book.asks c.quantity).sufficient ≡ true
  fills_sell : (fill_depth sell.book.bids c.quantity).sufficient ≡ true
  buy_price : c.buy_vwap ≡ (fill_depth buy.book.asks c.quantity).vwap
  sell_price : c.sell_vwap ≡ (fill_depth sell.book.bids c.quantity).vwap
  has_edge : c.buy_vwap <ℤ c.sell_vwap

EdgeOf : (ArbitrageCandidate → Type 0) → Pairing → Type 0
EdgeOf P (edge c) = P c
EdgeOf P (no_edge _) = Unit

candidate_of-IsFor :
    (a : ArbitrageSettings) (buy sell : Venue) → EdgeOf (IsFor a buy sell) (candidate_of a buy sell)
unfolding candidate_of overlap EdgeOf
candidate_of-IsFor a buy sell =
    let P = EdgeOf (IsFor a buy sell) in
    let q = overlap a buy sell in
    let buy_fill = fill_depth buy.book.asks q in
    let sell_fill = fill_depth sell.book.bids q in
    if_rule P (ltb_ℤ q a.min_liquidity) (λ _. tt)
      λ large.
        if_rule P (not buy_fill.sufficient || not sell_fill.sufficient) (λ _. tt)
          λ fills.
            if_rule P (leb_ℤ sell_fill.vwap buy_fill.vwap) (λ _. tt)
              λ pays. record {
                symbol_is = refl;
                buy_is = refl;
                sell_is = refl;
                snapshot_is = refl;
                enough = ground arith;
                capped = (min_ℤ_le _ _).1;
                fills_buy = ground arith;
                fills_sell = ground arith;
                buy_price = refl;
                sell_price = refl;
                has_edge = ground arith;
              }

-- What the opportunity keeps of the buying venue's snapshot.
abbrev without_book : MarketSnapshot → Option MarketSnapshot
without_book s = some (record s { order_book = none })

module _ (a : ArbitrageSettings) (profit : ProfitabilityEngine) (now : ℕ) where
  AllSound : Scan × List TradeOpportunity → Type 0
  AllSound r = All (IsSound a now profit) r.1

  settle_pairing-AllSound :
      (symbol : Str) (buy sell : Venue) (p : Pairing) (sc : Scan)
      → EdgeOf (IsFor a buy sell) p
      → IsAdmitted a now symbol buy
      → IsAdmitted a now symbol sell
      → buy.exchange ≢ sell.exchange
      → AllSound (settle_pairing a profit p sc)
  unfolding settle_pairing gate_candidate emit AllSound EdgeOf opportunity_of
  settle_pairing-AllSound symbol buy sell (no_edge code) sc _ b s d = tt
  settle_pairing-AllSound symbol buy sell (edge c) sc f b s d =
      let P = λ (r : Scan × Option TradeOpportunity). AllSound (emit a profit r) in
      let o = opportunity_of sc.drawn c in
      let r = profit o in
      let at = f.symbol_is ∙ b.listed in
      if_rule P (not (opportunity_is_valid o)) (λ _. tt)
        λ valid.
          if_rule P (not r.trade_allowed) (λ _. tt)
            λ allowed.
              if_rule P (ltb_ℤ r.net_profit_usd a.min_profit_eur) (λ _. tt)
                λ profits.
                  if_rule P (ltb_ℤ r.net_return a.min_profit_pct) (λ _. tt)
                    λ pays. (
                      record {
                        buy_venue = buy;
                        sell_venue = sell;
                        exit_price = c.sell_vwap;
                        buy_admitted = record { accepts = b.accepts; listed = b.listed ∙ sym at };
                        sell_admitted = record { accepts = s.accepts; listed = s.listed ∙ sym at };
                        two_exchanges = d;
                        buys = refl;
                        enough = f.enough;
                        capped = f.capped;
                        some_quantity = ground arith;
                        some_price = ground arith;
                        fills_buy = f.fills_buy;
                        fills_sell = f.fills_sell;
                        entry = f.buy_price;
                        exit = refl;
                        exit_vwap = f.sell_price;
                        has_edge = f.has_edge;
                        market = ap without_book f.snapshot_is;
                        at_buy = ap some f.buy_is;
                        at_sell = ap some f.sell_is;
                        draft = o;
                        shows = refl;
                        allowed = ground arith;
                        enough_profit = ground arith;
                        enough_return = ground arith;
                      },
                      tt,
                    )

  module _ (symbol : Str) where
    evaluate_pair-AllSound :
        (buy sell : Venue) (sc : Scan)
        → IsAdmitted a now symbol buy
        → IsAdmitted a now symbol sell
        → AllSound (evaluate_pair a profit buy sell sc)
    unfolding evaluate_pair AllSound
    evaluate_pair-AllSound buy sell sc b s =
        if_rule AllSound (sc.raised || str_eq buy.exchange sell.exchange) (λ _. tt)
          λ differ.
            settle_pairing-AllSound symbol buy sell (candidate_of a buy sell) _
              (candidate_of-IsFor a buy sell) b s
              (ground (arith, str_eq_iff buy.exchange sell.exchange))

    evaluate_sells-AllSound :
        (buy : Venue) (sells : List Venue) (sc : Scan)
        → IsAdmitted a now symbol buy
        → Admitted a now symbol sells
        → AllSound (evaluate_sells a profit buy sells sc)
    unfolding evaluate_sells AllSound Admitted
    evaluate_sells-AllSound buy [] sc b _ = tt
    evaluate_sells-AllSound buy (sell ∷ sells) sc b (s, ss) =
        All-append _ _ _ (evaluate_pair-AllSound buy sell sc b s)
          (evaluate_sells-AllSound buy sells _ b ss)

    evaluate_buys-AllSound :
        (venues buys : List Venue) (sc : Scan)
        → Admitted a now symbol venues
        → Admitted a now symbol buys
        → AllSound (evaluate_buys a profit venues buys sc)
    unfolding evaluate_buys AllSound Admitted
    evaluate_buys-AllSound venues [] sc v _ = tt
    evaluate_buys-AllSound venues (buy ∷ buys) sc v (b, bs) =
        All-append _ _ _ (evaluate_sells-AllSound buy venues sc b v)
          (evaluate_buys-AllSound venues buys _ v bs)

    scan_symbol-AllSound :
        (venues : List Venue) (sc : Scan)
        → Admitted a now symbol venues
        → AllSound (scan_symbol a profit venues sc)
    unfolding scan_symbol AllSound
    scan_symbol-AllSound venues sc v =
        if_rule AllSound sc.raised (λ _. tt)
          λ _.
            if_rule AllSound (ltb (length venues) 2) (λ _. tt)
              (λ _. evaluate_buys-AllSound venues venues sc v v)

  evaluate_symbols-AllSound :
      (g : Dict Str (List Venue)) (sc : Scan)
      → Grouped a now g
      → AllSound (evaluate_symbols a profit g sc)
  unfolding evaluate_symbols AllSound Grouped Entries
  evaluate_symbols-AllSound [] sc _ = tt
  evaluate_symbols-AllSound ((symbol, venues) ∷ g) sc (v, vs) =
      All-append _ _ _ (scan_symbol-AllSound symbol venues sc v) (evaluate_symbols-AllSound g _ vs)

  -- Each opportunity that a pass emits, before it raises if it does, has a positive quantity and entry
  -- price, and buys at one accepted venue and sells at an accepted venue of
  -- another exchange and the same symbol, where both books can fill its quantity; the quantity is
  -- within the settings' bounds, the entry price is the average of the one walk and below the exit
  -- price, that of the other, and the profitability engine allows the draft with a net profit and a
  -- net return at or above the settings' minima, which the opportunity shows.
  pub evaluate_markets-IsSound :
      (snapshots : List MarketSnapshot) (sc : Scan)
      → All (IsSound a now profit) (evaluate_markets a profit now snapshots sc).1
  unfolding evaluate_markets AllSound Grouped Entries
  evaluate_markets-IsSound snapshots sc =
      let start = record sc { raised = false } in
      let (g, sc') = group_snapshots a now snapshots [] start in
      evaluate_symbols-AllSound g sc' (group_snapshots-Grouped a now snapshots [] start tt)
