-- ===== src/Strategies/Arbitrage.antt =====
-- `CrossExchangeArbitrageStrategy`: venues are filtered and paired, and a pair becomes an opportunity
-- if its net profit clears the gates. The confidence and the rationale are left out.
use moreney.Prelude.{
  ℕ, ◌+◌, Bool, true, false, not, ◌&&◌, ◌||◌, Option, none, some, List, [], ◌∷◌, ◌++◌,
  if◌then◌else◌, ltb, length, get_or,
}
use moreney.Prelude.Int.{ltb_ℤ, leb_ℤ, min_ℤ}
use moreney.Prelude.Dict.{Dict, lookup, insert}
use moreney.Decimal.{Decimal, zero_d, is_pos}
use moreney.Core.Enums.{OpportunitySide, FeeRole}
use moreney.Core.Text.{Str, codes, str_eq, str_instance, upper}
use moreney.Core.Models.{OrderBook, OrderBookLevel, MarketSnapshot, no_metadata, TradeOpportunity}
use moreney.Profitability.Fees.{ProfitSettings}
use moreney.Profitability.NetProfit.{ProfitabilityResult, evaluate_profit}
use moreney.Strategies.Depth.{ArbitrageCandidate, side_depth, fill_depth, book_age_ms}
use moreney.Strategies.Scan.{Scan, reject_scan}

-- The settings `arbitrage_*`.
pub record ArbitrageSettings : Type 0 where
  pub min_profit_eur : Decimal
  pub min_profit_pct : Decimal
  pub min_liquidity : Decimal
  pub max_quantity : Decimal
  pub max_latency_ms : Decimal
  pub max_book_age_ms : Decimal

-- The protocol `ProfitabilityEngine`, as the strategy calls it.
abbrev pub ProfitabilityEngine : Type 0
ProfitabilityEngine = TradeOpportunity → ProfitabilityResult

-- `_build_profitability_engine`
unfoldable pub build_profitability_engine : ArbitrageSettings → ProfitSettings → ProfitabilityEngine
build_profitability_engine a cfg o =
    evaluate_profit
      (record cfg {
        min_net_profit_usd = a.min_profit_eur;
        min_net_return = a.min_profit_pct;
        apply_funding = false;
      })
      none o none

abbrev pub arbitrage_name : Str
arbitrage_name = codes "cross_exchange_arbitrage"

-- A venue that passed: its exchange and its book are there.
pub record Venue : Type 0 where
  pub exchange : Str
  pub book : OrderBook
  pub snapshot : MarketSnapshot

abbrev pub lacks_levels : List OrderBookLevel → Bool
lacks_levels [] = true
lacks_levels (level ∷ levels) = false

abbrev pub exceeds_latency : Option Decimal → Decimal → Bool
exceeds_latency none limit = false
exceeds_latency (some ms) limit = ltb_ℤ limit ms

-- The reasons of `_venue_rejection_reason` about a book that is there.
unfoldable pub book_rejection : ArbitrageSettings → ℕ → MarketSnapshot → OrderBook → Option Str
book_rejection a now s book =
    if lacks_levels book.asks || lacks_levels book.bids
    then some (codes "empty_book")
    else if ltb_ℤ (side_depth book.asks) a.min_liquidity
        || ltb_ℤ (side_depth book.bids) a.min_liquidity
    then some (codes "insufficient_liquidity")
    else if exceeds_latency s.latency_ms a.max_latency_ms
    then some (codes "latency")
    else if ltb_ℤ a.max_book_age_ms (book_age_ms now s)
    then some (codes "stale_book")
    else none

pub data Verdict : Type 0 where
  accepted : Venue → Verdict
  refused : Str → Verdict

-- An empty name of an exchange counts as missing.
abbrev pub exchange_named : Option Str → Option Str
exchange_named none = none
exchange_named (some []) = none
exchange_named (some (c ∷ name)) = some (c ∷ name)

-- `_venue_rejection_reason`
unfoldable pub venue_verdict : ArbitrageSettings → ℕ → MarketSnapshot → Verdict
venue_verdict a now s = elim (exchange_named s.exchange) [
  | none ↦ refused (codes "missing_exchange")
  | some name ↦ elim s.order_book [
    | none ↦ refused (codes "missing_order_book")
    | some book ↦ elim (book_rejection a now s book) [
      | none ↦ accepted (record { exchange = name; book = book; snapshot = s })
      | some code ↦ refused code
    ]
  ]
]

-- `grouped.setdefault(symbol, []).append(snapshot)`
abbrev pub add_venue : Str → Venue → Dict Str (List Venue) → Dict Str (List Venue)
add_venue symbol v g = insert symbol (get_or (lookup symbol g) [] ++ (v ∷ [])) g

-- The body of the loop of `_group_valid_snapshots`, by the verdict on the snapshot.
unfoldable pub file_verdict :
    Str → Verdict → Dict Str (List Venue) → Scan → Dict Str (List Venue) × Scan
file_verdict symbol (accepted v) g sc = (add_venue (upper symbol) v g, sc)
file_verdict symbol (refused code) g sc = (g, reject_scan code sc)

-- `_group_valid_snapshots`
unfoldable pub group_snapshots :
    ArbitrageSettings
    → ℕ
    → List MarketSnapshot
    → Dict Str (List Venue)
    → Scan
    → Dict Str (List Venue) × Scan
group_snapshots a now [] g sc = (g, sc)
group_snapshots a now (s ∷ ss) g sc =
    let (g', sc') = file_verdict s.symbol (venue_verdict a now s) g sc in
    group_snapshots a now ss g' sc'

-- The quantity that both books and the settings allow.
unfoldable pub overlap : ArbitrageSettings → Venue → Venue → Decimal
overlap a buy sell =
    min_ℤ (min_ℤ (side_depth buy.book.asks) (side_depth sell.book.bids)) a.max_quantity

-- What `_build_candidate` comes to: a candidate, or the code of its rejection.
pub data Pairing : Type 0 where
  edge : ArbitrageCandidate → Pairing
  no_edge : Str → Pairing

-- `_build_candidate`
unfoldable pub candidate_of : ArbitrageSettings → Venue → Venue → Pairing
candidate_of a buy sell =
    let quantity = overlap a buy sell in
    let buy_fill = fill_depth buy.book.asks quantity in
    let sell_fill = fill_depth sell.book.bids quantity in
    if ltb_ℤ quantity a.min_liquidity
    then no_edge (codes "insufficient_overlapping_liquidity")
    else if not buy_fill.sufficient || not sell_fill.sufficient
    then no_edge (codes "insufficient_depth_for_quantity")
    else if leb_ℤ sell_fill.vwap buy_fill.vwap
    then no_edge (codes "no_depth_edge")
    else edge (record {
      symbol = upper buy.snapshot.symbol;
      buy_exchange = buy.exchange;
      sell_exchange = sell.exchange;
      quantity = quantity;
      buy_vwap = buy_fill.vwap;
      sell_vwap = sell_fill.vwap;
      buy_depth = side_depth buy.book.asks;
      sell_depth = side_depth sell.book.bids;
      buy_snapshot = buy.snapshot;
      sell_snapshot = sell.snapshot;
    })

-- The opportunity of a candidate, before its profit is known.
unfoldable pub opportunity_of : ℕ → ArbitrageCandidate → TradeOpportunity
opportunity_of id c = record {
  id = id;
  strategy_name = arbitrage_name;
  symbol = c.symbol;
  side = OpportunitySide.buy;
  quantity = c.quantity;
  entry_price = c.buy_vwap;
  expected_exit_price = some c.sell_vwap;
  market = some (record (c.buy_snapshot) { order_book = none });
  entry_fee_role = FeeRole.taker;
  exit_fee_role = FeeRole.taker;
  funding_periods = zero_d;
  metadata = record no_metadata {
    buy_exchange = some c.buy_exchange;
    sell_exchange = some c.sell_exchange;
    buy_vwap = some c.buy_vwap;
    sell_vwap = some c.sell_vwap;
  };
}

-- The bounds that the model `TradeOpportunity` puts on its fields.
abbrev pub opportunity_is_valid : TradeOpportunity → Bool
opportunity_is_valid o = is_pos o.quantity && is_pos o.entry_price

-- The accepted opportunity, with the figures of its profit.
abbrev pub with_profit : ProfitabilityResult → TradeOpportunity → TradeOpportunity
with_profit r o = record o {
  metadata = record (o.metadata) {
    net_profit_eur = some r.net_profit_usd;
    net_return = some r.net_return;
    gross_profit_eur = some r.gross_profit_usd;
  };
}

module _ (a : ArbitrageSettings) (profit : ProfitabilityEngine) where
  -- `_gate_candidate`; an opportunity that is not valid raises.
  unfoldable pub gate_candidate : ArbitrageCandidate → Scan → Scan × Option TradeOpportunity
  gate_candidate c sc =
      let o = opportunity_of sc.drawn c in
      let r = profit o in
      let sc' = record sc { drawn = sc.drawn + 1 } in
      if not (opportunity_is_valid o)
      then (record sc { raised = true }, none)
      else if not r.trade_allowed
      then (reject_scan (codes "profitability") sc', none)
      else if ltb_ℤ r.net_profit_usd a.min_profit_eur
      then (reject_scan (codes "min_profit_eur") sc', none)
      else if ltb_ℤ r.net_return a.min_profit_pct
      then (reject_scan (codes "min_profit_pct") sc', none)
      else (sc', some (with_profit r o))

  -- `_opportunities_emitted += 1` and the list that grows by an opportunity.
  unfoldable pub emit : Scan × Option TradeOpportunity → Scan × List TradeOpportunity
  emit (sc, none) = (sc, [])
  emit (sc, some o) = (record sc { opportunities_emitted = sc.opportunities_emitted + 1 }, o ∷ [])

  -- The part of the inner loop after the candidate.
  unfoldable pub settle_pairing : Pairing → Scan → Scan × List TradeOpportunity
  settle_pairing (no_edge code) sc = (reject_scan code sc, [])
  settle_pairing (edge c) sc =
      emit (gate_candidate c (record sc { depth_edges_found = sc.depth_edges_found + 1 }))

  -- The body of the inner loop of `_evaluate_symbol`, which is not reached after a raise.
  unfoldable pub evaluate_pair : Venue → Venue → Scan → Scan × List TradeOpportunity
  evaluate_pair buy sell sc =
      if sc.raised || str_eq buy.exchange sell.exchange
      then (sc, [])
      else settle_pairing (candidate_of a buy sell)
          (record sc { pairs_evaluated = sc.pairs_evaluated + 1 })

  unfoldable pub evaluate_sells : Venue → List Venue → Scan → Scan × List TradeOpportunity
  evaluate_sells buy [] sc = (sc, [])
  evaluate_sells buy (sell ∷ sells) sc =
      let (sc', os) = evaluate_pair buy sell sc in
      let (sc'', os') = evaluate_sells buy sells sc' in (sc'', os ++ os')

  -- `_evaluate_symbol`, over the buying venues that are left.
  unfoldable pub evaluate_buys : List Venue → List Venue → Scan → Scan × List TradeOpportunity
  evaluate_buys venues [] sc = (sc, [])
  evaluate_buys venues (buy ∷ buys) sc =
      let (sc', os) = evaluate_sells buy venues sc in
      let (sc'', os') = evaluate_buys venues buys sc' in (sc'', os ++ os')

  -- The body of the loop of `evaluate_markets`, which is not reached after a raise: a symbol with one
  -- venue is rejected.
  unfoldable pub scan_symbol : List Venue → Scan → Scan × List TradeOpportunity
  scan_symbol venues sc =
      if sc.raised
      then (sc, [])
      else if ltb (length venues) 2
      then (reject_scan (codes "insufficient_venues") sc, [])
      else evaluate_buys venues venues sc

  -- The loop of `evaluate_markets` over the symbols.
  unfoldable pub evaluate_symbols : Dict Str (List Venue) → Scan → Scan × List TradeOpportunity
  evaluate_symbols [] sc = (sc, [])
  evaluate_symbols ((symbol, venues) ∷ g) sc =
      let (sc', os) = scan_symbol venues sc in
      let (sc'', os') = evaluate_symbols g sc' in (sc'', os ++ os')

  -- `evaluate_markets`; after a raise the list is what was found before.
  unfoldable pub evaluate_markets : ℕ → List MarketSnapshot → Scan → Scan × List TradeOpportunity
  evaluate_markets now snapshots sc =
      let (g, sc') = group_snapshots a now snapshots [] (record sc { raised = false }) in
      evaluate_symbols g sc'

-- `evaluate`: one snapshot is never enough.
unfoldable pub evaluate_single : MarketSnapshot → Scan → Scan × List TradeOpportunity
evaluate_single s sc = (reject_scan (codes "single_snapshot") (record sc { raised = false }), [])
