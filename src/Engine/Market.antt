-- ===== src/Engine/Market.antt =====
-- What `TradingEngine` reads from the market data: snapshots, order books and the risk context.
use moreney.Prelude.{Bool, true, false, Option, none, some, List, [], ◌∷◌, if◌then◌else◌, get_or}
use moreney.Prelude.Int.{max_ℤ}
use moreney.Decimal.{Decimal, zero_d}
use moreney.Core.Text.{Str, str_eq}
use moreney.Core.Models.{OrderBook, MarketSnapshot, TradeOpportunity}
use moreney.Risk.Models.{RiskContext}
use moreney.Risk.Engine.{mid}

-- The market data provider; a method that it may lack is optional, and `none` of `snapshot` raises.
pub record MarketData : Type 0 where
  pub venue_snapshots : Option (Str → List MarketSnapshot)
  pub snapshot : Str → Option MarketSnapshot
  pub order_book : Option (Str → Str → Option OrderBook)
  pub build_risk_context : Option (Str → Str → RiskContext)

abbrev pub only_primary : Option MarketSnapshot → Option (List MarketSnapshot × MarketSnapshot)
only_primary none = none
only_primary (some s) = some ([], s)

abbrev pub venues_or :
    List MarketSnapshot → Option MarketSnapshot → Option (List MarketSnapshot × MarketSnapshot)
venues_or [] primary = only_primary primary
venues_or (s ∷ ss) primary = some (s ∷ ss, s)

-- `_load_snapshots`
unfoldable pub load_snapshots : MarketData → Str → Option (List MarketSnapshot × MarketSnapshot)
load_snapshots m symbol = elim m.venue_snapshots [
  | none ↦ only_primary (m.snapshot symbol)
  | some venues ↦ venues_or (venues symbol) (m.snapshot symbol)
]

-- `max` of the latencies that are there.
unfoldable pub worst_latency : List MarketSnapshot → Option Decimal
worst_latency [] = none
worst_latency (s ∷ ss) = elim s.latency_ms [
  | none ↦ worst_latency ss
  | some ms ↦ elim (worst_latency ss) [ none ↦ some ms | some rest ↦ some (max_ℤ ms rest) ]
]

-- Age, health and liquidity, as `_enrich_for_risk` finds them.
pub record Freshness : Type 0 where
  pub age_ms : Option Decimal
  pub healthy : Bool
  pub liquidity : Option Decimal

abbrev pub latency_freshness : List MarketSnapshot → Freshness
latency_freshness venues = record {
  age_ms = worst_latency venues;
  healthy = true;
  liquidity = none;
}

abbrev pub service_freshness : RiskContext → Freshness
service_freshness ctx = record {
  age_ms = ctx.market_data_age_ms;
  healthy = ctx.exchange_healthy;
  liquidity = ctx.liquidity_base;
}

unfoldable pub freshness : MarketData → TradeOpportunity → List MarketSnapshot → Freshness
freshness m o venues = elim m.build_risk_context [
  | none ↦ latency_freshness venues
  | some build ↦ elim (get_or o.metadata.buy_exchange []) [
    | [] ↦ latency_freshness venues
    | c ∷ name ↦ service_freshness (build (c ∷ name) o.symbol)
  ]
]

-- `_enrich_for_risk`
unfoldable pub enrich_for_risk :
    MarketData → TradeOpportunity → List MarketSnapshot → TradeOpportunity × RiskContext
enrich_for_risk m o venues =
    let f = freshness m o venues in
    (
      record o {
        metadata = record (o.metadata) {
          exchange_healthy = some f.healthy;
          market_data_age_ms = f.age_ms;
        };
      },
      record {
        exchange_healthy = f.healthy;
        market_data_age_ms = f.age_ms;
        estimated_slippage_pct = get_or o.metadata.estimated_slippage_pct zero_d;
        execution_latency_ms = none;
        liquidity_base = f.liquidity;
        reference_price = elim o.market [ none ↦ none | some s ↦ some (mid s) ];
        current_price = elim o.market [ none ↦ none | some s ↦ some s.last ];
      },
    )

abbrev pub trades_at : Str → MarketSnapshot → Bool
trades_at exchange s = elim s.exchange [ none ↦ false | some name ↦ str_eq name exchange ]

-- The first snapshot of the exchange that has a book.
unfoldable pub venue_book : Str → List MarketSnapshot → Option OrderBook
venue_book exchange [] = none
venue_book exchange (s ∷ ss) =
    let rest = venue_book exchange ss in
    if trades_at exchange s
    then (elim s.order_book [ none ↦ rest | some book ↦ some book ])
    else rest

abbrev pub or_book : Option OrderBook → Option OrderBook → Option OrderBook
or_book none b = b
or_book (some book) b = some book

abbrev pub market_book : TradeOpportunity → Option OrderBook
market_book o = elim o.market [ none ↦ none | some s ↦ s.order_book ]

-- `get_order_book`, where the provider has it
abbrev pub service_book : MarketData → Str → Str → Option OrderBook
service_book m exchange symbol = elim m.order_book [ none ↦ none | some get ↦ get exchange symbol ]

-- `_resolve_execution_book`
unfoldable pub resolve_execution_book :
    MarketData → TradeOpportunity → List MarketSnapshot → MarketSnapshot → Option OrderBook
resolve_execution_book m o venues primary =
    let fallback = or_book (market_book o) primary.order_book in
    elim (get_or o.metadata.buy_exchange []) [
      | [] ↦ fallback
      | c ∷ name ↦
          or_book (service_book m (c ∷ name) o.symbol)
            (or_book (venue_book (c ∷ name) venues) fallback)
    ]
