-- ===== src/Portfolio/StoreTests.antt =====
-- A concrete portfolio, saved and reloaded.
use moreney.Prelude.{◌≡◌, refl, none, [], ◌∷◌}
use moreney.Prelude.Dict.{Entries}
use moreney.Decimal.{of_ℕ, zero_d}
use moreney.Core.Text.{Str, codes, str_instance}
use moreney.Portfolio.Models.{PortfolioStats}
use moreney.Portfolio.Paper.{PaperPortfolio, new_portfolio}
use moreney.Portfolio.Persistence.{
  PaperStore, insert_id, sorted_ids, portfolio_to_record, save_portfolio, last_of, load_state,
  reload_portfolio,
}
use moreney.Portfolio.Reloading.{Reloads, reload_portfolio-save}

abbrev eur : Str
eur = codes "EUR"

abbrev btc : Str
btc = codes "BTCEUR"

abbrev stats : PortfolioStats
stats = record {
  realized_pnl = of_ℕ 12;
  unrealized_pnl = zero_d;
  fees_paid = of_ℕ 2;
  total_trading_volume = of_ℕ 900;
  number_of_trades = 3;
  winning_trades = 1;
  losing_trades = 1;
  peak_equity = of_ℕ 400;
  current_drawdown = zero_d;
  maximum_drawdown = zero_d;
}

abbrev portfolio : PaperPortfolio
portfolio = record {
  quote = eur;
  processed = 7 ∷ 3 ∷ 5 ∷ [];
  state = record {
    balances = (eur, record { asset = eur; available = of_ℕ 150; reserved = of_ℕ 50 }) ∷ [];
    positions =
        (
          btc,
          record {
            symbol = btc;
            quantity = of_ℕ 2;
            average_entry_price = of_ℕ 100;
            realized_pnl = of_ℕ 12;
            fees_paid = of_ℕ 2;
          },
        )
        ∷ [];
    stats = stats;
    quote_asset = eur;
    mark_prices = (btc, of_ℕ 110) ∷ [];
  };
}

abbrev empty_store : PaperStore
empty_store = record { orders = []; fills = []; snapshots = []; daily_stats = [] }

abbrev store : PaperStore
store = record {
  orders = [];
  fills = [];
  snapshots = portfolio_to_record portfolio ∷ [];
  daily_stats = [];
}

-- The reloaded portfolio has the ids in order.
sorts_ids :
    let p = reload_portfolio eur (of_ℕ 1000) none (save_portfolio portfolio empty_store).0 in
    p.processed ≡ 3 ∷ 5 ∷ 7 ∷ []
unfolding reload_portfolio save_portfolio portfolio_to_record last_of load_state sorted_ids
    insert_id new_portfolio
sorts_ids = refl

reload_portfolio-save_example :
    Reloads (reload_portfolio eur (of_ℕ 1000) none (save_portfolio portfolio store).0) portfolio
unfolding Entries
reload_portfolio-save_example =
    reload_portfolio-save eur (of_ℕ 1000) portfolio store
      (record { assets = (refl, tt); symbols = (refl, tt) })
