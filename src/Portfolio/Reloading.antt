-- ===== src/Portfolio/Reloading.antt =====
-- A portfolio that is saved and reloaded.
use moreney.Prelude.{
  ℕ, ◌≡◌, refl, sym, ap, subst, ◌∙◌, ◌||◌, ◌==◌, Option, none, some, List, [], ◌∷◌, ◌++◌,
  append_nil, arith,
}
use moreney.Prelude.Dict.{Dict, Entries, map_values}
use moreney.Decimal.{Decimal}
use moreney.Core.Text.{Str, str_instance}
use moreney.Portfolio.Models.{
  AssetBalance, PositionState, PortfolioStats, PortfolioState, total_equity,
}
use moreney.Portfolio.Accounting.{is_processed}
use moreney.Portfolio.Paper.{PaperPortfolio, new_portfolio, drawdown_stats, update_drawdown}
use moreney.Portfolio.Persistence.{
  BalanceRow, PositionRow, PortfolioSnapshotRecord, insert_id, sorted_ids, portfolio_to_record,
  PaperStore, save_portfolio, load_state, state_of_record, last_of, reload_portfolio,
}

insert_id-is_processed :
    (js : List ℕ) (i k : ℕ) → is_processed k (insert_id i js) ≡ ((k == i) || is_processed k js)
unfolding insert_id is_processed
insert_id-is_processed [] i k = refl
insert_id-is_processed (j ∷ js) i k = ground (arith, insert_id-is_processed js i k)

-- Sorting the ids keeps which of them there are.
sorted_ids-is_processed :
    (k : ℕ) (ids : List ℕ) → is_processed k (sorted_ids ids) ≡ is_processed k ids
unfolding sorted_ids is_processed
sorted_ids-is_processed k [] = refl
sorted_ids-is_processed k (i ∷ is) =
    insert_id-is_processed (sorted_ids is) i k
    ∙ ap (λ b. (k == i) || b) (sorted_ids-is_processed k is)

last_of-append :
    (row : PortfolioSnapshotRecord) (rows : List PortfolioSnapshotRecord)
    → last_of (rows ++ (row ∷ [])) ≡ some row
unfolding last_of
last_of-append row [] = refl
last_of-append row (x ∷ []) = refl
last_of-append row (x ∷ y ∷ ys) = last_of-append row (y ∷ ys)

-- Every balance is listed under its asset, and every position under its symbol.
pub record IsKeyed (s : PortfolioState) : Type 0 where
  pub assets : Entries (λ k b. b.asset ≡ k) s.balances
  pub symbols : Entries (λ k q. q.symbol ≡ k) s.positions

drawdown_stats_keeps :
    (equity : Decimal) (s : PortfolioStats)
    → ((drawdown_stats equity s).realized_pnl ≡ s.realized_pnl)
      × ((drawdown_stats equity s).fees_paid ≡ s.fees_paid)
unfolding drawdown_stats
drawdown_stats_keeps equity s = ground arith

-- What a reload keeps of a saved portfolio.
pub record Reloads (p' p : PaperPortfolio) : Type 0 where
  pub balances : p'.state.balances ≡ p.state.balances
  pub positions : p'.state.positions ≡ p.state.positions
  pub quote_asset : p'.state.quote_asset ≡ p.state.quote_asset
  pub realized_pnl : p'.state.stats.realized_pnl ≡ p.state.stats.realized_pnl
  pub fees_paid : p'.state.stats.fees_paid ≡ p.state.stats.fees_paid
  pub processed : (k : ℕ) → is_processed k p'.processed ≡ is_processed k p.processed

balances_return :
    (d : Dict Str AssetBalance)
    → Entries (λ k b. b.asset ≡ k) d
    → map_values
        (λ k (b : BalanceRow). record { asset = k; available = b.available; reserved = b.reserved })
        (map_values (λ _ b. record { available = b.available; reserved = b.reserved }) d)
      ≡ d
unfolding Entries
balances_return [] _ = refl
balances_return ((k, b) ∷ d) (e, es) =
    let same : record b { asset = k } ≡ b = ap (λ a. record b { asset = a }) (sym e) in
    cc (same, balances_return d es)

positions_return :
    (d : Dict Str PositionState)
    → Entries (λ k q. q.symbol ≡ k) d
    → map_values
        (λ k (q : PositionRow). record {
          symbol = k;
          quantity = q.quantity;
          average_entry_price = q.average_entry_price;
          realized_pnl = q.realized_pnl;
          fees_paid = q.fees_paid;
        })
        (map_values
          (λ _ q. record {
            quantity = q.quantity;
            average_entry_price = q.average_entry_price;
            realized_pnl = q.realized_pnl;
            fees_paid = q.fees_paid;
          })
          d)
      ≡ d
unfolding Entries
positions_return [] _ = refl
positions_return ((k, q) ∷ d) (e, es) =
    let same : record q { symbol = k } ≡ q = ap (λ a. record q { symbol = a }) (sym e) in
    cc (same, positions_return d es)

load_state-processed :
    (s : PortfolioState) (ids : List ℕ) (p : PaperPortfolio)
    → p.processed ≡ []
    → (load_state s ids p).processed ≡ ids
unfolding load_state
load_state-processed s [] p e = e
load_state-processed s (i ∷ is) p e = ap (λ seen. (i ∷ is) ++ seen) e ∙ append_nil (i ∷ is)

load_state-Reloads :
    (p start : PaperPortfolio)
    → IsKeyed p.state
    → start.processed ≡ []
    → Reloads
        (load_state
          (state_of_record (portfolio_to_record p))
          (portfolio_to_record p).processed_fill_ids
          start)
        p
unfolding load_state state_of_record portfolio_to_record update_drawdown
load_state-Reloads p start v e =
    let row = portfolio_to_record p in
    let (realized, fees) =
      drawdown_stats_keeps (total_equity (state_of_record row)) (state_of_record row).stats in
    record {
      balances = balances_return p.state.balances v.assets;
      positions = positions_return p.state.positions v.symbols;
      quote_asset = refl;
      realized_pnl = realized;
      fees_paid = fees;
      processed = λ k.
          ap (is_processed k)
            (load_state-processed (state_of_record row) row.processed_fill_ids start e)
          ∙ sorted_ids-is_processed k p.processed;
    }

-- A portfolio whose balances and positions stand under their own names is reloaded from the store it
-- was saved in, whatever the store held before, with the same balances, positions, quote asset,
-- realized profit and fees, and with the same fills counted as processed.
pub reload_portfolio-save :
    (quote : Str) (start : Decimal) (p : PaperPortfolio) (s : PaperStore)
    → IsKeyed p.state
    → Reloads (reload_portfolio quote start none (save_portfolio p s).0) p
unfolding reload_portfolio save_portfolio new_portfolio
reload_portfolio-save quote start p s v =
    subst
      (λ (o : Option PortfolioSnapshotRecord).
        Reloads
          (elim o [
            | none ↦ new_portfolio quote start
            | some row ↦
                load_state (state_of_record row) row.processed_fill_ids (new_portfolio quote start)
          ])
          p)
      (sym (last_of-append (portfolio_to_record p) s.snapshots))
      (load_state-Reloads p (new_portfolio quote start) v refl)
