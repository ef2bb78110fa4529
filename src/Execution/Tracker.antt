-- ===== src/Execution/Tracker.antt =====
-- bot/execution/fill_tracker.py: `FillTracker`, between the executor and the portfolio.
use moreney.Prelude.{
  ℕ, Bool, true, false, ◌||◌, none, some, List, [], ◌∷◌, ◌++◌, if◌then◌else◌, nat_eq,
}
use moreney.Prelude.Dict.{Dict, lookup, insert}
use moreney.Portfolio.Models.{Fill, AccountingResult}
use moreney.Portfolio.Accounting.{is_processed}
use moreney.Portfolio.Paper.{PaperPortfolio, apply_order_fill}

-- The portfolio stands beside the tracker, which both the executor and the tracker hold.
pub record Tracker : Type 0 where
  pub fills : Dict ℕ Fill
  pub results : List AccountingResult

unfoldable pub apply :
    ℕ → Fill → Tracker → PaperPortfolio → Tracker × PaperPortfolio × AccountingResult
apply order_id fill t p =
    let (p', result) = apply_order_fill order_id fill p in
    let t' =
      if result.duplicate
      then t
      else record t { fills = insert fill.id fill t.fills; results = t.results ++ (result ∷ []) } in
    (t', p', result)

unfoldable pub has_fill : ℕ → Tracker → PaperPortfolio → Bool
has_fill i t p =
    elim (lookup i t.fills) [ none ↦ false | some _ ↦ true ] || is_processed i p.processed
