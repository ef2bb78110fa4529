-- ===== src/Strategies/Scan.antt =====
-- The counters of `CrossExchangeArbitrageStrategy`, with `_reject` and `scan_stats`.
use moreney.Prelude.{ℕ, ◌+◌, Bool, get_or}
use moreney.Prelude.Dict.{Dict, lookup, insert}
use moreney.Core.Text.{Str, str_instance}

-- `drawn` counts the ids that were drawn for opportunities; `raised` tells that the pass ended with
-- the error of a `TradeOpportunity` whose quantity or entry price is not positive.
pub record Scan : Type 0 where
  pub pairs_evaluated : ℕ
  pub depth_edges_found : ℕ
  pub scan_rejections : ℕ
  pub opportunities_emitted : ℕ
  pub reject_counts : Dict Str ℕ
  pub drawn : ℕ
  pub raised : Bool

-- `_reject`, by its code
unfoldable pub reject_scan : Str → Scan → Scan
reject_scan code s = record s {
  scan_rejections = s.scan_rejections + 1;
  reject_counts = insert code (get_or (lookup code s.reject_counts) 0 + 1) s.reject_counts;
}
