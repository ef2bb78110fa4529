-- ===== src/Strategies/Admission.antt =====
-- The venues that pass the checks of the strategy, grouped by symbol.
use moreney.Prelude.{ℕ, ◌≡◌, refl, ap, ◌∙◌, List, [], ◌∷◌, All, All-append, option_rule}
use moreney.Prelude.Dict.{Dict, Entries, Entries-insert, Entries-get_or}
use moreney.Core.Text.{Str, str_instance, upper}
use moreney.Core.Models.{MarketSnapshot}
use moreney.Strategies.Scan.{Scan}
use moreney.Strategies.Arbitrage.{
  ArbitrageSettings, Venue, Verdict, accepted, refused, venue_verdict, book_rejection,
  exchange_named, file_verdict, group_snapshots,
}

-- A venue that the checks of the pass at `now` accepted, listed under its symbol.
pub record IsAdmitted (a : ArbitrageSettings) (now : ℕ) (symbol : Str) (v : Venue) : Type 0 where
  pub accepts : venue_verdict a now v.snapshot ≡ accepted v
  pub listed : upper v.snapshot.symbol ≡ symbol

module _ (a : ArbitrageSettings) (now : ℕ) where
  unfoldable pub Admitted : Str → List Venue → Type 0
  Admitted symbol = All (IsAdmitted a now symbol)

  unfoldable pub Grouped : Dict Str (List Venue) → Type 0
  Grouped = Entries Admitted

  OfSnapshot : MarketSnapshot → Verdict → Type 0
  OfSnapshot s (accepted v) = v.snapshot ≡ s
  OfSnapshot s (refused code) = Unit

  venue_verdict-OfSnapshot : (s : MarketSnapshot) → OfSnapshot s (venue_verdict a now s)
  unfolding venue_verdict OfSnapshot
  venue_verdict-OfSnapshot s =
      let P = OfSnapshot s in
      option_rule P (exchange_named s.exchange) (λ _. tt)
        λ name _.
          option_rule P s.order_book (λ _. tt)
            λ book _. option_rule P (book_rejection a now s book) (λ _. refl) (λ _ _. tt)

  file_verdict-Grouped :
      (s : MarketSnapshot) (v : Verdict) (g : Dict Str (List Venue)) (sc : Scan)
      → venue_verdict a now s ≡ v
      → OfSnapshot s v
      → Grouped g
      → Grouped (file_verdict s.symbol v g sc).0
  unfolding file_verdict OfSnapshot Grouped Admitted
  file_verdict-Grouped s (refused code) g sc _ _ k = k
  file_verdict-Grouped s (accepted v) g sc e o k =
      let admitted : IsAdmitted a now (upper s.symbol) v = record {
        accepts = ap (venue_verdict a now) o ∙ e;
        listed = ap (λ (m : MarketSnapshot). upper m.symbol) o;
      } in
      Entries-insert Admitted (upper s.symbol) _ g
        (All-append _ _ _ (Entries-get_or Admitted (upper s.symbol) [] g tt k) (admitted, tt)) k

  pub group_snapshots-Grouped :
      (snapshots : List MarketSnapshot) (g : Dict Str (List Venue)) (sc : Scan)
      → Grouped g
      → Grouped (group_snapshots a now snapshots g sc).0
  unfolding group_snapshots
  group_snapshots-Grouped [] g sc k = k
  group_snapshots-Grouped (s ∷ ss) g sc k =
      let v = venue_verdict a now s in
      let (g', sc') = file_verdict s.symbol v g sc in
      group_snapshots-Grouped ss g' sc'
        (file_verdict-Grouped s v g sc refl (venue_verdict-OfSnapshot s) k)
