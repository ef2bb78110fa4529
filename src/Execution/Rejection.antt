-- ===== src/Execution/Rejection.antt =====
-- The balances around an order that `execute` rejects.
use moreney.Prelude.{
  ℕ, ◌≡◌, ◌≢◌, refl, true, false, not, Option, none, some, arith, if_rule, option_rule,
}
use moreney.Prelude.Int.{◌+ℤ◌, ◌-ℤ◌, ◌≤ℤ◌, ◌<ℤ◌, leb_ℤ, min_ℤ, int_laws, eq_of_parts}
use moreney.Decimal.{Decimal, zero_d, is_pos}
use moreney.Core.Enums.{OrderType, OrderStatus}
use moreney.Core.Models.{OrderBook}
use moreney.Core.Text.{Str, upper, str_eq_iff}
use moreney.Portfolio.Models.{AssetBalance, Order}
use moreney.Portfolio.Paper.{PaperPortfolio, reserve, release_reservation, hold, give_back}
use moreney.Portfolio.Balances.{IsSolvent}
use moreney.Portfolio.Reservations.{
  balance_at, balance_of, available_lem, reserve_succeeds, balance_at-reserve, balance_at-release,
}
use moreney.Portfolio.Conservation.{IsSolventBook}
use moreney.Execution.Orders.{set_status, add}
use moreney.Execution.Executor.{
  ExecutorSettings, OrderRequest, ExecutionReject, ExecutionResult, Executor, Outcome, returned,
  raised, FillPlan, simulate_fill, reservation_needed, new_order, place_order, reject, reject_text,
  settle, try_fill, rests, open_order, execute,
}

min_of_le : (a b : Decimal) → a ≤ℤ b → min_ℤ a b ≡ a
unfolding min_ℤ
min_of_le a b h = ground arith

-- What is held and then given back is where it was.
give_back-hold :
    (amount : Decimal) (b : AssetBalance)
    → IsSolvent b
    → zero_d <ℤ amount
    → give_back amount (hold amount b) ≡ b
give_back-hold amount b v h =
    let all : min_ℤ amount (b.reserved +ℤ amount) ≡ amount =
      min_of_le amount (b.reserved +ℤ amount) (omega int_laws) in
    let available : b.available -ℤ amount +ℤ amount ≡ b.available =
      eq_of_parts _ _ (omega int_laws) in
    let reserved : b.reserved +ℤ amount -ℤ amount ≡ b.reserved = eq_of_parts _ _ (omega int_laws) in
    cc (all, available, reserved)

-- Giving back a successful reservation restores every balance.
pub release_reserve :
    (asset j : Str) (amount : Decimal) (p : PaperPortfolio)
    → IsSolventBook p.state.balances
    → zero_d <ℤ amount
    → (reserve asset amount p).1 ≡ true
    → balance_at j (release_reservation asset amount (reserve asset amount p).0).state.balances
      ≡ balance_at j p.state.balances
release_reserve asset j amount p v h done = ground (
  arith,
  reserve_succeeds asset amount p,
  available_lem asset p,
  balance_at-release asset amount j (reserve asset amount p).0,
  balance_at-reserve asset amount j p,
  balance_at-reserve asset amount (upper asset) p,
  str_eq_iff (upper asset) j,
  str_eq_iff (upper asset) (upper asset),
  give_back-hold amount (balance_of asset p) (v (upper asset)) h,
)

reserve_refused :
    (asset j : Str) (amount : Decimal) (p : PaperPortfolio)
    → (reserve asset amount p).1 ≡ false
    → balance_at j (reserve asset amount p).0.state.balances ≡ balance_at j p.state.balances
reserve_refused asset j amount p refused = ground (
  arith,
  reserve_succeeds asset amount p,
  available_lem asset p,
  balance_at-reserve asset amount j p,
)

-- The outcome is no rejection.
abbrev IsNoReject : Executor × Outcome → Type 0
IsNoReject (st, raised) = Unit
IsNoReject (st, returned r) = r.rejection_reason ≡ none

settle-IsNoReject :
    (cfg : ExecutorSettings) (req : OrderRequest) (o : Order) (asset : Str) (held : Decimal)
    (plan : FillPlan) (fill_id : ℕ) (st : Executor)
    → IsNoReject (settle cfg req o asset held plan fill_id st)
unfolding settle
settle-IsNoReject cfg req o asset held plan fill_id st = ground arith

-- A rejection leaves the balances of `p`.
abbrev pub Restores : PaperPortfolio → Executor × Outcome → Type 0
Restores p (st, raised) = Unit
Restores p (st, returned r) =
    r.rejection_reason ≢ none
    → (j : Str) → balance_at j st.portfolio.state.balances ≡ balance_at j p.state.balances

-- The balances of two portfolios agree.
abbrev pub SameBalances : PaperPortfolio → PaperPortfolio → Type 0
SameBalances q p = (j : Str) → balance_at j q.state.balances ≡ balance_at j p.state.balances

reject-Restores :
    (req : OrderRequest) (why : ExecutionReject) (st : Executor) (p : PaperPortfolio)
    → SameBalances st.portfolio p
    → Restores p (reject req why st)
unfolding reject
reject-Restores req why st p same =
    option_rule (Restores p)
      (set_status req.id OrderStatus.rejected (some (reject_text why)) st.orders) (λ _. tt)
      (λ _ _ _. same)

IsNoReject-Restores : (p : PaperPortfolio) (c : Executor × Outcome) → IsNoReject c → Restores p c
IsNoReject-Restores p (st, raised) h = tt
IsNoReject-Restores p (st, returned r) h = λ rejected. absurd (rejected h)

module _ (cfg : ExecutorSettings) (req : OrderRequest) (o : Order) (asset : Str) (held : Decimal)
    (book : Option OrderBook) (fill_id : ℕ) (p : PaperPortfolio) where
  try_fill-Restores :
      (st : Executor)
      → SameBalances (release_reservation asset held st.portfolio) p
      → Restores p (try_fill cfg req o asset held book fill_id st)
  unfolding try_fill
  try_fill-Restores st same =
      let released =
        reject-Restores req ExecutionReject.insufficient_liquidity
          (record st { portfolio = release_reservation asset held st.portfolio }) p same in
      option_rule (Restores p) (simulate_fill cfg o book) (λ _. released)
        λ plan _.
          if_rule (Restores p) (leb_ℤ plan.filled zero_d) (λ _. released)
            (λ _.
              IsNoReject-Restores p (settle cfg req o asset held plan fill_id st)
                (settle-IsNoReject cfg req o asset held plan fill_id st))

  open_order-Restores :
      (st : Executor)
      → SameBalances (release_reservation asset held st.portfolio) p
      → Restores p (open_order cfg req o asset held book fill_id st)
  unfolding open_order
  open_order-Restores st same =
      option_rule (Restores p) (set_status o.id OrderStatus.open_order none st.orders) (λ _. tt)
        λ os _.
          if_rule (Restores p) (rests o book) (λ _ h. absurd (h refl))
            (λ _. try_fill-Restores (record st { orders = os }) same)

place_order-Restores :
    (cfg : ExecutorSettings) (req : OrderRequest) (book : Option OrderBook) (type : OrderType)
    (fill_id : ℕ) (st : Executor)
    → IsSolventBook st.portfolio.state.balances
    → Restores st.portfolio (place_order cfg req book type fill_id st)
unfolding place_order
place_order-Restores cfg req book type fill_id st v =
    let o = new_order req type in
    let st1 = record st { orders = add o st.orders } in
    let needed = reservation_needed cfg o st.portfolio in
    let asked = reserve needed.asset needed.amount st.portfolio in
    let P = Restores st.portfolio in
    let why = ExecutionReject.insufficient_balance in
    let opens =
      open_order-Restores cfg req o needed.asset needed.amount book fill_id st.portfolio in
    if_rule P (not needed.enough) (λ _. reject-Restores req why st1 st.portfolio (λ j. refl))
      λ _.
        if_rule P (is_pos needed.amount)
          (λ positive.
            if_rule P asked.1
              (λ done.
                opens (record st1 { portfolio = asked.0 })
                  (λ j.
                    release_reserve needed.asset j needed.amount st.portfolio v (ground arith)
                      done))
              (λ refused.
                reject-Restores req why (record st1 { portfolio = asked.0 }) st.portfolio
                  (λ j. reserve_refused needed.asset j needed.amount st.portfolio refused)))
          (λ nothing.
            opens st1
              (λ j. ground (arith, balance_at-release needed.asset needed.amount j st.portfolio)))

-- Whatever the order, the settings and the book: if no balance is negative and `execute` rejects the
-- order, the available and the reserved part of every asset are as they were before the call.
pub execute-Restores :
    (cfg : ExecutorSettings) (req : OrderRequest) (book : Option OrderBook) (type : OrderType)
    (fill_id : ℕ) (st : Executor)
    → IsSolventBook st.portfolio.state.balances
    → Restores st.portfolio (execute cfg req book type fill_id st)
unfolding execute
execute-Restores cfg req book type fill_id st v =
    if_rule (Restores st.portfolio) (is_pos req.quantity)
      (λ _. place_order-Restores cfg req book type fill_id st v) (λ _. tt)

Restores-rejected :
    (p : PaperPortfolio) {r : ExecutionResult} (x : Executor × Outcome)
    → x.1 ≡ returned r
    → r.rejection_reason ≢ none
    → Restores p x
    → SameBalances x.0.portfolio p
Restores-rejected p (st, raised) e why h = cc
Restores-rejected p (st, returned s) e why h = h (ground arith)

-- If no balance is negative and `execute` returns a result with a reason for a rejection, then the
-- available and the reserved part of every asset are what they were before the call.
pub execute_rejects :
    (cfg : ExecutorSettings) (req : OrderRequest) (book : Option OrderBook) (type : OrderType)
    (fill_id : ℕ) (st : Executor) {r : ExecutionResult}
    → IsSolventBook st.portfolio.state.balances
    → (execute cfg req book type fill_id st).1 ≡ returned r
    → r.rejection_reason ≢ none
    → SameBalances (execute cfg req book type fill_id st).0.portfolio st.portfolio
execute_rejects cfg req book type fill_id st v done why =
    Restores-rejected st.portfolio (execute cfg req book type fill_id st) done why
      (execute-Restores cfg req book type fill_id st v)
