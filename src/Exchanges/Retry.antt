-- ===== src/Exchanges/Retry.antt =====
-- bot/exchanges/retry.py: exponential backoff with jitter. The seconds are decimals, not floats.
use moreney.Prelude.{
  ℕ, zero, suc, ◌+◌, ◌*◌, ◌^◌, Bool, true, false, not, ◌||◌, Option, none, some, List, [], ◌∷◌,
  if◌then◌else◌, leb,
}
use moreney.Prelude.Int.{pos, ◌+ℤ◌, min_ℤ, max_ℤ}
use moreney.Decimal.{Decimal, one_d, zero_d, mul, is_pos}

pub record RetryPolicy : Type 0 where
  pub max_attempts : ℕ
  pub base_delay : Decimal
  pub max_delay : Decimal
  pub exponential_base : Decimal
  pub jitter : Bool

abbrev pub half_d : Decimal
half_d = pos (5 * 10 ^ 27)

-- `exponential_base**attempt`
unfoldable pub power : Decimal → ℕ → Decimal
power base zero = one_d
power base (suc n) = mul base (power base n)

abbrev pub asked_delay : RetryPolicy → ℕ → Option Decimal → Decimal
asked_delay policy attempt none = mul policy.base_delay (power policy.exponential_base attempt)
asked_delay policy attempt (some after) =
    if is_pos after then after else mul policy.base_delay (power policy.exponential_base attempt)

-- `roll` is what `random.random()` returns.
unfoldable pub compute_backoff : RetryPolicy → Decimal → ℕ → Option Decimal → Decimal
compute_backoff policy roll attempt retry_after =
    let delay = min_ℤ (asked_delay policy attempt retry_after) policy.max_delay in
    max_ℤ (if policy.jitter then mul delay (half_d +ℤ roll) else delay) zero_d

-- The exceptions that the retries tell apart; `other` is an exception of another class.
pub data Failure : Type 0 where
  rate_limited transient : Failure
  timeout os_error : Failure
  other : ℕ → Failure

-- `_default_is_retryable`
unfoldable pub default_is_retryable : Failure → Bool
default_is_retryable Failure.rate_limited = true
default_is_retryable Failure.transient = true
default_is_retryable Failure.timeout = true
default_is_retryable Failure.os_error = true
default_is_retryable (Failure.other _) = false

pub data Answer (T : Type 0) : Type 0 where
  succeeded : T → Answer T
  failed : Failure → Answer T

-- How the loop ends: with a value, with `last_error`, or without one.
pub data Ended (T : Type 0) : Type 0 where
  ended : T → Ended T
  gave_up : Failure → Ended T
  never_tried : Ended T

-- What the caller sees: a value, the last error, that error wrapped in a transient one, or the
-- failure of the assertion.
pub data Retried (T : Type 0) : Type 0 where
  value : T → Retried T
  raised_last : Failure → Retried T
  raised_wrapped : Failure → Retried T
  raised_assertion : Retried T

-- `raise last_error`, or the wrapped error
unfoldable pub raise_last : {T : Type 0} → Ended T → Retried T
raise_last (ended t) = value t
raise_last never_tried = raised_assertion
raise_last (gave_up Failure.rate_limited) = raised_last Failure.rate_limited
raise_last (gave_up Failure.transient) = raised_last Failure.transient
raise_last (gave_up e) = raised_wrapped e

-- The state of the world, the delays that were slept, and the end.
pub record Trace (S T : Type 0) : Type 0 where
  pub state : S
  pub sleeps : List Decimal
  pub end : T

module _ {S T : Type 0} (policy : RetryPolicy) (is_retryable : Failure → Bool)
    (get_retry_after : Failure → Option Decimal) (rolls : ℕ → Decimal)
    (operation : S → S × Answer T) where
  -- The `except` branch, with the rest of the loop.
  unfoldable pub after_answer : ℕ → S → Answer T → Trace S (Ended T) → Trace S (Ended T)
  after_answer attempt s (succeeded t) rest = record { state = s; sleeps = []; end = ended t }
  after_answer attempt s (failed e) rest =
      let delay = compute_backoff policy (rolls attempt) attempt (get_retry_after e) in
      if not (is_retryable e) || leb policy.max_attempts (attempt + 1)
      then record { state = s; sleeps = []; end = gave_up e }
      else record rest { sleeps = delay ∷ rest.sleeps }

  -- The loop, from an attempt with so many left.
  unfoldable pub attempt_from : ℕ → ℕ → S → Trace S (Ended T)
  attempt_from attempt zero s = record { state = s; sleeps = []; end = never_tried }
  attempt_from attempt (suc left) s =
      let (s', answer) = operation s in
      let rest = attempt_from (attempt + 1) left s' in after_answer attempt s' answer rest

  unfoldable pub with_retries : S → Trace S (Retried T)
  with_retries s =
      let trace = attempt_from 0 policy.max_attempts s in
      record { state = trace.state; sleeps = trace.sleeps; end = raise_last trace.end }
