-- ===== src/Exchanges/Attempts.antt =====
-- How often the retries call the operation, and how long they sleep.
use moreney.Prelude.{
  ℕ, zero, suc, ◌+◌, ◌≤◌, ◌<◌, ◌≡◌, Bool, true, false, not, ◌||◌, Option, none, some, if◌then◌else◌,
  leb, length, All, arith, if_rule,
}
use moreney.Prelude.Int.{◌+ℤ◌, ◌≤ℤ◌, min_ℤ, max_ℤ, min_ℤ_le, le_min_ℤ, int_laws}
use moreney.Decimal.{Decimal, zero_d, one_d, mul, is_pos}
use moreney.Decimal.Rounding.{mul_nonneg, mul_mono}
use moreney.Exchanges.Retry.{
  RetryPolicy, half_d, power, asked_delay, compute_backoff, Failure, Answer, succeeded, failed,
  Ended, Trace, attempt_from, after_answer, with_retries,
}

-- The policy's delays are not negative.
pub record IsPolicy (policy : RetryPolicy) : Type 0 where
  pub base_nonneg : zero_d ≤ℤ policy.base_delay
  pub max_nonneg : zero_d ≤ℤ policy.max_delay
  pub exponent_nonneg : zero_d ≤ℤ policy.exponential_base

-- The longest sleep that the policy allows.
abbrev pub longest : RetryPolicy → Decimal
longest policy = if policy.jitter then mul policy.max_delay (half_d +ℤ one_d) else policy.max_delay

power_nonneg : (base : Decimal) (n : ℕ) → zero_d ≤ℤ base → zero_d ≤ℤ power base n
unfolding power
power_nonneg base zero h = omega arith
power_nonneg base (suc n) h = mul_nonneg base (power base n) h (power_nonneg base n h)

clamp_within :
    (d most : Decimal)
    → zero_d ≤ℤ d
    → d ≤ℤ most
    → (zero_d ≤ℤ max_ℤ d zero_d) × (max_ℤ d zero_d ≤ℤ most)
unfolding max_ℤ
clamp_within d most h k = ground arith

jitter_within :
    (jitter : Bool) (d most roll : Decimal)
    → zero_d ≤ℤ d
    → d ≤ℤ most
    → zero_d ≤ℤ roll
    → roll ≤ℤ one_d
    → (zero_d ≤ℤ (if jitter then mul d (half_d +ℤ roll) else d))
      × ((if jitter then mul d (half_d +ℤ roll) else d)
          ≤ℤ (if jitter then mul most (half_d +ℤ one_d) else most))
jitter_within false d most roll h k low high = (h, k)
jitter_within true d most roll h k low high = (
  mul_nonneg d (half_d +ℤ roll) h (omega int_laws),
  mul_mono d (half_d +ℤ roll) most (half_d +ℤ one_d) h (omega int_laws) k (omega int_laws),
)

module _ (policy : RetryPolicy) (v : IsPolicy policy) where
  exponential_nonneg :
      (attempt : ℕ) → zero_d ≤ℤ mul policy.base_delay (power policy.exponential_base attempt)
  exponential_nonneg attempt =
      mul_nonneg _ _ v.base_nonneg (power_nonneg policy.exponential_base attempt v.exponent_nonneg)

  asked_nonneg : (attempt : ℕ) (after : Option Decimal) → zero_d ≤ℤ asked_delay policy attempt after
  asked_nonneg attempt none = exponential_nonneg attempt
  asked_nonneg attempt (some after) =
      if_rule (λ d. zero_d ≤ℤ d) (is_pos after) (λ positive. ground arith)
        (λ _. exponential_nonneg attempt)

  -- A delay is never negative and at most the policy's longest.
  compute_backoff_within :
      (roll : Decimal) (attempt : ℕ) (after : Option Decimal)
      → zero_d ≤ℤ roll
      → roll ≤ℤ one_d
      → (zero_d ≤ℤ compute_backoff policy roll attempt after)
        × (compute_backoff policy roll attempt after ≤ℤ longest policy)
  unfolding compute_backoff
  compute_backoff_within roll attempt after low high =
      let asked = asked_delay policy attempt after in
      let (_, capped) = min_ℤ_le asked policy.max_delay in
      let (nonneg, bounded) =
        jitter_within policy.jitter (min_ℤ asked policy.max_delay) policy.max_delay roll
          (le_min_ℤ asked policy.max_delay zero_d (asked_nonneg attempt after) v.max_nonneg) capped
          low high in
      clamp_within _ (longest policy) nonneg bounded

module _ {S T : Type 0} (count : S → ℕ) where
  -- From `s`, with so many attempts left: each attempt is one call, and all but the last sleep.
  pub record IsBounded (policy : RetryPolicy) (left : ℕ) (s : S) (t : Trace S T) : Type 0 where
    pub at_most : count t.state ≤ count s + left
    pub sleeps_between : count t.state ≡ count s + length t.sleeps + 1
    pub sleeps_allowed : All (λ d. (zero_d ≤ℤ d) × (d ≤ℤ longest policy)) t.sleeps

module _ {S T : Type 0} (policy : RetryPolicy) (is_retryable : Failure → Bool)
    (get_retry_after : Failure → Option Decimal) (rolls : ℕ → Decimal)
    (operation : S → S × Answer T) (count : S → ℕ) (v : IsPolicy policy)
    (rolls_within : (n : ℕ) → (zero_d ≤ℤ rolls n) × (rolls n ≤ℤ one_d))
    (counts : (s : S) → count (operation s).0 ≡ count s + 1) where
  after_answer-IsBounded :
      (attempt left : ℕ) (s s' : S) (answer : Answer T) (rest : Trace S (Ended T))
      → count s' ≡ count s + 1
      → attempt + suc left ≡ policy.max_attempts
      → (0 < left → IsBounded count policy left s' rest)
      → IsBounded count policy
          (suc left)
          s
          (after_answer policy is_retryable get_retry_after rolls operation attempt s' answer rest)
  unfolding after_answer
  after_answer-IsBounded attempt left s s' (succeeded t) rest c m r = record {
    at_most = omega arith;
    sleeps_between = omega arith;
    sleeps_allowed = tt;
  }
  after_answer-IsBounded attempt left s s' (failed e) rest c m r =
      if_rule (IsBounded count policy (suc left) s)
        (not (is_retryable e) || leb policy.max_attempts (attempt + 1))
        (λ _. record { at_most = omega arith; sleeps_between = omega arith; sleeps_allowed = tt })
        λ again.
          let (low, high) = rolls_within attempt in
          let b = r (ground arith) in
          record {
            at_most = omega (arith, b.at_most);
            sleeps_between = omega (arith, b.sleeps_between);
            sleeps_allowed = (
              compute_backoff_within policy v (rolls attempt) attempt (get_retry_after e) low high,
              b.sleeps_allowed,
            );
          }

  attempt_from-IsBounded :
      (attempt left : ℕ) (s : S)
      → 0 < left
      → attempt + left ≡ policy.max_attempts
      → IsBounded count policy left s
          (attempt_from policy is_retryable get_retry_after rolls operation attempt left s)
  unfolding attempt_from
  attempt_from-IsBounded attempt zero s h m = absurd (omega arith)
  attempt_from-IsBounded attempt (suc left) s h m =
      let (s', answer) = operation s in
      after_answer-IsBounded attempt left s s' answer _ (counts s) m
        (λ more. attempt_from-IsBounded (attempt + 1) left s' more (omega arith))

  -- If the policy allows an attempt and its delays are not negative, the random numbers lie between
  -- zero and one and each call of the operation adds one to a counter, then `with_retries` makes at
  -- most the policy's attempts, sleeps once between any two of them, never below zero and never
  -- longer than the policy's longest delay with its jitter.
  pub with_retries-IsBounded :
      (s : S)
      → 0 < policy.max_attempts
      → IsBounded count policy policy.max_attempts s
          (with_retries policy is_retryable get_retry_after rolls operation s)
  unfolding with_retries
  with_retries-IsBounded s h =
      let b = attempt_from-IsBounded 0 policy.max_attempts s h (omega arith) in
      record {
        at_most = b.at_most;
        sleeps_between = b.sleeps_between;
        sleeps_allowed = b.sleeps_allowed;
      }
