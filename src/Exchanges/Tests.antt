-- ===== src/Exchanges/Tests.antt =====
-- Concrete runs of the retries.
use moreney.Prelude.{ℕ, ◌+◌, ◌≡◌, refl, true, none, [], ◌∷◌, arith, if◌then◌else◌, ltb}
use moreney.Prelude.Int.{◌+ℤ◌, min_ℤ, max_ℤ}
use moreney.Decimal.{Decimal, of_ℕ, mul}
use moreney.Exchanges.Retry.{
  RetryPolicy, half_d, power, compute_backoff, Failure, default_is_retryable, Answer, succeeded,
  failed, value, raise_last, after_answer, attempt_from, with_retries,
}
use moreney.Exchanges.Attempts.{IsPolicy, IsBounded, with_retries-IsBounded}

abbrev policy : RetryPolicy
policy = record {
  max_attempts = 5;
  base_delay = of_ℕ 1;
  max_delay = of_ℕ 3;
  exponential_base = of_ℕ 2;
  jitter = true;
}

-- Two timeouts, then a value; the state counts the calls.
abbrev flaky : ℕ → ℕ × Answer ℕ
flaky n = (n + 1, if ltb n 2 then failed Failure.timeout else succeeded 42)

abbrev rolls : ℕ → Decimal
rolls _ = half_d

-- The third call answers, after sleeps of one and two seconds.
recovers :
    let t = with_retries policy default_is_retryable (λ _. none) rolls flaky 0 in
    (t.end ≡ value 42) × (t.state ≡ 3) × (t.sleeps ≡ of_ℕ 1 ∷ of_ℕ 2 ∷ [])
unfolding with_retries attempt_from after_answer raise_last compute_backoff power
    default_is_retryable mul min_ℤ max_ℤ ◌+ℤ◌
recovers = (refl, refl, refl)

policy-IsPolicy : IsPolicy policy
policy-IsPolicy = record {
  base_nonneg = omega arith;
  max_nonneg = omega arith;
  exponent_nonneg = omega arith;
}

with_retries-IsBounded_example :
    IsBounded
      (λ n. n)
      policy
      5
      0
      (with_retries policy default_is_retryable (λ _. none) rolls flaky 0)
with_retries-IsBounded_example =
    with_retries-IsBounded policy default_is_retryable (λ _. none) rolls flaky (λ n. n)
      policy-IsPolicy (λ _. (omega arith, omega arith)) (λ s. refl) 0 (omega arith)
