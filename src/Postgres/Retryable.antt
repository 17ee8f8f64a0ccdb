-- ===== src/Postgres/Retryable.antt =====
-- `RetryConfig`, `isRetryable` and `min` of postgres/tx.go. A duration is the bit pattern of an int64.
use devengine.Common.{
  ℕ, ◌≡◌, ◌*◌, ◌^◌, ◌≤◌, ◌<◌, ◌%◌, ◌/◌, ◌+◌, ◌↔◌, refl, Bool, true, false, ◌&&◌, ℤ, pos, Option,
  none, some, List, [], ◌∷◌, Memᴰ, Text, text_eq, text_eq_iff, str, any, any-true, any-intro, ltb,
  if◌then◌else◌, positive_or, arith, inl, inr, Bool-cases, Option-cases, true-false, sym,
}
use devengine.Retry.Backoff.{int64_mod, int64_half, is_positive}
use devengine.Jobs.Config.{millisecond}

-- What `errors.Is` and `errors.As` find in an error: whether it wraps a context's error, and the
-- SQLSTATE of the `PgError` it wraps.
pub record Cause : Type 0 where
  pub is_context : Bool
  pub sqlstate : Option Text
  pub text : Text

pub record RetryConfig : Type 0 where
  pub max_attempts : ℤ
  pub retry_on : List Text
  pub initial_backoff : ℤ
  pub max_backoff : ℤ

abbrev pub default_retry_config : RetryConfig
default_retry_config = record {
  max_attempts = pos 3;
  retry_on = str "40P01" ∷ [];
  initial_backoff = pos (20 * millisecond);
  max_backoff = pos (500 * millisecond);
}

-- The settings once the defaults are filled in.
pub record Settings : Type 0 where
  pub attempts : ℕ
  pub codes : List Text
  pub backoff : ℕ
  pub cap : ℕ

abbrev pub codes_or_default : List Text → List Text
codes_or_default [] = str "40P01" ∷ []
codes_or_default (c ∷ cs) = c ∷ cs

abbrev pub chosen_config : List RetryConfig → RetryConfig
chosen_config [] = default_retry_config
chosen_config (c ∷ _) = c

unfoldable pub settings : List RetryConfig → Settings
settings cfgs =
    let cfg = chosen_config cfgs in
    record {
      attempts = positive_or cfg.max_attempts 1;
      codes = codes_or_default cfg.retry_on;
      backoff = positive_or cfg.initial_backoff (20 * millisecond);
      cap = positive_or cfg.max_backoff (500 * millisecond);
    }

unfoldable pub is_retryable : Option Cause → List Text → Bool
unfolding any
is_retryable none codes = false
is_retryable (some e) codes =
    if e.is_context
    then false
    else elim e.sqlstate [ none ↦ false | some code ↦ any (λ c. text_eq code c) codes ]

-- `min(backoff*2, max)` for a positive `max`; a product from 2 ^ 63 on is negative.
unfoldable pub next_backoff : ℕ → ℕ → ℕ
next_backoff cap backoff =
    let doubled = backoff * 2 % int64_mod in
    if ltb doubled int64_half && ltb cap doubled then cap else doubled

-- The wait before the next attempt: `draw n` is what `rand.Int64N(n)` returns, which panics, `none`,
-- unless `n` is positive.
unfoldable pub wait : (ℕ → ℕ) → ℕ → Option ℕ
wait draw backoff =
    let half = backoff / 2 in
    if is_positive backoff && ltb 0 half then some ((backoff + draw half) % int64_mod) else none

-- An error is retried exactly when it wraps no context's error and has one of the SQLSTATEs.
pub is_retryable-Memᴰ :
    (e : Cause) (codes : List Text)
    → (is_retryable (some e) codes ≡ true)
      ↔ ((e.is_context ≡ false) × ((code : Text) × (e.sqlstate ≡ some code) × Memᴰ code codes))
unfolding is_retryable
is_retryable-Memᴰ e codes = (forth, back)
  where
    forth :
        is_retryable (some e) codes ≡ true
        → (e.is_context ≡ false) × ((code : Text) × (e.sqlstate ≡ some code) × Memᴰ code codes)
    forth h = elim (Bool-cases e.is_context) [
      | inl p ↦ absurd (true-false (sym (rw p at h)))
      | inr p ↦ elim (Option-cases e.sqlstate) [
        | inl q ↦ absurd (true-false (sym (rw (p, q) at h)))
        | inr (code, q) ↦
            let (c, m, same) = any-true (λ c. text_eq code c) codes (rw (p, q) at h) in
            (p, (code, q, rw ((text_eq_iff code c).0 same) m))
      ]
    ]

    back :
        (e.is_context ≡ false) × ((code : Text) × (e.sqlstate ≡ some code) × Memᴰ code codes)
        → is_retryable (some e) codes ≡ true
    back (p, (code, q, m)) =
        rw (p, q) (any-intro (λ c. text_eq code c) codes m ((text_eq_iff code code).1 refl))

-- The backoff stays at two nanoseconds or more, so that drawing the jitter cannot panic.
pub next_backoff-ge :
    (cap backoff : ℕ)
    → 2 ≤ cap
    → cap < 2 ^ 62
    → 2 ≤ backoff
    → backoff < 2 ^ 62
    → (2 ≤ next_backoff cap backoff) × (next_backoff cap backoff < 2 ^ 62)
unfolding next_backoff
next_backoff-ge cap backoff a b c d = ground arith

pub wait-some :
    (draw : ℕ → ℕ) (backoff : ℕ)
    → 2 ≤ backoff
    → backoff < 2 ^ 62
    → (d : ℕ) × (wait draw backoff ≡ some d)
unfolding wait
wait-some draw backoff lo hi = ((backoff + draw (backoff / 2)) % int64_mod, ground arith)
