-- ===== src/Retry/Backoff.antt =====
-- `backoff` of jobs/worker.go and outbox/outbox.go over int64 nanoseconds. An int64 is its bit
-- pattern below 2 ^ 64, and is positive between 0 and 2 ^ 63.
use devengine.Common.{
  ℕ, zero, suc, ◌+◌, ◌-◌, ◌*◌, ◌%◌, ◌^◌, Bool, ◌&&◌, Option, none, some, ltb, if◌then◌else◌,
}

abbrev pub int64_mod : ℕ
int64_mod = 2 ^ 64

abbrev pub int64_half : ℕ
int64_half = 2 ^ 63

abbrev pub is_positive : ℕ → Bool
is_positive x = ltb 0 x && ltb x int64_half

-- `for i := 1; i < attempt; i++ { exp *= 2 }`, by the rounds left.
unfoldable pub grow : ℕ → ℕ → ℕ
grow zero exp = exp
grow (suc rounds) exp = grow rounds (exp * 2 % int64_mod)

-- `d > max` for a positive `max`.
abbrev pub exceeds : ℕ → ℕ → Bool
exceeds d max = ltb d int64_half && ltb max d

-- `draw n` is what `rand.Int64N(n)` returns; it panics, which is `none`, unless `n` is positive.
unfoldable pub delay : (ℕ → ℕ) → ℕ → Option ℕ
delay draw exp =
    let max = exp * 2 % int64_mod in
    let d = (exp + draw exp) % int64_mod in
    if is_positive exp then some (if is_positive max && exceeds d max then max else d) else none

unfoldable pub backoff : (ℕ → ℕ) → ℕ → ℕ → Option ℕ
backoff draw base attempt = delay draw (grow (attempt - 1) base)
