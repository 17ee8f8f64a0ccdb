-- ===== src/Retry/Bounds.antt =====
-- How long a retry waits, and when the doubling leaves the int64 range.
use native.Mathlib.Nat.{
  mul_assoc, mul-one, pow-succ', mod-eq_of_lt, mul-mod_right, mul-add-mod_self_left, one-le-pow,
  div-add-mod, add-mul, mul_left_comm,
}
use Prim.Native.Nat.add
use devengine.Common.{
  ℕ, zero, suc, ◌+◌, ◌-◌, ◌*◌, ◌/◌, ◌%◌, ◌^◌, ◌≤◌, ◌<◌, ◌≡◌, refl, sym, ap, ◌∙◌, none, some, arith,
}
use devengine.Retry.Backoff.{grow, delay, backoff, int64_mod}

doubled : (rounds exp : ℕ) → exp * 2 * 2 ^ rounds ≡ exp * 2 ^ suc rounds
doubled rounds exp =
    mul_assoc exp 2 (2 ^ rounds) ∙ ap (λ (t : ℕ). exp * t) (sym (pow-succ' 2 rounds))

mul-mod : (x k m : ℕ) → x % m * k % m ≡ x * k % m
mul-mod x k m =
    sym (mul-add-mod_self_left m (x / m * k) (x % m * k))
    ∙ ap (λ (t : ℕ). (t + x % m * k) % m) (sym (mul_assoc m (x / m) k))
    ∙ ap (λ (t : ℕ). t % m) (sym (add-mul (m * (x / m)) (x % m) k))
    ∙ ap (λ (t : ℕ). t * k % m) (div-add-mod x m)

-- The loop is the product modulo 2 ^ 64.
pub grow-mod : (rounds exp : ℕ) → exp < 2 ^ 64 → grow rounds exp ≡ exp * 2 ^ rounds % 2 ^ 64
unfolding grow
grow-mod zero exp h = sym (mod-eq_of_lt h) ∙ ap (λ (t : ℕ). t % 2 ^ 64) (sym (mul-one exp))
grow-mod (suc rounds) exp h =
    grow-mod rounds (exp * 2 % int64_mod) (omega arith)
    ∙ mul-mod (exp * 2) (2 ^ rounds) (2 ^ 64)
    ∙ ap (λ (t : ℕ). t % 2 ^ 64) (doubled rounds exp)

-- A delay is at least the grown base and below twice it.
delay_bounds :
    (draw : ℕ → ℕ) (exp : ℕ)
    → draw exp < exp
    → exp < 2 ^ 62
    → (d : ℕ) × (delay draw exp ≡ some d) × (exp ≤ d) × (d < exp * 2)
unfolding delay
delay_bounds draw exp drawn small = (exp + draw exp, ground arith, omega arith, omega arith)

grown-pos : (base rounds : ℕ) → 0 < base → 0 < base * 2 ^ rounds
grown-pos base rounds h = grind (arith, one-le-pow rounds 2)

base-lt : (base rounds : ℕ) → base * 2 ^ rounds < 2 ^ 62 → base < 2 ^ 64
base-lt base rounds h = grind (arith, one-le-pow rounds 2)

pow_shift : (k : ℕ) → 2 ^ (k + 64) ≡ 2 ^ 64 * 2 ^ k
pow_shift zero = refl
pow_shift (suc k) =
    ap (λ (t : ℕ). 2 ^ t) (add.suc k 64)
    ∙ pow-succ' 2 (k + 64)
    ∙ ap (λ (t : ℕ). 2 * t) (pow_shift k)
    ∙ mul_left_comm 2 (2 ^ 64) (2 ^ k)
    ∙ ap (λ (t : ℕ). 2 ^ 64 * t) (sym (pow-succ' 2 k))

grow_vanishes : (base rounds : ℕ) → base < 2 ^ 64 → 64 ≤ rounds → grow rounds base ≡ 0
grow_vanishes base rounds h long =
    grow-mod rounds base h
    ∙ ap (λ (t : ℕ). base * 2 ^ t % 2 ^ 64) (split rounds long)
    ∙ ap (λ (t : ℕ). base * t % 2 ^ 64) (pow_shift (rounds - 64))
    ∙ ap (λ (t : ℕ). t % 2 ^ 64) (mul_left_comm base (2 ^ 64) (2 ^ (rounds - 64)))
    ∙ mul-mod_right (2 ^ 64) (base * 2 ^ (rounds - 64))
  where
    split : (n : ℕ) → 64 ≤ n → n ≡ n - 64 + 64
    split n le = omega arith

delay_zero : (draw : ℕ → ℕ) → delay draw 0 ≡ none
unfolding delay
delay_zero draw = refl

-- The delay after some rounds of doubling.
pub grown_bounds :
    (draw : ℕ → ℕ) (base rounds : ℕ)
    → ((n : ℕ) → 0 < n → draw n < n)
    → 0 < base
    → base * 2 ^ rounds < 2 ^ 62
    → (d : ℕ) × (delay draw (grow rounds base) ≡ some d)
      × (base * 2 ^ rounds ≤ d)
      × (d < base * 2 ^ rounds * 2)
grown_bounds draw base rounds drawn positive small =
    let exp = base * 2 ^ rounds in
    let within : base < 2 ^ 64 = base-lt base rounds small in
    let grown : grow rounds base ≡ exp = grow-mod rounds base within ∙ mod-eq_of_lt (omega arith) in
    rw grown (delay_bounds draw exp (drawn exp (grown-pos base rounds positive)) small)

-- For a positive base that, doubled n - 1 times, stays below 2 ^ 62 nanoseconds, the delay that
-- backoff returns for the n-th retry is at least base * 2 ^ (n - 1) and less than twice that,
-- whatever the random source returns within its range.
pub backoff_bounds :
    (draw : ℕ → ℕ) (base attempt : ℕ)
    → ((n : ℕ) → 0 < n → draw n < n)
    → 0 < base
    → base * 2 ^ (attempt - 1) < 2 ^ 62
    → (d : ℕ) × (backoff draw base attempt ≡ some d)
      × (base * 2 ^ (attempt - 1) ≤ d)
      × (d < base * 2 ^ (attempt - 1) * 2)
unfolding backoff
backoff_bounds draw base attempt drawn positive small =
    grown_bounds draw base (attempt - 1) drawn positive small

-- The same for the retry that follows `rounds` failures.
pub backoff-suc :
    (draw : ℕ → ℕ) (base rounds : ℕ)
    → backoff draw base (suc rounds) ≡ delay draw (grow rounds base)
unfolding backoff
backoff-suc draw base rounds = ap (λ (n : ℕ). delay draw (grow n base)) (back rounds)
  where
    back : (n : ℕ) → suc n - 1 ≡ n
    back n = omega arith

-- The doubling is not capped: past 64 rounds the product is 0 modulo 2 ^ 64, whatever the base,
-- and `rand.Int64N` panics.
pub backoff_overflow :
    (draw : ℕ → ℕ) (base attempt : ℕ)
    → base < 2 ^ 64
    → 64 < attempt
    → backoff draw base attempt ≡ none
unfolding backoff
backoff_overflow draw base attempt h long =
    rw (grow_vanishes base (attempt - 1) h (omega arith)) (delay_zero draw)
