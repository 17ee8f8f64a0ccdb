-- ===== src/Retry/Prefix.antt =====
-- What the cut of an error message keeps.
use devengine.Common.{
  lt→leb_false, ℕ, zero, suc, ◌≤◌, ◌<◌, ◌≡◌, refl, true, false, arith, Text, length, take,
  length-take, valid_utf8, Bool-cases, inl, inr, [], ◌∷◌, ap,
}
use native.Mathlib.Decide.{dec_le}
use devengine.Retry.Truncate.{shrink, truncate_utf8}

take-take : (m n : ℕ) (t : Text) → m ≤ n → take m (take n t) ≡ take m t
take-take zero n t h = refl
take-take (suc m) zero t h = absurd (omega arith)
take-take (suc m) (suc n) [] h = refl
take-take (suc m) (suc n) (x ∷ t) h = ap (◌∷◌ x) (take-take m n t (omega arith))

-- A longest valid prefix of at most `bound` bytes.
pub record LongestValid (value : Text) (bound : ℕ) (cut : Text) : Type 0 where
  pub size : ℕ
  pub within : size ≤ bound
  pub is_prefix : cut ≡ take size value
  pub is_valid : valid_utf8 cut ≡ true
  pub is_longest : (m : ℕ) → size < m → m ≤ bound → valid_utf8 (take m value) ≡ false

empty-valid : valid_utf8 [] ≡ true
unfolding valid_utf8
empty-valid = refl

length-take_lt : (n : ℕ) (t : Text) → n < length t → length (take n t) ≡ n
length-take_lt n t h = omega (arith, length-take n t)

at_bound : (m n : ℕ) → m ≤ suc n → ¬ (m ≤ n) → m ≡ suc n
at_bound m n h over = omega arith

LongestValid-widen :
    (value : Text) (n : ℕ) {cut : Text}
    → valid_utf8 (take (suc n) value) ≡ false
    → LongestValid value n cut
    → LongestValid value (suc n) cut
LongestValid-widen value n {cut} bad l = record {
  size = l.size;
  within = omega arith;
  is_prefix = l.is_prefix;
  is_valid = l.is_valid;
  is_longest = λ m above below. elim (dec_le m n) [
    | yes fits ↦ l.is_longest m above fits
    | no over ↦ rw (at_bound m n below over) bad
  ];
}

shrink-LongestValid : (value : Text) (n : ℕ) → LongestValid value n (shrink n (take n value))
unfolding shrink
shrink-LongestValid value zero = record {
  size = 0;
  within = omega arith;
  is_prefix = refl;
  is_valid = empty-valid;
  is_longest = λ m above below. absurd (omega arith);
}
shrink-LongestValid value (suc n) = elim (Bool-cases (valid_utf8 (take (suc n) value))) [
  | inl good ↦ rw good (record {
    size = suc n;
    within = omega arith;
    is_prefix = refl;
    is_valid = good;
    is_longest = λ m above below. absurd (omega arith);
  })
  | inr bad ↦
      rw (bad, take-take n (suc n) value (omega arith))
        (LongestValid-widen value n bad (shrink-LongestValid value n))
]

-- A message that is longer than the bound is cut to its longest prefix within the bound that is
-- well-formed UTF-8.
pub truncate_utf8-LongestValid :
    (value : Text) (max_bytes : ℕ)
    → max_bytes < length value
    → LongestValid value max_bytes (truncate_utf8 value max_bytes)
unfolding truncate_utf8
truncate_utf8-LongestValid value max_bytes h =
    rw (lt→leb_false (length value) max_bytes h, length-take_lt max_bytes value h)
      (shrink-LongestValid value max_bytes)

-- A message within the bound is kept as it is, also where it is not well-formed UTF-8.
pub truncate_utf8_short :
    (value : Text) (max_bytes : ℕ)
    → length value ≤ max_bytes
    → truncate_utf8 value max_bytes ≡ value
unfolding truncate_utf8
truncate_utf8_short value max_bytes h = ground arith
