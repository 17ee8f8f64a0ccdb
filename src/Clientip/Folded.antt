-- ===== src/Clientip/Folded.antt =====
-- Texts that `strings.EqualFold` and `strings.ToLower` compare with small ASCII letters.
use devengine.Common.{
  ℕ, ◌+◌, ◌==◌, leb, Bool, true, false, ◌&&◌, Option, none, some, [], ◌∷◌, Text, strip,
  if◌then◌else◌,
}

unfoldable pub lower_byte : ℕ → ℕ
lower_byte c = if leb b'A' c && leb c b'Z' then c + 32 else c

-- The first character as `strings.EqualFold` compares it with small ASCII letters, to which the
-- sign for Kelvin and the long s fold, and the text behind it.
unfoldable pub fold_first : Text → Option (ℕ × Text)
unfolding lower_byte strip
fold_first [] = none
fold_first (c ∷ s) = elim (strip (0xe2 ∷ 0x84 ∷ 0xaa ∷ []) (c ∷ s)) [
  | some rest ↦ some (b'k', rest)
  | none ↦ elim (strip (0xc5 ∷ 0xbf ∷ []) (c ∷ s)) [
    | some rest ↦ some (b's', rest)
    | none ↦ some (lower_byte c, s)
  ]
]

-- The first character as `strings.ToLower` makes it, where that is an ASCII letter.
unfoldable pub lower_first : Text → Option (ℕ × Text)
unfolding lower_byte strip
lower_first [] = none
lower_first (c ∷ s) = elim (strip (0xe2 ∷ 0x84 ∷ 0xaa ∷ []) (c ∷ s)) [
  | some rest ↦ some (b'k', rest)
  | none ↦ elim (strip (0xc4 ∷ 0xb0 ∷ []) (c ∷ s)) [
    | some rest ↦ some (b'i', rest)
    | none ↦ some (lower_byte c, s)
  ]
]

-- The text spells the word, which has small ASCII letters and dashes.
unfoldable pub spells : (Text → Option (ℕ × Text)) → Text → Text → Bool
spells first [] [] = true
spells first [] (c ∷ s) = false
spells first (w ∷ word) s = elim (first s) [
  | none ↦ false
  | some (c, rest) ↦ (c == w) && spells first word rest
]

unfoldable pub equal_fold : Text → Text → Bool
unfolding spells fold_first
equal_fold s word = spells fold_first word s
