-- ===== src/Common/Counts.antt =====
-- How many members pass a test, and updates and filters that none or all of them meet.
use Prim.Native.Nat.{◌≤◌, ◌<◌}
use mathlib.Core.Path.{◌≡◌, refl, sym, ap, ◌∙◌}
use mathlib.Core.Logic.{inl, inr}
use mathlib.Core.Bool.{Bool, true, false, not}
use mathlib.Core.List.{List, [], ◌∷◌, Memᴰ}
use native.Mathlib.Omega.{arith}
use devengine.Common.Tests.{Bool-cases}
use devengine.Common.Lists.{any, count_if, keep_if, update_where}
use devengine.Common.Members.{Distinct}

module _ {ℓ} {A : Type ℓ} (p : A → Bool) where
  pub count_if-none : (xs : List A) → ((a : A) → Memᴰ a xs → p a ≡ false) → count_if p xs ≡ 0
  unfolding count_if
  count_if-none [] h = refl
  count_if-none (x ∷ xs) h =
      rw (h x (Memᴰ.head refl)) (omega (arith, count_if-none xs (λ a m. h a (Memᴰ.tail m))))

  pub count_if-le_one {κ} :
      {K : Type κ} (key : A → K) (xs : List A)
      → Distinct key xs
      → ((a b : A) → p a ≡ true → p b ≡ true → key a ≡ key b)
      → count_if p xs ≤ 1
  unfolding count_if
  count_if-le_one key [] d same = omega arith
  count_if-le_one key (x ∷ xs) d same = elim (Bool-cases (p x)) [
    | inl e ↦ rw (e, count_if-none xs (λ a m. others a m e (p a) refl)) (omega arith)
    | inr e ↦ rw e (omega (arith, count_if-le_one key xs d.1 same))
  ]
    where
      others : (a : A) → Memᴰ a xs → p x ≡ true → (b : Bool) → p a ≡ b → b ≡ false
      others a m e true q = absurd (d.0 a m (same a x q e))
      others a m e false q = refl

  pub count_if-pos : {a : A} (xs : List A) → Memᴰ a xs → p a ≡ true → 0 < count_if p xs
  unfolding count_if
  count_if-pos [] m h = elim m [ ]
  count_if-pos (x ∷ xs) (Memᴰ.head e) h = rw (ap p (sym e) ∙ h) (omega arith)
  count_if-pos (x ∷ xs) (Memᴰ.tail m) h = omega (arith, count_if-pos xs m h)

  -- Statements that reach no row change nothing.
  pub update_where-none : (f : A → A) (xs : List A) → any p xs ≡ false → update_where p f xs ≡ xs
  unfolding any
  update_where-none f [] h = refl
  update_where-none f (x ∷ xs) h = ground (arith, update_where-none f xs)

  pub keep_if-not-none : (xs : List A) → any p xs ≡ false → keep_if (λ x. not (p x)) xs ≡ xs
  unfolding any keep_if
  keep_if-not-none [] h = refl
  keep_if-not-none (x ∷ xs) h = ground (arith, keep_if-not-none xs)

  pub count_if-any-false : (xs : List A) → any p xs ≡ false → count_if p xs ≡ 0
  unfolding any count_if
  count_if-any-false [] h = refl
  count_if-any-false (x ∷ xs) h = ground (arith, count_if-any-false xs)

  pub keep_if-none : (xs : List A) → any p xs ≡ false → keep_if p xs ≡ []
  unfolding any keep_if
  keep_if-none [] h = refl
  keep_if-none (x ∷ xs) h = ground (arith, keep_if-none xs)
