-- ===== src/Common/Lists.antt =====
-- Lists over the native numbers, predicates on every member, and Boolean filters.
use Prim.Native.Nat.{ℕ, zero, suc, ◌+◌, ◌≤◌, min}
use mathlib.Core.Path.{◌≡◌, refl, ap}
use mathlib.Core.Bool.{Bool, false, ◌||◌}
use mathlib.Core.List.{List, [], ◌∷◌, ◌++◌, Memᴰ, map}
use native.Mathlib.Omega.{arith}
use devengine.Common.Tests.{if◌then◌else◌}

module _ {ℓ} {A : Type ℓ} where
  abbrev pub length : List A → ℕ
  length [] = 0
  length (x ∷ xs) = suc (length xs)

  abbrev pub take : ℕ → List A → List A
  take zero xs = []
  take (suc n) [] = []
  take (suc n) (x ∷ xs) = x ∷ take n xs

  abbrev pub drop : ℕ → List A → List A
  drop zero xs = xs
  drop (suc n) [] = []
  drop (suc n) (x ∷ xs) = drop n xs

  -- The members that pass a Boolean test, in order.
  unfoldable pub keep_if : (A → Bool) → List A → List A
  keep_if p [] = []
  keep_if p (x ∷ xs) = if p x then x ∷ keep_if p xs else keep_if p xs

  -- `UPDATE … SET f WHERE p` on a list of rows.
  abbrev pub update_where : (A → Bool) → (A → A) → List A → List A
  update_where p f [] = []
  update_where p f (x ∷ xs) = (if p x then f x else x) ∷ update_where p f xs

  unfoldable pub count_if : (A → Bool) → List A → ℕ
  count_if p [] = 0
  count_if p (x ∷ xs) = (if p x then 1 else 0) + count_if p xs

  unfoldable pub any : (A → Bool) → List A → Bool
  any p [] = false
  any p (x ∷ xs) = p x || any p xs

  abbrev pub All {κ} : (A → Type κ) → List A → Type κ
  All P [] = Unit
  All P (x ∷ xs) = P x × All P xs

  pub length-append : (xs ys : List A) → length (xs ++ ys) ≡ length xs + length ys
  length-append [] ys = omega arith
  length-append (x ∷ xs) ys = omega (arith, length-append xs ys)

  pub length-take : (n : ℕ) (xs : List A) → length (take n xs) ≡ min n (length xs)
  length-take zero xs = omega arith
  length-take (suc n) [] = omega arith
  length-take (suc n) (x ∷ xs) = omega (arith, length-take n xs)

  pub length-keep_if : (p : A → Bool) (xs : List A) → length (keep_if p xs) ≡ count_if p xs
  unfolding keep_if count_if
  length-keep_if p [] = refl
  length-keep_if p (x ∷ xs) = ground (arith, length-keep_if p xs)

  pub All-append {κ} : (P : A → Type κ) (xs ys : List A) → All P xs → All P ys → All P (xs ++ ys)
  All-append P [] ys hx hy = hy
  All-append P (x ∷ xs) ys hx hy = (hx.0, All-append P xs ys hx.1 hy)

  pub All-map {κ μ} :
      {P : A → Type κ} {Q : A → Type μ} (xs : List A) → ((a : A) → P a → Q a) → All P xs → All Q xs
  All-map [] f h = tt
  All-map (x ∷ xs) f h = (f x h.0, All-map xs f h.1)

  pub All-Memᴰ {κ} : (P : A → Type κ) {a : A} {xs : List A} → All P xs → Memᴰ a xs → P a
  All-Memᴰ P h (Memᴰ.head e) = rw e h.0
  All-Memᴰ P h (Memᴰ.tail m) = All-Memᴰ P h.1 m

pub length-map {ℓ κ} :
    {A : Type ℓ} {B : Type κ} (f : A → B) (xs : List A) → length (map f xs) ≡ length xs
length-map f [] = refl
length-map f (x ∷ xs) = ap suc (length-map f xs)

module _ {ℓ} {A : Type ℓ} where
  pub count_if-or :
      (p q : A → Bool) (xs : List A) → count_if (λ x. p x || q x) xs ≤ count_if p xs + count_if q xs
  unfolding count_if
  count_if-or p q [] = omega arith
  count_if-or p q (x ∷ xs) = ground (arith, count_if-or p q xs)

  pub count_if-false : (xs : List A) → count_if (λ x. false) xs ≡ 0
  unfolding count_if
  count_if-false [] = refl
  count_if-false (x ∷ xs) = omega (arith, count_if-false xs)

  -- Members that some element of `ys` picks, where each element picks one at most.
  pub count_if-any {κ} :
      {B : Type κ} (q : B → A → Bool) (ys : List B) (xs : List A)
      → ((y : B) → count_if (q y) xs ≤ 1)
      → count_if (λ x. any (λ y. q y x) ys) xs ≤ length ys
  unfolding any
  count_if-any q [] xs h = rw (count_if-false xs) (omega arith)
  count_if-any q (y ∷ ys) xs h =
      omega (arith, count_if-or (q y) (λ x. any (λ z. q z x) ys) xs, h y, count_if-any q ys xs h)
