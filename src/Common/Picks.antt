-- ===== src/Common/Picks.antt =====
-- Members of a cut list and of a list with two members swapped.
use Prim.Native.Nat.{ℕ, zero, suc}
use mathlib.Core.List.{List, [], ◌∷◌, Memᴰ}
use devengine.Common.Lists.{take}

pub Memᴰ-take {ℓ} : {A : Type ℓ} {a : A} (n : ℕ) (xs : List A) → Memᴰ a (take n xs) → Memᴰ a xs
Memᴰ-take zero xs m = elim m [ ]
Memᴰ-take (suc n) [] m = m
Memᴰ-take (suc n) (x ∷ xs) (Memᴰ.head e) = Memᴰ.head e
Memᴰ-take (suc n) (x ∷ xs) (Memᴰ.tail m) = Memᴰ.tail (Memᴰ-take n xs m)

pub Memᴰ-swapped {ℓ} :
    {A : Type ℓ} {a r s : A} (rows : List A) → Memᴰ a (s ∷ r ∷ rows) → Memᴰ a (r ∷ s ∷ rows)
Memᴰ-swapped rows (Memᴰ.head e) = Memᴰ.tail (Memᴰ.head e)
Memᴰ-swapped rows (Memᴰ.tail (Memᴰ.head e)) = Memᴰ.head e
Memᴰ-swapped rows (Memᴰ.tail (Memᴰ.tail m)) = Memᴰ.tail (Memᴰ.tail m)

pub Memᴰ-cons_map {ℓ} :
    {A : Type ℓ} {a : A} (x : A) (xs ys : List A)
    → (Memᴰ a xs → Memᴰ a ys)
    → Memᴰ a (x ∷ xs)
    → Memᴰ a (x ∷ ys)
Memᴰ-cons_map x xs ys f (Memᴰ.head e) = Memᴰ.head e
Memᴰ-cons_map x xs ys f (Memᴰ.tail m) = Memᴰ.tail (f m)
