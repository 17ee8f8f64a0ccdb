-- ===== src/Common/Ranges.antt =====
-- `for k, v := range m`: what a loop over a map appends, and maps that agree key by key.
use mathlib.Core.Path.{◌≡◌, refl, sym, ◌∙◌}
use mathlib.Core.Logic.{◌↔◌, inl, inr}
use mathlib.Core.Bool.{false}
use mathlib.Core.Option.{Option, none, some}
use mathlib.Core.List.{List, [], ◌∷◌, ◌++◌}
use native.Mathlib.Omega.{arith}
use devengine.Common.Tests.{Bool-cases, some_eq, none-some}
use devengine.Common.Texts.{Text, text_eq, text_eq_iff, text_eq_refl}
use devengine.Common.Maps.{Map, lookup, insert, lookup-insert}

pub append-eq-nil {ℓ} : {A : Type ℓ} (xs ys : List A) → ((xs ++ ys) ≡ []) ↔ ((xs ≡ []) × (ys ≡ []))
append-eq-nil [] ys = ((λ e. (refl, e)), (λ p. p.1))
append-eq-nil (x ∷ xs) ys = ((λ e. cc), (λ p. let q = p.0 in cc))

-- Each key stands once, as in every Go map.
abbrev pub DistinctKeys {ℓ} : {V : Type ℓ} → Map V → Type ℓ
DistinctKeys [] = Unit
DistinctKeys ((k, _) ∷ m) = (lookup k m ≡ none) × DistinctKeys m

module _ {ℓ} {V : Type ℓ} where
  pub insert-DistinctKeys :
      (k : Text) (v : V) (m : Map V) → DistinctKeys m → DistinctKeys (insert k v m)
  unfolding insert lookup
  insert-DistinctKeys k v [] d = (refl, tt)
  insert-DistinctKeys k v ((j, w) ∷ m) d = elim (Bool-cases (text_eq j k)) [
    | inl e ↦ rw (e, sym ((text_eq_iff j k).0 e)) d
    | inr e ↦ rw e (rw lookup-insert (rw (text_eq_comm j k e) d.0), insert-DistinctKeys k v m d.1)
  ]
    where
      text_eq_comm : (j k : Text) → text_eq j k ≡ false → text_eq k j ≡ false
      text_eq_comm j k h = ground (arith, text_eq_iff j k, text_eq_iff k j)

  module _ {κ} {E : Type κ} (f : Text → V → List E) where
    unfoldable pub range_map : Map V → List E
    range_map [] = []
    range_map ((k, v) ∷ m) = f k v ++ range_map m

    range_map-nil_entry :
        (m : Map V) (k : Text) (v : V) → range_map m ≡ [] → lookup k m ≡ some v → f k v ≡ []
    unfolding range_map lookup
    range_map-nil_entry [] k v e h = absurd (none-some h)
    range_map-nil_entry ((j, w) ∷ m) k v e h = elim (Bool-cases (text_eq j k)) [
      | inl p ↦
          let same : some w ≡ some v = rw p at h in
          rw (sym ((text_eq_iff j k).0 p), sym (some_eq same)) ((append-eq-nil (f j w) _).0 e).0
      | inr p ↦ range_map-nil_entry m k v ((append-eq-nil (f j w) _).0 e).1 (rw p at h)
    ]

    range_map-nil_all :
        (m : Map V)
        → DistinctKeys m
        → ((k : Text) (v : V) → lookup k m ≡ some v → f k v ≡ [])
        → range_map m ≡ []
    unfolding range_map lookup
    range_map-nil_all [] d h = refl
    range_map-nil_all ((j, w) ∷ m) d h =
        (append-eq-nil (f j w) (range_map m)).1
          (h j w (rw (text_eq_refl j)), range_map-nil_all m d.1 behind)
      where
        behind : (k : Text) (v : V) → lookup k m ≡ some v → f k v ≡ []
        behind k v e = elim (Bool-cases (text_eq j k)) [
          | inl p ↦ absurd (none-some (sym d.0 ∙ (rw (sym ((text_eq_iff j k).0 p)) at e)))
          | inr p ↦ h k v (rw p e)
        ]

    -- A loop appends nothing exactly when no entry makes it append.
    pub range_map-eq-nil :
        (m : Map V)
        → DistinctKeys m
        → (range_map m ≡ []) ↔ ((k : Text) (v : V) → lookup k m ≡ some v → f k v ≡ [])
    range_map-eq-nil m d = ((λ e k v. range_map-nil_entry m k v e), range_map-nil_all m d)

-- Two values of a key: absent on both sides, or related.
abbrev pub Agreeing {ℓ} : {V : Type ℓ} → (V → V → Type 0) → Option V → Option V → Type 0
Agreeing R none none = Unit
Agreeing R none (some w) = ⊥
Agreeing R (some v) none = ⊥
Agreeing R (some v) (some w) = R v w

abbrev pub MapsAgree {ℓ} : {V : Type ℓ} → (V → V → Type 0) → Map V → Map V → Type 0
MapsAgree R m n = (k : Text) → Agreeing R (lookup k m) (lookup k n)

abbrev pub Present {ℓ} : {V : Type ℓ} → Option V → Type 0
Present none = ⊥
Present (some v) = Unit

module _ {ℓ} {V : Type ℓ} (R : V → V → Type 0) where
  agree_of :
      (o p : Option V)
      → ((w : V) → p ≡ some w → Present o)
      → ((v : V) → o ≡ some v → Agreeing R (some v) p)
      → Agreeing R o p
  agree_of none none f g = tt
  agree_of none (some w) f g = f w refl
  agree_of (some v) p f g = g v refl

  held_of : (o p : Option V) (w : V) → Agreeing R o p → p ≡ some w → Present o
  held_of none none w a e = absurd (none-some e)
  held_of none (some x) w a e = a
  held_of (some v) p w a e = tt

  -- A comparison of two maps, one loop for what was added and one for what was there, finds
  -- nothing exactly when the maps agree.
  pub two_loops-eq-nil {κ} :
      {E : Type κ} (m n : Map V) (f g : Text → V → List E)
      → DistinctKeys m
      → DistinctKeys n
      → ((k : Text) (v : V) → (f k v ≡ []) ↔ Present (lookup k m))
      → ((k : Text) (v : V) → (g k v ≡ []) ↔ Agreeing R (some v) (lookup k n))
      → ((range_map f n ≡ []) × (range_map g m ≡ [])) ↔ MapsAgree R m n
  two_loops-eq-nil m n f g dm dn fh gh = (
    λ (p, q) k.
        agree_of (lookup k m) (lookup k n) (λ w e. (fh k w).0 ((range_map-eq-nil f n dn).0 p k w e))
          (λ v e. (gh k v).0 ((range_map-eq-nil g m dm).0 q k v e)),
    λ a. (
      (range_map-eq-nil f n dn).1 λ k w e. (fh k w).1 (held_of (lookup k m) (lookup k n) w (a k) e),
      (range_map-eq-nil g m dm).1 λ k v e. (gh k v).1 (rw (sym e) (a k)),
    ),
  )

  Agreeing-flip : (o p : Option V) → Agreeing R o p → Agreeing (λ v w. R w v) p o
  Agreeing-flip none none a = tt
  Agreeing-flip none (some w) a = a
  Agreeing-flip (some v) none a = a
  Agreeing-flip (some v) (some w) a = a

  pub MapsAgree-flip : (m n : Map V) → MapsAgree (λ v w. R w v) n m ↔ MapsAgree R m n
  MapsAgree-flip m n = (
    (λ a k. Agreeing-unflip (lookup k m) (lookup k n) (a k)),
    (λ a k. Agreeing-flip (lookup k m) (lookup k n) (a k)),
  )
    where
      Agreeing-unflip : (o p : Option V) → Agreeing (λ v w. R w v) p o → Agreeing R o p
      Agreeing-unflip none none a = tt
      Agreeing-unflip none (some w) a = a
      Agreeing-unflip (some v) none a = a
      Agreeing-unflip (some v) (some w) a = a

pub iff_trans {ℓ κ μ} : {A : Type ℓ} {B : Type κ} {C : Type μ} → A ↔ B → B ↔ C → A ↔ C
iff_trans f g = ((λ a. g.0 (f.0 a)), (λ c. f.1 (g.1 c)))

pub iff_pair {ℓ κ μ ν} :
    {A : Type ℓ} {B : Type κ} {C : Type μ} {D : Type ν} → A ↔ C → B ↔ D → (A × B) ↔ (C × D)
iff_pair f g = ((λ p. (f.0 p.0, g.0 p.1)), (λ p. (f.1 p.0, g.1 p.1)))

pub iff_swap {ℓ κ} : {A : Type ℓ} {B : Type κ} → (A × B) ↔ (B × A)
iff_swap = ((λ p. (p.1, p.0)), (λ p. (p.1, p.0)))
