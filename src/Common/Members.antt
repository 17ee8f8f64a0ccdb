-- ===== src/Common/Members.antt =====
-- Members of mapped, filtered and appended lists, and lists with distinct keys.
use mathlib.Core.Path.{◌≡◌, refl, sym, ap, ◌∙◌}
use mathlib.Core.Logic.{◌≢◌, ◌⊎◌, inl, inr}
use mathlib.Core.Bool.{Bool, true, false, ◌||◌}
use mathlib.Core.List.{List, [], ◌∷◌, ◌++◌, map, Memᴰ}
use mathlib.Core.List.Memᴰ
use native.Mathlib.Omega.{arith}
use devengine.Common.Tests.{if◌then◌else◌, Bool-cases}
use devengine.Common.Lists.{All, any, keep_if, update_where}

module _ {ℓ} {A : Type ℓ} where
  pub Memᴰ-append_cases : {a : A} (xs ys : List A) → Memᴰ a (xs ++ ys) → Memᴰ a xs ⊎ Memᴰ a ys
  Memᴰ-append_cases [] ys m = inr m
  Memᴰ-append_cases (x ∷ xs) ys (Memᴰ.head e) = inl (Memᴰ.head e)
  Memᴰ-append_cases (x ∷ xs) ys (Memᴰ.tail m) = elim (Memᴰ-append_cases xs ys m) [
    | inl l ↦ inl (Memᴰ.tail l)
    | inr r ↦ inr r
  ]

  pub Memᴰ-append_left : {a : A} (xs ys : List A) → Memᴰ a xs → Memᴰ a (xs ++ ys)
  Memᴰ-append_left [] ys m = elim m [ ]
  Memᴰ-append_left (x ∷ xs) ys (Memᴰ.head e) = Memᴰ.head e
  Memᴰ-append_left (x ∷ xs) ys (Memᴰ.tail m) = Memᴰ.tail (Memᴰ-append_left xs ys m)

  pub Memᴰ-append_right : {a : A} (xs ys : List A) → Memᴰ a ys → Memᴰ a (xs ++ ys)
  Memᴰ-append_right [] ys m = m
  Memᴰ-append_right (x ∷ xs) ys m = Memᴰ.tail (Memᴰ-append_right xs ys m)

  pub All-of-Memᴰ {κ} : {P : A → Type κ} (xs : List A) → ((a : A) → Memᴰ a xs → P a) → All P xs
  All-of-Memᴰ [] f = tt
  All-of-Memᴰ (x ∷ xs) f = (f x (Memᴰ.head refl), All-of-Memᴰ xs (λ a m. f a (Memᴰ.tail m)))

module _ {ℓ} {A : Type ℓ} (p : A → Bool) where
  pub any-true : (xs : List A) → any p xs ≡ true → (a : A) × Memᴰ a xs × (p a ≡ true)
  unfolding any
  any-true [] h = cc
  any-true (x ∷ xs) h = elim (Bool-cases (p x)) [
    | inl e ↦ (x, Memᴰ.head refl, e)
    | inr e ↦ let (a, m, q) = any-true xs (rw e at h) in (a, Memᴰ.tail m, q)
  ]

  pub any-intro : {a : A} (xs : List A) → Memᴰ a xs → p a ≡ true → any p xs ≡ true
  unfolding any
  any-intro [] m h = elim m [ ]
  any-intro (x ∷ xs) (Memᴰ.head e) h = or_left (p x) _ (ap p (sym e) ∙ h)
    where
      or_left : (b c : Bool) → b ≡ true → (b || c) ≡ true
      or_left b c q = ground arith
  any-intro (x ∷ xs) (Memᴰ.tail m) h = or_right (p x) _ (any-intro xs m h)
    where
      or_right : (b c : Bool) → c ≡ true → (b || c) ≡ true
      or_right b c q = ground arith

  pub any-none : (xs : List A) → ((a : A) → Memᴰ a xs → p a ≡ false) → any p xs ≡ false
  unfolding any
  any-none [] h = refl
  any-none (x ∷ xs) h = rw (h x (Memᴰ.head refl)) (any-none xs (λ a m. h a (Memᴰ.tail m)))

  pub any-false : {a : A} (xs : List A) → any p xs ≡ false → Memᴰ a xs → p a ≡ false
  unfolding any
  any-false [] h m = elim m [ ]
  any-false (x ∷ xs) h (Memᴰ.head e) = ap p e ∙ or_false (p x) _ h
    where
      or_false : (b c : Bool) → (b || c) ≡ false → b ≡ false
      or_false b c q = ground arith
  any-false (x ∷ xs) h (Memᴰ.tail m) = any-false xs (or_false (p x) _ h) m
    where
      or_false : (b c : Bool) → (b || c) ≡ false → c ≡ false
      or_false b c q = ground arith

  Memᴰ-passed :
      (a x : A) (xs : List A)
      → p x ≡ true
      → (Memᴰ a (keep_if p xs) → Memᴰ a xs × (p a ≡ true))
      → Memᴰ a (x ∷ keep_if p xs)
      → Memᴰ a (x ∷ xs) × (p a ≡ true)
  Memᴰ-passed a x xs e ih (Memᴰ.head q) = (Memᴰ.head q, ap p q ∙ e)
  Memᴰ-passed a x xs e ih (Memᴰ.tail n) = (Memᴰ.tail (ih n).0, (ih n).1)

  pub Memᴰ-keep_if : {a : A} (xs : List A) → Memᴰ a (keep_if p xs) → Memᴰ a xs × (p a ≡ true)
  unfolding keep_if
  Memᴰ-keep_if [] m = absurd (Memᴰ.not-nil m)
  Memᴰ-keep_if {a} (x ∷ xs) m = elim (Bool-cases (p x)) [
    | inl e ↦ Memᴰ-passed a x xs e (Memᴰ-keep_if xs) (rw e at m)
    | inr e ↦ let (l, r) = Memᴰ-keep_if xs (rw e at m) in (Memᴰ.tail l, r)
  ]

  pub Memᴰ-keep_if_intro : {a : A} (xs : List A) → Memᴰ a xs → p a ≡ true → Memᴰ a (keep_if p xs)
  unfolding keep_if
  Memᴰ-keep_if_intro [] m h = elim m [ ]
  Memᴰ-keep_if_intro (x ∷ xs) (Memᴰ.head q) h = rw (ap p (sym q) ∙ h) (Memᴰ.head q)
  Memᴰ-keep_if_intro (x ∷ xs) (Memᴰ.tail m) h = elim (Bool-cases (p x)) [
    | inl e ↦ rw e (Memᴰ.tail (Memᴰ-keep_if_intro xs m h))
    | inr e ↦ rw e (Memᴰ-keep_if_intro xs m h)
  ]

module _ {ℓ κ} {A : Type ℓ} {B : Type κ} (f : A → B) where
  pub Memᴰ-map : {b : B} (xs : List A) → Memᴰ b (map f xs) → (a : A) × Memᴰ a xs × (b ≡ f a)
  Memᴰ-map [] m = absurd (Memᴰ.not-nil m)
  Memᴰ-map (x ∷ xs) (Memᴰ.head e) = (x, Memᴰ.head refl, e)
  Memᴰ-map (x ∷ xs) (Memᴰ.tail m) = let (a, n, e) = Memᴰ-map xs m in (a, Memᴰ.tail n, e)

  pub Memᴰ-map_intro : {a : A} (xs : List A) → Memᴰ a xs → Memᴰ (f a) (map f xs)
  Memᴰ-map_intro [] m = elim m [ ]
  Memᴰ-map_intro (x ∷ xs) (Memᴰ.head e) = Memᴰ.head (ap f e)
  Memᴰ-map_intro (x ∷ xs) (Memᴰ.tail m) = Memᴰ.tail (Memᴰ-map_intro xs m)

-- No two positions of the list have one key.
module _ {ℓ κ} {A : Type ℓ} {K : Type κ} (key : A → K) where
  abbrev pub Distinct : List A → Type (ℓ ⊔ κ)
  Distinct [] = Unit
  Distinct (x ∷ xs) = ((y : A) → Memᴰ y xs → key y ≢ key x) × Distinct xs

  pub Distinct-unique :
      {a b : A} (xs : List A) → Distinct xs → Memᴰ a xs → Memᴰ b xs → key a ≡ key b → a ≡ b
  Distinct-unique [] d m n e = elim m [ ]
  Distinct-unique (x ∷ xs) d (Memᴰ.head p) (Memᴰ.head q) e = p ∙ sym q
  Distinct-unique {a} {b} (x ∷ xs) d (Memᴰ.head p) (Memᴰ.tail n) e =
      absurd (d.0 b n (sym e ∙ ap key p))
  Distinct-unique {a} {b} (x ∷ xs) d (Memᴰ.tail m) (Memᴰ.head q) e = absurd (d.0 a m (e ∙ ap key q))
  Distinct-unique (x ∷ xs) d (Memᴰ.tail m) (Memᴰ.tail n) e = Distinct-unique xs d.1 m n e

  pub Distinct-keep_if : (p : A → Bool) (xs : List A) → Distinct xs → Distinct (keep_if p xs)
  unfolding keep_if
  Distinct-keep_if p [] d = tt
  Distinct-keep_if p (x ∷ xs) d = elim (Bool-cases (p x)) [
    | inl e ↦ rw e ((λ y m. d.0 y (Memᴰ-keep_if p xs m).0), Distinct-keep_if p xs d.1)
    | inr e ↦ rw e (Distinct-keep_if p xs d.1)
  ]

  pub Distinct-append :
      (xs ys : List A)
      → Distinct xs
      → Distinct ys
      → ((x y : A) → Memᴰ x xs → Memᴰ y ys → key y ≢ key x)
      → Distinct (xs ++ ys)
  Distinct-append [] ys dx dy apart = dy
  Distinct-append (x ∷ xs) ys dx dy apart = (
    λ y m. elim (Memᴰ-append_cases xs ys m) [
      | inl l ↦ dx.0 y l
      | inr r ↦ apart x y (Memᴰ.head refl) r
    ],
    Distinct-append xs ys dx.1 dy (λ a b m n. apart a b (Memᴰ.tail m) n),
  )

module _ {ℓ κ μ ν} {A : Type ℓ} {B : Type μ} {K : Type κ} {L : Type ν} where
  pub Distinct-map :
      (key : A → K) (other : B → L) (f : A → B) (xs : List A)
      → ((a b : A) → other (f a) ≡ other (f b) → key a ≡ key b)
      → Distinct key xs
      → Distinct other (map f xs)
  Distinct-map key other f [] inj d = tt
  Distinct-map key other f (x ∷ xs) inj d = (
    λ y m e. let (a, n, q) = Memᴰ-map f xs m in d.0 a n (inj a x (ap other (sym q) ∙ e)),
    Distinct-map key other f xs inj d.1,
  )

-- Where a row of an updated table comes from.
pub data Origin {ℓ} {A : Type ℓ} (p : A → Bool) (f : A → A) (xs : List A) (b : A) : Type ℓ where
  changed : (a : A) → Memᴰ a xs → p a ≡ true → b ≡ f a → Origin p f xs b
  kept : Memᴰ b xs → p b ≡ false → Origin p f xs b

module _ {ℓ} {A : Type ℓ} (p : A → Bool) (f : A → A) where
  Origin-head : (x b : A) (xs : List A) → b ≡ (if p x then f x else x) → Origin p f (x ∷ xs) b
  Origin-head x b xs e = elim (Bool-cases (p x)) [
    | inl h ↦ changed x (Memᴰ.head refl) h (rw h at e)
    | inr h ↦ let same : b ≡ x = rw h at e in kept (Memᴰ.head same) (ap p same ∙ h)
  ]

  Origin-tail : (x b : A) (xs : List A) → Origin p f xs b → Origin p f (x ∷ xs) b
  Origin-tail x b xs (changed a m h e) = changed a (Memᴰ.tail m) h e
  Origin-tail x b xs (kept m h) = kept (Memᴰ.tail m) h

  pub update-Origin : {b : A} (xs : List A) → Memᴰ b (update_where p f xs) → Origin p f xs b
  update-Origin [] m = elim m [ ]
  update-Origin {b} (x ∷ xs) (Memᴰ.head e) = Origin-head x b xs e
  update-Origin {b} (x ∷ xs) (Memᴰ.tail m) = Origin-tail x b xs (update-Origin xs m)

  pub update-Memᴰ_kept :
      {a : A} (xs : List A) → Memᴰ a xs → p a ≡ false → Memᴰ a (update_where p f xs)
  update-Memᴰ_kept [] m h = elim m [ ]
  update-Memᴰ_kept {a} (x ∷ xs) (Memᴰ.head e) h = Memᴰ.head (rw (ap p (sym e) ∙ h) e)
  update-Memᴰ_kept (x ∷ xs) (Memᴰ.tail m) h = Memᴰ.tail (update-Memᴰ_kept xs m h)

  pub update-Memᴰ_changed :
      {a : A} (xs : List A) → Memᴰ a xs → p a ≡ true → Memᴰ (f a) (update_where p f xs)
  update-Memᴰ_changed [] m h = elim m [ ]
  update-Memᴰ_changed {a} (x ∷ xs) (Memᴰ.head e) h = Memᴰ.head (rw (ap p (sym e) ∙ h) (ap f e))
  update-Memᴰ_changed (x ∷ xs) (Memᴰ.tail m) h = Memᴰ.tail (update-Memᴰ_changed xs m h)

  -- An UPDATE that keeps the key keeps the keys distinct.
  module _ {κ} {K : Type κ} (key : A → K) where
    updated_key : (x : A) → (p x ≡ true → key (f x) ≡ key x) → key (if p x then f x else x) ≡ key x
    updated_key x h = elim (Bool-cases (p x)) [ inl e ↦ rw e (h e) | inr e ↦ rw e refl ]

    Origin-key :
        {b : A} (xs : List A)
        → ((a : A) → Memᴰ a xs → p a ≡ true → key (f a) ≡ key a)
        → Origin p f xs b
        → (a : A) × Memᴰ a xs × (key b ≡ key a)
    Origin-key xs same (changed a m h e) = (a, m, ap key e ∙ same a m h)
    Origin-key {b} xs same (kept m h) = (b, m, refl)

    pub Distinct-update :
        (xs : List A)
        → ((a : A) → Memᴰ a xs → p a ≡ true → key (f a) ≡ key a)
        → Distinct key xs
        → Distinct key (update_where p f xs)
    Distinct-update [] same d = tt
    Distinct-update (x ∷ xs) same d = (
      λ y m e.
          let (a, n, q) = Origin-key xs (λ b k. same b (Memᴰ.tail k)) (update-Origin xs m) in
          d.0 a n (sym q ∙ e ∙ updated_key x (same x (Memᴰ.head refl))),
      Distinct-update xs (λ a m. same a (Memᴰ.tail m)) d.1,
    )
