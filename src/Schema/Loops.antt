-- ===== src/Schema/Loops.antt =====
-- Loops over rows as folds, and what they make of the tables and enums by name.
use devengine.Common.{
  ◌≡◌, refl, sym, ap, ◌∙◌, true, false, Option, none, some, List, [], ◌∷◌, Text, text_eq,
  text_eq_iff, text_eq_refl, Map, lookup, insert, lookup-insert, Result, ok, err, ◌>>=◌, ok-eq,
  err-eq-ok, bind_passed, if◌then◌else◌, Bool-cases, true-false, inl, inr,
}
use devengine.Schema.{Table, ignore_table}
use devengine.Schema.Capture.{Rows, refused, end, scanned, unscanned, each_row, table_of, wrapped}

-- The rows that were read, in the server's order.
abbrev pub values {ℓ} : {A : Type ℓ} → Rows A → List A
values (scanned a rows) = a ∷ values rows
values (refused e) = []
values (end e) = []
values (unscanned e rows) = []

-- What the rows of one name hold, in the server's order.
abbrev pub of_name {ℓ} : {A : Type ℓ} → Text → List (Text × A) → List A
of_name name [] = []
of_name name ((j, a) ∷ rows) = if text_eq j name then a ∷ of_name name rows else of_name name rows

abbrev pub labels_of : Text → Map (List Text) → List Text
labels_of name enums = elim (lookup name enums) [ some labels ↦ labels | none ↦ [] ]

abbrev pub fold {ℓ κ} : {A : Type ℓ} {S : Type κ} → (A → S → S) → List A → S → S
fold f [] s = s
fold f (a ∷ rest) s = fold f rest (f a s)

-- A loop that returns no error has read every row.
each_row-fold {ℓ κ} :
    {A : Type ℓ} {S : Type κ} (f : A → S → S) (rows : Rows A) (s : S) {t : S}
    → each_row f rows s ≡ ok t
    → t ≡ fold f (values rows) s
unfolding each_row
each_row-fold f (refused e) s h = absurd (err-eq-ok h)
each_row-fold f (end none) s h = sym (ok-eq h)
each_row-fold f (end (some e)) s h = absurd (err-eq-ok h)
each_row-fold f (scanned a rows) s h = each_row-fold f rows (f a s) h
each_row-fold f (unscanned e rows) s h = absurd (err-eq-ok h)

wrapped-eq-ok {ℓ} :
    {A : Type ℓ} (stage : Text) (r : Result Text A) {a : A} → wrapped stage r ≡ ok a → r ≡ ok a
unfolding wrapped
wrapped-eq-ok stage (ok a) h = h
wrapped-eq-ok stage (err e) h = absurd (err-eq-ok h)

-- A stage of `Capture` that is passed has read every row of its query.
pub stage-eq-ok {ℓ κ μ} :
    {A : Type ℓ} {S : Type κ} {B : Type μ} (stage : Text) (f : A → S → S) (rows : Rows A) (s : S)
    (rest : S → Result Text B) {b : B}
    → (wrapped stage (each_row f rows s) >>= rest) ≡ ok b
    → (t : S) × (t ≡ fold f (values rows) s) × (rest t ≡ ok b)
stage-eq-ok stage f rows s rest h =
    let (t, e, r) = bind_passed rest (wrapped stage (each_row f rows s)) h in
    (t, each_row-fold f rows s (wrapped-eq-ok stage _ e), r)

table_of-insert :
    (j name : Text) (t : Table) (tables : Map Table)
    → table_of name (insert j t tables) ≡ (if text_eq j name then t else table_of name tables)
unfolding table_of
table_of-insert j name t tables = elim (Bool-cases (text_eq j name)) [
  | inl e ↦ ap read (lookup-insert j name t tables) ∙ rw e refl
  | inr e ↦ ap read (lookup-insert j name t tables) ∙ rw e refl
]
  where
    read : Option Table → Table
    read o = elim o [
      | some t ↦ t
      | none ↦ record { name = name; columns = []; indexes = []; constraints = [] }
    ]

pub labels_of-insert :
    (j name : Text) (labels : List Text) (enums : Map (List Text))
    → labels_of name (insert j labels enums)
      ≡ (if text_eq j name then labels else labels_of name enums)
labels_of-insert j name labels enums = elim (Bool-cases (text_eq j name)) [
  | inl e ↦ ap read (lookup-insert j name labels enums) ∙ rw e refl
  | inr e ↦ ap read (lookup-insert j name labels enums) ∙ rw e refl
]
  where
    read : Option (List Text) → List Text
    read o = elim o [ some l ↦ l | none ↦ [] ]

-- The three loops over the rows of tables differ in what they put into the table.
module _ {A : Type 0} (put : A → Table → Table) where
  abbrev pub add_item : Text × A → Map Table → Map Table
  add_item (name, a) tables =
      if ignore_table name then tables else insert name (put a (table_of name tables)) tables

  table_of-add_item :
      (j name : Text) (a : A) (tables : Map Table)
      → ignore_table name ≡ false
      → table_of name (add_item (j, a) tables)
        ≡ (if text_eq j name then put a (table_of name tables) else table_of name tables)
  unfolding table_of
  table_of-add_item j name a tables h = elim (Bool-cases (text_eq j name)) [
    | inl e ↦
        rw (e, (text_eq_iff j name).0 e, h)
          (table_of-insert name name _ tables ∙ rw (text_eq_refl name) refl)
    | inr e ↦ elim (Bool-cases (ignore_table j)) [
      | inl ignored ↦ rw (ignored, e) refl
      | inr taken ↦ rw taken (table_of-insert j name _ tables ∙ rw e refl)
    ]
  ]

  pub table_of-items :
      (rows : List (Text × A)) (name : Text) (tables : Map Table)
      → ignore_table name ≡ false
      → table_of name (fold add_item rows tables)
        ≡ fold put (of_name name rows) (table_of name tables)
  table_of-items [] name tables h = refl
  table_of-items ((j, a) ∷ rows) name tables h = elim (Bool-cases (text_eq j name)) [
    | inl e ↦ table_of-items rows name _ h ∙ rw (table_of-add_item j name a tables h, e) refl
    | inr e ↦ table_of-items rows name _ h ∙ rw (table_of-add_item j name a tables h, e) refl
  ]

  lookup-add_item_ignored :
      (j name : Text) (a : A) (tables : Map Table)
      → ignore_table name ≡ true
      → lookup name tables ≡ none
      → lookup name (add_item (j, a) tables) ≡ none
  lookup-add_item_ignored j name a tables h absent = elim (Bool-cases (ignore_table j)) [
    | inl ignored ↦ rw ignored absent
    | inr taken ↦ elim (Bool-cases (text_eq j name)) [
      | inl e ↦ absurd (true-false (sym h ∙ (rw ((text_eq_iff j name).0 e) at taken)))
      | inr e ↦ rw (taken, lookup-insert, e) absent
    ]
  ]

  pub lookup-items_ignored :
      (rows : List (Text × A)) (name : Text) (tables : Map Table)
      → ignore_table name ≡ true
      → lookup name tables ≡ none
      → lookup name (fold add_item rows tables) ≡ none
  lookup-items_ignored [] name tables h absent = absent
  lookup-items_ignored ((j, a) ∷ rows) name tables h absent =
      lookup-items_ignored rows name _ h (lookup-add_item_ignored j name a tables h absent)
