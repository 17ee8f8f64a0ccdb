-- ===== src/Schema/Failed.antt =====
-- When `Capture` fails, and with which error.
use devengine.Common.{ℕ, ◌≡◌, refl, Option, none, some, [], ◌++◌, Text, str, Result, ok, err, ◌>>=◌}
use devengine.Schema.{Snapshot}
use devengine.Schema.Capture.{
  Rows, refused, end, scanned, unscanned, each_row, add_column, add_index, add_constraint,
  add_label, add_sequence, Catalog, wrapped, capture,
}

-- The error that a loop over the rows meets, if any.
abbrev pub failure {ℓ} : {A : Type ℓ} → Rows A → Option Text
failure (refused e) = some e
failure (end e) = e
failure (scanned a rows) = failure rows
failure (unscanned e rows) = some e

abbrev named : Text → Option Text → Option (Text × Text)
named stage none = none
named stage (some e) = some (stage, e)

abbrev or_later : Option (Text × Text) → Option (Text × Text) → Option (Text × Text)
or_later (some e) later = some e
or_later none later = later

-- The first query that fails, in the order in which `Capture` sends them.
abbrev pub first_failure : Catalog → Option (Text × Text)
first_failure db = or_later (named (str "columns") (failure db.columns)) (
    or_later (named (str "indexes") (failure db.indexes)) (
      or_later (named (str "constraints") (failure db.constraints)) (
        or_later (named (str "enums") (failure db.labels))
          (or_later (named (str "sequences") (failure db.sequences)) none))))

-- What a stage does to the error of a query and to the rest.
abbrev Failing {ℓ} : {A : Type ℓ} → Result Text A → Option Text → Type ℓ
Failing {A} r (some e) = r ≡ err e
Failing {A} r none = (a : A) × (r ≡ ok a)

each_row-Failing {ℓ κ} :
    {A : Type ℓ} {S : Type κ} (f : A → S → S) (rows : Rows A) (s : S)
    → Failing (each_row f rows s) (failure rows)
unfolding each_row
each_row-Failing f (refused e) s = refl
each_row-Failing f (end none) s = (s, refl)
each_row-Failing f (end (some e)) s = refl
each_row-Failing f (scanned a rows) s = each_row-Failing f rows (f a s)
each_row-Failing f (unscanned e rows) s = refl

abbrev pub Reported : Result Text Snapshot → Option (Text × Text) → Type 0
Reported r none = (snap : Snapshot) × (r ≡ ok snap)
Reported r (some (stage, e)) = r ≡ err (str "schema: capture " ++ (stage ++ (str ": " ++ e)))

stage-Reported {ℓ κ} :
    {A : Type ℓ} {S : Type κ} (stage : Text) (f : A → S → S) (rows : Rows A) (s : S)
    (rest : S → Result Text Snapshot) (later : Option (Text × Text))
    → ((t : S) → Reported (rest t) later)
    → Reported
        (wrapped stage (each_row f rows s) >>= rest)
        (or_later (named stage (failure rows)) later)
unfolding wrapped
stage-Reported stage f rows s rest later h =
    by_failure (failure rows) (each_row f rows s) (each_row-Failing f rows s)
  where
    by_failure :
        (o : Option Text) (r : Result Text _)
        → Failing r o
        → Reported (wrapped stage r >>= rest) (or_later (named stage o) later)
    by_failure none r (t, e) = rw e (h t)
    by_failure (some e) r z = rw z refl

-- A capture fails exactly when one of its queries does: it returns the error of the first one in
-- the order columns, indexes, constraints, enums, sequences, with that stage's name before it, and
-- when none fails it returns a snapshot.
pub capture-Reported : (now : ℕ) (db : Catalog) → Reported (capture now db) (first_failure db)
unfolding capture
capture-Reported now db = stage-Reported (str "columns") add_column db.columns [] _ _ λ t1.
    stage-Reported (str "indexes") add_index db.indexes t1 _ _ λ t2.
      stage-Reported (str "constraints") add_constraint db.constraints t2 _ _ λ t3.
        stage-Reported (str "enums") add_label db.labels [] _ _
          λ es. stage-Reported (str "sequences") add_sequence db.sequences [] _ none λ qs. (_, refl)
