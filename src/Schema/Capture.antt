-- ===== src/Schema/Capture.antt =====
-- schema/schema.go: `Capture` and the five queries that it reads.
use devengine.Common.{
  ℕ, Option, none, some, List, [], ◌∷◌, ◌++◌, Text, str, Map, lookup, insert, Result, ok, err,
  ◌>>=◌, if◌then◌else◌,
}
use devengine.Schema.{Sequence, Column, Index, Constraint, Table, Snapshot, ignore_table}

-- What the server gives for a query: the error of `pool.Query`, or rows that `Scan` reads or
-- fails on, and the error of `rows.Err()` behind them.
pub data Rows {ℓ} (A : Type ℓ) : Type ℓ where
  refused : Text → Rows A
  end : Option Text → Rows A
  scanned : A → Rows A → Rows A
  unscanned : Text → Rows A → Rows A

-- `for rows.Next()` with a body, and `return rows.Err()`.
unfoldable pub each_row {ℓ κ} : {A : Type ℓ} {S : Type κ} → (A → S → S) → Rows A → S → Result Text S
each_row f (refused e) s = err e
each_row f (end none) s = ok s
each_row f (end (some e)) s = err e
each_row f (scanned a rows) s = each_row f rows (f a s)
each_row f (unscanned e rows) s = err e

-- The table of that name, made if it is not there.
unfoldable pub table_of : Text → Map Table → Table
table_of name tables = elim (lookup name tables) [
  | some t ↦ t
  | none ↦ record { name = name; columns = []; indexes = []; constraints = [] }
]

unfoldable pub add_column : Text × Column → Map Table → Map Table
unfolding table_of ignore_table
add_column (name, c) tables =
    let t = table_of name tables in
    if ignore_table name
    then tables
    else insert name (record t { columns = t.columns ++ c ∷ [] }) tables

unfoldable pub add_index : Text × Index → Map Table → Map Table
unfolding table_of ignore_table
add_index (name, i) tables =
    let t = table_of name tables in
    if ignore_table name
    then tables
    else insert name (record t { indexes = t.indexes ++ i ∷ [] }) tables

unfoldable pub add_constraint : Text × Constraint → Map Table → Map Table
unfolding table_of ignore_table
add_constraint (name, c) tables =
    let t = table_of name tables in
    if ignore_table name
    then tables
    else insert name (record t { constraints = t.constraints ++ c ∷ [] }) tables

unfoldable pub add_label : Text × Text → Map (List Text) → Map (List Text)
add_label (name, label) enums =
    insert name (elim (lookup name enums) [ some labels ↦ labels | none ↦ [] ] ++ label ∷ []) enums

unfoldable pub add_sequence : Sequence → List Sequence → List Sequence
add_sequence s seqs = seqs ++ s ∷ []

-- The answers of the server to the five queries.
pub record Catalog : Type 0 where
  pub columns : Rows (Text × Column)
  pub indexes : Rows (Text × Index)
  pub constraints : Rows (Text × Constraint)
  pub labels : Rows (Text × Text)
  pub sequences : Rows Sequence

-- The error of a stage, wrapped by `fmt.Errorf("schema: capture …: %w", err)`.
unfoldable pub wrapped {ℓ} : {A : Type ℓ} → Text → Result Text A → Result Text A
wrapped stage (ok a) = ok a
wrapped stage (err e) = err (str "schema: capture " ++ (stage ++ (str ": " ++ e)))

unfoldable pub capture : ℕ → Catalog → Result Text Snapshot
unfolding each_row add_column add_index add_constraint add_label add_sequence wrapped
capture now db = do
  with_columns ← wrapped (str "columns") (each_row add_column db.columns [])
  with_indexes ← wrapped (str "indexes") (each_row add_index db.indexes with_columns)
  tables ← wrapped (str "constraints") (each_row add_constraint db.constraints with_indexes)
  enums ← wrapped (str "enums") (each_row add_label db.labels [])
  sequences ← wrapped (str "sequences") (each_row add_sequence db.sequences [])
  ok (record {
    snapshot_version = 2;
    captured_at = now;
    tables = tables;
    enums = enums;
    sequences = sequences;
  })
