-- ===== src/Schema/Captured.antt =====
-- What a snapshot holds of the rows that the server gave.
use devengine.Common.{
  ℕ, ◌≡◌, refl, sym, ap, ◌∙◌, true, false, none, List, [], ◌∷◌, ◌++◌, Text, str, text_eq,
  text_eq_iff, Map, lookup, ok, ok-eq, Bool-cases, inl, inr,
}
use mathlib.Core.List.{append-nil, append_assoc}
use mathlib.Core.Path.{fun_ext}
use devengine.Schema.{Sequence, Column, Index, Constraint, Table, Snapshot, ignore_table}
use devengine.Schema.Capture.{
  table_of, add_column, add_index, add_constraint, add_label, add_sequence, Catalog, capture,
}
use devengine.Schema.Loops.{
  values, of_name, labels_of, fold, stage-eq-ok, labels_of-insert, add_item, table_of-items,
  lookup-items_ignored,
}

put_column : Column → Table → Table
put_column c t = record t { columns = t.columns ++ c ∷ [] }

put_index : Index → Table → Table
put_index i t = record t { indexes = t.indexes ++ i ∷ [] }

put_constraint : Constraint → Table → Table
put_constraint c t = record t { constraints = t.constraints ++ c ∷ [] }

add_column-item : add_column ≡ add_item put_column
unfolding add_column put_column
add_column-item = fun_ext (λ row. refl)

add_index-item : add_index ≡ add_item put_index
unfolding add_index put_index
add_index-item = fun_ext (λ row. refl)

add_constraint-item : add_constraint ≡ add_item put_constraint
unfolding add_constraint put_constraint
add_constraint-item = fun_ext (λ row. refl)

fold-put_column :
    (cs : List Column) (t : Table) → fold put_column cs t ≡ record t { columns = t.columns ++ cs }
unfolding put_column
fold-put_column [] t = rw append-nil refl
fold-put_column (c ∷ cs) t = fold-put_column cs _ ∙ rw append_assoc refl

fold-put_index :
    (is : List Index) (t : Table) → fold put_index is t ≡ record t { indexes = t.indexes ++ is }
unfolding put_index
fold-put_index [] t = rw append-nil refl
fold-put_index (i ∷ is) t = fold-put_index is _ ∙ rw append_assoc refl

fold-put_constraint :
    (cs : List Constraint) (t : Table)
    → fold put_constraint cs t ≡ record t { constraints = t.constraints ++ cs }
unfolding put_constraint
fold-put_constraint [] t = rw append-nil refl
fold-put_constraint (c ∷ cs) t = fold-put_constraint cs _ ∙ rw append_assoc refl

fold-add_label :
    (rows : List (Text × Text)) (enums : Map (List Text)) (name : Text)
    → labels_of name (fold add_label rows enums) ≡ labels_of name enums ++ of_name name rows
unfolding add_label
fold-add_label [] enums name = sym (append-nil _)
fold-add_label ((j, label) ∷ rows) enums name = elim (Bool-cases (text_eq j name)) [
  | inl e ↦
      fold-add_label rows _ name
      ∙ rw (labels_of-insert j name _ enums, e, (text_eq_iff j name).0 e)
          (append_assoc (labels_of name enums) (label ∷ []) (of_name name rows))
  | inr e ↦ fold-add_label rows _ name ∙ rw (labels_of-insert j name _ enums, e) refl
]

fold-add_sequence : (rows seqs : List Sequence) → fold add_sequence rows seqs ≡ seqs ++ rows
unfolding add_sequence
fold-add_sequence [] seqs = sym (append-nil seqs)
fold-add_sequence (s ∷ rows) seqs = fold-add_sequence rows _ ∙ append_assoc seqs (s ∷ []) rows

-- What a snapshot of the rows holds.
pub record Holds (now : ℕ) (db : Catalog) (snap : Snapshot) : Type 0 where
  pub version : snap.snapshot_version ≡ 2
  pub at_time : snap.captured_at ≡ now
  pub ignored : (name : Text) → ignore_table name ≡ true → lookup name snap.tables ≡ none
  pub table :
      (name : Text)
      → ignore_table name ≡ false
      → table_of name snap.tables ≡ record {
        name = name;
        columns = of_name name (values db.columns);
        indexes = of_name name (values db.indexes);
        constraints = of_name name (values db.constraints);
      }
  pub labels : (name : Text) → labels_of name snap.enums ≡ of_name name (values db.labels)
  pub all_sequences : snap.sequences ≡ values db.sequences

-- The tables of the three loops over no table.
abbrev tables_of : Catalog → Map Table
tables_of db =
    fold add_constraint (values db.constraints)
      (fold add_index (values db.indexes) (fold add_column (values db.columns) []))

lookup-tables_of_ignored :
    (db : Catalog) (name : Text) → ignore_table name ≡ true → lookup name (tables_of db) ≡ none
unfolding lookup
lookup-tables_of_ignored db name h =
    rw (add_column-item, add_index-item, add_constraint-item)
      (lookup-items_ignored put_constraint (values db.constraints) name _ h (
        lookup-items_ignored put_index (values db.indexes) name _ h
          (lookup-items_ignored put_column (values db.columns) name [] h refl)))

table_of-tables_of :
    (db : Catalog) (name : Text)
    → ignore_table name ≡ false
    → table_of name (tables_of db) ≡ record {
      name = name;
      columns = of_name name (values db.columns);
      indexes = of_name name (values db.indexes);
      constraints = of_name name (values db.constraints);
    }
unfolding table_of lookup
table_of-tables_of db name h =
    let cs = values db.columns in
    let is = values db.indexes in
    let ks = values db.constraints in
    let t1 = fold (add_item put_column) cs [] in
    let t2 = fold (add_item put_index) is t1 in
    rw
      (
        add_column-item,
        add_index-item,
        add_constraint-item,
        table_of-items put_constraint ks name t2 h,
        table_of-items put_index is name t1 h,
        table_of-items put_column cs name [] h,
        fold-put_column,
        fold-put_index,
        fold-put_constraint,
      )
      refl

labels_of-nil : (name : Text) → labels_of name [] ≡ []
unfolding lookup
labels_of-nil name = refl

-- A snapshot is taken whole: when Capture succeeds, the snapshot has version 2 and the time of the
-- call, no table that the package ignores, and under every other name exactly the columns, indexes
-- and constraints whose rows the server gave for it, in the server's order; every enum has its
-- labels in order, and the sequences are those of the last query.
pub capture-Holds :
    (now : ℕ) (db : Catalog) (snap : Snapshot) → capture now db ≡ ok snap → Holds now db snap
unfolding capture
capture-Holds now db snap h =
    let (t1, f1, r1) = stage-eq-ok (str "columns") add_column db.columns [] _ h in
    let (t2, f2, r2) = stage-eq-ok (str "indexes") add_index db.indexes t1 _ r1 in
    let (t3, f3, r3) = stage-eq-ok (str "constraints") add_constraint db.constraints t2 _ r2 in
    let (es, f4, r4) = stage-eq-ok (str "enums") add_label db.labels [] _ r3 in
    let (qs, f5, r5) = stage-eq-ok (str "sequences") add_sequence db.sequences [] _ r4 in
    let all : t3 ≡ tables_of db =
      f3
      ∙ ap (fold add_constraint (values db.constraints))
          (f2 ∙ ap (fold add_index (values db.indexes)) f1) in
    let made = ok-eq r5 in
    record {
      version = ap (λ (s : Snapshot). s.snapshot_version) (sym made);
      at_time = ap (λ (s : Snapshot). s.captured_at) (sym made);
      ignored = λ name i.
          ap (λ (s : Snapshot). lookup name s.tables) (sym made)
          ∙ ap (lookup name) all
          ∙ lookup-tables_of_ignored db name i;
      table = λ name i.
          ap (λ (s : Snapshot). table_of name s.tables) (sym made)
          ∙ ap (table_of name) all
          ∙ table_of-tables_of db name i;
      labels = λ name.
          ap (λ (s : Snapshot). labels_of name s.enums) (sym made)
          ∙ ap (labels_of name) f4
          ∙ fold-add_label (values db.labels) [] name
          ∙ ap (λ l. l ++ of_name name (values db.labels)) (labels_of-nil name);
      all_sequences =
          ap (λ (s : Snapshot). s.sequences) (sym made)
          ∙ f5
          ∙ fold-add_sequence (values db.sequences) [];
    }
