-- ===== src/Schema/Clean.antt =====
-- `compare` reports no drift exactly when the two snapshots agree.
use devengine.Common.{
  ◌≡◌, refl, ◌↔◌, Bool, true, false, not, ◌&&◌, Option, none, some, List, [], ◌∷◌, ◌++◌, arith,
  Text, text_eq, text_eq_iff, Map, lookup, MapsAgree, Agreeing, Present, DistinctKeys,
  insert-DistinctKeys, append-eq-nil, iff_trans, iff_pair, iff_swap, MapsAgree-flip,
  two_loops-eq-nil, leb, ltb, length,
}
use devengine.Schema.{Sequence, Column, Index, Constraint, Table, Snapshot}
use devengine.Schema.Drift.{
  DriftEntry, entry, table_removed, join, index_columns, index_indexes, index_constraints,
  index_sequences, default_text, bool_eq, column_differs, sequence_eq,
}
use devengine.Schema.Diff.{
  unless_in, when, kept_column, diff_columns, kept_index, diff_indexes, kept_constraint,
  diff_constraints, live_sequence, diff_sequences, live_enum, diff_enums, kept_table, all_entries,
  compare,
}
use devengine.Schema.Agree.{
  ColumnsAgree, IndexesAgree, ConstraintsAgree, TablesAgree, SequencesAgree, LabelsAgree,
  SnapshotsAgree,
}

unless_in-eq-nil {ℓ} :
    {V : Type ℓ} (o : Option V) (e : DriftEntry) → (unless_in o e ≡ []) ↔ Present o
unless_in-eq-nil none e = ((λ h. cc), (λ h. absurd h))
unless_in-eq-nil (some v) e = ((λ h. tt), (λ h. refl))

when-eq-nil : (b : Bool) (e : DriftEntry) → (when b e ≡ []) ↔ (b ≡ false)
when-eq-nil true e = ((λ h. cc), (λ h. cc))
when-eq-nil false e = ((λ h. refl), (λ h. refl))

-- What is reported of a name in both maps.
kept-eq-nil {ℓ} :
    {V : Type ℓ} (R : V → V → Type 0) (differs : V → V → Bool) (v : V) (o : Option V)
    (removed : DriftEntry) (changed : V → DriftEntry)
    → ((v w : V) → (differs v w ≡ false) ↔ R v w)
    → (elim o [ none ↦ removed ∷ [] | some w ↦ when (differs v w) (changed w) ] ≡ [])
      ↔ Agreeing R (some v) o
kept-eq-nil R differs v none removed changed h = ((λ e. cc), (λ e. absurd e))
kept-eq-nil R differs v (some w) removed changed h =
    iff_trans (when-eq-nil (differs v w) (changed w)) (h v w)

column_differs-false : (c d : Column) → (column_differs c d ≡ false) ↔ ColumnsAgree c d
unfolding column_differs bool_eq
column_differs-false c d =
    ground
      (arith, text_eq_iff c.data_type d.data_type, text_eq_iff (default_text c) (default_text d))

text_differs-false : (s t : Text) → (not (text_eq s t) ≡ false) ↔ (s ≡ t)
text_differs-false s t = ground (arith, text_eq_iff s t)

sequence_eq_iff : (s t : Sequence) → (sequence_eq s t ≡ true) ↔ (s ≡ t)
unfolding sequence_eq bool_eq
sequence_eq_iff s t = ground (
  arith,
  text_eq_iff s.name t.name,
  text_eq_iff s.data_type t.data_type,
  text_eq_iff s.start t.start,
  text_eq_iff s.min_value t.min_value,
  text_eq_iff s.max_value t.max_value,
  text_eq_iff s.increment t.increment,
  text_eq_iff s.cache t.cache,
)

sequence_differs-false :
    (b : Bool) (s t : Sequence) → ((b && not (sequence_eq t s)) ≡ false) ↔ SequencesAgree b t s
sequence_differs-false true s t = ground (arith, sequence_eq_iff t s)
sequence_differs-false false s t = ((λ h. tt), (λ h. refl))

-- The maps by name are Go maps.
index_columns-DistinctKeys :
    (cs : List Column) (m : Map Column) → DistinctKeys m → DistinctKeys (index_columns cs m)
unfolding index_columns
index_columns-DistinctKeys [] m d = d
index_columns-DistinctKeys (c ∷ cs) m d =
    index_columns-DistinctKeys cs _ (insert-DistinctKeys c.name c m d)

index_indexes-DistinctKeys :
    (is : List Index) (m : Map Index) → DistinctKeys m → DistinctKeys (index_indexes is m)
unfolding index_indexes
index_indexes-DistinctKeys [] m d = d
index_indexes-DistinctKeys (i ∷ is) m d =
    index_indexes-DistinctKeys is _ (insert-DistinctKeys i.name i m d)

index_constraints-DistinctKeys :
    (cs : List Constraint) (m : Map Constraint)
    → DistinctKeys m
    → DistinctKeys (index_constraints cs m)
unfolding index_constraints
index_constraints-DistinctKeys [] m d = d
index_constraints-DistinctKeys (c ∷ cs) m d =
    index_constraints-DistinctKeys cs _ (insert-DistinctKeys c.name c m d)

index_sequences-DistinctKeys :
    (seqs : List Sequence) (m : Map Sequence)
    → DistinctKeys m
    → DistinctKeys (index_sequences seqs m)
unfolding index_sequences
index_sequences-DistinctKeys [] m d = d
index_sequences-DistinctKeys (s ∷ seqs) m d =
    index_sequences-DistinctKeys seqs _ (insert-DistinctKeys s.name s m d)

diff_columns-eq-nil :
    (name : Text) (s t : Table)
    → (diff_columns name s t ≡ [])
      ↔ MapsAgree ColumnsAgree (index_columns s.columns []) (index_columns t.columns [])
unfolding diff_columns kept_column
diff_columns-eq-nil name s t = iff_trans (append-eq-nil _ _) (
    two_loops-eq-nil ColumnsAgree _ _ _ _ (index_columns-DistinctKeys s.columns [] tt)
      (index_columns-DistinctKeys t.columns [] tt) (λ k v. unless_in-eq-nil _ _)
      (λ k v. kept-eq-nil ColumnsAgree column_differs v _ _ _ column_differs-false))

diff_indexes-eq-nil :
    (name : Text) (s t : Table)
    → (diff_indexes name s t ≡ [])
      ↔ MapsAgree IndexesAgree (index_indexes s.indexes []) (index_indexes t.indexes [])
unfolding diff_indexes kept_index
diff_indexes-eq-nil name s t = iff_trans (append-eq-nil _ _) (
    two_loops-eq-nil IndexesAgree _ _ _ _ (index_indexes-DistinctKeys s.indexes [] tt)
      (index_indexes-DistinctKeys t.indexes [] tt) (λ k v. unless_in-eq-nil _ _)
      (λ k v.
        kept-eq-nil IndexesAgree (λ (i j : Index). not (text_eq i.definition j.definition)) v _ _ _
          (λ i j. text_differs-false i.definition j.definition)))

diff_constraints-eq-nil :
    (name : Text) (s t : Table)
    → (diff_constraints name s t ≡ [])
      ↔ MapsAgree ConstraintsAgree
          (index_constraints s.constraints [])
          (index_constraints t.constraints [])
unfolding diff_constraints kept_constraint
diff_constraints-eq-nil name s t = iff_trans (append-eq-nil _ _) (
    two_loops-eq-nil ConstraintsAgree _ _ _ _ (index_constraints-DistinctKeys s.constraints [] tt)
      (index_constraints-DistinctKeys t.constraints [] tt) (λ k v. unless_in-eq-nil _ _)
      (λ k v.
        kept-eq-nil ConstraintsAgree (λ (c d : Constraint). not (text_eq c.definition d.definition))
          v _ _ _ (λ c d. text_differs-false c.definition d.definition)))

diff_sequences-eq-nil :
    (base live : List Sequence) (b : Bool)
    → (diff_sequences base live b ≡ [])
      ↔ MapsAgree (SequencesAgree b) (index_sequences base []) (index_sequences live [])
unfolding diff_sequences live_sequence
diff_sequences-eq-nil base live b = iff_trans (append-eq-nil _ _) (
    iff_trans iff_swap (
      iff_trans
        (two_loops-eq-nil (λ s t. SequencesAgree b t s) _ _ _ _
          (index_sequences-DistinctKeys live [] tt) (index_sequences-DistinctKeys base [] tt)
          (λ k v. unless_in-eq-nil _ _)
          (λ k v.
            kept-eq-nil (λ s t. SequencesAgree b t s)
              (λ (s t : Sequence). b && not (sequence_eq t s)) v _ _ _ (sequence_differs-false b)))
        (MapsAgree-flip (SequencesAgree b) _ _)))

diff_enums-eq-nil :
    (base live : Map (List Text))
    → DistinctKeys base
    → DistinctKeys live
    → (diff_enums base live ≡ []) ↔ MapsAgree LabelsAgree base live
unfolding diff_enums live_enum
diff_enums-eq-nil base live db dl = iff_trans (append-eq-nil _ _) (
    iff_trans iff_swap (
      iff_trans
        (two_loops-eq-nil (λ s t. LabelsAgree t s) _ _ _ _ dl db (λ k v. unless_in-eq-nil _ _)
          (λ k v.
            kept-eq-nil (λ s t. LabelsAgree t s)
              (λ (ls ms : List Text). not (text_eq (join ms) (join ls))) v _ _ _
              (λ ls ms. text_differs-false (join ms) (join ls))))
        (MapsAgree-flip LabelsAgree base live)))

diff_tables-eq-nil :
    (name : Text) (s t : Table)
    → ((diff_columns name s t ++ (diff_indexes name s t ++ diff_constraints name s t)) ≡ [])
      ↔ TablesAgree s t
diff_tables-eq-nil name s t = iff_trans (append-eq-nil _ _) (
    iff_trans
      (iff_pair (diff_columns-eq-nil name s t) (
        iff_trans (append-eq-nil _ _)
          (iff_pair (diff_indexes-eq-nil name s t) (diff_constraints-eq-nil name s t))))
      ((λ p. (p.0, p.1.0, p.1.1)), (λ p. (p.0, (p.1, p.2)))))

kept_table-eq-nil :
    (live : Map Table) (name : Text) (s : Table)
    → (kept_table live name s ≡ []) ↔ Agreeing TablesAgree (some s) (lookup name live)
unfolding kept_table
kept_table-eq-nil live name s =
    elim (lookup name live)
      as (λ o.
        (elim o [
          | none ↦ entry table_removed name [] [] ∷ []
          | some t ↦ diff_columns name s t ++ (diff_indexes name s t ++ diff_constraints name s t)
        ]
          ≡ [])
        ↔ Agreeing TablesAgree (some s) o) [
          | none ↦ ((λ e. cc), (λ e. absurd e))
          | some t ↦ diff_tables-eq-nil name s t
        ]

-- The tables and enums of a snapshot are Go maps.
pub record IsSnapshot (s : Snapshot) : Type 0 where
  pub tables : DistinctKeys s.tables
  pub enums : DistinctKeys s.enums

all_entries-eq-nil :
    (base live : Snapshot)
    → IsSnapshot base
    → IsSnapshot live
    → (all_entries base live ≡ []) ↔ SnapshotsAgree base live
unfolding all_entries
all_entries-eq-nil base live vb vl = iff_trans (append-eq-nil _ _) (
    iff_trans (iff_pair ((λ e. e), (λ e. e)) (append-eq-nil _ _)) (
      iff_trans ((λ p. ((p.0, p.1.0), p.1.1)), (λ p. (p.0.0, (p.0.1, p.1))))
        (iff_trans
          (iff_pair
            (two_loops-eq-nil TablesAgree base.tables live.tables _ _ vb.tables vl.tables
              (λ k t. unless_in-eq-nil _ _) (λ k t. kept_table-eq-nil live.tables k t))
            (iff_trans (append-eq-nil _ _) (
              iff_pair
                (diff_sequences-eq-nil base.sequences live.sequences (leb 2 base.snapshot_version))
                (diff_enums-eq-nil base.enums live.enums vb.enums vl.enums))))
          ((λ p. (p.0, p.1.0, p.1.1)), (λ p. (p.0, (p.1, p.2)))))))

has_any {ℓ} : {A : Type ℓ} (xs : List A) → (ltb 0 (length xs) ≡ false) ↔ (xs ≡ [])
has_any [] = ((λ h. refl), (λ h. refl))
has_any (x ∷ xs) = ((λ h. ground arith), (λ h. cc))

-- Between snapshots whose maps hold each name once, no drift is reported exactly when the live
-- schema agrees with the baseline: the same tables, in each the same columns by name with their
-- types, nullability and defaults (none is the same as the empty one), the same definitions of
-- indexes and constraints by name, the same sequences (by name only when the baseline has version
-- 1), and enums of the same names whose labels joined by commas are the same text.
pub compare-clean :
    (base live : Snapshot)
    → IsSnapshot base
    → IsSnapshot live
    → ((compare base live).has_drift ≡ false) ↔ SnapshotsAgree base live
unfolding compare
compare-clean base live vb vl =
    iff_trans (has_any (all_entries base live)) (all_entries-eq-nil base live vb vl)
