-- ===== src/Schema/Diff.antt =====
-- schema/schema.go: `Diff`, `Report` and `compare`. A loop over a map appends in the order in
-- which the map's entries stand; the entries are sorted at the end.
use devengine.Common.{
  Bool, true, false, not, ◌&&◌, Option, none, some, List, [], ◌∷◌, ◌++◌, Text, str, text_eq, ltb,
  leb, ◌==◌, Map, lookup, range_map, length, if◌then◌else◌,
}
use devengine.Schema.{Sequence, Column, Index, Constraint, Table, Snapshot}
use devengine.Schema.Drift.{
  table_added, table_removed, column_added, column_removed, column_changed, index_added,
  index_removed, index_changed, constraint_added, constraint_removed, constraint_changed,
  sequence_added, sequence_removed, sequence_changed, enum_changed, kind_text, DriftEntry,
  DriftResult, entry, join, index_columns, index_indexes, index_constraints, index_sequences,
  column_differs, column_detail, definition_detail, enum_detail, sequence_detail, sequence_eq,
}

-- `if _, ok := m[name]; !ok { entries = append(entries, e) }`
abbrev pub unless_in {ℓ} : {V : Type ℓ} → Option V → DriftEntry → List DriftEntry
unless_in (some _) e = []
unless_in none e = e ∷ []

abbrev pub when : Bool → DriftEntry → List DriftEntry
when true e = e ∷ []
when false e = []

module _ (table : Text) where
  unfoldable pub kept_column : Map Column → Text → Column → List DriftEntry
  unfolding column_differs column_detail
  kept_column live_idx name col = elim (lookup name live_idx) [
    | none ↦ entry column_removed table name [] ∷ []
    | some live_col ↦
        when (column_differs col live_col)
          (entry column_changed table name (column_detail col live_col))
  ]

  unfoldable pub diff_columns : Table → Table → List DriftEntry
  unfolding kept_column index_columns
  diff_columns base live =
      let base_idx = index_columns base.columns [] in
      let live_idx = index_columns live.columns [] in
      range_map
        (λ name (col : Column).
          unless_in (lookup name base_idx) (entry column_added table name col.data_type))
        live_idx
      ++ range_map (kept_column live_idx) base_idx

  unfoldable pub kept_index : Map Index → Text → Index → List DriftEntry
  unfolding definition_detail
  kept_index live_idx name i = elim (lookup name live_idx) [
    | none ↦ entry index_removed table name [] ∷ []
    | some live_i ↦
        when (not (text_eq i.definition live_i.definition))
          (entry index_changed table name (definition_detail i.definition live_i.definition))
  ]

  unfoldable pub diff_indexes : Table → Table → List DriftEntry
  unfolding kept_index index_indexes
  diff_indexes base live =
      let base_idx = index_indexes base.indexes [] in
      let live_idx = index_indexes live.indexes [] in
      range_map
        (λ name (i : Index). unless_in (lookup name base_idx) (entry index_added table name []))
        live_idx
      ++ range_map (kept_index live_idx) base_idx

  unfoldable pub kept_constraint : Map Constraint → Text → Constraint → List DriftEntry
  unfolding definition_detail
  kept_constraint live_con name c = elim (lookup name live_con) [
    | none ↦ entry constraint_removed table name [] ∷ []
    | some live_c ↦
        when (not (text_eq c.definition live_c.definition))
          (entry constraint_changed table name (definition_detail c.definition live_c.definition))
  ]

  unfoldable pub diff_constraints : Table → Table → List DriftEntry
  unfolding kept_constraint index_constraints
  diff_constraints base live =
      let base_con = index_constraints base.constraints [] in
      let live_con = index_constraints live.constraints [] in
      range_map
        (λ name (c : Constraint).
          unless_in (lookup name base_con) (entry constraint_added table name []))
        live_con
      ++ range_map (kept_constraint live_con) base_con

unfoldable pub live_sequence : Bool → Map Sequence → Text → Sequence → List DriftEntry
unfolding sequence_eq sequence_detail
live_sequence compare_configuration base_map name sequence = elim (lookup name base_map) [
  | none ↦ entry sequence_added [] name [] ∷ []
  | some s ↦
      when (compare_configuration && not (sequence_eq s sequence))
        (entry sequence_changed [] name (sequence_detail s sequence))
]

unfoldable pub diff_sequences : List Sequence → List Sequence → Bool → List DriftEntry
unfolding live_sequence index_sequences
diff_sequences base live compare_configuration =
    let base_map = index_sequences base [] in
    let live_map = index_sequences live [] in
    range_map (live_sequence compare_configuration base_map) live_map
    ++ range_map
        (λ name (s : Sequence).
          unless_in (lookup name live_map) (entry sequence_removed [] name []))
        base_map

unfoldable pub live_enum : Map (List Text) → Text → List Text → List DriftEntry
unfolding join enum_detail
live_enum base name live_vals = elim (lookup name base) [
  | none ↦ entry enum_changed [] name (enum_detail [] live_vals) ∷ []
  | some base_vals ↦
      when (not (text_eq (join base_vals) (join live_vals)))
        (entry enum_changed [] name (enum_detail base_vals live_vals))
]

unfoldable pub diff_enums : Map (List Text) → Map (List Text) → List DriftEntry
unfolding live_enum
diff_enums base live =
    range_map (live_enum base) live
    ++ range_map
        (λ name (vals : List Text).
          unless_in (lookup name live) (entry enum_changed [] name (str "removed")))
        base

-- The body of the loop over the tables of `base`.
unfoldable pub kept_table : Map Table → Text → Table → List DriftEntry
unfolding diff_columns diff_indexes diff_constraints
kept_table live name t = elim (lookup name live) [
  | none ↦ entry table_removed name [] [] ∷ []
  | some live_t ↦
      diff_columns name t live_t ++ (diff_indexes name t live_t ++ diff_constraints name t live_t)
]

unfoldable pub all_entries : Snapshot → Snapshot → List DriftEntry
unfolding kept_table diff_sequences diff_enums
all_entries base live =
    range_map
      (λ name (t : Table). unless_in (lookup name base.tables) (entry table_added name [] []))
      live.tables
    ++ (range_map (kept_table live.tables) base.tables
        ++ (diff_sequences base.sequences live.sequences (leb 2 base.snapshot_version)
            ++ diff_enums base.enums live.enums))

-- Go's `<` on strings, byte by byte.
unfoldable pub text_less : Text → Text → Bool
text_less s [] = false
text_less [] (b ∷ t) = true
text_less (a ∷ s) (b ∷ t) = if a == b then text_less s t else ltb a b

-- `fmt.Sprintf("%s/%s/%s", …)`
unfoldable pub sort_key : DriftEntry → Text
unfolding kind_text
sort_key e = e.table ++ (str "/" ++ (kind_text e.kind ++ (str "/" ++ e.object)))

unfoldable pub insert_entry : DriftEntry → List DriftEntry → List DriftEntry
unfolding text_less sort_key
insert_entry e [] = e ∷ []
insert_entry e (f ∷ fs) =
    if text_less (sort_key e) (sort_key f) then e ∷ f ∷ fs else f ∷ insert_entry e fs

-- `sort.Slice` by the keys.
unfoldable pub sort_entries : List DriftEntry → List DriftEntry
unfolding insert_entry
sort_entries [] = []
sort_entries (e ∷ es) = insert_entry e (sort_entries es)

unfoldable pub compare : Snapshot → Snapshot → DriftResult
unfolding all_entries sort_entries
compare base live =
    let entries = all_entries base live in
    record { has_drift = ltb 0 (length entries); entries = sort_entries entries }

unfoldable pub diff : Snapshot → Snapshot → DriftResult
unfolding compare
diff baseline live = compare baseline live

unfoldable pub report : Snapshot → Snapshot → DriftResult
unfolding compare
report a b = compare a b
