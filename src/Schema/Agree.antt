-- ===== src/Schema/Agree.antt =====
-- When two snapshots agree, independently of the loops that compare them.
use devengine.Common.{◌≡◌, Bool, true, false, List, [], Text, MapsAgree, leb}
use devengine.Schema.{Sequence, Column, Index, Constraint, Table, Snapshot}
use devengine.Schema.Drift.{
  join, index_columns, index_indexes, index_constraints, index_sequences, default_text,
}

-- A column without a default has the empty one.
abbrev pub ColumnsAgree : Column → Column → Type 0
ColumnsAgree c d =
    (c.data_type ≡ d.data_type)
    × (c.is_nullable ≡ d.is_nullable)
    × (default_text c ≡ default_text d)

abbrev pub IndexesAgree : Index → Index → Type 0
IndexesAgree i j = i.definition ≡ j.definition

abbrev pub ConstraintsAgree : Constraint → Constraint → Type 0
ConstraintsAgree c d = c.definition ≡ d.definition

-- The same names, each with a column, an index and a constraint that agrees with the other's; of
-- several with one name the last counts.
abbrev pub TablesAgree : Table → Table → Type 0
TablesAgree s t =
    MapsAgree ColumnsAgree (index_columns s.columns []) (index_columns t.columns [])
    × MapsAgree IndexesAgree (index_indexes s.indexes []) (index_indexes t.indexes [])
    × MapsAgree ConstraintsAgree (index_constraints s.constraints [])
        (index_constraints t.constraints [])

-- Of a baseline of version 1 only the names of the sequences count.
abbrev pub SequencesAgree : Bool → Sequence → Sequence → Type 0
SequencesAgree true s t = s ≡ t
SequencesAgree false s t = Unit

-- Enums are compared by their labels with commas between.
abbrev pub LabelsAgree : List Text → List Text → Type 0
LabelsAgree ls ms = join ls ≡ join ms

abbrev pub SnapshotsAgree : Snapshot → Snapshot → Type 0
SnapshotsAgree base live =
    MapsAgree TablesAgree base.tables live.tables
    × MapsAgree (SequencesAgree (leb 2 base.snapshot_version)) (index_sequences base.sequences [])
        (index_sequences live.sequences [])
    × MapsAgree LabelsAgree base.enums live.enums
