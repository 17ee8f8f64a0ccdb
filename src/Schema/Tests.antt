-- ===== src/Schema/Tests.antt =====
-- Snapshots of a small database, and their comparison.
use devengine.Common.{
  ◌≡◌, ◌↔◌, refl, true, false, none, [], ◌∷◌, str, lookup, insert, range_map, text_eq, ok,
}
use devengine.Schema.{Sequence, Column, Index, Constraint, Table, Snapshot, ignore_table}
use devengine.Schema.Capture.{end, scanned, unscanned, Catalog, capture}
use devengine.Schema.Captured.{Holds, capture-Holds}
use devengine.Schema.Failed.{Reported, first_failure, capture-Reported}
use devengine.Schema.Unmarshal.{named_sequence}
use devengine.Schema.Drift.{entry, table_added, sequence_changed}
use devengine.Schema.Diff.{compare, diff_sequences, diff_enums}
use devengine.Schema.Agree.{SnapshotsAgree}
use devengine.Schema.Clean.{IsSnapshot, compare-clean}

abbrev id_column : Column
id_column = record {
  name = str "id";
  data_type = str "uuid";
  is_nullable = false;
  default = none;
  position = 1;
}

abbrev primary_key : Index
primary_key = record {
  name = str "users_pkey";
  unique = true;
  primary = true;
  columns = str "id" ∷ [];
  definition = str "CREATE UNIQUE INDEX";
}

abbrev key_constraint : Constraint
key_constraint = record {
  name = str "users_pkey";
  kind = str "p";
  definition = str "PRIMARY KEY (id)";
}

abbrev counter : Sequence
counter = record {
  name = str "ids";
  data_type = str "bigint";
  start = str "1";
  min_value = str "1";
  max_value = str "9";
  increment = str "1";
  cycle = false;
  cache = str "1";
}

abbrev catalog : Catalog
catalog = record {
  columns =
      scanned (str "users", id_column)
        (scanned (str "_devengine_migrations", id_column) (end none));
  indexes = scanned (str "users", primary_key) (end none);
  constraints = scanned (str "users", key_constraint) (end none);
  labels = scanned (str "mood", str "ok") (scanned (str "mood", str "sad") (end none));
  sequences = scanned counter (end none);
}

abbrev users : Table
users = record {
  name = str "users";
  columns = id_column ∷ [];
  indexes = primary_key ∷ [];
  constraints = key_constraint ∷ [];
}

abbrev snapshot : Snapshot
snapshot = record {
  snapshot_version = 2;
  captured_at = 7;
  tables = (str "users", users) ∷ [];
  enums = (str "mood", str "ok" ∷ str "sad" ∷ []) ∷ [];
  sequences = counter ∷ [];
}

captured : capture 7 catalog ≡ ok snapshot
unfolding capture lookup insert text_eq ignore_table
captured = refl

capture-Holds_example : Holds 7 catalog snapshot
capture-Holds_example = capture-Holds 7 catalog snapshot captured

abbrev broken : Catalog
broken = record catalog {
  labels = scanned (str "mood", str "ok") (unscanned (str "gone") (end none));
}

capture-Reported_example : Reported (capture 7 broken) (first_failure broken)
capture-Reported_example = capture-Reported 7 broken

abbrev drifted : Snapshot
drifted = record snapshot {
  tables = (str "orders", users) ∷ (str "users", users) ∷ [];
  sequences = record counter { max_value = str "99" } ∷ [];
}

drifted-entries :
    (compare snapshot drifted).entries
    ≡ entry sequence_changed [] (str "ids") (
        str
          "base={Name:ids DataType:bigint Start:1 MinValue:1 MaxValue:9 Increment:1 Cycle:false Cache:1} live={Name:ids DataType:bigint Start:1 MinValue:1 MaxValue:99 Increment:1 Cycle:false Cache:1}")
      ∷ entry table_added (str "orders") [] []
      ∷ []
unfolding compare lookup insert text_eq range_map
drifted-entries = refl

snapshot-IsSnapshot : IsSnapshot snapshot
unfolding lookup
snapshot-IsSnapshot = record { tables = (refl, tt); enums = (refl, tt) }

drifted-IsSnapshot : IsSnapshot drifted
unfolding lookup text_eq
drifted-IsSnapshot = record { tables = (refl, (refl, tt)); enums = (refl, tt) }

compare-clean_example :
    ((compare snapshot drifted).has_drift ≡ false) ↔ SnapshotsAgree snapshot drifted
compare-clean_example = compare-clean snapshot drifted snapshot-IsSnapshot drifted-IsSnapshot

-- A baseline of version 1 knows the names of the sequences only.
legacy_baseline : diff_sequences (named_sequence (str "ids") ∷ []) (counter ∷ []) false ≡ []
unfolding diff_sequences lookup insert text_eq range_map
legacy_baseline = refl

-- One label "a,b" and two labels "a" and "b" look the same.
comma_label :
    diff_enums ((str "mood", str "a,b" ∷ []) ∷ []) ((str "mood", str "a" ∷ str "b" ∷ []) ∷ []) ≡ []
unfolding diff_enums lookup text_eq range_map
comma_label = refl
