-- ===== src/Migrate/Apply.antt =====
-- `Apply`, `applyOne` and `Status` of migrate/migrate.go, over a schema of any kind.
use devengine.Common.{
  ℕ, suc, Bool, false, not, Option, none, some, List, [], ◌∷◌, ◌++◌, map, Text, text_eq, ◌==◌,
  if◌then◌else◌, Result, ok, err,
}
use devengine.Migrate.Load.{Source, Migration, LoadError, load_sources}

-- A row of the metadata table.
pub record Applied : Type 0 where
  pub version : ℕ
  pub source : Text
  pub name : Text
  pub checksum : Text
  pub applied_at : ℕ

-- The database: the metadata table, if it exists, and everything else.
pub record Db {ℓ} (S : Type ℓ) : Type ℓ where
  pub metadata : Option (List Applied)
  pub schema : S

abbrev pub rows_of : Option (List Applied) → List Applied
rows_of none = []
rows_of (some rows) = rows

-- `SELECT … WHERE version = $1`
unfoldable pub find_version : ℕ → List Applied → Option Applied
find_version v [] = none
find_version v (r ∷ rows) = if r.version == v then some r else find_version v rows

pub data Commit : Type 0 where
  committed : Commit
  refused lost : Text → Commit

-- What the statements around one migration return.
pub record Faults : Type 0 where
  pub inspect : Option Text
  pub begin : Option Text
  pub record_row : Option Text
  pub commit : Commit
  pub now : ℕ

pub data MigrateError : Type 0 where
  nil_pool : MigrateError
  acquire_failed lock_failed create_failed query_failed : Text → MigrateError
  load_failed : LoadError → MigrateError
  checksum_changed : ℕ → Text → Text → MigrateError
  inspect_failed begin_failed apply_failed record_failed commit_failed : ℕ → Text → MigrateError

-- The row that is inserted for a migration.
abbrev pub applied_row : ℕ → Migration → Applied
applied_row now m = record {
  version = m.version;
  source = m.source;
  name = m.name;
  checksum = m.checksum;
  applied_at = now;
}

-- `execute` is what the server makes of a script.
module _ {ℓ} {S : Type ℓ} (execute : Text → S → Result Text S) where
  abbrev pub with_row : ℕ → Migration → S → Db S → Db S
  with_row now m schema db = record {
    metadata = some (rows_of db.metadata ++ applied_row now m ∷ []);
    schema = schema;
  }

  abbrev pub end_commit : ℕ → Commit → Db S → Db S → Db S × Option MigrateError
  end_commit v committed old new = (new, none)
  end_commit v (refused e) old new = (old, some (commit_failed v e))
  end_commit v (lost e) old new = (new, some (commit_failed v e))

  -- The transaction of a migration that is not applied.
  unfoldable pub run_migration : Faults → Migration → Db S → Db S × Option MigrateError
  run_migration f m db = elim f.begin [
    | some e ↦ (db, some (begin_failed m.version e))
    | none ↦ elim (execute m.sql db.schema) [
      | err e ↦ (db, some (apply_failed m.version e))
      | ok schema ↦ elim f.record_row [
        | some e ↦ (db, some (record_failed m.version e))
        | none ↦ end_commit m.version f.commit db (with_row f.now m schema db)
      ]
    ]
  ]

  unfoldable pub apply_one : Faults → Migration → Db S → Db S × Option MigrateError
  unfolding run_migration find_version
  apply_one f m db = elim f.inspect [
    | some e ↦ (db, some (inspect_failed m.version e))
    | none ↦ elim (find_version m.version (rows_of db.metadata)) [
      | none ↦ run_migration f m db
      | some r ↦
          if text_eq r.checksum m.checksum
          then (db, none)
          else (db, some (checksum_changed m.version r.checksum m.checksum))
    ]
  ]

  -- The loop of `Apply`.
  unfoldable pub apply_all : (ℕ → Faults) → ℕ → List Migration → Db S → Db S × Option MigrateError
  unfolding apply_one
  apply_all faults i [] db = (db, none)
  apply_all faults i (m ∷ ms) db =
      let (next, result) = apply_one (faults i) m db in
      elim result [ some e ↦ (next, some e) | none ↦ apply_all faults (suc i) ms next ]

  -- `ready` is the error of the pool, of acquiring a connection or of the advisory lock; `create`
  -- that of `CREATE TABLE IF NOT EXISTS`. `checksum` is the hexadecimal SHA-256.
  unfoldable pub apply :
      (Text → Text)
      → Option MigrateError
      → Option Text
      → (ℕ → Faults)
      → List Source
      → Db S
      → Db S × Option MigrateError
  unfolding apply_all load_sources
  apply checksum (some e) create faults sources db = (db, some e)
  apply checksum none (some e) faults sources db = (db, some (create_failed e))
  apply checksum none none faults sources db =
      let created = record db { metadata = some (rows_of db.metadata) } in
      elim (load_sources checksum sources) [
        | err e ↦ (created, some (load_failed e))
        | ok ms ↦ apply_all faults 0 ms created
      ]

pub record MigrationStatus : Type 0 where
  pub version : ℕ
  pub name : Text
  pub source : Text
  pub checksum : Text
  pub applied_at : Option ℕ
  pub drift : Bool

-- `pool` says that the pool is not nil; `fault` is the error of the query or of reading its rows,
-- other than that the table does not exist.
unfoldable pub status_of : List Applied → Migration → MigrationStatus
unfolding find_version
status_of rows m = record {
  version = m.version;
  name = m.name;
  source = m.source;
  checksum = m.checksum;
  applied_at = elim (find_version m.version rows) [ none ↦ none | some r ↦ some r.applied_at ];
  drift = elim (find_version m.version rows) [
    | none ↦ false
    | some r ↦ not (text_eq r.checksum m.checksum)
  ];
}

unfoldable pub status {ℓ} :
    {S : Type ℓ}
    → (Text → Text)
    → Bool
    → Option Text
    → List Source
    → Db S
    → Result MigrateError (List MigrationStatus)
unfolding load_sources status_of
status checksum pool fault sources db =
    if pool
    then elim (load_sources checksum sources) [
      | err e ↦ err (load_failed e)
      | ok ms ↦ elim db.metadata [
        | none ↦ ok (map (status_of []) ms)
        | some rows ↦ elim fault [
          | some e ↦ err (query_failed e)
          | none ↦ ok (map (status_of rows) ms)
        ]
      ]
    ]
    else err nil_pool
