-- ===== src/Migrate/Tests.antt =====
-- A run of two migrations on a schema that is the text of all scripts.
use devengine.Common.{
  ℕ, ◌≡◌, refl, ap, false, true, Option, none, some, List, [], ◌∷◌, ◌++◌, Memᴰ, Text, str, text_eq,
  All, Result, ok,
}
use devengine.Migrate.Files.{match_migration}
use devengine.Migrate.Load.{Entry, Source, Migration, load_sources}
use devengine.Migrate.Apply.{
  Db, Faults, committed, rows_of, find_version, apply_all, applied_row, MigrateError, status_of,
}
use devengine.Migrate.Loaded.{InRange}
use devengine.Migrate.Ordered.{Ascending, load_sources-Ascending}
use devengine.Migrate.Applied.{IsApplied}
use devengine.Migrate.Rerun.{apply_all-IsApplied, apply_all_again}

abbrev sum_of : Text → Text
sum_of t = str "sum:" ++ t

abbrev file : Text → Text → Entry
file name body = record { name = name; is_dir = false; body = ok body }

abbrev app_source : Source
app_source = record {
  kind = str "app";
  read_dir = some (λ _. ok (
      file (str "1002_b.up.sql") (str "B")
      ∷ file (str "notes.txt") []
      ∷ file (str "1001_a.up.sql") (str "A")
      ∷ []));
  dir = [];
}

abbrev migration : ℕ → Text → Text → Migration
migration version name sql = record {
  version = version;
  name = name;
  sql = sql;
  checksum = sum_of sql;
  source = str "app";
}

abbrev two_migrations : List Migration
two_migrations = migration 1001 (str "a") (str "A") ∷ migration 1002 (str "b") (str "B") ∷ []

loads : load_sources sum_of (app_source ∷ []) ≡ ok two_migrations
unfolding load_sources text_eq
loads = refl

too_low : match_migration (str "1001_a.down.sql") ≡ none
unfolding match_migration text_eq
too_low = refl

load_sources-Ascending_example :
    Ascending two_migrations × ((m : Migration) → Memᴰ m two_migrations → InRange m)
load_sources-Ascending_example =
    load_sources-Ascending sum_of (app_source ∷ []) two_migrations loads

abbrev quiet : ℕ → Faults
quiet i = record { inspect = none; begin = none; record_row = none; commit = committed; now = 5 }

abbrev append_script : Text → Text → Result Text Text
append_script sql schema = ok (schema ++ sql)

abbrev empty_db : Db Text
empty_db = record { metadata = none; schema = [] }

abbrev full_db : Db Text
full_db = record {
  metadata = some (
      applied_row 5 (migration 1001 (str "a") (str "A"))
      ∷ applied_row 5 (migration 1002 (str "b") (str "B"))
      ∷ []);
  schema = str "AB";
}

runs : apply_all append_script quiet 0 two_migrations empty_db ≡ (full_db, none)
unfolding apply_all text_eq
runs = refl

apply_all-IsApplied_example :
    All
      (IsApplied (rows_of (apply_all append_script quiet 0 two_migrations empty_db).0.metadata))
      two_migrations
apply_all-IsApplied_example =
    apply_all-IsApplied append_script quiet 0 two_migrations empty_db
      (ap (λ (x : Db Text × Option MigrateError). x.1) runs)

both-IsApplied : All (IsApplied (rows_of full_db.metadata)) two_migrations
unfolding find_version
both-IsApplied = (
  (applied_row 5 (migration 1001 (str "a") (str "A")), refl, refl),
  ((applied_row 5 (migration 1002 (str "b") (str "B")), refl, refl), tt),
)

apply_all_again_example : apply_all append_script quiet 0 two_migrations full_db ≡ (full_db, none)
apply_all_again_example =
    apply_all_again append_script quiet 0 two_migrations full_db (λ k. refl) both-IsApplied

-- The file of version 1001 has changed since it was applied.
drifts : (status_of (rows_of full_db.metadata) (migration 1001 (str "a") (str "C"))).drift ≡ true
unfolding status_of text_eq
drifts = refl
