-- ===== src/Migrate/Applied.antt =====
-- What one migration leaves in the metadata table.
use devengine.Common.{
  ℕ, ◌≡◌, refl, sym, Option, none, some, List, [], ◌∷◌, ◌++◌, Text, text_eq, text_eq_iff, ◌==◌,
  arith, Result, ok, err, inl, inr, Bool-cases, Option-cases, none-some,
}
use devengine.Migrate.Load.{Migration}
use devengine.Migrate.Apply.{
  Applied, Db, rows_of, find_version, Commit, committed, refused, lost, Faults, MigrateError,
  applied_row, with_row, end_commit, run_migration, apply_one,
}

-- The migration is recorded, with the checksum of its file.
abbrev pub IsApplied : List Applied → Migration → Type 0
IsApplied rows m =
    (r : Applied) × (find_version m.version rows ≡ some r) × (r.checksum ≡ m.checksum)

find_version-append :
    (v : ℕ) (rows more : List Applied) (r : Applied)
    → find_version v rows ≡ some r
    → find_version v (rows ++ more) ≡ some r
unfolding find_version
find_version-append v [] more r h = absurd (none-some h)
find_version-append v (x ∷ rows) more r h = elim (Bool-cases (x.version == v)) [
  | inl e ↦ rw (e, find_version) (rw (e, find_version) at h)
  | inr e ↦ rw (e, find_version) (find_version-append v rows more r (rw (e, find_version) at h))
]

find_version-last :
    (v : ℕ) (rows : List Applied) (r : Applied)
    → find_version v rows ≡ none
    → r.version ≡ v
    → find_version v (rows ++ r ∷ []) ≡ some r
unfolding find_version
find_version-last v [] r h e = ground arith
find_version-last v (x ∷ rows) r h e = elim (Bool-cases (x.version == v)) [
  | inl p ↦ absurd (none-some (sym (rw (p, find_version) at h)))
  | inr p ↦ rw (p, find_version) (find_version-last v rows r (rw (p, find_version) at h) e)
]

-- Every version that is found stays as it is.
abbrev pub Grows : List Applied → List Applied → Type 0
Grows rows rows' =
    (v : ℕ) (r : Applied) → find_version v rows ≡ some r → find_version v rows' ≡ some r

module _ {ℓ} {S : Type ℓ} (execute : Text → S → Result Text S) where
  -- What the transaction of a migration leaves.
  data Ran (m : Migration) (db : Db S) : Db S × Option MigrateError → Type ℓ where
    kept : (e : MigrateError) → Ran m db (db, some e)
    added :
        (now : ℕ) (schema : S) (o : Option MigrateError)
        → execute m.sql db.schema ≡ ok schema
        → Ran m db (with_row execute now m schema db, o)

  run_migration-Ran :
      (f : Faults) (m : Migration) (db : Db S) → Ran m db (run_migration execute f m db)
  unfolding run_migration
  run_migration-Ran f m db = elim (Option-cases f.begin) [
    | inr (e, p) ↦ rw (p, run_migration) (Ran.kept _)
    | inl p ↦ rw (p, run_migration) (by_result (execute m.sql db.schema) refl)
  ]
    where
      by_commit :
          (schema : S) (k : Commit)
          → execute m.sql db.schema ≡ ok schema
          → Ran m db (end_commit execute m.version k db (with_row execute f.now m schema db))
      by_commit schema committed q = Ran.added f.now schema none q
      by_commit schema (refused e) q = Ran.kept _
      by_commit schema (lost e) q = Ran.added f.now schema _ q

      by_row :
          (schema : S) (o : Option Text)
          → execute m.sql db.schema ≡ ok schema
          → Ran m db (elim o [
            | some e ↦ (db, some (MigrateError.record_failed m.version e))
            | none ↦ end_commit execute m.version f.commit db (with_row execute f.now m schema db)
          ])
      by_row schema none q = by_commit schema f.commit q
      by_row schema (some e) q = Ran.kept _

      by_result :
          (r : Result Text S)
          → execute m.sql db.schema ≡ r
          → Ran m db (elim r [
            | err e ↦ (db, some (MigrateError.apply_failed m.version e))
            | ok schema ↦ elim f.record_row [
              | some e ↦ (db, some (MigrateError.record_failed m.version e))
              | none ↦ end_commit execute m.version f.commit db (with_row execute f.now m schema db)
            ]
          ])
      by_result (err e) q = Ran.kept _
      by_result (ok schema) q = by_row schema f.record_row q

  -- One migration: what was found stays, and a success means that it is applied.
  abbrev pub Advances : Migration → Db S → Db S × Option MigrateError → Type 0
  Advances m db out =
      Grows (rows_of db.metadata) (rows_of out.0.metadata)
      × (out.1 ≡ none → IsApplied (rows_of out.0.metadata) m)

  Ran-Advances :
      (m : Migration) (db : Db S) (out : Db S × Option MigrateError)
      → find_version m.version (rows_of db.metadata) ≡ none
      → Ran m db out
      → Advances m db out
  Ran-Advances m db out h (Ran.kept e) = ((λ v r p. p), (λ z. absurd (none-some (sym z))))
  Ran-Advances m db out h (Ran.added now schema o q) = (
    (λ v r p. find_version-append v (rows_of db.metadata) (applied_row now m ∷ []) r p),
    (λ z. (
      applied_row now m,
      find_version-last m.version (rows_of db.metadata) (applied_row now m) h refl,
      refl,
    )),
  )

  pub apply_one-Advances :
      (f : Faults) (m : Migration) (db : Db S) → Advances m db (apply_one execute f m db)
  unfolding apply_one
  apply_one-Advances f m db = elim (Option-cases f.inspect) [
    | inr (e, p) ↦ rw (p, apply_one) ((λ v r q. q), (λ z. absurd (none-some (sym z))))
    | inl p ↦ elim (Option-cases (find_version m.version (rows_of db.metadata))) [
      | inl q ↦ rw (p, q, apply_one) (Ran-Advances m db _ q (run_migration-Ran f m db))
      | inr (r, q) ↦ elim (Bool-cases (text_eq r.checksum m.checksum)) [
        | inl s ↦
            rw (p, q, s, apply_one)
              ((λ v x z. z), (λ z. (r, q, (text_eq_iff r.checksum m.checksum).0 s)))
        | inr s ↦ rw (p, q, s, apply_one) ((λ v x z. z), (λ z. absurd (none-some (sym z))))
      ]
    ]
  ]
