-- ===== src/Migrate/Rerun.antt =====
-- What a run of all migrations leaves, what another run does, and how this agrees with the status.
use devengine.Common.{
  ℕ, suc, ◌≡◌, ◌≢◌, ◌↔◌, refl, sym, ap, ◌∙◌, Bool, true, false, not, Option, none, some, List, [],
  ◌∷◌, Text, text_eq_iff, arith, Result, inl, inr, Option-cases, All, none-some, some_eq,
}
use devengine.Migrate.Load.{Migration}
use devengine.Migrate.Apply.{
  Applied, Db, rows_of, find_version, Faults, MigrateError, apply_one, apply_all, status_of,
}
use devengine.Migrate.Applied.{IsApplied, Grows, Advances, apply_one-Advances}

module _ {ℓ} {S : Type ℓ} (execute : Text → S → Result Text S) where
  later-IsApplied :
      (rows rows' : List Applied) (m : Migration)
      → Grows rows rows'
      → IsApplied rows m
      → IsApplied rows' m
  later-IsApplied rows rows' m g (r, p, q) = (r, g m.version r p, q)

  abbrev AllAdvance : List Migration → Db S → Db S × Option MigrateError → Type 0
  AllAdvance ms db out =
      Grows (rows_of db.metadata) (rows_of out.0.metadata)
      × (out.1 ≡ none → All (IsApplied (rows_of out.0.metadata)) ms)

  apply_all-Advance :
      (faults : ℕ → Faults) (i : ℕ) (ms : List Migration) (db : Db S)
      → AllAdvance ms db (apply_all execute faults i ms db)
  unfolding apply_all
  apply_all-Advance faults i [] db = ((λ v r p. p), (λ z. tt))
  apply_all-Advance faults i (m ∷ ms) db =
      by_result (apply_one execute (faults i) m db) (apply_one-Advances execute (faults i) m db)
        (λ next. apply_all-Advance faults (suc i) ms next)
    where
      by_result :
          (out : Db S × Option MigrateError)
          → Advances execute m db out
          → ((next : Db S) → AllAdvance ms next (apply_all execute faults (suc i) ms next))
          → AllAdvance (m ∷ ms) db (elim out.1 [
            | some e ↦ (out.0, some e)
            | none ↦ apply_all execute faults (suc i) ms out.0
          ])
      by_result (next, some e) (g, a) rest = (g, (λ z. absurd (none-some (sym z))))
      by_result (next, none) (g, a) rest =
          let (h, b) = rest next in
          ((λ v r p. h v r (g v r p)), (λ z. (later-IsApplied _ _ m h (a refl), b z)))

  -- After a run without an error every migration is recorded with the checksum of its file,
  -- whatever was recorded before and in whatever order the migrations came.
  pub apply_all-IsApplied :
      (faults : ℕ → Faults) (i : ℕ) (ms : List Migration) (db : Db S)
      → (apply_all execute faults i ms db).1 ≡ none
      → All (IsApplied (rows_of (apply_all execute faults i ms db).0.metadata)) ms
  apply_all-IsApplied faults i ms db h = (apply_all-Advance faults i ms db).1 h

  applied_once :
      (f : Faults) (m : Migration) (db : Db S)
      → f.inspect ≡ none
      → IsApplied (rows_of db.metadata) m
      → apply_one execute f m db ≡ (db, none)
  unfolding apply_one
  applied_once f m db h (r, p, q) =
      rw (h, p, (text_eq_iff r.checksum m.checksum).1 q, apply_one) refl

  -- Running the migrations again, when all are recorded with their checksums and no inspection
  -- fails, changes nothing.
  pub apply_all_again :
      (faults : ℕ → Faults) (i : ℕ) (ms : List Migration) (db : Db S)
      → ((k : ℕ) → (faults k).inspect ≡ none)
      → All (IsApplied (rows_of db.metadata)) ms
      → apply_all execute faults i ms db ≡ (db, none)
  unfolding apply_all
  apply_all_again faults i [] db quiet a = refl
  apply_all_again faults i (m ∷ ms) db quiet a =
      ap
        (λ out. elim out.1 [
          | some e ↦ (out.0, some e)
          | none ↦ apply_all execute faults (suc i) ms out.0
        ])
        (applied_once (faults i) m db (quiet i) a.0)
      ∙ apply_all_again faults (suc i) ms db quiet a.1

unnegate : (b : Bool) → not b ≡ false → b ≡ true
unnegate b h = ground arith

negate : (b : Bool) → b ≡ true → not b ≡ false
negate b h = ground arith

-- A status shows a migration as applied and without drift exactly when it is recorded with the
-- checksum of its file.
pub status_of-IsApplied :
    (rows : List Applied) (m : Migration)
    → (((status_of rows m).applied_at ≢ none) × ((status_of rows m).drift ≡ false))
      ↔ IsApplied rows m
unfolding status_of
status_of-IsApplied rows m = elim (Option-cases (find_version m.version rows)) [
  | inl p ↦ rw (p, status_of) ((λ (n, d). absurd (n refl)), (λ (r, q, s). absurd (none-some q)))
  | inr (r, p) ↦
      rw (p, status_of)
        (
          (λ (n, d). (r, refl, (text_eq_iff r.checksum m.checksum).0 (unnegate _ d))),
          (λ (x, q, s). (
            (λ z. none-some (sym z)),
            negate _ (
                (text_eq_iff r.checksum m.checksum).1
                  (ap (λ (y : Applied). y.checksum) (some_eq q) ∙ s)),
          )),
        )
]
