-- ===== src/Jobs/Worker/Recorded.antt =====
-- What recording an outcome makes of the table, on every branch.
use devengine.Common.{
  some_eq, none-some, leb_false→lt, ℕ, suc, ◌≤◌, ◌<◌, ◌≡◌, ◌≢◌, ◌⊎◌, refl, sym, ap, Option, none,
  some, Text, Bool-cases, Option-cases, inl, inr, leb, leb→le,
}
use devengine.Retry.Backoff.{backoff}
use devengine.Retry.Truncate.{truncate_utf8}
use devengine.Jobs.Table.{Table, JobRow, delete_owned, fail_owned, retry_owned}
use devengine.Jobs.Config.{WorkerConfig, initial_backoff}
use devengine.Jobs.Worker.{
  ProcessError, Status, processed, failed, retried, Answer, answered, refused, lost, settle,
  after_delay, record_failure, record_outcome,
}

pub data Recorded (j : JobRow) (e : Option ProcessError) (rows t : Table) : Type 0 where
  unchanged : t ≡ rows → Recorded j e rows t
  deleted : e ≡ none → t ≡ (delete_owned j rows).0 → Recorded j e rows t
  failed_for_good :
      (text : Text)
      → e ≢ none
      → j.max_attempts ≤ suc j.attempt
      → t ≡ (fail_owned (suc j.attempt) text j rows).0
      → Recorded j e rows t
  put_back :
      (run_at : ℕ) (text : Text)
      → e ≢ none
      → suc j.attempt < j.max_attempts
      → t ≡ (retry_owned (suc j.attempt) run_at text j rows).0
      → Recorded j e rows t

settle-cases :
    (answer : Answer) (status : Status) (rows t : Table) (new : Table × ℕ) (st : Status)
    → settle answer status rows new ≡ (t, st)
    → (t ≡ rows) ⊎ (t ≡ new.0)
settle-cases answered status rows t (new, n) st e = inr (sym (ap (λ (x : Table × Status). x.0) e))
settle-cases refused status rows t (new, n) st e = inl (sym (ap (λ (x : Table × Status). x.0) e))
settle-cases lost status rows t (new, n) st e = inr (sym (ap (λ (x : Table × Status). x.0) e))

module _ (message : ProcessError → Text) (draw : ℕ → ℕ) (c : WorkerConfig) (now : ℕ)
    (answer : Answer) (j : JobRow) (rows t : Table) (st : Status) where
  failure-Recorded :
      (e : ProcessError)
      → record_failure message draw c now answer j e rows ≡ some (t, st)
      → Recorded j (some e) rows t
  unfolding record_failure
  failure-Recorded e h = elim (Bool-cases (leb j.max_attempts (suc j.attempt))) [
    | inl over ↦
        elim (settle-cases answer failed rows t (fail_owned (suc j.attempt) text j rows) st
          (some_eq (rw over at h))) [
            | inl same ↦ Recorded.unchanged same
            | inr new ↦ Recorded.failed_for_good text (λ q. cc) (leb→le _ _ over) new
          ]
    | inr under ↦ elim (Option-cases (backoff draw (initial_backoff c) (suc j.attempt))) [
      | inl panic ↦ absurd (none-some (rw (under, panic) at h))
      | inr (d, waits) ↦
          elim (settle-cases answer retried rows t
            (retry_owned (suc j.attempt) (after_delay now d) text j rows) st
            (some_eq (rw (under, waits) at h))) [
              | inl same ↦ Recorded.unchanged same
              | inr new ↦
                  Recorded.put_back (after_delay now d) text (λ q. cc) (leb_false→lt _ _ under) new
            ]
    ]
  ]
    where
      text : Text
      text = truncate_utf8 (message e) 1024

  pub outcome-Recorded :
      (e : Option ProcessError)
      → record_outcome message draw c now answer j e rows ≡ some (t, st)
      → Recorded j e rows t
  unfolding record_outcome
  outcome-Recorded none h =
      elim (settle-cases answer processed rows t (delete_owned j rows) st (some_eq h)) [
        | inl same ↦ Recorded.unchanged same
        | inr new ↦ Recorded.deleted refl new
      ]
  outcome-Recorded (some e) h = failure-Recorded e h
