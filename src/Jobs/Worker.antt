-- ===== src/Jobs/Worker.antt =====
-- The worker of jobs/worker.go: one poll claims a batch, calls the handlers, and records how each
-- job ended.
pub mod Recorded
pub mod Outcome
use devengine.Common.{
  ℕ, suc, ◌+◌, ◌*◌, ◌/◌, ◌-◌, ltb, Bool, Option, none, some, List, [], ◌∷◌, Text, leb, ◌==◌,
  if◌then◌else◌, returned, panicked,
}
use devengine.Retry.Backoff.{backoff, int64_half, int64_mod}
use devengine.Retry.Truncate.{truncate_utf8}
use devengine.Jobs.Table.{Table, JobRow, claim, delete_owned, fail_owned, retry_owned}
use devengine.Jobs.Config.{WorkerConfig, batch_size, initial_backoff, lease_duration}
use devengine.Jobs.Registry.{Registry, Value, handler_for}

-- The errors of a delivery; `handler_error` and `handler_panic` hold the text of what the handler
-- returned or threw.
pub data ProcessError : Type 0 where
  no_handler handler_error handler_panic : Text → ProcessError

-- `callHandler`, with its recover.
unfoldable pub call_handler : Value → Text → Option ProcessError
call_handler v payload = elim (v.handle payload) [
  | returned e ↦ elim e [ none ↦ none | some t ↦ some (handler_error t) ]
  | panicked t ↦ some (handler_panic t)
]

unfoldable pub process : Registry → JobRow → Option ProcessError
unfolding call_handler handler_for
process registry j = elim (handler_for registry j.name) [
  | none ↦ some (no_handler j.name)
  | some v ↦ call_handler v j.payload
]

-- The "status" with which a job is counted; `not_recorded` is the logged error of the statement.
pub data Status : Type 0 where
  processed failed retried claim_lost not_recorded : Status

-- A statement's answer: `fault` when it is an error, of which the server has carried out the
-- statement or not.
pub data Answer : Type 0 where
  answered refused lost : Answer

-- The table and the status after a statement that affects `n` rows.
abbrev pub settle : Answer → Status → Table → Table × ℕ → Table × Status
settle answered status old (new, n) = (new, if n == 1 then status else claim_lost)
settle refused status old (new, n) = (old, not_recorded)
settle lost status old (new, n) = (new, not_recorded)

-- What happens around one job of a batch: what other sessions and the renewals did to the table
-- while its handler ran, the time of the outcome's statement, and its answer.
pub record Turn : Type 0 where
  pub meanwhile : Table → Table
  pub now : ℕ
  pub answer : Answer

-- `NOW() + '<n> milliseconds'` for a delay in nanoseconds, which is negative from 2 ^ 63 on.
abbrev pub after_delay : ℕ → ℕ → ℕ
after_delay now delay =
    if ltb delay int64_half
    then now + delay / 1_000_000 * 1_000
    else now - (int64_mod - delay) / 1_000_000 * 1_000

module _ (message : ProcessError → Text) (draw : ℕ → ℕ) (c : WorkerConfig) where
  -- The part of `processBatch` behind a delivery. `none` is a panic of `backoff`.
  unfoldable pub record_failure :
      ℕ → Answer → JobRow → ProcessError → Table → Option (Table × Status)
  unfolding backoff truncate_utf8 fail_owned retry_owned initial_backoff
  record_failure now answer j e rows =
      let attempt = suc j.attempt in
      let text = truncate_utf8 (message e) 1024 in
      if leb j.max_attempts attempt
      then some (settle answer failed rows (fail_owned attempt text j rows))
      else elim (backoff draw (initial_backoff c) attempt) [
        | none ↦ none
        | some delay ↦
            some
              (settle answer retried rows (retry_owned attempt (after_delay now delay) text j rows))
      ]

  unfoldable pub record_outcome :
      ℕ → Answer → JobRow → Option ProcessError → Table → Option (Table × Status)
  unfolding record_failure delete_owned
  record_outcome now answer j none rows = some (settle answer processed rows (delete_owned j rows))
  record_outcome now answer j (some e) rows = record_failure now answer j e rows

  unfoldable pub process_jobs :
      (ℕ → Turn) → ℕ → Registry → List JobRow → Table → Option (Table × List Status)
  unfolding record_outcome process
  process_jobs turns i registry [] rows = some (rows, [])
  process_jobs turns i registry (j ∷ jobs) rows =
      let turn = turns i in
      elim (record_outcome turn.now turn.answer j (process registry j) (turn.meanwhile rows)) [
        | none ↦ none
        | some (next, status) ↦ elim (process_jobs turns (suc i) registry jobs next) [
          | none ↦ none
          | some (last, statuses) ↦ some (last, status ∷ statuses)
        ]
      ]

  -- How the claim's statement ends: it fails, its rows do not all arrive, or it answers.
  unfoldable pub process_batch :
      (ℕ → ℕ)
      → ℕ
      → Answer
      → Text
      → (Text → Bool)
      → (ℕ → Turn)
      → Registry
      → Table
      → Option (Table × List Status)
  unfolding process_jobs claim batch_size lease_duration
  process_batch interval now answer prefix busy turns registry rows =
      let (leased, jobs) =
        claim (batch_size c) now (interval (lease_duration c)) prefix busy rows in
      elim answer [
        | refused ↦ some (rows, [])
        | lost ↦ some (leased, [])
        | answered ↦ process_jobs turns 0 registry jobs leased
      ]
