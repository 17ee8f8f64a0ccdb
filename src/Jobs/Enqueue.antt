-- ===== src/Jobs/Enqueue.antt =====
-- `Enqueue` of jobs/jobs.go.
pub mod Laws
use devengine.Common.{
  ℕ, ◌++◌, [], ◌∷◌, Option, none, some, Text, text_eq, if◌then◌else◌, any, Result, ok, err, ◌>>=◌,
  ℤ, positive_or,
}
use devengine.Jobs.Table.{Row, Table, has_id}

pub record Job {ℓ} (Payload : Type ℓ) : Type ℓ where
  pub id : Text
  pub name : Text
  pub payload : Payload
  pub run_at : Option ℕ  -- `none` is the zero time
  pub max_attempts : ℤ

pub data EnqueueError : Type 0 where
  name_required duplicate_id : EnqueueError
  marshal_failed exec_failed : Text → EnqueueError

-- `INSERT INTO devengine_jobs`, whose primary key is `id`. `refusal` is any other error with
-- which the driver or the server answers.
unfoldable pub insert_row : Option Text → Row → Table → Result EnqueueError Table
insert_row (some e) r rows = err (exec_failed e)
insert_row none r rows = if any (has_id r.id) rows then err duplicate_id else ok (rows ++ r ∷ [])

unfoldable pub or_default : Text → Text → Text
or_default id uuid = if text_eq id [] then uuid else id

unfoldable pub or_now : Option ℕ → ℕ → ℕ
or_now none clock = clock
or_now (some t) clock = t

-- `json.Marshal` of a payload: its text or an error.
module _ {ℓ} {Payload : Type ℓ} (marshal : Payload → Result Text Text) where
  -- The row that is inserted. `clock` is `time.Now()`, `now` the database's `NOW()`.
  unfoldable pub new_row : ℕ → ℕ → Text → Job Payload → Text → Row
  unfolding or_default or_now
  new_row clock now uuid job payload = record {
    id = or_default job.id uuid;
    name = job.name;
    payload = payload;
    run_at = or_now job.run_at clock;
    attempt = 0;
    max_attempts = positive_or job.max_attempts 5;
    last_error = none;
    locked_until = none;
    claim_token = none;
    created_at = now;
  }

  unfoldable pub marshalled : Payload → Result EnqueueError Text
  marshalled p = elim (marshal p) [ ok t ↦ ok t | err e ↦ err (marshal_failed e) ]

  unfoldable pub enqueue :
      ℕ → ℕ → Text → Option Text → Job Payload → Table → Result EnqueueError Table
  unfolding new_row marshalled insert_row
  enqueue clock now uuid refusal job rows = if text_eq job.name [] then err name_required else do
    payload ← marshalled job.payload
    insert_row refusal (new_row clock now uuid job payload) rows
