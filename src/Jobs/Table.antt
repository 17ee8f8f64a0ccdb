-- ===== src/Jobs/Table.antt =====
-- The table devengine_jobs (jobs/schema.go) and the SQL statements that jobs/jobs.go,
-- jobs/repository.go and jobs/worker.go send, as functions on the list of its rows. Times and
-- lengths of time are whole microseconds of the database clock.
pub mod Select
pub mod Owner
pub mod Renew
pub mod Order
pub mod Claim
use devengine.Common.{
  ℕ, ◌+◌, Bool, true, false, ◌&&◌, not, Option, none, some, List, [], ◌∷◌, ◌++◌, map, Text, text_eq,
  str, leb, ltb, if◌then◌else◌, keep_if, count_if, any, take, update_where,
}

-- A timestamptz: a time, or 'infinity'.
pub data Deadline : Type 0 where
  finite : ℕ → Deadline
  infinity : Deadline

pub record Row : Type 0 where
  pub id : Text
  pub name : Text
  pub payload : Text
  pub run_at : ℕ
  pub attempt : ℕ
  pub max_attempts : ℕ
  pub last_error : Option Text
  pub locked_until : Option Deadline
  pub claim_token : Option Text
  pub created_at : ℕ

abbrev pub Table : Type 0
Table = List Row

-- What a claim returns to the worker.
pub record JobRow : Type 0 where
  pub id : Text
  pub name : Text
  pub payload : Text
  pub attempt : ℕ
  pub max_attempts : ℕ
  pub claim_token : Text

-- `locked_until = 'infinity'`
unfoldable pub is_failed : Row → Bool
is_failed r = elim r.locked_until [
  | none ↦ false
  | some d ↦ elim d [ finite t ↦ false | infinity ↦ true ]
]

-- `locked_until > NOW()`
unfoldable pub is_locked : ℕ → Row → Bool
is_locked now r = elim r.locked_until [
  | none ↦ false
  | some d ↦ elim d [ finite t ↦ ltb now t | infinity ↦ true ]
]

-- `claim_token = $n`
unfoldable pub has_token : Text → Row → Bool
has_token token r = elim r.claim_token [ none ↦ false | some t ↦ text_eq t token ]

unfoldable pub has_id : Text → Row → Bool
has_id id r = text_eq r.id id

unfoldable pub owned_by : JobRow → Row → Bool
unfolding has_id has_token
owned_by j r = has_id j.id r && has_token j.claim_token r

-- The claim's subselect: due, and neither leased nor permanently failed.
unfoldable pub is_claimable : ℕ → Row → Bool
unfolding is_locked
is_claimable now r = leb r.run_at now && not (is_locked now r)

-- `ORDER BY run_at`: rows of one time keep the table's order.
unfoldable pub insert_by_run_at : Row → List Row → List Row
insert_by_run_at r [] = r ∷ []
insert_by_run_at r (s ∷ rows) =
    if leb r.run_at s.run_at then r ∷ s ∷ rows else s ∷ insert_by_run_at r rows

unfoldable pub sort_by_run_at : List Row → List Row
unfolding insert_by_run_at
sort_by_run_at [] = []
sort_by_run_at (r ∷ rows) = insert_by_run_at r (sort_by_run_at rows)

-- `LIMIT $1 FOR UPDATE SKIP LOCKED`; `busy` tells the rows that another transaction holds.
unfoldable pub select_claimable : ℕ → ℕ → (Text → Bool) → Table → List Row
unfolding is_claimable sort_by_run_at keep_if
select_claimable batch now busy rows =
    take batch (sort_by_run_at (keep_if (λ r. is_claimable now r && not (busy r.id)) rows))

unfoldable pub selects : List Row → Row → Bool
unfolding has_id any
selects chosen r = any (λ c. has_id r.id c) chosen

abbrev pub token : Text → Text → Text
token prefix id = prefix ++ (str ":" ++ id)

unfoldable pub lease_row : ℕ → ℕ → Text → Row → Row
lease_row now lease prefix r = record r {
  locked_until = some (finite (now + lease));
  claim_token = some (token prefix r.id);
}

-- `RETURNING id, name, payload, attempt, max_attempts, claim_token`
abbrev pub returned : Text → Row → JobRow
returned prefix r = record {
  id = r.id;
  name = r.name;
  payload = r.payload;
  attempt = r.attempt;
  max_attempts = r.max_attempts;
  claim_token = token prefix r.id;
}

-- The claim of `processBatch`.
unfoldable pub claim : ℕ → ℕ → ℕ → Text → (Text → Bool) → Table → Table × List JobRow
unfolding select_claimable selects lease_row
claim batch now lease prefix busy rows =
    let chosen = select_claimable batch now busy rows in
    (
      update_where (selects chosen) (lease_row now lease prefix) rows,
      map (returned prefix) (keep_if (selects chosen) rows),
    )

abbrev pub renew_row : ℕ → ℕ → Row → Row
renew_row now lease r = record r { locked_until = some (finite (now + lease)) }

abbrev pub fail_row : ℕ → Text → Row → Row
fail_row attempt message r = record r {
  attempt = attempt;
  last_error = some message;
  locked_until = some infinity;
}

abbrev pub retry_row : ℕ → ℕ → Text → Row → Row
retry_row attempt run_at message r = record r {
  attempt = attempt;
  run_at = run_at;
  locked_until = none;
  claim_token = none;
  last_error = some message;
}

abbrev pub renewable : ℕ → JobRow → Row → Bool
renewable now j r = owned_by j r && is_locked now r

-- The renewal of `startLeaseRenewal`.
unfoldable pub renew : ℕ → ℕ → JobRow → Table → Table × ℕ
renew now lease j rows =
    (update_where (renewable now j) (renew_row now lease) rows, count_if (renewable now j) rows)

-- The outcome of a job whose handler succeeded.
unfoldable pub delete_owned : JobRow → Table → Table × ℕ
delete_owned j rows = (keep_if (λ r. not (owned_by j r)) rows, count_if (owned_by j) rows)

-- The outcome of a job that has used up its attempts.
unfoldable pub fail_owned : ℕ → Text → JobRow → Table → Table × ℕ
fail_owned attempt message j rows =
    (update_where (owned_by j) (fail_row attempt message) rows, count_if (owned_by j) rows)

-- The outcome of a job that is to run again.
unfoldable pub retry_owned : ℕ → ℕ → Text → JobRow → Table → Table × ℕ
retry_owned attempt run_at message j rows =
    (update_where (owned_by j) (retry_row attempt run_at message) rows, count_if (owned_by j) rows)
