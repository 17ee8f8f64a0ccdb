-- ===== src/Jobs/Repository.antt =====
-- The administrative operations of jobs/repository.go on permanently failed jobs.
pub mod Laws
use devengine.Common.{
  ℕ, ◌&&◌, ◌||◌, not, Option, none, some, List, [], ◌∷◌, map, Bool, Text, ltb, ◌==◌, if◌then◌else◌,
  keep_if, count_if, update_where, take, Result, ok, err, ℤ, positive_or,
}
use devengine.Jobs.Enqueue.{or_now}
use devengine.Jobs.Table.{Row, Table, is_failed, has_id}

pub record FailedJob : Type 0 where
  pub id : Text
  pub name : Text
  pub payload : Text
  pub run_at : ℕ
  pub attempt : ℕ
  pub max_attempts : ℕ
  pub last_error : Text
  pub created_at : ℕ

pub data RepositoryError : Type 0 where
  pool_required : RepositoryError
  failed_job_not_found : Text → RepositoryError
  query_failed : Text → RepositoryError

-- `COALESCE(last_error, '')`
abbrev pub coalesce : Option Text → Text
coalesce none = []
coalesce (some t) = t

unfoldable pub scan_failed_job : Row → FailedJob
scan_failed_job r = record {
  id = r.id;
  name = r.name;
  payload = r.payload;
  run_at = r.run_at;
  attempt = r.attempt;
  max_attempts = r.max_attempts;
  last_error = coalesce r.last_error;
  created_at = r.created_at;
}

-- `ORDER BY created_at, id`, where `collate a b` says that the database puts `a` before or with `b`.
abbrev pub comes_before : (Text → Text → Bool) → Row → Row → Bool
comes_before collate r s =
    ltb r.created_at s.created_at || (r.created_at == s.created_at && collate r.id s.id)

unfoldable pub insert_by_age : (Text → Text → Bool) → Row → List Row → List Row
insert_by_age collate r [] = r ∷ []
insert_by_age collate r (s ∷ rows) =
    if comes_before collate r s then r ∷ s ∷ rows else s ∷ insert_by_age collate r rows

unfoldable pub sort_by_age : (Text → Text → Bool) → List Row → List Row
unfolding insert_by_age
sort_by_age collate [] = []
sort_by_age collate (r ∷ rows) = insert_by_age collate r (sort_by_age collate rows)

-- `WHERE id = $1 AND locked_until = 'infinity'`
unfoldable pub is_failed_job : Text → Row → Bool
unfolding has_id is_failed
is_failed_job id r = has_id id r && is_failed r

abbrev pub first_job : Text → List Row → Result RepositoryError FailedJob
unfolding scan_failed_job
first_job id [] = err (failed_job_not_found id)
first_job id (r ∷ _) = ok (scan_failed_job r)

-- `tag.RowsAffected() != 1`
abbrev pub one_affected : Text → Table → ℕ → Result RepositoryError Table
one_affected id rows n = if n == 1 then ok rows else err (failed_job_not_found id)

unfoldable pub requeue : ℕ → Row → Row
requeue run_at r = record r {
  run_at = run_at;
  attempt = 0;
  last_error = none;
  locked_until = none;
  claim_token = none;
}

-- `pool` says that the repository and its pool are not nil; `fault` is the error of a statement or
-- of reading its rows.
module _ (pool : Bool) (fault : Option Text) where
  -- `validate`, and the error of the statement.
  unfoldable pub query {ℓ} : {A : Type ℓ} → Result RepositoryError A → Result RepositoryError A
  query answer =
      if pool
      then elim fault [ some e ↦ err (query_failed e) | none ↦ answer ]
      else err pool_required

  unfoldable pub count_failed : Table → Result RepositoryError ℕ
  unfolding query count_if is_failed
  count_failed rows = query (ok (count_if is_failed rows))

  unfoldable pub list_failed :
      (Text → Text → Bool) → ℤ → Table → Result RepositoryError (List FailedJob)
  unfolding query keep_if is_failed sort_by_age scan_failed_job
  list_failed collate limit rows = query (
      ok (
        map scan_failed_job
          (take (positive_or limit 100) (sort_by_age collate (keep_if is_failed rows)))))

  unfoldable pub get_failed : Text → Table → Result RepositoryError FailedJob
  unfolding query keep_if is_failed_job
  get_failed id rows = query (first_job id (keep_if (is_failed_job id) rows))

  -- `clock` is `time.Now()`, which a zero `run_at` stands for.
  unfoldable pub requeue_failed : ℕ → Text → Option ℕ → Table → Result RepositoryError Table
  unfolding query is_failed_job requeue or_now
  requeue_failed clock id run_at rows =
      let at = or_now run_at clock in
      query (
        one_affected id (update_where (is_failed_job id) (requeue at) rows)
          (count_if (is_failed_job id) rows))

  unfoldable pub discard_failed : Text → Table → Result RepositoryError Table
  unfolding query is_failed_job keep_if
  discard_failed id rows = query (
      one_affected id (keep_if (λ r. not (is_failed_job id r)) rows)
        (count_if (is_failed_job id) rows))
