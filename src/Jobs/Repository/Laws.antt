-- ===== src/Jobs/Repository/Laws.antt =====
-- The administrative operations on permanently failed jobs, and how they fit together.
use devengine.Common.{
  ℕ, ◌≤◌, ◌<◌, ◌≡◌, refl, ◌∙◌, sym, Bool, true, false, Option, none, List, [], ◌∷◌, Memᴰ, Text,
  text_eq_iff, text_eq_refl, arith, any, ok, err, ℤ, positive_or, min, length, take, length-take,
  length-map, length-keep_if, map, keep_if, count_if, Distinct, count_if-pos, count_if-le_one,
  update-Memᴰ_changed, update_where, and_intro, and_left, leb, count_if-any-false, keep_if-none,
  suc,
}
use devengine.Jobs.Table.{Row, Table, has_id, is_failed, is_claimable}
use devengine.Jobs.Enqueue.{or_now}
use devengine.Jobs.Repository.{
  FailedJob, failed_job_not_found, scan_failed_job, insert_by_age, sort_by_age, is_failed_job,
  requeue, count_failed, list_failed, get_failed, requeue_failed, discard_failed, first_job, query,
  one_affected,
}

length-insert_by_age :
    (collate : Text → Text → Bool) (r : Row) (rows : List Row)
    → length (insert_by_age collate r rows) ≡ suc (length rows)
unfolding insert_by_age
length-insert_by_age collate r [] = refl
length-insert_by_age collate r (x ∷ rows) = ground (arith, length-insert_by_age collate r rows)

length-sort_by_age :
    (collate : Text → Text → Bool) (rows : List Row)
    → length (sort_by_age collate rows) ≡ length rows
unfolding sort_by_age
length-sort_by_age collate [] = refl
length-sort_by_age collate (r ∷ rows) = omega (
  arith,
  length-insert_by_age collate r (sort_by_age collate rows),
  length-sort_by_age collate rows,
)

-- The list of failed jobs holds as many as are counted, up to the limit, which is 100 unless it is
-- positive.
pub list-count :
    (collate : Text → Text → Bool) (limit : ℤ) (rows : Table)
    → (jobs : List FailedJob) × (n : ℕ) × (list_failed true none collate limit rows ≡ ok jobs)
      × (count_failed true none rows ≡ ok n)
      × (length jobs ≡ min (positive_or limit 100) n)
unfolding list_failed count_failed query
list-count collate limit rows =
    let failed = keep_if is_failed rows in
    let chosen = take (positive_or limit 100) (sort_by_age collate failed) in
    (
      map scan_failed_job chosen,
      count_if is_failed rows,
      refl,
      refl,
      omega (
        arith,
        length-map scan_failed_job chosen,
        length-take (positive_or limit 100) (sort_by_age collate failed),
        length-sort_by_age collate failed,
        length-keep_if is_failed rows,
      ),
    )

is_failed_job-id : (id : Text) (r : Row) → is_failed_job id r ≡ true → r.id ≡ id
unfolding is_failed_job has_id
is_failed_job-id id r h = (text_eq_iff r.id id).0 (and_left _ _ h)

failed-is_failed_job : (r : Row) → is_failed r ≡ true → is_failed_job r.id r ≡ true
unfolding is_failed_job has_id
failed-is_failed_job r h = and_intro _ _ (text_eq_refl r.id) h

one_hit : (id : Text) (rows t : Table) (n : ℕ) → n ≡ 1 → one_affected id t n ≡ ok t
one_hit id rows t n h = ground arith

module _ (rows : Table) (r : Row) (d : Distinct (λ (x : Row). x.id) rows) (m : Memᴰ r rows)
    (failed : is_failed r ≡ true) where
  hit_once : count_if (is_failed_job r.id) rows ≡ 1
  hit_once = one _ (count_if-pos (is_failed_job r.id) rows m (failed-is_failed_job r failed)) (
      count_if-le_one (is_failed_job r.id) (λ (x : Row). x.id) rows d
        (λ a b p q. is_failed_job-id r.id a p ∙ sym (is_failed_job-id r.id b q)))
    where
      one : (n : ℕ) → 0 < n → n ≤ 1 → n ≡ 1
      one n lo hi = omega arith

  requeue-ready : (at now : ℕ) → is_claimable now (requeue at r) ≡ leb at now
  unfolding requeue is_claimable
  requeue-ready at now = ground arith

  requeue-reset :
      (at : ℕ)
      → ((requeue at r).id ≡ r.id)
        × ((requeue at r).attempt ≡ 0)
        × (is_failed (requeue at r) ≡ false)
  unfolding requeue is_failed
  requeue-reset at = (refl, refl, refl)

  -- In a table of distinct ids, requeueing a failed job resets its attempts; it is no longer
  -- failed, and can be claimed exactly from the given time on, or from the clock's when none is
  -- given.
  pub requeue_failed-resets :
      (clock : ℕ) (run_at : Option ℕ)
      → (t : Table) × (q : Row) × (requeue_failed true none clock r.id run_at rows ≡ ok t)
        × Memᴰ q t
        × (q.id ≡ r.id)
        × (q.attempt ≡ 0)
        × (is_failed q ≡ false)
        × ((now : ℕ) → is_claimable now q ≡ leb (or_now run_at clock) now)
  unfolding requeue_failed query
  requeue_failed-resets clock run_at =
      let at = or_now run_at clock in
      let (same, zero_attempts, alive) = requeue-reset at in
      (
        update_where (is_failed_job r.id) (requeue at) rows,
        requeue at r,
        one_hit r.id rows _ _ hit_once,
        update-Memᴰ_changed (is_failed_job r.id) (requeue at) rows m
            (failed-is_failed_job r failed),
        same,
        zero_attempts,
        alive,
        λ now. requeue-ready at now,
      )

-- An id with no permanently failed job: getting, requeueing and discarding all answer that there is
-- none.
pub not_failed-not_found :
    (id : Text) (clock : ℕ) (run_at : Option ℕ) (rows : Table)
    → any (is_failed_job id) rows ≡ false
    → (get_failed true none id rows ≡ err (failed_job_not_found id))
      × (requeue_failed true none clock id run_at rows ≡ err (failed_job_not_found id))
      × (discard_failed true none id rows ≡ err (failed_job_not_found id))
unfolding get_failed requeue_failed discard_failed query first_job
not_failed-not_found id clock run_at rows h = (
  rw (keep_if-none (is_failed_job id) rows h) refl,
  rw (count_if-any-false (is_failed_job id) rows h) refl,
  rw (count_if-any-false (is_failed_job id) rows h) refl,
)
