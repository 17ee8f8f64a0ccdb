-- ===== src/Jobs/Enqueue/Laws.antt =====
-- What enqueueing a job does to the table.
use devengine.Common.{
  ℕ, ◌<◌, ◌≡◌, ◌≢◌, refl, false, Option, none, [], ◌∷◌, ◌++◌, Text, text_eq, text_eq_iff, arith,
  any, ok, err, Result, Bool-cases, inl, inr, leb, ℤ, pos, negsuc, positive_or,
}
use devengine.Jobs.Table.{Row, Table, has_id, is_claimable}
use devengine.Jobs.Enqueue.{Job, EnqueueError, insert_row, or_now, new_row, enqueue, marshalled}

-- The row of an accepted job: unattempted, unclaimed, with at least one attempt, and claimable
-- exactly from its time on.
pub record IsEnqueued (row : Row) (run_at : ℕ) : Type 0 where
  pub unattempted : row.attempt ≡ 0
  pub allowed : 0 < row.max_attempts
  pub unclaimed : row.claim_token ≡ none
  pub due : (now : ℕ) → is_claimable now row ≡ leb run_at now

module _ {ℓ} {Payload : Type ℓ} (marshal : Payload → Result Text Text) where
  max_attempts-pos : (v : ℤ) → 0 < positive_or v 5
  max_attempts-pos (pos n) = ground arith
  max_attempts-pos (negsuc n) = omega arith

  new_row-IsEnqueued :
      (clock now : ℕ) (uuid : Text) (job : Job Payload) (payload : Text)
      → IsEnqueued (new_row marshal clock now uuid job payload) (or_now job.run_at clock)
  unfolding new_row is_claimable
  new_row-IsEnqueued clock now uuid job payload = record {
    unattempted = refl;
    allowed = max_attempts-pos job.max_attempts;
    unclaimed = refl;
    due = λ t. ground arith;
  }

  -- What an accepted job leaves behind.
  pub record Accepted (clock now : ℕ) (uuid : Text) (job : Job Payload) (rows t : Table)
      : Type 0 where
    pub row : Row
    pub appended : t ≡ rows ++ row ∷ []
    pub fresh : any (has_id row.id) rows ≡ false
    pub named : job.name ≢ []
    pub same_name : row.name ≡ job.name
    pub same_payload : marshal job.payload ≡ ok row.payload
    pub enqueued : IsEnqueued row (or_now job.run_at clock)

  insert_accepts :
      (refusal : Option Text) (row : Row) (rows t : Table)
      → insert_row refusal row rows ≡ ok t
      → (any (has_id row.id) rows ≡ false) × (t ≡ rows ++ row ∷ [])
  unfolding insert_row
  insert_accepts refusal row rows t h = ground arith

  -- An accepted job has a name and a payload that can be encoded; the table gains one row, whose id
  -- is new, which holds that name and that encoding, has no attempt and at least one left, and can
  -- be claimed exactly from the job's time on (which is now when the job gives none).
  pub enqueue_accepts :
      (clock now : ℕ) (uuid : Text) (refusal : Option Text) (job : Job Payload) (rows t : Table)
      → enqueue marshal clock now uuid refusal job rows ≡ ok t
      → Accepted clock now uuid job rows t
  unfolding enqueue marshalled
  enqueue_accepts clock now uuid refusal job rows t h = elim (Bool-cases (text_eq job.name [])) [
    | inl p ↦ absurd (err_ok (rw p at h))
    | inr p ↦ with_payload p (marshal job.payload) refl
  ]
    where
      err_ok : {x : EnqueueError} → err x ≡ ok t → ⊥
      err_ok z = cc

      with_payload :
          text_eq job.name [] ≡ false
          → (m : Result Text Text) → marshal job.payload ≡ m
          → Accepted clock now uuid job rows t
      with_payload p (err x) e = absurd (err_ok (rw (p, e, marshalled) at h))
      with_payload p (ok payload) e =
          let row = new_row marshal clock now uuid job payload in
          let (fresh, appended) = insert_accepts refusal row rows t (rw (p, e, marshalled) at h) in
          record {
            row = row;
            appended = appended;
            fresh = fresh;
            named = λ z. ground (arith, text_eq_iff job.name []);
            same_name = unfold new_row in refl;
            same_payload = unfold new_row in e;
            enqueued = new_row-IsEnqueued clock now uuid job payload;
          }
