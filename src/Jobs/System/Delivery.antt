-- ===== src/Jobs/System/Delivery.antt =====
-- At-least-once delivery: how a job can leave the table.
use devengine.Common.{
  ℕ, suc, ◌≡◌, refl, sym, subst, ◌⊎◌, Bool, true, false, not, Option, none, inl, inr, [], ◌∷◌, Memᴰ,
  Text, text_eq_iff, arith, Bool-cases, keep_if, update_where, Memᴰ-keep_if_intro, Memᴰ-append_left,
  update-Memᴰ_kept, update-Memᴰ_changed,
}
use devengine.Jobs.Table.{
  Row, Table, JobRow, claim, renew, delete_owned, fail_owned, retry_owned, owned_by, lease_row,
  select_claimable, selects, renewable, renew_row, fail_row, retry_row,
}
use devengine.Jobs.Table.Owner.{owned_by-id}
use devengine.Jobs.Config.{WorkerConfig}
use devengine.Jobs.Repository.{is_failed_job, requeue}
use devengine.Jobs.Worker.{ProcessError}
use devengine.Jobs.Worker.Recorded.{Recorded, outcome-Recorded}
use devengine.Jobs.System.{System, Step, Reach}
use devengine.Jobs.System.Admin.{insert_row-ok, requeue_failed-ok, discard_failed-ok}

-- A row of that id is in the table.
abbrev pub Stored : Text → Table → Type 0
Stored id rows = (q : Row) × Memᴰ q rows × (q.id ≡ id)

update-Stored :
    (p : Row → Bool) (f : Row → Row) (rows : Table) (r : Row)
    → ((f r).id ≡ r.id)
    → Memᴰ r rows
    → Stored r.id (update_where p f rows)
update-Stored p f rows r same m = elim (Bool-cases (p r)) [
  | inl e ↦ (f r, update-Memᴰ_changed p f rows m e, same)
  | inr e ↦ (r, update-Memᴰ_kept p f rows m e, refl)
]

not-false : (b : Bool) → b ≡ false → not b ≡ true
not-false b e = ground arith

keep-Stored :
    (p : Row → Bool) (rows : Table) (r : Row)
    → Memᴰ r rows
    → (p r ≡ true) ⊎ Stored r.id (keep_if (λ x. not (p x)) rows)
keep-Stored p rows r m = elim (Bool-cases (p r)) [
  | inl e ↦ inl e
  | inr e ↦ inr (r, Memᴰ-keep_if_intro (λ x. not (p x)) rows m (not-false (p r) e), refl)
]

claim-Stored :
    (batch now lease : ℕ) (prefix : Text) (busy : Text → Bool) (rows : Table) (r : Row)
    → Memᴰ r rows
    → Stored r.id (claim batch now lease prefix busy rows).0
unfolding claim lease_row
claim-Stored batch now lease prefix busy rows r m =
    update-Stored (selects (select_claimable batch now busy rows)) (lease_row now lease prefix) rows
      r refl m

renew-Stored :
    (now lease : ℕ) (j : JobRow) (rows : Table) (r : Row)
    → Memᴰ r rows
    → Stored r.id (renew now lease j rows).0
unfolding renew
renew-Stored now lease j rows r m =
    update-Stored (renewable now j) (renew_row now lease) rows r refl m

fail_owned-Stored :
    (n : ℕ) (text : Text) (j : JobRow) (rows : Table) (r : Row)
    → Memᴰ r rows
    → Stored r.id (fail_owned n text j rows).0
unfolding fail_owned
fail_owned-Stored n text j rows r m = update-Stored (owned_by j) (fail_row n text) rows r refl m

retry_owned-Stored :
    (n run_at : ℕ) (text : Text) (j : JobRow) (rows : Table) (r : Row)
    → Memᴰ r rows
    → Stored r.id (retry_owned n run_at text j rows).0
unfolding retry_owned
retry_owned-Stored n run_at text j rows r m =
    update-Stored (owned_by j) (retry_row n run_at text) rows r refl m

delete_owned-Stored :
    (j : JobRow) (rows : Table) (r : Row)
    → Memᴰ r rows
    → (owned_by j r ≡ true) ⊎ Stored r.id (delete_owned j rows).0
unfolding delete_owned
delete_owned-Stored j rows r m = keep-Stored (owned_by j) rows r m

requeue-Stored :
    (at : ℕ) (id : Text) (rows : Table) (r : Row)
    → Memᴰ r rows
    → Stored r.id (update_where (is_failed_job id) (requeue at) rows)
unfolding requeue
requeue-Stored at id rows r m = update-Stored (is_failed_job id) (requeue at) rows r refl m

is_failed_job-id : (id : Text) (r : Row) → is_failed_job id r ≡ true → r.id ≡ id
unfolding is_failed_job
is_failed_job-id id r h = ground (arith, text_eq_iff r.id id)

moved : {id : Text} {t u : Table} → u ≡ t → Stored id t → Stored id u
moved e (q, m, same) = (q, rw e m, same)

Recorded-Stored :
    (j : JobRow) (e : Option ProcessError) (rows t : Table) (r : Row)
    → Memᴰ r rows
    → Recorded j e rows t
    → Stored r.id t ⊎ ((e ≡ none) × (j.id ≡ r.id))
Recorded-Stored j e rows t r m (Recorded.unchanged p) = inl (moved p (r, m, refl))
Recorded-Stored j e rows t r m (Recorded.deleted s p) = elim (delete_owned-Stored j rows r m) [
  | inl owned ↦ inr (s, sym (owned_by-id j r owned))
  | inr stays ↦ inl (moved p stays)
]
Recorded-Stored j e rows t r m (Recorded.failed_for_good text _ _ p) =
    inl (moved p (fail_owned-Stored (suc j.attempt) text j rows r m))
Recorded-Stored j e rows t r m (Recorded.put_back at text _ _ p) =
    inl (moved p (retry_owned-Stored (suc j.attempt) at text j rows r m))

module _ (message : ProcessError → Text) (draw : ℕ → ℕ) (c : WorkerConfig) where
  -- The step records a success of the job, or an administrator discards it.
  abbrev pub Ends : Text → {s u : System} → Step message draw c s u → Type 0
  Ends id (Step.finishes _ _ j e _ _ _ _) = (e ≡ none) × (j.id ≡ id)
  Ends id (Step.discards _ _ other _ _) = other ≡ id
  Ends id (Step.enqueues _ _ _ _ _) = ⊥
  Ends id (Step.claims _ _ _ _ _ _ _ _) = ⊥
  Ends id (Step.renews _ _ _ _ _ _) = ⊥
  Ends id (Step.renews_late _ _ _ _ _) = ⊥
  Ends id (Step.crashes _ _ _) = ⊥
  Ends id (Step.requeues _ _ _ _ _ _ _) = ⊥

  abbrev pub Ended : Text → {s u : System} → Reach message draw c s u → Type 0
  Ended id Reach.here = ⊥
  Ended id (Reach.next path st) = Ended id path ⊎ Ends id st

  Step-Stored :
      {s u : System} (st : Step message draw c s u) (r : Row)
      → Memᴰ r s.table
      → Stored r.id u.table ⊎ Ends r.id st
  Step-Stored {s} {u} (Step.enqueues refusal n _ p q) r m = inl (
      moved (insert_row-ok refusal n s.table u.table p).1
        (r, Memᴰ-append_left s.table (n ∷ []) m, refl))
  Step-Stored {s} (Step.claims batch now lease prefix busy _ p q) r m =
      inl (moved p (claim-Stored batch now lease prefix busy s.table r m))
  Step-Stored {s} (Step.renews now lease j _ p q) r m =
      inl (moved p (renew-Stored now lease j s.table r m))
  Step-Stored {s} (Step.renews_late now lease j p q) r m =
      inl (moved p (renew-Stored now lease j s.table r m))
  Step-Stored {s} {u} (Step.finishes now answer j e status _ p q) r m =
      Recorded-Stored j e s.table u.table r m
        (outcome-Recorded message draw c now answer j s.table u.table status e p)
  Step-Stored (Step.crashes keep p q) r m = inl (moved p (r, m, refl))
  Step-Stored {s} {u} (Step.requeues pool fault clock id at p q) r m = inl (
      moved (requeue_failed-ok pool fault clock id at s.table u.table p)
        (requeue-Stored _ id s.table r m))
  Step-Stored {s} {u} (Step.discards pool fault id p q) r m =
      elim (keep-Stored (is_failed_job id) s.table r m) [
        | inl gone ↦ inr (sym (is_failed_job-id id r gone))
        | inr stays ↦ inl (moved (discard_failed-ok pool fault id s.table u.table p) stays)
      ]

  Stored-Ends :
      {s u : System} (st : Step message draw c s u) (id : Text)
      → Stored id s.table
      → Stored id u.table ⊎ Ends id st
  Stored-Ends {u} st id (r, m, e) = subst (λ i. Stored i u.table ⊎ Ends i st) e (Step-Stored st r m)

  -- No job is lost: after any history of enqueues, claims, renewals, outcomes, crashes and
  -- administrative operations, a job that was in the table is still there, unless some step of the
  -- history recorded a success of a claim of that job or an administrator discarded it.
  pub job_kept :
      {s u : System} (path : Reach message draw c s u) (id : Text)
      → Stored id s.table
      → Stored id u.table ⊎ Ended id path
  job_kept Reach.here id h = inl h
  job_kept (Reach.next path st) id h = elim (job_kept path id h) [
    | inl now ↦ elim (Stored-Ends st id now) [ inl q ↦ inl q | inr q ↦ inr (inr q) ]
    | inr q ↦ inr (inl q)
  ]
