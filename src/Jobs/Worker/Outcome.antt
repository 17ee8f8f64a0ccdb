-- ===== src/Jobs/Worker/Outcome.antt =====
-- What the worker makes of a job whose claim it still owns, and of one that it has lost.
use devengine.Common.{
  ℕ, suc, ◌≤◌, ◌<◌, ◌≡◌, ◌≢◌, sym, ap, ◌∙◌, Bool, true, false, not, Option, none, some, Memᴰ, Text,
  arith, inl, inr, any, leb, le→leb, Distinct-unique, keep_if, count_if, update_where, Distinct,
  count_if-pos, count_if-le_one, update_where-none, keep_if-not-none, count_if-any-false,
  update-Memᴰ_kept, update-Memᴰ_changed, Memᴰ-keep_if, Memᴰ-keep_if_intro, some_eq, Bool-cases,
  Option-cases, none-some,
}
use devengine.Retry.Backoff.{backoff}
use devengine.Retry.Truncate.{truncate_utf8}
use devengine.Jobs.Table.{
  Row, Table, JobRow, owned_by, delete_owned, fail_owned, retry_owned, fail_row, retry_row,
}
use devengine.Jobs.Table.Owner.{owned_by-id}
use devengine.Jobs.Config.{WorkerConfig, initial_backoff}
use devengine.Jobs.Worker.{
  ProcessError, Status, processed, failed, retried, claim_lost, answered, settle, after_delay,
  record_failure, record_outcome,
}

one : (n : ℕ) → 0 < n → n ≤ 1 → n ≡ 1
one n lo hi = omega arith

owned_once :
    (j : JobRow) (rows : Table) {r : Row}
    → Distinct (λ (x : Row). x.id) rows
    → Memᴰ r rows
    → owned_by j r ≡ true
    → count_if (owned_by j) rows ≡ 1
owned_once j rows d m h = one _ (count_if-pos (owned_by j) rows m h) (
    count_if-le_one (owned_by j) (λ x. x.id) rows d
      (λ a b p q. owned_by-id j a p ∙ sym (owned_by-id j b q)))

settle_one :
    (status : Status) (rows new : Table) (n : ℕ)
    → n ≡ 1
    → settle answered status rows (new, n) ≡ (new, status)
settle_one status rows new n h = ground arith

settle_none :
    (status : Status) (rows new : Table) (n : ℕ)
    → n ≡ 0
    → settle answered status rows (new, n) ≡ (new, claim_lost)
settle_none status rows new n h = ground arith

others_unowned : (j : JobRow) (r q : Row) → owned_by j r ≡ true → q.id ≢ r.id → owned_by j q ≡ false
others_unowned j r q h ne = elim (Bool-cases (owned_by j q)) [
  | inl e ↦ absurd (ne (owned_by-id j q e ∙ sym (owned_by-id j r h)))
  | inr e ↦ e
]

-- The table has the new row, and all rows of other ids as they were.
pub record Replaced (r new : Row) (rows t : Table) : Type 0 where
  pub replaced : Memᴰ new t
  pub others : (q : Row) → Memᴰ q rows → q.id ≢ r.id → Memᴰ q t

update-Replaced :
    (j : JobRow) (f : Row → Row) (rows : Table) (r : Row)
    → Memᴰ r rows
    → owned_by j r ≡ true
    → Replaced r (f r) rows (update_where (owned_by j) f rows)
update-Replaced j f rows r m h = record {
  replaced = update-Memᴰ_changed (owned_by j) f rows m h;
  others = λ q mq ne. update-Memᴰ_kept (owned_by j) f rows mq (others_unowned j r q h ne);
}

module _ (message : ProcessError → Text) (draw : ℕ → ℕ) (c : WorkerConfig) (now : ℕ) (j : JobRow)
    (rows : Table) where
  stale :
      (wanted : Status) (t : Table) (status : Status) {after : Table × ℕ}
      → after ≡ (rows, 0)
      → some (settle answered wanted rows after) ≡ some (t, status)
      → (t ≡ rows) × (status ≡ claim_lost)
  stale wanted t status e q =
      let pair : (rows, claim_lost) ≡ (t, status) =
        ap (settle answered wanted rows) (sym e) ∙ some_eq q in
      (ap (λ (x : Table × Status). x.0) (sym pair), ap (λ (x : Table × Status). x.1) (sym pair))

  delete_stale : any (owned_by j) rows ≡ false → delete_owned j rows ≡ (rows, 0)
  unfolding delete_owned
  delete_stale h = rw (keep_if-not-none (owned_by j) rows h, count_if-any-false (owned_by j) rows h)

  fail_stale :
      (n : ℕ) (text : Text) → any (owned_by j) rows ≡ false → fail_owned n text j rows ≡ (rows, 0)
  unfolding fail_owned
  fail_stale n text h = rw (
    update_where-none (owned_by j) (fail_row n text) rows h,
    count_if-any-false (owned_by j) rows h,
  )

  retry_stale :
      (n run_at : ℕ) (text : Text)
      → any (owned_by j) rows ≡ false
      → retry_owned n run_at text j rows ≡ (rows, 0)
  unfolding retry_owned
  retry_stale n run_at text h = rw (
    update_where-none (owned_by j) (retry_row n run_at text) rows h,
    count_if-any-false (owned_by j) rows h,
  )

  stale_failure :
      (e : ProcessError) (t : Table) (status : Status)
      → any (owned_by j) rows ≡ false
      → record_failure message draw c now answered j e rows ≡ some (t, status)
      → (t ≡ rows) × (status ≡ claim_lost)
  unfolding record_failure
  stale_failure e t status h q = elim (Bool-cases (leb j.max_attempts (suc j.attempt))) [
    | inl last ↦ stale failed t status (fail_stale _ _ h) (rw last at q)
    | inr more ↦ elim (Option-cases (backoff draw (initial_backoff c) (suc j.attempt))) [
      | inl panic ↦ absurd (none-some (rw (more, panic) at q))
      | inr (delay, waits) ↦
          stale retried t status (retry_stale _ (after_delay now delay) _ h) (rw (more, waits) at q)
    ]
  ]

  -- A worker whose claim no row has any more changes nothing, whatever its handler returned, and
  -- counts the job as lost.
  pub stale_outcome :
      (e : Option ProcessError) (t : Table) (status : Status)
      → any (owned_by j) rows ≡ false
      → record_outcome message draw c now answered j e rows ≡ some (t, status)
      → (t ≡ rows) × (status ≡ claim_lost)
  unfolding record_outcome
  stale_outcome none t status h q = stale processed t status (delete_stale h) q
  stale_outcome (some e) t status h q = stale_failure e t status h q

  module _ (r : Row) (d : Distinct (λ (x : Row). x.id) rows) (m : Memᴰ r rows)
      (h : owned_by j r ≡ true) where
    gone : (q : Row) → Memᴰ q rows × (not (owned_by j q) ≡ true) → q.id ≢ r.id
    gone q (mq, free) e =
        let same : q ≡ r = Distinct-unique (λ (x : Row). x.id) rows d mq m e in
        owned_and_not (owned_by j q) (ap (owned_by j) same ∙ h) free
      where
        owned_and_not : (b : Bool) → b ≡ true → not b ≡ true → ⊥
        owned_and_not b p n = ground arith

    -- On a table of distinct ids, the owner of a claim whose handler succeeded removes its row and
    -- no other.
    pub processed_outcome :
        (t : Table) × (record_outcome message draw c now answered j none rows ≡ some (t, processed))
        × ((q : Row) → Memᴰ q t → q.id ≢ r.id)
        × ((q : Row) → Memᴰ q rows → q.id ≢ r.id → Memᴰ q t)
    unfolding record_outcome delete_owned
    processed_outcome = (
      keep_if (λ x. not (owned_by j x)) rows,
      ap some (settle_one processed rows _ _ (owned_once j rows d m h)),
      (λ q mq e. gone q (Memᴰ-keep_if (λ x. not (owned_by j x)) rows mq) e),
      λ q mq ne.
          Memᴰ-keep_if_intro (λ x. not (owned_by j x)) rows mq
            (ground (arith, others_unowned j r q h ne)),
    )

    -- On a table of distinct ids, the owner whose handler failed at the last attempt marks its row,
    -- and no other, as failed for good.
    pub failed_outcome :
        (e : ProcessError)
        → j.max_attempts ≤ suc j.attempt
        → (t : Table) × (record_outcome message draw c now answered j (some e) rows
            ≡ some (t, failed))
          × Replaced r (fail_row (suc j.attempt) (truncate_utf8 (message e) 1024) r) rows t
    unfolding record_outcome record_failure fail_owned
    failed_outcome e last = (
      update_where (owned_by j) (fail_row (suc j.attempt) (truncate_utf8 (message e) 1024)) rows,
      rw (le→leb _ _ last) (ap some (settle_one failed rows _ _ (owned_once j rows d m h))),
      update-Replaced j _ rows r m h,
    )
