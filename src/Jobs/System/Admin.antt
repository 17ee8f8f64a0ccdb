-- ===== src/Jobs/System/Admin.antt =====
-- Enqueueing and the administrative statements keep the invariant.
use devengine.Common.{
  none-some, ℕ, ◌≡◌, ◌≢◌, refl, sym, ap, ◌∙◌, Bool, false, not, Option, some, [], ◌∷◌, ◌++◌, inl,
  inr, Memᴰ, Text, text_eq_iff, arith, any, keep_if, update_where, Memᴰ-append_cases, any-false,
  Distinct-append, ok,
}
use devengine.Jobs.Table.{Row, Table, JobRow, is_failed, has_id}
use devengine.Jobs.Enqueue.{insert_row, or_now}
use devengine.Jobs.Repository.{query, requeue_failed, discard_failed, is_failed_job, requeue}
use devengine.Jobs.System.{System, IsNew}
use devengine.Jobs.System.Invariant.{IsCounted, Inv, IsTouched, update-Inv, delete-Inv}

-- An accepted insert appends the row, whose id is new.
pub insert_row-ok :
    (refusal : Option Text) (r : Row) (rows t : Table)
    → insert_row refusal r rows ≡ ok t
    → (any (has_id r.id) rows ≡ false) × (t ≡ rows ++ r ∷ [])
unfolding insert_row
insert_row-ok refusal r rows t h = ground arith

-- An accepted administrative statement has affected one row.
pub requeue_failed-ok :
    (pool : Bool) (fault : Option Text) (clock : ℕ) (id : Text) (run_at : Option ℕ) (rows t : Table)
    → requeue_failed pool fault clock id run_at rows ≡ ok t
    → t ≡ update_where (is_failed_job id) (requeue (or_now run_at clock)) rows
unfolding requeue_failed query
requeue_failed-ok pool fault clock id run_at rows t h = ground arith

pub discard_failed-ok :
    (pool : Bool) (fault : Option Text) (id : Text) (rows t : Table)
    → discard_failed pool fault id rows ≡ ok t
    → t ≡ keep_if (λ r. not (is_failed_job id r)) rows
unfolding discard_failed query
discard_failed-ok pool fault id rows t h = ground arith

has_id-ne : (id : Text) (r : Row) → has_id id r ≡ false → r.id ≢ id
unfolding has_id
has_id-ne id r h e = ground (arith, text_eq_iff r.id id)

IsNew-IsCounted : (late : ℕ) (r : Row) → IsNew r → IsCounted late r
unfolding is_failed
IsNew-IsCounted late r n = ground arith

pub enqueue-Inv :
    {late : ℕ} (refusal : Option Text) (r : Row) (s : System) (t : Table)
    → Inv late s
    → IsNew r
    → insert_row refusal r s.table ≡ ok t
    → Inv late (record { table = t; held = s.held })
enqueue-Inv {late} refusal r s t v n h = rw accepted.1 (record {
  ids = Distinct-append (λ x. x.id) s.table (r ∷ []) v.ids (alone, tt) apart;
  tokens = v.tokens;
  agrees = λ j q mj mq e. elim (Memᴰ-append_cases s.table (r ∷ []) mq) [
    | inl old ↦ v.agrees j q mj old e
    | inr new ↦ absurd (no_owner j q new e)
  ];
  counted = λ q mq. elim (Memᴰ-append_cases s.table (r ∷ []) mq) [
    | inl old ↦ v.counted q old
    | inr new ↦ rw (only q new) (IsNew-IsCounted late r n)
  ];
})
  where
    accepted : (any (has_id r.id) s.table ≡ false) × (t ≡ s.table ++ r ∷ [])
    accepted = insert_row-ok refusal r s.table t h

    only : (q : Row) → Memᴰ q (r ∷ []) → q ≡ r
    only q (Memᴰ.head e) = e
    only q (Memᴰ.tail m) = elim m [ ]

    alone : (y : Row) → Memᴰ y [] → y.id ≢ r.id
    alone y m = elim m [ ]

    apart : (x y : Row) → Memᴰ x s.table → Memᴰ y (r ∷ []) → y.id ≢ x.id
    apart x y mx my e =
        has_id-ne r.id x (any-false (has_id r.id) s.table accepted.0 mx)
          (sym e ∙ ap (λ (z : Row). z.id) (only y my))

    no_owner : (j : JobRow) (q : Row) → Memᴰ q (r ∷ []) → q.claim_token ≡ some j.claim_token → ⊥
    no_owner j q m e =
        none-some (sym n.unclaimed ∙ ap (λ (z : Row). z.claim_token) (sym (only q m)) ∙ e)

requeue-IsTouched :
    {late : ℕ} (at : ℕ) (s : System) (r : Row)
    → Inv late s
    → Memᴰ r s.table
    → IsTouched late s.held r (requeue at r)
unfolding requeue is_failed
requeue-IsTouched {late} at s r v m = record {
  keeps_id = refl;
  counts = record {
    allowed = (v.counted r m).allowed;
    exhausted = λ e. cc;
    bounded = omega arith;
    retryable = λ e. omega (arith, (v.counted r m).allowed);
  };
  owners = λ j mj e. cc;
}

pub requeue-Inv :
    {late : ℕ} (at : ℕ) (id : Text) (s : System)
    → Inv late s
    → Inv late
        (record { table = update_where (is_failed_job id) (requeue at) s.table; held = s.held })
requeue-Inv {late} at id s v =
    update-Inv (is_failed_job id) (requeue at) s s.held v v.tokens v.agrees
      (λ r m h. requeue-IsTouched at s r v m)

pub discard-Inv :
    {late : ℕ} (id : Text) (s : System)
    → Inv late s
    → Inv late (record { table = keep_if (λ r. not (is_failed_job id r)) s.table; held = s.held })
discard-Inv {late} id s v =
    delete-Inv (λ r. not (is_failed_job id r)) s s.held v v.tokens (λ j m. m)
