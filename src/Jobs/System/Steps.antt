-- ===== src/Jobs/System/Steps.antt =====
-- The statements of a worker keep the invariant.
use devengine.Common.{
  and_left, true-false, ℕ, suc, ◌+◌, ◌≤◌, ◌<◌, ◌≡◌, ◌≢◌, refl, sym, ◌∙◌, subst, Bool, true, false,
  not, Option, some, List, Memᴰ, Text, text_eq, text_eq_iff, arith, keep_if, Memᴰ-keep_if, Distinct,
  Distinct-keep_if,
}
use devengine.Jobs.Table.{
  Row, Table, JobRow, is_failed, is_locked, renew, owned_by, delete_owned, fail_owned, retry_owned,
  renew_row, fail_row, retry_row, renewable,
}
use devengine.Jobs.Table.Owner.{owned_by-token}
use devengine.Jobs.Worker.{ProcessError}
use devengine.Jobs.Worker.Recorded.{Recorded}
use devengine.Jobs.System.{System, drop_claim}
use devengine.Jobs.System.Invariant.{
  Agrees, Inv, IsTouched, update-Inv, update-Inv_grown, delete-Inv,
}

-- `Inv` reads only the two fields.
pub Inv-of :
    {late : ℕ} {s u : System} → u.table ≡ s.table → u.held ≡ s.held → Inv late s → Inv late u
Inv-of {late} {s} {u} p q v = subst (Inv late) (λ i. record { table = sym p i; held = sym q i }) v

-- The claims that are left once some are gone.
module _ {late : ℕ} (s : System) (keep : JobRow → Bool) where
  pub survivors-Distinct : Inv late s → Distinct (λ j. j.claim_token) (keep_if keep s.held)
  survivors-Distinct v = Distinct-keep_if (λ j. j.claim_token) keep s.held v.tokens

  pub survivors-agree :
      Inv late s
      → (j : JobRow) (r : Row) → Memᴰ j (keep_if keep s.held)
      → Memᴰ r s.table
      → r.claim_token ≡ some j.claim_token
      → Agrees j r
  survivors-agree v j r mj mr e = v.agrees j r (Memᴰ-keep_if keep s.held mj).0 mr e

  pub crash-Inv : Inv late s → Inv late (record { table = s.table; held = keep_if keep s.held })
  crash-Inv v = record {
    ids = v.ids;
    tokens = survivors-Distinct v;
    agrees = survivors-agree v;
    counted = v.counted;
  }

dropped-ne :
    (j k : JobRow) (held : List JobRow) → Memᴰ k (drop_claim j held) → k.claim_token ≢ j.claim_token
dropped-ne j k held m e =
    differs (text_eq k.claim_token j.claim_token) ((text_eq_iff _ _).1 e) (Memᴰ-keep_if _ held m).1
  where
    differs : (b : Bool) → b ≡ true → not b ≡ true → ⊥
    differs b p q = ground arith

renew_row-pending : (now lease : ℕ) (r : Row) → is_failed (renew_row now lease r) ≡ false
unfolding is_failed
renew_row-pending now lease r = refl

-- A renewed row: `more` counts the renewals that were late, this one included.
renewed-IsTouched :
    {late : ℕ} (more now lease : ℕ) (s : System) (r : Row)
    → Inv late s
    → Memᴰ r s.table
    → r.attempt < r.max_attempts + more
    → IsTouched more s.held r (renew_row now lease r)
renewed-IsTouched more now lease s r v m count = record {
  keeps_id = refl;
  counts = record {
    allowed = (v.counted r m).allowed;
    exhausted = λ e. absurd (true-false (sym e ∙ renew_row-pending now lease r));
    bounded = omega (arith, count);
    retryable = λ e. count;
  };
  owners = λ k mk e.
      let a = v.agrees k r mk m e in
      record {
        same_id = a.same_id;
        same_attempt = a.same_attempt;
        same_max = a.same_max;
        pending = renew_row-pending now lease r;
      };
}

pub renew-Inv :
    {late : ℕ} (now lease : ℕ) (j : JobRow) (s : System)
    → Inv late s
    → Memᴰ j s.held
    → Inv late (record { table = (renew now lease j s.table).0; held = s.held })
unfolding renew
renew-Inv {late} now lease j s v mj =
    update-Inv (renewable now j) (renew_row now lease) s s.held v v.tokens v.agrees (λ r m h.
      renewed-IsTouched late now lease s r v m (
        (v.counted r m).retryable
          (v.agrees j r mj m
            (owned_by-token j r (and_left (owned_by j r) (is_locked now r) h))).pending))

-- A late renewal may give a failed row one more attempt.
pub renew_late-Inv :
    {late : ℕ} (now lease : ℕ) (j : JobRow) (s : System)
    → Inv late s
    → Inv (suc late) (record { table = (renew now lease j s.table).0; held = s.held })
unfolding renew
renew_late-Inv {late} now lease j s v =
    update-Inv_grown (renewable now j) (renew_row now lease) s s.held (omega arith) v v.tokens
      v.agrees
      (λ r m h.
        renewed-IsTouched (suc late) now lease s r v m (omega (arith, (v.counted r m).bounded)))

dropped_sub : (j : JobRow) (s : System) (k : JobRow) → Memᴰ k (drop_claim j s.held) → Memᴰ k s.held
dropped_sub j s k m = (Memᴰ-keep_if _ s.held m).0

module _ {late : ℕ} (j : JobRow) (s : System) where
  delete_owned-Inv :
      Inv late s
      → Inv late (record { table = (delete_owned j s.table).0; held = drop_claim j s.held })
  unfolding delete_owned
  delete_owned-Inv v =
      delete-Inv (λ r. not (owned_by j r)) s (drop_claim j s.held) v (survivors-Distinct s _ v)
        (dropped_sub j s)

  fail_row-IsTouched :
      (text : Text) (r : Row)
      → Inv late s
      → Memᴰ j s.held
      → Memᴰ r s.table
      → j.max_attempts ≤ suc j.attempt
      → owned_by j r ≡ true
      → IsTouched late (drop_claim j s.held) r (fail_row (suc j.attempt) text r)
  unfolding is_failed
  fail_row-IsTouched text r v mj m last h =
      let agree = v.agrees j r mj m (owned_by-token j r h) in
      let count = (v.counted r m).retryable agree.pending in
      record {
        keeps_id = refl;
        counts = record {
          allowed = (v.counted r m).allowed;
          exhausted = λ e. (last_attempt agree.same_attempt agree.same_max count last).0;
          bounded = (last_attempt agree.same_attempt agree.same_max count last).1;
          retryable = λ e. cc;
        };
        owners = λ k mk e.
            absurd (dropped-ne j k s.held mk (same_token (sym (owned_by-token j r h) ∙ e)));
      }
    where
      last_attempt :
          {a m a' m' : ℕ}
          → a ≡ a'
          → m ≡ m'
          → a < m + late
          → m' ≤ suc a'
          → (m ≤ suc a') × (suc a' ≤ m + late)
      last_attempt p q lt le = (omega (arith, p, q, le), omega (arith, p, q, lt))

      same_token : {a b : Text} → some a ≡ some b → b ≡ a
      same_token e = cc

  fail_owned-Inv :
      (text : Text)
      → Inv late s
      → Memᴰ j s.held
      → j.max_attempts ≤ suc j.attempt
      → Inv late (record {
        table = (fail_owned (suc j.attempt) text j s.table).0;
        held = drop_claim j s.held;
      })
  unfolding fail_owned
  fail_owned-Inv text v mj last =
      update-Inv (owned_by j) (fail_row (suc j.attempt) text) s (drop_claim j s.held) v
        (survivors-Distinct s _ v) (survivors-agree s _ v)
        (λ r m h. fail_row-IsTouched text r v mj m last h)

  retry_row-IsTouched :
      (run_at : ℕ) (text : Text) (r : Row)
      → Inv late s
      → Memᴰ j s.held
      → Memᴰ r s.table
      → suc j.attempt < j.max_attempts
      → owned_by j r ≡ true
      → IsTouched late (drop_claim j s.held) r (retry_row (suc j.attempt) run_at text r)
  unfolding is_failed
  retry_row-IsTouched run_at text r v mj m more h =
      let agree = v.agrees j r mj m (owned_by-token j r h) in
      record {
        keeps_id = refl;
        counts = record {
          allowed = (v.counted r m).allowed;
          exhausted = λ e. cc;
          bounded = omega (arith, agree.same_max, more);
          retryable = λ e. omega (arith, agree.same_max, more);
        };
        owners = λ k mk e. cc;
      }

  retry_owned-Inv :
      (run_at : ℕ) (text : Text)
      → Inv late s
      → Memᴰ j s.held
      → suc j.attempt < j.max_attempts
      → Inv late (record {
        table = (retry_owned (suc j.attempt) run_at text j s.table).0;
        held = drop_claim j s.held;
      })
  unfolding retry_owned
  retry_owned-Inv run_at text v mj more =
      update-Inv (owned_by j) (retry_row (suc j.attempt) run_at text) s (drop_claim j s.held) v
        (survivors-Distinct s _ v) (survivors-agree s _ v)
        (λ r m h. retry_row-IsTouched run_at text r v mj m more h)

  pub Recorded-Inv :
      (e : Option ProcessError) (t : Table)
      → Inv late s
      → Memᴰ j s.held
      → Recorded j e s.table t
      → Inv late (record { table = t; held = drop_claim j s.held })
  Recorded-Inv e t v mj (Recorded.unchanged p) = Inv-of p refl (crash-Inv s _ v)
  Recorded-Inv e t v mj (Recorded.deleted _ p) = Inv-of p refl (delete_owned-Inv v)
  Recorded-Inv e t v mj (Recorded.failed_for_good text _ last p) =
      Inv-of p refl (fail_owned-Inv text v mj last)
  Recorded-Inv e t v mj (Recorded.put_back run_at text _ more p) =
      Inv-of p refl (retry_owned-Inv run_at text v mj more)
