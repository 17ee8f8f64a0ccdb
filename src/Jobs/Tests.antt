-- ===== src/Jobs/Tests.antt =====
-- Runs of the job queue on small tables.
pub mod Outcomes
pub mod Histories
pub mod Services
use devengine.Common.{
  ℕ, ◌+◌, ◌≤◌, ◌<◌, ◌≡◌, ◌≢◌, ◌⊎◌, refl, ap, Bool, true, false, Option, none, some, List, [], ◌∷◌,
  Memᴰ, Text, str, arith, Distinct, ℤ, pos, length, Result, ok, err, lookup, min, positive_or, any,
  text_eq, text_eq-false, sym, leb, ◌&&◌, ◌∙◌,
}
use devengine.Jobs.Table.{
  Row, Table, JobRow, finite, returned, lease_row, renew_row, claim, select_claimable, is_claimable,
  is_failed, is_locked, owned_by, renew, fail_row, fail_owned,
}
use devengine.Jobs.Table.Order.{CutOff}
use devengine.Jobs.Table.Claim.{Leases, claim-Leases, claim_oldest, claim-le_batch, claim-claim}
use devengine.Jobs.Table.Renew.{renew_in_time, renew_expired, late_renewal}
use devengine.Jobs.Config.{WorkerConfig, lease_duration, lease_renewal_interval}
use devengine.Jobs.Config.Ranges.{renewal_before_expiry}
use devengine.Jobs.Registry.Laws.{Sets, register_accepts, replace_accepts, register-replace}
use devengine.Jobs.Enqueue.{Job, enqueue, or_now, insert_row}
use devengine.Jobs.Enqueue.Laws.{Accepted, enqueue_accepts}
use devengine.Jobs.Repository.{
  FailedJob, failed_job_not_found, list_failed, count_failed, get_failed, requeue_failed,
  discard_failed, is_failed_job,
}
use devengine.Jobs.Repository.Laws.{list-count, requeue_failed-resets, not_failed-not_found}

abbrev pub row_at : Text → ℕ → Row
row_at id run_at = record {
  id = id;
  name = str "mail";
  payload = str "{}";
  run_at = run_at;
  attempt = 0;
  max_attempts = 2;
  last_error = none;
  locked_until = none;
  claim_token = none;
  created_at = 1;
}

abbrev pub row_a : Row
row_a = row_at (str "a") 10

abbrev pub row_b : Row
row_b = row_at (str "b") 5

abbrev pub two_rows : Table
two_rows = row_a ∷ row_b ∷ []

abbrev pub nobody : Text → Bool
nobody _ = false

pub two_rows-Distinct : Distinct (λ (r : Row). r.id) two_rows
unfolding text_eq
two_rows-Distinct = (apart, ((λ y m. elim m [ ]), tt))
  where
    apart : (y : Row) → Memᴰ y (row_b ∷ []) → y.id ≢ str "a"
    apart y (Memᴰ.head p) e =
        text_eq-false (str "b") (str "a") refl (sym (ap (λ (x : Row). x.id) p) ∙ e)
    apart y (Memᴰ.tail m) e = elim m [ ]

abbrev pub claim_of : Text → Row → JobRow
claim_of prefix r = returned prefix r

-- One claim of at most one job at time 20, which is for 100.
abbrev pub leased_table : Table
leased_table = (claim 1 20 100 (str "w") nobody two_rows).0

first_claim : (claim 1 20 100 (str "w") nobody two_rows).1 ≡ returned (str "w") row_b ∷ []
unfolding claim text_eq
first_claim = refl

second_claim : (claim 5 60 100 (str "v") nobody leased_table).1 ≡ returned (str "v") row_a ∷ []
unfolding claim text_eq
second_claim = refl

b_is_claimed : Memᴰ (returned (str "w") row_b) (claim 1 20 100 (str "w") nobody two_rows).1
b_is_claimed = rw first_claim (Memᴰ.head refl)

a_is_claimed : Memᴰ (returned (str "v") row_a) (claim 5 60 100 (str "v") nobody leased_table).1
a_is_claimed = rw second_claim (Memᴰ.head refl)

claim_oldest_example :
    Memᴰ (returned (str "w") row_a) (claim 1 20 100 (str "w") nobody two_rows).1
    ⊎ CutOff 1 row_a (select_claimable 1 20 nobody two_rows)
unfolding is_claimable
claim_oldest_example =
    claim_oldest 1 20 100 (str "w") nobody two_rows row_a (Memᴰ.head refl) refl refl

claim-claim_example : str "b" ≢ str "a"
claim-claim_example =
    claim-claim 1 20 100 5 60 100 (str "w") (str "v") nobody nobody two_rows
      (returned (str "w") row_b) (returned (str "v") row_a) two_rows-Distinct (omega arith)
      b_is_claimed a_is_claimed

abbrev pub leased_b : Row
leased_b = lease_row 20 100 (str "w") row_b

abbrev pub owner_of_b : JobRow
owner_of_b = returned (str "w") row_b

pub one_row-Distinct : (r : Row) → Distinct (λ (x : Row). x.id) (r ∷ [])
one_row-Distinct r = ((λ y m. elim m [ ]), tt)

pub b_is_owned : owned_by owner_of_b leased_b ≡ true
unfolding owned_by lease_row text_eq
b_is_owned = refl

late_renewal_example :
    (q : Row) × Memᴰ q
      (renew 90 100 owner_of_b (fail_owned 2 (str "e") owner_of_b (leased_b ∷ [])).0).0
    × (q.id ≡ leased_b.id)
    × (is_failed q ≡ false)
    × ((later : ℕ) → is_claimable later q ≡ (leb leased_b.run_at later && leb 190 later))
late_renewal_example =
    late_renewal 90 100 2 (str "e") owner_of_b (leased_b ∷ []) leased_b (Memᴰ.head refl) b_is_owned
