-- ===== src/Jobs/System/Invariant.antt =====
-- The invariant of the jobs table and its claims, and two rules for showing that a statement keeps it.
use devengine.Common.{
  ℕ, ◌+◌, ◌≤◌, arith, ◌<◌, ◌≡◌, Bool, true, false, some, List, Memᴰ, keep_if, Memᴰ-keep_if,
  Distinct, Distinct-keep_if, Distinct-update, Origin, update-Origin, update_where,
}
use devengine.Jobs.Table.{Row, JobRow, is_failed}
use devengine.Jobs.System.{System}

-- A row that failed permanently has used up its attempts, and one that did not has some left; a
-- renewal that was late gives it one more.
pub record IsCounted (late : ℕ) (r : Row) : Type 0 where
  pub allowed : 0 < r.max_attempts
  pub exhausted : is_failed r ≡ true → r.max_attempts ≤ r.attempt
  pub bounded : r.attempt ≤ r.max_attempts + late
  pub retryable : is_failed r ≡ false → r.attempt < r.max_attempts + late

-- A claim that owns a row was made of that row as it is, and the row has not failed.
pub record Agrees (j : JobRow) (r : Row) : Type 0 where
  pub same_id : r.id ≡ j.id
  pub same_attempt : r.attempt ≡ j.attempt
  pub same_max : r.max_attempts ≡ j.max_attempts
  pub pending : is_failed r ≡ false

-- After that many late renewals.
pub record Inv (late : ℕ) (s : System) : Type 0 where
  pub ids : Distinct (λ r. r.id) s.table
  pub tokens : Distinct (λ j. j.claim_token) s.held
  pub agrees :
      (j : JobRow) (r : Row)
      → Memᴰ j s.held
      → Memᴰ r s.table
      → r.claim_token ≡ some j.claim_token
      → Agrees j r
  pub counted : (r : Row) → Memᴰ r s.table → IsCounted late r

IsCounted-mono : {late more : ℕ} → late ≤ more → (r : Row) → IsCounted late r → IsCounted more r
IsCounted-mono {late} {more} le r v = record {
  allowed = v.allowed;
  exhausted = v.exhausted;
  bounded = omega (arith, le, v.bounded);
  retryable = λ e. omega (arith, le, v.retryable e);
}

-- What a statement may make of a row, beside the claims that are held after it.
pub record IsTouched (late : ℕ) (held : List JobRow) (r new : Row) : Type 0 where
  pub keeps_id : new.id ≡ r.id
  pub counts : IsCounted late new
  pub owners : (j : JobRow) → Memᴰ j held → new.claim_token ≡ some j.claim_token → Agrees j new

-- An UPDATE keeps the invariant if each row that it changes is `IsTouched`; `late` counts the
-- renewals before it and `more` those with it.
pub update-Inv_grown :
    {late more : ℕ} (p : Row → Bool) (f : Row → Row) (s : System) (held : List JobRow)
    → late ≤ more
    → Inv late s
    → Distinct (λ j. j.claim_token) held
    → ((j : JobRow) (r : Row)
        → Memᴰ j held
        → Memᴰ r s.table
        → r.claim_token ≡ some j.claim_token
        → Agrees j r)
    → ((r : Row) → Memᴰ r s.table → p r ≡ true → IsTouched more held r (f r))
    → Inv more (record { table = update_where p f s.table; held = held })
update-Inv_grown {late} {more} p f s held le v d untouched touched = record {
  ids = Distinct-update p f (λ r. r.id) s.table (λ r m h. (touched r m h).keeps_id) v.ids;
  tokens = d;
  agrees = λ j new mj mr. agrees_of j new mj (update-Origin p f s.table mr);
  counted = λ new mr. counted_of new (update-Origin p f s.table mr);
}
  where
    agrees_of :
        (j : JobRow) (new : Row)
        → Memᴰ j held
        → Origin p f s.table new
        → new.claim_token ≡ some j.claim_token
        → Agrees j new
    agrees_of j new mj (Origin.changed r m h e) owns =
        rw e ((touched r m h).owners j mj (rw e at owns))
    agrees_of j new mj (Origin.kept m h) owns = untouched j new mj m owns

    counted_of : (new : Row) → Origin p f s.table new → IsCounted more new
    counted_of new (Origin.changed r m h e) = rw e (touched r m h).counts
    counted_of new (Origin.kept m h) = IsCounted-mono le new (v.counted new m)

pub update-Inv :
    {late : ℕ} (p : Row → Bool) (f : Row → Row) (s : System) (held : List JobRow)
    → Inv late s
    → Distinct (λ j. j.claim_token) held
    → ((j : JobRow) (r : Row)
        → Memᴰ j held
        → Memᴰ r s.table
        → r.claim_token ≡ some j.claim_token
        → Agrees j r)
    → ((r : Row) → Memᴰ r s.table → p r ≡ true → IsTouched late held r (f r))
    → Inv late (record { table = update_where p f s.table; held = held })
update-Inv {late} p f s held v d untouched touched =
    update-Inv_grown p f s held (omega arith) v d untouched touched

-- A DELETE keeps the invariant.
pub delete-Inv :
    {late : ℕ} (p : Row → Bool) (s : System) (held : List JobRow)
    → Inv late s
    → Distinct (λ j. j.claim_token) held
    → ((j : JobRow) → Memᴰ j held → Memᴰ j s.held)
    → Inv late (record { table = keep_if p s.table; held = held })
delete-Inv {late} p s held v d sub = record {
  ids = Distinct-keep_if (λ r. r.id) p s.table v.ids;
  tokens = d;
  agrees = λ j r mj mr. v.agrees j r (sub j mj) (Memᴰ-keep_if p s.table mr).0;
  counted = λ r mr. v.counted r (Memᴰ-keep_if p s.table mr).0;
}
