-- ===== src/Jobs/System.antt =====
-- The jobs table with all the workers that use it: their claims, and every step that changes either.
pub mod Invariant
pub mod Claims
pub mod Steps
pub mod Admin
pub mod Reachable
pub mod Delivery
pub mod Batch
use devengine.Common.{
  ℕ, suc, ◌<◌, ◌≡◌, ◌≢◌, ◌++◌, Bool, not, Option, none, some, List, Memᴰ, Text, text_eq, keep_if,
  ok,
}
use devengine.Jobs.Table.{Row, Table, JobRow, token, claim, renew}
use devengine.Jobs.Config.{WorkerConfig}
use devengine.Jobs.Enqueue.{insert_row}
use devengine.Jobs.Repository.{requeue_failed, discard_failed}
use devengine.Jobs.Worker.{ProcessError, Status, Answer, record_outcome}

-- `held` has the claims that some worker still works on.
pub record System : Type 0 where
  pub table : Table
  pub held : List JobRow

-- A row as `Enqueue` makes it.
pub record IsNew (r : Row) : Type 0 where
  pub unattempted : r.attempt ≡ 0
  pub some_attempts : 0 < r.max_attempts
  pub unlocked : r.locked_until ≡ none
  pub unclaimed : r.claim_token ≡ none

-- No token that is in use begins with the prefix: the claim's UUIDv7 is new.
pub record IsFresh (prefix : Text) (s : System) : Type 0 where
  pub new_to_held : (j : JobRow) (id : Text) → Memᴰ j s.held → j.claim_token ≢ token prefix id
  pub new_to_rows : (r : Row) (id : Text) → Memᴰ r s.table → r.claim_token ≢ some (token prefix id)

abbrev pub drop_claim : JobRow → List JobRow → List JobRow
drop_claim j = keep_if (λ k. not (text_eq k.claim_token j.claim_token))

module _ (message : ProcessError → Text) (draw : ℕ → ℕ) (c : WorkerConfig) where
  pub data Step (s u : System) : Type 0 where
    enqueues :
        (refusal : Option Text) (r : Row)
        → IsNew r
        → insert_row refusal r s.table ≡ ok u.table
        → u.held ≡ s.held
        → Step s u
    claims :
        (batch now lease : ℕ) (prefix : Text) (busy : Text → Bool)
        → IsFresh prefix s
        → u.table ≡ (claim batch now lease prefix busy s.table).0
        → u.held ≡ s.held ++ (claim batch now lease prefix busy s.table).1
        → Step s u
    renews :
        (now lease : ℕ) (j : JobRow)
        → Memᴰ j s.held
        → u.table ≡ (renew now lease j s.table).0
        → u.held ≡ s.held
        → Step s u
    -- A renewal that reaches the server when its worker no longer works on the claim.
    renews_late :
        (now lease : ℕ) (j : JobRow)
        → u.table ≡ (renew now lease j s.table).0
        → u.held ≡ s.held
        → Step s u
    finishes :
        (now : ℕ) (answer : Answer) (j : JobRow) (e : Option ProcessError) (status : Status)
        → Memᴰ j s.held
        → record_outcome message draw c now answer j e s.table ≡ some (u.table, status)
        → u.held ≡ drop_claim j s.held
        → Step s u
    -- A worker dies with its claims.
    crashes :
        (survives : JobRow → Bool) → u.table ≡ s.table → u.held ≡ keep_if survives s.held → Step s u
    requeues :
        (pool : Bool) (fault : Option Text) (clock : ℕ) (id : Text) (run_at : Option ℕ)
        → requeue_failed pool fault clock id run_at s.table ≡ ok u.table
        → u.held ≡ s.held
        → Step s u
    discards :
        (pool : Bool) (fault : Option Text) (id : Text)
        → discard_failed pool fault id s.table ≡ ok u.table
        → u.held ≡ s.held
        → Step s u

  pub data Reach (s : System) : System → Type 0 where
    here : Reach s s
    next : {t u : System} → Reach s t → Step t u → Reach s u

  -- The number of late renewals with a step, and of a history.
  unfoldable pub count_late : {s u : System} → Step s u → ℕ → ℕ
  count_late (Step.renews_late now lease j p q) n = suc n
  count_late step n = n

  unfoldable pub late_renewals : {s u : System} → Reach s u → ℕ
  unfolding count_late
  late_renewals Reach.here = 0
  late_renewals (Reach.next path step) = count_late step (late_renewals path)
