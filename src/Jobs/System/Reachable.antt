-- ===== src/Jobs/System/Reachable.antt =====
-- What holds after any steps of any workers and administrators, in any order.
use devengine.Common.{
  ℕ, ◌+◌, ◌≤◌, ◌<◌, ◌≡◌, ◌⊎◌, refl, sym, ap, ◌∙◌, true, false, [], Memᴰ, Text, Bool-cases, inl, inr,
  Distinct-unique, some_eq,
}
use devengine.Jobs.Table.{Row, JobRow, is_failed, owned_by}
use devengine.Jobs.Table.Owner.{owned_by-token}
use devengine.Jobs.Config.{WorkerConfig}
use devengine.Jobs.Worker.{ProcessError}
use devengine.Jobs.Worker.Recorded.{outcome-Recorded}
use devengine.Jobs.System.{System, Step, Reach, count_late, late_renewals}
use devengine.Jobs.System.Invariant.{Inv}
use devengine.Jobs.System.Claims.{claim-Inv}
use devengine.Jobs.System.Steps.{Inv-of, crash-Inv, renew-Inv, renew_late-Inv, Recorded-Inv}
use devengine.Jobs.System.Admin.{
  enqueue-Inv, requeue-Inv, discard-Inv, requeue_failed-ok, discard_failed-ok,
}

module _ (message : ProcessError → Text) (draw : ℕ → ℕ) (c : WorkerConfig) where
  -- Every step keeps the invariant, a late renewal too: ids are distinct; tokens of live claims are
  -- distinct; a claim that owns a row was made of that row's id, attempt and limit, and the row has
  -- not failed; a row that failed permanently has used up its attempts, and one that did not has
  -- some left, where each late renewal gives one more.
  pub Step-Inv :
      {n : ℕ} {s u : System}
      → Inv n s
      → (step : Step message draw c s u) → Inv (count_late message draw c step n) u
  unfolding count_late
  Step-Inv {n} {s} v (Step.enqueues refusal r new p q) =
      Inv-of refl q (enqueue-Inv refusal r s _ v new p)
  Step-Inv {n} {s} v (Step.claims batch now lease prefix busy f p q) =
      Inv-of p q (claim-Inv batch now lease prefix busy s v f)
  Step-Inv {n} {s} v (Step.renews now lease j m p q) = Inv-of p q (renew-Inv now lease j s v m)
  Step-Inv {n} {s} v (Step.renews_late now lease j p q) =
      Inv-of p q (renew_late-Inv now lease j s v)
  Step-Inv {n} {s} {u} v (Step.finishes now answer j e status m p q) = Inv-of refl q (
      Recorded-Inv j s e u.table v m
        (outcome-Recorded message draw c now answer j s.table u.table status e p))
  Step-Inv {n} {s} v (Step.crashes keep p q) = Inv-of p q (crash-Inv s keep v)
  Step-Inv {n} {s} {u} v (Step.requeues pool fault clock id at p q) =
      Inv-of (requeue_failed-ok pool fault clock id at s.table u.table p) q (requeue-Inv _ id s v)
  Step-Inv {n} {s} {u} v (Step.discards pool fault id p q) =
      Inv-of (discard_failed-ok pool fault id s.table u.table p) q (discard-Inv id s v)

  pub Reach-Inv :
      {s u : System}
      → Inv 0 s
      → (path : Reach message draw c s u) → Inv (late_renewals message draw c path) u
  unfolding late_renewals
  Reach-Inv v Reach.here = v
  Reach-Inv v (Reach.next path step) = Step-Inv (Reach-Inv v path) step

abbrev pub empty : System
empty = record { table = []; held = [] }

pub empty-Inv : Inv 0 empty
empty-Inv = record {
  ids = tt;
  tokens = tt;
  agrees = λ j r mj mr e. elim mj [ ];
  counted = λ r mr. elim mr [ ];
}

module _ (message : ProcessError → Text) (draw : ℕ → ℕ) (c : WorkerConfig) where
  -- After any history that starts with an empty table, two live claims that own rows of one id are
  -- the same claim.
  pub one_owner :
      (s : System)
      → Reach message draw c empty s
      → (j k : JobRow) (r q : Row) → Memᴰ j s.held
      → Memᴰ k s.held
      → Memᴰ r s.table
      → Memᴰ q s.table
      → owned_by j r ≡ true
      → owned_by k q ≡ true
      → r.id ≡ q.id
      → j ≡ k
  one_owner s path j k r q mj mk mr mq oj ok_q e =
      let v = Reach-Inv message draw c empty-Inv path in
      let same : r ≡ q = Distinct-unique (λ x. x.id) s.table v.ids mr mq e in
      Distinct-unique (λ x. x.claim_token) s.held v.tokens mj mk
        (some_eq (
          sym (owned_by-token j r oj)
          ∙ ap (λ (x : Row). x.claim_token) same
          ∙ owned_by-token k q ok_q))

  -- After any history that starts with an empty table, late renewals included: a job that failed
  -- permanently has reached its limit of attempts and exceeds it by the number of late renewals at
  -- most, and a job that did not fail is below the limit and that number together. So when no
  -- renewal was late, attempts never exceed the limit, and reach it exactly when the job has
  -- failed.
  pub attempts_bounded :
      (s : System) (path : Reach message draw c empty s) (r : Row)
      → Memᴰ r s.table
      → ((is_failed r ≡ true)
          × (r.max_attempts ≤ r.attempt)
          × (r.attempt ≤ r.max_attempts + late_renewals message draw c path))
        ⊎ ((is_failed r ≡ false) × (r.attempt < r.max_attempts + late_renewals message draw c path))
  attempts_bounded s path r m =
      let v = (Reach-Inv message draw c empty-Inv path).counted r m in
      elim (Bool-cases (is_failed r)) [
        | inl e ↦ inl (e, v.exhausted e, v.bounded)
        | inr e ↦ inr (e, v.retryable e)
      ]
