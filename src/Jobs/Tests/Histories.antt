-- ===== src/Jobs/Tests/Histories.antt =====
-- Short histories of the queue.
use devengine.Common.{
  ℕ, ◌+◌, ◌<◌, ◌≤◌, ◌≡◌, ◌≢◌, ◌⊎◌, refl, none, some, [], ◌∷◌, Memᴰ, Text, str, text_eq, any, arith,
  true, false, keep_if, count_if, lookup,
}
use devengine.Retry.Backoff.{backoff, delay, grow}
use devengine.Retry.Truncate.{truncate_utf8}
use devengine.Jobs.Table.{Row, token, is_failed, claim, owned_by, lease_row, retry_row, renew}
use devengine.Jobs.Config.{initial_backoff, batch_size, lease_duration}
use devengine.Jobs.Enqueue.{insert_row}
use devengine.Jobs.Registry.{new_registry}
use devengine.Jobs.System.Batch.{
  AllMeanwhile, leased, leased_system, Continues, process_batch-Continues,
}
use devengine.Jobs.Worker.{Turn, process_batch, retried, answered, record_outcome}
use devengine.Jobs.System.{System, IsNew, IsFresh, Step, Reach, count_late, late_renewals}
use devengine.Jobs.System.Invariant.{Inv}
use devengine.Jobs.System.Reachable.{
  Step-Inv, Reach-Inv, empty, empty-Inv, one_owner, attempts_bounded,
}
use devengine.Jobs.System.Delivery.{Stored, Ended, job_kept}
use devengine.Jobs.Tests.{row_b, nobody, leased_b, owner_of_b, b_is_owned}
use devengine.Jobs.Tests.Outcomes.{defaults, boom, least, handler_failed}

abbrev waiting : System
waiting = record { table = row_b ∷ []; held = [] }

abbrev working : System
working = record { table = leased_b ∷ []; held = owner_of_b ∷ [] }

abbrev put_back_b : Row
put_back_b = retry_row 1 500_070 (str "boom") leased_b

abbrev again : System
again = record { table = put_back_b ∷ []; held = [] }

row_b-IsNew : IsNew row_b
row_b-IsNew = record {
  unattempted = refl;
  some_attempts = omega arith;
  unlocked = refl;
  unclaimed = refl;
}

enqueued : Step boom least defaults empty waiting
unfolding insert_row any
enqueued = Step.enqueues none row_b row_b-IsNew refl refl

w-IsFresh : IsFresh (str "w") waiting
w-IsFresh = record { new_to_held = λ j id m. elim m [ ]; new_to_rows = unclaimed }
  where
    unclaimed :
        (r : Row) (id : Text) → Memᴰ r (row_b ∷ []) → r.claim_token ≢ some (token (str "w") id)
    unclaimed r id (Memᴰ.head p) e = cc
    unclaimed r id (Memᴰ.tail m) e = elim m [ ]

claimed : Step boom least defaults waiting working
unfolding claim text_eq
claimed = Step.claims 1 20 100 (str "w") nobody w-IsFresh refl refl

finished : Step boom least defaults working again
unfolding record_outcome text_eq lease_row owned_by backoff initial_backoff truncate_utf8 delay grow
    count_if keep_if
finished =
    Step.finishes 70 answered owner_of_b (some handler_failed) retried (Memᴰ.head refl) refl refl

abbrev to_working : Reach boom least defaults empty working
to_working = Reach.next (Reach.next Reach.here enqueued) claimed

abbrev to_again : Reach boom least defaults empty again
to_again = Reach.next to_working finished

job_kept_example :
    Stored (str "b") again.table
    ⊎ Ended boom least defaults (str "b") (Reach.next (Reach.next Reach.here claimed) finished)
job_kept_example =
    job_kept boom least defaults (Reach.next (Reach.next Reach.here claimed) finished) (str "b")
      (row_b, Memᴰ.head refl, refl)

one_owner_example : owner_of_b ≡ owner_of_b
one_owner_example =
    one_owner boom least defaults working to_working owner_of_b owner_of_b leased_b leased_b
      (Memᴰ.head refl) (Memᴰ.head refl) (Memᴰ.head refl) (Memᴰ.head refl) b_is_owned b_is_owned refl

-- A renewal that arrives after the outcome.
straggled : Step boom least defaults again again
unfolding renew owned_by text_eq lease_row
straggled = Step.renews_late 75 100 owner_of_b refl refl

abbrev to_straggled : Reach boom least defaults empty again
to_straggled = Reach.next to_again straggled

attempts_bounded_example :
    ((is_failed put_back_b ≡ true)
      × (put_back_b.max_attempts ≤ put_back_b.attempt)
      × (put_back_b.attempt
          ≤ put_back_b.max_attempts + late_renewals boom least defaults to_straggled))
    ⊎ ((is_failed put_back_b ≡ false)
        × (put_back_b.attempt
            < put_back_b.max_attempts + late_renewals boom least defaults to_straggled))
attempts_bounded_example =
    attempts_bounded boom least defaults again to_straggled put_back_b (Memᴰ.head refl)

working-Inv : Inv (late_renewals boom least defaults to_working) working
working-Inv = Reach-Inv boom least defaults empty-Inv to_working

Step-Inv_example :
    Inv
      (count_late boom least defaults straggled (late_renewals boom least defaults to_again))
      again
Step-Inv_example =
    Step-Inv boom least defaults (Reach-Inv boom least defaults empty-Inv to_again) straggled

-- The worker renews its claim while the handler runs.
abbrev renewing : ℕ → Turn
renewing n = record {
  meanwhile = λ rows. (renew 30 100 owner_of_b rows).0;
  now = 70;
  answer = answered;
}

abbrev hundred : ℕ → ℕ
hundred _ = 100

-- A poll that leases the waiting job, finds no handler for it and puts it back.
polled :
    process_batch boom least defaults hundred 20 answered
      (str "w")
      nobody
      renewing
      new_registry
      (row_b ∷ [])
    ≡ some (put_back_b ∷ [], retried ∷ [])
unfolding process_batch text_eq lease_row owned_by backoff initial_backoff truncate_utf8 delay grow
    count_if keep_if claim lookup new_registry renew
polled = refl

abbrev renewed : System
renewed = record {
  table =
      (renew 30 100 owner_of_b
        (leased_system boom least defaults renewing new_registry hundred 20 (str "w") nobody
          waiting).table).0;
  held = owner_of_b ∷ [];
}

renewing_meanwhile :
    AllMeanwhile boom least defaults renewing new_registry 0
      (leased boom least defaults renewing new_registry hundred 20 (str "w") nobody waiting).1
      (leased_system boom least defaults renewing new_registry hundred 20 (str "w") nobody waiting)
unfolding claim batch_size lease_duration text_eq
renewing_meanwhile = (
  renewed,
  Reach.next Reach.here (Step.renews 30 100 owner_of_b (Memᴰ.head refl) refl refl),
  refl,
  Memᴰ.head refl,
  λ next status e. tt,
)

process_batch-Continues_example :
    Continues boom least defaults renewing new_registry hundred 20
      (str "w")
      nobody
      waiting
      answered
      (put_back_b ∷ [])
      (retried ∷ [])
process_batch-Continues_example =
    process_batch-Continues boom least defaults renewing new_registry hundred 20 (str "w") nobody
      waiting answered (put_back_b ∷ []) (retried ∷ []) w-IsFresh renewing_meanwhile polled
