-- ===== src/Outbox/Relay.antt =====
-- The relay of outbox/outbox.go: one poll claims a batch, calls every handler of each event, and
-- records how each delivery ended.
pub mod Delivery
pub mod Recorded
use devengine.Common.{
  ℕ, suc, Bool, Option, none, some, List, [], ◌∷◌, ◌++◌, map, Text, leb, ◌==◌, if◌then◌else◌,
  returned, panicked,
}
use devengine.Retry.Backoff.{backoff}
use devengine.Retry.Truncate.{truncate_utf8}
use devengine.Events.{Event, Dynamic, Registry, handle, handlers_for}
use devengine.Jobs.Worker.{Answer, answered, refused, lost, after_delay}
use devengine.Outbox.Table.{
  Message, Outbox, OutboxRow, processed_message, failed_message, retried_message, claim_messages,
  update_claimed,
}
use devengine.Outbox.Config.{
  RelayConfig, relay_batch_size, relay_initial_backoff, relay_lease_duration,
}

-- The errors of a delivery; `handler_error` and `handler_panic` hold the text of what the handler
-- returned or threw.
pub data CallError : Type 0 where
  handler_error handler_panic : Text → CallError

-- `joined` holds the errors of the handlers that failed, in order.
pub data DeliveryError : Type 0 where
  no_registry : DeliveryError
  no_handlers : Text → DeliveryError
  joined : List (Dynamic × CallError) → DeliveryError

-- `callEventHandler`, with its recover.
unfoldable pub call_event_handler : Dynamic → Event → Option CallError
unfolding handle
call_event_handler d e = elim (handle (some d) e) [
  | returned r ↦ elim r [ none ↦ none | some t ↦ some (handler_error t) ]
  | panicked t ↦ some (handler_panic t)
]

-- The loop over the handlers: every one is called.
unfoldable pub call_handlers : List Dynamic → Event → List (Dynamic × CallError)
unfolding call_event_handler
call_handlers [] e = []
call_handlers (d ∷ ds) e =
    let rest = call_handlers ds e in
    elim (call_event_handler d e) [ none ↦ rest | some x ↦ (d, x) ∷ rest ]

-- `errors.Join`, which is nil for no errors.
abbrev pub join_errors : List (Dynamic × CallError) → Option DeliveryError
join_errors [] = none
join_errors (x ∷ xs) = some (joined (x ∷ xs))

-- `none` is a nil registry.
unfoldable pub deliver : Option Registry → Event → Option DeliveryError
unfolding handlers_for call_handlers
deliver none e = some no_registry
deliver (some r) e = elim (handlers_for r e.event_type) [
  | [] ↦ some (no_handlers e.event_type)
  | d ∷ ds ↦ join_errors (call_handlers (d ∷ ds) e)
]

abbrev pub event_of : OutboxRow → Event
event_of o = record {
  id = o.id;
  event_type = o.event_type;
  aggregate_id = o.aggregate_id;
  aggregate_type = o.aggregate_type;
  payload = o.payload;
  occurred_at = o.occurred_at;
  schema_version = o.schema_version;
}

-- The "status" with which an event is counted; `not_recorded` is the logged error of the statement.
pub data RelayStatus : Type 0 where
  delivered failed retried claim_lost not_recorded : RelayStatus

abbrev pub settle_outcome : Answer → RelayStatus → Outbox → Outbox × ℕ → Outbox × RelayStatus
settle_outcome answered status old (new, n) = (new, if n == 1 then status else claim_lost)
settle_outcome refused status old (new, n) = (old, not_recorded)
settle_outcome lost status old (new, n) = (new, not_recorded)

-- What happens around one message of a batch: what other sessions and the renewals did to the table
-- while its handlers ran, the time of the outcome's statement, and its answer.
pub record Attempt : Type 0 where
  pub meanwhile : Outbox → Outbox
  pub now : ℕ
  pub answer : Answer

module _ (message : DeliveryError → Text) (draw : ℕ → ℕ) (c : RelayConfig) where
  -- The part of `processBatch` behind a delivery. `none` is a panic of `backoff`.
  unfoldable pub record_delivery :
      ℕ → Answer → OutboxRow → Option DeliveryError → Outbox → Option (Outbox × RelayStatus)
  unfolding backoff truncate_utf8 update_claimed relay_initial_backoff
  record_delivery now answer o none ms =
      some (settle_outcome answer delivered ms (update_claimed (processed_message now) o ms))
  record_delivery now answer o (some e) ms =
      let attempt = suc o.attempt in
      let text = truncate_utf8 (message e) 1024 in
      if leb o.max_attempts attempt
      then some
          (settle_outcome answer failed ms (update_claimed (failed_message now attempt text) o ms))
      else elim (backoff draw (relay_initial_backoff c) attempt) [
        | none ↦ none
        | some delay ↦ some (
            settle_outcome answer retried ms
              (update_claimed (retried_message attempt (after_delay now delay) text) o ms))
      ]

  unfoldable pub process_messages :
      (ℕ → Attempt)
      → ℕ
      → Option Registry
      → List OutboxRow
      → Outbox
      → Option (Outbox × List RelayStatus)
  unfolding record_delivery deliver
  process_messages turns i registry [] ms = some (ms, [])
  process_messages turns i registry (o ∷ rows) ms =
      let turn = turns i in
      elim (record_delivery turn.now turn.answer o (deliver registry (event_of o))
        (turn.meanwhile ms)) [
          | none ↦ none
          | some (next, status) ↦ elim (process_messages turns (suc i) registry rows next) [
            | none ↦ none
            | some (last, statuses) ↦ some (last, status ∷ statuses)
          ]
        ]

  -- How the claim's statement ends: it fails, its rows do not all arrive, or it answers.
  unfoldable pub relay_batch :
      (ℕ → ℕ)
      → ℕ
      → Answer
      → Text
      → (Text → Bool)
      → (ℕ → Attempt)
      → Option Registry
      → Outbox
      → Option (Outbox × List RelayStatus)
  unfolding process_messages claim_messages relay_batch_size relay_lease_duration
  relay_batch interval now answer prefix busy turns registry ms =
      let (leased, rows) =
        claim_messages (relay_batch_size c) now (interval (relay_lease_duration c)) prefix busy
          ms in
      elim answer [
        | refused ↦ some (ms, [])
        | lost ↦ some (leased, [])
        | answered ↦ process_messages turns 0 registry rows leased
      ]
