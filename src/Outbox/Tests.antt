-- ===== src/Outbox/Tests.antt =====
-- Runs of the outbox on small tables.
use devengine.Common.{
  ℕ, ◌<◌, ◌≡◌, ◌≢◌, ◌↔◌, ◌⊎◌, refl, Bool, true, false, Option, none, some, List, [], ◌∷◌, Memᴰ,
  Text, str, text_eq, arith, pos, Distinct, ok, lookup, any, keep_if, count_if, returned,
  text_eq-false, sym, ap, ◌∙◌,
}
use devengine.Retry.Backoff.{backoff, delay, grow}
use devengine.Retry.Truncate.{truncate_utf8}
use devengine.Events.{Event, Dynamic, Registry, by_value, handlers_for}
use devengine.Jobs.Worker.{answered}
use devengine.Outbox.Table.{
  Message, Outbox, OutboxRow, claim_messages, claimed_row, is_pending, processed_message,
  retried_message, claimed_by,
}
use devengine.Outbox.Table.Claim.{Takes, claim_messages-Takes, claims_apart}
use devengine.Outbox.Config.{
  RelayConfig, relay_lease_duration, relay_renewal_interval, relay_renewal_before_expiry,
  relay_initial_backoff,
}
use devengine.Outbox.Enqueue.{with_max_attempts, with_process_after, enqueue_event}
use devengine.Outbox.Enqueue.Laws.{
  PublicOption, nil_option, limited, delayed, Appended, enqueue_event-Appended,
}
use devengine.Outbox.Relay.{
  CallError, DeliveryError, claim_lost, retried, joined, handler_error, call_event_handler, deliver,
  record_delivery,
}
use devengine.Outbox.Relay.Delivery.{deliver_names}
use devengine.Outbox.Relay.Recorded.{stale_delivery}
use devengine.Outbox.System.{Relays, Step, Reach}
use devengine.Outbox.System.History.{Waits, Ended, event_kept}

abbrev message_at : Text → ℕ → Message
message_at id occurred_at = record {
  id = id;
  event_type = str "user";
  aggregate_id = [];
  aggregate_type = [];
  payload = str "{}";
  schema_version = pos 1;
  occurred_at = occurred_at;
  created_at = 1;
  attempt = 0;
  max_attempts = 2;
  process_after = 3;
  processed_at = none;
  failed_at = none;
  last_error = none;
  locked_until = none;
  claim_token = none;
}

abbrev one_message : Message
one_message = message_at (str "m") 2

abbrev nobody : Text → Bool
nobody _ = false

one-Distinct : (m : Message) → Distinct (λ (x : Message). x.id) (m ∷ [])
one-Distinct m = ((λ y k. elim k [ ]), tt)

abbrev row_m : OutboxRow
row_m = claimed_row (str "w") one_message

abbrev leased : Outbox
leased = (claim_messages 5 20 100 (str "w") nobody (one_message ∷ [])).0

first_take : (claim_messages 5 20 100 (str "w") nobody (one_message ∷ [])).1 ≡ row_m ∷ []
unfolding claim_messages text_eq
first_take = refl

claim_messages-Takes_example : Takes 20 100 (str "w") nobody (one_message ∷ []) leased row_m
claim_messages-Takes_example =
    claim_messages-Takes 5 20 100 (str "w") nobody (one_message ∷ []) row_m
      (one-Distinct one_message) (rw first_take (Memᴰ.head refl))

abbrev other_message : Message
other_message = message_at (str "n") 4

both : (claim_messages 1 20 100 (str "w") nobody (one_message ∷ other_message ∷ [])).1 ≡ row_m ∷ []
unfolding claim_messages text_eq
both = refl

later_take :
    (claim_messages 5 60 100
      (str "v")
      nobody
      (claim_messages 1 20 100 (str "w") nobody (one_message ∷ other_message ∷ [])).0).1
    ≡ claimed_row (str "v") other_message ∷ []
unfolding claim_messages text_eq
later_take = refl

two-Distinct : Distinct (λ (x : Message). x.id) (one_message ∷ other_message ∷ [])
unfolding text_eq
two-Distinct = (apart, ((λ y k. elim k [ ]), tt))
  where
    apart : (y : Message) → Memᴰ y (other_message ∷ []) → y.id ≢ str "m"
    apart y (Memᴰ.head p) e =
        text_eq-false (str "n") (str "m") refl (sym (ap (λ (x : Message). x.id) p) ∙ e)
    apart y (Memᴰ.tail k) e = elim k [ ]

claims_apart_example : str "m" ≢ str "n"
claims_apart_example =
    claims_apart 1 20 100 5 60 100 (str "w") (str "v") nobody nobody
      (one_message ∷ other_message ∷ []) row_m (claimed_row (str "v") other_message) two-Distinct
      (omega arith) (rw both (Memᴰ.head refl)) (rw later_take (Memᴰ.head refl))

abbrev done_message : Message
done_message = processed_message 9 other_message

third_take :
    (claim_messages 5 20 100 (str "w") nobody (one_message ∷ done_message ∷ [])).1 ≡ row_m ∷ []
unfolding claim_messages text_eq
third_take = refl

done-Distinct : Distinct (λ (x : Message). x.id) (one_message ∷ done_message ∷ [])
unfolding text_eq
done-Distinct = (apart, ((λ y k. elim k [ ]), tt))
  where
    apart : (y : Message) → Memᴰ y (done_message ∷ []) → y.id ≢ str "m"
    apart y (Memᴰ.head p) e =
        text_eq-false (str "n") (str "m") refl (sym (ap (λ (x : Message). x.id) p) ∙ e)
    apart y (Memᴰ.tail k) e = elim k [ ]

abbrev relay_defaults : RelayConfig
relay_defaults = record {
  batch_size = pos 0;
  poll_interval = pos 0;
  initial_backoff = pos 0;
  lease_duration = pos 10;
  lease_renewal_interval = pos 10;
}

relay_renewal_before_expiry_example :
    (0 < relay_renewal_interval relay_defaults)
    × (relay_renewal_interval relay_defaults < relay_lease_duration relay_defaults)
unfolding relay_lease_duration
relay_renewal_before_expiry_example = relay_renewal_before_expiry relay_defaults (omega arith)

abbrev event_m : Event
event_m = record {
  id = str "m";
  event_type = str "user";
  aggregate_id = [];
  aggregate_type = [];
  payload = str "{}";
  occurred_at = 2;
  schema_version = pos 1;
}

abbrev options : List PublicOption
options = nil_option ∷ limited (pos 2) ∷ delayed (some 9) ∷ []

enqueue_event-Appended_example :
    Appended (λ t. ok t) 7 1 options event_m [] (record one_message { process_after = 9 } ∷ [])
unfolding enqueue_event with_max_attempts with_process_after
enqueue_event-Appended_example =
    enqueue_event-Appended (λ t. ok t) 7 1 none event_m options []
      (record one_message { process_after = 9 } ∷ []) refl

abbrev handler_of : ℕ → Option Text → Dynamic
handler_of code answer = by_value (record {
  event_type = str "user";
  handle_f = some (record { code = code; call = λ _. returned answer });
})

abbrev good_and_bad : Registry
good_and_bad = record {
  handlers = (str "user", handler_of 1 (some (str "boom")) ∷ handler_of 2 none ∷ []) ∷ [];
  frozen = true;
}

abbrev boom_error : Dynamic × CallError
boom_error = (handler_of 1 (some (str "boom")), handler_error (str "boom"))

one_fails : deliver (some good_and_bad) event_m ≡ some (joined (boom_error ∷ []))
unfolding deliver lookup text_eq
one_fails = refl

deliver_names_example : Memᴰ boom_error (boom_error ∷ []) ↔ (
    Memᴰ (handler_of 1 (some (str "boom"))) (handlers_for good_and_bad (str "user"))
    × (call_event_handler (handler_of 1 (some (str "boom"))) event_m
        ≡ some (handler_error (str "boom"))))
deliver_names_example =
    deliver_names event_m good_and_bad (boom_error ∷ []) one_fails
      (handler_of 1 (some (str "boom"))) (handler_error (str "boom"))

abbrev boom : DeliveryError → Text
boom _ = str "boom"

abbrev least : ℕ → ℕ
least _ = 0

abbrev boom_delivery : DeliveryError
boom_delivery = joined (boom_error ∷ [])

abbrev put_back : Message
put_back = retried_message 1 500_070 (str "boom") (record one_message {
  process_after = 120;
  locked_until = some 120;
  claim_token = some (str "w:m");
})

retries :
    record_delivery boom least relay_defaults 70 answered row_m (some boom_delivery) leased
    ≡ some (put_back ∷ [], retried)
unfolding record_delivery text_eq claim_messages backoff delay grow truncate_utf8
    relay_initial_backoff any keep_if count_if
retries = refl

stale_delivery_example : (other_message ∷ [] ≡ other_message ∷ []) × (claim_lost ≡ claim_lost)
unfolding record_delivery claimed_by any text_eq keep_if count_if
stale_delivery_example =
    stale_delivery boom least relay_defaults 70 row_m (other_message ∷ []) (other_message ∷ [])
      claim_lost none refl refl

abbrev before : Relays
before = record { outbox = one_message ∷ []; held = [] }

abbrev during : Relays
during = record { outbox = leased; held = row_m ∷ [] }

abbrev after : Relays
after = record { outbox = put_back ∷ []; held = [] }

takes : Step boom least relay_defaults before during
takes = Step.claims 5 20 100 (str "w") nobody refl (rw first_take refl)

ends : Step boom least relay_defaults during after
unfolding keep_if text_eq
ends = Step.finishes 70 answered row_m (some boom_delivery) retried (Memᴰ.head refl) retries refl

event_kept_example :
    Waits (str "m") after.outbox
    ⊎ Ended boom least relay_defaults (str "m") (Reach.next (Reach.next Reach.here takes) ends)
unfolding is_pending
event_kept_example =
    event_kept boom least relay_defaults (Reach.next (Reach.next Reach.here takes) ends) (str "m")
      (one_message, Memᴰ.head refl, refl, refl)
