-- ===== src/Outbox/Enqueue.antt =====
-- `Enqueue` of outbox/outbox.go and its options.
pub mod Laws
use devengine.Common.{
  Bool-cases, inl, inr, ℕ, ℤ, pos, negsuc, ◌<◌, ◌≡◌, ◌++◌, refl, List, [], ◌∷◌, Option, none, some,
  Text, ltb, if◌then◌else◌, any, Bool, false, Result, ok, err, arith, ◌>>=◌,
}
use devengine.Events.{Event}
use devengine.Outbox.Table.{Message, Outbox, has_message_id}

-- The type is private to the package, whose options keep the limit positive.
pub record EnqueueConfig : Type 0 where
  pub max_attempts : ℕ
  pub process_after : ℕ

pub data EnqueueError : Type 0 where
  max_attempts_not_positive process_after_zero duplicate_id : EnqueueError
  option_failed marshal_failed exec_failed : Text → EnqueueError

abbrev pub EnqueueOption : Type 0
EnqueueOption = EnqueueConfig → Result EnqueueError EnqueueConfig

unfoldable pub with_max_attempts : ℤ → EnqueueOption
with_max_attempts (pos n) config =
    if ltb 0 n then ok (record config { max_attempts = n }) else err max_attempts_not_positive
with_max_attempts (negsuc n) config = err max_attempts_not_positive

-- `none` is the zero time.
unfoldable pub with_process_after : Option ℕ → EnqueueOption
with_process_after none config = err process_after_zero
with_process_after (some t) config = ok (record config { process_after = t })

-- The loop over the options, of which a nil one is skipped.
unfoldable pub apply_options :
    List (Option EnqueueOption) → EnqueueConfig → Result EnqueueError EnqueueConfig
apply_options [] config = ok config
apply_options (none ∷ options) config = apply_options options config
apply_options (some option ∷ options) config = elim (option config) [
  | err e ↦ err e
  | ok next ↦ apply_options options next
]

unfoldable pub message_of : EnqueueConfig → ℕ → Event → Text → Message
message_of config now event payload = record {
  id = event.id;
  event_type = event.event_type;
  aggregate_id = event.aggregate_id;
  aggregate_type = event.aggregate_type;
  payload = payload;
  schema_version = event.schema_version;
  occurred_at = event.occurred_at;
  created_at = now;
  attempt = 0;
  max_attempts = config.max_attempts;
  process_after = config.process_after;
  processed_at = none;
  failed_at = none;
  last_error = none;
  locked_until = none;
  claim_token = none;
}

-- `INSERT INTO outbox_messages`, whose primary key is `id`. `refusal` is any other error with
-- which the driver or the server answers.
unfoldable pub insert_message : Option Text → Message → Outbox → Result EnqueueError Outbox
unfolding has_message_id any
insert_message (some e) m ms = err (exec_failed e)
insert_message none m ms =
    if any (has_message_id m.id) ms then err duplicate_id else ok (ms ++ m ∷ [])

-- `json.Marshal` of the payload: its text or an error.
module _ (marshal : Text → Result Text Text) where
  unfoldable pub marshal_payload : Text → Result EnqueueError Text
  marshal_payload p = elim (marshal p) [ ok t ↦ ok t | err e ↦ err (marshal_failed e) ]

  -- `clock` is `time.Now()`, `now` the database's CURRENT_TIMESTAMP.
  unfoldable pub enqueue_event :
      ℕ
      → ℕ
      → Option Text
      → Event
      → List (Option EnqueueOption)
      → Outbox
      → Result EnqueueError Outbox
  unfolding apply_options marshal_payload message_of insert_message
  enqueue_event clock now refusal event options ms = do
    config ← apply_options options (record { max_attempts = 5; process_after = clock })
    payload ← marshal_payload event.payload
    insert_message refusal (message_of config now event payload) ms
