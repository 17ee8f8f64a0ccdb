-- ===== src/Outbox/Table.antt =====
-- The table outbox_messages (the constant `Schema` of outbox/outbox.go) and the SQL statements of the
-- relay, as functions on the list of its rows. Times are whole microseconds of the database clock.
pub mod Select
pub mod Claim
use devengine.Common.{
  ℕ, ◌+◌, ℤ, Bool, true, false, ◌&&◌, not, Option, none, some, List, [], ◌∷◌, map, Text, text_eq,
  leb, ltb, if◌then◌else◌, keep_if, count_if, any, take, update_where,
}
use devengine.Jobs.Table.{token}

pub record Message : Type 0 where
  pub id : Text
  pub event_type : Text
  pub aggregate_id : Text
  pub aggregate_type : Text
  pub payload : Text
  pub schema_version : ℤ
  pub occurred_at : ℕ
  pub created_at : ℕ
  pub attempt : ℕ
  pub max_attempts : ℕ
  pub process_after : ℕ
  pub processed_at : Option ℕ
  pub failed_at : Option ℕ
  pub last_error : Option Text
  pub locked_until : Option ℕ
  pub claim_token : Option Text

abbrev pub Outbox : Type 0
Outbox = List Message

-- What a claim returns to the relay.
pub record OutboxRow : Type 0 where
  pub id : Text
  pub event_type : Text
  pub aggregate_id : Text
  pub aggregate_type : Text
  pub payload : Text
  pub schema_version : ℤ
  pub occurred_at : ℕ
  pub attempt : ℕ
  pub max_attempts : ℕ
  pub claim_token : Text

abbrev pub is_null {ℓ} : {A : Type ℓ} → Option A → Bool
is_null none = true
is_null (some _) = false

-- `processed_at IS NULL AND failed_at IS NULL`
unfoldable pub is_pending : Message → Bool
is_pending m = is_null m.processed_at && is_null m.failed_at

-- `locked_until > NOW()`
unfoldable pub is_leased : ℕ → Message → Bool
is_leased now m = elim m.locked_until [ none ↦ false | some t ↦ ltb now t ]

unfoldable pub has_message_id : Text → Message → Bool
has_message_id id m = text_eq m.id id

-- `WHERE id = $1 AND claim_token = $2`
unfoldable pub claimed_by : OutboxRow → Message → Bool
unfolding has_message_id
claimed_by o m =
    has_message_id o.id m && elim m.claim_token [ none ↦ false | some t ↦ text_eq t o.claim_token ]

-- The claim's subselect.
unfoldable pub is_deliverable : ℕ → Message → Bool
unfolding is_pending is_leased
is_deliverable now m = is_pending m && (leb m.process_after now && not (is_leased now m))

-- `ORDER BY occurred_at`: messages of one time keep the table's order.
unfoldable pub insert_by_occurred : Message → List Message → List Message
insert_by_occurred m [] = m ∷ []
insert_by_occurred m (n ∷ ms) =
    if leb m.occurred_at n.occurred_at then m ∷ n ∷ ms else n ∷ insert_by_occurred m ms

unfoldable pub sort_by_occurred : List Message → List Message
unfolding insert_by_occurred
sort_by_occurred [] = []
sort_by_occurred (m ∷ ms) = insert_by_occurred m (sort_by_occurred ms)

-- `LIMIT $1 FOR UPDATE SKIP LOCKED`; `busy` tells the rows that another transaction holds.
unfoldable pub select_deliverable : ℕ → ℕ → (Text → Bool) → Outbox → List Message
unfolding is_deliverable sort_by_occurred keep_if
select_deliverable batch now busy ms =
    take batch (sort_by_occurred (keep_if (λ m. is_deliverable now m && not (busy m.id)) ms))

unfoldable pub picks : List Message → Message → Bool
unfolding has_message_id any
picks chosen m = any (λ c. has_message_id m.id c) chosen

unfoldable pub lease_message : ℕ → ℕ → Text → Message → Message
lease_message now lease prefix m = record m {
  process_after = now + lease;
  locked_until = some (now + lease);
  claim_token = some (token prefix m.id);
}

abbrev pub claimed_row : Text → Message → OutboxRow
claimed_row prefix m = record {
  id = m.id;
  event_type = m.event_type;
  aggregate_id = m.aggregate_id;
  aggregate_type = m.aggregate_type;
  payload = m.payload;
  schema_version = m.schema_version;
  occurred_at = m.occurred_at;
  attempt = m.attempt;
  max_attempts = m.max_attempts;
  claim_token = token prefix m.id;
}

-- The claim of `processBatch`.
unfoldable pub claim_messages : ℕ → ℕ → ℕ → Text → (Text → Bool) → Outbox → Outbox × List OutboxRow
unfolding select_deliverable picks lease_message keep_if
claim_messages batch now lease prefix busy ms =
    let chosen = select_deliverable batch now busy ms in
    (
      update_where (picks chosen) (lease_message now lease prefix) ms,
      map (claimed_row prefix) (keep_if (picks chosen) ms),
    )

abbrev pub renew_message : ℕ → ℕ → Message → Message
renew_message now lease m = record m {
  process_after = now + lease;
  locked_until = some (now + lease);
}

abbrev pub processed_message : ℕ → Message → Message
processed_message now m = record m { processed_at = some now }

abbrev pub failed_message : ℕ → ℕ → Text → Message → Message
failed_message now attempt message m = record m {
  failed_at = some now;
  attempt = attempt;
  last_error = some message;
}

abbrev pub retried_message : ℕ → ℕ → Text → Message → Message
retried_message attempt process_after message m = record m {
  attempt = attempt;
  process_after = process_after;
  locked_until = none;
  claim_token = none;
  last_error = some message;
}

-- The renewal of `startLeaseRenewal`.
unfoldable pub renew_claim : ℕ → ℕ → OutboxRow → Outbox → Outbox × ℕ
unfolding claimed_by is_leased count_if
renew_claim now lease o ms = (
  update_where (λ m. claimed_by o m && is_leased now m) (renew_message now lease) ms,
  count_if (λ m. claimed_by o m && is_leased now m) ms,
)

-- The outcomes: all change the rows of the claim, and answer how many there were.
unfoldable pub update_claimed : (Message → Message) → OutboxRow → Outbox → Outbox × ℕ
unfolding claimed_by count_if
update_claimed f o ms = (update_where (claimed_by o) f ms, count_if (claimed_by o) ms)
