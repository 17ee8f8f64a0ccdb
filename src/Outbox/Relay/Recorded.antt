-- ===== src/Outbox/Relay/Recorded.antt =====
-- What recording a delivery makes of the outbox, on every branch.
use devengine.Common.{
  some_eq, none-some, leb_false→lt, ℕ, suc, ◌≤◌, ◌<◌, ◌≡◌, ◌≢◌, refl, sym, ap, Option, none, some,
  Text, Bool-cases, Option-cases, inl, inr, leb, leb→le, any, false, ◌∙◌, any, update_where-none,
  count_if-any-false,
}
use devengine.Retry.Backoff.{backoff}
use devengine.Jobs.Worker.{Answer, answered, refused, lost, after_delay}
use devengine.Outbox.Table.{
  Message, Outbox, OutboxRow, claimed_by, update_claimed, processed_message, failed_message,
  retried_message,
}
use devengine.Outbox.Config.{RelayConfig, relay_initial_backoff}
use devengine.Outbox.Relay.{
  DeliveryError, RelayStatus, delivered, failed, retried, claim_lost, settle_outcome,
  record_delivery,
}

-- The change that an outcome makes to the claim's message.
pub data Change (now : ℕ) (o : OutboxRow) (e : Option DeliveryError)
    : (Message → Message) → Type 0 where
  processes : e ≡ none → Change now o e (processed_message now)
  fails :
      (text : Text)
      → e ≢ none
      → o.max_attempts ≤ suc o.attempt
      → Change now o e (failed_message now (suc o.attempt) text)
  retries :
      (at : ℕ) (text : Text)
      → e ≢ none
      → suc o.attempt < o.max_attempts
      → Change now o e (retried_message (suc o.attempt) at text)

pub data Recorded (now : ℕ) (o : OutboxRow) (e : Option DeliveryError) (ms t : Outbox)
    : Type 0 where
  unchanged : t ≡ ms → Recorded now o e ms t
  updated :
      (f : Message → Message)
      → Change now o e f
      → t ≡ (update_claimed f o ms).0
      → Recorded now o e ms t

module _ (message : DeliveryError → Text) (draw : ℕ → ℕ) (c : RelayConfig) (now : ℕ)
    (answer : Answer) (o : OutboxRow) (ms t : Outbox) (st : RelayStatus) where
  settled :
      (e : Option DeliveryError) (wanted : RelayStatus) (f : Message → Message)
      → Change now o e f
      → some (settle_outcome answer wanted ms (update_claimed f o ms)) ≡ some (t, st)
      → Recorded now o e ms t
  settled e wanted f h q = by_answer answer (some_eq q)
    where
      by_answer :
          (a : Answer)
          → settle_outcome a wanted ms (update_claimed f o ms) ≡ (t, st)
          → Recorded now o e ms t
      by_answer answered p = Recorded.updated f h (sym (ap (λ (x : Outbox × RelayStatus). x.0) p))
      by_answer refused p = Recorded.unchanged (sym (ap (λ (x : Outbox × RelayStatus). x.0) p))
      by_answer lost p = Recorded.updated f h (sym (ap (λ (x : Outbox × RelayStatus). x.0) p))

  -- A recorded delivery has left the outbox as it was, or has marked the claim's message as
  -- processed (only after a success), as failed (only at the last attempt) or as waiting for
  -- another attempt.
  pub record_delivery-Recorded :
      (e : Option DeliveryError)
      → record_delivery message draw c now answer o e ms ≡ some (t, st)
      → Recorded now o e ms t
  unfolding record_delivery
  record_delivery-Recorded none q =
      settled none delivered (processed_message now) (Change.processes refl) q
  record_delivery-Recorded (some e) q = elim (Bool-cases (leb o.max_attempts (suc o.attempt))) [
    | inl last ↦
        settled (some e) failed _ (Change.fails _ (λ z. none-some (sym z)) (leb→le _ _ last))
          (rw last at q)
    | inr more ↦ elim (Option-cases (backoff draw (relay_initial_backoff c) (suc o.attempt))) [
      | inl panic ↦ absurd (none-some (rw (more, panic) at q))
      | inr (delay, waits) ↦
          settled (some e) retried _
            (Change.retries (after_delay now delay) _ (λ z. none-some (sym z))
              (leb_false→lt _ _ more))
            (rw (more, waits) at q)
    ]
  ]

module _ (message : DeliveryError → Text) (draw : ℕ → ℕ) (c : RelayConfig) (now : ℕ) (o : OutboxRow)
    (ms t : Outbox) (st : RelayStatus) where
  stale_settle :
      (wanted : RelayStatus) (f : Message → Message)
      → any (claimed_by o) ms ≡ false
      → some (settle_outcome answered wanted ms (update_claimed f o ms)) ≡ some (t, st)
      → (t ≡ ms) × (st ≡ claim_lost)
  stale_settle wanted f h q =
      let pair : (ms, claim_lost) ≡ (t, st) =
        ap (settle_outcome answered wanted ms) (sym nothing) ∙ some_eq q in
      (
        ap (λ (x : Outbox × RelayStatus). x.0) (sym pair),
        ap (λ (x : Outbox × RelayStatus). x.1) (sym pair),
      )
    where
      nothing : update_claimed f o ms ≡ (ms, 0)
      nothing =
          unfold update_claimed in
          rw (update_where-none (claimed_by o) f ms h, count_if-any-false (claimed_by o) ms h)

  -- A relay whose claim no message has any more changes nothing, whatever the handlers returned,
  -- and counts the event as lost.
  pub stale_delivery :
      (e : Option DeliveryError)
      → any (claimed_by o) ms ≡ false
      → record_delivery message draw c now answered o e ms ≡ some (t, st)
      → (t ≡ ms) × (st ≡ claim_lost)
  unfolding record_delivery
  stale_delivery none h q = stale_settle delivered (processed_message now) h q
  stale_delivery (some e) h q = elim (Bool-cases (leb o.max_attempts (suc o.attempt))) [
    | inl last ↦ stale_settle failed _ h (rw last at q)
    | inr more ↦ elim (Option-cases (backoff draw (relay_initial_backoff c) (suc o.attempt))) [
      | inl panic ↦ absurd (none-some (rw (more, panic) at q))
      | inr (delay, waits) ↦
          stale_settle retried (retried_message (suc o.attempt) (after_delay now delay) _) h
            (rw (more, waits) at q)
    ]
  ]
