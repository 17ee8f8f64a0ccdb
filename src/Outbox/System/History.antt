-- ===== src/Outbox/System/History.antt =====
-- At-least-once delivery: when a message stops being pending.
use devengine.Common.{
  ℕ, suc, ◌≤◌, ◌≡◌, refl, sym, ◌∙◌, ◌⊎◌, inl, inr, Bool, true, ◌&&◌, Option, none, [], ◌∷◌, ◌++◌,
  Memᴰ, Text, text_eq_iff, arith, Bool-cases, update_where, Memᴰ-append_left, update-Memᴰ_kept,
  update-Memᴰ_changed, ok, and_left,
}
use devengine.Outbox.Table.{
  Message, Outbox, OutboxRow, is_pending, is_leased, claimed_by, claim_messages, lease_message,
  renew_claim, renew_message, update_claimed, select_deliverable, picks, retried_message,
  has_message_id,
}
use devengine.Outbox.Config.{RelayConfig}
use devengine.Outbox.Enqueue.{insert_message}
use devengine.Outbox.Relay.{DeliveryError}
use devengine.Outbox.Relay.Recorded.{Change, Recorded, record_delivery-Recorded}
use devengine.Outbox.System.{Relays, Step, Reach}

-- A message of that id is in the outbox and waits for its delivery.
abbrev pub Waits : Text → Outbox → Type 0
Waits id ms = (m : Message) × Memᴰ m ms × (m.id ≡ id) × (is_pending m ≡ true)

-- What a change keeps of every message.
abbrev Keeps : (Message → Message) → Type 0
Keeps f = (m : Message) → ((f m).id ≡ m.id) × (is_pending (f m) ≡ is_pending m)

update-Waits :
    (p : Message → Bool) (f : Message → Message) (ms : Outbox) (id : Text)
    → Keeps f
    → Waits id ms
    → Waits id (update_where p f ms)
update-Waits p f ms id k (m, n, same, live) = elim (Bool-cases (p m)) [
  | inl e ↦ (f m, update-Memᴰ_changed p f ms n e, (k m).0 ∙ same, (k m).1 ∙ live)
  | inr e ↦ (m, update-Memᴰ_kept p f ms n e, same, live)
]

lease-Keeps : (now lease : ℕ) (prefix : Text) → Keeps (lease_message now lease prefix)
unfolding lease_message is_pending
lease-Keeps now lease prefix m = (refl, refl)

renew-Keeps : (now lease : ℕ) → Keeps (renew_message now lease)
unfolding is_pending
renew-Keeps now lease m = (refl, refl)

retried-Keeps : (n at : ℕ) (text : Text) → Keeps (retried_message n at text)
unfolding is_pending
retried-Keeps n at text m = (refl, refl)

claimed_by-id : (o : OutboxRow) (m : Message) → claimed_by o m ≡ true → m.id ≡ o.id
unfolding claimed_by has_message_id
claimed_by-id o m h = (text_eq_iff m.id o.id).0 (and_left _ _ h)

moved : {id : Text} {t u : Outbox} → u ≡ t → Waits id t → Waits id u
moved e (m, n, same, live) = (m, rw e n, same, live)

-- The outcome is a success of a claim of the message, or a failure of one at its last attempt.
abbrev pub Settles : Text → OutboxRow → Option DeliveryError → Type 0
Settles id o e = (o.id ≡ id) × ((e ≡ none) ⊎ (o.max_attempts ≤ suc o.attempt))

marked :
    (f : Message → Message) (o : OutboxRow) (e : Option DeliveryError) (ms : Outbox) (id : Text)
    → (e ≡ none) ⊎ (o.max_attempts ≤ suc o.attempt)
    → Waits id ms
    → Waits id (update_claimed f o ms).0 ⊎ Settles id o e
unfolding update_claimed
marked f o e ms id why (m, n, same, live) = elim (Bool-cases (claimed_by o m)) [
  | inl hit ↦ inr (sym (claimed_by-id o m hit) ∙ same, why)
  | inr miss ↦ inl (m, update-Memᴰ_kept (claimed_by o) f ms n miss, same, live)
]

Change-Waits :
    (now : ℕ) (o : OutboxRow) (e : Option DeliveryError) (f : Message → Message) (ms : Outbox)
    (id : Text)
    → Change now o e f
    → Waits id ms
    → Waits id (update_claimed f o ms).0 ⊎ Settles id o e
Change-Waits now o e f ms id (Change.processes s) w = marked _ o e ms id (inl s) w
Change-Waits now o e f ms id (Change.fails text _ last) w = marked _ o e ms id (inr last) w
Change-Waits now o e f ms id (Change.retries at text _ _) w = inl (
    unfold update_claimed in
    update-Waits (claimed_by o) (retried_message (suc o.attempt) at text) ms id
      (retried-Keeps (suc o.attempt) at text) w)

Recorded-Waits :
    (now : ℕ) (o : OutboxRow) (e : Option DeliveryError) (ms t : Outbox) (id : Text)
    → Recorded now o e ms t
    → Waits id ms
    → Waits id t ⊎ Settles id o e
Recorded-Waits now o e ms t id (Recorded.unchanged p) w = inl (moved p w)
Recorded-Waits now o e ms t id (Recorded.updated f h p) w =
    elim (Change-Waits now o e f ms id h w) [ inl k ↦ inl (moved p k) | inr s ↦ inr s ]

insert-Waits :
    (refusal : Option Text) (m : Message) (ms t : Outbox) (id : Text)
    → insert_message refusal m ms ≡ ok t
    → Waits id ms
    → Waits id t
unfolding insert_message
insert-Waits refusal m ms t id h (x, n, same, live) =
    moved appended (x, Memᴰ-append_left ms (m ∷ []) n, same, live)
  where
    appended : t ≡ ms ++ m ∷ []
    appended = ground arith

module _ (message : DeliveryError → Text) (draw : ℕ → ℕ) (c : RelayConfig) where
  abbrev pub Ends : Text → {s u : Relays} → Step message draw c s u → Type 0
  Ends id (Step.finishes _ _ o e _ _ _ _) = Settles id o e
  Ends id (Step.enqueues _ _ _ _) = ⊥
  Ends id (Step.claims _ _ _ _ _ _ _) = ⊥
  Ends id (Step.renews _ _ _ _ _) = ⊥
  Ends id (Step.crashes _ _ _) = ⊥

  abbrev pub Ended : Text → {s u : Relays} → Reach message draw c s u → Type 0
  Ended id Reach.here = ⊥
  Ended id (Reach.next path st) = Ended id path ⊎ Ends id st

  Step-Waits :
      {s u : Relays} (st : Step message draw c s u) (id : Text)
      → Waits id s.outbox
      → Waits id u.outbox ⊎ Ends id st
  Step-Waits {s} {u} (Step.enqueues refusal m p q) id w =
      inl (insert-Waits refusal m s.outbox u.outbox id p w)
  Step-Waits {s} (Step.claims batch now lease prefix busy p q) id w = inl (
      moved p (
        unfold claim_messages in
        update-Waits (picks (select_deliverable batch now busy s.outbox))
          (lease_message now lease prefix) s.outbox id (lease-Keeps now lease prefix) w))
  Step-Waits {s} (Step.renews now lease o p q) id w = inl (
      moved p (
        unfold renew_claim in
        update-Waits (λ m. claimed_by o m && is_leased now m) (renew_message now lease) s.outbox id
          (renew-Keeps now lease) w))
  Step-Waits {s} {u} (Step.finishes now answer o e status _ p q) id w =
      Recorded-Waits now o e s.outbox u.outbox id
        (record_delivery-Recorded message draw c now answer o s.outbox u.outbox status e p) w
  Step-Waits (Step.crashes keep p q) id w = inl (moved p w)

  -- No event is lost: after any history of enqueues, claims, renewals, outcomes and crashes, a
  -- message that was pending is still pending, unless some step of the history recorded for a claim
  -- of it that every handler succeeded, or that its last attempt failed.
  pub event_kept :
      {s u : Relays} (path : Reach message draw c s u) (id : Text)
      → Waits id s.outbox
      → Waits id u.outbox ⊎ Ended id path
  event_kept Reach.here id w = inl w
  event_kept (Reach.next path st) id w = elim (event_kept path id w) [
    | inl now ↦ elim (Step-Waits st id now) [ inl k ↦ inl k | inr k ↦ inr (inr k) ]
    | inr k ↦ inr (inl k)
  ]
