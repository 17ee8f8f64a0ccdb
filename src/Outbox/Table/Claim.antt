-- ===== src/Outbox/Table/Claim.antt =====
-- What one claim takes, and what it leaves.
use devengine.Common.{
  ℕ, ◌+◌, ◌<◌, ◌≡◌, ◌≢◌, refl, sym, ap, ◌∙◌, Bool, true, false, not, Memᴰ, Text, arith, keep_if,
  Memᴰ-keep_if, Memᴰ-map, Distinct, Distinct-unique, Distinct-update, update-Memᴰ_changed, and_left,
  and_right, true-false,
}
use devengine.Outbox.Table.{
  Message, Outbox, OutboxRow, claimed_row, is_pending, is_deliverable, select_deliverable, picks,
  claim_messages, lease_message,
}
use devengine.Outbox.Table.Select.{picks-is_deliverable}

-- A claim made of a message: it could be delivered and no other transaction held it, and the table
-- now leases it under the claim's token.
pub record Takes (now lease : ℕ) (prefix : Text) (busy : Text → Bool) (ms new : Outbox)
    (o : OutboxRow) : Type 0 where
  pub source : Message
  pub stored : Memᴰ source ms
  pub made : o ≡ claimed_row prefix source
  pub deliverable : is_deliverable now source ≡ true
  pub free : (not (busy source.id)) ≡ true
  pub leased : Memᴰ (lease_message now lease prefix source) new

lease_message-id :
    (now lease : ℕ) (prefix : Text) (m : Message) → (lease_message now lease prefix m).id ≡ m.id
unfolding lease_message
lease_message-id now lease prefix m = refl

module _ (batch now lease : ℕ) (prefix : Text) (busy : Text → Bool) (ms : Outbox) where
  -- On a table of distinct ids, each claim that is returned was made of one message that was pending,
  -- due, neither leased nor held by another transaction, and that is now leased under its token.
  pub claim_messages-Takes :
      (o : OutboxRow)
      → Distinct (λ (m : Message). m.id) ms
      → Memᴰ o (claim_messages batch now lease prefix busy ms).1
      → Takes now lease prefix busy ms (claim_messages batch now lease prefix busy ms).0 o
  unfolding claim_messages
  claim_messages-Takes o d k =
      let chosen = select_deliverable batch now busy ms in
      let (m, n, e) = Memᴰ-map (claimed_row prefix) (keep_if (picks chosen) ms) k in
      let (stored, hit) = Memᴰ-keep_if (picks chosen) ms n in
      let ready = picks-is_deliverable batch now busy ms m d stored hit in
      record {
        source = m;
        stored = stored;
        made = e;
        deliverable = and_left _ _ ready;
        free = and_right _ _ ready;
        leased = update-Memᴰ_changed (picks chosen) (lease_message now lease prefix) ms stored hit;
      }

  pub claim_messages-Distinct :
      Distinct (λ (m : Message). m.id) ms
      → Distinct (λ (m : Message). m.id) (claim_messages batch now lease prefix busy ms).0
  unfolding claim_messages
  claim_messages-Distinct d =
      Distinct-update (picks (select_deliverable batch now busy ms))
        (lease_message now lease prefix) (λ m. m.id) ms
        (λ m k h. lease_message-id now lease prefix m) d

lease_message-leased :
    (now lease later : ℕ) (prefix : Text) (m : Message)
    → later < now + lease
    → is_deliverable later (lease_message now lease prefix m) ≡ false
unfolding is_deliverable lease_message
lease_message-leased now lease later prefix m h = ground arith

-- While a lease runs no other claim returns the message: two claims on a table of distinct ids, the
-- second before the first one's leases end, have no id in common.
pub claims_apart :
    (batch now lease batch' later lease' : ℕ) (prefix prefix' : Text) (busy busy' : Text → Bool)
    (ms : Outbox) (o p : OutboxRow)
    → Distinct (λ (m : Message). m.id) ms
    → later < now + lease
    → Memᴰ o (claim_messages batch now lease prefix busy ms).1
    → Memᴰ p
        (claim_messages batch' later lease' prefix' busy'
          (claim_messages batch now lease prefix busy ms).0).1
    → o.id ≢ p.id
claims_apart batch now lease batch' later lease' prefix prefix' busy busy' ms o p d h mo mp e =
    true-false (
      sym second.deliverable
      ∙ ap (is_deliverable later) same
      ∙ lease_message-leased now lease later prefix first.source h)
  where
    new : Outbox
    new = (claim_messages batch now lease prefix busy ms).0

    first : Takes now lease prefix busy ms new o
    first = claim_messages-Takes batch now lease prefix busy ms o d mo

    second :
        Takes later lease' prefix' busy' new
          (claim_messages batch' later lease' prefix' busy' new).0
          p
    second =
        claim_messages-Takes batch' later lease' prefix' busy' new p
          (claim_messages-Distinct batch now lease prefix busy ms d) mp

    same : second.source ≡ lease_message now lease prefix first.source
    same =
        Distinct-unique (λ (m : Message). m.id) new
          (claim_messages-Distinct batch now lease prefix busy ms d) second.stored first.leased
          (ap (λ (x : OutboxRow). x.id) (sym second.made)
            ∙ sym e
            ∙ ap (λ (x : OutboxRow). x.id) first.made
            ∙ sym (lease_message-id now lease prefix first.source))

-- On a table of distinct ids, a message that was processed or has failed for good is never claimed
-- again, also when its lease is over.
pub settled_not_claimed :
    (batch now lease : ℕ) (prefix : Text) (busy : Text → Bool) (ms : Outbox) (m : Message)
    (o : OutboxRow)
    → Distinct (λ (x : Message). x.id) ms
    → Memᴰ m ms
    → is_pending m ≡ false
    → Memᴰ o (claim_messages batch now lease prefix busy ms).1
    → o.id ≢ m.id
settled_not_claimed batch now lease prefix busy ms m o d mm h k e =
    let t = claim_messages-Takes batch now lease prefix busy ms o d k in
    let same : t.source ≡ m =
      Distinct-unique (λ (x : Message). x.id) ms d t.stored mm
        (ap (λ (x : OutboxRow). x.id) (sym t.made) ∙ e) in
    true-false (sym (pending_source t.source t.deliverable) ∙ ap is_pending same ∙ h)
  where
    pending_source : (x : Message) → is_deliverable now x ≡ true → is_pending x ≡ true
    pending_source x q = unfold is_deliverable in and_left _ _ q
