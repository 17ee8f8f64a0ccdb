-- ===== src/Outbox/System.antt =====
-- The outbox with all the relays that use it: their claims, and every step that changes either.
pub mod History
use devengine.Common.{
  ℕ, ◌≡◌, ◌++◌, Bool, not, Option, none, some, List, Memᴰ, Text, text_eq, keep_if, ok,
}
use devengine.Outbox.Table.{Message, Outbox, OutboxRow, claim_messages, renew_claim}
use devengine.Outbox.Config.{RelayConfig}
use devengine.Outbox.Enqueue.{insert_message}
use devengine.Outbox.Relay.{DeliveryError, RelayStatus, record_delivery}
use devengine.Jobs.Worker.{Answer}

-- `held` has the claims that some relay still works on.
pub record Relays : Type 0 where
  pub outbox : Outbox
  pub held : List OutboxRow

abbrev pub drop_row : OutboxRow → List OutboxRow → List OutboxRow
drop_row o = keep_if (λ p. not (text_eq p.claim_token o.claim_token))

module _ (message : DeliveryError → Text) (draw : ℕ → ℕ) (c : RelayConfig) where
  pub data Step (s u : Relays) : Type 0 where
    enqueues :
        (refusal : Option Text) (m : Message)
        → insert_message refusal m s.outbox ≡ ok u.outbox
        → u.held ≡ s.held
        → Step s u
    claims :
        (batch now lease : ℕ) (prefix : Text) (busy : Text → Bool)
        → u.outbox ≡ (claim_messages batch now lease prefix busy s.outbox).0
        → u.held ≡ s.held ++ (claim_messages batch now lease prefix busy s.outbox).1
        → Step s u
    -- Also one that reaches the server when its relay no longer works on the claim.
    renews :
        (now lease : ℕ) (o : OutboxRow)
        → u.outbox ≡ (renew_claim now lease o s.outbox).0
        → u.held ≡ s.held
        → Step s u
    finishes :
        (now : ℕ) (answer : Answer) (o : OutboxRow) (e : Option DeliveryError)
        (status : RelayStatus)
        → Memᴰ o s.held
        → record_delivery message draw c now answer o e s.outbox ≡ some (u.outbox, status)
        → u.held ≡ drop_row o s.held
        → Step s u
    -- A relay dies with its claims.
    crashes :
        (survives : OutboxRow → Bool)
        → u.outbox ≡ s.outbox
        → u.held ≡ keep_if survives s.held
        → Step s u

  pub data Reach (s : Relays) : Relays → Type 0 where
    here : Reach s s
    next : {t u : Relays} → Reach s t → Step t u → Reach s u
