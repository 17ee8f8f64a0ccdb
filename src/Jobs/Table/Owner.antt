-- ===== src/Jobs/Table/Owner.antt =====
-- Which rows a claim's statements reach, and the states of a row.
use mathlib.Core.List.{append_cancel_left}
use devengine.Common.{
  and_right, ℕ, ◌≡◌, refl, true, false, some, none, Text, text_eq, text_eq_iff, arith, Option, str,
}
use devengine.Jobs.Table.{
  Row, JobRow, has_token, owned_by, is_failed, is_claimable, token, lease_row,
}

token_of :
    (t : Text) (o : Option Text) (r : Row) → r.claim_token ≡ o → has_token t r ≡ true → o ≡ some t
unfolding has_token
token_of t none r e h = ground arith
token_of t (some u) r e h = ground (arith, text_eq_iff u t)

pub owned_by-id : (j : JobRow) (r : Row) → owned_by j r ≡ true → r.id ≡ j.id
unfolding owned_by
owned_by-id j r h = ground (arith, text_eq_iff r.id j.id)

pub owned_by-token :
    (j : JobRow) (r : Row) → owned_by j r ≡ true → r.claim_token ≡ some j.claim_token
unfolding owned_by
owned_by-token j r h =
    token_of j.claim_token r.claim_token r refl (and_right (text_eq r.id j.id) _ h)

pub is_claimable-pending : (now : ℕ) (r : Row) → is_claimable now r ≡ true → is_failed r ≡ false
unfolding is_claimable is_failed
is_claimable-pending now r h = ground arith

pub lease_row-pending :
    (now lease : ℕ) (prefix : Text) (r : Row) → is_failed (lease_row now lease prefix r) ≡ false
unfolding lease_row is_failed
lease_row-pending now lease prefix r = refl

pub lease_row-kept :
    (now lease : ℕ) (prefix : Text) (r : Row)
    → ((lease_row now lease prefix r).id ≡ r.id)
      × ((lease_row now lease prefix r).attempt ≡ r.attempt)
      × ((lease_row now lease prefix r).max_attempts ≡ r.max_attempts)
      × ((lease_row now lease prefix r).claim_token ≡ some (token prefix r.id))
unfolding lease_row
lease_row-kept now lease prefix r = (refl, refl, refl, refl)

-- Two tokens of one claim are equal only for one id.
pub token-injective : (prefix : Text) {a b : Text} → token prefix a ≡ token prefix b → a ≡ b
token-injective prefix e = append_cancel_left (str ":") _ _ (append_cancel_left prefix _ _ e)
