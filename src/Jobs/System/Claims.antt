-- ===== src/Jobs/System/Claims.antt =====
-- A claim keeps the invariant.
use devengine.Common.{
  and_left, some_eq, ℕ, ◌≡◌, ◌≢◌, sym, ap, ◌∙◌, Bool, true, false, some, List, ◌++◌, inl, inr, Memᴰ,
  Text, keep_if, map, Memᴰ-map, Memᴰ-keep_if, Memᴰ-append_cases, Distinct-unique, Distinct-keep_if,
  Distinct-map, Distinct-append,
}
use devengine.Jobs.Table.{
  Row, JobRow, token, returned, is_failed, select_claimable, selects, lease_row, claim,
}
use devengine.Jobs.Table.Owner.{
  is_claimable-pending, lease_row-pending, lease_row-kept, token-injective,
}
use devengine.Jobs.Table.Select.{selects-is_claimable}
use devengine.Jobs.System.{System, IsFresh}
use devengine.Jobs.System.Invariant.{IsCounted, Agrees, Inv, IsTouched, update-Inv}

same_row :
    {late : ℕ} (s : System) (r q : Row)
    → Inv late s
    → Memᴰ r s.table
    → Memᴰ q s.table
    → r.id ≡ q.id
    → r ≡ q
same_row {late} s r q v m n e = Distinct-unique (λ x. x.id) s.table v.ids m n e

lease-IsCounted :
    {late : ℕ} (now lease : ℕ) (prefix : Text) (r : Row)
    → IsCounted late r
    → is_failed r ≡ false
    → IsCounted late (lease_row now lease prefix r)
unfolding lease_row is_failed
lease-IsCounted now lease prefix r v p = record {
  allowed = v.allowed;
  exhausted = λ e. cc;
  bounded = v.bounded;
  retryable = λ e. v.retryable p;
}

-- A claim: the new claims have new tokens, and each owns the row that it was made of.
module _ (batch now lease : ℕ) (prefix : Text) (busy : Text → Bool) (s : System) where
  abbrev chosen : List Row
  chosen = select_claimable batch now busy s.table

  abbrev fresh_claims : List JobRow
  fresh_claims = map (returned prefix) (keep_if (selects chosen) s.table)

  fresh_claim_of :
      (j : JobRow) → Memᴰ j fresh_claims → (r : Row) × Memᴰ r s.table × (j ≡ returned prefix r)
  fresh_claim_of j m =
      let (r, n, e) = Memᴰ-map (returned prefix) (keep_if (selects chosen) s.table) m in
      (r, (Memᴰ-keep_if (selects chosen) s.table n).0, e)

  pending_of :
      {late : ℕ} (r : Row)
      → Inv late s
      → Memᴰ r s.table
      → selects chosen r ≡ true
      → is_failed r ≡ false
  pending_of r v m h =
      is_claimable-pending now r
        (and_left _ _ (selects-is_claimable batch now busy s.table r v.ids m h))

  made_Agrees : (r : Row) → Agrees (returned prefix r) (lease_row now lease prefix r)
  made_Agrees r =
      let (id, attempt, max, tok) = lease_row-kept now lease prefix r in
      record {
        same_id = id;
        same_attempt = attempt;
        same_max = max;
        pending = lease_row-pending now lease prefix r;
      }

  -- the claim `j` after the step, beside a row `r` that the step leases
  lease_Agrees :
      {late : ℕ} (r : Row) (j : JobRow)
      → Inv late s
      → IsFresh prefix s
      → Memᴰ r s.table
      → selects chosen r ≡ true
      → Memᴰ j (s.held ++ fresh_claims)
      → some (token prefix r.id) ≡ some j.claim_token
      → Agrees j (lease_row now lease prefix r)
  lease_Agrees r j v f m h mj e = elim (Memᴰ-append_cases s.held fresh_claims mj) [
    | inl old ↦ absurd (f.new_to_held j r.id old (sym (some_eq e)))
    | inr new ↦
        let (q, n, made) = fresh_claim_of j new in
        let same : q ≡ r = same_row s q r v n m (
          token-injective prefix
            (sym (some_eq (e ∙ ap (λ (x : JobRow). some x.claim_token) made)))) in
        rw made (rw same (made_Agrees r))
  ]

  lease_IsTouched :
      {late : ℕ} (r : Row)
      → Inv late s
      → IsFresh prefix s
      → Memᴰ r s.table
      → selects chosen r ≡ true
      → IsTouched late (s.held ++ fresh_claims) r (lease_row now lease prefix r)
  lease_IsTouched r v f m h = record {
    keeps_id = (lease_row-kept now lease prefix r).0;
    counts = lease-IsCounted now lease prefix r (v.counted r m) (pending_of r v m h);
    owners = λ j mj e. lease_Agrees r j v f m h mj (sym (lease_row-kept now lease prefix r).3 ∙ e);
  }

  untouched :
      {late : ℕ} (j : JobRow) (r : Row)
      → Inv late s
      → IsFresh prefix s
      → Memᴰ j (s.held ++ fresh_claims)
      → Memᴰ r s.table
      → r.claim_token ≡ some j.claim_token
      → Agrees j r
  untouched j r v f mj m e = elim (Memᴰ-append_cases s.held fresh_claims mj) [
    | inl old ↦ v.agrees j r old m e
    | inr new ↦
        let (q, n, made) = fresh_claim_of j new in
        absurd (f.new_to_rows r q.id m (e ∙ ap (λ (x : JobRow). some x.claim_token) made))
  ]

  fresh_claims-apart :
      (x y : JobRow)
      → IsFresh prefix s
      → Memᴰ x s.held
      → Memᴰ y fresh_claims
      → y.claim_token ≢ x.claim_token
  fresh_claims-apart x y f mx my e =
      let (q, n, made) = fresh_claim_of y my in
      f.new_to_held x q.id mx (sym e ∙ ap (λ (z : JobRow). z.claim_token) made)

  pub claim-Inv :
      {late : ℕ}
      → Inv late s
      → IsFresh prefix s
      → Inv late (record {
        table = (claim batch now lease prefix busy s.table).0;
        held = s.held ++ (claim batch now lease prefix busy s.table).1;
      })
  unfolding claim
  claim-Inv v f =
      update-Inv (selects chosen) (lease_row now lease prefix) s (s.held ++ fresh_claims) v
        (Distinct-append (λ j. j.claim_token) s.held fresh_claims v.tokens
          (Distinct-map (λ r. r.id) (λ j. j.claim_token) (returned prefix) _
            (λ a b e. token-injective prefix e)
            (Distinct-keep_if (λ r. r.id) (selects chosen) s.table v.ids))
          (λ x y mx my. fresh_claims-apart x y f mx my))
        (λ j r mj mr e. untouched j r v f mj mr e) (λ r m h. lease_IsTouched r v f m h)
