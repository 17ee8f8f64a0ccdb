-- ===== src/Clientip/Forged.antt =====
-- What a client that writes X-Forwarded-For itself can reach behind a proxy that appends to it.
use devengine.Common.{
  ℕ, ◌≡◌, refl, sym, ap, ◌∙◌, ◌==◌, ◌||◌, ltb, false, Option, none, some, List, [], ◌∷◌, ◌++◌, Text,
  str, length, join_with, trim_space, arith, ◌⊎◌, inl, inr, if◌then◌else◌, Bool-cases, Option-cases,
  none-some, some_eq,
}
use devengine.Clientip.{Addr, contains_byte}
use devengine.Clientip.Print.{addr_text}
use devengine.Clientip.Headers.{
  Header, x_forwarded_for, parse_header, parse_chain, header_bytes, parse_bare_addr,
  max_header_bytes, max_hops,
}
use devengine.Clientip.Split.{split_byte, prepend, all_some}
use devengine.Clientip.Resolve.{
  Resolver, Request, contains, last_untrusted, client_of, by_priority, resolve,
}
use devengine.Clientip.Client.{TrustedPeer}

split_byte-lacking : (sep : ℕ) (t : Text) → contains_byte sep t ≡ false → split_byte sep t ≡ t ∷ []
unfolding split_byte contains_byte prepend
split_byte-lacking sep [] h = refl
split_byte-lacking sep (c ∷ t) h = ground (arith, split_byte-lacking sep t)

prepend-append :
    (c : ℕ) (ps : List Text) (t : Text)
    → ps ≡ [] ⊎ ((prepend c ps ++ t ∷ []) ≡ prepend c (ps ++ t ∷ []))
unfolding prepend
prepend-append c [] t = inl refl
prepend-append c (p ∷ ps) t = inr refl

split_byte-ne_nil : (sep : ℕ) (s : Text) → split_byte sep s ≡ [] → ⊥
unfolding split_byte prepend
split_byte-ne_nil sep [] h = cc
split_byte-ne_nil sep (c ∷ s) h = elim (Bool-cases (c == sep)) [
  | inl e ↦ let z : [] ∷ split_byte sep s ≡ [] = rw e at h in cc
  | inr e ↦ prepended (split_byte sep s) (rw e at h)
]
  where
    prepended : (ps : List Text) → prepend c ps ≡ [] → ⊥
    prepended [] z = cc
    prepended (p ∷ ps) z = cc

split_byte-append :
    (sep : ℕ) (s t : Text)
    → contains_byte sep t ≡ false
    → split_byte sep (s ++ sep ∷ t) ≡ split_byte sep s ++ t ∷ []
unfolding split_byte
split_byte-append sep [] t h = rw (split_byte-lacking sep t h) (ground arith)
split_byte-append sep (c ∷ s) t h = elim (Bool-cases (c == sep)) [
  | inl e ↦ rw (e, split_byte-append sep s t h) refl
  | inr e ↦
      rw (e, split_byte-append sep s t h)
        (elim (prepend-append c (split_byte sep s) t) [
          | inl z ↦ absurd (split_byte-ne_nil sep s z)
          | inr z ↦ sym z
        ])
]

all_some-last {ℓ κ} :
    {A : Type ℓ} {B : Type κ} (f : A → Option B) (xs : List A) (x : A) (b : B) (bs : List B)
    → f x ≡ some b
    → all_some f (xs ++ x ∷ []) ≡ some bs
    → (before : List B) × (bs ≡ before ++ b ∷ [])
unfolding all_some
all_some-last f [] x b bs e h = ([], sym (some_eq (rw e at h)))
all_some-last f (a ∷ xs) x b bs e h = elim (Option-cases (f a)) [
  | inl p ↦ absurd (none-some (rw p at h))
  | inr (c, p) ↦ elim (Option-cases (all_some f (xs ++ x ∷ []))) [
    | inl q ↦ absurd (none-some (rw (p, q) at h))
    | inr (cs, q) ↦
        let (before, r) = all_some-last f xs x b cs e q in
        let z : some (c ∷ cs) ≡ some bs = rw (p, q) at h in
        (c ∷ before, sym (some_eq z) ∙ ap (λ l. c ∷ l) r)
  ]
]

last_untrusted-last :
    (r : Resolver) (before : List Addr) (a : Addr)
    → contains r a ≡ false
    → last_untrusted r (before ++ a ∷ []) ≡ some a
unfolding last_untrusted
last_untrusted-last r [] a u = rw u refl
last_untrusted-last r (b ∷ before) a u = rw (last_untrusted-last r before a u) refl

-- The chain of an X-Forwarded-For header, if it is one, ends with the address behind the last comma.
parse_header-last :
    (values : List Text) (old hop : Text) (a : Addr) (chain : List Addr)
    → join_with (str ",") values ≡ old ++ b',' ∷ hop
    → contains_byte b',' hop ≡ false
    → parse_bare_addr (trim_space hop) ≡ some a
    → parse_header x_forwarded_for values ≡ some chain
    → (before : List Addr) × (chain ≡ before ++ a ∷ [])
unfolding parse_header parse_chain
parse_header-last values old hop a chain e lacks p h =
    elim (Bool-cases (ltb max_header_bytes (header_bytes values))) [
      | inl big ↦ absurd (none-some (rw big at h))
      | inr small ↦
          by_parts (split_byte b',' (join_with (str ",") values))
            (ap (split_byte b',') e ∙ split_byte-append b',' old hop lacks) (rw small at h)
    ]
  where
    by_parts :
        (parts : List Text)
        → parts ≡ split_byte b',' old ++ hop ∷ []
        → (if (length parts == 0) || ltb max_hops (length parts)
            then none
            else all_some (λ part. parse_bare_addr (trim_space part)) parts)
          ≡ some chain
        → (before : List Addr) × (chain ≡ before ++ a ∷ [])
    by_parts parts z g = elim (Bool-cases ((length parts == 0) || ltb max_hops (length parts))) [
      | inl many ↦ absurd (none-some (rw many at g))
      | inr few ↦
          all_some-last (λ part. parse_bare_addr (trim_space part)) (split_byte b',' old) hop a
            chain p
            (ap (all_some (λ part. parse_bare_addr (trim_space part))) (sym z) ∙ (rw few at g))
    ]

joined_not_nil :
    (vs : List Text) (old hop : Text)
    → join_with (str ",") vs ≡ old ++ b',' ∷ hop
    → (length vs == 0) ≡ false
unfolding join_with
joined_not_nil [] [] hop e = cc
joined_not_nil [] (c ∷ old) hop e = cc
joined_not_nil (v ∷ vs) old hop e = ground arith

-- For a request of a trusted peer the header of the highest precedence decides, if it is there.
resolve_first :
    (r : Resolver) (req : Request) (peer : Addr) (peer_text : Text) (rest : List Header)
    → TrustedPeer r req peer peer_text
    → r.priority ≡ x_forwarded_for ∷ rest
    → (length (req.values x_forwarded_for) == 0) ≡ false
    → resolve r (some req)
      ≡ client_of r peer_text (parse_header x_forwarded_for (req.values x_forwarded_for))
unfolding by_priority resolve
resolve_first r req peer peer_text rest (e, t) first there =
    rw (e, resolve) (rw t (ap (by_priority r req peer_text) first ∙ rw there refl))

-- Whatever stands before the last comma of X-Forwarded-For, a client behind a trusted proxy that
-- appends the client's address, where that is not a trusted one and the header has precedence, is
-- resolved to its own address or to the proxy's: it cannot pass for anyone else.
pub resolve_forged :
    (r : Resolver) (req : Request) (peer : Addr) (peer_text : Text) (rest : List Header)
    (old hop : Text) (a : Addr)
    → TrustedPeer r req peer peer_text
    → r.priority ≡ x_forwarded_for ∷ rest
    → join_with (str ",") (req.values x_forwarded_for) ≡ old ++ b',' ∷ hop
    → contains_byte b',' hop ≡ false
    → parse_bare_addr (trim_space hop) ≡ some a
    → contains r a ≡ false
    → (resolve r (some req) ≡ addr_text a) ⊎ (resolve r (some req) ≡ peer_text)
unfolding client_of
resolve_forged r req peer peer_text rest old hop a (e, t) first joined lacks p u =
    let reached =
      resolve_first r req peer peer_text rest (e, t) first
        (joined_not_nil (req.values x_forwarded_for) old hop joined) in
    elim (Option-cases (parse_header x_forwarded_for (req.values x_forwarded_for))) [
      | inl q ↦ inr (reached ∙ ap (client_of r peer_text) q)
      | inr (chain, q) ↦
          let (before, z) = parse_header-last _ old hop a chain joined lacks p q in
          inl (
            reached
            ∙ ap (client_of r peer_text) (q ∙ ap some z)
            ∙ rw (last_untrusted-last r before a u, client_of) refl)
    ]
