-- ===== src/Clientip/Client.antt =====
-- Whose address `Resolve` returns.
use devengine.Common.{
  ◌≡◌, refl, sym, ap, ◌∙◌, ◌==◌, true, false, Option, none, some, List, [], ◌∷◌, ◌++◌, Text, All,
  length, arith, if◌then◌else◌, Bool-cases, Option-cases, inl, inr,
}
use devengine.Clientip.{Addr}
use devengine.Clientip.Print.{addr_text}
use devengine.Clientip.Headers.{Header, parse_header}
use devengine.Clientip.Resolve.{
  Resolver, Request, contains, parse_remote_addr, last_untrusted, client_of, by_priority, resolve,
}

-- The last hop that is not trusted.
pub data Hop (r : Resolver) (chain : List Addr) : Option Addr → Type 0 where
  all_trusted : All (λ a. contains r a ≡ true) chain → Hop r chain none
  client :
      (before : List Addr) (a : Addr) (behind : List Addr)
      → chain ≡ before ++ a ∷ behind
      → contains r a ≡ false
      → All (λ b. contains r b ≡ true) behind
      → Hop r chain (some a)

Hop-cons :
    (r : Resolver) (a : Addr) (chain : List Addr) {b : Addr}
    → Hop r chain (some b)
    → Hop r (a ∷ chain) (some b)
Hop-cons r a chain (client before b behind e u t) =
    client (a ∷ before) b behind (ap (λ l. a ∷ l) e) u t

Hop-none :
    (r : Resolver) (chain : List Addr) → Hop r chain none → All (λ a. contains r a ≡ true) chain
Hop-none r chain (all_trusted t) = t

last_untrusted-Hop : (r : Resolver) (chain : List Addr) → Hop r chain (last_untrusted r chain)
unfolding last_untrusted
last_untrusted-Hop r [] = all_trusted tt
last_untrusted-Hop r (a ∷ chain) = by_rest (last_untrusted r chain) (last_untrusted-Hop r chain)
  where
    by_rest :
        (o : Option Addr)
        → Hop r chain o
        → Hop r
            (a ∷ chain)
            (elim o [ some b ↦ some b | none ↦ if contains r a then none else some a ])
    by_rest (some b) h = Hop-cons r a chain h
    by_rest none h = elim (Bool-cases (contains r a)) [
      | inl e ↦ rw e (all_trusted (e, Hop-none r chain h))
      | inr e ↦ rw e (client [] a chain refl e (Hop-none r chain h))
    ]

-- What the configured headers of a request from a trusted peer name: no header is there; or the
-- first that is there is malformed, or has trusted hops only, or names the last hop that is not.
pub data Named (r : Resolver) (req : Request) (peer_text : Text) (hs : List Header)
    : Text → Type 0 where
  absent : All (λ h. req.values h ≡ []) hs → Named r req peer_text hs peer_text
  malformed :
      (skipped : List Header) (h : Header) (rest : List Header)
      → hs ≡ skipped ++ h ∷ rest
      → All (λ k. req.values k ≡ []) skipped
      → parse_header h (req.values h) ≡ none
      → Named r req peer_text hs peer_text
  trusted_only :
      (skipped : List Header) (h : Header) (rest : List Header) (chain : List Addr)
      → hs ≡ skipped ++ h ∷ rest
      → All (λ k. req.values k ≡ []) skipped
      → parse_header h (req.values h) ≡ some chain
      → All (λ a. contains r a ≡ true) chain
      → Named r req peer_text hs peer_text
  named :
      (skipped : List Header) (h : Header) (rest : List Header) (before : List Addr) (a : Addr)
      (behind : List Addr)
      → hs ≡ skipped ++ h ∷ rest
      → All (λ k. req.values k ≡ []) skipped
      → parse_header h (req.values h) ≡ some (before ++ a ∷ behind)
      → contains r a ≡ false
      → All (λ b. contains r b ≡ true) behind
      → Named r req peer_text hs (addr_text a)

module _ (r : Resolver) (req : Request) (peer_text : Text) where
  Named-skip :
      (k : Header) (hs : List Header) {t : Text}
      → req.values k ≡ []
      → Named r req peer_text hs t
      → Named r req peer_text (k ∷ hs) t
  Named-skip k hs e (absent a) = absent (e, a)
  Named-skip k hs e (malformed skipped h rest p a q) =
      malformed (k ∷ skipped) h rest (ap (λ l. k ∷ l) p) (e, a) q
  Named-skip k hs e (trusted_only skipped h rest chain p a q t) =
      trusted_only (k ∷ skipped) h rest chain (ap (λ l. k ∷ l) p) (e, a) q t
  Named-skip k hs e (named skipped h rest before a behind p s q u t) =
      named (k ∷ skipped) h rest before a behind (ap (λ l. k ∷ l) p) (e, s) q u t

  by_chain :
      (h : Header) (hs : List Header) (chain : List Addr) (o : Option Addr)
      → parse_header h (req.values h) ≡ some chain
      → Hop r chain o
      → Named r req peer_text (h ∷ hs) (elim o [ none ↦ peer_text | some a ↦ addr_text a ])
  by_chain h hs chain none q (all_trusted t) = trusted_only [] h hs chain refl tt q t
  by_chain h hs chain (some b) q (client before a behind e u t) =
      named [] h hs before a behind refl tt (q ∙ ap some e) u t

  client_of-Named :
      (h : Header) (hs : List Header)
      → Named r req peer_text (h ∷ hs) (client_of r peer_text (parse_header h (req.values h)))
  unfolding client_of
  client_of-Named h hs = elim (Option-cases (parse_header h (req.values h))) [
    | inl e ↦ rw e (malformed [] h hs refl tt e)
    | inr (chain, e) ↦ rw e (by_chain h hs chain _ e (last_untrusted-Hop r chain))
  ]

  no_values : (vs : List Text) → (length vs == 0) ≡ true → vs ≡ []
  no_values [] e = refl
  no_values (v ∷ vs) e = absurd (ground arith)

  by_priority-Named : (hs : List Header) → Named r req peer_text hs (by_priority r req peer_text hs)
  unfolding by_priority
  by_priority-Named [] = absent tt
  by_priority-Named (h ∷ hs) = elim (Bool-cases (length (req.values h) == 0)) [
    | inl e ↦ rw e (Named-skip h hs (no_values (req.values h) e) (by_priority-Named hs))
    | inr e ↦ rw e (client_of-Named h hs)
  ]

-- The peer's address and text, when the address is trusted.
abbrev pub TrustedPeer : Resolver → Request → Addr → Text → Type 0
TrustedPeer r req peer peer_text =
    (parse_remote_addr req.remote_addr ≡ some (peer, peer_text)) × (contains r peer ≡ true)

-- For a request of a trusted peer the first configured header that the request has decides: the
-- result is the last hop of its chain that is not trusted, and the peer itself when the header is
-- malformed or all hops are trusted, or when no configured header is there.
pub resolve-Named :
    (r : Resolver) (req : Request) (peer : Addr) (peer_text : Text)
    → TrustedPeer r req peer peer_text
    → Named r req peer_text r.priority (resolve r (some req))
unfolding resolve
resolve-Named r req peer peer_text (e, t) =
    rw (e, resolve) (rw t (by_priority-Named r req peer_text r.priority))

-- The address that a remote address names is not trusted, or it names none.
abbrev pub Untrusted : Resolver → Option (Addr × Text) → Type 0
Untrusted r none = Unit
Untrusted r (some (peer, peer_text)) = contains r peer ≡ false

-- A peer that is not trusted cannot choose the result: whatever headers two requests of one remote
-- address carry, the results are the same.
pub resolve-Untrusted :
    (r : Resolver) (req other : Request)
    → Untrusted r (parse_remote_addr req.remote_addr)
    → other.remote_addr ≡ req.remote_addr
    → resolve r (some other) ≡ resolve r (some req)
unfolding resolve
resolve-Untrusted r req other u e =
    let o = parse_remote_addr req.remote_addr in
    peer_only other o (ap parse_remote_addr e) u ∙ sym (peer_only req o refl u)
  where
    peer_only :
        (q : Request) (o : Option (Addr × Text))
        → parse_remote_addr q.remote_addr ≡ o
        → Untrusted r o
        → resolve r (some q) ≡ elim o [ none ↦ [] | some (peer, peer_text) ↦ peer_text ]
    peer_only q none p v = rw (p, resolve) refl
    peer_only q (some (peer, peer_text)) p v = rw (p, resolve) (rw v refl)
