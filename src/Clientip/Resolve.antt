-- ===== src/Clientip/Resolve.antt =====
-- httpx/clientip/clientip.go: `New` and `Resolve`.
use devengine.Common.{
  ◌==◌, Bool, true, false, Option, none, some, List, [], ◌∷◌, ◌++◌, Text, str, any, length,
  trim_space, Result, ok, err, ◌>>=◌, if◌then◌else◌,
}
use devengine.Clientip.{Addr, zone_of, unmap}
use devengine.Clientip.Ipv6.{parse_addr, parse_addr_port}
use devengine.Clientip.Print.{addr_text}
use devengine.Clientip.Prefix.{Prefix, parse_prefix, masked, prefix_contains, prefix_eq}
use devengine.Clientip.Headers.{
  Header, forwarded, x_forwarded_for, x_real_ip, cf_connecting_ip, parse_header,
}
use devengine.Clientip.Folded.{spells, lower_first}

pub record Resolver : Type 0 where
  pub trusted : List Prefix
  pub priority : List Header

-- What of a request matters: the peer's address, and the values of each header.
pub record Request : Type 0 where
  pub remote_addr : Text
  pub values : Header → List Text

pub data ClientipError : Type 0 where
  empty_priority : ClientipError
  invalid_cidr duplicate_cidr unsupported_header duplicate_header : Text → ClientipError

unfoldable pub header_eq : Header → Header → Bool
header_eq forwarded forwarded = true
header_eq x_forwarded_for x_forwarded_for = true
header_eq x_real_ip x_real_ip = true
header_eq cf_connecting_ip cf_connecting_ip = true
header_eq h k = false

-- `supportedHeaders[strings.ToLower(key)]`
unfoldable pub supported_header : Text → Option Header
unfolding spells lower_first
supported_header key =
    if spells lower_first (str "forwarded") key
    then some forwarded
    else if spells lower_first (str "x-forwarded-for") key
    then some x_forwarded_for
    else if spells lower_first (str "x-real-ip") key
    then some x_real_ip
    else if spells lower_first (str "cf-connecting-ip") key
    then some cf_connecting_ip
    else none

unfoldable pub read_cidr : Text → List Prefix → Result ClientipError (List Prefix)
unfolding parse_prefix masked prefix_eq any trim_space
read_cidr raw trusted = elim (parse_prefix (trim_space raw)) [
  | none ↦ err (invalid_cidr raw)
  | some p ↦
      if any (prefix_eq (masked p)) trusted
      then err (duplicate_cidr raw)
      else ok (trusted ++ masked p ∷ [])
]

unfoldable pub read_header : Text → List Header → Result ClientipError (List Header)
unfolding supported_header header_eq any trim_space
read_header raw headers = elim (supported_header (trim_space raw)) [
  | none ↦ err (unsupported_header raw)
  | some h ↦
      if any (header_eq h) headers then err (duplicate_header raw) else ok (headers ++ h ∷ [])
]

unfoldable pub read_all {ℓ} :
    {A : Type ℓ}
    → (Text → List A → Result ClientipError (List A))
    → List Text
    → List A
    → Result ClientipError (List A)
read_all read [] read_so_far = ok read_so_far
read_all read (raw ∷ rest) read_so_far = do more ← read raw read_so_far; read_all read rest more

unfoldable pub new : List Text → List Text → Result ClientipError Resolver
unfolding read_all read_cidr read_header
new trusted_cidrs priority = if length priority == 0 then err empty_priority else do
  trusted ← read_all read_cidr trusted_cidrs []
  headers ← read_all read_header priority []
  ok (record { trusted = trusted; priority = headers })

unfoldable pub contains : Resolver → Addr → Bool
unfolding any prefix_contains
contains r addr = any (λ p. prefix_contains p (unmap addr)) r.trusted

-- An address without a zone, in the short form, and its text.
unfoldable pub peer_of : Addr → Option (Addr × Text)
unfolding unmap zone_of addr_text
peer_of a = if length (zone_of a) == 0 then some (unmap a, addr_text (unmap a)) else none

unfoldable pub parse_remote_addr : Text → Option (Addr × Text)
unfolding parse_addr parse_addr_port peer_of
parse_remote_addr raw = elim (parse_addr_port raw) [
  | some a ↦ peer_of a
  | none ↦ elim (parse_addr raw) [ none ↦ none | some a ↦ peer_of a ]
]

-- From the last hop on: the first that is not trusted.
unfoldable pub last_untrusted : Resolver → List Addr → Option Addr
unfolding contains
last_untrusted r [] = none
last_untrusted r (a ∷ chain) = elim (last_untrusted r chain) [
  | some b ↦ some b
  | none ↦ if contains r a then none else some a
]

-- The client that a chain names, or the peer.
unfoldable pub client_of : Resolver → Text → Option (List Addr) → Text
unfolding last_untrusted addr_text
client_of r peer_text none = peer_text
client_of r peer_text (some chain) = elim (last_untrusted r chain) [
  | none ↦ peer_text
  | some a ↦ addr_text a
]

-- The loop over the headers: the first that the request has decides.
unfoldable pub by_priority : Resolver → Request → Text → List Header → Text
unfolding client_of parse_header
by_priority r req peer_text [] = peer_text
by_priority r req peer_text (h ∷ hs) =
    if length (req.values h) == 0
    then by_priority r req peer_text hs
    else client_of r peer_text (parse_header h (req.values h))

-- `none` is a nil request.
unfoldable pub resolve : Resolver → Option Request → Text
unfolding parse_remote_addr contains by_priority
resolve r none = []
resolve r (some req) = elim (parse_remote_addr req.remote_addr) [
  | none ↦ []
  | some (peer, peer_text) ↦
      if contains r peer then by_priority r req peer_text r.priority else peer_text
]
