-- ===== src/Clientip/Headers.antt =====
-- httpx/clientip/clientip.go: the forwarding headers, from their texts to chains of addresses.
use devengine.Common.{
  ℕ, ◌+◌, ◌==◌, ltb, leb, Bool, true, false, not, ◌&&◌, ◌||◌, Option, none, some, List, [], ◌∷◌,
  Text, str, length, trim_space, join_with, take, drop, ◌-◌, if◌then◌else◌,
}
use devengine.Clientip.Split.{all_some, split_byte, split_outside_quotes}
use devengine.Clientip.Folded.{equal_fold}
use devengine.Clientip.{
  Addr, is4, is6, zone_of, is_unspecified, unmap, contains_byte, cut, cut_last,
}
use devengine.Clientip.Ipv6.{parse_addr, parse_addr_port, starts_with_byte}

pub data Header : Type 0 where
  forwarded x_forwarded_for x_real_ip cf_connecting_ip : Header

abbrev pub max_header_bytes : ℕ
max_header_bytes = 8192

abbrev pub max_hops : ℕ
max_hops = 32

-- The address without a port, in the short form, if it may stand in a chain.
unfoldable pub usable : (Addr → Bool) → Option Addr → Option Addr
unfolding zone_of is_unspecified
usable p none = none
usable p (some a) =
    if p a && ((length (zone_of a) == 0) && not (is_unspecified a)) then some (unmap a) else none

unfoldable pub parse_bare_addr : Text → Option Addr
unfolding contains_byte parse_addr usable
parse_bare_addr raw =
    if (length raw == 0) || (contains_byte b'[' raw || contains_byte b']' raw)
    then none
    else usable (λ a. true) (parse_addr raw)

unfoldable pub prepend_to : ℕ → Option Text → Option Text
prepend_to c none = none
prepend_to c (some t) = some (c ∷ t)

-- The text of a quoted string without its escapes.
unfoldable pub unescape : Text → Option Text
unescape [] = some []
unescape (c ∷ []) = if c == 92 then none else some (c ∷ [])
unescape (c ∷ d ∷ s) = elim (c == 92) [
  | true ↦ prepend_to d (unescape s)
  | false ↦ prepend_to c (unescape (d ∷ s))
]

-- The body of `parseForwardedNode`, once the quotes are gone.
unfoldable pub parse_unquoted_node : Bool → Text → Option Addr
unfolding equal_fold usable parse_addr parse_addr_port parse_bare_addr
parse_unquoted_node quoted raw =
    if equal_fold raw (str "unknown") || (starts_with_byte b'_' raw || (length raw == 0))
    then none
    else if starts_with_byte b'[' raw
    then elim (parse_addr_port raw) [
      | some a ↦ usable is6 (some a)
      | none ↦ elim (cut_last b']' raw) [
        | some (l, []) ↦ usable is6 (parse_addr (drop 1 l))
        | some (l, c ∷ r) ↦ none
        | none ↦ none
      ]
    ]
    else elim (if quoted then parse_addr_port raw else none) [
      | some a ↦ usable is4 (some a)
      | none ↦ elim (parse_bare_addr raw) [ none ↦ none | some a ↦ if is4 a then some a else none ]
    ]

-- The last byte of a text is a double quote.
unfoldable pub ends_with_quote : Text → Bool
ends_with_quote [] = false
ends_with_quote (c ∷ []) = c == 34
ends_with_quote (c ∷ d ∷ s) = ends_with_quote (d ∷ s)

unfoldable pub parse_forwarded_node : Text → Option Addr
unfolding ends_with_quote unescape parse_unquoted_node
parse_forwarded_node raw =
    if (if starts_with_byte 34 raw then not (ends_with_quote raw) else ends_with_quote raw)
    then none
    else if starts_with_byte 34 raw && leb 2 (length raw)
    then elim (unescape (take (length raw - 2) (drop 1 raw))) [
      | none ↦ none
      | some inner ↦ parse_unquoted_node true inner
    ]
    else parse_unquoted_node false raw

-- A parameter `name=value` of an element, and the address found so far.
unfoldable pub param_step : Text → Option Addr → Option (Option Addr)
unfolding cut trim_space equal_fold parse_forwarded_node
param_step param found = elim (cut b'=' (trim_space param)) [
  | none ↦ none
  | some (name, value) ↦
      if (length (trim_space name) == 0) || (length (trim_space value) == 0)
      then none
      else if not (equal_fold (trim_space name) (str "for"))
      then some found
      else elim found [
        | some a ↦ none
        | none ↦ elim (parse_forwarded_node (trim_space value)) [
          | none ↦ none
          | some a ↦ some (some a)
        ]
      ]
]

unfoldable pub read_params : List Text → Option Addr → Option Addr
unfolding param_step
read_params [] found = found
read_params (p ∷ ps) found = elim (param_step p found) [
  | none ↦ none
  | some found' ↦ read_params ps found'
]

unfoldable pub parse_element : Text → Option Addr
unfolding split_outside_quotes read_params
parse_element element = elim (split_outside_quotes element b';') [
  | none ↦ none
  | some params ↦ read_params params none
]

unfoldable pub parse_forwarded : Text → Option (List Addr)
unfolding split_outside_quotes parse_element all_some
parse_forwarded raw = elim (split_outside_quotes raw b',') [
  | none ↦ none
  | some elements ↦
      if (length elements == 0) || ltb max_hops (length elements)
      then none
      else all_some parse_element elements
]

unfoldable pub header_bytes : List Text → ℕ
header_bytes [] = 0
header_bytes (v ∷ vs) = length v + header_bytes vs

-- A header that holds one address.
unfoldable pub parse_single : List Text → Option (List Addr)
unfolding contains_byte parse_bare_addr
parse_single (v ∷ []) =
    if contains_byte b',' v
    then none
    else elim (parse_bare_addr (trim_space v)) [ none ↦ none | some a ↦ some (a ∷ []) ]
parse_single vs = none

unfoldable pub parse_chain : Header → Text → Option (List Addr)
unfolding parse_forwarded split_byte all_some parse_bare_addr
parse_chain forwarded joined = parse_forwarded joined
parse_chain other joined =
    let parts = split_byte b',' joined in
    if (length parts == 0) || ltb max_hops (length parts)
    then none
    else all_some (λ part. parse_bare_addr (trim_space part)) parts

unfoldable pub parse_header : Header → List Text → Option (List Addr)
unfolding parse_single header_bytes parse_chain
parse_header cf_connecting_ip values = parse_single values
parse_header x_real_ip values = parse_single values
parse_header header values =
    if ltb max_header_bytes (header_bytes values)
    then none
    else parse_chain header (join_with (str ",") values)
