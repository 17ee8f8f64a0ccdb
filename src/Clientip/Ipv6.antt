-- ===== src/Clientip/Ipv6.antt =====
-- `netip.ParseAddr` with its parser for IPv6, `netip.ParseAddrPort`, and `Addr.String`.
use devengine.Common.{
  ℕ, zero, suc, ◌+◌, ◌-◌, ◌*◌, ◌/◌, ◌%◌, ◌==◌, ltb, leb, Bool, false, not, ◌&&◌, Option, none, some,
  List, [], ◌∷◌, ◌++◌, Text, length, take, drop, if◌then◌else◌,
}
use devengine.Clientip.{Addr, v4, v6, is4, is6, hex_digit, is_digit, cut, cut_last, parse_ipv4}

-- A group of hexadecimal digits: its value, the number of digits and what follows. A fifth digit
-- is an error.
unfoldable pub read_hex : Text → ℕ → ℕ → Option (ℕ × ℕ × Text)
unfolding hex_digit
read_hex [] acc off = some (acc, off, [])
read_hex (c ∷ s) acc off = elim (hex_digit c) [
  | none ↦ some (acc, off, c ∷ s)
  | some d ↦ if ltb 3 off then none else read_hex s (acc * 16 + d) (off + 1)
]

-- The groups that were read, where "::" stood among them, and the text that is left.
pub record Groups : Type 0 where
  pub groups : List ℕ
  pub ellipsis : Option ℕ
  pub left : Text

pub data Round : Type 0 where
  failed : Round
  stopped : Groups → Round
  going : Groups → Round

-- Behind a group: the end, or a colon with more behind it, or "::".
unfoldable pub behind_group : Text → List ℕ → Option ℕ → Round
behind_group [] groups ellipsis =
    stopped (record { groups = groups; ellipsis = ellipsis; left = [] })
behind_group (c ∷ []) groups ellipsis = failed
behind_group (c ∷ d ∷ s) groups ellipsis =
    if not (c == b':')
    then failed
    else if not (d == b':')
    then going (record { groups = groups; ellipsis = ellipsis; left = d ∷ s })
    else elim ellipsis [
      | some _ ↦ failed
      | none ↦
          let next : Groups = record {
            groups = groups;
            ellipsis = some (length groups);
            left = s;
          } in
          if length s == 0 then stopped next else going next
    ]

-- The last 32 bits as an IPv4 address.
unfoldable pub embedded : Groups → Round
unfolding parse_ipv4
embedded g =
    if elim g.ellipsis [ some _ ↦ false | none ↦ not (length g.groups == 6) ]
    then failed
    else if ltb 6 (length g.groups)
    then failed
    else elim (parse_ipv4 g.left) [
      | none ↦ failed
      | some a ↦ stopped (record {
        groups = g.groups ++ a / 65_536 ∷ a % 65_536 ∷ [];
        ellipsis = g.ellipsis;
        left = [];
      })
    ]

unfoldable pub starts_with_byte : ℕ → Text → Bool
starts_with_byte b [] = false
starts_with_byte b (c ∷ s) = c == b

-- The body of the loop of `parseIPv6`.
unfoldable pub read_group : Groups → Round
unfolding read_hex behind_group embedded starts_with_byte
read_group g = elim (read_hex g.left 0 0) [
  | none ↦ failed
  | some (acc, off, rest) ↦
      if off == 0
      then failed
      else if starts_with_byte b'.' rest
      then embedded g
      else behind_group rest (g.groups ++ acc ∷ []) g.ellipsis
]

-- The loop makes a round for each group that is missing, eight at most.
unfoldable pub read_groups : ℕ → Groups → Option Groups
unfolding read_group
read_groups zero g = some g
read_groups (suc k) g = elim (read_group g) [
  | failed ↦ none
  | stopped g' ↦ some g'
  | going g' ↦ read_groups k g'
]

unfoldable pub zeros : ℕ → List ℕ
zeros zero = []
zeros (suc n) = 0 ∷ zeros n

-- The whole text is used, and "::" stands for one group at least.
unfoldable pub expand : Groups → Option (List ℕ)
unfolding zeros
expand g = if not (length g.left == 0) then none else elim g.ellipsis [
  | none ↦ if length g.groups == 8 then some g.groups else none
  | some e ↦
      if ltb (length g.groups) 8
      then some (take e g.groups ++ (zeros (8 - length g.groups) ++ drop e g.groups))
      else none
]

unfoldable pub value_of : ℕ → List ℕ → ℕ
value_of a [] = a
value_of a (g ∷ gs) = value_of (a * 65_536 + g) gs

unfoldable pub groups_start : Text → Groups
groups_start (c ∷ d ∷ s) =
    if (c == b':') && (d == b':')
    then record { groups = []; ellipsis = some 0; left = s }
    else record { groups = []; ellipsis = none; left = c ∷ d ∷ s }
groups_start s = record { groups = []; ellipsis = none; left = s }

unfoldable pub parse_groups : Text → Option ℕ
unfolding groups_start read_groups expand value_of
parse_groups s =
    let g = groups_start s in
    if elim g.ellipsis [ some _ ↦ length g.left == 0 | none ↦ false ]
    then some 0
    else elim (read_groups 8 g) [
      | none ↦ none
      | some g' ↦ elim (expand g') [ none ↦ none | some gs ↦ some (value_of 0 gs) ]
    ]

unfoldable pub with_zone : Text → Option ℕ → Option Addr
with_zone zone none = none
with_zone zone (some a) = some (v6 a zone)

unfoldable pub parse_ipv6 : Text → Option Addr
unfolding parse_groups with_zone cut
parse_ipv6 s = elim (cut b'%' s) [
  | none ↦ with_zone [] (parse_groups s)
  | some (l, zone) ↦ if length zone == 0 then none else with_zone zone (parse_groups l)
]

unfoldable pub as_v4 : Option ℕ → Option Addr
as_v4 none = none
as_v4 (some a) = some (v4 a)

-- The first of ".", ":" and "%" tells which parser reads the text.
unfoldable pub parse_as : Text → Text → Option Addr
unfolding parse_ipv4 parse_ipv6 as_v4
parse_as s [] = none
parse_as s (c ∷ rest) =
    if c == b'.'
    then as_v4 (parse_ipv4 s)
    else if c == b':'
    then parse_ipv6 s
    else if c == b'%'
    then none
    else parse_as s rest

unfoldable pub parse_addr : Text → Option Addr
unfolding parse_as
parse_addr s = parse_as s s

-- Decimal digits, one at least, with a value up to `max`.
unfoldable pub decimal : ℕ → ℕ → Text → Option ℕ
unfolding is_digit
decimal max n [] = if leb n max then some n else none
decimal max n (c ∷ s) = if is_digit c then decimal max (n * 10 + (c - b'0')) s else none

unfoldable pub parse_decimal : ℕ → Text → Option ℕ
unfolding decimal
parse_decimal max [] = none
parse_decimal max (c ∷ s) = decimal max 0 (c ∷ s)

-- The text between square brackets.
unfoldable pub bracketed : Text → Option Text
unfolding cut_last
bracketed s = elim (cut_last b']' s) [
  | some (l, []) ↦ some l
  | some (l, c ∷ r) ↦ none
  | none ↦ none
]

-- The host of `host:port`: brackets hold an IPv6 address, and only brackets do.
unfoldable pub parse_host : Text → Option Addr
unfolding bracketed parse_addr is4 is6
parse_host [] = none
parse_host (c ∷ s) =
    if c == b'['
    then elim (bracketed s) [
      | none ↦ none
      | some inner ↦ elim (parse_addr inner) [
        | none ↦ none
        | some a ↦ if is4 a then none else some a
      ]
    ]
    else elim (parse_addr (c ∷ s)) [ none ↦ none | some a ↦ if is6 a then none else some a ]

unfoldable pub parse_addr_port : Text → Option Addr
unfolding parse_host parse_decimal
parse_addr_port s = elim (cut_last b':' s) [
  | none ↦ none
  | some (host, port) ↦ elim (parse_decimal 65_535 port) [ none ↦ none | some _ ↦ parse_host host ]
]
