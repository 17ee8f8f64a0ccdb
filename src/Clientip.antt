-- ===== src/Clientip.antt =====
-- net/netip as httpx/clientip/clientip.go uses it: addresses and the texts that stand for them.
pub mod Ipv6
pub mod Print
pub mod Prefix
pub mod Split
pub mod Folded
pub mod Headers
pub mod Resolve
pub mod Client
pub mod Forged
pub mod Configured
mod Tests
use devengine.Common.{
  ℕ, zero, suc, ◌+◌, ◌-◌, ◌*◌, ◌/◌, ◌%◌, ◌^◌, ◌==◌, ltb, leb, Bool, true, false, not, ◌&&◌, ◌||◌,
  Option, none, some, List, [], ◌∷◌, ◌++◌, Text, text_eq, length, take, drop, if◌then◌else◌,
}

-- An address of 32 bits, or one of 128 bits with its zone ("" for none).
pub data Addr : Type 0 where
  v4 : ℕ → Addr
  v6 : ℕ → Text → Addr

unfoldable pub is4 : Addr → Bool
is4 (v4 a) = true
is4 (v6 a zone) = false

unfoldable pub is6 : Addr → Bool
is6 (v4 a) = false
is6 (v6 a zone) = true

unfoldable pub zone_of : Addr → Text
zone_of (v4 a) = []
zone_of (v6 a zone) = zone

unfoldable pub is_unspecified : Addr → Bool
is_unspecified (v4 a) = a == 0
is_unspecified (v6 a zone) = (a == 0) && text_eq zone []

-- An IPv4 address that is written as one of IPv6 becomes an IPv4 address.
unfoldable pub unmap : Addr → Addr
unmap (v4 a) = v4 a
unmap (v6 a zone) = if a / 2 ^ 32 == 0xffff then v4 (a % 2 ^ 32) else v6 a zone

unfoldable pub is_digit : ℕ → Bool
is_digit c = leb b'0' c && leb c b'9'

unfoldable pub hex_digit : ℕ → Option ℕ
unfolding is_digit
hex_digit c =
    if is_digit c
    then some (c - b'0')
    else if leb b'a' c && leb c b'f'
    then some (c - b'a' + 10)
    else if leb b'A' c && leb c b'F'
    then some (c - b'A' + 10)
    else none

unfoldable pub contains_byte : ℕ → Text → Bool
contains_byte b [] = false
contains_byte b (c ∷ s) = (c == b) || contains_byte b s

-- What stands before the first such byte, and what stands behind it.
unfoldable pub cut : ℕ → Text → Option (Text × Text)
cut b [] = none
cut b (c ∷ s) =
    if c == b then some ([], s) else elim (cut b s) [ none ↦ none | some (l, r) ↦ some (c ∷ l, r) ]

-- The same at the last such byte.
unfoldable pub cut_last : ℕ → Text → Option (Text × Text)
cut_last b [] = none
cut_last b (c ∷ s) = elim (cut_last b s) [
  | some (l, r) ↦ some (c ∷ l, r)
  | none ↦ if c == b then some ([], s) else none
]

-- The loop of `parseIPv4Fields`: the octets so far as one number, how many there are, the
-- current octet and its digits.
pub record Fields : Type 0 where
  pub octets : ℕ
  pub count : ℕ
  pub val : ℕ
  pub digits : ℕ

unfoldable pub field_step : ℕ → Text → Fields → Option Fields
unfolding is_digit
field_step c rest f =
    if is_digit c
    then if (f.digits == 1) && (f.val == 0)
      then none
      else if ltb 255 (f.val * 10 + (c - b'0'))
      then none
      else some (record f { val = f.val * 10 + (c - b'0'); digits = f.digits + 1 })
    else if (c == b'.') && not ((f.digits == 0) || ((length rest == 0) || (f.count == 3)))
    then some (record { octets = f.octets * 256 + f.val; count = f.count + 1; val = 0; digits = 0 })
    else none

unfoldable pub ipv4_fields : Text → Fields → Option ℕ
unfolding field_step
ipv4_fields [] f = if f.count == 3 then some (f.octets * 256 + f.val) else none
ipv4_fields (c ∷ s) f = elim (field_step c s f) [ none ↦ none | some f' ↦ ipv4_fields s f' ]

abbrev pub no_fields : Fields
no_fields = record { octets = 0; count = 0; val = 0; digits = 0 }

unfoldable pub parse_ipv4 : Text → Option ℕ
unfolding ipv4_fields
parse_ipv4 s = ipv4_fields s no_fields
