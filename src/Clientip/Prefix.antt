-- ===== src/Clientip/Prefix.antt =====
-- `netip.ParsePrefix`, `Masked` and `Contains`.
use devengine.Common.{
  ℕ, ◌-◌, ◌*◌, ◌/◌, ◌^◌, ◌==◌, leb, Bool, false, not, ◌&&◌, Option, none, some, [], ◌∷◌, Text,
  text_eq, length, if◌then◌else◌,
}
use devengine.Clientip.{Addr, v4, v6, zone_of, is6, cut_last}
use devengine.Clientip.Ipv6.{parse_addr, parse_decimal}

pub record Prefix : Type 0 where
  pub addr : Addr
  pub bits : ℕ

-- A number of two digits or more does not begin with a zero.
unfoldable pub leading_zero : Text → Bool
leading_zero (c ∷ d ∷ s) = not (leb b'1' c && leb c b'9')
leading_zero s = false

unfoldable pub parse_bits : Addr → Text → Option Prefix
unfolding leading_zero parse_decimal is6
parse_bits a s =
    if leading_zero s then none else elim (parse_decimal (if is6 a then 128 else 32) s) [
      | none ↦ none
      | some bits ↦ some (record { addr = a; bits = bits })
    ]

unfoldable pub parse_prefix : Text → Option Prefix
unfolding cut_last parse_addr zone_of parse_bits
parse_prefix s = elim (cut_last b'/' s) [
  | none ↦ none
  | some (l, r) ↦ elim (parse_addr l) [
    | none ↦ none
    | some a ↦ if length (zone_of a) == 0 then parse_bits a r else none
  ]
]

unfoldable pub mask : Addr → ℕ → Addr
mask (v4 a) bits = v4 (a / 2 ^ (32 - bits) * 2 ^ (32 - bits))
mask (v6 a zone) bits = v6 (a / 2 ^ (128 - bits) * 2 ^ (128 - bits)) []

unfoldable pub masked : Prefix → Prefix
unfolding mask
masked p = record { addr = mask p.addr p.bits; bits = p.bits }

unfoldable pub same_bits : Addr → ℕ → Addr → Bool
same_bits (v4 a) bits (v4 b) = a / 2 ^ (32 - bits) == b / 2 ^ (32 - bits)
same_bits (v6 a zone) bits (v6 b other) =
    (length other == 0) && (a / 2 ^ (128 - bits) == b / 2 ^ (128 - bits))
same_bits (v4 a) bits (v6 b zone) = false
same_bits (v6 a zone) bits (v4 b) = false

-- `prefix.Contains(addr)`
unfoldable pub prefix_contains : Prefix → Addr → Bool
unfolding same_bits
prefix_contains p a = same_bits p.addr p.bits a

unfoldable pub addr_eq : Addr → Addr → Bool
addr_eq (v4 a) (v4 b) = a == b
addr_eq (v6 a zone) (v6 b other) = (a == b) && text_eq zone other
addr_eq (v4 a) (v6 b zone) = false
addr_eq (v6 a zone) (v4 b) = false

unfoldable pub prefix_eq : Prefix → Prefix → Bool
unfolding addr_eq
prefix_eq p q = addr_eq p.addr q.addr && (p.bits == q.bits)
