-- ===== src/Clientip/Print.antt =====
-- `netip.Addr.String`.
use devengine.Common.{
  ℕ, zero, suc, ◌+◌, ◌-◌, ◌/◌, ◌%◌, ◌^◌, ◌==◌, ltb, leb, ◌&&◌, List, [], ◌∷◌, ◌++◌, Text, str,
  length, take, drop, if◌then◌else◌,
}
use devengine.Clientip.{Addr, v4, v6}

-- A byte in decimal, without leading zeros.
unfoldable pub byte_text : ℕ → Text
byte_text n =
    if ltb n 10
    then (b'0' + n) ∷ []
    else if ltb n 100
    then (b'0' + n / 10) ∷ (b'0' + n % 10) ∷ []
    else (b'0' + n / 100) ∷ (b'0' + n / 10 % 10) ∷ (b'0' + n % 10) ∷ []

unfoldable pub ipv4_text : ℕ → Text
unfolding byte_text
ipv4_text a =
    byte_text (a / 16_777_216)
    ++ b'.'
      ∷ (byte_text (a / 65_536 % 256)
          ++ b'.' ∷ (byte_text (a / 256 % 256) ++ b'.' ∷ byte_text (a % 256)))

unfoldable pub hex_text_digit : ℕ → ℕ
hex_text_digit d = if ltb d 10 then b'0' + d else b'a' + (d - 10)

-- A group in hexadecimal, without leading zeros.
unfoldable pub group_text : ℕ → Text
unfolding hex_text_digit
group_text g =
    (if leb 0x1000 g then hex_text_digit (g / 4096) ∷ [] else [])
    ++ ((if leb 0x100 g then hex_text_digit (g / 256 % 16) ∷ [] else [])
        ++ ((if leb 0x10 g then hex_text_digit (g / 16 % 16) ∷ [] else [])
            ++ hex_text_digit (g % 16) ∷ []))

unfoldable pub groups_of : ℕ → ℕ → List ℕ
groups_of zero a = []
groups_of (suc k) a = groups_of k (a / 65_536) ++ a % 65_536 ∷ []

unfoldable pub zero_run : List ℕ → ℕ
zero_run [] = 0
zero_run (g ∷ gs) = if g == 0 then suc (zero_run gs) else 0

-- The first of the longest runs of two zero groups or more, as its place and length.
unfoldable pub longest_run : ℕ → List ℕ → ℕ × ℕ → ℕ × ℕ
unfolding zero_run
longest_run i [] best = best
longest_run i (g ∷ gs) best =
    let l = zero_run (g ∷ gs) in
    longest_run (i + 1) gs (if leb 2 l && ltb best.1 l then (i, l) else best)

unfoldable pub colons : List ℕ → Text
unfolding group_text
colons [] = []
colons (g ∷ []) = group_text g
colons (g ∷ h ∷ gs) = group_text g ++ b':' ∷ colons (h ∷ gs)

unfoldable pub ipv6_text : ℕ → Text
unfolding groups_of longest_run colons
ipv6_text a =
    let gs = groups_of 8 a in
    let run = longest_run 0 gs (0, 0) in
    if run.1 == 0
    then colons gs
    else colons (take run.0 gs) ++ b':' ∷ b':' ∷ colons (drop (run.0 + run.1) gs)

unfoldable pub addr_text : Addr → Text
unfolding ipv4_text ipv6_text
addr_text (v4 a) = ipv4_text a
addr_text (v6 a zone) =
    (if a / 2 ^ 32 == 0xffff then str "::ffff:" ++ ipv4_text (a % 2 ^ 32) else ipv6_text a)
    ++ (if length zone == 0 then [] else b'%' ∷ zone)
