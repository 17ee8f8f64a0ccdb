-- ===== src/Common/Utf8.antt =====
-- `utf8.ValidString`: the automaton that reads well-formed UTF-8 a byte at a time.
use Prim.Native.Nat.{ℕ}
use mathlib.Core.Bool.{Bool, true, false, ◌&&◌}
use mathlib.Core.List.{[], ◌∷◌}
use devengine.Common.Tests.{leb, ltb, if◌then◌else◌}
use devengine.Common.Texts.{Text}

-- What may come next: a first byte, continuation bytes, or one from a narrower range (after
-- 0xE0, 0xED, 0xF0 and 0xF4).
pub data Utf8State : Type 0 where
  start one two three after_e0 after_ed after_f0 after_f4 malformed : Utf8State

abbrev pub in_range : ℕ → ℕ → ℕ → Bool
in_range lo hi b = leb lo b && leb b hi

unfoldable pub first_byte : ℕ → Utf8State
first_byte b =
    if ltb b 0x80
    then start
    else if in_range 0xc2 0xdf b
    then one
    else if in_range 0xe0 0xe0 b
    then after_e0
    else if in_range 0xed 0xed b
    then after_ed
    else if in_range 0xe1 0xef b
    then two
    else if in_range 0xf0 0xf0 b
    then after_f0
    else if in_range 0xf1 0xf3 b
    then three
    else if in_range 0xf4 0xf4 b
    then after_f4
    else malformed

unfoldable pub utf8_step : Utf8State → ℕ → Utf8State
unfolding first_byte
utf8_step start b = first_byte b
utf8_step one b = if in_range 0x80 0xbf b then start else malformed
utf8_step two b = if in_range 0x80 0xbf b then one else malformed
utf8_step three b = if in_range 0x80 0xbf b then two else malformed
utf8_step after_e0 b = if in_range 0xa0 0xbf b then one else malformed
utf8_step after_ed b = if in_range 0x80 0x9f b then one else malformed
utf8_step after_f0 b = if in_range 0x90 0xbf b then two else malformed
utf8_step after_f4 b = if in_range 0x80 0x8f b then two else malformed
utf8_step malformed b = malformed

unfoldable pub utf8_run : Utf8State → Text → Utf8State
unfolding utf8_step
utf8_run s [] = s
utf8_run s (b ∷ t) = utf8_run (utf8_step s b) t

unfoldable pub is_start : Utf8State → Bool
is_start start = true
is_start _ = false

unfoldable pub valid_utf8 : Text → Bool
unfolding utf8_run is_start
valid_utf8 t = is_start (utf8_run start t)
