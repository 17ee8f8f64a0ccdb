-- ===== src/Common/Spaces.antt =====
-- `strings.TrimSpace` on UTF-8 bytes.
use Prim.Native.Nat.{ℕ, zero, suc}
use mathlib.Core.Option.{Option, none, some}
use mathlib.Core.List.{List, [], ◌∷◌, map, reverse}
use devengine.Common.Tests.{◌==◌, if◌then◌else◌}
use devengine.Common.Lists.{length}
use devengine.Common.Texts.{Text}

-- The encodings of the characters of `unicode.IsSpace`.
abbrev pub spaces : List Text
spaces =
    (9 ∷ [])
    ∷ (10 ∷ [])
    ∷ (11 ∷ [])
    ∷ (12 ∷ [])
    ∷ (13 ∷ [])
    ∷ (32 ∷ [])
    ∷ (0xc2 ∷ 0x85 ∷ [])
    ∷ (0xc2 ∷ 0xa0 ∷ [])
    ∷ (0xe1 ∷ 0x9a ∷ 0x80 ∷ [])
    ∷ (0xe2 ∷ 0x80 ∷ 0x80 ∷ [])
    ∷ (0xe2 ∷ 0x80 ∷ 0x81 ∷ [])
    ∷ (0xe2 ∷ 0x80 ∷ 0x82 ∷ [])
    ∷ (0xe2 ∷ 0x80 ∷ 0x83 ∷ [])
    ∷ (0xe2 ∷ 0x80 ∷ 0x84 ∷ [])
    ∷ (0xe2 ∷ 0x80 ∷ 0x85 ∷ [])
    ∷ (0xe2 ∷ 0x80 ∷ 0x86 ∷ [])
    ∷ (0xe2 ∷ 0x80 ∷ 0x87 ∷ [])
    ∷ (0xe2 ∷ 0x80 ∷ 0x88 ∷ [])
    ∷ (0xe2 ∷ 0x80 ∷ 0x89 ∷ [])
    ∷ (0xe2 ∷ 0x80 ∷ 0x8a ∷ [])
    ∷ (0xe2 ∷ 0x80 ∷ 0xa8 ∷ [])
    ∷ (0xe2 ∷ 0x80 ∷ 0xa9 ∷ [])
    ∷ (0xe2 ∷ 0x80 ∷ 0xaf ∷ [])
    ∷ (0xe2 ∷ 0x81 ∷ 0x9f ∷ [])
    ∷ (0xe3 ∷ 0x80 ∷ 0x80 ∷ [])
    ∷ []

-- What follows a prefix.
unfoldable pub strip : Text → Text → Option Text
strip [] t = some t
strip (a ∷ s) [] = none
strip (a ∷ s) (b ∷ t) = if a == b then strip s t else none

-- What follows the first of some prefixes that the text begins with.
unfoldable pub strip_any : List Text → Text → Option Text
unfolding strip
strip_any [] t = none
strip_any (p ∷ ps) t = elim (strip p t) [ some rest ↦ some rest | none ↦ strip_any ps t ]

unfoldable pub trim_start : List Text → ℕ → Text → Text
unfolding strip_any
trim_start ps zero t = t
trim_start ps (suc n) t = elim (strip_any ps t) [ some rest ↦ trim_start ps n rest | none ↦ t ]

unfoldable pub trim_space : Text → Text
unfolding trim_start
trim_space t =
    let left = trim_start spaces (length t) t in
    reverse (trim_start (map reverse spaces) (length left) (reverse left))
