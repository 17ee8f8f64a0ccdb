-- ===== src/Clientip/Split.antt =====
-- httpx/clientip/clientip.go: `splitOutsideQuotes`, and `strings.Split`.
use devengine.Common.{
  ℕ, ◌==◌, ltb, Bool, true, false, not, ◌&&◌, ◌||◌, Option, none, some, List, [], ◌∷◌, ◌++◌, Text,
  length, trim_space, if◌then◌else◌,
}

-- Every member has a value.
unfoldable pub all_some {ℓ κ} :
    {A : Type ℓ} {B : Type κ} → (A → Option B) → List A → Option (List B)
all_some f [] = some []
all_some f (a ∷ rest) = elim (f a) [
  | none ↦ none
  | some b ↦ elim (all_some f rest) [ none ↦ none | some bs ↦ some (b ∷ bs) ]
]

unfoldable pub prepend : ℕ → List Text → List Text
prepend c [] = (c ∷ []) ∷ []
prepend c (p ∷ ps) = (c ∷ p) ∷ ps

-- `strings.Split` at a byte
unfoldable pub split_byte : ℕ → Text → List Text
unfolding prepend
split_byte sep [] = [] ∷ []
split_byte sep (c ∷ s) =
    let rest = split_byte sep s in if c == sep then [] ∷ rest else prepend c rest

-- The state of the loop of `splitOutsideQuotes`: the text from `start` to here, and the parts.
pub record Scan : Type 0 where
  pub part : Text
  pub parts : List Text
  pub quoted : Bool
  pub escaped : Bool

unfoldable pub is_control : ℕ → Bool
is_control c = (c == 13) || ((c == 10) || ((ltb c 0x20 && not (c == 9)) || (c == 0x7f)))

-- A part ends: it is trimmed, and not empty.
unfoldable pub end_part : Scan → Option Scan
unfolding trim_space
end_part st =
    let part = trim_space st.part in
    if length part == 0 then none else some (record st { part = []; parts = st.parts ++ part ∷ [] })

unfoldable pub scan_step : ℕ → ℕ → Scan → Option Scan
unfolding is_control end_part
scan_step sep c st =
    if is_control c
    then none
    else if st.escaped
    then some (record st { part = st.part ++ c ∷ []; escaped = false })
    else if st.quoted && (c == 92)
    then some (record st { part = st.part ++ c ∷ []; escaped = true })
    else if c == 34
    then some (record st { part = st.part ++ c ∷ []; quoted = not st.quoted })
    else if (c == sep) && not st.quoted
    then end_part st
    else some (record st { part = st.part ++ c ∷ [] })

unfoldable pub scan : ℕ → Text → Scan → Option Scan
unfolding scan_step
scan sep [] st = some st
scan sep (c ∷ s) st = elim (scan_step sep c st) [ none ↦ none | some st' ↦ scan sep s st' ]

abbrev pub scan_start : Scan
scan_start = record { part = []; parts = []; quoted = false; escaped = false }

unfoldable pub scan_end : Option Scan → Option (List Text)
unfolding end_part
scan_end none = none
scan_end (some st) =
    if st.quoted || st.escaped
    then none
    else elim (end_part st) [ none ↦ none | some st' ↦ some st'.parts ]

unfoldable pub split_outside_quotes : Text → ℕ → Option (List Text)
unfolding scan scan_end
split_outside_quotes raw sep = scan_end (scan sep raw scan_start)
