-- ===== src/Config.antt =====
-- The settings from the environment (config/env.go).
pub mod Laws
mod Tests
use devengine.Common.{
  ℕ, ◌+◌, ◌*◌, ◌-◌, ◌&&◌, Bool, true, false, not, Option, none, some, List, [], ◌∷◌, ℤ, pos, negsuc,
  zero, suc, Text, text_eq, str, trim_space, leb, ltb, ◌==◌, if◌then◌else◌, any, keep_if, map,
  Result, ok, err,
}

-- `Env.Lookup`
abbrev pub Env : Type 0
Env = Text → Option Text

pub data ConfigError : Type 0 where
  required secret_not_set : Text → ConfigError
  invalid : Text → ConfigError

-- The trimmed value, `none` when the variable is unset or blank.
unfoldable pub trimmed_value : Env → Text → Option Text
unfolding trim_space
trimmed_value env key = elim (env key) [
  | none ↦ none
  | some value ↦ let t = trim_space value in if text_eq t [] then none else some t
]

unfoldable pub string_or : Env → Text → Text → Text
unfolding trimmed_value
string_or env key fallback = elim (trimmed_value env key) [ none ↦ fallback | some t ↦ t ]

-- `SecretValue`
pub record SecretValue : Type 0 where
  pub reveal : Text

-- `String`, and what the serializers write.
unfoldable pub secret_string : SecretValue → Text
secret_string s = str "***REDACTED***"

unfoldable pub secret : Env → Text → Text → SecretValue
unfolding string_or
secret env key fallback = record { reveal = string_or env key fallback }

unfoldable pub required_string : Env → Text → Result ConfigError Text
unfolding trimmed_value
required_string env key = elim (trimmed_value env key) [ none ↦ err (required key) | some t ↦ ok t ]

unfoldable pub required_secret : Env → Text → Result ConfigError SecretValue
unfolding trimmed_value
required_secret env key = elim (trimmed_value env key) [
  | none ↦ err (secret_not_set key)
  | some t ↦ ok (record { reveal = t })
]

abbrev pub true_texts : List Text
true_texts = str "1" ∷ str "t" ∷ str "T" ∷ str "true" ∷ str "TRUE" ∷ str "True" ∷ []

abbrev pub false_texts : List Text
false_texts = str "0" ∷ str "f" ∷ str "F" ∷ str "false" ∷ str "FALSE" ∷ str "False" ∷ []

-- `strconv.ParseBool`
unfoldable pub parse_bool : Text → Option Bool
unfolding any
parse_bool t =
    if any (text_eq t) true_texts
    then some true
    else if any (text_eq t) false_texts
    then some false
    else none

-- The value of decimal digits, of which there is one at least.
unfoldable pub parse_digits : ℕ → Text → Option ℕ
parse_digits n [] = some n
parse_digits n (b ∷ t) =
    let rest = parse_digits (n * 10 + (b - 48)) t in if leb 48 b && leb b 57 then rest else none

unfoldable pub parse_unsigned : Text → Option ℕ
unfolding parse_digits
parse_unsigned [] = none
parse_unsigned (b ∷ t) = parse_digits 0 (b ∷ t)

abbrev pub negated : ℕ → ℤ
negated zero = pos zero
negated (suc n) = negsuc n

-- `strconv.Atoi`: a sign and digits, within int64.
unfoldable pub atoi : Text → Option ℤ
unfolding parse_unsigned
atoi [] = none
atoi (b ∷ t) =
    if b == 45
    then elim (parse_unsigned t) [
      | none ↦ none
      | some n ↦ if leb n 9_223_372_036_854_775_808 then some (negated n) else none
    ]
    else elim (parse_unsigned (if b == 43 then t else b ∷ t)) [
      | none ↦ none
      | some n ↦ if ltb n 9_223_372_036_854_775_808 then some (pos n) else none
    ]

-- `Bool`, `Int` and `Duration`, by the parser of the type.
unfoldable pub parsed {ℓ} : {A : Type ℓ} → (Text → Option A) → Env → Text → A → Result ConfigError A
unfolding trimmed_value
parsed parse env key fallback = elim (trimmed_value env key) [
  | none ↦ ok fallback
  | some t ↦ elim (parse t) [ none ↦ err (invalid key) | some a ↦ ok a ]
]

unfoldable pub bool : Env → Text → Bool → Result ConfigError Bool
unfolding parsed parse_bool
bool env key fallback = parsed parse_bool env key fallback

unfoldable pub int : Env → Text → ℤ → Result ConfigError ℤ
unfolding parsed atoi
int env key fallback = parsed atoi env key fallback

-- `strings.Split(text, ",")`: the part before the first comma, and the others.
unfoldable pub split_comma : Text → Text × List Text
split_comma [] = ([], [])
split_comma (b ∷ t) =
    let (part, parts) = split_comma t in if b == 44 then ([], part ∷ parts) else (b ∷ part, parts)

unfoldable pub csv : Env → Text → List Text
unfolding trimmed_value split_comma trim_space keep_if
csv env key = elim (trimmed_value env key) [
  | none ↦ []
  | some raw ↦
      let (part, parts) = split_comma raw in
      keep_if (λ t. not (text_eq t [])) (map trim_space (part ∷ parts))
]

-- `MustLoad`: the errors of all loaders, which `errors.Join` joins; none is nil.
unfoldable pub must_load : List (Option ConfigError) → List ConfigError
must_load [] = []
must_load (none ∷ results) = must_load results
must_load (some e ∷ results) = e ∷ must_load results
