-- ===== src/Migrate/Files.antt =====
-- The names of migration files and their versions (migrate/migrate.go).
use devengine.Common.{
  ℕ, ◌+◌, ◌*◌, ◌-◌, Bool, ◌&&◌, ◌||◌, Option, none, some, [], ◌∷◌, Text, text_eq, str, leb, ltb,
  ◌==◌, if◌then◌else◌,
}

abbrev pub in_bytes : ℕ → ℕ → ℕ → Bool
in_bytes lo hi b = leb lo b && leb b hi

-- `\d`
abbrev pub is_digit : ℕ → Bool
is_digit b = in_bytes 48 57 b

-- `[a-zA-Z0-9_-]`
abbrev pub is_name_byte : ℕ → Bool
is_name_byte b = in_bytes 97 122 b || (in_bytes 65 90 b || (is_digit b || ((b == 95) || (b == 45))))

-- The longest prefix whose bytes pass a test, and the rest.
unfoldable pub span : (ℕ → Bool) → Text → Text × Text
span p [] = ([], [])
span p (b ∷ t) = let (u, v) = span p t in if p b then (b ∷ u, v) else ([], b ∷ t)

abbrev pub after_underscore : Text → Option Text
after_underscore [] = none
after_underscore (b ∷ t) = if b == 95 then some t else none

-- `^(\d+)_([a-zA-Z0-9_-]+)\.up\.sql$`: the two groups. No byte of a group can stand behind it, so the
-- longest prefixes are the only ones that can match.
unfoldable pub match_migration : Text → Option (Text × Text)
unfolding span
match_migration file =
    let (digits, rest) = span is_digit file in
    if text_eq digits [] then none else elim (after_underscore rest) [
      | none ↦ none
      | some tail ↦
          let (name, suffix) = span is_name_byte tail in
          if text_eq name []
          then none
          else if text_eq suffix (str ".up.sql")
          then some (digits, name)
          else none
    ]

-- The value of decimal digits behind a number already read.
unfoldable pub digits_value : ℕ → Text → ℕ
digits_value n [] = n
digits_value n (b ∷ t) = digits_value (n * 10 + (b - 48)) t

-- `strconv.ParseInt(digits, 10, 32)`: none beyond 2 ^ 31 - 1.
unfoldable pub parse_version : Text → Option ℕ
unfolding digits_value
parse_version t = let n = digits_value 0 t in if ltb n 2_147_483_648 then some n else none
