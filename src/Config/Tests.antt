-- ===== src/Config/Tests.antt =====
-- Reading a small environment.
use devengine.Common.{◌≡◌, refl, true, some, [], ◌∷◌, text_eq, str, ok, lookup, negsuc, pos}
use devengine.Config.{Env, trimmed_value, required_string, csv, bool, int}

abbrev env : Env
env key =
    lookup key ((str "HOST", str " db ") ∷ (str "TAGS", str "a, ,b") ∷ (str "N", str "-7") ∷ [])

host : required_string env (str "HOST") ≡ ok (str "db")
unfolding required_string lookup text_eq
host = refl

tags : csv env (str "TAGS") ≡ str "a" ∷ str "b" ∷ []
unfolding csv lookup text_eq
tags = refl

raw_tags : trimmed_value env (str "TAGS") ≡ some (str "a, ,b")
unfolding trimmed_value lookup text_eq
raw_tags = refl

negative : int env (str "N") (pos 0) ≡ ok (negsuc 6)
unfolding int lookup text_eq
negative = refl

fallback : bool env (str "FLAG") true ≡ ok true
unfolding bool lookup text_eq
fallback = refl
