-- ===== src/Config/Laws.antt =====
-- How the readers of the environment agree, and what a list holds.
use devengine.Common.{
  ◌≡◌, ◌≢◌, sym, ap, true, not, some, [], ◌∷◌, Memᴰ, Text, text_eq, text_eq_iff, trim_space, arith,
  Result, ok, err, Option-cases, inl, inr, map, Memᴰ-keep_if, Memᴰ-map,
}
use devengine.Config.{
  Env, ConfigError, trimmed_value, string_or, required_string, required_secret, split_comma, csv,
}

ok_eq : {a b : Text} → ◌≡◌ {A = Result ConfigError Text} (ok a) (ok b) → b ≡ a
ok_eq z = cc

err_ok : {e : ConfigError} {a : Text} → err e ≡ ok a → ⊥
err_ok z = cc

-- What a required setting yields is what the optional reader yields, whatever its fallback, and
-- what the reader of a required secret holds.
pub required_string-string_or :
    (env : Env) (key value fallback : Text)
    → required_string env key ≡ ok value
    → (string_or env key fallback ≡ value)
      × (required_secret env key ≡ ok (record { reveal = value }))
unfolding required_string string_or required_secret
required_string-string_or env key value fallback h = elim (Option-cases (trimmed_value env key)) [
  | inl p ↦ absurd (err_ok (rw (p, required_string) at h))
  | inr (t, p) ↦
      let same : value ≡ t = ok_eq (rw (p, required_string) at h) in
      (
        rw (p, string_or) (sym same),
        rw (p, required_secret) (ap (λ v. ok (record { reveal = v })) (sym same)),
      )
]

-- Every value of a list is some part between commas, trimmed, and none is empty.
pub csv-parts :
    (env : Env) (key raw value : Text)
    → trimmed_value env key ≡ some raw
    → Memᴰ value (csv env key)
    → (value ≢ [])
      × ((part : Text) × Memᴰ part ((split_comma raw).0 ∷ (split_comma raw).1)
          × (value ≡ trim_space part))
unfolding csv
csv-parts env key raw value p m =
    let parts = (split_comma raw).0 ∷ (split_comma raw).1 in
    let (k, full) =
      Memᴰ-keep_if (λ t. not (text_eq t [])) (map trim_space parts) (rw (p, csv) at m) in
    (filled value full, Memᴰ-map trim_space parts k)
  where
    filled : (v : Text) → not (text_eq v []) ≡ true → v ≢ []
    filled v h e = ground (arith, text_eq_iff v [])
