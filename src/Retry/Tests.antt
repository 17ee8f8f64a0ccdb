-- ===== src/Retry/Tests.antt =====
-- Retries and error messages at fixed inputs.
use devengine.Common.{ℕ, ◌≤◌, ◌<◌, ◌≡◌, refl, some, [], ◌∷◌, Text, arith, valid_utf8, false}
use devengine.Retry.Backoff.{backoff, delay, grow}
use devengine.Retry.Bounds.{backoff_bounds}
use devengine.Retry.Truncate.{truncate_utf8}
use devengine.Retry.Prefix.{LongestValid, truncate_utf8-LongestValid}

backoff_bounds_example : (d : ℕ) × (backoff (λ _. 0) 500 3 ≡ some d) × (2_000 ≤ d) × (d < 4_000)
backoff_bounds_example = backoff_bounds (λ _. 0) 500 3 (λ n h. h) (omega arith) (omega arith)

third_retry : backoff (λ _. 7) 500 3 ≡ some 2_007
unfolding backoff delay grow
third_retry = refl

-- "aé", cut after two bytes.
abbrev accented : Text
accented = 0x61 ∷ 0xc3 ∷ 0xa9 ∷ []

cut_before_accent : truncate_utf8 accented 2 ≡ 0x61 ∷ []
unfolding truncate_utf8 valid_utf8
cut_before_accent = refl

truncate_utf8-LongestValid_example : LongestValid accented 2 (truncate_utf8 accented 2)
truncate_utf8-LongestValid_example = truncate_utf8-LongestValid accented 2 (omega arith)

lone_byte_invalid : valid_utf8 (0xff ∷ []) ≡ false
unfolding valid_utf8
lone_byte_invalid = refl
