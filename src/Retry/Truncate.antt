-- ===== src/Retry/Truncate.antt =====
-- `truncateUTF8` of jobs/worker.go and outbox/outbox.go.
use devengine.Common.{ℕ, zero, suc, leb, if◌then◌else◌, Text, length, take, valid_utf8}

-- `for !utf8.ValidString(value) { value = value[:len(value)-1] }`: `n` is `len(value)`.
unfoldable pub shrink : ℕ → Text → Text
shrink zero value = value
shrink (suc n) value =
    let rest = shrink n (take n value) in if valid_utf8 value then value else rest

unfoldable pub truncate_utf8 : Text → ℕ → Text
unfolding shrink
truncate_utf8 value max_bytes =
    if leb (length value) max_bytes
    then value
    else shrink (length (take max_bytes value)) (take max_bytes value)
