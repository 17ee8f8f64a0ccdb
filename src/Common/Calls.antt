-- ===== src/Common/Calls.antt =====
-- Calls of the application's handlers, and what `reflect` says of an interface value.
use mathlib.Core.Bool.{Bool, true, false}
use mathlib.Core.Option.{Option}
use devengine.Common.Texts.{Text}

-- The kinds of `reflect` that a test for nil tells apart.
pub data Kind : Type 0 where
  chan func interface map pointer slice other : Kind

-- The kinds whose values may be nil.
abbrev pub is_reference : Kind → Bool
is_reference other = false
is_reference _ = true

-- How a call of a handler ends: it returns nil or an error (with the error's text), or panics.
pub data Outcome : Type 0 where
  returned : Option Text → Outcome
  panicked : Text → Outcome
