-- ===== src/Jobs/Registry.antt =====
-- The handler registry of jobs/jobs.go.
pub mod Laws
use devengine.Common.{
  Bool, true, false, ◌&&◌, Option, none, some, [], Text, text_eq, Map, lookup, insert,
  if◌then◌else◌, Result, ok, err, Kind, Outcome, is_reference,
}

-- What a non-nil interface value holds: its kind, whether that value is nil, and its method.
pub record Value : Type 0 where
  pub kind : Kind
  pub is_nil : Bool
  pub handle : Text → Outcome

-- `none` is the nil interface.
abbrev pub Handler : Type 0
Handler = Option Value

unfoldable pub is_nil_handler : Handler → Bool
is_nil_handler none = true
is_nil_handler (some v) = is_reference v.kind && v.is_nil

pub record Registry : Type 0 where
  pub handlers : Map Handler

pub data RegistryError : Type 0 where
  name_required : RegistryError
  handler_is_nil handler_registered handler_not_found : Text → RegistryError

unfoldable pub new_registry : Registry
new_registry = record { handlers = [] }

unfoldable pub register : Registry → Text → Handler → Result RegistryError Registry
register r name h =
    if text_eq name []
    then err name_required
    else if is_nil_handler h
    then err (handler_is_nil name)
    else elim (lookup name r.handlers) [
      | some _ ↦ err (handler_registered name)
      | none ↦ ok (record r { handlers = insert name h r.handlers })
    ]

unfoldable pub replace : Registry → Text → Handler → Result RegistryError Registry
replace r name h =
    if text_eq name []
    then err name_required
    else if is_nil_handler h
    then err (handler_is_nil name)
    else elim (lookup name r.handlers) [
      | none ↦ err (handler_not_found name)
      | some _ ↦ ok (record r { handlers = insert name h r.handlers })
    ]

-- A missing key reads as the nil interface.
unfoldable pub handler_for : Registry → Text → Handler
handler_for r name = elim (lookup name r.handlers) [ some h ↦ h | none ↦ none ]
