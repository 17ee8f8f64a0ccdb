-- ===== src/Events.antt =====
-- events/events.go: the event envelope and the registry of event handlers.
pub mod Laws
mod Tests
use devengine.Common.{
  ℕ, ℤ, Bool, true, false, ◌&&◌, ◌==◌, Option, none, some, List, [], ◌∷◌, ◌++◌, Text, text_eq, str,
  trim_space, if◌then◌else◌, any, Map, lookup, insert, Result, ok, err, Kind, Outcome, returned,
  is_reference,
}

pub record Event : Type 0 where
  pub id : Text
  pub event_type : Text
  pub aggregate_id : Text
  pub aggregate_type : Text
  pub payload : Text
  pub occurred_at : ℕ
  pub schema_version : ℤ

-- A function value: its code pointer, and what a call does.
pub record Function : Type 0 where
  pub code : ℕ
  pub call : Event → Outcome

-- `HandlerFunc`; `none` is the nil function.
pub record HandlerFunc : Type 0 where
  pub event_type : Text
  pub handle_f : Option Function

-- A value of another type: the type and whether `==` is defined on it, its kind, whether it is nil,
-- a number that equal values share, and its methods.
pub record Value : Type 0 where
  pub go_type : ℕ
  pub comparable : Bool
  pub kind : Kind
  pub is_nil : Bool
  pub identity : ℕ
  pub event_type : Text
  pub handle : Event → Outcome

-- What the interface holds; a pointer comes with its address.
pub data Dynamic : Type 0 where
  by_value : HandlerFunc → Dynamic
  by_pointer : Option (ℕ × HandlerFunc) → Dynamic
  by_type : Value → Dynamic

-- `none` is the nil interface.
abbrev pub Handler : Type 0
Handler = Option Dynamic

abbrev pub is_none {ℓ} : {A : Type ℓ} → Option A → Bool
is_none none = true
is_none (some _) = false

unfoldable pub is_nil_handler : Handler → Bool
is_nil_handler none = true
is_nil_handler (some (by_value h)) = is_none h.handle_f
is_nil_handler (some (by_pointer none)) = true
is_nil_handler (some (by_pointer (some (_, h)))) = is_none h.handle_f
is_nil_handler (some (by_type v)) = is_reference v.kind && v.is_nil

-- `HandlerFunc.Handle`
unfoldable pub call_func : HandlerFunc → Event → Outcome
call_func h e = elim h.handle_f [ none ↦ returned none | some f ↦ f.call e ]

-- `Handle` and `EventType` through the interface; on a nil interface or pointer they panic.
unfoldable pub handle : Handler → Event → Outcome
unfolding call_func
handle none e = Outcome.panicked (str "nil pointer dereference")
handle (some (by_value h)) e = call_func h e
handle (some (by_pointer none)) e = Outcome.panicked (str "nil pointer dereference")
handle (some (by_pointer (some (_, h)))) e = call_func h e
handle (some (by_type v)) e = v.handle e

unfoldable pub event_type : Handler → Option Text
event_type none = none
event_type (some (by_value h)) = some h.event_type
event_type (some (by_pointer none)) = none
event_type (some (by_pointer (some (_, h)))) = some h.event_type
event_type (some (by_type v)) = some v.event_type

-- `reflect.ValueOf(f).Pointer()`, which is 0 for nil.
abbrev pub code_pointer : Option Function → ℕ
code_pointer none = 0
code_pointer (some f) = f.code

abbrev pub same_address : Option (ℕ × HandlerFunc) → Option (ℕ × HandlerFunc) → Bool
same_address none none = true
same_address (some (a, _)) (some (b, _)) = a == b
same_address _ _ = false

-- A `HandlerFunc` holds a function, so `==` is not defined on it; it is on pointers to it.
unfoldable pub same_handler : Dynamic → Dynamic → Bool
same_handler (by_value a) (by_value b) =
    text_eq a.event_type b.event_type && (code_pointer a.handle_f == code_pointer b.handle_f)
same_handler (by_pointer a) (by_pointer b) = same_address a b
same_handler (by_type a) (by_type b) =
    (a.go_type == b.go_type) && (a.comparable && (a.identity == b.identity))
same_handler _ _ = false

pub record Registry : Type 0 where
  pub handlers : Map (List Dynamic)
  pub frozen : Bool

pub data RegistryError : Type 0 where
  invalid_handler registry_frozen duplicate : RegistryError

unfoldable pub new_registry : Registry
new_registry = record { handlers = []; frozen = false }

abbrev pub or_nothing : Option (List Dynamic) → List Dynamic
or_nothing none = []
or_nothing (some hs) = hs

-- `r.handlers[t]`: a missing key reads as no handlers.
unfoldable pub handlers_at : Registry → Text → List Dynamic
handlers_at r t = or_nothing (lookup t r.handlers)

-- The part of `Register` behind the checks of the handler.
unfoldable pub add_handler : Registry → Text → Dynamic → Result RegistryError Registry
unfolding handlers_at same_handler any
add_handler r t d =
    let existing = handlers_at r t in
    if r.frozen
    then err registry_frozen
    else if any (λ e. same_handler e d) existing
    then err duplicate
    else ok (record r { handlers = insert t (existing ++ d ∷ []) r.handlers })

unfoldable pub register : Registry → Handler → Result RegistryError Registry
unfolding add_handler is_nil_handler event_type trim_space
register r none = err invalid_handler
register r (some d) =
    if is_nil_handler (some d) then err invalid_handler else elim (event_type (some d)) [
      | none ↦ err invalid_handler
      | some name ↦
          let t = trim_space name in if text_eq t [] then err invalid_handler else add_handler r t d
    ]

unfoldable pub freeze : Registry → Registry
freeze r = record r { frozen = true }

unfoldable pub handlers_for : Registry → Text → List Dynamic
unfolding handlers_at
handlers_for r t = handlers_at r t ++ (if text_eq t (str "*") then [] else handlers_at r (str "*"))
