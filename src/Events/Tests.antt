-- ===== src/Events/Tests.antt =====
-- Registrations of two handlers.
use devengine.Common.{
  ◌≡◌, refl, false, none, some, [], ◌∷◌, Text, text_eq, str, trim_space, lookup, insert, ok,
  returned,
}
use devengine.Events.{Dynamic, by_value, Registry, register, handlers_at, handlers_for}
use devengine.Events.Laws.{Adds, register-Adds, IsSound}

abbrev on_user : Dynamic
on_user = by_value (record {
  event_type = str " user ";
  handle_f = some (record { code = 1; call = λ _. returned none });
})

abbrev with_user : Registry
with_user = record { handlers = (str "user", on_user ∷ []) ∷ []; frozen = false }

trims : trim_space (str " user ") ≡ str "user"
unfolding trim_space
trims = refl

accepted : register (record { handlers = []; frozen = false }) (some on_user) ≡ ok with_user
unfolding register text_eq lookup insert
accepted = refl

register-Adds_example :
    (t : Text) × Adds (record { handlers = []; frozen = false }) with_user t on_user
register-Adds_example =
    register-Adds (record { handlers = []; frozen = false }) on_user with_user accepted

abbrev no_handlers : Registry
no_handlers = record { handlers = []; frozen = false }

no_handlers-IsSound : IsSound no_handlers
unfolding handlers_at lookup
no_handlers-IsSound = record { filed = λ t d m. elim m [ ]; apart = λ t. tt }

gets_handler : handlers_for with_user (str "user") ≡ on_user ∷ []
unfolding handlers_for lookup text_eq
gets_handler = refl
