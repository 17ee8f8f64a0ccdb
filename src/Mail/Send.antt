-- ===== src/Mail/Send.antt =====
-- mail/smtp.go: the checks of a message, its text, and `Send` as the sequence of what it asks of the
-- connection, with the connection's answers.
use devengine.Common.{
  Bool, not, ◌||◌, Option, none, some, List, [], ◌∷◌, ◌++◌, Text, str, Result, ok, err,
  if◌then◌else◌, text_eq, trim_space,
}
use devengine.Mail.{TlsConfig, SmtpConfig, Address, SmtpMessage, has_newline, tls_config}

-- What `Send` asks of the dialer, the connection and the library's SMTP client, in the source's words.
pub data Command : Type 0 where
  connect set_deadline initialize_client ask_start_tls start_data finish_data quit : Command
  tls_handshake start_tls : TlsConfig → Command
  authenticate : Text → Text → Command
  set_sender set_recipient write_data : Text → Command

pub data SendError : Type 0 where
  not_configured invalid_sender invalid_recipient invalid_subject not_advertised : SendError
  canceled deadline_not_set : Text → SendError
  interrupted failed : Command → Text → SendError

-- The library's `mail.ParseAddress` (the address it finds), `Address.String` and `mime.QEncoding`.
pub record Library : Type 0 where
  pub parse_address : Text → Option Text
  pub print_address : Address → Text
  pub encode_word : Text → Text

-- The other side, after the commands so far, the latest first: the error of the latest one, what
-- `ctx.Err` gives, and whether the deadline has passed.
pub record Session : Type 0 where
  pub answer : List Command → Option Text
  pub context_error : List Command → Option Text
  pub deadline_passed : List Command → Bool

unfoldable pub validate_address : Library → Address → Option Address
validate_address lib a =
    if not (text_eq (trim_space a.name) a.name)
      || not (text_eq (trim_space a.address) a.address)
      || has_newline (a.name ++ a.address)
    then none
    else elim (lib.parse_address a.address) [
      | some parsed ↦ if text_eq parsed a.address then some a else none
      | none ↦ none
    ]

unfoldable pub render : Library → Address → Address → Text → Text → Text
render lib from to subject body =
    str "From: "
    ++ lib.print_address from
    ++ crlf
    ++ str "To: "
    ++ lib.print_address to
    ++ crlf
    ++ str "Subject: "
    ++ lib.encode_word subject
    ++ crlf
    ++ str "MIME-Version: 1.0"
    ++ crlf
    ++ str "Content-Type: text/plain; charset=UTF-8"
    ++ crlf
    ++ crlf
    ++ body
  where
    crlf : Text
    crlf = 13 ∷ 10 ∷ []

-- `transportError`
unfoldable pub transport_error : Session → List Command → Command → Text → SendError
transport_error s history c e = elim (s.context_error history) [
  | some cause ↦ interrupted c cause
  | none ↦
      if s.deadline_passed history
      then interrupted c (str "context deadline exceeded")
      else failed c e
]

unfoldable pub error_of : Session → List Command → Command → Text → SendError
unfolding transport_error
error_of s history set_deadline e = deadline_not_set e
error_of s history ask_start_tls e = not_advertised
error_of s history c e = transport_error s history c e

-- A writer that failed is closed, which ends the data.
unfoldable pub after_failure : Command → List Command → List Command
after_failure (write_data t) history = finish_data ∷ history
after_failure c history = history

-- The commands in order, up to the first that fails, with all that were given.
unfoldable pub converse : Session → List Command → List Command → List Command × Option SendError
unfolding error_of after_failure
converse s history [] = (history, none)
converse s history (c ∷ cs) = elim (s.answer (c ∷ history)) [
  | none ↦ converse s (c ∷ history) cs
  | some e ↦ (after_failure c (c ∷ history), some (error_of s (after_failure c (c ∷ history)) c e))
]

-- What comes after the client is initialized and TLS is started.
unfoldable pub delivery : SmtpConfig → Text → Text → Text → List Command
delivery cfg from to raw =
    (if text_eq cfg.username [] then [] else authenticate cfg.username cfg.password ∷ [])
    ++ set_sender from ∷ set_recipient to ∷ start_data ∷ write_data raw ∷ finish_data ∷ quit ∷ []

-- What comes before it, with implicit TLS or not and with StartTLS or not.
unfoldable pub preamble : TlsConfig → Bool → Bool → List Command → List Command
preamble t implicit start rest =
    connect ∷ set_deadline ∷ (if implicit then tls_handshake t ∷ [] else [])
    ++ initialize_client ∷ (if start then ask_start_tls ∷ start_tls t ∷ [] else [])
    ++ rest

abbrev pub commands : SmtpConfig → List Command → List Command
commands cfg rest = preamble (tls_config cfg) cfg.implicit_tls cfg.start_tls rest

unfoldable pub transmit :
    Library
    → Session
    → SmtpConfig
    → SmtpMessage
    → Address
    → Address
    → List Command × Option SendError
unfolding render converse delivery preamble
transmit lib s cfg m from to =
    converse s []
      (commands cfg (delivery cfg from.address to.address (render lib from to m.subject m.body)))

-- The checks before the connection: sender, recipient, subject, context.
unfoldable pub checked : Library → Session → SmtpMessage → Result SendError (Address × Address)
unfolding validate_address
checked lib s m = elim (validate_address lib m.from) [
  | none ↦ err invalid_sender
  | some from ↦ elim (validate_address lib m.to) [
    | none ↦ err invalid_recipient
    | some to ↦
        if text_eq (trim_space m.subject) [] || has_newline m.subject
        then err invalid_subject
        else elim (s.context_error []) [ some e ↦ err (canceled e) | none ↦ ok (from, to) ]
  ]
]

unfoldable pub sent :
    Library
    → Session
    → SmtpConfig
    → SmtpMessage
    → Result SendError (Address × Address)
    → List Command × Option SendError
unfolding transmit
sent lib s cfg m (err e) = ([], some e)
sent lib s cfg m (ok (from, to)) = transmit lib s cfg m from to

-- `Send`; `none` is a nil transport.
unfoldable pub send :
    Library → Session → Option SmtpConfig → SmtpMessage → List Command × Option SendError
unfolding checked sent
send lib s none m = ([], some not_configured)
send lib s (some cfg) m = sent lib s cfg m (checked lib s m)
