-- ===== src/Mail/Tests.antt =====
-- mail/smtp.go: a message that is sent over StartTLS, and one that the server refuses.
use devengine.Common.{
  ◌≡◌, refl, true, false, none, some, [], ◌∷◌, str, pos, ok, err, text_eq, trim_space, any,
}
use devengine.Mail.{
  SmtpConfig, SmtpMessage, invalid_host_or_port, new_smtp, config_refusal, with_timeout,
  contains_text, has_newline, bad_port, is_negative, tls_refusal, default_timeout,
}
use devengine.Mail.Send.{
  connect, set_deadline, initialize_client, ask_start_tls, not_advertised, Library, Session,
  validate_address, converse, delivery, preamble, transmit, checked, sent, send, after_failure,
  error_of,
}
use devengine.Mail.Secured.{Secured, send-Secured}

abbrev plain : SmtpConfig
plain = record {
  host = str " mx ";
  port = pos 587;
  username = str "u";
  password = str "p";
  start_tls = true;
  implicit_tls = false;
  tls = none;
  timeout = pos 0;
}

abbrev accepted : SmtpConfig
accepted = record {
  host = str "mx";
  port = pos 587;
  username = str "u";
  password = str "p";
  start_tls = true;
  implicit_tls = false;
  tls = none;
  timeout = pos 10000000000;
}

start_tls_accepted : new_smtp plain ≡ ok accepted
unfolding new_smtp config_refusal with_timeout text_eq trim_space contains_text has_newline bad_port
    is_negative tls_refusal default_timeout any
start_tls_accepted = refl

-- Port 0 is refused.
port_refused :
    new_smtp (record {
      host = str "mx";
      port = pos 0;
      username = [];
      password = [];
      start_tls = false;
      implicit_tls = false;
      tls = none;
      timeout = pos 0;
    })
    ≡ err invalid_host_or_port
unfolding new_smtp config_refusal with_timeout text_eq trim_space contains_text has_newline bad_port
    any
port_refused = refl

abbrev library : Library
library = record {
  parse_address = λ a. some a;
  print_address = λ a. a.address;
  encode_word = λ s. s;
}

-- A server that accepts everything.
abbrev willing : Session
willing = record { answer = λ h. none; context_error = λ h. none; deadline_passed = λ h. false }

-- A server that does not advertise STARTTLS.
abbrev bare : Session
bare = record {
  answer = λ h. elim h [ ask_start_tls ∷ _ ↦ some [] | _ ↦ none ];
  context_error = λ h. none;
  deadline_passed = λ h. false;
}

abbrev hello : SmtpMessage
hello = record {
  from = record { name = []; address = str "a" };
  to = record { name = []; address = str "b" };
  subject = str "hi";
  body = str "x";
}

hello_refused :
    send library bare (some accepted) hello
    ≡ (ask_start_tls ∷ initialize_client ∷ set_deadline ∷ connect ∷ [], some not_advertised)
unfolding send checked sent transmit converse preamble delivery error_of after_failure
    validate_address text_eq trim_space has_newline any
hello_refused = refl

send-Secured_example : Secured willing (send library willing (some accepted) hello).0
send-Secured_example = send-Secured plain accepted library willing hello start_tls_accepted refl
