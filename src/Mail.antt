-- ===== src/Mail.antt =====
-- mail/smtp.go: the settings of the SMTP transport, the checks of a message, and `Send` as the
-- sequence of what it asks of the connection.
pub mod Send
pub mod Secured
mod Tests
use devengine.Common.{
  ℕ, zero, suc, ◌+◌, ◌==◌, ltb, Bool, true, false, not, ◌&&◌, ◌||◌, Option, none, some, List, [],
  ◌∷◌, ◌++◌, Text, str, ℤ, pos, negsuc, Result, ok, err, if◌then◌else◌, text_eq, trim_space, any,
  strip,
}

-- What the source sets and reads of `tls.Config`.
pub record TlsConfig : Type 0 where
  pub insecure_skip_verify : Bool
  pub min_version : ℕ
  pub server_name : Text

pub record SmtpConfig : Type 0 where
  pub host : Text
  pub port : ℤ
  pub username : Text
  pub password : Text
  pub start_tls : Bool
  pub implicit_tls : Bool
  pub tls : Option TlsConfig
  pub timeout : ℤ

pub record Address : Type 0 where
  pub name : Text
  pub address : Text

pub record SmtpMessage : Type 0 where
  pub from : Address
  pub to : Address
  pub subject : Text
  pub body : Text

pub data SmtpConfigError : Type 0 where
  invalid_host_or_port tls_exclusive credentials_apart invalid_timeout : SmtpConfigError
  verification_disabled old_tls : SmtpConfigError

-- `tls.VersionTLS12`
abbrev version_tls12 : ℕ
version_tls12 = 771

-- `strings.ContainsAny(s, "\r\n")`
unfoldable pub has_newline : Text → Bool
has_newline s = any (λ c. (c == 13) || (c == 10)) s

-- `strings.Contains`
unfoldable pub contains_text : Text → Text → Bool
contains_text [] part = elim (strip part []) [ some rest ↦ true | none ↦ false ]
contains_text (c ∷ s) part = elim (strip part (c ∷ s)) [
  | some rest ↦ true
  | none ↦ contains_text s part
]

unfoldable pub bad_port : ℤ → Bool
bad_port (pos n) = ltb n 1 || ltb 65535 n
bad_port (negsuc n) = true

unfoldable pub is_negative : ℤ → Bool
is_negative (pos n) = false
is_negative (negsuc n) = true

unfoldable pub tls_refusal : Option TlsConfig → Option SmtpConfigError
tls_refusal none = none
tls_refusal (some t) =
    if t.insecure_skip_verify
    then some verification_disabled
    else if not (t.min_version == 0) && ltb t.min_version version_tls12
    then some old_tls
    else none

unfoldable pub config_refusal : SmtpConfig → Option SmtpConfigError
unfolding has_newline contains_text bad_port is_negative tls_refusal
config_refusal c =
    if text_eq c.host []
      || has_newline c.host
      || contains_text c.host (str "://")
      || bad_port c.port
    then some invalid_host_or_port
    else if c.start_tls && c.implicit_tls
    then some tls_exclusive
    else if not (same (text_eq c.username []) (text_eq c.password []))
    then some credentials_apart
    else if is_negative c.timeout
    then some invalid_timeout
    else tls_refusal c.tls
  where
    same : Bool → Bool → Bool
    same true b = b
    same false b = not b

-- Ten seconds when none is set, in nanoseconds.
unfoldable pub default_timeout : ℤ → ℤ
default_timeout (pos zero) = pos 10000000000
default_timeout d = d

-- The configuration with its host trimmed and that timeout.
unfoldable pub with_timeout : SmtpConfig → ℤ → SmtpConfig
with_timeout c d = record {
  host = trim_space c.host;
  port = c.port;
  username = c.username;
  password = c.password;
  start_tls = c.start_tls;
  implicit_tls = c.implicit_tls;
  tls = c.tls;
  timeout = d;
}

-- `NewSMTP`
unfoldable pub new_smtp : SmtpConfig → Result SmtpConfigError SmtpConfig
unfolding config_refusal default_timeout with_timeout
new_smtp c = elim (config_refusal (with_timeout c c.timeout)) [
  | some e ↦ err e
  | none ↦ ok (with_timeout c (default_timeout c.timeout))
]

unfoldable pub tls_or_empty : Option TlsConfig → TlsConfig
tls_or_empty (some t) = t
tls_or_empty none = record { insecure_skip_verify = false; min_version = 0; server_name = [] }

-- `tlsConfig`
unfoldable pub tls_config : SmtpConfig → TlsConfig
unfolding tls_or_empty
tls_config c = record {
  insecure_skip_verify = (tls_or_empty c.tls).insecure_skip_verify;
  server_name =
      if text_eq (tls_or_empty c.tls).server_name []
      then c.host
      else (tls_or_empty c.tls).server_name;
  min_version =
      if (tls_or_empty c.tls).min_version == 0
      then version_tls12
      else (tls_or_empty c.tls).min_version;
}
