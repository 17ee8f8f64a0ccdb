-- ===== src/Mail/Secured.antt =====
-- mail/smtp.go: what a transport with TLS sends, and when.
use devengine.Common.{
  ◌≡◌, refl, sym, ◌∙◌, leb, Bool, true, false, not, ◌&&◌, ◌||◌, Option, none, some, List, [], ◌∷◌,
  Text, ok, err, arith, ok-eq, true-false, inl, inr, Option-cases, err-eq-ok, subst,
}
use devengine.Mail.{
  TlsConfig, SmtpConfig, SmtpMessage, new_smtp, config_refusal, tls_refusal, tls_config,
  tls_or_empty, with_timeout, default_timeout, version_tls12,
}
use devengine.Mail.Send.{
  Command, connect, set_deadline, initialize_client, ask_start_tls, tls_handshake, start_tls,
  authenticate, set_sender, set_recipient, write_data, Library, Session, checked, sent, preamble,
  converse, transmit, send, after_failure,
}

-- Certificates are verified, and TLS has version 1.2 at least.
unfoldable pub is_safe : TlsConfig → Bool
is_safe t = not t.insecure_skip_verify && leb version_tls12 t.min_version

-- TLS was started safely, and the start was answered without an error.
unfoldable pub is_secured : Session → List Command → Bool
unfolding is_safe
is_secured s [] = false
is_secured s (c ∷ earlier) =
    (is_start c && answered (s.answer (c ∷ earlier))) || is_secured s earlier
  where
    is_start : Command → Bool
    is_start (tls_handshake t) = is_safe t
    is_start (start_tls t) = is_safe t
    is_start c = false

    answered : Option Text → Bool
    answered none = true
    answered (some e) = false

-- A command that has the credentials, an address or the message in it.
unfoldable pub is_private : Command → Bool
is_private (authenticate user password) = true
is_private (set_sender a) = true
is_private (set_recipient a) = true
is_private (write_data t) = true
is_private c = false

-- Every private command comes after a safe start of TLS.
unfoldable pub Secured : Session → List Command → Type 0
unfolding is_private
Secured s [] = Unit
Secured s (c ∷ earlier) = (is_private c ≡ true → is_secured s earlier ≡ true) × Secured s earlier

config_refusal-tls : (c : SmtpConfig) → config_refusal c ≡ none → tls_refusal c.tls ≡ none
unfolding config_refusal
config_refusal-tls c h = ground arith

tls_refusal-is_safe :
    (c : SmtpConfig) (t : Option TlsConfig)
    → c.tls ≡ t
    → tls_refusal t ≡ none
    → is_safe (tls_config c) ≡ true
unfolding tls_refusal tls_config tls_or_empty is_safe
tls_refusal-is_safe c none e h = rw (e) refl
tls_refusal-is_safe c (some t) e h = rw (e) (ground arith)

new_smtp-is_safe : (c cfg : SmtpConfig) → new_smtp c ≡ ok cfg → is_safe (tls_config cfg) ≡ true
unfolding new_smtp with_timeout
new_smtp-is_safe c cfg h = elim (Option-cases (config_refusal (with_timeout c c.timeout))) [
  | inl e ↦
      let q : ok (with_timeout c (default_timeout c.timeout)) ≡ ok cfg = rw (e, new_smtp) at h in
      subst (λ d. is_safe (tls_config d) ≡ true) (ok-eq q)
        (tls_refusal-is_safe (with_timeout c (default_timeout c.timeout)) c.tls refl
          (config_refusal-tls (with_timeout c c.timeout) e))
  | inr (e, q) ↦ absurd (err-eq-ok (rw (q, new_smtp) at h))
]

is_secured-later :
    (s : Session) (c : Command) (h : List Command)
    → is_secured s h ≡ true
    → is_secured s (c ∷ h) ≡ true
unfolding is_secured
is_secured-later s c h e = rw (e) (ground arith)

stopped-Secured :
    (s : Session) (c : Command) (h : List Command)
    → Secured s (c ∷ h)
    → Secured s (after_failure c (c ∷ h))
unfolding after_failure Secured
stopped-Secured s c h v =
    elim c as (λ d. Secured s (d ∷ h) → Secured s (after_failure d (d ∷ h))) [
      | write_data t ↦ λ w. ((λ p. absurd (true-false (sym p))), w)
      | _ ↦ λ w. w
    ]
      v

converse-step :
    (s : Session) (c : Command) (h cs : List Command)
    → Secured s (c ∷ h)
    → (s.answer (c ∷ h) ≡ none → Secured s (converse s (c ∷ h) cs).0)
    → Secured s (converse s h (c ∷ cs)).0
unfolding converse
converse-step s c h cs v k = elim (Option-cases (s.answer (c ∷ h))) [
  | inl e ↦ rw (e, converse) (k e)
  | inr (e, q) ↦ rw (q, converse) (stopped-Secured s c h v)
]

converse-Secured :
    (s : Session) (h cs : List Command)
    → Secured s h
    → is_secured s h ≡ true
    → Secured s (converse s h cs).0
unfolding converse Secured
converse-Secured s h [] v e = v
converse-Secured s h (c ∷ cs) v e =
    converse-step s c h cs ((λ p. e), v)
      (λ q. converse-Secured s (c ∷ h) cs ((λ p. e), v) (is_secured-later s c h e))

plain-Secured :
    (s : Session) (c : Command) (h : List Command)
    → is_private c ≡ false
    → Secured s h
    → Secured s (c ∷ h)
unfolding Secured
plain-Secured s c h p v = ((λ q. absurd (true-false (sym q ∙ p))), v)

plain_step :
    (s : Session) (c : Command) (h cs : List Command)
    → is_private c ≡ false
    → Secured s h
    → (s.answer (c ∷ h) ≡ none → Secured s (c ∷ h) → Secured s (converse s (c ∷ h) cs).0)
    → Secured s (converse s h (c ∷ cs)).0
plain_step s c h cs p v k =
    let w : Secured s (c ∷ h) = plain-Secured s c h p v in converse-step s c h cs w (λ q. k q w)

is_secured-handshake :
    (s : Session) (t : TlsConfig) (h : List Command)
    → is_safe t ≡ true
    → s.answer (tls_handshake t ∷ h) ≡ none
    → is_secured s (tls_handshake t ∷ h) ≡ true
unfolding is_secured
is_secured-handshake s t h safe e = rw (safe, e) refl

is_secured-start_tls :
    (s : Session) (t : TlsConfig) (h : List Command)
    → is_safe t ≡ true
    → s.answer (start_tls t ∷ h) ≡ none
    → is_secured s (start_tls t ∷ h) ≡ true
unfolding is_secured
is_secured-start_tls s t h safe e = rw (safe, e) refl

-- The commands up to the start of TLS have nothing private.
preamble-Secured :
    (s : Session) (t : TlsConfig) (implicit start : Bool) (rest : List Command)
    → is_safe t ≡ true
    → (start || implicit) ≡ true
    → Secured s (converse s [] (preamble t implicit start rest)).0
unfolding Secured is_private preamble
preamble-Secured s t true start rest safe e = plain_step s connect [] _ refl tt (λ q v.
    plain_step s set_deadline _ _ refl v (λ r w.
      plain_step s (tls_handshake t) _ _ refl w
        (λ a x. converse-Secured s _ _ x (is_secured-handshake s t _ safe a))))
preamble-Secured s t false true rest safe e = plain_step s connect [] _ refl tt (λ q v.
    plain_step s set_deadline _ _ refl v (λ r w. plain_step s initialize_client _ _ refl w (λ a x.
      plain_step s ask_start_tls _ _ refl x (λ b y.
        plain_step s (start_tls t) _ _ refl y
          (λ d z. converse-Secured s _ _ z (is_secured-start_tls s t _ safe d))))))
preamble-Secured s t false false rest safe e = absurd (true-false (sym e))

-- A transport that NewSMTP has accepted with StartTLS or implicit TLS gives the connection the
-- credentials, an address or the message only after a start of TLS that was answered without an
-- error, with verified certificates and version 1.2 at least, whatever the server answers and
-- whenever the context ends.
pub send-Secured :
    (c cfg : SmtpConfig) (lib : Library) (s : Session) (m : SmtpMessage)
    → new_smtp c ≡ ok cfg
    → (cfg.start_tls || cfg.implicit_tls) ≡ true
    → Secured s (send lib s (some cfg) m).0
unfolding send sent transmit Secured
send-Secured c cfg lib s m v e = elim (checked lib s m) as (λ r. Secured s (sent lib s cfg m r).0) [
  | err x ↦ tt
  | ok (from, to) ↦ preamble-Secured s (tls_config cfg) _ _ _ (new_smtp-is_safe c cfg v) e
]
