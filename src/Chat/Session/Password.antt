-- ===== src/Chat/Session/Password.antt =====
-- What a session must show before the server serves it: the password.
use chatbox.Common.{
  ℕ, ◌≡◌, refl, ap, ◌∙◌, ◌≢◌, inl, inr, Bool, true, false, arith, if◌then◌else◌, Bool-cases, Bytes,
  text,
}
use chatbox.Protocol.Client.{ClientMessage, hello, authenticate}
use chatbox.Protocol.Server.{auth_required, auth_rejected, ServerMessage}
use chatbox.Chat.Session.Gate.{dismiss-nickname}
use chatbox.Chat.State.{close_session-authenticated, Server, nickname_of}
use chatbox.Chat.Movement.Invariant.{disconnect-authenticated}
use chatbox.Chat.Admin.{check_password-eq, has_password, check_password}
use chatbox.Chat.Session.{
  server_error, Handled, handle_message, Moment, on_negotiated, on_authenticate, dismiss, send,
  on_hello,
}

choose : (P : Handled → Type 0) (b : Bool) (x y : Handled) → P x → P y → P (if b then x else y)
choose P true x y hx hy = hx
choose P false x y hx hy = hy

dismiss-authenticated :
    (s : Server) (sid : ℕ) (m : ServerMessage)
    → ((dismiss s sid m).0.session sid).authenticated ≡ (s.session sid).authenticated
unfolding dismiss
dismiss-authenticated s sid m =
    disconnect-authenticated _ sid false sid ∙ close_session-authenticated _ sid sid

-- The session has not passed the password check, and has its nickname.
Outside : Bytes → ℕ → Handled → Type 0
Outside nick sid h = ((h.0.session sid).authenticated ≡ false) × (nickname_of h.0 sid ≡ nick)

module _ (s : Server) (sid : ℕ) (a : (s.session sid).authenticated ≡ false) where
  dismissed-Outside : (x : ServerMessage) → Outside (nickname_of s sid) sid (dismiss s sid x)
  unfolding Outside
  dismissed-Outside x = (dismiss-authenticated s sid x ∙ a, dismiss-nickname s sid x)

  told-Outside : (x : ServerMessage) → Outside (nickname_of s sid) sid (send s sid x, true)
  unfolding Outside
  told-Outside x = (a, refl)

  hello-Outside : (v : ℕ) → Outside (nickname_of s sid) sid (on_hello s sid v)
  unfolding on_hello Outside
  hello-Outside v = elim (Bool-cases (s.session sid).protocol_negotiated) [
    | inl h ↦ rw h (a, refl)
    | inr h ↦ rw h (ground (arith, a), ground arith)
  ]

  waits_inside :
      (verify : Bytes → Bytes → Bytes → Bool) (m : Moment) (message : ClientMessage)
      → has_password s ≡ true
      → ((password : Bytes) → message ≢ authenticate password)
      → Outside (nickname_of s sid) sid (on_negotiated verify s sid m message)
  unfolding on_negotiated
  waits_inside verify m (authenticate password) p k = absurd (k password refl)
  waits_inside verify m message p k = rw (p, a) (told-Outside auth_required)

  waits :
      (verify : Bytes → Bytes → Bytes → Bool) (m : Moment) (message : ClientMessage)
      → has_password s ≡ true
      → ((password : Bytes) → message ≢ authenticate password)
      → Outside (nickname_of s sid) sid (handle_message verify s sid m message)
  unfolding handle_message
  waits verify m (hello v) p k = hello-Outside v
  waits verify m message p k =
      choose (Outside (nickname_of s sid) sid) _ _ _
        (dismissed-Outside (server_error (text "Protocol handshake required")))
        (waits_inside verify m message p k)

  tried_inside :
      (password : Bytes)
      → check_password s password ≡ false
      → Outside (nickname_of s sid) sid (on_authenticate s sid password)
  unfolding on_authenticate
  tried_inside password e = rw e (dismissed-Outside auth_rejected)

  tried :
      (verify : Bytes → Bytes → Bytes → Bool) (m : Moment) (password : Bytes)
      → check_password s password ≡ false
      → Outside (nickname_of s sid) sid (handle_message verify s sid m (authenticate password))
  unfolding handle_message on_negotiated
  tried verify m password e =
      choose (Outside (nickname_of s sid) sid) _ _ _
        (dismissed-Outside (server_error (text "Protocol handshake required")))
        (tried_inside password e)

-- On a server with a password, a message that is not the password leaves a session that has not passed
-- the check of the password without it passed, and with the nickname that it has.
pub password_gate :
    (verify : Bytes → Bytes → Bytes → Bool) (s : Server) (sid : ℕ) (m : Moment)
    (message : ClientMessage)
    → has_password s ≡ true
    → (s.session sid).authenticated ≡ false
    → message ≢ authenticate s.password
    → (((handle_message verify s sid m message).0.session sid).authenticated ≡ false)
      × (nickname_of (handle_message verify s sid m message).0 sid ≡ nickname_of s sid)
unfolding Outside
password_gate verify s sid m (authenticate password) p a k =
    elim (Bool-cases (check_password s password)) [
      | inl e ↦ absurd (k (ap authenticate (check_password-eq s password e)))
      | inr e ↦ tried s sid a verify m password e
    ]
password_gate verify s sid m message p a k =
    waits s sid a verify m message p (λ password e. ground (arith, e))
