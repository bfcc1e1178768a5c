-- ===== src/Chat/Session/Handshake.antt =====
-- What a session must show before the server serves it: the handshake.
use chatbox.Common.{
  ℕ, ◌≡◌, refl, sym, ap, ◌∙◌, ◌≢◌, inl, inr, Bool, true, false, not, List, [], ◌∷◌, ◌++◌, arith,
  ◌==◌, if◌then◌else◌, Bool-cases, All, Bytes, text,
}
use chatbox.Common.{if-elim}
use chatbox.Protocol.Outcome.{Error, Result, ok, err, version, unsupported_version}
use chatbox.Protocol.Client.{ClientMessage, hello}
use chatbox.Protocol.Codec.{decode_client_frame}
use chatbox.Protocol.Server.{ServerMessage}
use chatbox.Chat.State.{Server, Session, close_session, update_session}
use chatbox.Chat.Movement.{detach}
use chatbox.Chat.Movement.Invariant.{same_as_detach}
use chatbox.Chat.Session.{
  Handled, handle_line, handle_message, Moment, dismiss, send, server_error, on_hello,
  frame_refused,
}

-- The lines of a session, as long as it is read on from.
pub served : (Bytes → Bytes → Bytes → Bool) → Server → ℕ → List (Moment × Bytes) → Handled
served verify s sid [] = (s, true)
served verify s sid ((m, line) ∷ lines) =
    let h = handle_line verify s sid m line in
    let rest = served verify h.0 sid lines in if h.1 then rest else h

-- What a session has shown of itself, and what it has said of itself that is still open.
unfoldable pub shown_by : Session → (Bool × Bool) × (Bytes × (Bytes × (Bytes × Bytes)))
shown_by c = (
  (c.protocol_negotiated, c.authenticated),
  (c.nickname, (c.pending_nickname, (c.pending_public_key_hex, c.pending_challenge))),
)

module _ (sid : ℕ) where
  abbrev shown_in : Server → (Bool × Bool) × (Bytes × (Bytes × (Bytes × Bytes)))
  shown_in t = shown_by (t.session sid)

  same : (sid == sid) ≡ true
  same = ground arith

  shown-update :
      (s : Server) (f : Session → Session)
      → shown_by (f (s.session sid)) ≡ shown_in s
      → shown_in (update_session s sid f) ≡ shown_in s
  unfolding update_session
  shown-update s f h = rw same h

  shown-detach : (s : Server) → shown_in (detach s sid) ≡ shown_in s
  unfolding detach update_session shown_by
  shown-detach s = rw same refl

  shown-close : (s : Server) → shown_in (close_session s sid) ≡ shown_in s
  unfolding close_session update_session shown_by
  shown-close s = rw same refl

  shown-dismiss : (s : Server) (m : ServerMessage) → shown_in (dismiss s sid m).0 ≡ shown_in s
  unfolding dismiss
  shown-dismiss s m =
      same_as_detach shown_in (λ t u q. ap (λ g. shown_by (g sid)) q.same_session)
        (close_session (send s sid m) sid) sid false
      ∙ shown-detach (close_session (send s sid m) sid)
      ∙ shown-close (send s sid m)

  module _ (verify : Bytes → Bytes → Bytes → Bool) (s : Server) (m : Moment)
      (waits : (s.session sid).protocol_negotiated ≡ false) where
    shown-hello : (v : ℕ) → (v == version) ≡ false → shown_in (on_hello s sid v).0 ≡ shown_in s
    unfolding on_hello shown_by
    shown-hello v e =
        if-elim (λ (h : Handled). shown_in h.0 ≡ shown_in s) (s.session sid).protocol_negotiated
          (λ _. refl)
          (λ _.
            shown-update s (λ c. record c { protocol_negotiated = v == version })
              (ap (λ b. shown_by (record (s.session sid) { protocol_negotiated = b }))
                (e ∙ sym waits)))

    shown-message :
        (message : ClientMessage)
        → message ≢ hello version
        → shown_in (handle_message verify s sid m message).0 ≡ shown_in s
    unfolding handle_message
    shown-message (hello v) k = elim (Bool-cases (v == version)) [
      | inl e ↦ absurd (k (ap hello (ground (arith, e))))
      | inr e ↦ shown-hello v e
    ]
    shown-message message k =
        if-elim (λ (h : Handled). shown_in h.0 ≡ shown_in s)
          (not (s.session sid).protocol_negotiated) (λ _. shown-dismiss s _)
          (λ e. absurd (ground (arith, e, waits)))

    shown-refused :
        (e : Error) (x : ServerMessage) → shown_in (frame_refused verify e s sid x).0 ≡ shown_in s
    unfolding frame_refused
    shown-refused unsupported_version x = shown-dismiss s x
    shown-refused _ x = refl

    shown-line :
        (line : Bytes)
        → decode_client_frame line ≢ ok (hello version)
        → shown_in (handle_line verify s sid m line).0 ≡ shown_in s
    unfolding handle_line
    shown-line line k = step (decode_client_frame line) k
      where
        step :
            (r : Result ClientMessage)
            → r ≢ ok (hello version)
            → shown_in
                (elim r as (λ _. Handled) [
                  | ok message ↦ handle_message verify s sid m message
                  | err e detail ↦
                      frame_refused verify e s sid
                        (server_error (text "Invalid client frame: " ++ detail))
                ]).0
              ≡ shown_in s
        step (ok message) n = shown-message message (λ e. n (ap ok e))
        step (err e detail) n = shown-refused e _

-- Whatever lines a session sends, whether they decode or not, as long as none is the handshake message
-- of this version: one that has not shaken hands still has not, and has its nickname, its pass of
-- the password check, its pending nickname, key and challenge as they were.
pub handshake_first :
    (verify : Bytes → Bytes → Bytes → Bool) (s : Server) (sid : ℕ) (lines : List (Moment × Bytes))
    → (s.session sid).protocol_negotiated ≡ false
    → All (λ line. decode_client_frame line.1 ≢ ok (hello version)) lines
    → shown_by ((served verify s sid lines).0.session sid) ≡ shown_by (s.session sid)
unfolding served shown_by
handshake_first verify s sid [] waits k = refl
handshake_first verify s sid ((m, line) ∷ lines) waits (k, ks) =
    let h = handle_line verify s sid m line in
    let one = shown-line sid verify s m waits line k in
    let still : (h.0.session sid).protocol_negotiated ≡ false = ap (λ x. x.0.0) one ∙ waits in
    if-elim (λ (x : Handled). shown_by (x.0.session sid) ≡ shown_by (s.session sid)) h.1
      (λ _. handshake_first verify h.0 sid lines still ks ∙ one) (λ _. one)
