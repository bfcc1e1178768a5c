-- ===== src/Chat/Session/Gate.antt =====
-- What a session must show before it has a nickname: a proof of its key.
use chatbox.Common.{
  ℕ, String, ◌≡◌, refl, ap, ◌∙◌, ◌≢◌, inl, inr, Bool, true, false, ◌||◌, Option, none, some, [],
  arith, if◌then◌else◌, Bool-cases, is_empty, Bytes, text,
}
use chatbox.Protocol.Client.{
  ClientMessage, hello, authenticate, identify, identity_proof, leave,
  disconnect as disconnect_message, list_rooms, create_room, join_room, topic_request, chat,
  whisper, kick_request,
}
use chatbox.Protocol.Server.{
  auth_required, auth_rejected, ServerMessage, challenge, banned, join_rejected,
  nickname_taken as taken_message,
}
use chatbox.Chat.State.{close_session-nickname, Server, Session, update_session, nickname_of}
use chatbox.Chat.Movement.Invariant.{disconnect-nickname}
use chatbox.Chat.Admin.{check_password, identity_available_for, is_banned, nickname_taken}
use chatbox.Chat.Session.{
  server_error, on_topic, on_whisper, on_chat, joined, Handled, on_identify,
  verify_identity_signature, on_proof, on_request, handle_message, Moment, on_negotiated,
  on_authenticate, dismiss, send, on_hello,
}

pub dismiss-nickname :
    (s : Server) (sid : ℕ) (m : ServerMessage)
    → nickname_of (dismiss s sid m).0 sid ≡ nickname_of s sid
unfolding dismiss
dismiss-nickname s sid m = disconnect-nickname _ sid false sid ∙ close_session-nickname _ sid sid

-- The session has no nickname afterwards.
Nameless : ℕ → Handled → Type 0
Nameless sid h = nickname_of h.0 sid ≡ []

either :
    (sid : ℕ) (b : Bool) (x y : Handled)
    → Nameless sid x
    → Nameless sid y
    → Nameless sid (if b then x else y)
unfolding Nameless
either sid true x y hx hy = hx
either sid false x y hx hy = hy

module _ (s : Server) (sid : ℕ) (n : nickname_of s sid ≡ []) where
  dismissed : (m : ServerMessage) → Nameless sid (dismiss s sid m)
  unfolding Nameless
  dismissed m = dismiss-nickname s sid m ∙ n

  no_nick : is_empty (nickname_of s sid) ≡ true
  no_nick = ap is_empty n

  refused : (error : String) (h : Handled) → Nameless sid (joined s sid error h)
  unfolding joined Nameless
  refused error h = rw no_nick n

  identified : (m : Moment) (nick key : Bytes) → Nameless sid (on_identify s sid m nick key)
  unfolding on_identify Nameless
  identified m nick key = rw no_nick (available (identity_available_for s nick key))
    where
      sent : Handled
      sent = (
        send
            (update_session s sid λ c. record c {
              pending_nickname = nick;
              pending_public_key_hex = key;
              pending_challenge = m.random_challenge;
            })
            sid (challenge m.random_challenge),
        true,
      )

      sent-Nameless : Nameless sid sent
      sent-Nameless = ground (arith, n)

      checked : Handled
      checked =
          if is_banned s nick
          then dismiss s sid banned
          else if nickname_taken s nick
          then dismiss s sid taken_message
          else sent

      available :
          (o : Option Bytes)
          → Nameless sid
              (elim o [ some error ↦ dismiss s sid (join_rejected error) | none ↦ checked ])
      available (some error) = dismissed (join_rejected error)
      available none =
          either sid (is_banned s nick) _ _ (dismissed banned)
            (either sid (nickname_taken s nick) _ _ (dismissed taken_message) sent-Nameless)

  early_or_failed :
      (early : Bool)
      → Nameless sid (
          if early
          then dismiss s sid (join_rejected (text "Identify before sending proof"))
          else dismiss s sid (join_rejected (text "Identity proof failed")))
  early_or_failed early = either sid early _ _ (dismissed _) (dismissed _)

  module _ (verify : Bytes → Bytes → Bytes → Bool) where
    proof_fails :
        (signature : Bytes)
        → verify_identity_signature verify
            (s.session sid).pending_public_key_hex
            (s.session sid).pending_challenge
            signature
          ≡ false
        → Nameless sid (on_proof verify s sid signature)
    unfolding on_proof Nameless
    proof_fails signature e =
        rw (no_nick, e)
          (early_or_failed (
            is_empty c.pending_nickname
            || is_empty c.pending_public_key_hex
            || is_empty c.pending_challenge))
      where
        c : Session
        c = s.session sid

    stays-Nameless :
        (m : Moment) (message : ClientMessage)
        → ((signature : Bytes) → message ≢ identity_proof signature)
        → Nameless sid (on_request verify s sid m message)
    unfolding on_request on_chat on_whisper on_topic Nameless
    stays-Nameless m (identity_proof signature) k = absurd (k signature refl)
    stays-Nameless m (identify nick key) k = identified m nick key
    stays-Nameless m leave k = rw no_nick n
    stays-Nameless m disconnect_message k =
        close_session-nickname _ sid sid ∙ disconnect-nickname s sid true sid ∙ n
    stays-Nameless m list_rooms k = refused _ _
    stays-Nameless m (create_room name) k = refused _ _
    stays-Nameless m (join_room name) k = refused _ _
    stays-Nameless m (topic_request none) k = refused _ _
    stays-Nameless m (topic_request (some topic)) k = refused _ _
    stays-Nameless m (chat body) k = rw no_nick n
    stays-Nameless m (whisper target body) k = rw no_nick n
    stays-Nameless m (kick_request nick reason) k = refused _ _
    stays-Nameless m (hello v) k = n
    stays-Nameless m (authenticate password) k = n

    authenticate-Nameless : (password : Bytes) → Nameless sid (on_authenticate s sid password)
    unfolding on_authenticate Nameless
    authenticate-Nameless password = elim (Bool-cases (check_password s password)) [
      | inl h ↦ rw h (ground (arith, n))
      | inr h ↦ rw h (dismissed auth_rejected)
    ]

    hello-Nameless : (v : ℕ) → Nameless sid (on_hello s sid v)
    unfolding on_hello Nameless
    hello-Nameless v = elim (Bool-cases (s.session sid).protocol_negotiated) [
      | inl h ↦ rw h n
      | inr h ↦ rw h (ground (arith, n))
    ]

    told-Nameless : (x : ServerMessage) → Nameless sid (send s sid x, true)
    unfolding Nameless
    told-Nameless x = n

    negotiated-Nameless :
        (m : Moment) (message : ClientMessage)
        → ((signature : Bytes) → message ≢ identity_proof signature)
        → Nameless sid (on_negotiated verify s sid m message)
    unfolding on_negotiated
    negotiated-Nameless m (authenticate password) k = authenticate-Nameless password
    negotiated-Nameless m message k =
        either sid _ _ _ (told-Nameless auth_required) (stays-Nameless m message k)

    handled-Nameless :
        (m : Moment) (message : ClientMessage)
        → ((signature : Bytes) → message ≢ identity_proof signature)
        → Nameless sid (handle_message verify s sid m message)
    unfolding handle_message
    handled-Nameless m (hello v) k = hello-Nameless v
    handled-Nameless m message k =
        either sid _ _ _ (dismissed (server_error (text "Protocol handshake required")))
          (negotiated-Nameless m message k)

    proof_request-Nameless :
        (m : Moment) (signature : Bytes)
        → verify_identity_signature verify
            (s.session sid).pending_public_key_hex
            (s.session sid).pending_challenge
            signature
          ≡ false
        → Nameless sid (handle_message verify s sid m (identity_proof signature))
    unfolding handle_message on_negotiated on_request
    proof_request-Nameless m signature e =
        either sid _ _ _ (dismissed (server_error (text "Protocol handshake required")))
          (either sid _ _ _ (told-Nameless auth_required) (proof_fails signature e))

-- A session without a nickname has one after a message only if the message is a proof, the session's
-- pending key has 64 hexadecimal digits and the signature 128, and the check of the signature of the
-- session's challenge by that key succeeds.
pub nickname_needs_proof :
    (verify : Bytes → Bytes → Bytes → Bool) (s : Server) (sid : ℕ) (m : Moment)
    (message : ClientMessage)
    → nickname_of s sid ≡ []
    → nickname_of (handle_message verify s sid m message).0 sid ≢ []
    → (signature : Bytes) × (message ≡ identity_proof signature)
      × (verify_identity_signature verify
            (s.session sid).pending_public_key_hex
            (s.session sid).pending_challenge
            signature
          ≡ true)
unfolding Nameless
nickname_needs_proof verify s sid m (identity_proof signature) n h =
    elim (Bool-cases (
      verify_identity_signature verify (s.session sid).pending_public_key_hex
        (s.session sid).pending_challenge signature)) [
          | inl e ↦ (signature, refl, e)
          | inr e ↦ absurd (h (proof_request-Nameless s sid n verify m signature e))
        ]
nickname_needs_proof verify s sid m message n h =
    absurd (h (handled-Nameless s sid n verify m message (λ signature e. ground (arith, e))))
