-- ===== src/Chat/Session/Requests.antt =====
-- The invariant across the parts of the handler: handshake, password, identification, admission, posts.
use chatbox.Chat.Movement.Placement.{admit_to_default_room-Inv}
use chatbox.Common.{
  ◌≡◌, refl, Bool, true, false, Option, none, some, [], Bytes, ℕ, String, ◌==◌, text, arith,
  if◌then◌else◌,
}
use chatbox.Protocol.Outcome.{version}
use chatbox.Protocol.Server.{
  join_accepted, auth_accepted, ServerMessage, join_rejected, banned,
  nickname_taken as taken_message, server_error, auth_rejected, challenge, auth_required,
}
use chatbox.Chat.State.{Session, Server, update_session, close_session, delivery, room_of}
use chatbox.Chat.Invariant.{Inv, Still, Still-trans, Still-Inv}
use chatbox.Chat.Delivery.Unmoved.{emit-Still, broadcast_room-Still, send_private_from-Still}
use chatbox.Chat.Movement.{disconnect, Reply}
use chatbox.Chat.Movement.Invariant.{disconnect-Inv}
use chatbox.Chat.Admin.{
  identity_available_for, is_banned, nickname_taken, check_password, has_password,
  identity_fingerprint,
}
use chatbox.Chat.Admin.Unmoved.{update_session-Still, close_session-Still}
use chatbox.Chat.Quota.Window.{consume_message_quota-room}
use chatbox.Chat.Quota.{consume_message_quota}
use chatbox.Chat.Session.{
  identity_accepted, Moment, Handled, send, reply_text, dismiss, answer, on_hello, on_authenticate,
  on_identify, admit, post_chat, post_whisper, joined,
}

pub quota-Still :
    (s : Server) (sid now : ℕ)
    → Still s (update_session s sid (λ _. (consume_message_quota now (s.session sid)).0))
quota-Still s sid now = record {
  same_rooms = refl;
  same_place = λ x. ground (arith, consume_message_quota-room now (s.session sid));
  same_next = refl;
}

-- The invariant of the state that a handler gives.
unfoldable pub Keeps : Handled → Type 0
Keeps h = Inv h.0

pub either-Keeps : (b : Bool) (x y : Handled) → Keeps x → Keeps y → Keeps (if b then x else y)
either-Keeps true x y hx hy = hx
either-Keeps false x y hx hy = hy

module _ (s : Server) (sid : ℕ) (v : Inv s) where
  pub send-Keeps : (m : ServerMessage) (b : Bool) → Keeps (send s sid m, b)
  unfolding Keeps
  send-Keeps m b = Still-Inv s _ (emit-Still s _) v

  pub reply-Keeps : (body : Bytes) → Keeps (reply_text s sid body)
  unfolding Keeps
  reply-Keeps body = Still-Inv s _ (emit-Still s _) v

  pub dismiss-Keeps : (m : ServerMessage) → Keeps (dismiss s sid m)
  unfolding Keeps dismiss
  dismiss-Keeps m =
      disconnect-Inv _ sid false
        (Still-Inv _ _ (close_session-Still (send s sid m) sid) (Still-Inv s _ (emit-Still s _) v))

  pub joined-Keeps : (error : String) (h : Handled) → Keeps h → Keeps (joined s sid error h)
  unfolding joined
  joined-Keeps error h k = either-Keeps _ _ _ (send-Keeps _ true) k

  -- A session's record changes, and the session is told.
  changed-Keeps :
      (f : Session → Session) (m : ServerMessage)
      → ((c : Session) → (f c).active_room_id ≡ c.active_room_id)
      → Keeps (send (update_session s sid f) sid m, true)
  unfolding Keeps
  changed-Keeps f m k =
      Still-Inv s _
        (Still-trans s (update_session s sid f) _ (update_session-Still s sid f k) (emit-Still _ _))
        v

pub Still-Keeps : (s : Server) → Inv s → (t : Server) (b : Bool) → Still s t → Keeps (t, b)
unfolding Keeps
Still-Keeps s v t b q = Still-Inv s t q v

pub gone-Keeps :
    (s : Server) (sid : ℕ) → Inv s → Keeps (close_session (disconnect s sid true) sid, false)
unfolding Keeps
gone-Keeps s sid v = Still-Inv _ _ (close_session-Still _ sid) (disconnect-Inv s sid true v)

pub post_chat-Keeps :
    (t : Server) (sid : ℕ) → Inv t → (m : Moment) (body : Bytes) → Keeps (post_chat sid m body t)
unfolding post_chat
post_chat-Keeps t sid w m body =
    either-Keeps _ _ _ (reply-Keeps t sid w (text "[system] Invalid message text"))
      (Still-Keeps t w _ true (broadcast_room-Still t (room_of t sid) _ _))

pub post_whisper-Keeps :
    (t : Server) (sid : ℕ)
    → Inv t
    → (m : Moment) (target body : Bytes) → Keeps (post_whisper sid m target body t)
unfolding post_whisper
post_whisper-Keeps t sid w m target body =
    either-Keeps _ _ _ (reply-Keeps t sid w (text "[system] Invalid whisper target or message"))
      (Still-Keeps t w _ true (send_private_from-Still t m.clock sid target body))

pub answer-Keeps : (sid : ℕ) (r : Reply) → Inv r.0 → Keeps (answer sid r)
unfolding answer Keeps
answer-Keeps sid (s, none) v = v
answer-Keeps sid (s, some error) v = Still-Inv s _ (emit-Still s _) v

module _ (s : Server) (sid : ℕ) (v : Inv s) where
  pub on_hello-Keeps : (n : ℕ) → Keeps (on_hello s sid n)
  unfolding on_hello
  on_hello-Keeps n =
      either-Keeps _ _ _
        (send-Keeps s sid v (server_error (text "Protocol handshake already completed")) true)
        (changed-Keeps s sid v (λ c. record c { protocol_negotiated = n == version })
          (if has_password s then auth_required else auth_accepted) (λ c. refl))

  pub on_authenticate-Keeps : (password : Bytes) → Keeps (on_authenticate s sid password)
  unfolding on_authenticate
  on_authenticate-Keeps password =
      either-Keeps (check_password s password) _ _
        (changed-Keeps s sid v (λ c. record c { authenticated = true }) auth_accepted (λ c. refl))
        (dismiss-Keeps s sid v auth_rejected)

  pub on_identify-Keeps : (m : Moment) (nick key : Bytes) → Keeps (on_identify s sid m nick key)
  unfolding on_identify
  on_identify-Keeps m nick key =
      either-Keeps _ _ _ (send-Keeps s sid v (join_rejected (text "Already joined")) true)
        (available (identity_available_for s nick key))
    where
      sent : Handled
      sent = (
        send
            (update_session s sid λ c. record c {
              pending_nickname = nick;
              pending_public_key_hex = key;
              pending_challenge = m.random_challenge;
            })
            sid (challenge m.random_challenge),
        true,
      )

      sent-Keeps : Keeps sent
      sent-Keeps =
          changed-Keeps s sid v
            (λ c. record c {
              pending_nickname = nick;
              pending_public_key_hex = key;
              pending_challenge = m.random_challenge;
            })
            (challenge m.random_challenge) (λ c. refl)

      available :
          (o : Option Bytes)
          → Keeps (elim o [
            | some error ↦ dismiss s sid (join_rejected error)
            | none ↦
                if is_banned s nick
                then dismiss s sid banned
                else if nickname_taken s nick
                then dismiss s sid taken_message
                else sent
          ])
      available (some error) = dismiss-Keeps s sid v (join_rejected error)
      available none =
          either-Keeps _ _ _ (dismiss-Keeps s sid v banned)
            (either-Keeps _ _ _ (dismiss-Keeps s sid v taken_message) sent-Keeps)

  pub admit-Inv : (key : Bytes) → Inv (admit s sid key)
  unfolding admit Keeps
  admit-Inv key = admit_to_default_room-Inv _ sid (
      Still-Inv _ _ (emit-Still _ (delivery sid join_accepted)) (
        changed-Keeps s sid v
          (λ c. record c {
            nickname = c.pending_nickname;
            pending_nickname = [];
            pending_public_key_hex = [];
            pending_challenge = [];
          })
          (identity_accepted (identity_fingerprint key)) (λ c. refl)))
