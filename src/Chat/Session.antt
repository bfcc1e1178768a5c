-- ===== src/Chat/Session.antt =====
-- `ClientSession` of src/chat/client_session.cpp: the handler of one received line, as a function of the
-- server's state. The result says whether the session reads on. The crypto library's check of a
-- signature is the parameter `verify`; the clock's readings and the random challenge come with the
-- line.
pub mod Gate
pub mod Handshake
pub mod Requests
pub mod Invariant
pub mod Password
pub mod Admission
use chatbox.Protocol.Rules.{is_hex, is_valid_nickname, is_valid_text}
use chatbox.Common.{
  ℕ, ◌+◌, ◌-◌, String, Bool, true, false, not, ◌&&◌, ◌||◌, Option, none, some, [], ◌++◌, ◌==◌,
  if◌then◌else◌, is_empty, Bytes, text,
}
use chatbox.Protocol.Outcome.{Error, ok, err, unsupported_version, version}
use chatbox.Protocol.Client.{
  ClientMessage, hello, authenticate, identify, identity_proof, leave,
  disconnect as disconnect_message, list_rooms, create_room as create_message,
  join_room as join_message, topic_request, chat, whisper, kick_request,
}
use chatbox.Protocol.Server.{
  ServerMessage, auth_required, auth_accepted, auth_rejected, challenge, identity_accepted,
  join_accepted, banned, nickname_taken as taken_message, join_rejected, server_error,
  hello as hello_message,
}
use chatbox.Protocol.Codec.{decode_client_frame}
use chatbox.Chat.State.{
  Server, delivery, delivery_text, emit, close_session, nickname_of, room_of, update_session,
}
use chatbox.Chat.Delivery.{broadcast_room, send_room_list, send_private_from, send_topic}
use chatbox.Chat.Movement.{
  disconnect, admit_to_default_room, join_room, leave_room, create_room, Reply, join,
}
use chatbox.Chat.Admin.{
  has_password, check_password, is_banned, nickname_taken, identity_available_for,
  identity_fingerprint, bind_identity, set_topic, kick_from,
}
use chatbox.Chat.Quota.{consume_message_quota}

-- What comes with a line from outside the program.
pub record Moment : Type 0 where
  pub now : ℕ
  pub clock : Bytes
  pub random_challenge : Bytes

abbrev pub Handled : Type 0
Handled = Server × Bool

abbrev pub send : Server → ℕ → ServerMessage → Server
send s sid m = emit s (delivery sid m)

abbrev pub reply_text : Server → ℕ → Bytes → Handled
reply_text s sid body = (emit s (delivery_text sid body), true)

-- `deliver`, `close`, `disconnect(self, false)`, `return`.
pub dismiss : Server → ℕ → ServerMessage → Handled
dismiss s sid m = (disconnect (close_session (send s sid m) sid) sid false, false)

-- An operation with an error text, which the session is shown.
pub answer : ℕ → Reply → Handled
answer sid (s, none) = (s, true)
answer sid (s, some error) = (send s sid (server_error error), true)

pub on_hello : Server → ℕ → ℕ → Handled
on_hello s sid v =
    if (s.session sid).protocol_negotiated
    then (send s sid (server_error (text "Protocol handshake already completed")), true)
    else (
      send (update_session s sid λ c. record c { protocol_negotiated = v == version }) sid
          (if has_password s then auth_required else auth_accepted),
      true,
    )

pub on_authenticate : Server → ℕ → Bytes → Handled
unfolding dismiss
on_authenticate s sid password =
    if check_password s password
    then (
      send (update_session s sid λ c. record c { authenticated = true }) sid auth_accepted,
      true,
    )
    else dismiss s sid auth_rejected

pub on_identify : Server → ℕ → Moment → Bytes → Bytes → Handled
unfolding dismiss
on_identify s sid m nick key =
    if not (is_empty (nickname_of s sid))
    then (send s sid (join_rejected (text "Already joined")), true)
    else elim (identity_available_for s nick key) [
      | some error ↦ dismiss s sid (join_rejected error)
      | none ↦
          if is_banned s nick
          then dismiss s sid banned
          else if nickname_taken s nick
          then dismiss s sid taken_message
          else (
            send
                (update_session s sid λ c. record c {
                  pending_nickname = nick;
                  pending_public_key_hex = key;
                  pending_challenge = m.random_challenge;
                })
                sid (challenge m.random_challenge),
            true,
          )
    ]

-- The session gets its nickname, and goes to the lobby.
pub admit : Server → ℕ → Bytes → Server
admit s sid key =
    admit_to_default_room
      (send
        (send
          (update_session s sid λ c. record c {
            nickname = c.pending_nickname;
            pending_nickname = [];
            pending_public_key_hex = [];
            pending_challenge = [];
          })
          sid (identity_accepted (identity_fingerprint key)))
        sid join_accepted)
      sid

on_bound : ℕ → Bytes → Server × Bool → Handled
unfolding dismiss admit
on_bound sid key (s, true) = (admit s sid key, true)
on_bound sid key (s, false) = dismiss s sid (join_rejected (text "Identity registration failed"))

module _ (verify : Bytes → Bytes → Bytes → Bool) where
  -- `verify_identity_signature`: a key of 32 and a signature of 64 bytes, in hexadecimal digits.
  unfoldable pub verify_identity_signature : Bytes → Bytes → Bytes → Bool
  verify_identity_signature key nonce signature =
      is_hex key 64 && is_hex signature 128 && verify key nonce signature

  on_proof : Server → ℕ → Bytes → Handled
  unfolding dismiss on_bound verify_identity_signature
  on_proof s sid signature =
      let c = s.session sid in
      let nick = c.pending_nickname in
      let key = c.pending_public_key_hex in
      if not (is_empty c.nickname)
      then (send s sid (join_rejected (text "Already joined")), true)
      else if is_empty nick || is_empty key || is_empty c.pending_challenge
      then dismiss s sid (join_rejected (text "Identify before sending proof"))
      else if not (verify_identity_signature key c.pending_challenge signature)
      then dismiss s sid (join_rejected (text "Identity proof failed"))
      else if is_banned s nick
      then dismiss s sid banned
      else if nickname_taken s nick
      then dismiss s sid taken_message
      else on_bound sid key (bind_identity s nick key)

-- `if (!consume_message_quota())`: the queue is changed either way.
with_quota : Server → ℕ → Moment → (Server → Handled) → Handled
with_quota s sid m k =
    let (c, granted) = consume_message_quota m.now (s.session sid) in
    let t = update_session s sid (λ _. c) in
    if granted
    then k t
    else reply_text t sid (text "[system] Slow down - message rate limit is 20 per minute")

-- What `Chat` and `Whisper` do once the quota allows it.
pub post_chat : ℕ → Moment → Bytes → Server → Handled
post_chat sid m body t =
    if not (is_valid_text body 1000)
    then reply_text t sid (text "[system] Invalid message text")
    else (
      broadcast_room t (room_of t sid)
          (text "[" ++ (m.clock ++ (text "] " ++ (nickname_of t sid ++ (text ": " ++ body)))))
          (nickname_of t sid),
      true,
    )

pub post_whisper : ℕ → Moment → Bytes → Bytes → Server → Handled
post_whisper sid m target body t =
    if not (is_valid_nickname target) || not (is_valid_text body 1000)
    then reply_text t sid (text "[system] Invalid whisper target or message")
    else ((send_private_from t m.clock sid target body).0, true)

on_chat : Server → ℕ → Moment → Bytes → Handled
unfolding with_quota post_chat
on_chat s sid m body =
    if is_empty (nickname_of s sid)
    then reply_text s sid (text "[system] Join before sending messages")
    else with_quota s sid m (post_chat sid m body)

on_whisper : Server → ℕ → Moment → Bytes → Bytes → Handled
unfolding with_quota post_whisper
on_whisper s sid m target body =
    if is_empty (nickname_of s sid)
    then reply_text s sid (text "[system] Join before sending messages")
    else with_quota s sid m (post_whisper sid m target body)

-- A request that needs a nickname; the text is the error without one.
pub joined : Server → ℕ → String → Handled → Handled
joined s sid error handled =
    if is_empty (nickname_of s sid) then (send s sid (server_error (text error)), true) else handled

on_topic : Server → ℕ → Option Bytes → Handled
unfolding joined answer
on_topic s sid none = joined s sid "Join before viewing a topic" (send_topic s sid, true)
on_topic s sid (some topic) =
    joined s sid "Join before viewing a topic" (answer sid (set_topic s sid topic))

module _ (verify : Bytes → Bytes → Bytes → Bool) where
  -- The branches behind the handshake and the password.
  on_request : Server → ℕ → Moment → ClientMessage → Handled
  unfolding on_identify on_proof on_chat on_whisper on_topic joined answer
  on_request s sid m (identify nick key) = on_identify s sid m nick key
  on_request s sid m (identity_proof signature) = on_proof verify s sid signature
  on_request s sid m leave =
      if is_empty (nickname_of s sid)
      then reply_text s sid (text "[system] Ignored leave request before joining")
      else answer sid (leave_room s sid)
  on_request s sid m disconnect_message = (close_session (disconnect s sid true) sid, false)
  on_request s sid m list_rooms =
      joined s sid "Join before listing rooms" (send_room_list s sid, true)
  on_request s sid m (create_message name) =
      joined s sid "Join before creating rooms" (answer sid (create_room s sid name))
  on_request s sid m (join_message name) =
      joined s sid "Join before switching rooms" (answer sid (join_room s sid name))
  on_request s sid m (topic_request topic) = on_topic s sid topic
  on_request s sid m (chat body) = on_chat s sid m body
  on_request s sid m (whisper target body) = on_whisper s sid m target body
  on_request s sid m (kick_request nick reason) =
      joined s sid "Join before moderating a room" (answer sid (kick_from s sid nick reason))
  on_request s sid m _ =
      reply_text s sid (text "[system] Ignored message in the current session state")

  -- Behind the handshake: a password is read, all else waits for it.
  on_negotiated : Server → ℕ → Moment → ClientMessage → Handled
  unfolding on_authenticate on_request
  on_negotiated s sid m (authenticate password) = on_authenticate s sid password
  on_negotiated s sid m message =
      if has_password s && not (s.session sid).authenticated
      then (send s sid auth_required, true)
      else on_request s sid m message

  -- `read_loop` on a message.
  unfoldable pub handle_message : Server → ℕ → Moment → ClientMessage → Handled
  unfolding on_hello on_negotiated dismiss
  handle_message s sid m (hello v) = on_hello s sid v
  handle_message s sid m message =
      if not (s.session sid).protocol_negotiated
      then dismiss s sid (server_error (text "Protocol handshake required"))
      else on_negotiated s sid m message

  frame_refused : Error → Server → ℕ → ServerMessage → Handled
  unfolding dismiss
  frame_refused unsupported_version s sid m = dismiss s sid m
  frame_refused _ s sid m = (send s sid m, true)

  -- `read_loop` on a line.
  pub handle_line : Server → ℕ → Moment → Bytes → Handled
  unfolding frame_refused handle_message
  handle_line s sid m line = elim (decode_client_frame line) [
    | ok message ↦ handle_message s sid m message
    | err e detail ↦ frame_refused e s sid (server_error (text "Invalid client frame: " ++ detail))
  ]

-- `read_loop` on a read error.
pub read_failed : Server → ℕ → Server
read_failed s sid = disconnect s sid (not (s.session sid).suppress_leave_notice)

-- `accept_loop` and `start`, with the handshake of the transport done.
pub start : Server → ℕ → Server
start s sid = send (join s sid) sid (hello_message version)
