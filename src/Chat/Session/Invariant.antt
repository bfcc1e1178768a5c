-- ===== src/Chat/Session/Invariant.antt =====
-- Whatever line a session sends, whether its read fails or it begins, the invariant of the server is kept.
use chatbox.Chat.Session.Requests.{
  quota-Still, Keeps, either-Keeps, send-Keeps, reply-Keeps, dismiss-Keeps, joined-Keeps,
  Still-Keeps, gone-Keeps, post_chat-Keeps, post_whisper-Keeps, answer-Keeps, on_hello-Keeps,
  on_authenticate-Keeps, on_identify-Keeps, admit-Inv,
}
use chatbox.Chat.Movement.Placement.{join_room-Inv, leave_room-Inv}
use chatbox.Common.{◌<◌, ◌+◌, Bool, true, false, Option, none, some, Bytes, ℕ, text, ◌++◌}
use chatbox.Protocol.Outcome.{Result, ok, err, Error, unsupported_version}
use chatbox.Protocol.Client.{
  ClientMessage, hello, authenticate, identify, identity_proof, leave,
  disconnect as disconnect_message, list_rooms, create_room as create_message,
  join_room as join_message, topic_request, chat, whisper, kick_request,
}
use chatbox.Protocol.Server.{
  ServerMessage, u64_bound, join_rejected, banned, nickname_taken as taken_message, server_error,
  auth_required,
}
use chatbox.Protocol.Codec.{decode_client_frame}
use chatbox.Chat.State.{Session, Server, update_session}
use chatbox.Chat.Invariant.{Inv, Still-trans, Still-Inv}
use chatbox.Chat.Delivery.Unmoved.{emit-Still, send_room_list-Still, send_topic-Still}
use chatbox.Chat.Movement.{create_room, join_room, leave_room, join}
use chatbox.Chat.Movement.Invariant.{disconnect-Inv}
use chatbox.Chat.Movement.Creation.{create_room-Inv}
use chatbox.Chat.Movement.Local.{join-Still}
use chatbox.Chat.Admin.{kick_from, set_topic}
use chatbox.Chat.Admin.Unmoved.{set_topic-Still, bind_identity-Still}
use chatbox.Chat.Admin.Invariant.{kick_from-Inv}
use chatbox.Chat.Quota.{consume_message_quota}
use chatbox.Chat.Session.{
  Moment, Handled, on_bound, on_proof, with_quota, on_chat, on_whisper, post_chat, post_whisper,
  on_topic, on_request, on_negotiated, handle_message, frame_refused, handle_line, read_failed,
  start,
}

on_bound-Keeps : (sid : ℕ) (key : Bytes) (r : Server × Bool) → Inv r.0 → Keeps (on_bound sid key r)
unfolding on_bound Keeps
on_bound-Keeps sid key (s, true) v = admit-Inv s sid v key
on_bound-Keeps sid key (s, false) v =
    dismiss-Keeps s sid v (join_rejected (text "Identity registration failed"))

module _ (s : Server) (sid : ℕ) (v : Inv s) where
  on_proof-Keeps :
      (verify : Bytes → Bytes → Bytes → Bool) (signature : Bytes)
      → Keeps (on_proof verify s sid signature)
  unfolding on_proof
  on_proof-Keeps verify signature =
      either-Keeps _ _ _ (send-Keeps s sid v (join_rejected (text "Already joined")) true) (
        either-Keeps _ _ _
          (dismiss-Keeps s sid v (join_rejected (text "Identify before sending proof")))
          (either-Keeps _ _ _ (dismiss-Keeps s sid v (join_rejected (text "Identity proof failed")))
            (either-Keeps _ _ _ (dismiss-Keeps s sid v banned) (
              either-Keeps _ _ _ (dismiss-Keeps s sid v taken_message) (
                on_bound-Keeps sid c.pending_public_key_hex _ (
                  Still-Inv s _ (bind_identity-Still s c.pending_nickname c.pending_public_key_hex)
                    v))))))
    where
      c : Session
      c = s.session sid

  -- The queue of the rate limit is not in the invariant.
  with_quota-Keeps :
      (m : Moment) (k : Server → Handled)
      → ((t : Server) → Inv t → Keeps (k t))
      → Keeps (with_quota s sid m k)
  unfolding with_quota
  with_quota-Keeps m k keep =
      either-Keeps granted _ _ (keep t t-Inv)
        (reply-Keeps t sid t-Inv (text "[system] Slow down - message rate limit is 20 per minute"))
    where
      granted : Bool
      granted = (consume_message_quota m.now (s.session sid)).1

      t : Server
      t = update_session s sid (λ _. (consume_message_quota m.now (s.session sid)).0)

      t-Inv : Inv t
      t-Inv = Still-Inv s t (quota-Still s sid m.now) v

  on_chat-Keeps : (m : Moment) (body : Bytes) → Keeps (on_chat s sid m body)
  unfolding on_chat
  on_chat-Keeps m body =
      either-Keeps _ _ _ (reply-Keeps s sid v (text "[system] Join before sending messages"))
        (with_quota-Keeps m (post_chat sid m body) (λ t w. post_chat-Keeps t sid w m body))

  on_whisper-Keeps : (m : Moment) (target body : Bytes) → Keeps (on_whisper s sid m target body)
  unfolding on_whisper
  on_whisper-Keeps m target body =
      either-Keeps _ _ _ (reply-Keeps s sid v (text "[system] Join before sending messages")) (
        with_quota-Keeps m (post_whisper sid m target body)
          (λ t w. post_whisper-Keeps t sid w m target body))

  on_topic-Keeps : (o : Option Bytes) → Keeps (on_topic s sid o)
  unfolding on_topic
  on_topic-Keeps none =
      joined-Keeps s sid v "Join before viewing a topic" _
        (Still-Keeps s v _ true (send_topic-Still s sid))
  on_topic-Keeps (some topic) =
      joined-Keeps s sid v "Join before viewing a topic" _
        (answer-Keeps sid (set_topic s sid topic) (Still-Inv s _ (set_topic-Still s sid topic) v))

module _ (verify : Bytes → Bytes → Bytes → Bool) (s : Server) (sid : ℕ) (m : Moment)
    (room_left : s.next_room_id + 1 < u64_bound) (v : Inv s) where
  on_request-Keeps : (message : ClientMessage) → Keeps (on_request verify s sid m message)
  unfolding on_request
  on_request-Keeps (identify nick key) = on_identify-Keeps s sid v m nick key
  on_request-Keeps (identity_proof signature) = on_proof-Keeps s sid v verify signature
  on_request-Keeps leave =
      either-Keeps _ _ _
        (reply-Keeps s sid v (text "[system] Ignored leave request before joining"))
        (answer-Keeps sid (leave_room s sid) (leave_room-Inv s sid v))
  on_request-Keeps disconnect_message = gone-Keeps s sid v
  on_request-Keeps list_rooms =
      joined-Keeps s sid v "Join before listing rooms" _
        (Still-Keeps s v _ true (send_room_list-Still s sid))
  on_request-Keeps (create_message name) =
      joined-Keeps s sid v "Join before creating rooms" _
        (answer-Keeps sid (create_room s sid name) (create_room-Inv s room_left v name sid))
  on_request-Keeps (join_message name) =
      joined-Keeps s sid v "Join before switching rooms" _
        (answer-Keeps sid (join_room s sid name) (join_room-Inv s sid name v))
  on_request-Keeps (topic_request topic) = on_topic-Keeps s sid v topic
  on_request-Keeps (chat body) = on_chat-Keeps s sid v m body
  on_request-Keeps (whisper target body) = on_whisper-Keeps s sid v m target body
  on_request-Keeps (kick_request nick reason) =
      joined-Keeps s sid v "Join before moderating a room" _
        (answer-Keeps sid (kick_from s sid nick reason) (kick_from-Inv s sid nick reason v))
  on_request-Keeps (hello n) = reply-Keeps s sid v _
  on_request-Keeps (authenticate password) = reply-Keeps s sid v _

  on_negotiated-Keeps : (message : ClientMessage) → Keeps (on_negotiated verify s sid m message)
  unfolding on_negotiated
  on_negotiated-Keeps (authenticate password) = on_authenticate-Keeps s sid v password
  on_negotiated-Keeps message =
      either-Keeps _ _ _ (send-Keeps s sid v auth_required true) (on_request-Keeps message)

  handle_message-Keeps : (message : ClientMessage) → Keeps (handle_message verify s sid m message)
  unfolding handle_message
  handle_message-Keeps (hello n) = on_hello-Keeps s sid v n
  handle_message-Keeps message =
      either-Keeps _ _ _ (dismiss-Keeps s sid v (server_error (text "Protocol handshake required")))
        (on_negotiated-Keeps message)

  frame_refused-Keeps : (e : Error) (x : ServerMessage) → Keeps (frame_refused verify e s sid x)
  unfolding frame_refused
  frame_refused-Keeps unsupported_version x = dismiss-Keeps s sid v x
  frame_refused-Keeps _ x = send-Keeps s sid v x true

  -- A line of a session keeps the invariant, whatever it holds, while the counter of rooms does not
  -- wrap.
  pub handle_line-Inv : (line : Bytes) → Inv (handle_line verify s sid m line).0
  unfolding handle_line Keeps
  handle_line-Inv line = handled (decode_client_frame line)
    where
      handled :
          (r : Result ClientMessage)
          → Keeps (elim r [
            | ok message ↦ handle_message verify s sid m message
            | err e detail ↦
                frame_refused verify e s sid
                  (server_error (text "Invalid client frame: " ++ detail))
          ])
      handled (ok message) = handle_message-Keeps message
      handled (err e detail) = frame_refused-Keeps e _

pub read_failed-Inv : (s : Server) (sid : ℕ) → Inv s → Inv (read_failed s sid)
unfolding read_failed
read_failed-Inv s sid v = disconnect-Inv s sid _ v

pub start-Inv : (s : Server) (sid : ℕ) → Inv s → Inv (start s sid)
unfolding start
start-Inv s sid v =
    Still-Inv s _ (Still-trans s (join s sid) _ (join-Still s sid) (emit-Still _ _)) v
