-- ===== src/Chat/Delivery/Unmoved.antt =====
-- Sending messages keeps the invariant: each of these operations leaves everybody where they are.
use chatbox.Common.{Bool, Option-cases, inl, inr, List, [], ◌∷◌, Bytes, ℕ}
use chatbox.Chat.State.{Room, Server, Effect, emit, nickname_of, room_of}
use chatbox.Chat.Rooms.{find_room}
use chatbox.Chat.Delivery.{broadcast_users, broadcast_room_lists}
use chatbox.Chat.Delivery.Quiet.{broadcast_users-Quiet, broadcast_room_lists-Quiet}
use chatbox.Chat.Invariant.{Still-refl, Still, Still-trans, Quiet-Still}
use chatbox.Chat.Delivery.Quiet.{emit-Quiet, broadcast_room-Quiet}
use chatbox.Chat.Delivery.{
  send_room_list, broadcast_each, broadcast_server, broadcast, broadcast_room, send_private_in_room,
  send_private_from, send_private, send_topic, acting_room,
}

pub emit-Still : (s : Server) (es : List Effect) → Still s (emit s es)
emit-Still s es = Quiet-Still s _ (emit-Quiet s es)

pub broadcast_room-Still :
    (s : Server) (id : ℕ) (msg nickname : Bytes) → Still s (broadcast_room s id msg nickname)
broadcast_room-Still s id msg nickname = Quiet-Still s _ (broadcast_room-Quiet s id msg nickname)

pub broadcast_users-Still : (s : Server) (id : ℕ) → Still s (broadcast_users s id)
broadcast_users-Still s id = Quiet-Still s _ (broadcast_users-Quiet s id)

pub broadcast_room_lists-Still : (s : Server) → Still s (broadcast_room_lists s)
broadcast_room_lists-Still s = Quiet-Still s _ (broadcast_room_lists-Quiet s)

pub send_room_list-Still : (s : Server) (sid : ℕ) → Still s (send_room_list s sid)
unfolding send_room_list
send_room_list-Still s sid = emit-Still s _

pub send_topic-Still : (s : Server) (sid : ℕ) → Still s (send_topic s sid)
unfolding send_topic
send_topic-Still s sid = emit-Still s _

broadcast_each-Still :
    (s : Server) (rooms : List Room) (msg : Bytes) → Still s (broadcast_each s rooms msg)
unfolding broadcast_each
broadcast_each-Still s [] msg = Still-refl s
broadcast_each-Still s (r ∷ rooms) msg =
    Still-trans s (broadcast_room s r.id msg []) _ (broadcast_room-Still s r.id msg [])
      (broadcast_each-Still (broadcast_room s r.id msg []) rooms msg)

pub broadcast_server-Still : (s : Server) (msg : Bytes) → Still s (broadcast_server s msg)
unfolding broadcast_server
broadcast_server-Still s msg = broadcast_each-Still s s.rooms _

pub broadcast-Still : (s : Server) (msg : Bytes) → Still s (broadcast s msg)
unfolding broadcast
broadcast-Still s msg = broadcast_room-Still s _ msg []

pub send_private_in_room-Still :
    (s : Server) (clock sender target message : Bytes) (id : ℕ) (mirror : Bool)
    → Still s (send_private_in_room s clock sender target message id mirror).0
unfolding send_private_in_room
send_private_in_room-Still s clock sender target message id mirror =
    elim (Option-cases (find_room id s.rooms)) [
      | inl e ↦ rw (e, send_private_in_room) (Still-refl s)
      | inr (room, e) ↦ rw (e, send_private_in_room) (emit-Still s _)
    ]

pub send_private_from-Still :
    (s : Server) (clock : Bytes) (sid : ℕ) (target message : Bytes)
    → Still s (send_private_from s clock sid target message).0
unfolding send_private_from
send_private_from-Still s clock sid target message =
    send_private_in_room-Still s clock (nickname_of s sid) target message (room_of s sid) _

pub send_private-Still :
    (s : Server) (clock sender target message : Bytes) (mirror : Bool)
    → Still s (send_private s clock sender target message mirror).0
unfolding send_private
send_private-Still s clock sender target message mirror =
    send_private_in_room-Still s clock sender target message (acting_room s sender) mirror
