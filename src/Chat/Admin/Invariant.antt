-- ===== src/Chat/Admin/Invariant.antt =====
-- A kick or a ban ends a session, and keeps the invariant.
use chatbox.Chat.Admin.Unmoved.{close_session-Still, record_ban-Still}
use chatbox.Common.{
  Bool, true, false, Bool-cases, Option-cases, inl, inr, none, some, Bytes, ℕ, ◌==◌, bytes_eq,
}
use chatbox.Protocol.Server.{kick}
use chatbox.Chat.State.{Server, emit, delivery, nickname_of, room_of}
use chatbox.Chat.Rooms.{find_room, find_room_by_name}
use chatbox.Chat.Invariant.{Inv, Still-trans, Still-Inv}
use chatbox.Chat.Delivery.{broadcast_room, broadcast_users, first_named, acting_room}
use chatbox.Chat.Delivery.Unmoved.{emit-Still, broadcast_room-Still, broadcast_users-Still}
use chatbox.Chat.Movement.Invariant.{disconnect-Inv}
use chatbox.Chat.Admin.{
  [], Option, expel, kick_user_in_room, kick_reply, kick_from, kick_user, kick_user_in_named_room,
  record_ban, ban_session, ban_user,
}

expel-Inv : (s : Server) (sid : ℕ) (nick reason : Bytes) → Inv s → Inv (expel s sid nick reason)
unfolding expel
expel-Inv s sid nick reason v = disconnect-Inv _ sid false (
    Still-Inv _ _ (close_session-Still (emit s (delivery sid (kick nick reason))) sid)
      (Still-Inv s _ (emit-Still s _) v))

-- The notices after a session has been expelled.
told-Inv :
    (s : Server) (id : ℕ) (notice : Bytes)
    → Inv s
    → Inv (broadcast_users (broadcast_room s id notice []) id)
told-Inv s id notice v =
    Still-Inv s _
      (Still-trans s _ _ (broadcast_room-Still s id notice []) (broadcast_users-Still _ id)) v

pub kick_user_in_room-Inv :
    (s : Server) (id : ℕ) (nick reason : Bytes) → Inv s → Inv (kick_user_in_room s id nick reason).0
unfolding kick_user_in_room
kick_user_in_room-Inv s id nick reason v = elim (Option-cases (find_room id s.rooms)) [
  | inl e ↦ rw (e, kick_user_in_room) v
  | inr (room, e) ↦ elim (Option-cases (first_named s nick room.members)) [
    | inl f ↦ rw (e, f, kick_user_in_room) v
    | inr (sid, f) ↦ rw (e, f, kick_user_in_room) (told-Inv _ id _ (expel-Inv s sid nick reason v))
  ]
]

kick_reply-Inv : (r : Server × Bool) (error : Bytes) → Inv r.0 → Inv (kick_reply r error).0
unfolding kick_reply
kick_reply-Inv (s, true) error v = v
kick_reply-Inv (s, false) error v = v

pub kick_from-Inv :
    (s : Server) (sid : ℕ) (nick reason : Bytes) → Inv s → Inv (kick_from s sid nick reason).0
unfolding kick_from
kick_from-Inv s sid nick reason v = elim (Option-cases (find_room (room_of s sid) s.rooms)) [
  | inl e ↦ rw (e, kick_from) v
  | inr (room, e) ↦
      rw (e, kick_from)
        (elim (Bool-cases (bytes_eq room.owner_nickname (nickname_of s sid))) [
          | inr other ↦ rw other v
          | inl own ↦ elim (Bool-cases (bytes_eq nick (nickname_of s sid))) [
            | inl self ↦ rw (own, self) v
            | inr some_one ↦
                rw (own, some_one)
                  (kick_reply-Inv _ _ (kick_user_in_room-Inv s (room_of s sid) nick reason v))
          ]
        ])
]

pub kick_user-Inv : (s : Server) (nick reason : Bytes) → Inv s → Inv (kick_user s nick reason).0
unfolding kick_user
kick_user-Inv s nick reason v = elim (Bool-cases (acting_room s nick == 0)) [
  | inl e ↦ rw e v
  | inr e ↦ rw e (kick_user_in_room-Inv s (acting_room s nick) nick reason v)
]

pub kick_user_in_named_room-Inv :
    (s : Server) (name nick reason : Bytes)
    → Inv s
    → Inv (kick_user_in_named_room s name nick reason).0
unfolding kick_user_in_named_room
kick_user_in_named_room-Inv s name nick reason v =
    elim (Option-cases (find_room_by_name name s.rooms)) [
      | inl e ↦ rw (e, kick_user_in_named_room) v
      | inr (room, e) ↦
          rw (e, kick_user_in_named_room)
            (kick_reply-Inv _ _ (kick_user_in_room-Inv s room.id nick reason v))
    ]

ban_session-Inv :
    (s : Server) (nick reason : Bytes) (o : Option ℕ) → Inv s → Inv (ban_session s nick reason o)
unfolding ban_session
ban_session-Inv s nick reason none v = v
ban_session-Inv s nick reason (some sid) v = told-Inv _ _ _ (expel-Inv s sid nick _ v)

pub ban_user-Inv : (s : Server) (nick reason : Bytes) → Inv s → Inv (ban_user s nick reason)
unfolding ban_user
ban_user-Inv s nick reason v = Still-Inv _ _ (emit-Still _ _) (
    ban_session-Inv (record_ban s nick reason) nick reason _
      (Still-Inv s _ (record_ban-Still s nick reason) v))
