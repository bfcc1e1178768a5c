-- ===== src/Chat/Movement/Placement.antt =====
-- Where a session is after a move, and after its end.
use chatbox.Common.{
  Bytes, Bool-cases, ℕ, ◌≡◌, refl, ap, ◌∙◌, inl, inr, Bool, false, some, arith, ◌==◌,
}
use chatbox.Common.{Option-cases}
use chatbox.Chat.State.{Room, Server, room_of, nickname_of, default_room_id}
use chatbox.Chat.Rooms.{find_room_by_name, find_room, is_member}
use chatbox.Chat.Invariant.{Inv}
use chatbox.Chat.Movement.{
  true, join_room, leave_room, move_session_to_room, transfer, disconnect, detach,
  admit_to_default_room,
}
use chatbox.Chat.Movement.Invariant.{
  move_session_to_room-Inv, disconnect-Inv, announce_move-Quiet, ne_zero, same_as_detach,
}

room_of-move_session_to_room :
    (s : Server) (sid id : ℕ) (announced : Bool) (r : Room)
    → find_room id s.rooms ≡ some r
    → room_of (move_session_to_room s sid id announced) sid ≡ id
unfolding move_session_to_room transfer
room_of-move_session_to_room s sid id announced r e =
    rw (e, move_session_to_room)
      (ap (λ g. (g sid).active_room_id)
          (announce_move-Quiet (transfer s sid id) sid (room_of s sid) r announced).same_session
        ∙ ground arith)

-- After a move to a room that is there, on a server whose invariant holds, the session is a member of
-- that room and of no other.
pub move_session_to_room-enters :
    (s : Server) (sid id : ℕ) (announced : Bool) (r : Room)
    → find_room id s.rooms ≡ some r
    → Inv s
    → (j : ℕ) → is_member (move_session_to_room s sid id announced).rooms j sid ≡ (id == j)
move_session_to_room-enters s sid id announced r e v j =
    (move_session_to_room-Inv s sid id announced v).member j sid
    ∙ rw (room_of-move_session_to_room s sid id announced r e) (ground (arith, ne_zero s id r e v))

room_of-disconnect :
    (s : Server) (sid : ℕ) (announce : Bool) → room_of (disconnect s sid announce) sid ≡ 0
unfolding detach
room_of-disconnect s sid announce =
    same_as_detach (λ t. room_of t sid) (λ t u q. ap (λ g. (g sid).active_room_id) q.same_session) s
      sid announce
    ∙ ground arith

-- A session that has ended is a member of no room, on a server whose invariant held.
pub disconnect-leaves :
    (s : Server) (sid : ℕ) (announce : Bool)
    → Inv s
    → (j : ℕ) → is_member (disconnect s sid announce).rooms j sid ≡ false
disconnect-leaves s sid announce v j =
    (disconnect-Inv s sid announce v).member j sid
    ∙ rw (room_of-disconnect s sid announce) (ground arith)

-- A move changes nobody's nickname.
pub move_session_to_room-nickname :
    (s : Server) (sid id : ℕ) (announced : Bool) (x : ℕ)
    → nickname_of (move_session_to_room s sid id announced) x ≡ nickname_of s x
unfolding move_session_to_room transfer
move_session_to_room-nickname s sid id announced x = elim (Option-cases (find_room id s.rooms)) [
  | inl e ↦ rw (e, move_session_to_room) refl
  | inr (r, e) ↦
      rw (e, move_session_to_room)
        (ap (λ g. (g x).nickname)
            (announce_move-Quiet (transfer s sid id) sid (room_of s sid) r announced).same_session
          ∙ ground arith)
]

pub admit_to_default_room-nickname :
    (s : Server) (sid x : ℕ) → nickname_of (admit_to_default_room s sid) x ≡ nickname_of s x
unfolding admit_to_default_room
admit_to_default_room-nickname s sid x = move_session_to_room-nickname s sid default_room_id false x

-- The requests to change rooms keep the invariant.
pub join_room-Inv : (s : Server) (sid : ℕ) (name : Bytes) → Inv s → Inv (join_room s sid name).0
unfolding join_room
join_room-Inv s sid name v = elim (Option-cases (find_room_by_name name s.rooms)) [
  | inl e ↦ rw (e, join_room) v
  | inr (room, e) ↦
      rw (e, join_room)
        (elim (Bool-cases (room_of s sid == room.id)) [
          | inl here ↦ rw here v
          | inr away ↦ rw away (move_session_to_room-Inv s sid room.id true v)
        ])
]

pub leave_room-Inv : (s : Server) (sid : ℕ) → Inv s → Inv (leave_room s sid).0
unfolding leave_room
leave_room-Inv s sid v = elim (Bool-cases (room_of s sid == default_room_id)) [
  | inl here ↦ rw here v
  | inr away ↦ rw away (move_session_to_room-Inv s sid default_room_id true v)
]

pub admit_to_default_room-Inv : (s : Server) (sid : ℕ) → Inv s → Inv (admit_to_default_room s sid)
unfolding admit_to_default_room
admit_to_default_room-Inv s sid v = move_session_to_room-Inv s sid default_room_id false v
