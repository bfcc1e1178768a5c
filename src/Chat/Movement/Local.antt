-- ===== src/Chat/Movement/Local.antt =====
-- The interactive host is in no room's set of members: its moves, and its rooms, keep the invariant.
use chatbox.Common.{
  refl, text, map, ◌∷◌, ◌++◌, [], ◌<◌, ◌+◌, Bool, true, false, not, Bool-cases, Option-cases, inl,
  inr, Bytes, ℕ, ◌==◌, if◌then◌else◌, is_empty,
}
use chatbox.Protocol.Server.{u64_bound}
use chatbox.Chat.State.{Room, Server, default_room_id, emit, when, activate_room, push_message}
use chatbox.Chat.Rooms.{find_room, find_room_by_name}
use chatbox.Chat.Invariant.{Inv, Still, Still-trans, Still-Inv, Quiet-Still, Still-refl}
use chatbox.Chat.Delivery.{broadcast_room, broadcast_users}
use chatbox.Chat.Delivery.Unmoved.{
  emit-Still, broadcast_room-Still, broadcast_users-Still, broadcast_room_lists-Still,
}
use chatbox.Chat.Movement.Creation.{create_checked-Inv, persist_room-Quiet}
use chatbox.Chat.Movement.{
  announce_local, move_local_to_room, create_local_room, join_local_room, leave_local_room, join,
  persist_room, system_line,
}

announce_local-Still :
    (s : Server) (old : ℕ) (target : Room) → Still s (announce_local s old target)
unfolding announce_local
announce_local-Still s old target =
    Still-trans s (broadcast_users joined target.id) _
      (Still-trans s joined _
        (Still-trans s shown _
          (Still-trans s left _ (left-Still (not (old == 0))) (emit-Still left _))
          (broadcast_room-Still shown target.id _ _))
        (broadcast_users-Still joined target.id))
      (broadcast_room_lists-Still _)
  where
    said : Server
    said =
        broadcast_users
          (broadcast_room s old (system_line s.local_nickname " left for #" target.name) []) old

    left : Server
    left = if not (old == 0) then said else s

    left-Still : (b : Bool) → Still s (if b then said else s)
    left-Still true =
        Still-trans s _ _
          (broadcast_room-Still s old (system_line s.local_nickname " left for #" target.name) [])
          (broadcast_users-Still _ old)
    left-Still false = Still-refl s

    shown : Server
    shown = emit left (
        activate_room target.id target.name target.topic
        ∷ when (not (is_empty target.recent_messages)) (
            push_message (text "[system] Recent messages in #" ++ (target.name ++ text ":"))
            ∷ map push_message target.recent_messages))

    joined : Server
    joined =
        broadcast_room shown target.id (system_line s.local_nickname " joined #" target.name) []

-- The fields of the interactive host are not in the invariant.
relocate-Still : (s : Server) (id : ℕ) → Still s (record s { local_room_id = id })
relocate-Still s id = record { same_rooms = refl; same_place = λ x. refl; same_next = refl }

pub move_local_to_room-Still : (s : Server) (id : ℕ) → Still s (move_local_to_room s id)
unfolding move_local_to_room
move_local_to_room-Still s id = elim (Option-cases (find_room id s.rooms)) [
  | inl e ↦ rw (e, move_local_to_room) (Still-refl s)
  | inr (target, e) ↦
      rw (e, move_local_to_room)
        (Still-trans s (record s { local_room_id = id }) _ (relocate-Still s id)
          (announce_local-Still _ s.local_room_id target))
]

pub join_local_room-Still : (s : Server) (name : Bytes) → Still s (join_local_room s name).0
unfolding join_local_room
join_local_room-Still s name = elim (Option-cases (find_room_by_name name s.rooms)) [
  | inl e ↦ rw (e, join_local_room) (Still-refl s)
  | inr (room, e) ↦
      rw (e, join_local_room)
        (elim (Bool-cases (s.local_room_id == room.id)) [
          | inl here ↦ rw here (Still-refl s)
          | inr away ↦ rw away (move_local_to_room-Still s room.id)
        ])
]

pub leave_local_room-Still : (s : Server) → Still s (leave_local_room s).0
unfolding leave_local_room
leave_local_room-Still s = elim (Bool-cases (s.local_room_id == default_room_id)) [
  | inl here ↦ rw here (Still-refl s)
  | inr away ↦ rw away (move_local_to_room-Still s default_room_id)
]

pub join-Still : (s : Server) (sid : ℕ) → Still s (join s sid)
unfolding join
join-Still s sid = record { same_rooms = refl; same_place = λ x. refl; same_next = refl }

pub create_local_room-Inv :
    (s : Server) (name : Bytes)
    → s.next_room_id + 1 < u64_bound
    → Inv s
    → Inv (create_local_room s name).0
unfolding create_local_room
create_local_room-Inv s name h v = elim (Bool-cases (is_empty s.local_nickname)) [
  | inl none_here ↦ rw none_here v
  | inr host ↦ rw host (
      create_checked-Inv s name s.local_nickname _ h
        (λ t id w.
          Still-Inv t _
            (Still-trans t (persist_room t id) _ (Quiet-Still t _ (persist_room-Quiet t id))
              (move_local_to_room-Still _ id))
            w)
        v)
]
