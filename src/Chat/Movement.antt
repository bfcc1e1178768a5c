-- ===== src/Chat/Movement.antt =====
-- How sessions and the interactive host change rooms in `ChatServer` (src/chat/chat_server.h):
-- `move_session_to_room`, `move_local_to_room`, `join`, `disconnect`, `join_room`, `leave_room`,
-- `create_room`, `create_local_room`, `create_admin_room`, `join_local_room`, `leave_local_room`.
pub mod Invariant
pub mod Creation
pub mod Placement
pub mod Local
use chatbox.Protocol.Rules.{is_valid_room_name}
use chatbox.Common.{
  ℕ, ◌+◌, ◌-◌, ◌%◌, String, Bool, true, false, not, ◌&&◌, Option, none, some, List, [], ◌∷◌, ◌++◌,
  map, leb, ◌==◌, if◌then◌else◌, length, is_empty, Bytes, text,
}
use chatbox.Protocol.Outcome.{max_rooms}
use chatbox.Protocol.Server.{room_joined, room_text, u64_bound}
use chatbox.Chat.State.{
  Room, Server, Effect, store_room, activate_room, push_message, delivery, delivery_text, when,
  each, emit, update_session, nickname_of, room_of, default_room_id,
}
use chatbox.Chat.Rooms.{
  leave_members, enter_members, find_room, update_room, emplace_room, find_room_by_name,
  insert_member, erase_member, is_member,
}
use chatbox.Chat.Delivery.{broadcast_room, broadcast_users, broadcast_room_lists}

-- The block of `move_session_to_room` under the lock.
pub transfer : Server → ℕ → ℕ → Server
transfer s sid id =
    update_session
      (record s {
        rooms =
            update_room id (enter_members sid)
              (update_room (room_of s sid) (leave_members sid) s.rooms);
      })
      sid (λ c. record c { active_room_id = id })

system_line : Bytes → String → Bytes → Bytes
system_line nick verb name = text "[system] " ++ (nick ++ (text verb ++ name))

history_effects : ℕ → Room → List Effect
history_effects sid target =
    delivery sid (room_joined target.id target.name target.topic)
    ++ when (not (is_empty target.recent_messages)) (
        delivery_text sid (text "[system] Recent messages in #" ++ (target.name ++ text ":"))
        ++ each (λ m. delivery sid (room_text target.id m)) target.recent_messages)

-- The announcements after the move; `target` is the room as it was found.
pub announce_move : Server → ℕ → ℕ → Room → Bool → Server
unfolding system_line history_effects
announce_move s sid old target announced =
    let nick = nickname_of s sid in
    let left =
      if announced && not (old == 0)
      then broadcast_users (broadcast_room s old (system_line nick " left for #" target.name) [])
          old
      else s in
    let shown = emit left (history_effects sid target) in
    let joined = broadcast_room shown target.id (system_line nick " joined #" target.name) [] in
    broadcast_room_lists (broadcast_users joined target.id)

pub move_session_to_room : Server → ℕ → ℕ → Bool → Server
unfolding transfer announce_move
move_session_to_room s sid id announced = elim (find_room id s.rooms) [
  | none ↦ s
  | some target ↦ announce_move (transfer s sid id) sid (room_of s sid) target announced
]

pub admit_to_default_room : Server → ℕ → Server
admit_to_default_room s sid = move_session_to_room s sid default_room_id false

-- `join`: the set of connected sessions.
pub join : Server → ℕ → Server
join s sid = record s { sessions = insert_member sid s.sessions }

-- The state after `disconnect` has taken the session out of the set, and out of its room.
unfoldable pub detach : Server → ℕ → Server
detach s sid =
    update_session
      (record s {
        sessions = erase_member sid s.sessions;
        rooms =
            if room_of s sid == 0
            then s.rooms
            else update_room (room_of s sid) (leave_members sid) s.rooms;
      })
      sid (λ c. record c { active_room_id = 0 })

-- The notices of `disconnect`, for a session that was a member of the room.
farewell : Server → ℕ → ℕ → Bool → Server
farewell s sid old announce =
    let nick = nickname_of s sid in
    let told =
      if announce && not (is_empty nick)
      then broadcast_room s old (text "[system] " ++ (nick ++ text " left")) []
      else s in
    broadcast_room_lists (broadcast_users told old)

-- One step, though the source reads and clears the session's room outside `rooms_mutex_`: what another
-- thread does to that room between is not modelled.
pub disconnect : Server → ℕ → Bool → Server
unfolding detach farewell
disconnect s sid announce =
    let old = room_of s sid in
    if not (old == 0) && is_member s.rooms old sid
    then farewell (detach s sid) sid old announce
    else detach s sid

-- An operation that may fail gives the error text, which the caller shows.
abbrev pub Reply : Type 0
Reply = Server × Option Bytes

abbrev pub done : Server → Reply
done s = (s, none)

abbrev pub refuse : Server → Bytes → Reply
refuse s error = (s, some error)

abbrev pub no_such_room : Bytes → Bytes
no_such_room name = text "Room '" ++ (name ++ text "' does not exist")

pub join_room : Server → ℕ → Bytes → Reply
join_room s sid name = elim (find_room_by_name name s.rooms) [
  | none ↦ refuse s (no_such_room name)
  | some room ↦
      if room_of s sid == room.id
      then refuse s (text "Already in room '" ++ (name ++ text "'"))
      else done (move_session_to_room s sid room.id true)
]

pub leave_room : Server → ℕ → Reply
leave_room s sid =
    if room_of s sid == default_room_id
    then refuse s (text "Already in the lobby")
    else done (move_session_to_room s sid default_room_id true)

-- The room that `create_room` makes, and the counter that moves on in 64 bits.
pub add_room : Server → Bytes → Bytes → Server
add_room s name owner = record s {
  rooms =
      emplace_room
        (record {
          id = s.next_room_id;
          name = name;
          topic = [];
          owner_nickname = owner;
          recent_messages = [];
          members = [];
        })
        s.rooms;
  next_room_id = (s.next_room_id + 1) % u64_bound;
}

pub persist_room : Server → ℕ → Server
persist_room s id = emit s (
    when s.has_storage
      (elim (find_room id s.rooms) [ none ↦ [] | some room ↦ store_room room ∷ [] ]))

-- The checks that the three ways to create a room share, and what happens if they pass.
pub create_checked : Server → Bytes → Bytes → (Server → ℕ → Server) → Reply
unfolding add_room
create_checked s name owner finish =
    if not (is_valid_room_name name)
    then refuse s (text "Room names use 1-32 letters, numbers, '-' or '_'")
    else if leb max_rooms (length s.rooms)
    then refuse s (text "This server has reached its room limit")
    else elim (find_room_by_name name s.rooms) [
      | some room ↦ refuse s (text "A room named '" ++ (name ++ text "' already exists"))
      | none ↦ done (finish (add_room s name owner) s.next_room_id)
    ]

pub create_room : Server → ℕ → Bytes → Reply
unfolding create_checked
create_room s sid name =
    create_checked s name (nickname_of s sid)
      λ t id. move_session_to_room (persist_room t id) sid id true

pub create_admin_room : Server → Bytes → Reply
unfolding create_checked
create_admin_room s name = create_checked s name [] λ t id.
    broadcast_room_lists
      (elim (find_room_by_name name t.rooms) [ none ↦ t | some room ↦ persist_room t room.id ])

-- The move of the interactive host, who is in no room's set of members.
announce_local : Server → ℕ → Room → Server
unfolding system_line
announce_local s old target =
    let nick = s.local_nickname in
    let left =
      if not (old == 0)
      then broadcast_users (broadcast_room s old (system_line nick " left for #" target.name) [])
          old
      else s in
    let shown = emit left (
      activate_room target.id target.name target.topic
      ∷ when (not (is_empty target.recent_messages)) (
          push_message (text "[system] Recent messages in #" ++ (target.name ++ text ":"))
          ∷ map push_message target.recent_messages)) in
    let joined = broadcast_room shown target.id (system_line nick " joined #" target.name) [] in
    broadcast_room_lists (broadcast_users joined target.id)

-- `move_local_to_room`, which is called with `announce_move` set only.
pub move_local_to_room : Server → ℕ → Server
unfolding announce_local
move_local_to_room s id = elim (find_room id s.rooms) [
  | none ↦ s
  | some target ↦ announce_local (record s { local_room_id = id }) s.local_room_id target
]

pub create_local_room : Server → Bytes → Reply
unfolding create_checked
create_local_room s name =
    if is_empty s.local_nickname
    then refuse s (text "No interactive host is configured")
    else create_checked s name s.local_nickname λ t id. move_local_to_room (persist_room t id) id

pub join_local_room : Server → Bytes → Reply
join_local_room s name = elim (find_room_by_name name s.rooms) [
  | none ↦ refuse s (no_such_room name)
  | some room ↦
      if s.local_room_id == room.id
      then refuse s (text "Already in room '" ++ (name ++ text "'"))
      else done (move_local_to_room s room.id)
]

pub leave_local_room : Server → Reply
leave_local_room s =
    if s.local_room_id == default_room_id
    then refuse s (text "Already in the lobby")
    else done (move_local_to_room s default_room_id)
