-- ===== src/Chat/Startup.antt =====
-- The constructor of `ChatServer` (src/chat/chat_server.h) and its `load_persistent_state`. What the
-- storage holds is a parameter: the rooms in rising order of their numbers, each with its history,
-- latest first, the identities and the bans.
pub mod Invariant
use chatbox.Common.{ℕ, ◌+◌, ◌%◌, max, Bool, none, some, List, [], ◌∷◌, if◌then◌else◌, Bytes, text}
use mathlib.Core.List.{reverse}
use native.Mathlib.Nat.{mod-eq_of_lt}
use chatbox.Common.{Option-cases, max}
use chatbox.Protocol.Server.{u64_bound}
use chatbox.Chat.State.{Room, Session, Server, new_session, default_room_id, room_of}
use chatbox.Chat.Rooms.{
  find_room, find_room_by_name, emplace_room, is_member, is_in, normalized_room_name,
}
use chatbox.Chat.Rooms.Laws.{find_room-emplace_room}
use chatbox.Chat.Movement.{persist_room}
use chatbox.Chat.Movement.Creation.{persist_room-Quiet}
use chatbox.Chat.Admin.{insert_text, insert_key}
use chatbox.Chat.Invariant.{Inv, Quiet-Inv}

pub record StoredRoom : Type 0 where
  pub id : ℕ
  pub name : Bytes
  pub topic : Bytes
  pub owner_nickname : Bytes
  pub history : List Bytes

-- What `load_rooms`, `load_history`, `load_identities` and `load_bans` of the storage give.
pub record Stored : Type 0 where
  pub rooms : List StoredRoom
  pub identities : List (Bytes × Bytes)
  pub bans : List Bytes

-- The fields before anything is loaded.
unfoldable pub blank : Bytes → Bytes → Bool → Bool → ℕ → Server
blank password local_nickname has_log has_storage history_limit = record {
  password = password;
  local_nickname = local_nickname;
  has_log = has_log;
  has_storage = has_storage;
  history_limit = max 1 history_limit;
  sessions = [];
  session = λ _. new_session;
  rooms = [];
  next_room_id = default_room_id + 1;
  local_room_id = 0;
  banned_nicks = [];
  identities = [];
  bans_file = [];
  identities_file = text "identities.txt";
  effects = [];
}

unfoldable pub room_of_stored : StoredRoom → Room
room_of_stored r = record {
  id = r.id;
  name = r.name;
  topic = r.topic;
  owner_nickname = r.owner_nickname;
  recent_messages = reverse r.history;
  members = [];
}

-- One round of the loop over the stored rooms.
unfoldable pub load_room : Server → StoredRoom → Server
unfolding room_of_stored
load_room s r = record s {
  next_room_id = max s.next_room_id ((r.id + 1) % u64_bound);
  rooms = emplace_room (room_of_stored r) s.rooms;
}

pub load_rooms : Server → List StoredRoom → Server
load_rooms s [] = s
load_rooms s (r ∷ rs) = load_rooms (load_room s r) rs

-- `identities_[nickname] = key`: a later entry replaces an earlier one.
put_keys : List (Bytes × Bytes) → List (Bytes × Bytes) → List (Bytes × Bytes)
put_keys m [] = m
put_keys m ((nick, key) ∷ more) = put_keys (insert_key nick key m) more

put_bans : List Bytes → List Bytes → List Bytes
put_bans bans [] = bans
put_bans bans (nick ∷ more) = put_bans (insert_text nick bans) more

pub lobby_room : Server → Room
lobby_room s = record {
  id = default_room_id;
  name = text "lobby";
  topic = text "Welcome to the lobby";
  owner_nickname = s.local_nickname;
  recent_messages = [];
  members = [];
}

-- The lobby is made if the storage has none.
pub ensure_lobby : Server → Server
unfolding lobby_room
ensure_lobby s = elim (find_room default_room_id s.rooms) [
  | some room ↦ s
  | none ↦ persist_room (record s { rooms = emplace_room (lobby_room s) s.rooms }) default_room_id
]

pub load_persistent_state : Server → Stored → Server
unfolding load_rooms put_keys put_bans
load_persistent_state s stored =
    let loaded = load_rooms s stored.rooms in
    ensure_lobby (
      if s.has_storage
      then record loaded {
        identities = put_keys loaded.identities stored.identities;
        banned_nicks = put_bans loaded.banned_nicks stored.bans;
      }
      else s)
