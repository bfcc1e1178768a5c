-- ===== src/App/State.antt =====
-- The state that the user interface draws: src/app/app_state.cpp, every function of it. The globals
-- are the fields of `AppState`; each function runs under the one mutex, so it is one step.
pub mod Transcript
use chatbox.Common.{
  drop, ℕ, ◌+◌, ◌%◌, Bool, true, false, List, [], ◌∷◌, ◌++◌, ltb, ◌==◌, if◌then◌else◌, length,
  Bytes,
}
use mathlib.Core.List.{◌++◌}
use chatbox.Protocol.Server.{RoomSummary, u64_bound}

pub record AppState : Type 0 where
  pub messages : List Bytes
  pub message_sequence : ℕ
  pub users : List Bytes
  pub rooms : List RoomSummary
  pub active_room_id : ℕ
  pub active_room_name : Bytes
  pub active_room_topic : Bytes
  pub kicked : Bool

abbrev pub max_messages : ℕ
max_messages = 200

pub clear_messages : AppState → AppState
clear_messages s = record s { messages = [] }

pub update_room_users : AppState → ℕ → List Bytes → AppState
update_room_users s id users = record s {
  users = if id == s.active_room_id then users else s.users;
}

pub mark_kicked : AppState → AppState
mark_kicked s = record s { kicked = true }

-- `pop_front` if there are too many.
pub bounded : List Bytes → List Bytes
bounded xs = if ltb max_messages (length xs) then drop 1 xs else xs

unfoldable pub push_message : AppState → Bytes → AppState
unfolding bounded
push_message s msg = record s {
  messages = bounded (s.messages ++ (msg ∷ []));
  message_sequence = (s.message_sequence + 1) % u64_bound;
}

pub reset_chat_state : AppState → AppState
reset_chat_state s = record s {
  messages = [];
  users = [];
  rooms = [];
  active_room_id = 0;
  active_room_name = [];
  active_room_topic = [];
  kicked = false;
}

pub activate_room : AppState → ℕ → Bytes → Bytes → AppState
activate_room s id name topic = record s {
  active_room_id = id;
  active_room_name = name;
  active_room_topic = topic;
  messages = [];
  users = [];
}

pub update_room_topic : AppState → ℕ → Bytes → AppState
update_room_topic s id topic = record s {
  active_room_topic = if s.active_room_id == id then topic else s.active_room_topic;
}

pub update_room_list : AppState → List RoomSummary → AppState
update_room_list s rooms = record s { rooms = rooms }
