-- ===== src/Tests/Rooms.antt =====
-- A server with the lobby, a second room and one session, and what its operations do.
use chatbox.Common.{
  text, bytes_eq, none, ◌≡◌, refl, true, false, some, [], ◌∷◌, arith, ◌==◌, if◌then◌else◌, codes,
}
use chatbox.Protocol.Server.{u64_bound}
use chatbox.Chat.State.{Room, Server, new_session}
use chatbox.Chat.Rooms.{
  normalized_room_name, emplace_room, find_room_by_name, is_in, find_room, is_member,
}
use chatbox.Chat.Invariant.{Inv}
use chatbox.Chat.Movement.{move_session_to_room, disconnect}
use chatbox.Chat.Rooms.Emplace.{DistinctNames, emplace_room-DistinctNames}
use chatbox.Chat.Run.{Reach-Inv, here, next, connected, lost}
use chatbox.Chat.Session.{start, read_failed}
use chatbox.Chat.Startup.{
  StoredRoom, Stored, blank, load_room, load_persistent_state, room_of_stored,
}
use chatbox.Chat.Startup.Invariant.{IsStored, load_persistent_state-Inv}
use chatbox.Chat.Movement.Placement.{move_session_to_room-enters, disconnect-leaves}

abbrev lobby : Room
lobby = record {
  id = 1;
  name = codes "lobby";
  topic = [];
  owner_nickname = [];
  recent_messages = [];
  members = 7 ∷ [];
}

abbrev games : Room
games = record {
  id = 2;
  name = codes "games";
  topic = codes "chess";
  owner_nickname = codes "bob";
  recent_messages = codes "hello" ∷ [];
  members = [];
}

-- Session 7 is in the lobby.
abbrev pub server : Server
server = record {
  password = [];
  local_nickname = [];
  has_log = false;
  has_storage = true;
  history_limit = 100;
  sessions = 7 ∷ [];
  session = λ x.
      if x == 7
      then record new_session { nickname = codes "bob"; active_room_id = 1 }
      else new_session;
  rooms = lobby ∷ games ∷ [];
  next_room_id = 3;
  local_room_id = 0;
  banned_nicks = [];
  identities = [];
  bans_file = [];
  identities_file = [];
  effects = [];
}

server-names : DistinctNames server.rooms
unfolding find_room find_room_by_name emplace_room bytes_eq normalized_room_name
server-names =
    emplace_room-DistinctNames games (lobby ∷ []) refl refl
      (emplace_room-DistinctNames lobby [] refl refl none_named)
  where
    none_named : DistinctNames []
    none_named i j r q h k e = absurd (apart h)
      where
        apart : none ≡ some r → ⊥
        apart h = cc h

server-Inv : Inv server
unfolding is_member find_room is_in
server-Inv = record {
  member = λ id sid. ground arith;
  no_zero = refl;
  lobby = λ e. ground arith;
  fresh = λ id h. ground arith;
  next_pos = omega arith;
  names = server-names;
}

games-found : find_room 2 server.rooms ≡ some games
unfolding find_room
games-found = refl

move_session_to_room-enters_example :
    is_member (move_session_to_room server 7 2 true).rooms 2 7 ≡ (2 == 2)
move_session_to_room-enters_example =
    move_session_to_room-enters server 7 2 true games games-found server-Inv 2

disconnect-leaves_example : is_member (disconnect server 7 true).rooms 1 7 ≡ false
disconnect-leaves_example = disconnect-leaves server 7 true server-Inv 1

-- Session 9 connects, and the lobby's line of session 7 fails.
Reach-Inv_example : Inv (read_failed (start server 9) 7)
Reach-Inv_example =
    Reach-Inv (λ key challenge signature. false) server (read_failed (start server 9) 7) server-Inv
      (next (next here (connected 9)) (lost 7))

abbrev stored_games : StoredRoom
stored_games = record {
  id = 2;
  name = codes "games";
  topic = [];
  owner_nickname = codes "bob";
  history = codes "hello" ∷ [];
}

abbrev stored : Stored
stored = record { rooms = stored_games ∷ []; identities = []; bans = codes "eve" ∷ [] }

rooms_are_distinct : IsStored (blank [] [] false true 100) (stored_games ∷ [])
unfolding IsStored blank load_room find_room find_room_by_name u64_bound emplace_room room_of_stored
    text bytes_eq normalized_room_name
rooms_are_distinct = (omega arith, omega arith, refl, refl, λ e. refl)

load_persistent_state-Inv_example : Inv (load_persistent_state (blank [] [] false true 100) stored)
load_persistent_state-Inv_example =
    load_persistent_state-Inv [] [] false true 100 stored rooms_are_distinct
