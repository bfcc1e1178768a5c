-- ===== src/Chat/Startup/Invariant.antt =====
-- A server starts in its invariant, whatever rooms the storage holds.
use chatbox.Common.{
  ℕ, ◌+◌, ◌≤◌, ◌<◌, max, ◌≡◌, refl, sym, ◌∙◌, subst, ◌≢◌, inl, inr, Bool, true, false, Option, none,
  some, List, [], ◌∷◌, arith, ◌==◌, if◌then◌else◌, Bytes, text,
}
use native.Mathlib.Nat.{mod-eq_of_lt}
use chatbox.Common.{Option-cases, max, text}
use chatbox.Protocol.Server.{u64_bound}
use chatbox.Chat.State.{Room, Server, default_room_id, room_of}
use chatbox.Chat.Rooms.{find_room, find_room_by_name, emplace_room, is_member}
use chatbox.Chat.Rooms.Laws.{find_room-emplace_room}
use chatbox.Chat.Rooms.Emplace.{DistinctNames, is_member-emplace_room, emplace_room-DistinctNames}
use chatbox.Chat.Movement.{persist_room}
use chatbox.Chat.Movement.Creation.{persist_room-Quiet}
use chatbox.Chat.Invariant.{Inv, Quiet-Inv}
use chatbox.Chat.Startup.{
  StoredRoom, Stored, blank, load_room, load_rooms, load_persistent_state, ensure_lobby, lobby_room,
  room_of_stored,
}

-- Each stored room has a number and a name that those before it do not have, and no room but the
-- first is the lobby by its name: the table's primary key and its unique column.
unfoldable pub IsStored : Server → List StoredRoom → Type 0
IsStored s [] =
    find_room default_room_id s.rooms ≡ none → find_room_by_name (text "lobby") s.rooms ≡ none
IsStored s (r ∷ rs) =
    (0 < r.id)
    × (r.id + 1 < u64_bound)
    × (find_room r.id s.rooms ≡ none)
    × (find_room_by_name r.name s.rooms ≡ none)
    × IsStored (load_room s r) rs

-- The invariant of the loop: the server's, without the lobby, and with nobody anywhere.
record Loading (s : Server) : Type 0 where
  nobody : (x : ℕ) → room_of s x ≡ 0
  nowhere : (j x : ℕ) → is_member s.rooms j x ≡ false
  no_zero : find_room 0 s.rooms ≡ none
  fresh : (id : ℕ) → s.next_room_id ≤ id → find_room id s.rooms ≡ none
  next_pos : default_room_id < s.next_room_id
  names : DistinctNames s.rooms

load_room-Loading :
    (s : Server) (r : StoredRoom)
    → 0 < r.id
    → r.id + 1 < u64_bound
    → find_room r.id s.rooms ≡ none
    → find_room_by_name r.name s.rooms ≡ none
    → Loading s
    → Loading (load_room s r)
unfolding load_room
load_room-Loading s r pos small free new v = record {
  nobody = v.nobody;
  nowhere = λ j x. is_member-emplace_room (room_of_stored r) s.rooms free refl j x ∙ v.nowhere j x;
  no_zero = found 0 ∙ ground (arith, v.no_zero);
  fresh = λ j k. later j (rw (mod-eq_of_lt small) at k);
  next_pos = rw (mod-eq_of_lt small) (omega (arith, v.next_pos));
  names = emplace_room-DistinctNames (room_of_stored r) s.rooms free new v.names;
}
  where
    found :
        (j : ℕ)
        → find_room j (emplace_room (room_of_stored r) s.rooms)
          ≡ (if r.id == j then some (room_of_stored r) else find_room j s.rooms)
    found j = find_room-emplace_room (room_of_stored r) j s.rooms free

    later :
        (j : ℕ)
        → max s.next_room_id (r.id + 1) ≤ j
        → find_room j (emplace_room (room_of_stored r) s.rooms) ≡ none
    later j k = found j ∙ ground (arith, v.fresh j (omega arith))

load_rooms-Loading :
    (s : Server) (rs : List StoredRoom)
    → IsStored s rs
    → Loading s
    → Loading (load_rooms s rs) × IsStored (load_rooms s rs) []
unfolding load_rooms IsStored
load_rooms-Loading s [] h v = (v, h)
load_rooms-Loading s (r ∷ rs) (pos, small, free, new, h) v =
    load_rooms-Loading (load_room s r) rs h (load_room-Loading s r pos small free new v)

-- A server that nobody has joined yet is in its invariant once it has a lobby.
Loading-Inv : (s : Server) → Loading s → find_room default_room_id s.rooms ≢ none → Inv s
Loading-Inv s v lobby = record {
  member = λ j x. v.nowhere j x ∙ ground (arith, v.nobody x);
  no_zero = v.no_zero;
  lobby = lobby;
  fresh = v.fresh;
  next_pos = omega (arith, v.next_pos);
  names = v.names;
}

with_lobby : Server → Server
with_lobby s = record s { rooms = emplace_room (lobby_room s) s.rooms }

with_lobby-Inv :
    (s : Server)
    → Loading s
    → find_room default_room_id s.rooms ≡ none
    → find_room_by_name (text "lobby") s.rooms ≡ none
    → Inv (with_lobby s)
unfolding with_lobby lobby_room
with_lobby-Inv s v free new = Loading-Inv (with_lobby s) loading (λ e. absurd (apart e))
  where
    found :
        (j : ℕ)
        → find_room j (emplace_room (lobby_room s) s.rooms)
          ≡ (if default_room_id == j then some (lobby_room s) else find_room j s.rooms)
    found j = find_room-emplace_room (lobby_room s) j s.rooms free

    apart : find_room default_room_id (emplace_room (lobby_room s) s.rooms) ≡ none → ⊥
    apart e = cc (found default_room_id, e)

    loading : Loading (with_lobby s)
    loading = record {
      nobody = v.nobody;
      nowhere = λ j x. is_member-emplace_room (lobby_room s) s.rooms free refl j x ∙ v.nowhere j x;
      no_zero = found 0 ∙ ground (arith, v.no_zero);
      fresh = λ j k. found j ∙ ground (arith, v.fresh j k, v.next_pos);
      next_pos = v.next_pos;
      names = emplace_room-DistinctNames (lobby_room s) s.rooms free new v.names;
    }

ensure_lobby-Inv : (s : Server) → Loading s → IsStored s [] → Inv (ensure_lobby s)
unfolding ensure_lobby with_lobby IsStored
ensure_lobby-Inv s v h = elim (Option-cases (find_room default_room_id s.rooms)) [
  | inl absent ↦ subst goal (sym absent) (
      Quiet-Inv (with_lobby s) (persist_room (with_lobby s) default_room_id)
        (persist_room-Quiet (with_lobby s) default_room_id) (with_lobby-Inv s v absent (h absent)))
  | inr (room, present) ↦ subst goal (sym present) (Loading-Inv s v (λ e. cc (e, present)))
]
  where
    goal : Option Room → Type 0
    goal o = Inv (elim o as (λ x. Server) [
      | some room ↦ s
      | none ↦ persist_room (with_lobby s) default_room_id
    ])

blank-Loading :
    (password local : Bytes) (log storage : Bool) (limit : ℕ)
    → Loading (blank password local log storage limit)
unfolding blank is_member find_room
blank-Loading password local log storage limit = record {
  nobody = λ x. refl;
  nowhere = λ j x. refl;
  no_zero = refl;
  fresh = λ j k. refl;
  next_pos = omega arith;
  names = λ i j r q hr hq e. absurd (apart r hr);
}
  where
    apart : (r : Room) → none ≡ some r → ⊥
    apart r h = cc h

-- The identities and the bans are no part of it.
with_lists-Loading :
    (s : Server) (keys : List (Bytes × Bytes)) (bans : List Bytes)
    → Loading s
    → Loading (record s { identities = keys; banned_nicks = bans })
with_lists-Loading s keys bans v = record {
  nobody = v.nobody;
  nowhere = v.nowhere;
  no_zero = v.no_zero;
  fresh = v.fresh;
  next_pos = v.next_pos;
  names = v.names;
}

-- A new server has, with or without a storage, its invariant, if the numbers and the names of the
-- stored rooms are distinct, the numbers are from 1 to 2 ^ 64 - 2, and no room but number 1 is the
-- lobby by its name.
pub load_persistent_state-Inv :
    (password local : Bytes) (log storage : Bool) (limit : ℕ) (stored : Stored)
    → IsStored (blank password local log storage limit) stored.rooms
    → Inv (load_persistent_state (blank password local log storage limit) stored)
unfolding load_persistent_state blank IsStored find_room_by_name
load_persistent_state-Inv password local log false limit stored h =
    ensure_lobby-Inv (blank password local log false limit)
      (blank-Loading password local log false limit) (λ e. refl)
load_persistent_state-Inv password local log true limit stored h =
    let (v, w) =
      load_rooms-Loading (blank password local log true limit) stored.rooms h
        (blank-Loading password local log true limit) in
    ensure_lobby-Inv _ (with_lists-Loading _ _ _ v) w
