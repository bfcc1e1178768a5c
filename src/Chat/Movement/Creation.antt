-- ===== src/Chat/Movement/Creation.antt =====
-- The invariant when rooms are made, and when the interactive host moves.
use chatbox.Protocol.Rules.{is_valid_room_name}
use chatbox.Chat.Movement.Invariant.{move_session_to_room-Inv}
use chatbox.Common.{
  Option-cases, ℕ, ◌+◌, ◌≤◌, ◌<◌, ◌≡◌, refl, ◌∙◌, inl, inr, true, none, some, [], arith, leb, ◌==◌,
  if◌then◌else◌, Bool-cases, length, Bytes,
}
use native.Mathlib.Nat.{mod-eq_of_lt}
use chatbox.Protocol.Outcome.{max_rooms}
use chatbox.Protocol.Server.{u64_bound}
use chatbox.Chat.State.{Room, Server, default_room_id}
use chatbox.Chat.Rooms.{find_room_by_name, find_room, emplace_room, is_in}
use chatbox.Chat.Rooms.Emplace.{is_member-emplace_room, emplace_room-DistinctNames}
use chatbox.Chat.Rooms.Laws.{find_room-emplace_room}
use chatbox.Chat.Delivery.{broadcast_room_lists}
use chatbox.Chat.Delivery.Quiet.{Quiet, emit-Quiet, broadcast_room_lists-Quiet}
use chatbox.Chat.Invariant.{Inv, Quiet-Inv}
use chatbox.Chat.Movement.{create_admin_room, create_checked, create_room, add_room, persist_room}

-- A new room has nobody in it; the counter must not wrap.
pub add_room-Inv :
    (s : Server) (name owner : Bytes)
    → s.next_room_id + 1 < u64_bound
    → find_room_by_name name s.rooms ≡ none
    → Inv s
    → Inv (add_room s name owner)
unfolding add_room is_in
add_room-Inv s name owner h new v = record {
  member = λ j x. is_member-emplace_room room s.rooms free refl j x ∙ v.member j x;
  no_zero = found 0 ∙ ground (arith, v.next_pos, v.no_zero);
  lobby = λ e. ground (arith, found default_room_id, v.lobby);
  fresh = λ j k. later j (rw (mod-eq_of_lt h) at k);
  next_pos = rw (mod-eq_of_lt h) (omega arith);
  names = emplace_room-DistinctNames room s.rooms free new v.names;
}
  where
    room : Room
    room = record {
      id = s.next_room_id;
      name = name;
      topic = [];
      owner_nickname = owner;
      recent_messages = [];
      members = [];
    }

    free : find_room s.next_room_id s.rooms ≡ none
    free = v.fresh s.next_room_id (omega arith)

    found :
        (j : ℕ)
        → find_room j (emplace_room room s.rooms)
          ≡ (if s.next_room_id == j then some room else find_room j s.rooms)
    found j = find_room-emplace_room room j s.rooms free

    later : (j : ℕ) → s.next_room_id + 1 ≤ j → find_room j (emplace_room room s.rooms) ≡ none
    later j k = found j ∙ ground (arith, v.fresh j (omega arith))

pub persist_room-Quiet : (s : Server) (id : ℕ) → Quiet s (persist_room s id)
unfolding persist_room
persist_room-Quiet s id = emit-Quiet s _

-- The shared checks: every failure leaves the server as it was.
pub create_checked-Inv :
    (s : Server) (name owner : Bytes) (finish : Server → ℕ → Server)
    → s.next_room_id + 1 < u64_bound
    → ((t : Server) (id : ℕ) → Inv t → Inv (finish t id))
    → Inv s
    → Inv (create_checked s name owner finish).0
unfolding create_checked
create_checked-Inv s name owner finish h keep v = elim (Bool-cases (is_valid_room_name name)) [
  | inr bad ↦ rw (bad, create_checked) v
  | inl good ↦ elim (Bool-cases (leb max_rooms (length s.rooms))) [
    | inl full ↦ rw (good, full, create_checked) v
    | inr some_left ↦ elim (Option-cases (find_room_by_name name s.rooms)) [
      | inl new ↦
          rw (good, some_left, new, create_checked)
            (keep _ s.next_room_id (add_room-Inv s name owner h new v))
      | inr (r, old) ↦ rw (good, some_left, old, create_checked) v
    ]
  ]
]

module _ (s : Server) (h : s.next_room_id + 1 < u64_bound) (v : Inv s) (name : Bytes) where
  -- A request to create a room keeps the invariant, refused or not, if the counter does not wrap.
  pub create_room-Inv : (sid : ℕ) → Inv (create_room s sid name).0
  unfolding create_room
  create_room-Inv sid =
      create_checked-Inv s name _ _ h
        (λ t id w.
          move_session_to_room-Inv _ sid id true (Quiet-Inv _ _ (persist_room-Quiet t id) w))
        v

  -- The operator's creation of a room keeps the invariant, refused or not, if the counter does not
  -- wrap.
  pub create_admin_room-Inv : Inv (create_admin_room s name).0
  unfolding create_admin_room
  create_admin_room-Inv = create_checked-Inv s name _ _ h listed v
    where
      listed :
          (t : Server) (id : ℕ)
          → Inv t
          → Inv (
              broadcast_room_lists (elim (find_room_by_name name t.rooms) [
                | none ↦ t
                | some room ↦ persist_room t room.id
              ]))
      listed t id w = elim (Option-cases (find_room_by_name name t.rooms)) [
        | inl e ↦ rw e (Quiet-Inv _ _ (broadcast_room_lists-Quiet t) w)
        | inr (r, e) ↦ rw e (
            Quiet-Inv _ _ (broadcast_room_lists-Quiet _)
              (Quiet-Inv _ _ (persist_room-Quiet t r.id) w))
      ]
