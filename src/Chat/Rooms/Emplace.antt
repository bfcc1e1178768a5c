-- ===== src/Chat/Rooms/Emplace.antt =====
-- A new room under a free number and a free name: who is a member of what, and the names.
use chatbox.Common.{
  ℕ, ◌≡◌, sym, ap, ◌∙◌, ◌≢◌, inl, inr, false, none, some, List, [], ◌∷◌, arith, ◌==◌, if◌then◌else◌,
  Bool-cases, Bytes, bytes_eq,
}
use chatbox.Common.{bytes_eq_iff}
use chatbox.Chat.State.{Room}
use chatbox.Chat.Rooms.{
  find_room, find_room_by_name, find_normalized, normalized_room_name, emplace_room, is_member,
  is_in,
}
use chatbox.Chat.Rooms.Laws.{find_room-emplace_room}

find_normalized-fresh :
    (wanted : Bytes) (rooms : List Room) (j : ℕ) (q : Room)
    → find_normalized wanted rooms ≡ none
    → find_room j rooms ≡ some q
    → normalized_room_name q.name ≢ wanted
unfolding find_normalized find_room
find_normalized-fresh wanted [] j q h e k = cc
find_normalized-fresh wanted (r ∷ l) j q h e k =
    elim (Bool-cases (bytes_eq (normalized_room_name r.name) wanted)) [
      | inl same ↦ cc (rw same at h)
      | inr other ↦ elim (Bool-cases (r.id == j)) [
        | inl here ↦ absurd (mine other (rw here at e))
        | inr later ↦ find_normalized-fresh wanted l j q (rw other at h) (rw later at e) k
      ]
    ]
  where
    mine : bytes_eq (normalized_room_name r.name) wanted ≡ false → some r ≡ some q → ⊥
    mine other e' =
        let n : r ≡ q = cc in
        let same =
          (bytes_eq_iff (normalized_room_name r.name) wanted).1
            (ap (λ x. normalized_room_name x.name) n ∙ k) in
        cc

-- No room has a name that is not found.
pub find_room_by_name-fresh :
    (name : Bytes) (rooms : List Room) (j : ℕ) (q : Room)
    → find_room_by_name name rooms ≡ none
    → find_room j rooms ≡ some q
    → normalized_room_name q.name ≢ normalized_room_name name
unfolding find_room_by_name
find_room_by_name-fresh name rooms j q h e =
    find_normalized-fresh (normalized_room_name name) rooms j q h e

-- No two rooms have one name, whatever its case.
abbrev pub DistinctNames : List Room → Type 0
DistinctNames rooms =
    (i j : ℕ) (r q : Room)
    → find_room i rooms ≡ some r
    → find_room j rooms ≡ some q
    → normalized_room_name r.name ≡ normalized_room_name q.name
    → i ≡ j

at_none : (rooms : List Room) (j x : ℕ) → find_room j rooms ≡ none → is_member rooms j x ≡ false
unfolding is_member
at_none rooms j x e = rw (e, is_member)

at_room :
    (rooms : List Room) (j x : ℕ) (r : Room)
    → find_room j rooms ≡ some r
    → is_member rooms j x ≡ is_in x r.members
unfolding is_member
at_room rooms j x r e = rw (e, is_member)

same_room :
    (xs ys : List Room) (j x : ℕ)
    → find_room j xs ≡ find_room j ys
    → is_member xs j x ≡ is_member ys j x
unfolding is_member
same_room xs ys j x e = rw (e, is_member)

module _ (room : Room) (rooms : List Room) (new : find_room room.id rooms ≡ none) where
  found :
      (j : ℕ)
      → find_room j (emplace_room room rooms)
        ≡ (if room.id == j then some room else find_room j rooms)
  found j = find_room-emplace_room room j rooms new

  -- A room with nobody in it changes nobody's membership.
  pub is_member-emplace_room :
      room.members ≡ [] → (j x : ℕ) → is_member (emplace_room room rooms) j x ≡ is_member rooms j x
  unfolding is_in
  is_member-emplace_room nobody j x = elim (Bool-cases (room.id == j)) [
    | inl h ↦
        at_room (emplace_room room rooms) j x room (found j ∙ rw h)
        ∙ ap (is_in x) nobody
        ∙ sym (at_none rooms j x (absent (ground arith)))
    | inr h ↦ same_room (emplace_room room rooms) rooms j x (found j ∙ rw h)
  ]
    where
      absent : room.id ≡ j → find_room j rooms ≡ none
      absent e = sym (ap (λ k. find_room k rooms) e) ∙ new

  pub emplace_room-DistinctNames :
      find_room_by_name room.name rooms ≡ none
      → DistinctNames rooms
      → DistinctNames (emplace_room room rooms)
  emplace_room-DistinctNames free d i j r q hr hq e = elim (Bool-cases (room.id == i)) [
    | inl a ↦ elim (Bool-cases (room.id == j)) [
      | inl b ↦ ground arith
      | inr b ↦
          absurd (old j q (rw b at gq) (sym e ∙ ap normalized_room_name (mine r (rw a at gr))))
    ]
    | inr a ↦ elim (Bool-cases (room.id == j)) [
      | inl b ↦ absurd (old i r (rw a at gr) (e ∙ ap normalized_room_name (mine q (rw b at gq))))
      | inr b ↦ d i j r q (rw a at gr) (rw b at gq) e
    ]
  ]
    where
      old :
          (k : ℕ) (x : Room)
          → find_room k rooms ≡ some x
          → normalized_room_name x.name ≢ normalized_room_name room.name
      old k x = find_room_by_name-fresh room.name rooms k x free

      mine : (x : Room) → some room ≡ some x → x.name ≡ room.name
      mine x h = cc

      gr : (if room.id == i then some room else find_room i rooms) ≡ some r
      gr = sym (found i) ∙ hr

      gq : (if room.id == j then some room else find_room j rooms) ≡ some q
      gq = sym (found j) ∙ hq
