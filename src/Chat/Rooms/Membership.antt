-- ===== src/Chat/Rooms/Membership.antt =====
-- Who is a member of which room after a change of the rooms.
use chatbox.Chat.Rooms.{update_room, is_member, find_room}
use chatbox.Common.{
  Option-cases, ℕ, ◌≡◌, refl, sym, ap, ◌∙◌, inl, inr, not, ◌&&◌, ◌||◌, none, some, List, [], ◌∷◌,
  map, arith, ◌==◌,
}
use mathlib.Core.Option
use chatbox.Chat.State.{Room}
use chatbox.Chat.Rooms.{leave_members, enter_members}
use chatbox.Chat.Rooms.Laws.{is_in-insert_member, is_in-erase_member, find_room-update_room}

-- A room with its topic and its history left out.
abbrev pub bare : Room → Room
bare r = record r { topic = []; recent_messages = [] }

-- Who is a member does not depend on the histories.
pub find_room-bare :
    (id : ℕ) (rooms : List Room)
    → find_room id (map bare rooms) ≡ Option.map bare (find_room id rooms)
unfolding find_room
find_room-bare id [] = refl
find_room-bare id (r ∷ rooms) = ground (arith, find_room-bare id rooms)

pub is_member-bare :
    (rooms : List Room) (id sid : ℕ) → is_member (map bare rooms) id sid ≡ is_member rooms id sid
unfolding is_member
is_member-bare rooms id sid = rw (find_room-bare id rooms, is_member) (ground arith)

module _ (rooms : List Room) (i j sid x : ℕ) where
  -- One session less, in one room.
  pub is_member-leave :
      is_member (update_room i (leave_members sid) rooms) j x
      ≡ (not (i == j && x == sid) && is_member rooms j x)
  unfolding is_member
  is_member-leave =
      rw (find_room-update_room i j (leave_members sid) rooms (λ r. refl), is_member)
        (elim (Option-cases (find_room j rooms)) [
          | inl e ↦ rw e (ground arith)
          | inr (r, e) ↦ rw e (ground (arith, is_in-erase_member x sid r.members))
        ])

  -- One session more, in a room that is there.
  pub is_member-enter :
      (r : Room)
      → find_room i rooms ≡ some r
      → is_member (update_room i (enter_members sid) rooms) j x
        ≡ (i == j && x == sid || is_member rooms j x)
  unfolding is_member
  is_member-enter r e =
      rw (find_room-update_room i j (enter_members sid) rooms (λ q. refl), is_member)
        (elim (Option-cases (find_room j rooms)) [
          | inl f ↦ rw f (ground (arith, absent f))
          | inr (q, f) ↦ rw f (ground (arith, is_in-insert_member x sid q.members))
        ])
    where
      apart : none ≡ some r → ⊥
      apart h = cc

      absent : find_room j rooms ≡ none → i ≡ j → ⊥
      absent f h = apart (sym f ∙ sym (ap (λ k. find_room k rooms) h) ∙ e)
