-- ===== src/Chat/Rooms/Laws.antt =====
-- What the operations on sets of members and on the map of rooms do to a later lookup.
use chatbox.Chat.Rooms.{insert_member, erase_member, emplace_room, update_room, is_in, find_room}
use chatbox.Common.{
  inr, ◌∙◌, sym, inl, Option-cases, ℕ, ◌≡◌, refl, not, ◌&&◌, ◌||◌, none, some, List, [], ◌∷◌, arith,
  ◌==◌, if◌then◌else◌,
}
use mathlib.Core.Option
use chatbox.Chat.State.{Room}

pub is_in-insert_member :
    (x y : ℕ) (xs : List ℕ) → is_in x (insert_member y xs) ≡ (x == y || is_in x xs)
unfolding is_in insert_member
is_in-insert_member x y [] = refl
is_in-insert_member x y (z ∷ zs) = ground (arith, is_in-insert_member x y zs)

pub is_in-erase_member :
    (x y : ℕ) (xs : List ℕ) → is_in x (erase_member y xs) ≡ (not (x == y) && is_in x xs)
unfolding is_in erase_member
is_in-erase_member x y [] = ground arith
is_in-erase_member x y (z ∷ zs) = ground (arith, is_in-erase_member x y zs)

-- A change that keeps the number.
abbrev pub KeepsId : (Room → Room) → Type 0
KeepsId f = (r : Room) → (f r).id ≡ r.id

pub find_room-id : (id : ℕ) (rooms : List Room) (r : Room) → find_room id rooms ≡ some r → r.id ≡ id
unfolding find_room
find_room-id id [] r e = cc
find_room-id id (q ∷ rooms) r e = ground (arith, find_room-id id rooms r)

pub find_room-update_room :
    (id j : ℕ) (f : Room → Room) (rooms : List Room)
    → KeepsId f
    → find_room j (update_room id f rooms)
      ≡ (if id == j then Option.map f (find_room j rooms) else find_room j rooms)
unfolding find_room update_room
find_room-update_room id j f [] k = ground arith
find_room-update_room id j f (r ∷ rooms) k =
    ground (arith, k r, find_room-update_room id j f rooms k)

pub find_room-emplace_room :
    (r : Room) (j : ℕ) (rooms : List Room)
    → find_room r.id rooms ≡ none
    → find_room j (emplace_room r rooms) ≡ (if r.id == j then some r else find_room j rooms)
unfolding find_room emplace_room
find_room-emplace_room r j [] e = refl
find_room-emplace_room r j (q ∷ rooms) e = ground (arith, find_room-emplace_room r j rooms)

-- A change that keeps numbers and names: a room that is found after it was there, under its name.
pub update_room-name :
    (i j : ℕ) (f : Room → Room) (rooms : List Room) (r : Room)
    → KeepsId f
    → ((q : Room) → (f q).name ≡ q.name)
    → find_room j (update_room i f rooms) ≡ some r
    → (q : Room) × (find_room j rooms ≡ some q) × (q.name ≡ r.name)
update_room-name i j f rooms r k n e = elim (Option-cases (find_room j rooms)) [
  | inl h ↦ absurd (apart (rw h at (sym (find_room-update_room i j f rooms k) ∙ e)))
  | inr (q, h) ↦ (q, h, same q (rw h at (sym (find_room-update_room i j f rooms k) ∙ e)))
]
  where
    apart : (if i == j then none else none) ≡ some r → ⊥
    apart h = ground arith

    same : (q : Room) → (if i == j then some (f q) else some q) ≡ some r → q.name ≡ r.name
    same q h = ground (arith, n q)
