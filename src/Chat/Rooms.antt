-- ===== src/Chat/Rooms.antt =====
-- The map of rooms and the sets of members. `std::map<RoomId, Room>` is a list in rising order of the
-- rooms' numbers; a room is stored under its own `id` wherever the source inserts one.
pub mod Laws
pub mod Membership
pub mod Emplace
use chatbox.Common.{
  ℕ, ◌+◌, Bool, false, ◌&&◌, ◌||◌, Option, none, some, List, [], ◌∷◌, map, ltb, leb, ◌==◌,
  if◌then◌else◌, Bytes, bytes_eq,
}
use chatbox.Chat.State.{Room}

-- `std::set::insert` and `std::set::erase` on pointers.
unfoldable pub insert_member : ℕ → List ℕ → List ℕ
insert_member x [] = x ∷ []
insert_member x (y ∷ ys) =
    if x == y then y ∷ ys else if ltb x y then x ∷ y ∷ ys else y ∷ insert_member x ys

unfoldable pub erase_member : ℕ → List ℕ → List ℕ
erase_member x [] = []
erase_member x (y ∷ ys) = if x == y then erase_member x ys else y ∷ erase_member x ys

abbrev pub leave_members : ℕ → Room → Room
leave_members sid r = record r { members = erase_member sid r.members }

abbrev pub enter_members : ℕ → Room → Room
enter_members sid r = record r { members = insert_member sid r.members }

unfoldable pub is_in : ℕ → List ℕ → Bool
is_in x [] = false
is_in x (y ∷ ys) = x == y || is_in x ys

-- `rooms_.find(id)`
unfoldable pub find_room : ℕ → List Room → Option Room
find_room id [] = none
find_room id (r ∷ rs) = if r.id == id then some r else find_room id rs

-- A change through the iterator that `find` gave.
unfoldable pub update_room : ℕ → (Room → Room) → List Room → List Room
update_room id f [] = []
update_room id f (r ∷ rs) = if r.id == id then f r ∷ rs else r ∷ update_room id f rs

-- `rooms_.emplace(id, room)`: a room that is there stays.
unfoldable pub emplace_room : Room → List Room → List Room
emplace_room r [] = r ∷ []
emplace_room r (q ∷ rs) =
    if q.id == r.id then q ∷ rs else if ltb r.id q.id then r ∷ q ∷ rs else q ∷ emplace_room r rs

unfoldable pub tolower : ℕ → ℕ
tolower c = if leb b'A' c && leb c b'Z' then c + 32 else c

unfoldable pub normalized_room_name : Bytes → Bytes
unfolding tolower
normalized_room_name name = map tolower name

find_normalized : Bytes → List Room → Option Room
find_normalized wanted [] = none
find_normalized wanted (r ∷ rs) =
    if bytes_eq (normalized_room_name r.name) wanted then some r else find_normalized wanted rs

unfoldable pub find_room_by_name : Bytes → List Room → Option Room
unfolding find_normalized
find_room_by_name name rooms = find_normalized (normalized_room_name name) rooms

-- Whether a session is in a room's set of members.
unfoldable pub is_member : List Room → ℕ → ℕ → Bool
unfolding find_room is_in
is_member rooms id sid = elim (find_room id rooms) [ none ↦ false | some r ↦ is_in sid r.members ]
