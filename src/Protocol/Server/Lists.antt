-- ===== src/Protocol/Server/Lists.antt =====
-- Lists of nicknames and of rooms, written and read back.
use chatbox.Protocol.Rules.{room_name_char, is_valid_nickname}
use chatbox.Protocol.Decimal.{to_string}
use chatbox.Protocol.Fields.{split_at}
use chatbox.Common.{
  length-append, All-imp, All-append, ℕ, ◌+◌, ◌≤◌, ◌<◌, ◌≡◌, refl, sym, ap, ◌∙◌, ◌≢◌, ◌⊎◌, inl, inr,
  true, false, some, List, [], ◌∷◌, ◌++◌, map, arith, leb, length, All, Bytes,
}
use chatbox.Protocol.Outcome.{ok, max_rooms}
use chatbox.Protocol.Decimal.RoundTrip.{IsDigit, to_string-IsDigit, from_chars-to_string}
use chatbox.Protocol.Fields.Laws.{Avoids, split_at_single, split_at_cons}
use chatbox.Protocol.Rules.Laws.{nickname-Avoids, room_name-Avoids}
use chatbox.Protocol.Server.{
  u64_bound, RoomSummary, join_with, room_entry, parse_unsigned, parse_id, parse_names, name_list,
  last_is, parse_entry, parse_rooms,
}
use chatbox.Protocol.Server.Validity.{IsId, IsRoomSummary, IsNickname}

pub to_string-Avoids : (sep n : ℕ) → (sep < b'0') ⊎ (b'9' < sep) → Avoids sep (to_string n)
to_string-Avoids sep n h =
    All-imp IsDigit (λ c. c ≢ sep) (λ c d e. omega arith) (to_string n) (to_string-IsDigit n)

parse_id_at : (xs : Bytes) (v : ℕ) → parse_unsigned xs ≡ some v → 0 < v → parse_id xs ≡ some v
unfolding parse_id
parse_id_at xs v e h = rw (e, parse_id) (ground arith)

pub parse_unsigned-to_string : (n : ℕ) → n < u64_bound → parse_unsigned (to_string n) ≡ some n
unfolding parse_unsigned
parse_unsigned-to_string n h = from_chars-to_string u64_bound n h

pub parse_id-to_string : (id : ℕ) → IsId id → parse_id (to_string id) ≡ some id
parse_id-to_string id h = parse_id_at (to_string id) id (parse_unsigned-to_string id h.1) h.0

-- Joined texts that avoid the sign are split into the same texts.
pub split_at-join_with :
    (sep : ℕ) (x : Bytes) (xs : List Bytes)
    → All (Avoids sep) (x ∷ xs)
    → split_at sep (join_with sep (x ∷ xs)) ≡ x ∷ xs
unfolding join_with
split_at-join_with sep x [] h = split_at_single sep x h.0
split_at-join_with sep x (y ∷ ys) h =
    split_at_cons sep x (join_with sep (y ∷ ys)) h.0 ∙ ap (◌∷◌ x) (split_at-join_with sep y ys h.1)

pub join_with-Avoids :
    (c sep : ℕ) (xs : List Bytes) → sep ≢ c → All (Avoids c) xs → Avoids c (join_with sep xs)
unfolding join_with
join_with-Avoids c sep [] n h = tt
join_with-Avoids c sep (x ∷ []) n h = h.0
join_with-Avoids c sep (x ∷ y ∷ ys) n h =
    All-append (λ b. b ≢ c) x _ h.0 (n, join_with-Avoids c sep (y ∷ ys) n h.1)

parse_names_valid : (names : List Bytes) → All IsNickname names → parse_names names ≡ ok names
unfolding parse_names
parse_names_valid [] h = refl
parse_names_valid (name ∷ names) h = rw (h.0, parse_names_valid names h.1)

-- A joined list of nicknames ends in no comma.
last_is-append :
    (c : ℕ) (xs ys : Bytes) → ys ≢ [] → last_is c ys ≡ false → last_is c (xs ++ ys) ≡ false
unfolding last_is
last_is-append c [] ys n h = h
last_is-append c (x ∷ []) [] n h = absurd (n refl)
last_is-append c (x ∷ []) (y ∷ ys) n h = h
last_is-append c (x ∷ z ∷ xs) ys n h = last_is-append c (z ∷ xs) ys n h

last_is-Avoids : (c : ℕ) (xs : Bytes) → Avoids c xs → last_is c xs ≡ false
unfolding last_is
last_is-Avoids c [] h = refl
last_is-Avoids c (x ∷ []) h = ground arith
last_is-Avoids c (x ∷ y ∷ ys) h = last_is-Avoids c (y ∷ ys) h.1

nickname-ne-nil : (name : Bytes) → IsNickname name → name ≢ []
unfolding is_valid_nickname
nickname-ne-nil [] h e = cc
nickname-ne-nil (x ∷ xs) h e = cc

append-ne-nil : (xs ys : Bytes) → xs ≢ [] → xs ++ ys ≢ []
append-ne-nil [] ys h e = h refl
append-ne-nil (x ∷ xs) ys h e = cc

join_names :
    (name : Bytes) (names : List Bytes)
    → All IsNickname (name ∷ names)
    → (join_with b',' (name ∷ names) ≢ []) × (last_is b',' (join_with b',' (name ∷ names)) ≡ false)
unfolding join_with
join_names name [] h =
    (nickname-ne-nil name h.0, last_is-Avoids b',' name (nickname-Avoids b',' name refl h.0))
join_names name (n ∷ names) h =
    let (ne, l) = join_names n names h.1 in
    let nick = nickname-ne-nil name h.0 in
    let sep : Bytes = b',' ∷ [] in
    (
      append-ne-nil name _ nick,
      last_is-append b',' name _ (λ e. cc) (last_is-append b',' sep _ ne l),
    )

name_list_at :
    (xs : Bytes) (names : List Bytes)
    → xs ≢ []
    → split_at b',' xs ≡ names
    → parse_names names ≡ ok names
    → name_list xs ≡ ok names
unfolding name_list
name_list_at [] names n e h = absurd (n refl)
name_list_at (x ∷ xs) names n e h = rw e h

nicknames-Avoid : (names : List Bytes) → All IsNickname names → All (Avoids b',') names
nicknames-Avoid [] h = tt
nicknames-Avoid (name ∷ names) h = (nickname-Avoids b',' name refl h.0, nicknames-Avoid names h.1)

-- What the `USERS` branch needs: the list holds no '|', does not end in a comma, and is read back.
pub name_list-join_with :
    (names : List Bytes)
    → All IsNickname names
    → (last_is b',' (join_with b',' names) ≡ false) × (name_list (join_with b',' names) ≡ ok names)
name_list-join_with [] h = unfold join_with last_is name_list in (refl, refl)
name_list-join_with (name ∷ names) h =
    let (ne, l) = join_names name names h in
    (
      l,
      name_list_at _ (name ∷ names) ne
          (split_at-join_with b',' name names (nicknames-Avoid (name ∷ names) h))
          (parse_names_valid (name ∷ names) h),
    )

pub names-Avoids : (names : List Bytes) → All IsNickname names → Avoids b'|' (join_with b',' names)
names-Avoids names h = join_with-Avoids b'|' b',' names (λ e. omega arith) (each names h)
  where
    each : (ns : List Bytes) → All IsNickname ns → All (Avoids b'|') ns
    each [] k = tt
    each (n ∷ ns) k = (nickname-Avoids b'|' n refl k.0, each ns k.1)

-- One room of the list.
pub parse_entry-room_entry :
    (r : RoomSummary) → IsRoomSummary r → parse_entry (split_at b',' (room_entry r)) ≡ ok r
unfolding room_entry
parse_entry-room_entry r (i, n, c) =
    let id = to_string-Avoids b',' r.id (inl (omega arith)) in
    let count = to_string-Avoids b',' r.user_count (inl (omega arith)) in
    rw
      (
        split_at_cons b',' (to_string r.id) (r.name ++ (b',' ∷ to_string r.user_count)) id,
        split_at_cons b',' r.name (to_string r.user_count) (room_name-Avoids b',' r.name refl n),
        split_at_single b',' (to_string r.user_count) count,
      )
      (unfold parse_entry in
        rw (parse_id-to_string r.id i, n, parse_unsigned-to_string r.user_count c))

room_entry-Avoids :
    (sep : ℕ) (r : RoomSummary)
    → (sep < b'0') ⊎ (b'9' < sep)
    → sep ≢ b','
    → room_name_char sep ≡ false
    → IsRoomSummary r
    → Avoids sep (room_entry r)
unfolding room_entry
room_entry-Avoids sep r d c n (i, v, k) =
    All-append (λ b. b ≢ sep) (to_string r.id) _ (to_string-Avoids sep r.id d)
      (
        (λ e. c (sym e)),
        All-append (λ b. b ≢ sep) r.name _ (room_name-Avoids sep r.name n v)
            ((λ e. c (sym e)), to_string-Avoids sep r.user_count d),
      )

pub entries-Avoid :
    (sep : ℕ) (rooms : List RoomSummary)
    → (sep < b'0') ⊎ (b'9' < sep)
    → sep ≢ b','
    → room_name_char sep ≡ false
    → All IsRoomSummary rooms
    → All (Avoids sep) (map room_entry rooms)
entries-Avoid sep [] d c n h = tt
entries-Avoid sep (r ∷ rooms) d c n h =
    (room_entry-Avoids sep r d c n h.0, entries-Avoid sep rooms d c n h.1)

leb-true : (a b : ℕ) → a ≤ b → leb a b ≡ true
leb-true a b h = ground arith

room_entry-ne-nil : (r : RoomSummary) → room_entry r ≢ []
unfolding room_entry
room_entry-ne-nil r e =
    let h = length-append (to_string r.id) (b',' ∷ (r.name ++ (b',' ∷ to_string r.user_count))) in
    let k : length (room_entry r) ≡ 0 = ap length e in absurd (omega (arith, h, k))

parse_rooms_step :
    (n : ℕ) (entry : Bytes) (entries : List Bytes) (r : RoomSummary) (rooms : List RoomSummary)
    → entry ≢ []
    → parse_entry (split_at b',' entry) ≡ ok r
    → n < max_rooms
    → parse_rooms (n + 1) entries ≡ ok rooms
    → parse_rooms n (entry ∷ entries) ≡ ok (r ∷ rooms)
unfolding parse_rooms
parse_rooms_step n [] entries r rooms ne e h k = absurd (ne refl)
parse_rooms_step n (x ∷ xs) entries r rooms ne e h k = rw (e, leb-true (n + 1) 32 (omega arith), k)

pub parse_rooms-room_entry :
    (n : ℕ) (rooms : List RoomSummary)
    → All IsRoomSummary rooms
    → n + length rooms ≤ max_rooms
    → parse_rooms n (map room_entry rooms) ≡ ok rooms
parse_rooms-room_entry n [] h k = unfold parse_rooms in refl
parse_rooms-room_entry n (r ∷ rooms) h k =
    parse_rooms_step n (room_entry r) (map room_entry rooms) r rooms (room_entry-ne-nil r)
      (parse_entry-room_entry r h.0) (omega arith)
      (parse_rooms-room_entry (n + 1) rooms h.1 (omega arith))

-- What the `ROOMS` branch needs.
pub room_entries :
    (rooms : List RoomSummary)
    → All IsRoomSummary rooms
    → length rooms ≤ max_rooms
    → parse_rooms 0 (split_at b';' (join_with b';' (map room_entry rooms))) ≡ ok rooms
room_entries [] h k = unfold parse_rooms join_with split_at in refl
room_entries (r ∷ rooms) h k =
    rw
      (split_at-join_with b';' (room_entry r) (map room_entry rooms)
        (entries-Avoid b';' (r ∷ rooms) (inr (omega arith)) (λ e. omega arith) refl h))
      (parse_rooms-room_entry 0 (r ∷ rooms) h (omega arith))
