-- ===== src/Protocol/Server/Sound.antt =====
-- Whatever `parse_server_message` accepts is valid.
use chatbox.Protocol.Fields.Laws.{split_fields_some}
use chatbox.Protocol.Client.{unsigned_bound}
use chatbox.Protocol.Fields.{split_at, rest_after_command, rest_after_delimiter}
use chatbox.Protocol.Rules.{is_valid_nickname, is_valid_room_name, is_hex}
use chatbox.Protocol.Decimal.RoundTrip.{from_chars-lt}
use chatbox.Protocol.Decimal.{from_chars}
use chatbox.Common.{
  Option-cases, is_empty-eq-nil, ℕ, ◌+◌, ◌≤◌, ◌<◌, String, ◌≡◌, refl, subst, inl, inr, Bool, true,
  false, not, Option, none, some, List, [], ◌∷◌, arith, leb, length, All, Bytes,
}
use chatbox.Protocol.Outcome.{
  ◌>>=◌, select_All, ok-injective, Result, ok, err, bind-eq-ok, max_rooms,
}
use chatbox.Protocol.Server.Validity.{IsText, IsValid, IsId, IsNickname, IsRoomSummary}
use chatbox.Protocol.Server.{
  last_is, server_command, server_rooms, server_fields, require, name_list, server_rungs, or_fail,
  parse_rooms, server_hello, server_hex, parse_names, server_room_text, server_kick, server_topic,
  server_users, server_plain, server_room, server_text, parse_entry, u64_bound, parse_unsigned,
  parse_id, ServerMessage, RoomSummary, auth_required, auth_accepted, auth_rejected, challenge,
  identity_accepted, join_accepted, banned, nickname_taken, join_rejected, plain_text, server_error,
  parse_server_message,
}

abbrev Sound : Result ServerMessage → Type 0
Sound (ok m) = IsValid m
Sound (err e d) = Unit

parse_unsigned-lt : (xs : Bytes) (v : ℕ) → parse_unsigned xs ≡ some v → v < u64_bound
unfolding parse_unsigned
parse_unsigned-lt xs v e = from_chars-lt u64_bound v xs e

-- A number that is read is a room number.
parse_id-IsId : (xs : Bytes) (v : ℕ) → parse_id xs ≡ some v → IsId v
unfolding parse_id
parse_id-IsId xs v e = ground (arith, parse_unsigned-lt xs v)

Sound-of : (r : Result ServerMessage) → ((m : ServerMessage) → r ≡ ok m → IsValid m) → Sound r
Sound-of (ok m) f = f m refl
Sound-of (err e d) f = tt

server_hello-Sound : (args : List Bytes) → Sound (server_hello args)
unfolding server_hello
server_hello-Sound [] = tt
server_hello-Sound (f ∷ []) = elim (Option-cases (from_chars unsigned_bound f)) [
  | inl e ↦ rw e tt
  | inr (v, e) ↦ rw e (ground arith)
]
server_hello-Sound (f ∷ g ∷ args) = tt

server_plain-Sound :
    (command : Bytes) (m : ServerMessage) (args : List Bytes)
    → IsValid m
    → Sound (server_plain command m args)
unfolding server_plain
server_plain-Sound command m [] v = v
server_plain-Sound command m (f ∷ args) v = tt

server_hex-Sound :
    (count : ℕ) (m : Bytes → ServerMessage) (detail : String) (args : List Bytes)
    → ((f : Bytes) → is_hex f count ≡ true → IsValid (m f))
    → Sound (server_hex count m detail args)
unfolding server_hex
server_hex-Sound count m detail [] v = tt
server_hex-Sound count m detail (f ∷ []) v = ground (arith, v f)
server_hex-Sound count m detail (f ∷ g ∷ args) v = tt

require-eq-true : (b : Bool) (detail : String) {u : Unit {0}} → require b detail ≡ ok u → b ≡ true
require-eq-true true detail e = refl
require-eq-true false detail e = cc

or_fail-eq-some :
    {A : Type 0} (o : Option A) (detail : String) {a : A} → or_fail o detail ≡ ok a → o ≡ some a
or_fail-eq-some none detail e = cc
or_fail-eq-some (some b) detail e = cc

parse_names-IsNickname :
    (fields names : List Bytes) → parse_names fields ≡ ok names → All IsNickname names
unfolding parse_names
parse_names-IsNickname [] names e = subst (All IsNickname) (ok-injective e) tt
parse_names-IsNickname (f ∷ fields) names e =
    let (_, e1, r1) = bind-eq-ok (require (is_valid_nickname f) _) _ e in
    let (rest, e2, r2) = bind-eq-ok (parse_names fields) _ r1 in
    subst (All IsNickname) (ok-injective r2)
      (require-eq-true _ _ e1, parse_names-IsNickname fields rest e2)

name_list-IsNickname :
    (xs : Bytes) (names : List Bytes) → name_list xs ≡ ok names → All IsNickname names
unfolding name_list
name_list-IsNickname [] names e = subst (All IsNickname) (ok-injective e) tt
name_list-IsNickname (x ∷ xs) names e = parse_names-IsNickname _ names e

server_users-Sound : (args : List Bytes) → Sound (server_users args)
unfolding server_users
server_users-Sound [] = tt
server_users-Sound (f ∷ []) = tt
server_users-Sound (room ∷ names ∷ []) = Sound-of (server_users (room ∷ names ∷ [])) λ m e.
    let (id, e1, r1) = bind-eq-ok (or_fail (parse_id room) _) _ e in
    let (_, _, r2) = bind-eq-ok (require (not (last_is b',' names)) _) _ r1 in
    let (users, e3, r3) = bind-eq-ok (name_list names) _ r2 in
    subst IsValid (ok-injective r3)
      (parse_id-IsId room id (or_fail-eq-some _ _ e1), name_list-IsNickname names users e3)
server_users-Sound (f ∷ g ∷ h ∷ args) = tt

parse_entry-IsRoomSummary :
    (fields : List Bytes) (r : RoomSummary) → parse_entry fields ≡ ok r → IsRoomSummary r
unfolding parse_entry
parse_entry-IsRoomSummary [] r e = cc
parse_entry-IsRoomSummary (a ∷ []) r e = cc
parse_entry-IsRoomSummary (a ∷ b ∷ []) r e = cc
parse_entry-IsRoomSummary (a ∷ b ∷ c ∷ []) r e =
    let (id, e1, r1) = bind-eq-ok (or_fail (parse_id a) _) _ e in
    let (_, e2, r2) = bind-eq-ok (require (is_valid_room_name b) _) _ r1 in
    let (n, e3, r3) = bind-eq-ok (or_fail (parse_unsigned c) _) _ r2 in
    subst IsRoomSummary (ok-injective r3) (
      parse_id-IsId a id (or_fail-eq-some _ _ e1),
      require-eq-true _ _ e2,
      parse_unsigned-lt c n (or_fail-eq-some _ _ e3),
    )
parse_entry-IsRoomSummary (a ∷ b ∷ c ∷ d ∷ fields) r e = cc

abbrev AreRooms : ℕ → List RoomSummary → Type 0
AreRooms n rooms = All IsRoomSummary rooms × (n + length rooms ≤ max_rooms)

leb-le : (a b : ℕ) → leb a b ≡ true → a ≤ b
leb-le a b h = ground arith

-- One round of the loop, with the rounds behind it.
rooms_round :
    (n : ℕ) (entry : Bytes) (later : Result (List RoomSummary)) (rooms : List RoomSummary)
    → ((rest : List RoomSummary) → later ≡ ok rest → n + 1 ≤ max_rooms → AreRooms (n + 1) rest)
    → (do
      room ← parse_entry (split_at b',' entry)
      _ ← require (leb (n + 1) max_rooms) "ROOMS contains too many rooms"
      rest ← later
      ok (room ∷ rest))
      ≡ ok rooms
    → AreRooms n rooms
rooms_round n entry later rooms ih e =
    let (room, e1, r1) = bind-eq-ok (parse_entry (split_at b',' entry)) _ e in
    let (_, e2, r2) = bind-eq-ok (require (leb (n + 1) max_rooms) _) _ r1 in
    let (rest, e3, r3) = bind-eq-ok later _ r2 in
    let (a, b) = ih rest e3 (leb-le _ _ (require-eq-true _ _ e2)) in
    subst (AreRooms n) (ok-injective r3)
      ((parse_entry-IsRoomSummary (split_at b',' entry) room e1, a), omega arith)

-- The rooms read after `n` others.
parse_rooms-AreRooms :
    (n : ℕ) (entries : List Bytes) (rooms : List RoomSummary)
    → n ≤ max_rooms
    → parse_rooms n entries ≡ ok rooms
    → AreRooms n rooms
unfolding parse_rooms
parse_rooms-AreRooms n [] rooms h e = subst (AreRooms n) (ok-injective e) (tt, omega arith)
parse_rooms-AreRooms n ([] ∷ []) rooms h e = subst (AreRooms n) (ok-injective e) (tt, omega arith)
parse_rooms-AreRooms n ((x ∷ xs) ∷ entries) rooms h e =
    rooms_round n (x ∷ xs) (parse_rooms (n + 1) entries) rooms
      (λ rest f k. parse_rooms-AreRooms (n + 1) entries rest k f) e
parse_rooms-AreRooms n ([] ∷ entry ∷ entries) rooms h e =
    rooms_round n [] (parse_rooms (n + 1) (entry ∷ entries)) rooms
      (λ rest f k. parse_rooms-AreRooms (n + 1) (entry ∷ entries) rest k f) e

server_rooms-Sound : (args : List Bytes) → Sound (server_rooms args)
unfolding server_rooms
server_rooms-Sound [] = tt
server_rooms-Sound (entries ∷ []) = Sound-of (server_rooms (entries ∷ [])) λ m e.
    let (rooms, e1, r1) = bind-eq-ok (parse_rooms 0 (split_at b';' entries)) _ e in
    let (a, b) = parse_rooms-AreRooms 0 (split_at b';' entries) rooms (omega arith) e1 in
    subst IsValid (ok-injective r1) (a, omega arith)
server_rooms-Sound (f ∷ g ∷ args) = tt

module _ (payload : Bytes) where
  server_room-Sound : (args : List Bytes) → Sound (server_room payload args)
  unfolding server_room
  server_room-Sound [] = tt
  server_room-Sound (a ∷ []) = tt
  server_room-Sound (a ∷ b ∷ []) = tt
  server_room-Sound (a ∷ b ∷ c ∷ args) = elim (Option-cases (parse_id a)) [
    | inl e ↦ rw e tt
    | inr (v, e) ↦ rw e (ground (arith, parse_id-IsId a v e))
  ]

  server_topic-Sound : (args : List Bytes) → Sound (server_topic payload args)
  unfolding server_topic
  server_topic-Sound [] = tt
  server_topic-Sound (a ∷ []) = tt
  server_topic-Sound (a ∷ b ∷ args) = elim (Option-cases (parse_id a)) [
    | inl e ↦ rw e tt
    | inr (v, e) ↦ rw e (ground (arith, parse_id-IsId a v e))
  ]

  server_room_text-Sound : (args : List Bytes) → Sound (server_room_text payload args)
  unfolding server_room_text
  server_room_text-Sound [] = tt
  server_room_text-Sound (a ∷ []) = tt
  server_room_text-Sound (a ∷ b ∷ args) = elim (Option-cases (parse_id a)) [
    | inl e ↦ rw e tt
    | inr (v, e) ↦ rw e (ground (arith, parse_id-IsId a v e))
  ]

  server_kick-Sound : (args : List Bytes) → Sound (server_kick payload args)
  unfolding server_kick
  server_kick-Sound [] = tt
  server_kick-Sound (a ∷ []) = ground arith
  server_kick-Sound (a ∷ b ∷ args) =
      ground (arith, is_empty-eq-nil (rest_after_delimiter payload 2))

  server_text-Sound :
      (command : Bytes) (m : Bytes → ServerMessage) (args : List Bytes)
      → ((body : Bytes) → IsText body → IsValid (m body))
      → Sound (server_text command m payload args)
  unfolding server_text
  server_text-Sound command m [] v = tt
  server_text-Sound command m (a ∷ args) v = ground (arith, v (rest_after_command payload))

server_rungs-Sound :
    (c : Bytes) (args : List Bytes) (p : Bytes) → All (λ rung. Sound rung.1) (server_rungs c args p)
unfolding server_rungs
server_rungs-Sound c args p = assumption (
  server_hello-Sound args,
  server_plain-Sound c auth_required args tt,
  server_plain-Sound c auth_accepted args tt,
  server_plain-Sound c auth_rejected args tt,
  server_plain-Sound c join_accepted args tt,
  server_plain-Sound c banned args tt,
  server_plain-Sound c nickname_taken args tt,
  server_hex-Sound 64 challenge "CHALLENGE must contain 32 bytes of hexadecimal data" args
      (λ f h. h),
  server_hex-Sound 16 identity_accepted "IDENTITY_OK fingerprint is invalid" args (λ f h. h),
  server_users-Sound args,
  server_rooms-Sound args,
  server_room-Sound p args,
  server_topic-Sound p args,
  server_room_text-Sound p args,
  server_kick-Sound p args,
  server_text-Sound p c join_rejected args (λ f h. h),
  server_text-Sound p c plain_text args (λ f h. h),
  server_text-Sound p c server_error args (λ f h. h),
)

parse-Sound : (p : Bytes) → Sound (parse_server_message p)
unfolding parse_server_message server_fields server_command
parse-Sound [] = tt
parse-Sound (x ∷ p) =
    let (c, args, e) = split_fields_some (x ∷ p) in
    let rungs = server_rungs c args (x ∷ p) in
    rw e (select_All Sound c rungs _ (server_rungs-Sound c args (x ∷ p)) tt)

-- A parsed message is within the bounds of its kind.
pub parse_server_message-IsValid :
    (p : Bytes) (m : ServerMessage) → parse_server_message p ≡ ok m → IsValid m
parse_server_message-IsValid p m e = subst Sound e (parse-Sound p)
