-- ===== src/Protocol/Server.antt =====
-- Messages of the server in src/protocol/protocol.h and protocol.cpp: `ServerMessage`, `serialize`
-- and `parse_server_message`, one function for each command's branch.
pub mod Lists
pub mod Validity
pub mod RoundTrip
pub mod Sound
use chatbox.Protocol.Decimal.{from_chars, to_string}
use chatbox.Protocol.Rules.{
  is_valid_text, is_valid_room_topic, is_valid_nickname, is_valid_room_name, is_hex,
}
use chatbox.Protocol.Fields.{split_fields, rest_after_delimiter, rest_after_command, split_at}
use chatbox.Common.{
  ℕ, ◌+◌, String, Bool, true, false, not, ◌||◌, Option, none, some, List, [], ◌∷◌, ◌++◌, map, leb,
  ◌==◌, if◌then◌else◌, is_empty, Bytes, codes, text,
}
use chatbox.Protocol.Outcome.{
  Result, ok, err, failure, select, ◌>>=◌, empty_payload, unknown_message, wrong_field_count,
  invalid_field, unsupported_version, version, max_chat_length, max_frame_length, max_rooms,
}
use chatbox.Protocol.Client.{unsigned_bound}

pub record RoomSummary : Type 0 where
  pub id : ℕ
  pub name : Bytes
  pub user_count : ℕ

pub data ServerMessage : Type 0 where
  hello : ℕ → ServerMessage
  auth_required auth_accepted auth_rejected : ServerMessage
  challenge : Bytes → ServerMessage
  identity_accepted : Bytes → ServerMessage
  join_accepted banned nickname_taken : ServerMessage
  join_rejected : Bytes → ServerMessage
  kick : Bytes → Bytes → ServerMessage
  user_list : ℕ → List Bytes → ServerMessage
  room_list : List RoomSummary → ServerMessage
  room_joined : ℕ → Bytes → Bytes → ServerMessage
  room_topic : ℕ → Bytes → ServerMessage
  room_text : ℕ → Bytes → ServerMessage
  plain_text : Bytes → ServerMessage
  server_error : Bytes → ServerMessage

-- The items, with the sign between them.
unfoldable pub join_with : ℕ → List Bytes → Bytes
join_with sep [] = []
join_with sep (x ∷ []) = x
join_with sep (x ∷ y ∷ ys) = x ++ (sep ∷ join_with sep (y ∷ ys))

unfoldable pub room_entry : RoomSummary → Bytes
room_entry r = to_string r.id ++ (b',' ∷ (r.name ++ (b',' ∷ to_string r.user_count)))

unfoldable pub serialize : ServerMessage → Bytes
unfolding join_with room_entry
serialize (hello v) = codes "HELLO|" ++ to_string v
serialize auth_required = codes "AUTH_REQUIRED"
serialize auth_accepted = codes "AUTH_OK"
serialize auth_rejected = codes "AUTH_FAIL"
serialize (challenge hex) = codes "CHALLENGE|" ++ hex
serialize (identity_accepted fingerprint) = codes "IDENTITY_OK|" ++ fingerprint
serialize join_accepted = codes "JOIN_OK"
serialize banned = codes "BANNED"
serialize nickname_taken = codes "NICK_TAKEN"
serialize (join_rejected reason) = codes "JOIN_FAIL|" ++ reason
serialize (kick nickname reason) = codes "KICK|" ++ (nickname ++ (b'|' ∷ reason))
serialize (user_list id names) = codes "USERS|" ++ (to_string id ++ (b'|' ∷ join_with b',' names))
serialize (room_list rooms) = codes "ROOMS|" ++ join_with b';' (map room_entry rooms)
serialize (room_joined id name topic) =
    codes "ROOM|" ++ (to_string id ++ (b'|' ∷ (name ++ (b'|' ∷ topic))))
serialize (room_topic id topic) = codes "TOPIC|" ++ (to_string id ++ (b'|' ∷ topic))
serialize (room_text id body) = codes "ROOM_TEXT|" ++ (to_string id ++ (b'|' ∷ body))
serialize (plain_text body) = codes "TEXT|" ++ body
serialize (server_error reason) = codes "ERROR|" ++ reason

unfoldable pub u64_bound : ℕ
u64_bound = 18446744073709551616

-- `parse_unsigned` into a `uint64_t`.
unfoldable pub parse_unsigned : Bytes → Option ℕ
unfolding u64_bound
parse_unsigned xs = from_chars u64_bound xs

-- `parse_unsigned(...) && id != 0`
unfoldable pub parse_id : Bytes → Option ℕ
unfolding parse_unsigned
parse_id xs = elim (parse_unsigned xs) [ none ↦ none | some v ↦ if v == 0 then none else some v ]

abbrev pub or_fail {ℓ} : {A : Type ℓ} → Option A → String → Result A
or_fail none s = failure invalid_field s
or_fail (some a) s = ok a

abbrev pub require : Bool → String → Result (Unit {0})
require true s = ok tt
require false s = failure invalid_field s

server_version : Option ℕ → Result ServerMessage
server_version none = failure invalid_field "HELLO version must be an integer"
server_version (some v) =
    if v == version
    then ok (hello v)
    else err unsupported_version
        (text "Protocol version " ++ (to_string v ++ text " is unsupported"))

server_hello : List Bytes → Result ServerMessage
unfolding server_version
server_hello (field ∷ []) = server_version (from_chars unsigned_bound field)
server_hello _ = failure wrong_field_count "HELLO requires one version field"

server_plain : Bytes → ServerMessage → List Bytes → Result ServerMessage
server_plain command m [] = ok m
server_plain command m (_ ∷ _) = err wrong_field_count (command ++ text " does not accept fields")

server_hex : ℕ → (Bytes → ServerMessage) → String → List Bytes → Result ServerMessage
server_hex count m detail (field ∷ []) =
    if is_hex field count then ok (m field) else failure invalid_field detail
server_hex count m detail _ = failure invalid_field detail

-- The loop over the nicknames of a `USERS` message.
pub parse_names : List Bytes → Result (List Bytes)
parse_names [] = ok []
parse_names (name ∷ names) = do
  _ ← require (is_valid_nickname name) "USERS contains an invalid nickname"
  rest ← parse_names names
  ok (name ∷ rest)

pub last_is : ℕ → Bytes → Bool
last_is c [] = false
last_is c (x ∷ []) = x == c
last_is c (x ∷ y ∷ ys) = last_is c (y ∷ ys)

-- No round is made for an empty text.
pub name_list : Bytes → Result (List Bytes)
unfolding parse_names
name_list [] = ok []
name_list (c ∷ cs) = parse_names (split_at b',' (c ∷ cs))

server_users : List Bytes → Result ServerMessage
unfolding last_is name_list parse_id
server_users (room ∷ names ∷ []) = do
  id ← or_fail (parse_id room) "USERS contains an invalid room ID"
  _ ← require (not (last_is b',' names)) "USERS contains an empty nickname"
  users ← name_list names
  ok (user_list id users)
server_users _ = failure wrong_field_count "USERS requires room and list fields"

pub parse_entry : List Bytes → Result RoomSummary
unfolding parse_id parse_unsigned
parse_entry (room ∷ name ∷ count ∷ []) = do
  id ← or_fail (parse_id room) "ROOMS contains invalid room data"
  _ ← require (is_valid_room_name name) "ROOMS contains invalid room data"
  n ← or_fail (parse_unsigned count) "ROOMS contains invalid room data"
  ok (record { id = id; name = name; user_count = n })
parse_entry (_ ∷ _ ∷ _ ∷ _ ∷ _) = failure invalid_field "ROOMS contains invalid room data"
parse_entry _ = failure invalid_field "ROOMS contains a malformed entry"

-- The loop over the entries of a `ROOMS` message, with the number of rooms read so far. It ends
-- where no text is left, so that an empty last entry is not read.
pub parse_rooms : ℕ → List Bytes → Result (List RoomSummary)
unfolding parse_entry
parse_rooms n [] = ok []
parse_rooms n ([] ∷ []) = ok []
parse_rooms n (entry ∷ entries) = do
  room ← parse_entry (split_at b',' entry)
  _ ← require (leb (n + 1) max_rooms) "ROOMS contains too many rooms"
  rest ← parse_rooms (n + 1) entries
  ok (room ∷ rest)

server_rooms : List Bytes → Result ServerMessage
unfolding parse_rooms
server_rooms (entries ∷ []) = do rooms ← parse_rooms 0 (split_at b';' entries); ok (room_list rooms)
server_rooms _ = failure wrong_field_count "ROOMS requires one list field"

server_room : Bytes → List Bytes → Result ServerMessage
unfolding parse_id
server_room payload (room ∷ name ∷ _ ∷ _) = do
  let topic = rest_after_delimiter payload 3
  id ← or_fail (parse_id room) "ROOM contains invalid room data"
  _ ← require (is_valid_room_name name) "ROOM contains invalid room data"
  _ ← require (is_valid_room_topic topic) "ROOM contains invalid room data"
  ok (room_joined id name topic)
server_room payload _ = failure wrong_field_count "ROOM requires ID, name, and topic fields"

server_topic : Bytes → List Bytes → Result ServerMessage
unfolding parse_id
server_topic payload (room ∷ _ ∷ _) = do
  let topic = rest_after_delimiter payload 2
  id ← or_fail (parse_id room) "TOPIC contains invalid room data"
  _ ← require (is_valid_room_topic topic) "TOPIC contains invalid room data"
  ok (room_topic id topic)
server_topic payload _ = failure wrong_field_count "TOPIC requires room and topic fields"

server_room_text : Bytes → List Bytes → Result ServerMessage
unfolding parse_id
server_room_text payload (room ∷ _ ∷ _) = do
  let body = rest_after_delimiter payload 2
  id ← or_fail (parse_id room) "ROOM_TEXT contains invalid room data"
  _ ← require (is_valid_text body max_frame_length) "ROOM_TEXT contains invalid room data"
  ok (room_text id body)
server_room_text payload _ = failure wrong_field_count "ROOM_TEXT requires room and text fields"

server_kick : Bytes → List Bytes → Result ServerMessage
server_kick payload [] = failure invalid_field "KICK requires a valid nickname"
server_kick payload (nickname ∷ []) = do
  _ ← require (is_valid_nickname nickname) "KICK requires a valid nickname"
  ok (kick nickname [])
server_kick payload (nickname ∷ _ ∷ _) = do
  let reason = rest_after_delimiter payload 2
  _ ← require (is_valid_nickname nickname) "KICK requires a valid nickname"
  _ ←
      require (is_empty reason || is_valid_text reason max_chat_length)
        "KICK reason is oversized or contains control characters"
  ok (kick nickname reason)

server_text : Bytes → (Bytes → ServerMessage) → Bytes → List Bytes → Result ServerMessage
server_text command m payload [] = err wrong_field_count (command ++ text " requires a text field")
server_text command m payload (_ ∷ _) =
    let body = rest_after_command payload in
    if is_valid_text body max_frame_length
    then ok (m body)
    else err invalid_field
        (command ++ text " text is empty, oversized, or contains control characters")

server_rungs : Bytes → List Bytes → Bytes → List (Bytes × Result ServerMessage)
unfolding server_hello server_plain server_hex server_users server_rooms server_room server_topic
    server_room_text server_kick server_text
server_rungs command args payload =
    (codes "HELLO", server_hello args)
    ∷ (codes "AUTH_REQUIRED", server_plain command auth_required args)
    ∷ (codes "AUTH_OK", server_plain command auth_accepted args)
    ∷ (codes "AUTH_FAIL", server_plain command auth_rejected args)
    ∷ (codes "JOIN_OK", server_plain command join_accepted args)
    ∷ (codes "BANNED", server_plain command banned args)
    ∷ (codes "NICK_TAKEN", server_plain command nickname_taken args)
    ∷ (
      codes "CHALLENGE",
      server_hex 64 challenge "CHALLENGE must contain 32 bytes of hexadecimal data" args,
    )
    ∷ (
      codes "IDENTITY_OK",
      server_hex 16 identity_accepted "IDENTITY_OK fingerprint is invalid" args,
    )
    ∷ (codes "USERS", server_users args)
    ∷ (codes "ROOMS", server_rooms args)
    ∷ (codes "ROOM", server_room payload args)
    ∷ (codes "TOPIC", server_topic payload args)
    ∷ (codes "ROOM_TEXT", server_room_text payload args)
    ∷ (codes "KICK", server_kick payload args)
    ∷ (codes "JOIN_FAIL", server_text command join_rejected payload args)
    ∷ (codes "TEXT", server_text command plain_text payload args)
    ∷ (codes "ERROR", server_text command server_error payload args)
    ∷ []

server_command : Bytes → List Bytes → Bytes → Result ServerMessage
unfolding server_rungs select
server_command command args payload =
    select command (server_rungs command args payload)
      (err unknown_message (text "Unknown server message type: " ++ command))

server_fields : List Bytes → Bytes → Result ServerMessage
server_fields [] payload = server_command [] [] payload
server_fields (command ∷ args) payload = server_command command args payload

unfoldable pub parse_server_message : Bytes → Result ServerMessage
unfolding server_command server_fields
parse_server_message payload =
    if is_empty payload
    then failure empty_payload "Server message is empty"
    else server_fields (split_fields payload) payload
