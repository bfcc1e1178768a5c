-- ===== src/Protocol/Server/RoundTrip.antt =====
-- Every valid server message is read back from its serialized form.
use chatbox.Protocol.Client.{unsigned_bound}
use chatbox.Protocol.Rules.Laws.{hex-Avoids, nickname-Avoids, room_name-Avoids}
use chatbox.Protocol.Fields.Laws.{
  rest_after_delimiter_three, rest_after_delimiter_two, split_at_cons, split_at_single,
  split_at_some,
}
use chatbox.Protocol.Server.Lists.{
  room_entries, entries-Avoid, join_with-Avoids, parse_id-to_string, names-Avoids,
  name_list-join_with, to_string-Avoids,
}
use chatbox.Protocol.Decimal.{from_chars, to_string}
use chatbox.Protocol.Rules.{is_valid_text, is_valid_room_name, is_hex, is_valid_room_topic}
use chatbox.Protocol.Fields.{rest_after_delimiter, rest_after_command, split_fields}
use chatbox.Common.{
  ℕ, ◌≤◌, ◌≡◌, refl, ◌⊎◌, inr, true, ◌||◌, List, [], ◌∷◌, ◌++◌, map, arith, length, is_empty, All,
  Bytes, codes, bytes_eq,
}
use chatbox.Protocol.Outcome.{max_rooms, version, max_chat_length, ok}
use chatbox.Protocol.Server.{
  server_rooms, server_users, room_entry, server_room_text, server_kick, server_topic, server_room,
  server_hex, join_with, server_text, RoomSummary, ServerMessage, hello, auth_required,
  auth_accepted, auth_rejected, challenge, identity_accepted, join_accepted, banned, nickname_taken,
  join_rejected, kick, user_list, room_list, room_joined, room_topic, room_text, plain_text,
  server_error, serialize, parse_server_message,
}
use chatbox.Protocol.Server.Validity.{IsRoomSummary, IsNickname, IsValid, IsText, IsId}

abbrev Survives : ServerMessage → Type 0
Survives m = parse_server_message (serialize m) ≡ ok m

Survives-hello : Survives (hello version)
unfolding parse_server_message serialize split_fields bytes_eq to_string from_chars unsigned_bound
Survives-hello = refl

Survives-hex :
    (m : Bytes)
    → (is_hex m 64 ≡ true → Survives (challenge m))
      × (is_hex m 16 ≡ true → Survives (identity_accepted m))
unfolding parse_server_message serialize split_fields bytes_eq
Survives-hex m = (
  λ h. rw (split_at_single b'|' m (hex-Avoids b'|' m 64 refl h), server_hex, h),
  λ h. rw (split_at_single b'|' m (hex-Avoids b'|' m 16 refl h), server_hex, h),
)

Survives-text :
    (m : Bytes)
    → IsText m
    → Survives (join_rejected m) × Survives (plain_text m) × Survives (server_error m)
unfolding parse_server_message serialize split_fields bytes_eq rest_after_command
Survives-text m h =
    let (f, fs, e) = split_at_some b'|' m in
    (rw (e, server_text, h), rw (e, server_text, h), rw (e, server_text, h))

reason_allowed :
    (reason : Bytes)
    → (reason ≡ []) ⊎ (is_valid_text reason max_chat_length ≡ true)
    → (is_empty reason || is_valid_text reason max_chat_length) ≡ true
reason_allowed reason k = ground arith

Survives-kick :
    (nickname reason : Bytes)
    → IsNickname nickname
    → (reason ≡ []) ⊎ (is_valid_text reason max_chat_length ≡ true)
    → Survives (kick nickname reason)
unfolding parse_server_message serialize split_fields bytes_eq
Survives-kick nickname reason h k =
    let avoids = nickname-Avoids b'|' nickname refl h in
    let (f, fs, e) = split_at_some b'|' reason in
    let rest : rest_after_delimiter (serialize (kick nickname reason)) 2 ≡ reason =
      rest_after_delimiter_two (codes "KICK") nickname reason (omega arith) avoids in
    rw (split_at_cons b'|' nickname reason avoids, e, server_kick, rest, h, reason_allowed reason k)

Survives-users :
    (id : ℕ) (names : List Bytes) → IsId id → All IsNickname names → Survives (user_list id names)
unfolding parse_server_message serialize split_fields bytes_eq
Survives-users id names i h =
    let (l, e) = name_list-join_with names h in
    rw (
      split_at_cons b'|' (to_string id) (join_with b',' names)
          (to_string-Avoids b'|' id (inr (omega arith))),
      split_at_single b'|' (join_with b',' names) (names-Avoids names h),
      server_users,
      parse_id-to_string id i,
      l,
      e,
    )

Survives-rooms :
    (rooms : List RoomSummary)
    → All IsRoomSummary rooms
    → length rooms ≤ max_rooms
    → Survives (room_list rooms)
unfolding parse_server_message serialize split_fields bytes_eq
Survives-rooms rooms h k = rw (
  split_at_single b'|' (join_with b';' (map room_entry rooms)) (
      join_with-Avoids b'|' b';' (map room_entry rooms) (λ e. omega arith)
        (entries-Avoid b'|' rooms (inr (omega arith)) (λ e. omega arith) refl h)),
  server_rooms,
  room_entries rooms h k,
)

module _ (id : ℕ) (body : Bytes) (i : IsId id) where
  Survives-room_topic : is_valid_room_topic body ≡ true → Survives (room_topic id body)
  unfolding parse_server_message serialize split_fields bytes_eq
  Survives-room_topic h =
      let avoids = to_string-Avoids b'|' id (inr (omega arith)) in
      let (f, fs, e) = split_at_some b'|' body in
      let rest : rest_after_delimiter (serialize (room_topic id body)) 2 ≡ body =
        rest_after_delimiter_two (codes "TOPIC") (to_string id) body (omega arith) avoids in
      rw (
        split_at_cons b'|' (to_string id) body avoids,
        e,
        server_topic,
        parse_id-to_string id i,
        rest,
        h,
      )

  Survives-room_text : IsText body → Survives (room_text id body)
  unfolding parse_server_message serialize split_fields bytes_eq
  Survives-room_text h =
      let avoids = to_string-Avoids b'|' id (inr (omega arith)) in
      let (f, fs, e) = split_at_some b'|' body in
      let rest : rest_after_delimiter (serialize (room_text id body)) 2 ≡ body =
        rest_after_delimiter_two (codes "ROOM_TEXT") (to_string id) body (omega arith) avoids in
      rw (
        split_at_cons b'|' (to_string id) body avoids,
        e,
        server_room_text,
        parse_id-to_string id i,
        rest,
        h,
      )

  Survives-room_joined :
      (name : Bytes)
      → is_valid_room_name name ≡ true
      → is_valid_room_topic body ≡ true
      → Survives (room_joined id name body)
  unfolding parse_server_message serialize split_fields bytes_eq
  Survives-room_joined name n h =
      let avoids = to_string-Avoids b'|' id (inr (omega arith)) in
      let unbarred = room_name-Avoids b'|' name refl n in
      let (f, fs, e) = split_at_some b'|' body in
      let rest : rest_after_delimiter (serialize (room_joined id name body)) 3 ≡ body =
        rest_after_delimiter_three (codes "ROOM") (to_string id) name body (omega arith) avoids
          unbarred in
      rw (
        split_at_cons b'|' (to_string id) (name ++ (b'|' ∷ body)) avoids,
        split_at_cons b'|' name body unbarred,
        e,
        server_room,
        parse_id-to_string id i,
        n,
        rest,
        h,
      )

-- Every valid message is read back from its serialized form.
pub parse_server_message-serialize :
    (m : ServerMessage) → IsValid m → parse_server_message (serialize m) ≡ ok m
parse_server_message-serialize (hello v) h = rw h Survives-hello
parse_server_message-serialize auth_required h =
    unfold parse_server_message serialize split_fields bytes_eq in refl
parse_server_message-serialize auth_accepted h =
    unfold parse_server_message serialize split_fields bytes_eq in refl
parse_server_message-serialize auth_rejected h =
    unfold parse_server_message serialize split_fields bytes_eq in refl
parse_server_message-serialize (challenge hex) h = (Survives-hex hex).0 h
parse_server_message-serialize (identity_accepted fingerprint) h = (Survives-hex fingerprint).1 h
parse_server_message-serialize join_accepted h =
    unfold parse_server_message serialize split_fields bytes_eq in refl
parse_server_message-serialize banned h =
    unfold parse_server_message serialize split_fields bytes_eq in refl
parse_server_message-serialize nickname_taken h =
    unfold parse_server_message serialize split_fields bytes_eq in refl
parse_server_message-serialize (join_rejected reason) h = (Survives-text reason h).0
parse_server_message-serialize (kick nickname reason) h = Survives-kick nickname reason h.0 h.1
parse_server_message-serialize (user_list id names) h = Survives-users id names h.0 h.1
parse_server_message-serialize (room_list rooms) h = Survives-rooms rooms h.0 h.1
parse_server_message-serialize (room_joined id name topic) h =
    Survives-room_joined id topic h.0 name h.1 h.2
parse_server_message-serialize (room_topic id topic) h = Survives-room_topic id topic h.0 h.1
parse_server_message-serialize (room_text id body) h = Survives-room_text id body h.0 h.1
parse_server_message-serialize (plain_text body) h = (Survives-text body h).1
parse_server_message-serialize (server_error reason) h = (Survives-text reason h).2
