-- ===== src/Protocol/Client/RoundTrip.antt =====
-- `parse_client_message` and `serialize`: the valid messages are exactly those that survive.
use chatbox.Protocol.Client.Validity.{IsValid}
use chatbox.Protocol.Rules.Laws.{hex-Avoids, nickname-Avoids, room_name-Avoids}
use chatbox.Protocol.Fields.Laws.{
  rest_after_delimiter_two, split_at_cons, split_at_single, split_at_some,
}
use chatbox.Protocol.Rules.{
  is_valid_room_topic, is_hex, is_valid_room_name, is_valid_nickname, is_valid_text,
  is_valid_password,
}
use chatbox.Protocol.Decimal.{from_chars, to_string}
use chatbox.Protocol.Fields.{rest_after_delimiter, rest_after_command, split_fields}
use chatbox.Common.{
  none, some, ◌∷◌, false, codes, arith, is_empty, ◌≢◌, ◌⊎◌, [], ◌≡◌, refl, true, Bytes, bytes_eq,
}
use chatbox.Protocol.Outcome.{max_chat_length, version}
use chatbox.Protocol.Client.{
  leave, disconnect, list_rooms, client_topic, client_kick, topic_request, kick_request,
  ClientMessage, client_identify, client_whisper, client_room, client_proof, client_msg, whisper,
  chat, join_room, identify, create_room, identity_proof, kick_reason, client_auth, ok,
  unsigned_bound, hello, authenticate, serialize, parse_client_message,
}

parse-serialize_hello : parse_client_message (serialize (hello version)) ≡ ok (hello version)
unfolding parse_client_message serialize split_fields bytes_eq to_string from_chars unsigned_bound
parse-serialize_hello = refl

not_empty : (m : Bytes) → m ≢ [] → is_empty m ≡ false
not_empty [] h = absurd (h refl)
not_empty (x ∷ m) h = refl

kick_reason_valid :
    (nickname reason : Bytes)
    → (reason ≡ []) ⊎ (is_valid_text reason max_chat_length ≡ true)
    → kick_reason nickname reason ≡ ok (kick_request nickname reason)
unfolding kick_reason
kick_reason_valid nickname reason k = ground arith

module _ (m : Bytes) where
  parse-serialize_auth :
      is_valid_password m ≡ true
      → parse_client_message (serialize (authenticate m)) ≡ ok (authenticate m)
  unfolding parse_client_message serialize split_fields bytes_eq rest_after_command
  parse-serialize_auth h = let (f, fs, e) = split_at_some b'|' m in rw (e, client_auth, h)

  parse-serialize_proof :
      is_hex m 128 ≡ true
      → parse_client_message (serialize (identity_proof m)) ≡ ok (identity_proof m)
  unfolding parse_client_message serialize split_fields bytes_eq
  parse-serialize_proof h =
      rw (split_at_single b'|' m (hex-Avoids b'|' m 128 refl h), client_proof, h)

  parse-serialize_create :
      is_valid_room_name m ≡ true
      → parse_client_message (serialize (create_room m)) ≡ ok (create_room m)
  unfolding parse_client_message serialize split_fields bytes_eq
  parse-serialize_create h =
      rw (split_at_single b'|' m (room_name-Avoids b'|' m refl h), client_room, h)

  parse-serialize_join :
      is_valid_room_name m ≡ true
      → parse_client_message (serialize (join_room m)) ≡ ok (join_room m)
  unfolding parse_client_message serialize split_fields bytes_eq
  parse-serialize_join h =
      rw (split_at_single b'|' m (room_name-Avoids b'|' m refl h), client_room, h)

  parse-serialize_chat :
      is_valid_text m max_chat_length ≡ true
      → parse_client_message (serialize (chat m)) ≡ ok (chat m)
  unfolding parse_client_message serialize split_fields bytes_eq rest_after_command
  parse-serialize_chat h = let (f, fs, e) = split_at_some b'|' m in rw (e, client_msg, h)

  parse-serialize_topic :
      m ≢ []
      → is_valid_room_topic m ≡ true
      → parse_client_message (serialize (topic_request (some m))) ≡ ok (topic_request (some m))
  unfolding parse_client_message serialize split_fields bytes_eq rest_after_command
  parse-serialize_topic ne h =
      let (f, fs, e) = split_at_some b'|' m in rw (e, client_topic, h, not_empty m ne)

parse-serialize-identify :
    (nickname key : Bytes)
    → is_valid_nickname nickname ≡ true
    → is_hex key 64 ≡ true
    → parse_client_message (serialize (identify nickname key)) ≡ ok (identify nickname key)
unfolding parse_client_message serialize split_fields bytes_eq
parse-serialize-identify nickname key h k = rw (
  split_at_cons b'|' nickname key (nickname-Avoids b'|' nickname refl h),
  split_at_single b'|' key (hex-Avoids b'|' key 64 refl k),
  client_identify,
  h,
  k,
)

parse-serialize_whisper :
    (target body : Bytes)
    → is_valid_nickname target ≡ true
    → is_valid_text body max_chat_length ≡ true
    → parse_client_message (serialize (whisper target body)) ≡ ok (whisper target body)
unfolding parse_client_message serialize split_fields bytes_eq
parse-serialize_whisper target body h k =
    let avoids = nickname-Avoids b'|' target refl h in
    let (f, fs, e) = split_at_some b'|' body in
    let rest : rest_after_delimiter (serialize (whisper target body)) 2 ≡ body =
      rest_after_delimiter_two (codes "WHISPER") target body (omega arith) avoids in
    rw (split_at_cons b'|' target body avoids, e, client_whisper, rest, h, k)

parse-serialize_kick :
    (nickname reason : Bytes)
    → is_valid_nickname nickname ≡ true
    → (reason ≡ []) ⊎ (is_valid_text reason max_chat_length ≡ true)
    → parse_client_message (serialize (kick_request nickname reason))
      ≡ ok (kick_request nickname reason)
unfolding parse_client_message serialize split_fields bytes_eq
parse-serialize_kick nickname reason h k =
    let avoids = nickname-Avoids b'|' nickname refl h in
    let (f, fs, e) = split_at_some b'|' reason in
    let rest : rest_after_delimiter (serialize (kick_request nickname reason)) 2 ≡ reason =
      rest_after_delimiter_two (codes "KICK") nickname reason (omega arith) avoids in
    rw (split_at_cons b'|' nickname reason avoids, e, client_kick, h, rest)
      (kick_reason_valid nickname reason k)

-- Every valid message is read back from its serialized form.
pub parse_client_message-serialize :
    (m : ClientMessage) → IsValid m → parse_client_message (serialize m) ≡ ok m
parse_client_message-serialize (hello v) h = rw h parse-serialize_hello
parse_client_message-serialize (authenticate password) h = parse-serialize_auth password h
parse_client_message-serialize (identify nickname key) h =
    parse-serialize-identify nickname key h.0 h.1
parse_client_message-serialize (identity_proof signature) h = parse-serialize_proof signature h
parse_client_message-serialize leave h =
    unfold parse_client_message serialize split_fields bytes_eq in refl
parse_client_message-serialize disconnect h =
    unfold parse_client_message serialize split_fields bytes_eq in refl
parse_client_message-serialize list_rooms h =
    unfold parse_client_message serialize split_fields bytes_eq in refl
parse_client_message-serialize (create_room name) h = parse-serialize_create name h
parse_client_message-serialize (join_room name) h = parse-serialize_join name h
parse_client_message-serialize (topic_request none) h =
    unfold parse_client_message serialize split_fields bytes_eq in refl
parse_client_message-serialize (topic_request (some topic)) h = parse-serialize_topic topic h.0 h.1
parse_client_message-serialize (chat body) h = parse-serialize_chat body h
parse_client_message-serialize (whisper target body) h = parse-serialize_whisper target body h.0 h.1
parse_client_message-serialize (kick_request nickname reason) h =
    parse-serialize_kick nickname reason h.0 h.1
