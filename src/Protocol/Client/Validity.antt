-- ===== src/Protocol/Client/Validity.antt =====
-- Which client messages the protocol can carry.
use chatbox.Common.{◌≡◌, ◌≢◌, ◌⊎◌, true, some, []}
use chatbox.Protocol.Client.{
  max_chat_length, is_valid_text, is_valid_room_topic, is_valid_room_name, is_hex,
  is_valid_nickname, is_valid_password, version, ClientMessage, hello, authenticate, identify,
  identity_proof, create_room, join_room, topic_request, chat, whisper, kick_request,
}

-- The bounds on each message's fields.
abbrev pub IsValid : ClientMessage → Type 0
IsValid (hello v) = v ≡ version
IsValid (authenticate password) = is_valid_password password ≡ true
IsValid (identify nickname key) = (is_valid_nickname nickname ≡ true) × (is_hex key 64 ≡ true)
IsValid (identity_proof signature) = is_hex signature 128 ≡ true
IsValid (create_room name) = is_valid_room_name name ≡ true
IsValid (join_room name) = is_valid_room_name name ≡ true
IsValid (topic_request (some topic)) = (topic ≢ []) × (is_valid_room_topic topic ≡ true)
IsValid (chat body) = is_valid_text body max_chat_length ≡ true
IsValid (whisper target body) =
    (is_valid_nickname target ≡ true) × (is_valid_text body max_chat_length ≡ true)
IsValid (kick_request nickname reason) =
    (is_valid_nickname nickname ≡ true)
    × ((reason ≡ []) ⊎ (is_valid_text reason max_chat_length ≡ true))
IsValid _ = Unit
