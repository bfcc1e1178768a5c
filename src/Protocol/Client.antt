-- ===== src/Protocol/Client.antt =====
-- Messages of the client in src/protocol/protocol.h and protocol.cpp: `ClientMessage`, `serialize`
-- and `parse_client_message`, one function for each command's branch.
pub mod RoundTrip
pub mod Size
pub mod Sound
pub mod Validity
use chatbox.Protocol.Decimal.{from_chars, to_string}
use chatbox.Protocol.Rules.{
  is_valid_room_topic, is_valid_password, is_valid_room_name, is_valid_text, is_valid_nickname,
  is_hex,
}
use chatbox.Protocol.Fields.{split_fields, rest_after_command, rest_after_delimiter}
use chatbox.Common.{
  ℕ, ◌+◌, not, ◌&&◌, ◌||◌, Option, none, some, List, [], ◌∷◌, ◌++◌, ◌==◌, if◌then◌else◌, is_empty,
  Bytes, codes, text,
}
use chatbox.Protocol.Outcome.{
  select, Result, ok, err, failure, empty_payload, unknown_message, wrong_field_count,
  invalid_field, unsupported_version, version, max_chat_length,
}

pub data ClientMessage : Type 0 where
  hello : ℕ → ClientMessage
  authenticate : Bytes → ClientMessage
  identify : Bytes → Bytes → ClientMessage
  identity_proof : Bytes → ClientMessage
  leave disconnect list_rooms : ClientMessage
  create_room join_room : Bytes → ClientMessage
  topic_request : Option Bytes → ClientMessage
  chat : Bytes → ClientMessage
  whisper : Bytes → Bytes → ClientMessage
  kick_request : Bytes → Bytes → ClientMessage

unfoldable pub serialize : ClientMessage → Bytes
serialize (hello v) = codes "HELLO|" ++ to_string v
serialize (authenticate password) = codes "AUTH|" ++ password
serialize (identify nickname key) = codes "IDENTIFY|" ++ (nickname ++ (b'|' ∷ key))
serialize (identity_proof signature) = codes "PROOF|" ++ signature
serialize leave = codes "LEAVE"
serialize disconnect = codes "DISCONNECT"
serialize list_rooms = codes "ROOMS"
serialize (create_room name) = codes "CREATE|" ++ name
serialize (join_room name) = codes "JOIN|" ++ name
serialize (topic_request none) = codes "TOPIC"
serialize (topic_request (some topic)) = codes "TOPIC|" ++ topic
serialize (chat body) = codes "MSG|" ++ body
serialize (whisper target body) = codes "WHISPER|" ++ (target ++ (b'|' ∷ body))
serialize (kick_request nickname reason) = codes "KICK|" ++ (nickname ++ (b'|' ∷ reason))

unfoldable pub unsigned_bound : ℕ
unsigned_bound = 4294967296

parse_hello : Option ℕ → Result ClientMessage
parse_hello none = failure invalid_field "HELLO version must be an integer"
parse_hello (some v) =
    if v == version
    then ok (hello v)
    else err unsupported_version
        (text "Protocol version " ++ (to_string v ++ text " is unsupported"))

client_hello : List Bytes → Result ClientMessage
unfolding parse_hello
client_hello (field ∷ []) = parse_hello (from_chars unsigned_bound field)
client_hello _ = failure wrong_field_count "HELLO requires one version field"

client_auth : Bytes → List Bytes → Result ClientMessage
client_auth payload [] = failure wrong_field_count "AUTH requires a password field"
client_auth payload (_ ∷ _) =
    let password = rest_after_command payload in
    if is_valid_password password
    then ok (authenticate password)
    else failure invalid_field "AUTH password is oversized or contains control characters"

client_identify : List Bytes → Result ClientMessage
client_identify (nickname ∷ key ∷ []) =
    if not (is_valid_nickname nickname) || not (is_hex key 64)
    then failure invalid_field "IDENTIFY contains an invalid nickname or public key"
    else ok (identify nickname key)
client_identify _ = failure wrong_field_count "IDENTIFY requires nickname and public key fields"

client_proof : List Bytes → Result ClientMessage
client_proof (signature ∷ []) =
    if is_hex signature 128
    then ok (identity_proof signature)
    else failure invalid_field "PROOF signature is invalid"
client_proof _ = failure wrong_field_count "PROOF requires one signature field"

client_plain : Bytes → ClientMessage → List Bytes → Result ClientMessage
client_plain command m [] = ok m
client_plain command m (_ ∷ _) = err wrong_field_count (command ++ text " does not accept fields")

client_room : Bytes → (Bytes → ClientMessage) → List Bytes → Result ClientMessage
client_room command m (name ∷ []) =
    if is_valid_room_name name
    then ok (m name)
    else err invalid_field (command ++ text " contains an invalid room name")
client_room command m _ = err wrong_field_count (command ++ text " requires one room name")

client_topic : Bytes → List Bytes → Result ClientMessage
client_topic payload [] = ok (topic_request none)
client_topic payload (_ ∷ _) =
    let topic = rest_after_command payload in
    if is_empty topic || not (is_valid_room_topic topic)
    then failure invalid_field "TOPIC text is empty, oversized, or contains control characters"
    else ok (topic_request (some topic))

client_msg : Bytes → List Bytes → Result ClientMessage
client_msg payload [] = failure wrong_field_count "MSG requires a body field"
client_msg payload (_ ∷ _) =
    let body = rest_after_command payload in
    if is_valid_text body max_chat_length
    then ok (chat body)
    else failure invalid_field "MSG body is empty, oversized, or contains control characters"

client_whisper : Bytes → List Bytes → Result ClientMessage
client_whisper payload (target ∷ _ ∷ _) =
    let body = rest_after_delimiter payload 2 in
    if not (is_valid_nickname target) || not (is_valid_text body max_chat_length)
    then failure invalid_field "WHISPER contains an invalid target or body"
    else ok (whisper target body)
client_whisper payload _ = failure wrong_field_count "WHISPER requires target and body fields"

kick_reason : Bytes → Bytes → Result ClientMessage
kick_reason nickname reason =
    if not (is_empty reason) && not (is_valid_text reason max_chat_length)
    then failure invalid_field "KICK reason is oversized or contains control characters"
    else ok (kick_request nickname reason)

client_kick : Bytes → List Bytes → Result ClientMessage
unfolding kick_reason
client_kick payload [] = failure invalid_field "KICK requires a valid nickname"
client_kick payload (nickname ∷ more) =
    if is_valid_nickname nickname
    then elim more [
      | [] ↦ ok (kick_request nickname [])
      | _ ∷ _ ↦ kick_reason nickname (rest_after_delimiter payload 2)
    ]
    else failure invalid_field "KICK requires a valid nickname"

-- The ladder of commands; `args` are the fields behind the command.
client_rungs : Bytes → List Bytes → Bytes → List (Bytes × Result ClientMessage)
unfolding client_hello client_auth client_identify client_proof client_plain client_room
    client_topic client_msg client_whisper client_kick
client_rungs command args payload =
    (codes "HELLO", client_hello args)
    ∷ (codes "AUTH", client_auth payload args)
    ∷ (codes "IDENTIFY", client_identify args)
    ∷ (codes "PROOF", client_proof args)
    ∷ (codes "LEAVE", client_plain command leave args)
    ∷ (codes "DISCONNECT", client_plain command disconnect args)
    ∷ (codes "ROOMS", client_plain command list_rooms args)
    ∷ (codes "CREATE", client_room command create_room args)
    ∷ (codes "JOIN", client_room command join_room args)
    ∷ (codes "TOPIC", client_topic payload args)
    ∷ (codes "MSG", client_msg payload args)
    ∷ (codes "WHISPER", client_whisper payload args)
    ∷ (codes "KICK", client_kick payload args)
    ∷ []

client_command : Bytes → List Bytes → Bytes → Result ClientMessage
unfolding client_rungs select
client_command command args payload =
    select command (client_rungs command args payload)
      (err unknown_message (text "Unknown client message type: " ++ command))

-- `split_fields` gives at least one field.
client_fields : List Bytes → Bytes → Result ClientMessage
client_fields [] payload = client_command [] [] payload
client_fields (command ∷ args) payload = client_command command args payload

unfoldable pub parse_client_message : Bytes → Result ClientMessage
unfolding client_command client_fields
parse_client_message payload =
    if is_empty payload
    then failure empty_payload "Client message is empty"
    else client_fields (split_fields payload) payload
