-- ===== src/Protocol/Client/Size.antt =====
-- Every valid client message fits into one frame.
use chatbox.Protocol.Decimal.{to_string}
use chatbox.Protocol.Rules.{
  is_valid_room_name, is_hex, is_valid_password, is_valid_room_topic, is_valid_text,
  is_valid_nickname,
}
use chatbox.Common.{
  length-append, ℕ, ◌≤◌, ◌<◌, ◌≡◌, ◌⊎◌, inl, inr, true, none, some, [], ◌∷◌, arith, length, Bytes,
}
use chatbox.Protocol.Outcome.{version, max_chat_length}
use chatbox.Protocol.Frame.{max_payload_length}
use chatbox.Protocol.Client.{
  ClientMessage, hello, authenticate, identify, identity_proof, leave, disconnect, list_rooms,
  create_room, join_room, topic_request, chat, whisper, kick_request, serialize,
}
use chatbox.Protocol.Client.Validity.{IsValid}

abbrev Fits : ClientMessage → Type 0
Fits m = (0 < length (serialize m)) × (length (serialize m) ≤ max_payload_length)

module _ (m : Bytes) where
  password_size : is_valid_password m ≡ true → length m ≤ 63
  unfolding is_valid_password
  password_size h = ground arith

  nickname_size : is_valid_nickname m ≡ true → length m ≤ 31
  unfolding is_valid_nickname
  nickname_size h = ground arith

  room_name_size : is_valid_room_name m ≡ true → length m ≤ 32
  unfolding is_valid_room_name
  room_name_size h = ground arith

  topic_size : is_valid_room_topic m ≡ true → length m ≤ 200
  unfolding is_valid_room_topic
  topic_size h = ground arith

  text_size : is_valid_text m max_chat_length ≡ true → length m ≤ 1000
  unfolding is_valid_text
  text_size h = ground arith

  hex_size : (n : ℕ) → is_hex m n ≡ true → length m ≡ n
  unfolding is_hex
  hex_size n h = ground arith

hello_Fits : Fits (hello version)
unfolding serialize to_string
hello_Fits = (omega arith, omega arith)

reason_size : (r : Bytes) → (r ≡ []) ⊎ (is_valid_text r max_chat_length ≡ true) → length r ≤ 1000
reason_size [] h = omega arith
reason_size (x ∷ r) (inl e) = absurd (cc)
reason_size (x ∷ r) (inr h) = text_size (x ∷ r) h

-- Every valid message is a payload that `encode_frame` accepts.
pub serialize-Fits : (m : ClientMessage) → IsValid m → Fits m
unfolding serialize
serialize-Fits (hello v) h = rw h hello_Fits
serialize-Fits (authenticate p) h = let k = password_size p h in (omega arith, omega arith)
serialize-Fits (identify n key) h =
    let k = nickname_size n h.0 in
    let l = hex_size key 64 h.1 in
    let s = length-append n (b'|' ∷ key) in (omega arith, omega arith)
serialize-Fits (identity_proof p) h = let k = hex_size p 128 h in (omega arith, omega arith)
serialize-Fits (create_room n) h = let k = room_name_size n h in (omega arith, omega arith)
serialize-Fits (join_room n) h = let k = room_name_size n h in (omega arith, omega arith)
serialize-Fits (topic_request none) h = (omega arith, omega arith)
serialize-Fits (topic_request (some t)) h = let k = topic_size t h.1 in (omega arith, omega arith)
serialize-Fits (chat b) h = let k = text_size b h in (omega arith, omega arith)
serialize-Fits (whisper n b) h =
    let k = nickname_size n h.0 in
    let l = text_size b h.1 in let s = length-append n (b'|' ∷ b) in (omega arith, omega arith)
serialize-Fits (kick_request n r) h =
    let k = nickname_size n h.0 in
    let l = reason_size r h.1 in let s = length-append n (b'|' ∷ r) in (omega arith, omega arith)
serialize-Fits leave h = (omega arith, omega arith)
serialize-Fits disconnect h = (omega arith, omega arith)
serialize-Fits list_rooms h = (omega arith, omega arith)
