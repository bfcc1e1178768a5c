-- ===== src/Protocol/Server/Validity.antt =====
-- Which server messages the protocol can carry.
use chatbox.Protocol.Rules.{
  is_valid_room_topic, is_valid_text, is_valid_room_name, is_hex, is_valid_nickname,
}
use chatbox.Common.{ℕ, ◌≤◌, ◌<◌, ◌≡◌, ◌⊎◌, true, [], length, All, Bytes}
use chatbox.Protocol.Outcome.{version, max_chat_length, max_frame_length, max_rooms}
use chatbox.Protocol.Server.{
  ServerMessage, RoomSummary, u64_bound, hello, challenge, identity_accepted, join_rejected, kick,
  user_list, room_list, room_joined, room_topic, room_text, plain_text, server_error,
}

-- A room number: not zero, and a `uint64_t`.
abbrev pub IsId : ℕ → Type 0
IsId id = (0 < id) × (id < u64_bound)

abbrev pub IsRoomSummary : RoomSummary → Type 0
IsRoomSummary r = IsId r.id × (is_valid_room_name r.name ≡ true) × (r.user_count < u64_bound)

abbrev pub IsNickname : Bytes → Type 0
IsNickname name = is_valid_nickname name ≡ true

abbrev pub IsText : Bytes → Type 0
IsText body = is_valid_text body max_frame_length ≡ true

-- The bounds on each message's fields.
abbrev pub IsValid : ServerMessage → Type 0
IsValid (hello v) = v ≡ version
IsValid (challenge hex) = is_hex hex 64 ≡ true
IsValid (identity_accepted fingerprint) = is_hex fingerprint 16 ≡ true
IsValid (join_rejected reason) = IsText reason
IsValid (kick nickname reason) =
    IsNickname nickname × ((reason ≡ []) ⊎ (is_valid_text reason max_chat_length ≡ true))
IsValid (user_list id names) = IsId id × All IsNickname names
IsValid (room_list rooms) = All IsRoomSummary rooms × (length rooms ≤ max_rooms)
IsValid (room_joined id name topic) =
    IsId id × (is_valid_room_name name ≡ true) × (is_valid_room_topic topic ≡ true)
IsValid (room_topic id topic) = IsId id × (is_valid_room_topic topic ≡ true)
IsValid (room_text id body) = IsId id × IsText body
IsValid (plain_text body) = IsText body
IsValid (server_error reason) = IsText reason
IsValid _ = Unit
