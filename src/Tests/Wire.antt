-- ===== src/Tests/Wire.antt =====
-- Messages of src/protocol/protocol.cpp on the wire.
use chatbox.Protocol.Base64.{decode_group}
use chatbox.Protocol.Base64.{decode_groups}
use chatbox.Protocol.Base64.{encode_groups}
use chatbox.Protocol.Base64.{base64_value, base64_char}
use chatbox.Protocol.Fields.{split_fields}
use chatbox.Protocol.Frame.{strip_last}
use chatbox.Common.{
  ◌≤◌, ◌<◌, ◌≡◌, refl, inr, some, [], ◌∷◌, ◌++◌, arith, length, Bytes, codes, bytes_eq, AreBytes,
}
use chatbox.Protocol.Outcome.{ok}
use chatbox.Protocol.Rules.{is_valid_nickname, is_valid_text, is_valid_room_topic}
use chatbox.Protocol.Client.{
  ClientMessage, whisper, kick_request, leave, serialize, parse_client_message,
}
use chatbox.Protocol.Client.Validity.{IsValid}
use chatbox.Protocol.Server.{
  ServerMessage, room_topic, banned, serialize as serialize_server, parse_server_message, u64_bound,
}
use chatbox.Protocol.Server.Validity.{IsValid as IsValidServer}
use chatbox.Protocol.Codec.{
  encode_client_frame, decode_client_frame, encode_server_frame, decode_server_frame,
}
use chatbox.Protocol.Codec.Transport.{client_transport, server_transport}
use chatbox.Protocol.Codec.Ambiguity.{kick_request_ambiguous}
use chatbox.Protocol.Codec.Reencode.{decode_client_frame-IsValid, decode_server_frame-IsValid}
use chatbox.Protocol.Frame.{encode_frame, decode_frame, line_body, max_payload_length}
use chatbox.Protocol.Frame.RoundTrip.{decode_frame-encode_frame, encode_frame-decode_frame}
use chatbox.Protocol.Decimal.{to_string, from_chars}
use chatbox.Protocol.Decimal.RoundTrip.{from_chars-to_string}

abbrev bob : Bytes
bob = b'b' ∷ b'o' ∷ b'b' ∷ []

abbrev hi : Bytes
hi = b'h' ∷ b'i' ∷ []

-- "aGk=" and a line end.
abbrev hi_frame : Bytes
hi_frame = b'a' ∷ b'G' ∷ b'k' ∷ b'=' ∷ b'\n' ∷ []

-- "LEAVE" and "BANNED", as frames.
abbrev leave_frame : Bytes
leave_frame = codes "TEVBVkU=" ++ b'\n' ∷ []

abbrev banned_frame : Bytes
banned_frame = codes "QkFOTkVE" ++ b'\n' ∷ []

abbrev greeting : ClientMessage
greeting = whisper bob hi

greeting-IsValid : IsValid greeting
unfolding is_valid_nickname is_valid_text
greeting-IsValid = (refl, refl)

greeting-AreBytes : AreBytes (serialize greeting)
unfolding serialize
greeting-AreBytes = omega arith

client_transport_example :
    (w : Bytes) × (encode_client_frame greeting ≡ ok w) × (decode_client_frame w ≡ ok greeting)
client_transport_example = client_transport greeting greeting-IsValid greeting-AreBytes

abbrev news : ServerMessage
news = room_topic 1 hi

news-IsValid : IsValidServer news
unfolding is_valid_room_topic u64_bound
news-IsValid = ((omega arith, omega arith), refl)

news-AreBytes : AreBytes (serialize_server news)
unfolding serialize_server to_string
news-AreBytes = omega arith

news-Fits : length (serialize_server news) ≤ max_payload_length
unfolding serialize_server to_string
news-Fits = omega arith

server_transport_example :
    (w : Bytes) × (encode_server_frame news ≡ ok w) × (decode_server_frame w ≡ ok news)
server_transport_example = server_transport news news-IsValid news-AreBytes news-Fits

leave_frame-decodes : decode_client_frame leave_frame ≡ ok leave
unfolding decode_client_frame decode_frame parse_client_message strip_last decode_groups
    decode_group base64_value split_fields bytes_eq
leave_frame-decodes = refl

decode_client_frame-IsValid_example :
    IsValid leave × (parse_client_message (serialize leave) ≡ ok leave)
decode_client_frame-IsValid_example =
    decode_client_frame-IsValid leave_frame leave leave_frame-decodes

banned_frame-decodes : decode_server_frame banned_frame ≡ ok banned
unfolding decode_server_frame decode_frame parse_server_message strip_last decode_groups
    decode_group base64_value split_fields bytes_eq
banned_frame-decodes = refl

decode_server_frame-IsValid_example :
    IsValidServer banned × (parse_server_message (serialize_server banned) ≡ ok banned)
decode_server_frame-IsValid_example =
    decode_server_frame-IsValid banned_frame banned banned_frame-decodes

hi-encoded : encode_frame hi ≡ ok hi_frame
unfolding encode_frame encode_groups base64_char
hi-encoded = refl

hi-decoded : decode_frame hi_frame ≡ ok hi
unfolding decode_frame strip_last decode_groups decode_group base64_value
hi-decoded = refl

hi-AreBytes : AreBytes hi
hi-AreBytes = omega arith

decode_frame-encode_frame_example : decode_frame hi_frame ≡ ok hi
decode_frame-encode_frame_example = decode_frame-encode_frame hi hi_frame hi-AreBytes hi-encoded

encode_frame-decode_frame_example : encode_frame hi ≡ ok (line_body hi_frame ++ b'\n' ∷ [])
encode_frame-decode_frame_example = encode_frame-decode_frame hi_frame hi hi-decoded

hi-pos : 0 < length hi
hi-pos = omega arith

hi-Fits : length hi ≤ max_payload_length
hi-Fits = omega arith

seven-lt : 7 < u64_bound
unfolding u64_bound
seven-lt = omega arith

from_chars-to_string_example : from_chars u64_bound (to_string 7) ≡ some 7
from_chars-to_string_example = from_chars-to_string u64_bound 7 seven-lt

abbrev kicked : ClientMessage
kicked = kick_request bob (hi ++ b'|' ∷ hi)

kicked-IsValid : IsValid kicked
unfolding is_valid_nickname is_valid_text
kicked-IsValid = (refl, inr refl)

kicked-AreBytes : AreBytes (serialize kicked)
unfolding serialize
kicked-AreBytes = omega arith

kick_request_ambiguous_example :
    (w : Bytes) × (encode_client_frame (kick_request (bob ++ b'|' ∷ hi) hi) ≡ ok w)
    × (decode_client_frame w ≡ ok kicked)
kick_request_ambiguous_example = kick_request_ambiguous bob hi hi kicked-IsValid kicked-AreBytes
