-- ===== src/Protocol/Codec/Transport.antt =====
-- A message sent as a frame arrives as the same message.
use chatbox.Common.{arith, ◌≤◌, ◌<◌, ◌≡◌, [], ◌∷◌, ◌++◌, length, Bytes, AreBytes}
use chatbox.Protocol.Outcome.{ok}
use chatbox.Protocol.Frame.{max_payload_length}
use chatbox.Protocol.Frame.RoundTrip.{decode_frame-encode_frame, encode_frame_line}
use chatbox.Protocol.Client.{ClientMessage, serialize}
use chatbox.Protocol.Client.Validity.{IsValid}
use chatbox.Protocol.Client.RoundTrip.{parse_client_message-serialize}
use chatbox.Protocol.Client.Size.{serialize-Fits}
use chatbox.Protocol.Server.{ServerMessage, hello, serialize as serialize_server}
use chatbox.Protocol.Server.Validity.{IsValid as IsValidServer}
use chatbox.Protocol.Server.RoundTrip.{parse_server_message-serialize}
use chatbox.Protocol.Codec.{
  encode_client_frame, encode_server_frame, decode_client_frame, decode_server_frame,
}

-- Every valid client message is encoded, and decodes to itself.
pub client_transport :
    (m : ClientMessage)
    → IsValid m
    → AreBytes (serialize m)
    → (w : Bytes) × (encode_client_frame m ≡ ok w) × (decode_client_frame w ≡ ok m)
unfolding encode_client_frame decode_client_frame
client_transport m v b =
    let (h, k) = serialize-Fits m v in
    let (body, e, _, _) = encode_frame_line (serialize m) h k in
    let p = parse_client_message-serialize m v in
    (body ++ b'\n' ∷ [], rw p e, rw (decode_frame-encode_frame (serialize m) _ b e) p)

serialize_server-pos : (m : ServerMessage) → 0 < length (serialize_server m)
unfolding serialize_server
serialize_server-pos (hello v) = omega arith
serialize_server-pos _ = omega arith

-- Every valid server message whose payload is not too long is encoded, and decodes to itself.
pub server_transport :
    (m : ServerMessage)
    → IsValidServer m
    → AreBytes (serialize_server m)
    → length (serialize_server m) ≤ max_payload_length
    → (w : Bytes) × (encode_server_frame m ≡ ok w) × (decode_server_frame w ≡ ok m)
unfolding encode_server_frame decode_server_frame
server_transport m v b k =
    let h = serialize_server-pos m in
    let (body, e, _, _) = encode_frame_line (serialize_server m) h k in
    let p = parse_server_message-serialize m v in
    (body ++ b'\n' ∷ [], rw p e, rw (decode_frame-encode_frame (serialize_server m) _ b e) p)
