-- ===== src/Protocol/Codec.antt =====
-- Messages as frames: `encode_client_frame`, `encode_server_frame`, `decode_client_frame`,
-- `decode_server_frame` and `decode_message_frame` of src/protocol/protocol.cpp.
pub mod Transport
pub mod Ambiguity
pub mod Reencode
use chatbox.Common.{Bytes}
use chatbox.Protocol.Outcome.{Result, ◌>>=◌}
use chatbox.Protocol.Frame.{encode_frame, decode_frame}
use chatbox.Protocol.Client.{ClientMessage, serialize, parse_client_message}
use chatbox.Protocol.Server.{ServerMessage, serialize as serialize_server, parse_server_message}

-- The message is encoded if its payload parses; what it parses to is not looked at.
pub encode_client_frame : ClientMessage → Result Bytes
encode_client_frame message = do
  let payload = serialize message
  _ ← parse_client_message payload
  encode_frame payload

pub encode_server_frame : ServerMessage → Result Bytes
encode_server_frame message = do
  let payload = serialize_server message
  _ ← parse_server_message payload
  encode_frame payload

decode_message_frame : {M : Type 0} → (Bytes → Result M) → Bytes → Result M
decode_message_frame parser frame = decode_frame frame >>= parser

unfoldable pub decode_client_frame : Bytes → Result ClientMessage
unfolding decode_message_frame
decode_client_frame frame = decode_message_frame parse_client_message frame

unfoldable pub decode_server_frame : Bytes → Result ServerMessage
unfolding decode_message_frame
decode_server_frame frame = decode_message_frame parse_server_message frame
