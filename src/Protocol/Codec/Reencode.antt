-- ===== src/Protocol/Codec/Reencode.antt =====
-- What a frame decodes to can be sent on.
use chatbox.Common.{◌≡◌, Bytes}
use chatbox.Protocol.Outcome.{ok, bind-eq-ok}
use chatbox.Protocol.Frame.{decode_frame}
use chatbox.Protocol.Client.{ClientMessage, parse_client_message, serialize}
use chatbox.Protocol.Client.Validity.{IsValid}
use chatbox.Protocol.Client.Sound.{parse_client_message-IsValid}
use chatbox.Protocol.Client.RoundTrip.{parse_client_message-serialize}
use chatbox.Protocol.Server.{ServerMessage, parse_server_message, serialize as serialize_server}
use chatbox.Protocol.Server.Validity.{IsValid as IsValidServer}
use chatbox.Protocol.Server.Sound.{parse_server_message-IsValid}
use chatbox.Protocol.Server.RoundTrip.{parse_server_message-serialize}
use chatbox.Protocol.Codec.{decode_client_frame, decode_server_frame}

-- A client frame decodes to valid messages only, and the message is read back from its serialized
-- form.
pub decode_client_frame-IsValid :
    (w : Bytes) (m : ClientMessage)
    → decode_client_frame w ≡ ok m
    → IsValid m × (parse_client_message (serialize m) ≡ ok m)
unfolding decode_client_frame
decode_client_frame-IsValid w m e =
    let (p, _, k) = bind-eq-ok (decode_frame w) parse_client_message e in
    let v = parse_client_message-IsValid p m k in (v, parse_client_message-serialize m v)

-- A server frame decodes to valid messages only, and the message is read back from its serialized
-- form.
pub decode_server_frame-IsValid :
    (w : Bytes) (m : ServerMessage)
    → decode_server_frame w ≡ ok m
    → IsValidServer m × (parse_server_message (serialize_server m) ≡ ok m)
unfolding decode_server_frame
decode_server_frame-IsValid w m e =
    let (p, _, k) = bind-eq-ok (decode_frame w) parse_server_message e in
    let v = parse_server_message-IsValid p m k in (v, parse_server_message-serialize m v)
