-- ===== src/Protocol/Frame.antt =====
-- `encode_frame` and `decode_frame` of src/protocol/protocol.cpp: a payload as one line of Base64.
pub mod RoundTrip
use chatbox.Common.{
  ℕ, ◌+◌, ◌-◌, ◌*◌, ◌/◌, ◌%◌, not, [], ◌∷◌, ◌++◌, ltb, ◌==◌, if◌then◌else◌, Bytes, length, is_empty,
}
use chatbox.Protocol.Outcome.{
  ◌>>=◌, Result, ok, failure, empty_frame, frame_too_large, invalid_base64, empty_payload,
  max_frame_length,
}
use chatbox.Protocol.Base64.{encode_groups, decode_groups}

abbrev pub max_payload_length : ℕ
max_payload_length = (max_frame_length - 1) / 4 * 3

unfoldable pub encode_frame : Bytes → Result Bytes
encode_frame payload =
    if is_empty payload
    then failure empty_payload "Cannot encode an empty payload"
    else if ltb max_payload_length (length payload)
    then failure frame_too_large "Encoded frame exceeds 4096 bytes"
    else (let output = encode_groups payload ++ b'\n' ∷ [] in
        if ltb max_frame_length (length output)
        then failure frame_too_large "Encoded frame exceeds 4096 bytes"
        else ok output)

-- `if (!s.empty() && s.back() == c) s.remove_suffix(1)`.
unfoldable pub strip_last : ℕ → Bytes → Bytes
strip_last c [] = []
strip_last c (x ∷ []) = if x == c then [] else x ∷ []
strip_last c (x ∷ y ∷ ys) = x ∷ strip_last c (y ∷ ys)

-- What is left of a line without its line end.
abbrev pub line_body : Bytes → Bytes
line_body frame = strip_last b'\r' (strip_last b'\n' frame)

-- The checks on the text between the line ends, and the loop.
decode_body : Bytes → Result Bytes
decode_body body =
    if is_empty body
    then failure empty_frame "Frame is empty"
    else if ltb max_frame_length (length body + 1)
    then failure frame_too_large "Frame exceeds 4096 bytes"
    else if not (length body % 4 == 0)
    then failure invalid_base64 "Base64 length must be divisible by four"
    else (decode_groups body >>= λ output.
        if is_empty output then failure empty_payload "Decoded payload is empty" else ok output)

unfoldable pub decode_frame : Bytes → Result Bytes
unfolding decode_body
decode_frame frame = decode_body (line_body frame)
