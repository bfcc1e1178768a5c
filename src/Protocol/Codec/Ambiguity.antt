-- ===== src/Protocol/Codec/Ambiguity.antt =====
-- `encode_client_frame` checks that the payload parses, not that it parses to the message.
use chatbox.Common.{◌≡◌, ap, ◌∙◌, ◌∷◌, ◌++◌, Bytes, codes, AreBytes}
use mathlib.Core.List.{append_assoc}
use chatbox.Protocol.Outcome.{ok}
use chatbox.Protocol.Client.{kick_request, serialize}
use chatbox.Protocol.Client.Validity.{IsValid}
use chatbox.Protocol.Codec.{encode_client_frame, decode_client_frame}
use chatbox.Protocol.Codec.Transport.{client_transport}

same_payload :
    (n x r : Bytes)
    → serialize (kick_request (n ++ b'|' ∷ x) r) ≡ serialize (kick_request n (x ++ b'|' ∷ r))
unfolding serialize
same_payload n x r = ap (λ s. codes "KICK|" ++ s) (append_assoc n (b'|' ∷ x) (b'|' ∷ r))

same_frame :
    (n x r : Bytes)
    → encode_client_frame (kick_request (n ++ b'|' ∷ x) r)
      ≡ encode_client_frame (kick_request n (x ++ b'|' ∷ r))
unfolding encode_client_frame
same_frame n x r = rw (same_payload n x r)

-- A kick request whose nickname holds a '|' behind a valid nickname `n` is encoded, and is received
-- as a request to kick `n`, with the rest of the nickname in front of the reason.
pub kick_request_ambiguous :
    (n x r : Bytes)
    → IsValid (kick_request n (x ++ b'|' ∷ r))
    → AreBytes (serialize (kick_request n (x ++ b'|' ∷ r)))
    → (w : Bytes) × (encode_client_frame (kick_request (n ++ b'|' ∷ x) r) ≡ ok w)
      × (decode_client_frame w ≡ ok (kick_request n (x ++ b'|' ∷ r)))
kick_request_ambiguous n x r v b =
    let (w, e, d) = client_transport (kick_request n (x ++ b'|' ∷ r)) v b in
    (w, same_frame n x r ∙ e, d)
