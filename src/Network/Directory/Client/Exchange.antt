-- ===== src/Network/Directory/Client/Exchange.antt =====
-- A request, and the responses that come back for it.
use chatbox.Common.{
  ℕ, suc, ◌+◌, ◌≤◌, ◌<◌, ◌≡◌, refl, ap, ◌∙◌, true, false, Option, none, some, List, [], ◌∷◌, ◌++◌,
  arith, ltb, ◌==◌, if◌then◌else◌, length, All, Bytes, AreBytes,
}
use mathlib.Core.List.{append_assoc}
use chatbox.Common.{All-imp}
use chatbox.Protocol.Outcome.{ok, max_frame_length}
use chatbox.Protocol.Frame.{decode_frame, max_payload_length}
use chatbox.Protocol.Frame.RoundTrip.{encode_frame-body}
use chatbox.Helpers.Laws.{has_no, has_no-of_All, cut_at-word}
use chatbox.Network.Directory.{ServerBrowser, write_payload, serve, session, process_request}
use chatbox.Network.Directory.Client.{max_responses, is_last, receive, received, send_request}

-- A text that can be sent.
abbrev pub IsSendable : Bytes → Type 0
IsSendable line = AreBytes line × (0 < length line) × (length line ≤ max_payload_length)

-- A frame has no end of a line within.
printed-has_no : (body : Bytes) → All (λ c. 32 < c) body → has_no b'\n' body ≡ true
printed-has_no body printed =
    has_no-of_All b'\n' body
      (All-imp (λ c. 32 < c) (λ c. (c == b'\n') ≡ false) (λ c p. ground (arith, p)) body printed)

-- What is received of a response and of what follows it.
unfoldable pub after : Bytes → Option (List Bytes) → Option (List Bytes)
after response more =
    if is_last response
    then some (response ∷ [])
    else elim more [ none ↦ none | some responses ↦ some (response ∷ responses) ]

receive-line :
    (left : ℕ) (response body rest : Bytes)
    → has_no b'\n' body ≡ true
    → ltb max_frame_length (length body + 1) ≡ false
    → decode_frame body ≡ ok response
    → receive (suc left) (body ++ (b'\n' ∷ rest)) ≡ after response (receive left rest)
unfolding receive after
receive-line left response body rest h k e =
    rw (cut_at-word b'\n' body rest h, receive) (rw k (rw e refl))

-- A response at the front of what is received.
pub receive-response :
    (left : ℕ) (response : Bytes) (responses : List Bytes)
    → IsSendable response
    → receive (suc left) (write_payload (response ∷ responses))
      ≡ after response (receive left (write_payload responses))
unfolding write_payload
receive-response left response responses (bytes, low, high) =
    let (body, encoded, decoded, printed, short) = encode_frame-body response bytes low high in
    rw (encoded, write_payload)
      (ap (receive (suc left)) (append_assoc body (b'\n' ∷ []) (write_payload responses))
        ∙ receive-line left response body (write_payload responses) (printed-has_no body printed)
            (ground (arith, short)) decoded)

-- What a session answers to a request in a frame.
serve-request :
    (browser : ServerBrowser) (now : ℕ) (body request : Bytes)
    → has_no b'\n' body ≡ true
    → ltb max_frame_length (length body + 1) ≡ false
    → decode_frame body ≡ ok request
    → (session browser now (body ++ b'\n' ∷ [])).1
      ≡ write_payload (process_request browser now request).1
unfolding session serve
serve-request browser now body request h k e =
    rw (cut_at-word b'\n' body [] h, session) (rw k (rw (e, serve) refl))

-- The client receives the responses to its request.
pub send_request-session :
    (browser : ServerBrowser) (now : ℕ) (request : Bytes)
    → IsSendable request
    → send_request (λ payload. (session browser now payload).1) request
      ≡ received (receive max_responses (write_payload (process_request browser now request).1))
unfolding send_request
send_request-session browser now request (bytes, low, high) =
    let (body, encoded, decoded, printed, short) = encode_frame-body request bytes low high in
    rw (encoded, send_request)
      (ap (λ answer. received (receive max_responses answer))
        (serve-request browser now body request (printed-has_no body printed)
          (ground (arith, short)) decoded))
