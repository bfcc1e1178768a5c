-- ===== src/Protocol/Frame/RoundTrip.antt =====
-- A frame and its payload determine each other.
use chatbox.Protocol.Outcome.{err}
use chatbox.Protocol.Base64.Canonical.{encode_groups-decode_groups}
use chatbox.Protocol.Base64.Shape.{
  IsQuads-of_length, encode_groups-IsQuads, length-IsQuads, length-encode_groups,
  encode_groups-IsPrinted,
}
use chatbox.Protocol.Base64.RoundTrip.{decode_groups-encode_groups}
use chatbox.Protocol.Frame.{
  empty_payload, failure, ◌>>=◌, Result, decode_groups, max_frame_length, max_payload_length, ok,
  encode_groups, strip_last, decode_frame, line_body, decode_body, encode_frame,
}
use chatbox.Common.{
  length-append, ℕ, ◌+◌, ◌%◌, ◌≤◌, ◌<◌, ◌≡◌, refl, ap, ◌∙◌, [], ◌∷◌, ◌++◌, arith, if◌then◌else◌,
  length, is_empty, All, Bytes, AreBytes,
}

strip_last-concat : (c : ℕ) (xs : Bytes) → strip_last c (xs ++ c ∷ []) ≡ xs
unfolding strip_last
strip_last-concat c [] = ground arith
strip_last-concat c (x ∷ []) = ground arith
strip_last-concat c (x ∷ y ∷ ys) = ground (arith, strip_last-concat c (y ∷ ys))

strip_last_none : (c : ℕ) (xs : Bytes) → All (λ x. 32 < x) xs → c ≤ 32 → strip_last c xs ≡ xs
unfolding strip_last
strip_last_none c [] h k = refl
strip_last_none c (x ∷ []) h k = ground arith
strip_last_none c (x ∷ y ∷ ys) h k = ground (arith, strip_last_none c (y ∷ ys) h.1 k)

encode_frame-eq-ok :
    (p w : Bytes)
    → encode_frame p ≡ ok w
    → (w ≡ encode_groups p ++ b'\n' ∷ []) × (0 < length p) × (length p ≤ max_payload_length)
unfolding encode_frame
encode_frame-eq-ok [] w e = cc
encode_frame-eq-ok (x ∷ xs) w e = ground arith

line_body-encoded : (p : Bytes) → line_body (encode_groups p ++ b'\n' ∷ []) ≡ encode_groups p
line_body-encoded p =
    ap (strip_last b'\r') (strip_last-concat b'\n' (encode_groups p))
    ∙ strip_last_none b'\r' (encode_groups p) (encode_groups-IsPrinted p) (omega arith)

decode_body-encoded :
    (p : Bytes)
    → AreBytes p
    → 0 < length p
    → length p ≤ max_payload_length
    → decode_body (encode_groups p) ≡ ok p
unfolding decode_body
decode_body-encoded p b h k = ground (
  arith,
  decode_groups-encode_groups p b,
  length-encode_groups p,
  length-IsQuads (encode_groups-IsQuads p),
)

-- Every payload of bytes that is encoded comes back from the frame.
pub decode_frame-encode_frame :
    (p w : Bytes) → AreBytes p → encode_frame p ≡ ok w → decode_frame w ≡ ok p
unfolding decode_frame
decode_frame-encode_frame p w b e =
    let (f, h, k) = encode_frame-eq-ok p w e in
    rw (f, line_body-encoded p) (decode_body-encoded p b h k)

encode_frame_body :
    (p : Bytes)
    → 0 < length p
    → length p ≤ max_payload_length
    → encode_frame p ≡ ok (encode_groups p ++ b'\n' ∷ [])
unfolding encode_frame
encode_frame_body p h k =
    ground (arith, length-append (encode_groups p) (b'\n' ∷ []), length-encode_groups p)

-- An encoded frame is one line of printed characters within the limit of a frame.
pub encode_frame_line :
    (p : Bytes)
    → 0 < length p
    → length p ≤ max_payload_length
    → (body : Bytes) × (encode_frame p ≡ ok (body ++ b'\n' ∷ []))
      × All (λ c. 32 < c) body
      × (length body + 1 ≤ max_frame_length)
unfolding encode_frame
encode_frame_line p h k = (
  encode_groups p,
  ground (arith, length-append (encode_groups p) (b'\n' ∷ []), length-encode_groups p),
  encode_groups-IsPrinted p,
  omega (arith, length-encode_groups p),
)

decode_output :
    (r : Result Bytes) (p : Bytes)
    → (r >>= λ output.
        if is_empty output then failure empty_payload "Decoded payload is empty" else ok output)
      ≡ ok p
    → (r ≡ ok p) × (0 < length p)
decode_output (ok []) p e = cc
decode_output (ok (x ∷ xs)) p e = ground arith
decode_output (err k d) p e = cc

decode_body-eq-ok :
    (f p : Bytes)
    → decode_body f ≡ ok p
    → (decode_groups f ≡ ok p)
      × (0 < length p)
      × (length f + 1 ≤ max_frame_length)
      × (length f % 4 ≡ 0)
unfolding decode_body
decode_body-eq-ok f p e = ground (arith, decode_output (decode_groups f) p)

encode_frame_at :
    (p f : Bytes)
    → encode_groups p ≡ f
    → 0 < length p
    → length f + 1 ≤ max_frame_length
    → encode_frame p ≡ ok (f ++ b'\n' ∷ [])
encode_frame_at p f e h k =
    let l = length-encode_groups p in
    let m : length (encode_groups p) ≡ length f = ap length e in
    encode_frame_body p h (omega arith) ∙ rw e

-- A frame that decodes is, but for its line end, the one that its payload encodes to.
pub encode_frame-decode_frame :
    (f p : Bytes) → decode_frame f ≡ ok p → encode_frame p ≡ ok (line_body f ++ b'\n' ∷ [])
unfolding decode_frame
encode_frame-decode_frame f p e =
    let (g, h, k, q) = decode_body-eq-ok (line_body f) p e in
    encode_frame_at p (line_body f)
      (encode_groups-decode_groups _ p (IsQuads-of_length (line_body f) q) g) h k

-- The same, with the line as a reader has it, its end cut off.
pub encode_frame-body :
    (p : Bytes)
    → AreBytes p
    → 0 < length p
    → length p ≤ max_payload_length
    → (body : Bytes) × (encode_frame p ≡ ok (body ++ b'\n' ∷ []))
      × (decode_frame body ≡ ok p)
      × All (λ c. 32 < c) body
      × (length body + 1 ≤ max_frame_length)
unfolding decode_frame
encode_frame-body p b h k = (
  encode_groups p,
  encode_frame_body p h k,
  ap decode_body (
        ap (strip_last b'\r')
          (strip_last_none b'\n' (encode_groups p) (encode_groups-IsPrinted p) (omega arith))
        ∙ strip_last_none b'\r' (encode_groups p) (encode_groups-IsPrinted p) (omega arith))
      ∙ decode_body-encoded p b h k,
  encode_groups-IsPrinted p,
  omega (arith, length-encode_groups p),
)
