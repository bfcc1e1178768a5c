-- ===== src/Protocol/Base64/Shape.antt =====
-- The shape of encoded text: its length, its groups of four, its characters.
use chatbox.Common.{ℕ, ◌+◌, ◌*◌, ◌/◌, ◌%◌, ◌<◌, ◌≡◌, [], ◌∷◌, arith, Bytes, All, length}
use chatbox.Protocol.Base64.{encode_groups}
use chatbox.Protocol.Base64.Alphabet.{base64_char-IsPrinted}

pub data IsQuads : Bytes → Type 0 where
  nil : IsQuads []
  quad : {c0 c1 c2 c3 : ℕ} {rest : Bytes} → IsQuads rest → IsQuads (c0 ∷ c1 ∷ c2 ∷ c3 ∷ rest)

-- All that the encoder writes is above the space sign: no line ends, no blanks.
pub encode_groups-IsPrinted : (p : Bytes) → All (λ c. 32 < c) (encode_groups p)
unfolding encode_groups
encode_groups-IsPrinted [] = tt
encode_groups-IsPrinted (a ∷ []) =
    let d = λ (i : ℕ) (h : i < 64). (base64_char-IsPrinted i h).0 in
    (d _ (omega arith), (d _ (omega arith), omega arith))
encode_groups-IsPrinted (a ∷ b ∷ []) =
    let d = λ (i : ℕ) (h : i < 64). (base64_char-IsPrinted i h).0 in
    (d _ (omega arith), (d _ (omega arith), (d _ (omega arith), omega arith)))
encode_groups-IsPrinted (a ∷ b ∷ c ∷ rest) =
    let d = λ (i : ℕ) (h : i < 64). (base64_char-IsPrinted i h).0 in
    let ih = encode_groups-IsPrinted rest in
    (d _ (omega arith), (d _ (omega arith), (d _ (omega arith), (d _ (omega arith), ih))))

pub encode_groups-IsQuads : (p : Bytes) → IsQuads (encode_groups p)
unfolding encode_groups
encode_groups-IsQuads [] = nil
encode_groups-IsQuads (a ∷ []) = quad nil
encode_groups-IsQuads (a ∷ b ∷ []) = quad nil
encode_groups-IsQuads (a ∷ b ∷ c ∷ rest) = quad (encode_groups-IsQuads rest)

pub length-encode_groups : (p : Bytes) → length (encode_groups p) ≡ (length p + 2) / 3 * 4
unfolding encode_groups
length-encode_groups [] = omega arith
length-encode_groups (a ∷ []) = omega arith
length-encode_groups (a ∷ b ∷ []) = omega arith
length-encode_groups (a ∷ b ∷ c ∷ rest) = omega (arith, length-encode_groups rest)

pub length-IsQuads : {f : Bytes} → IsQuads f → length f % 4 ≡ 0
length-IsQuads nil = omega arith
length-IsQuads (quad q) = omega (arith, length-IsQuads q)

pub IsQuads-of_length : (f : Bytes) → length f % 4 ≡ 0 → IsQuads f
IsQuads-of_length [] h = nil
IsQuads-of_length (a ∷ []) h = absurd (omega arith)
IsQuads-of_length (a ∷ b ∷ []) h = absurd (omega arith)
IsQuads-of_length (a ∷ b ∷ c ∷ []) h = absurd (omega arith)
IsQuads-of_length (a ∷ b ∷ c ∷ d ∷ rest) h = quad (IsQuads-of_length rest (omega arith))
