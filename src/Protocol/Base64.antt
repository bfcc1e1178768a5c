-- ===== src/Protocol/Base64.antt =====
-- The loops of `encode_frame` and `decode_frame` in src/protocol/protocol.cpp, and `base64_value`.
-- A shift is a product or a quotient by a power of two, `& (2^k - 1)` is `% 2^k`, and `|` joins
-- values with no common bit, so it is `+`; a cast to `char` is `% 256`.
pub mod Alphabet
pub mod RoundTrip
pub mod Shape
pub mod Canonical
use chatbox.Common.{
  ℕ, ◌+◌, ◌-◌, ◌*◌, ◌/◌, ◌%◌, Bool, not, ◌&&◌, ◌||◌, [], ◌∷◌, ◌++◌, Option, none, some, leb, ◌==◌,
  if◌then◌else◌, Bytes, codes, get_or, is_empty,
}
use chatbox.Protocol.Outcome.{Result, ok, failure, ◌>>=◌, invalid_base64}

abbrev pub base64_chars : Bytes
base64_chars = codes "ABCDEFGHIJKLMNOPQRSTUVWXYZabcdefghijklmnopqrstuvwxyz0123456789+/"

-- `BASE64_CHARS[i]`, for `i < 64`.
unfoldable pub base64_char : ℕ → ℕ
base64_char i = get_or base64_chars i 0

abbrev within : ℕ → ℕ → ℕ → Bool
within lo hi c = leb lo c && leb c hi

-- `none` is the source's -1.
unfoldable pub base64_value : ℕ → Option ℕ
base64_value c =
    if within b'A' b'Z' c
    then some (c - b'A')
    else if within b'a' b'z' c
    then some (c - b'a' + 26)
    else if within b'0' b'9' c
    then some (c - b'0' + 52)
    else if c == b'+'
    then some 62
    else if c == b'/'
    then some 63
    else none

abbrev block : ℕ → ℕ → ℕ → ℕ
block first second third = first * 65536 + second * 256 + third

abbrev sextet : ℕ → ℕ → ℕ
sextet b shifted = base64_char (b / shifted % 64)

-- One round of the encoder for each three bytes; a short last group is padded.
unfoldable pub encode_groups : Bytes → Bytes
encode_groups [] = []
encode_groups (a ∷ []) = let b = block a 0 0 in sextet b 262144 ∷ sextet b 4096 ∷ b'=' ∷ b'=' ∷ []
encode_groups (a ∷ b ∷ []) =
    let b = block a b 0 in sextet b 262144 ∷ sextet b 4096 ∷ sextet b 64 ∷ b'=' ∷ []
encode_groups (a ∷ b ∷ c ∷ rest) =
    let b = block a b c in
    sextet b 262144 ∷ sextet b 4096 ∷ sextet b 64 ∷ sextet b 1 ∷ encode_groups rest

-- The bytes of a group whose four values are known. `v2` and `v3` are 0 under a padding sign.
decode_values : Bool → Bool → Bool → ℕ → ℕ → ℕ → ℕ → Result Bytes
decode_values final pad2 pad3 v0 v1 v2 v3 =
    if pad2 && not pad3 || (pad2 || pad3) && not final
    then failure invalid_base64 "Frame contains invalid Base64 padding or characters"
    else if pad2 && not (v1 % 16 == 0) || pad3 && not pad2 && not (v2 % 4 == 0)
    then failure invalid_base64 "Frame uses non-canonical Base64 padding bits"
    else ok (
        ((v0 * 4 + v1 / 16) % 256)
        ∷ (if pad2
            then []
            else ((v1 * 16 + v2 / 4) % 256) ∷ (if pad3 then [] else ((v2 * 64 + v3) % 256) ∷ [])))

-- `v < 0` of any of the four refuses the group.
abbrev valid : Option ℕ → Result ℕ
valid none = failure invalid_base64 "Frame contains invalid Base64 padding or characters"
valid (some v) = ok v

-- One round of the decoder.
unfoldable pub decode_group : Bool → ℕ → ℕ → ℕ → ℕ → Result Bytes
unfolding decode_values
decode_group final c0 c1 c2 c3 = do
  let pad2 = c2 == b'='
  let pad3 = c3 == b'='
  v0 ← valid (base64_value c0)
  v1 ← valid (base64_value c1)
  v2 ← valid (if pad2 then some 0 else base64_value c2)
  v3 ← valid (if pad3 then some 0 else base64_value c3)
  decode_values final pad2 pad3 v0 v1 v2 v3

-- The loop over groups of four; `decode_frame` has checked that the length is a multiple of four.
unfoldable pub decode_groups : Bytes → Result Bytes
decode_groups (c0 ∷ c1 ∷ c2 ∷ c3 ∷ rest) = do
  out ← decode_group (is_empty rest) c0 c1 c2 c3
  later ← decode_groups rest
  ok (out ++ later)
decode_groups _ = ok []
