-- ===== src/Protocol/Base64/RoundTrip.antt =====
-- `decode_groups` undoes `encode_groups`, group by group.
use chatbox.Common.{
  ℕ, ◌+◌, ◌*◌, ◌/◌, ◌%◌, ◌<◌, ◌≡◌, refl, ap, ◌∙◌, Bool, true, [], ◌∷◌, ◌++◌, arith, Bytes, AreBytes,
  is_empty,
}
use mathlib.Core.Path.{ap₂}
use chatbox.Protocol.Outcome.{ok}
use chatbox.Protocol.Base64.{base64_char, encode_groups, decode_group, decode_groups}
use chatbox.Protocol.Base64.Alphabet.{base64_value-base64_char, base64_char-IsPrinted}

-- The group of four characters that stands for three bytes.
group_full :
    (final : Bool) (v0 v1 v2 v3 : ℕ)
    → v0 < 64
    → v1 < 64
    → v2 < 64
    → v3 < 64
    → decode_group final (base64_char v0) (base64_char v1) (base64_char v2) (base64_char v3)
      ≡ ok ((v0 * 4 + v1 / 16) ∷ ((v1 * 16 + v2 / 4) % 256) ∷ ((v2 * 64 + v3) % 256) ∷ [])
unfolding decode_group
group_full final v0 v1 v2 v3 h0 h1 h2 h3 = ground (
  arith,
  base64_value-base64_char v0 h0,
  base64_value-base64_char v1 h1,
  base64_value-base64_char v2 h2,
  base64_value-base64_char v3 h3,
  base64_char-IsPrinted v2 h2,
  base64_char-IsPrinted v3 h3,
)

group_two :
    (v0 v1 v2 : ℕ)
    → v0 < 64
    → v1 < 64
    → v2 < 64
    → v2 % 4 ≡ 0
    → decode_group true (base64_char v0) (base64_char v1) (base64_char v2) b'='
      ≡ ok ((v0 * 4 + v1 / 16) ∷ ((v1 * 16 + v2 / 4) % 256) ∷ [])
unfolding decode_group
group_two v0 v1 v2 h0 h1 h2 e = ground (
  arith,
  base64_value-base64_char v0 h0,
  base64_value-base64_char v1 h1,
  base64_value-base64_char v2 h2,
  base64_char-IsPrinted v2 h2,
)

group_one :
    (v0 v1 : ℕ)
    → v0 < 64
    → v1 < 64
    → v1 % 16 ≡ 0
    → decode_group true (base64_char v0) (base64_char v1) b'=' b'=' ≡ ok ((v0 * 4 + v1 / 16) ∷ [])
unfolding decode_group
group_one v0 v1 h0 h1 e =
    ground (arith, base64_value-base64_char v0 h0, base64_value-base64_char v1 h1)

-- One round of the decoder's loop.
decode_groups_round :
    (c0 c1 c2 c3 : ℕ) (rest : Bytes) (out later : Bytes)
    → decode_group (is_empty rest) c0 c1 c2 c3 ≡ ok out
    → decode_groups rest ≡ ok later
    → decode_groups (c0 ∷ c1 ∷ c2 ∷ c3 ∷ rest) ≡ ok (out ++ later)
unfolding decode_groups
decode_groups_round c0 c1 c2 c3 rest out later e f = rw (e, f)

-- Bytes may be replaced by equal ones in what a group gives.
regroup : (a b c x y z : ℕ) → x ≡ a → y ≡ b → z ≡ c → x ∷ y ∷ z ∷ [] ≡ a ∷ b ∷ c ∷ []
regroup a b c x y z p q r = cc

pub decode_groups-encode_groups : (p : Bytes) → AreBytes p → decode_groups (encode_groups p) ≡ ok p
unfolding encode_groups
decode_groups-encode_groups [] h = unfold decode_groups in refl
decode_groups-encode_groups (a ∷ []) h =
    decode_groups_round _ _ _ _ [] (a ∷ []) []
      (group_one _ _ (omega arith) (omega arith) (omega arith)
        ∙ ap (λ x. ok (x ∷ [])) (omega arith))
      (unfold decode_groups in refl)
decode_groups-encode_groups (a ∷ b ∷ []) h =
    decode_groups_round _ _ _ _ [] (a ∷ b ∷ []) []
      (group_two _ _ _ (omega arith) (omega arith) (omega arith) (omega arith)
        ∙ ap₂ (λ x y. ok (x ∷ y ∷ [])) (omega arith) (omega arith))
      (unfold decode_groups in refl)
decode_groups-encode_groups (a ∷ b ∷ c ∷ rest) h =
    decode_groups_round _ _ _ _ (encode_groups rest) (a ∷ b ∷ c ∷ []) rest
      (group_full _ _ _ _ _ (omega arith) (omega arith) (omega arith) (omega arith)
        ∙ ap ok (regroup a b c _ _ _ (omega arith) (omega arith) (omega arith)))
      (decode_groups-encode_groups rest h.1.1.1)
