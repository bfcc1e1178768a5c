-- ===== src/Protocol/Base64/Canonical.antt =====
-- `encode_groups` undoes `decode_groups`: the decoder accepts canonical text only.
use chatbox.Common.{
  All-append, ℕ, ◌+◌, ◌*◌, ◌/◌, ◌%◌, ◌<◌, ◌≡◌, refl, ap, Bool, true, false, [], ◌∷◌, ◌++◌, Option,
  none, some, arith, ◌==◌, if◌then◌else◌, Bytes, AreBytes, ◌⊎◌, inl, inr, length, is_empty,
}
use mathlib.Core.List.{append-nil}
use chatbox.Protocol.Outcome.{ok, bind-eq-ok}
use chatbox.Protocol.Base64.{
  valid, base64_char, base64_value, encode_groups, decode_values, decode_group, decode_groups,
}
use chatbox.Protocol.Base64.Alphabet.{base64_char-base64_value}
use chatbox.Protocol.Base64.Shape.{IsQuads, nil, quad}

valid-eq-ok : (o : Option ℕ) {v : ℕ} → valid o ≡ ok v → o ≡ some v
valid-eq-ok none e = cc
valid-eq-ok (some w) e = cc

-- What a group decodes to is written back as the same four characters. A short group is the last.
abbrev WritesBack : Bool → Bytes → ℕ → ℕ → ℕ → ℕ → Type 0
WritesBack final out c0 c1 c2 c3 =
    ((later : Bytes) → encode_groups (out ++ later) ≡ c0 ∷ c1 ∷ c2 ∷ c3 ∷ encode_groups later)
    ⊎ ((final ≡ true) × (encode_groups out ≡ c0 ∷ c1 ∷ c2 ∷ c3 ∷ []))

abbrev pad_or : Bool → ℕ → ℕ
pad_or pad v = if pad then b'=' else base64_char v

chars4 :
    (a b c d a' b' c' d' : ℕ) (rest : Bytes)
    → a ≡ a'
    → b ≡ b'
    → c ≡ c'
    → d ≡ d'
    → a ∷ b ∷ c ∷ d ∷ rest ≡ a' ∷ b' ∷ c' ∷ d' ∷ rest
chars4 a b c d a' b' c' d' rest p q r s = cc

encode_groups_full :
    (v0 v1 v2 v3 : ℕ) (later : Bytes)
    → v0 < 64
    → v1 < 64
    → v2 < 64
    → v3 < 64
    → encode_groups
        (((v0 * 4 + v1 / 16) % 256) ∷ ((v1 * 16 + v2 / 4) % 256) ∷ ((v2 * 64 + v3) % 256) ∷ later)
      ≡ base64_char v0 ∷ base64_char v1 ∷ base64_char v2 ∷ base64_char v3 ∷ encode_groups later
unfolding encode_groups
encode_groups_full v0 v1 v2 v3 later h0 h1 h2 h3 =
    chars4 _ _ _ _ _ _ _ _ (encode_groups later) (ap base64_char (omega arith))
      (ap base64_char (omega arith)) (ap base64_char (omega arith)) (ap base64_char (omega arith))

encode_groups_two :
    (v0 v1 v2 : ℕ)
    → v0 < 64
    → v1 < 64
    → v2 < 64
    → v2 % 4 ≡ 0
    → encode_groups (((v0 * 4 + v1 / 16) % 256) ∷ ((v1 * 16 + v2 / 4) % 256) ∷ [])
      ≡ base64_char v0 ∷ base64_char v1 ∷ base64_char v2 ∷ b'=' ∷ []
unfolding encode_groups
encode_groups_two v0 v1 v2 h0 h1 h2 e =
    chars4 _ _ _ _ _ _ _ _ [] (ap base64_char (omega arith)) (ap base64_char (omega arith))
      (ap base64_char (omega arith)) refl

encode_groups_one :
    (v0 v1 : ℕ)
    → v0 < 64
    → v1 < 64
    → v1 % 16 ≡ 0
    → encode_groups (((v0 * 4 + v1 / 16) % 256) ∷ [])
      ≡ base64_char v0 ∷ base64_char v1 ∷ b'=' ∷ b'=' ∷ []
unfolding encode_groups
encode_groups_one v0 v1 h0 h1 e =
    chars4 _ _ _ _ _ _ _ _ [] (ap base64_char (omega arith)) (ap base64_char (omega arith)) refl
      refl

decode_values-WritesBack :
    (final pad2 pad3 : Bool) (v0 v1 v2 v3 : ℕ) (out : Bytes)
    → v0 < 64
    → v1 < 64
    → v2 < 64
    → v3 < 64
    → decode_values final pad2 pad3 v0 v1 v2 v3 ≡ ok out
    → WritesBack final out (base64_char v0) (base64_char v1) (pad_or pad2 v2) (pad_or pad3 v3)
unfolding decode_values
decode_values-WritesBack true true true v0 v1 v2 v3 out h0 h1 h2 h3 e =
    inr (refl, ground (arith, encode_groups_one v0 v1 h0 h1))
decode_values-WritesBack true true false v0 v1 v2 v3 out h0 h1 h2 h3 e = cc
decode_values-WritesBack true false true v0 v1 v2 v3 out h0 h1 h2 h3 e =
    inr (refl, ground (arith, encode_groups_two v0 v1 v2 h0 h1 h2))
decode_values-WritesBack false true true v0 v1 v2 v3 out h0 h1 h2 h3 e = cc
decode_values-WritesBack false true false v0 v1 v2 v3 out h0 h1 h2 h3 e = cc
decode_values-WritesBack false false true v0 v1 v2 v3 out h0 h1 h2 h3 e = cc
decode_values-WritesBack final false false v0 v1 v2 v3 out h0 h1 h2 h3 e =
    inl λ later. ground (arith, encode_groups_full v0 v1 v2 v3 later h0 h1 h2 h3)

decode_values-AreBytes :
    (final pad2 pad3 : Bool) (v0 v1 v2 v3 : ℕ) (out : Bytes)
    → decode_values final pad2 pad3 v0 v1 v2 v3 ≡ ok out
    → AreBytes out × (0 < length out)
unfolding decode_values
decode_values-AreBytes final pad2 pad3 v0 v1 v2 v3 out e = ground arith

pad_or_lem :
    (c v : ℕ)
    → (if c == b'=' then some 0 else base64_value c) ≡ some v
    → (v < 64) × (pad_or (c == b'=') v ≡ c)
pad_or_lem c v e = ground (arith, base64_char-base64_value c v)

abbrev Decoded : Bool → Bytes → ℕ → ℕ → ℕ → ℕ → Type 0
Decoded final out c0 c1 c2 c3 = WritesBack final out c0 c1 c2 c3 × (AreBytes out × (0 < length out))

decode_group-Decoded :
    (final : Bool) (c0 c1 c2 c3 : ℕ) (out : Bytes)
    → decode_group final c0 c1 c2 c3 ≡ ok out
    → Decoded final out c0 c1 c2 c3
unfolding decode_group
decode_group-Decoded final c0 c1 c2 c3 out e =
    let (v0, e0, r0) = bind-eq-ok (valid (base64_value c0)) _ e in
    let (v1, e1, r1) = bind-eq-ok (valid (base64_value c1)) _ r0 in
    let (v2, e2, r2) = bind-eq-ok (valid (if c2 == b'=' then some 0 else base64_value c2)) _ r1 in
    let (v3, e3, r3) = bind-eq-ok (valid (if c3 == b'=' then some 0 else base64_value c3)) _ r2 in
    let (h0, k0) = base64_char-base64_value c0 v0 (valid-eq-ok _ e0) in
    let (h1, k1) = base64_char-base64_value c1 v1 (valid-eq-ok _ e1) in
    let (h2, k2) = pad_or_lem c2 v2 (valid-eq-ok _ e2) in
    let (h3, k3) = pad_or_lem c3 v3 (valid-eq-ok _ e3) in
    (
      along k0 k1 k2 k3
          (decode_values-WritesBack final (c2 == b'=') (c3 == b'=') v0 v1 v2 v3 out h0 h1 h2 h3 r3),
      decode_values-AreBytes final (c2 == b'=') (c3 == b'=') v0 v1 v2 v3 out r3,
    )
  where
    along :
        {a b c d a' b' c' d' : ℕ}
        → a ≡ a'
        → b ≡ b'
        → c ≡ c'
        → d ≡ d'
        → WritesBack final out a b c d
        → WritesBack final out a' b' c' d'
    along p q r s w = rw (← p, ← q, ← r, ← s) w

-- The decoder accepts only what the encoder writes.
pub encode_groups-decode_groups :
    (f : Bytes) (p : Bytes) → IsQuads f → decode_groups f ≡ ok p → encode_groups p ≡ f
unfolding decode_groups
encode_groups-decode_groups f p nil e = unfold encode_groups in ground arith
encode_groups-decode_groups f p (quad {c0} {c1} {c2} {c3} {rest} q) e =
    let (out, e1, r1) = bind-eq-ok (decode_group (is_empty rest) c0 c1 c2 c3) _ e in
    let (later, e2, r2) = bind-eq-ok (decode_groups rest) _ r1 in
    let ih = encode_groups-decode_groups rest later q e2 in
    join rest out later p (decode_group-Decoded (is_empty rest) c0 c1 c2 c3 out e1).0 ih e2 r2
  where
    join :
        (rest out later p : Bytes)
        → WritesBack (is_empty rest) out c0 c1 c2 c3
        → encode_groups later ≡ rest
        → decode_groups rest ≡ ok later
        → ok (out ++ later) ≡ ok p
        → encode_groups p ≡ c0 ∷ c1 ∷ c2 ∷ c3 ∷ rest
    join rest out later p (inl w) ih e r = ground (arith, w later)
    join [] out later p (inr (fin, w)) ih e r = ground (arith, append-nil out, w)
    join (x ∷ rest) out later p (inr (fin, w)) ih e r = cc

-- Whatever decodes is a string of bytes.
pub decode_groups-AreBytes :
    (f : Bytes) (p : Bytes) → IsQuads f → decode_groups f ≡ ok p → AreBytes p
unfolding decode_groups
decode_groups-AreBytes f p nil e = ground arith
decode_groups-AreBytes f p (quad {c0} {c1} {c2} {c3} {rest} q) e =
    let (out, e1, r1) = bind-eq-ok (decode_group (is_empty rest) c0 c1 c2 c3) _ e in
    let (later, e2, r2) = bind-eq-ok (decode_groups rest) _ r1 in
    let here = (decode_group-Decoded (is_empty rest) c0 c1 c2 c3 out e1).1.0 in
    let all = All-append (λ b. b < 256) out later here (decode_groups-AreBytes rest later q e2) in
    ground (arith, all)
