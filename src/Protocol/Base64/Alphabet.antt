-- ===== src/Protocol/Base64/Alphabet.antt =====
-- `BASE64_CHARS` and `base64_value` are inverse to each other.
use chatbox.Common.{
  ℕ, ◌<◌, ◌≡◌, refl, ◌≢◌, Bool, true, false, not, ◌&&◌, none, some, arith, ltb, ◌==◌, holds_below,
  holds_below-at,
}
use chatbox.Protocol.Base64.{base64_char, base64_value}

-- The value of a character of the alphabet, and its own character.
abbrev char_checks : ℕ → Bool
char_checks i =
    elim (base64_value (base64_char i)) [ none ↦ false | some v ↦ v == i ]
    && ltb 32 (base64_char i)
    && not (base64_char i == b'=')

abbrev value_checks : ℕ → Bool
value_checks c = elim (base64_value c) [ none ↦ true | some v ↦ ltb v 64 && base64_char v == c ]

chars_table : holds_below char_checks 64 ≡ true
unfolding holds_below base64_value base64_char
chars_table = refl

values_table : holds_below value_checks 128 ≡ true
unfolding holds_below base64_value base64_char
values_table = refl

pub base64_value-base64_char : (i : ℕ) → i < 64 → base64_value (base64_char i) ≡ some i
base64_value-base64_char i h = ground (arith, holds_below-at char_checks 64 i chars_table h)

-- No character of the alphabet is a padding sign, a line end or another control character.
pub base64_char-IsPrinted : (i : ℕ) → i < 64 → (32 < base64_char i) × (base64_char i ≢ b'=')
base64_char-IsPrinted i h = ground (arith, holds_below-at char_checks 64 i chars_table h)

base64_value-lt : (c v : ℕ) → base64_value c ≡ some v → c < 128
unfolding base64_value
base64_value-lt c v e = ground arith

pub base64_char-base64_value : (c v : ℕ) → base64_value c ≡ some v → (v < 64) × (base64_char v ≡ c)
base64_char-base64_value c v e =
    ground (arith, holds_below-at value_checks 128 c values_table (base64_value-lt c v e))
