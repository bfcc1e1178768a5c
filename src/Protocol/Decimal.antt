-- ===== src/Protocol/Decimal.antt =====
-- `std::to_string` of an unsigned number and `std::from_chars` over a whole text, of the standard
-- library, as src/protocol/protocol.cpp uses them.
pub mod RoundTrip
use chatbox.Common.{
  ℕ, zero, suc, ◌+◌, ◌-◌, ◌*◌, ◌/◌, ◌%◌, Bool, ◌&&◌, Option, none, some, [], ◌∷◌, ◌++◌, ltb, leb,
  if◌then◌else◌, Bytes,
}

-- The digits, the last one first in the recursion; `n + 1` rounds are enough.
print_digits : ℕ → ℕ → Bytes
print_digits zero n = []
print_digits (suc fuel) n =
    let more = print_digits fuel (n / 10) in (if ltb n 10 then [] else more) ++ (b'0' + n % 10) ∷ []

unfoldable pub to_string : ℕ → Bytes
unfolding print_digits
to_string n = print_digits (suc n) n

abbrev is_digit : ℕ → Bool
is_digit c = leb b'0' c && leb c b'9'

-- The value of a text of digits.
unfoldable pub read_digits : ℕ → Bytes → Option ℕ
read_digits acc [] = some acc
read_digits acc (c ∷ cs) =
    let rest = read_digits (acc * 10 + (c - b'0')) cs in if is_digit c then rest else none

in_range : ℕ → Option ℕ → Option ℕ
in_range bound none = none
in_range bound (some v) = if ltb v bound then some v else none

-- `from_chars` into an unsigned type with values below `bound`: `none` for no digits, a text that is
-- not used up, or a value out of range.
unfoldable pub from_chars : ℕ → Bytes → Option ℕ
unfolding in_range read_digits
from_chars bound [] = none
from_chars bound (c ∷ cs) = in_range bound (read_digits 0 (c ∷ cs))
