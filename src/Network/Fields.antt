-- ===== src/Network/Fields.antt =====
-- The fields of the directory's requests: src/network/server_browser.cpp, with `std::stoi` of the
-- standard library for a text in the "C" locale.
pub mod Laws
use chatbox.Common.{
  ℕ, suc, ◌+◌, ◌-◌, ◌*◌, ◌%◌, ◌^◌, Bool, true, false, not, ◌&&◌, ◌||◌, Option, none, some, [], ◌∷◌,
  ◌++◌, ltb, leb, ◌==◌, if◌then◌else◌, length, Bytes,
}
use chatbox.Protocol.Decimal.{to_string}
use chatbox.Protocol.Rules.{iscntrl, isspace, isdigit}

-- A number of type `int` and how many bytes of the text it took.
pub record Parsed : Type 0 where
  pub is_negative : Bool
  pub magnitude : ℕ
  pub consumed : ℕ

-- The leading digits: their value behind `value`, and how many there are.
scan_digits : ℕ → Bytes → ℕ × ℕ
scan_digits value [] = (value, 0)
scan_digits value (c ∷ cs) =
    let (rest, count) = scan_digits (value * 10 + (c - b'0')) cs in
    if isdigit c then (rest, suc count) else (value, 0)

-- No digits, or a value that an `int` does not hold, is an exception.
checked : Bool → ℕ → ℕ × ℕ → Option Parsed
checked is_negative before (value, count) =
    if count == 0
    then none
    else if ltb (if is_negative then 2 ^ 31 else 2 ^ 31 - 1) value
    then none
    else some (record { is_negative = is_negative; magnitude = value; consumed = before + count })

stoi_sign : ℕ → Bytes → Option Parsed
unfolding scan_digits checked
stoi_sign before [] = none
stoi_sign before (c ∷ cs) =
    if c == b'-'
    then checked true (suc before) (scan_digits 0 cs)
    else if c == b'+'
    then checked false (suc before) (scan_digits 0 cs)
    else checked false before (scan_digits 0 (c ∷ cs))

stoi_from : ℕ → Bytes → Option Parsed
unfolding stoi_sign
stoi_from before [] = none
stoi_from before (c ∷ cs) =
    let rest = stoi_from (suc before) cs in if isspace c then rest else stoi_sign before (c ∷ cs)

unfoldable pub stoi : Bytes → Option Parsed
unfolding stoi_from
stoi s = stoi_from 0 s

abbrev pub port_bound : ℕ
port_bound = 65536

as_u16 : Bytes → Option Parsed → Option ℕ
as_u16 s none = none
as_u16 s (some parsed) =
    if not (parsed.consumed == length s)
      || parsed.is_negative && not (parsed.magnitude == 0)
      || leb port_bound parsed.magnitude
    then none
    else some parsed.magnitude

-- `none` for `false`.
unfoldable pub parse_u16_field : Bytes → Option ℕ
unfolding as_u16
parse_u16_field s = as_u16 s (stoi s)

-- `std::max(0, std::stoi(s))`.
not_below_zero : Parsed → ℕ
not_below_zero parsed = if parsed.is_negative then 0 else parsed.magnitude

-- The same, and 0 for an exception.
unfoldable pub count_field : Bytes → ℕ
unfolding not_below_zero
count_field s = elim (stoi s) [ none ↦ 0 | some parsed ↦ not_below_zero parsed ]

-- The loop of `sanitize_browser_field`, with the text so far.
sanitize_from : ℕ → Bytes → Bytes → Bytes
sanitize_from max_len out [] = out
sanitize_from max_len out (ch ∷ chs) =
    let rest =
      sanitize_from max_len (if iscntrl ch || ch == b'|' then out else out ++ (ch ∷ [])) chs in
    if leb max_len (length out) then out else rest

unfoldable pub sanitize_browser_field : Bytes → ℕ → Bytes
unfolding sanitize_from
sanitize_browser_field s max_len = sanitize_from max_len [] s

unfoldable pub browser_entry_key : Bytes → ℕ → Bytes → Bytes
browser_entry_key host port name = host ++ (b'|' ∷ (to_string port ++ (b'|' ∷ name)))

-- `std::stoul`, with 64 bits: a sign is taken modulo 2^64, and what follows the digits is ignored.
unsigned_of : Bool → ℕ × ℕ → Option ℕ
unsigned_of is_negative (value, count) =
    if count == 0 || leb (2 ^ 64) value
    then none
    else some (if is_negative then (2 ^ 64 - value) % 2 ^ 64 else value)

unfoldable pub stoul : Bytes → Option ℕ
unfolding unsigned_of scan_digits
stoul [] = none
stoul (c ∷ cs) =
    let rest = stoul cs in
    if isspace c
    then rest
    else if c == b'-'
    then unsigned_of true (scan_digits 0 cs)
    else if c == b'+'
    then unsigned_of false (scan_digits 0 cs)
    else unsigned_of false (scan_digits 0 (c ∷ cs))
