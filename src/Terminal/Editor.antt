-- ===== src/Terminal/Editor.antt =====
-- `LineEditor` of src/ui/terminal_model.cpp: a text in UTF-8 and a cursor, a number of bytes.
pub mod Boundary
pub mod Keys
pub mod Undo
pub mod Words
use chatbox.Common.{
  drop, take, get_or, ℕ, zero, suc, ◌+◌, ◌-◌, ◌/◌, ◌%◌, Bool, true, false, ◌++◌, ltb, leb, ◌==◌,
  if◌then◌else◌, length, Bytes, text,
}
use mathlib.Core.List.{◌++◌}

pub record LineEditor : Type 0 where
  pub text : Bytes
  pub cursor : ℕ

-- `(byte & 0xc0) == 0x80`: a byte of a character after its first.
unfoldable pub is_continuation : ℕ → Bool
is_continuation b = b / 64 % 4 == 2

-- The loops `while (at && ...) --at` and `while (at < text.size() && ...) ++at`; the second one on
-- the number of bytes that are left.
skip_back : Bytes → ℕ → ℕ
skip_back text zero = zero
skip_back text (suc at) =
    if is_continuation (get_or text (suc at) 0) then skip_back text at else suc at

skip_forward : Bytes → ℕ → ℕ → ℕ
skip_forward text at zero = at
skip_forward text at (suc left) =
    if is_continuation (get_or text at 0) then skip_forward text (at + 1) left else at

pub previous_char : Bytes → ℕ → ℕ
unfolding skip_back
previous_char text zero = 0
previous_char text (suc at) = skip_back text at

pub next_char : Bytes → ℕ → ℕ
unfolding skip_forward
next_char text at =
    if leb (length text) at
    then length text
    else skip_forward text (at + 1) (length text - (at + 1))

-- `std::string::erase` of some bytes from a position on, and `insert`.
abbrev pub erase : Bytes → ℕ → ℕ → Bytes
erase text start count = take start text ++ drop (start + count) text

abbrev pub insert_at : Bytes → ℕ → Bytes → Bytes
insert_at text at value = take at text ++ (value ++ drop at text)

unfoldable pub set : LineEditor → Bytes → LineEditor
set e value = record { text = value; cursor = length value }

pub left : LineEditor → LineEditor
unfolding previous_char
left e = record e { cursor = previous_char e.text e.cursor }

pub right : LineEditor → LineEditor
unfolding next_char
right e = record e { cursor = next_char e.text e.cursor }

pub backspace : LineEditor → LineEditor
unfolding previous_char
backspace e =
    let start = previous_char e.text e.cursor in
    record { text = erase e.text start (e.cursor - start); cursor = start }

pub erase_forward : LineEditor → LineEditor
unfolding next_char
erase_forward e = record e { text = erase e.text e.cursor (next_char e.text e.cursor - e.cursor) }

-- The byte before the cursor is a space.
after_space : LineEditor → Bool
after_space e = get_or e.text (e.cursor - 1) 0 == b' '

-- The two loops of `erase_word`, on fuel.
erase_while : Bool → ℕ → LineEditor → LineEditor
unfolding backspace after_space
erase_while on_space zero e = e
erase_while on_space (suc fuel) e =
    let rest = erase_while on_space fuel (backspace e) in
    if e.cursor == 0
    then e
    else if on_space
    then (if after_space e then rest else e)
    else (if after_space e then e else rest)

-- Each turn moves the cursor back, so that the cursor is fuel enough.
pub erase_word : LineEditor → LineEditor
unfolding erase_while
erase_word e = let trimmed = erase_while true e.cursor e in erase_while false trimmed.cursor trimmed

pub insert : LineEditor → Bytes → ℕ → LineEditor × Bool
insert e value limit =
    if ltb limit (length e.text + length value)
    then (e, false)
    else (record { text = insert_at e.text e.cursor value; cursor = e.cursor + length value }, true)
