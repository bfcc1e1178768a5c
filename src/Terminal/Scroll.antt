-- ===== src/Terminal/Scroll.antt =====
-- `Scrollback` of src/ui/terminal_model.cpp: the part of the transcript that is shown. A height below
-- one counts as one; a shift is an `int`, up or down. The sizes are taken to fit an `int`.
pub mod Anchor
use chatbox.Common.{
  ℕ, zero, suc, ◌+◌, ◌-◌, ◌/◌, min, max, Bool, true, false, ◌&&◌, ◌||◌, Option, none, some, List,
  ltb, ◌==◌, if◌then◌else◌, length, Bytes, text,
}
use chatbox.Common.{get_elem?}

pub record TranscriptLine : Type 0 where
  pub message : ℕ
  pub part : ℕ
  pub text : Bytes
  pub continuation : Bool

pub record Scrollback : Type 0 where
  pub follow : Bool
  pub message : ℕ
  pub part : ℕ

pub data Shift : Type 0 where
  up down : ℕ → Shift

-- The order of pairs: `std::pair{line.message, line.part} < anchor`.
unfoldable pub line_lt : TranscriptLine → ℕ → ℕ → Bool
line_lt line message part =
    ltb line.message message || (line.message == message && ltb line.part part)

-- The line at a position is before the anchor.
unfoldable pub line_before : List TranscriptLine → ℕ → ℕ → ℕ → Bool
line_before lines message part at = elim (get_elem? lines at) [
  | none ↦ false
  | some line ↦ line_lt line message part
]

-- One turn of the binary search of `std::lower_bound`: the first position and the number of
-- positions that are left.
unfoldable pub halved : (ℕ → Bool) → ℕ → ℕ → ℕ × ℕ
halved is_before first count =
    let half = count / 2 in
    if is_before (first + half) then (first + half + 1, count - half - 1) else (first, half)

unfoldable pub search_from : (ℕ → Bool) → ℕ → ℕ → ℕ → ℕ
unfolding halved
search_from is_before zero first count = first
search_from is_before (suc fuel) first count =
    let next = halved is_before first count in
    let found = search_from is_before fuel next.0 next.1 in if count == 0 then first else found

-- `std::lower_bound`: the first line that is not before the anchor, if the lines that are before it
-- come first. Each turn shortens the range, so that the number of lines is fuel enough.
pub lower_bound : List TranscriptLine → ℕ → ℕ → ℕ
unfolding line_before search_from
lower_bound lines message part =
    search_from (line_before lines message part) (length lines) 0 (length lines)

-- The start that shows the end of the transcript.
unfoldable pub last_start : List TranscriptLine → ℕ → ℕ
last_start lines height = length lines - max 1 height

unfoldable pub start : Scrollback → List TranscriptLine → ℕ → ℕ
unfolding last_start lower_bound
start s lines height =
    if s.follow
    then last_start lines height
    else min (last_start lines height) (lower_bound lines s.message s.part)

unfoldable pub shifted : ℕ → ℕ → Shift → ℕ
shifted last from (up n) = min last (from - n)
shifted last from (down n) = min last (from + n)

-- The anchor at a line, which is there unless the transcript is empty.
anchored : Scrollback → Bool → Option TranscriptLine → Scrollback
anchored s follow none = s
anchored s follow (some line) = record { follow = follow; message = line.message; part = line.part }

pub move_by : Scrollback → List TranscriptLine → ℕ → Shift → Scrollback
unfolding start shifted last_start anchored
move_by s lines height delta =
    let last = last_start lines height in
    let target = shifted last (start s lines height) delta in
    anchored s (target == last) (get_elem? lines target)

pub latest : Scrollback → Scrollback
latest s = record s { follow = true }
