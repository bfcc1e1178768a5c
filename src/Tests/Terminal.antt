-- ===== src/Tests/Terminal.antt =====
-- A line with a word and a character of two bytes; a history of two lines; a transcript of four.
use chatbox.Common.{
  ℕ, min, ◌≡◌, refl, true, false, List, [], ◌∷◌, ◌++◌, arith, length, All, Bytes, codes,
}
use mathlib.Core.List.{◌++◌}
use chatbox.Terminal.Editor.{is_continuation, LineEditor, backspace, insert, erase_word}
use chatbox.Terminal.Editor.Boundary.{IsPlaced, starts}
use chatbox.Terminal.Editor.Keys.{
  Key, press_all, press_all-IsPlaced, is_whole, rub_out, put, go_left,
}
use chatbox.Terminal.Editor.Undo.{backspace-insert}
use chatbox.Terminal.Editor.Words.{between, spaced, ends_in_space, erase_word-exact}
use chatbox.Common.{inr}
use chatbox.Helpers.Laws.{has_no}
use chatbox.Terminal.History.Walk.{forth, back, forth-back_draft}
use chatbox.Terminal.Scroll.{
  line_lt, line_before, search_from, halved, shifted, TranscriptLine, Scrollback, Shift, start,
  move_by, last_start,
}
use chatbox.Terminal.Scroll.Anchor.{before, NoneBefore, AreBefore, move_by-stays}

abbrev editor : LineEditor
editor = record { text = codes "good day"; cursor = 5 }

editor-IsPlaced : IsPlaced editor
unfolding starts is_continuation
editor-IsPlaced = record { inside = omega arith; start = refl; cut = refl }

abbrev keys : List Key
keys = put (195 ∷ 169 ∷ []) ∷ go_left ∷ rub_out ∷ []

keys-whole : All (λ key. is_whole key ≡ true) keys
unfolding is_whole starts is_continuation
keys-whole = (refl, (refl, (refl, tt)))

press_all-IsPlaced_example : IsPlaced (press_all 100 editor keys)
press_all-IsPlaced_example = press_all-IsPlaced 100 editor keys keys-whole editor-IsPlaced

backspace-insert_example : backspace (insert editor (195 ∷ 169 ∷ []) 10).0 ≡ editor
unfolding is_continuation
backspace-insert_example =
    backspace-insert editor 195 (169 ∷ []) 10 (omega arith) refl refl (omega arith)

erase_word-exact_example :
    erase_word (between (spaced (codes "good " ++ codes "day") 2) (codes "!"))
    ≡ between (codes "good ") (codes "!")
unfolding has_no starts is_continuation ends_in_space
erase_word-exact_example =
    erase_word-exact (codes "good ") (codes "day") (codes "!") 2 (inr refl) refl refl (λ e. cc e)

abbrev lines : List Bytes
lines = codes "one" ∷ codes "two" ∷ []

forth-back_draft_example :
    forth 2 (back 2 (record { entries = lines; position = 2; draft = [] }, editor)) ≡ (
      record { entries = lines; position = 2; draft = editor.text },
      record { text = editor.text; cursor = length editor.text },
    )
forth-back_draft_example = forth-back_draft lines 1 1 [] editor refl (omega arith)

abbrev line_of : ℕ → TranscriptLine
line_of n = record { message = n; part = 0; text = codes "text"; continuation = false }

abbrev above : List TranscriptLine
above = line_of 1 ∷ []

abbrev below : List TranscriptLine
below = line_of 3 ∷ line_of 4 ∷ []

abbrev bottom : Scrollback
bottom = record { follow = true; message = 0; part = 0 }

-- The first line is evicted, and one line comes.
move_by-stays_example :
    let shown = below ++ (line_of 5 ∷ []) in
    start (move_by bottom (above ++ (line_of 2 ∷ below)) 2 (Shift.up 1)) (line_of 2 ∷ shown) 2
    ≡ min (last_start (line_of 2 ∷ shown) 2) 0
unfolding AreBefore NoneBefore before line_lt shifted last_start start line_before search_from
    halved
move_by-stays_example =
    move_by-stays bottom above (line_of 2) below 2 (Shift.up 1) [] (below ++ (line_of 5 ∷ [])) 2
      refl (omega arith) tt (refl, (refl, (refl, tt)))
