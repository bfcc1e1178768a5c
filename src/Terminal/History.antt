-- ===== src/Terminal/History.antt =====
-- `InputHistory` of src/ui/terminal_model.cpp: the lines that were entered, oldest first.
pub mod Walk
use chatbox.Common.{
  drop, ℕ, ◌+◌, ◌-◌, not, ◌&&◌, ◌||◌, List, [], ◌∷◌, ◌++◌, ltb, ◌==◌, if◌then◌else◌, length,
  is_empty, Bytes, text, bytes_eq,
}
use mathlib.Core.List.{◌++◌}
use chatbox.Common.{get_or}
use chatbox.Terminal.Editor.{LineEditor, set}

pub record InputHistory : Type 0 where
  pub entries : List Bytes
  pub position : ℕ
  pub draft : Bytes

pub reset : InputHistory → InputHistory
reset h = record h { position = length h.entries; draft = [] }

pub remember : InputHistory → Bytes → InputHistory
unfolding reset
remember h text =
    let latest = get_or h.entries (length h.entries - 1) [] in
    let added =
      if not (is_empty text) && (is_empty h.entries || not (bytes_eq latest text))
      then h.entries ++ (text ∷ [])
      else h.entries in
    reset (record h { entries = if ltb 100 (length added) then drop 1 added else added })

-- `previous` and `next`, which also set the editor's line.
pub previous : InputHistory × LineEditor → InputHistory × LineEditor
previous (h, e) =
    let kept = if h.position == length h.entries then e.text else h.draft in
    if h.position == 0 then (record h { draft = kept }, e) else (
      record h { position = h.position - 1; draft = kept },
      set e (get_or h.entries (h.position - 1) []),
    )

pub next : InputHistory × LineEditor → InputHistory × LineEditor
next (h, e) =
    if ltb h.position (length h.entries)
    then (
      record h { position = h.position + 1 },
      set e (
          if h.position + 1 == length h.entries
          then h.draft
          else get_or h.entries (h.position + 1) []),
    )
    else (h, e)
