-- ===== src/Terminal/History/Walk.antt =====
-- A walk back through the history and forth again.
use chatbox.Common.{
  ℕ, zero, suc, ◌+◌, ◌-◌, ◌≤◌, ◌<◌, ◌≡◌, refl, ap, ◌∙◌, true, false, List, [], arith, ltb, ◌==◌,
  length, Bytes,
}
use chatbox.Common.{get_or}
use chatbox.Terminal.Editor.{LineEditor, set}
use chatbox.Terminal.History.{InputHistory, previous, next}

pub back : ℕ → InputHistory × LineEditor → InputHistory × LineEditor
back zero s = s
back (suc n) s = back n (previous s)

pub forth : ℕ → InputHistory × LineEditor → InputHistory × LineEditor
forth zero s = s
forth (suc n) s = next (forth n s)

-- The state in the midst of the history: the line of the editor is the entry at the position.
at_entry : List Bytes → ℕ → Bytes → InputHistory × LineEditor
at_entry entries position draft = (
  record { entries = entries; position = position; draft = draft },
  record { text = get_or entries position []; cursor = length (get_or entries position []) },
)

module _ (entries : List Bytes) (draft : Bytes) where
  previous-at_entry :
      (p : ℕ)
      → suc p < length entries
      → previous (at_entry entries (suc p) draft) ≡ at_entry entries p draft
  unfolding previous at_entry set
  previous-at_entry p h = rw (apart, positive, pred) refl
    where
      apart : (suc p == length entries) ≡ false
      apart = ground (arith, h)

      positive : (suc p == 0) ≡ false
      positive = ground arith

      pred : suc p - 1 ≡ p
      pred = omega arith

  next-at_entry :
      (p : ℕ)
      → suc p < length entries
      → next (at_entry entries p draft) ≡ at_entry entries (suc p) draft
  unfolding next at_entry set
  next-at_entry p h = rw (inside, succ, apart) refl
    where
      inside : ltb p (length entries) ≡ true
      inside = ground (arith, h)

      succ : p + 1 ≡ suc p
      succ = omega arith

      apart : (suc p == length entries) ≡ false
      apart = ground (arith, h)

  forth-back :
      (n p : ℕ)
      → n ≤ p
      → p < length entries
      → forth n (back n (at_entry entries p draft)) ≡ at_entry entries p draft
  unfolding forth back
  forth-back zero p h k = refl
  forth-back (suc n) zero h k = absurd (omega (arith, h))
  forth-back (suc n) (suc p) h k =
      ap (λ s. next (forth n (back n s))) (previous-at_entry p k)
      ∙ ap next (forth-back n p (omega (arith, h)) (omega (arith, k)))
      ∙ next-at_entry p k

  -- The first step back keeps the line that is being typed; the last step forth brings it back.
  previous-newest :
      (p : ℕ) (old : Bytes) (e : LineEditor)
      → suc p ≡ length entries
      → previous (record { entries = entries; position = suc p; draft = old }, e)
        ≡ at_entry entries p e.text
  unfolding previous at_entry set
  previous-newest p old e h = rw (here, positive, pred) refl
    where
      here : (suc p == length entries) ≡ true
      here = ground (arith, h)

      positive : (suc p == 0) ≡ false
      positive = ground arith

      pred : suc p - 1 ≡ p
      pred = omega arith

  next-newest :
      (p : ℕ)
      → suc p ≡ length entries
      → next (at_entry entries p draft) ≡ (
        record { entries = entries; position = suc p; draft = draft },
        record { text = draft; cursor = length draft },
      )
  unfolding next at_entry set
  next-newest p h = rw (inside, succ, here) refl
    where
      inside : ltb p (length entries) ≡ true
      inside = ground (arith, h)

      succ : p + 1 ≡ suc p
      succ = omega arith

      here : (suc p == length entries) ≡ true
      here = ground (arith, h)

-- From the newest end of the history, some steps back, one at least and no more than there are
-- entries, and as many forth lead to the line that was being typed, with the cursor at its end, and
-- to the same position.
pub forth-back_draft :
    (entries : List Bytes) (p n : ℕ) (old : Bytes) (e : LineEditor)
    → suc p ≡ length entries
    → n ≤ p
    → forth (suc n) (back (suc n) (record { entries = entries; position = suc p; draft = old }, e))
      ≡ (
        record { entries = entries; position = suc p; draft = e.text },
        record { text = e.text; cursor = length e.text },
      )
unfolding forth back
forth-back_draft entries p n old e h k =
    ap (λ s. next (forth n (back n s))) (previous-newest entries old p old e h)
    ∙ ap next (forth-back entries e.text n p k (omega (arith, h)))
    ∙ next-newest entries e.text p h
