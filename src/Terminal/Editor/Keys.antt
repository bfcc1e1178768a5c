-- ===== src/Terminal/Editor/Keys.antt =====
-- What any sequence of the editor's operations keeps, and what the erasure of a word leaves.
use chatbox.Common.{
  if-elim, ℕ, zero, suc, ◌≡◌, ap, ◌∙◌, Bool, true, false, List, [], ◌∷◌, arith, ◌==◌, length, All,
  Bytes,
}
use chatbox.Terminal.Editor.{
  LineEditor, set, left, right, backspace, erase_forward, erase_while, erase_word, insert,
  after_space,
}
use chatbox.Terminal.Editor.Boundary.{
  IsPlaced, starts, starts-nil, drop-all, left-IsPlaced, right-IsPlaced, backspace-IsPlaced,
  erase_forward-IsPlaced, insert-IsPlaced,
}

pub data Key : Type 0 where
  go_left go_right rub_out delete rub_out_word : Key
  put replace : Bytes → Key

pub press : ℕ → LineEditor → Key → LineEditor
press limit e go_left = left e
press limit e go_right = right e
press limit e rub_out = backspace e
press limit e delete = erase_forward e
press limit e rub_out_word = erase_word e
press limit e (put value) = (insert e value limit).0
press limit e (replace value) = set e value

pub press_all : ℕ → LineEditor → List Key → LineEditor
unfolding press
press_all limit e [] = e
press_all limit e (key ∷ keys) = press_all limit (press limit e key) keys

-- What is typed begins with a whole character.
unfoldable pub is_whole : Key → Bool
is_whole (put value) = starts value
is_whole (replace value) = starts value
is_whole _ = true

erase_while-IsPlaced :
    (on_space : Bool) (fuel : ℕ) (e : LineEditor)
    → IsPlaced e
    → IsPlaced (erase_while on_space fuel e)
unfolding erase_while
erase_while-IsPlaced on_space zero e v = v
erase_while-IsPlaced on_space (suc fuel) e v =
    let w = erase_while-IsPlaced on_space fuel (backspace e) (backspace-IsPlaced e v) in
    if-elim IsPlaced (e.cursor == 0) (λ _. v)
      (λ _.
        if-elim IsPlaced on_space (λ _. if-elim IsPlaced (after_space e) (λ _. w) (λ _. v))
          (λ _. if-elim IsPlaced (after_space e) (λ _. v) (λ _. w)))

press-IsPlaced :
    (limit : ℕ) (e : LineEditor) (key : Key)
    → is_whole key ≡ true
    → IsPlaced e
    → IsPlaced (press limit e key)
unfolding press is_whole set erase_word
press-IsPlaced limit e go_left h v = left-IsPlaced e v
press-IsPlaced limit e go_right h v = right-IsPlaced e v
press-IsPlaced limit e rub_out h v = backspace-IsPlaced e v
press-IsPlaced limit e delete h v = erase_forward-IsPlaced e v
press-IsPlaced limit e rub_out_word h v =
    erase_while-IsPlaced false _ _ (erase_while-IsPlaced true e.cursor e v)
press-IsPlaced limit e (put value) h v = insert-IsPlaced e v value limit h
press-IsPlaced limit e (replace value) h v = record {
  inside = omega arith;
  start = h;
  cut = ap starts (drop-all value (length value) (omega arith)) ∙ starts-nil;
}

-- Any keys in any order, with whatever limit on the length, keep the cursor in the text and at a
-- character's first byte or at the end, if what is typed or recalled begins with a whole character.
pub press_all-IsPlaced :
    (limit : ℕ) (e : LineEditor) (keys : List Key)
    → All (λ key. is_whole key ≡ true) keys
    → IsPlaced e
    → IsPlaced (press_all limit e keys)
unfolding press_all
press_all-IsPlaced limit e [] h v = v
press_all-IsPlaced limit e (key ∷ keys) (h, hs) v =
    press_all-IsPlaced limit (press limit e key) keys hs (press-IsPlaced limit e key h v)
