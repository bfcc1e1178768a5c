-- ===== src/Terminal/Editor/Boundary.antt =====
-- The cursor of the editor stays in the text and between characters.
use chatbox.Common.{
  length-take, length-append, take, drop, get_or, ℕ, zero, suc, ◌+◌, ◌-◌, ◌≤◌, ◌<◌, ◌≡◌, refl, ap,
  ◌∙◌, subst, inl, inr, Bool, true, false, not, [], ◌∷◌, ◌++◌, arith, ltb, leb, Bool-cases, length,
  Bytes, text,
}
use mathlib.Core.List.{◌++◌}
use chatbox.Terminal.Editor.{
  LineEditor, is_continuation, skip_back, skip_forward, previous_char, next_char, left, right,
  backspace, erase_forward, insert,
}

-- A text that is empty or begins with a character's first byte.
unfoldable pub starts : Bytes → Bool
starts [] = true
starts (c ∷ cs) = not (is_continuation c)

-- The cursor is in the text, and the text and what follows the cursor begin with whole characters.
pub record IsPlaced (e : LineEditor) : Type 0 where
  pub inside : e.cursor ≤ length e.text
  pub start : starts e.text ≡ true
  pub cut : starts (drop e.cursor e.text) ≡ true

pub drop-all : (text : Bytes) (at : ℕ) → length text ≤ at → drop at text ≡ []
drop-all [] zero h = refl
drop-all [] (suc at) h = refl
drop-all (c ∷ text) zero h = absurd (omega (arith, h))
drop-all (c ∷ text) (suc at) h = drop-all text at (omega (arith, h))

pub starts-nil : starts [] ≡ true
unfolding starts
starts-nil = refl

starts-drop :
    (text : Bytes) (at : ℕ)
    → is_continuation (get_or text at 0) ≡ false
    → starts (drop at text) ≡ true
unfolding starts
starts-drop [] at h = ap starts (drop-all [] at (omega arith))
starts-drop (c ∷ text) zero h = ground (arith, h)
starts-drop (c ∷ text) (suc at) h = starts-drop text at h

skip_back-le : (text : Bytes) (at : ℕ) → skip_back text at ≤ at
unfolding skip_back
skip_back-le text zero = omega arith
skip_back-le text (suc at) = ground (arith, skip_back-le text at)

skip_back-starts :
    (text : Bytes) (at : ℕ) → starts text ≡ true → starts (drop (skip_back text at) text) ≡ true
unfolding skip_back
skip_back-starts text zero h = h
skip_back-starts text (suc at) h = elim (Bool-cases (is_continuation (get_or text (suc at) 0))) [
  | inl e ↦ rw e (skip_back-starts text at h)
  | inr e ↦ rw e (starts-drop text (suc at) e)
]

skip_forward-le :
    (text : Bytes) (at left : ℕ) → at + left ≤ length text → skip_forward text at left ≤ length text
unfolding skip_forward
skip_forward-le text at zero h = omega (arith, h)
skip_forward-le text at (suc left) h =
    ground (arith, skip_forward-le text (at + 1) left (omega (arith, h)))

skip_forward-starts :
    (text : Bytes) (at left : ℕ)
    → at + left ≡ length text
    → starts (drop (skip_forward text at left) text) ≡ true
unfolding skip_forward starts
skip_forward-starts text at zero h = ap starts (drop-all text at (omega (arith, h)))
skip_forward-starts text at (suc left) h = elim (Bool-cases (is_continuation (get_or text at 0))) [
  | inl e ↦ rw e (skip_forward-starts text (at + 1) left (omega (arith, h)))
  | inr e ↦ rw e (starts-drop text at e)
]

pub previous_char-le : (text : Bytes) (at : ℕ) → previous_char text at ≤ at
unfolding previous_char
previous_char-le text zero = omega arith
previous_char-le text (suc at) = omega (arith, skip_back-le text at)

pub previous_char-lt : (text : Bytes) (at : ℕ) → 0 < at → previous_char text at < at
unfolding previous_char
previous_char-lt text zero h = absurd (omega (arith, h))
previous_char-lt text (suc at) h = omega (arith, skip_back-le text at)

previous_char-starts :
    (text : Bytes) (at : ℕ) → starts text ≡ true → starts (drop (previous_char text at) text) ≡ true
unfolding previous_char
previous_char-starts text zero h = h
previous_char-starts text (suc at) h = skip_back-starts text at h

next_char-le : (text : Bytes) (at : ℕ) → next_char text at ≤ length text
unfolding next_char
next_char-le text at = elim (Bool-cases (leb (length text) at)) [
  | inl e ↦ rw e (omega arith)
  | inr e ↦ rw e (skip_forward-le text (at + 1) (length text - (at + 1)) (ground (arith, e)))
]

skip_forward-ge : (text : Bytes) (at left : ℕ) → at ≤ skip_forward text at left
unfolding skip_forward
skip_forward-ge text at zero = omega arith
skip_forward-ge text at (suc left) = ground (arith, skip_forward-ge text (at + 1) left)

next_char-ge : (text : Bytes) (at : ℕ) → at ≤ length text → at ≤ next_char text at
unfolding next_char
next_char-ge text at h = ground (arith, h, skip_forward-ge text (at + 1) (length text - (at + 1)))

next_char-starts : (text : Bytes) (at : ℕ) → starts (drop (next_char text at) text) ≡ true
unfolding next_char starts
next_char-starts text at = elim (Bool-cases (leb (length text) at)) [
  | inl e ↦ rw e (ap starts (drop-all text (length text) (omega arith)))
  | inr e ↦ rw e (skip_forward-starts text (at + 1) (length text - (at + 1)) (ground (arith, e)))
]

-- A text that is put together from the start of another one and a rest.
starts-join :
    (at : ℕ) (text rest : Bytes)
    → starts text ≡ true
    → starts rest ≡ true
    → starts (take at text ++ rest) ≡ true
unfolding starts
starts-join zero text rest h k = k
starts-join (suc at) [] rest h k = k
starts-join (suc at) (c ∷ text) rest h k = h

starts-append : (xs ys : Bytes) → starts xs ≡ true → starts ys ≡ true → starts (xs ++ ys) ≡ true
unfolding starts
starts-append [] ys h k = k
starts-append (x ∷ xs) ys h k = h

pub drop-join :
    (at more : ℕ) (text rest : Bytes)
    → at ≤ length text
    → drop (at + more) (take at text ++ rest) ≡ drop more rest
drop-join zero more text rest h = ap (λ n. drop n rest) {x = 0 + more} {y = more} (omega arith)
drop-join (suc at) more [] rest h = absurd (omega (arith, h))
drop-join (suc at) more (c ∷ text) rest h =
    ap (λ n. drop n (c ∷ (take at text ++ rest))) {x = suc at + more} {y = suc (at + more)}
      (omega arith)
    ∙ drop-join at more text rest (omega (arith, h))

pub drop-append_length : (xs ys : Bytes) → drop (length xs) (xs ++ ys) ≡ ys
drop-append_length [] ys = refl
drop-append_length (x ∷ xs) ys = drop-append_length xs ys

pub length-join :
    (at : ℕ) (text rest : Bytes)
    → at ≤ length text
    → length (take at text ++ rest) ≡ at + length rest
length-join at text rest h =
    length-append (take at text) rest ∙ omega (arith, length-take at text, h)

joined-IsPlaced :
    (at : ℕ) (text rest : Bytes)
    → at ≤ length text
    → starts text ≡ true
    → starts rest ≡ true
    → IsPlaced (record { text = take at text ++ rest; cursor = at })
joined-IsPlaced at text rest h k l = record {
  inside = omega (arith, length-join at text rest h);
  start = starts-join at text rest k l;
  cut =
      ap (λ n. starts (drop n (take at text ++ rest))) {x = at} {y = at + 0} (omega arith)
      ∙ ap starts (drop-join at 0 text rest h)
      ∙ l;
}

module _ (e : LineEditor) (v : IsPlaced e) where
  pub left-IsPlaced : IsPlaced (left e)
  unfolding left
  left-IsPlaced = record {
    inside = omega (arith, previous_char-le e.text e.cursor, v.inside);
    start = v.start;
    cut = previous_char-starts e.text e.cursor v.start;
  }

  pub right-IsPlaced : IsPlaced (right e)
  unfolding right
  right-IsPlaced = record {
    inside = next_char-le e.text e.cursor;
    start = v.start;
    cut = next_char-starts e.text e.cursor;
  }

  pub backspace-IsPlaced : IsPlaced (backspace e)
  unfolding backspace
  backspace-IsPlaced =
      let start = previous_char e.text e.cursor in
      let h = previous_char-le e.text e.cursor in
      let whole : e.cursor ≡ start + (e.cursor - start) = omega (arith, h) in
      joined-IsPlaced start e.text (drop (start + (e.cursor - start)) e.text)
        (omega (arith, h, v.inside)) v.start
        (subst (λ n. starts (drop n e.text) ≡ true) whole v.cut)

  pub erase_forward-IsPlaced : IsPlaced (erase_forward e)
  unfolding erase_forward
  erase_forward-IsPlaced =
      let next = next_char e.text e.cursor in
      let whole : next ≡ e.cursor + (next - e.cursor) =
        omega (arith, next_char-ge e.text e.cursor v.inside) in
      joined-IsPlaced e.cursor e.text (drop (e.cursor + (next - e.cursor)) e.text) v.inside v.start
        (subst (λ n. starts (drop n e.text) ≡ true) whole (next_char-starts e.text e.cursor))

  pub insert-IsPlaced :
      (value : Bytes) (limit : ℕ) → starts value ≡ true → IsPlaced (insert e value limit).0
  unfolding insert
  insert-IsPlaced value limit h = elim (Bool-cases (ltb limit (length e.text + length value))) [
    | inl f ↦ rw f v
    | inr f ↦ rw f (record {
      inside = omega (
        arith,
        length-join e.cursor e.text (value ++ drop e.cursor e.text) v.inside,
        length-append value (drop e.cursor e.text),
      );
      start =
          starts-join e.cursor e.text (value ++ drop e.cursor e.text) v.start
            (starts-append value (drop e.cursor e.text) h v.cut);
      cut =
          ap starts (
            drop-join e.cursor (length value) e.text (value ++ drop e.cursor e.text) v.inside
            ∙ drop-append_length value (drop e.cursor e.text))
          ∙ v.cut;
    })
  ]
