-- ===== src/Terminal/Editor/Undo.antt =====
-- A character that is typed is taken back by a backspace.
use chatbox.Common.{
  drop, get_or, all_of, take, ℕ, zero, suc, ◌+◌, ◌-◌, ◌≤◌, ◌<◌, ◌≡◌, refl, ap, ◌∙◌, Bool, true,
  false, [], ◌∷◌, ◌++◌, arith, ltb, if◌then◌else◌, length, Bytes, text,
}
use mathlib.Core.List.{◌++◌}
use chatbox.Common.{take-append-drop}
use chatbox.Terminal.Editor.{
  LineEditor, is_continuation, skip_back, previous_char, erase, insert_at, backspace, insert,
}
use chatbox.Terminal.Editor.Boundary.{drop-join, drop-append_length}

get_or-join :
    (at i : ℕ) (text rest : Bytes)
    → at ≤ length text
    → get_or (take at text ++ rest) (at + i) 0 ≡ get_or rest i 0
get_or-join zero i text rest h = ap (λ n. get_or rest n 0) {x = 0 + i} {y = i} (omega arith)
get_or-join (suc at) i [] rest h = absurd (omega (arith, h))
get_or-join (suc at) i (c ∷ text) rest h =
    ap (λ n. get_or (c ∷ (take at text ++ rest)) n 0) {x = suc at + i} {y = suc (at + i)}
      (omega arith)
    ∙ get_or-join at i text rest (omega (arith, h))

get_or-append : (xs ys : Bytes) (i : ℕ) → i < length xs → get_or (xs ++ ys) i 0 ≡ get_or xs i 0
get_or-append [] ys i h = absurd (omega (arith, h))
get_or-append (x ∷ xs) ys zero h = refl
get_or-append (x ∷ xs) ys (suc i) h = get_or-append xs ys i (omega (arith, h))

all_of-get_or :
    (test : ℕ → Bool) (xs : Bytes) (i : ℕ)
    → all_of test xs ≡ true
    → i < length xs
    → test (get_or xs i 0) ≡ true
all_of-get_or test [] i h k = absurd (omega (arith, k))
all_of-get_or test (x ∷ xs) zero h k = ground (arith, h)
all_of-get_or test (x ∷ xs) (suc i) h k =
    all_of-get_or test xs i (ground (arith, h)) (omega (arith, k))

take-join :
    (at : ℕ) (text rest : Bytes) → at ≤ length text → take at (take at text ++ rest) ≡ take at text
take-join zero text rest h = refl
take-join (suc at) [] rest h = absurd (omega (arith, h))
take-join (suc at) (c ∷ text) rest h = ap (λ xs. c ∷ xs) (take-join at text rest (omega (arith, h)))

skip_back-stop :
    (text : Bytes) (at : ℕ) → is_continuation (get_or text at 0) ≡ false → skip_back text at ≡ at
unfolding skip_back
skip_back-stop text zero h = refl
skip_back-stop text (suc at) h = rw h refl

module _ (text : Bytes) (at lead : ℕ) (more : Bytes) (inside : at ≤ length text)
    (whole : is_continuation lead ≡ false) (rest_of_it : all_of is_continuation more ≡ true) where
  -- The text with the character put in.
  typed : Bytes
  typed = insert_at text at (lead ∷ more)

  typed-at : (i : ℕ) → get_or typed (at + i) 0 ≡ get_or ((lead ∷ more) ++ drop at text) i 0
  unfolding typed
  typed-at i = get_or-join at i text ((lead ∷ more) ++ drop at text) inside

  back : (k : ℕ) → k ≤ length more → skip_back typed (at + k) ≡ at
  unfolding skip_back
  back zero h =
      skip_back-stop typed (at + 0) (ap is_continuation (typed-at 0) ∙ whole) ∙ omega arith
  back (suc k) h =
      ap (skip_back typed) {x = at + suc k} {y = suc (at + k)} (omega arith)
      ∙ ap (λ b. if b then skip_back typed (at + k) else suc (at + k)) continues
      ∙ back k (omega (arith, h))
    where
      continues : is_continuation (get_or typed (suc (at + k)) 0) ≡ true
      continues =
          ap (λ n. is_continuation (get_or typed n 0)) {x = suc (at + k)} {y = at + suc k}
            (omega arith)
          ∙ ap is_continuation
              (typed-at (suc k) ∙ get_or-append more (drop at text) k (omega (arith, h)))
          ∙ all_of-get_or is_continuation more k rest_of_it (omega (arith, h))

  backspace-typed :
      backspace (record { text = typed; cursor = at + length (lead ∷ more) })
      ≡ record { text = text; cursor = at }
  unfolding backspace previous_char typed
  backspace-typed =
      ap (λ s. record { text = erase typed s (cursor - s); cursor = s }) start
      ∙ ap (λ xs. record { text = xs; cursor = at }) erased
    where
      cursor : ℕ
      cursor = at + length (lead ∷ more)

      start : previous_char typed cursor ≡ at
      start =
          ap (previous_char typed) {x = cursor} {y = suc (at + length more)} (omega arith)
          ∙ back (length more) (omega arith)

      erased : erase typed at (cursor - at) ≡ text
      erased =
          ap (λ xs. xs ++ drop (at + (cursor - at)) typed)
            (take-join at text ((lead ∷ more) ++ drop at text) inside)
          ∙ ap (λ xs. take at text ++ xs)
              (ap (λ n. drop (at + n) typed) {x = cursor - at} {y = length (lead ∷ more)}
                  (omega arith)
                ∙ drop-join at (length (lead ∷ more)) text ((lead ∷ more) ++ drop at text) inside
                ∙ drop-append_length (lead ∷ more) (drop at text))
          ∙ take-append-drop at text

-- A character of UTF-8, put in where the cursor is and within the limit, is taken back whole by one
-- backspace: the text and the cursor are as before.
pub backspace-insert :
    (e : LineEditor) (lead : ℕ) (more : Bytes) (limit : ℕ)
    → e.cursor ≤ length e.text
    → is_continuation lead ≡ false
    → all_of is_continuation more ≡ true
    → length e.text + length (lead ∷ more) ≤ limit
    → backspace (insert e (lead ∷ more) limit).0 ≡ e
unfolding insert typed
backspace-insert e lead more limit h k l m =
    rw room (backspace-typed e.text e.cursor lead more h k l)
  where
    room : ltb limit (length e.text + length (lead ∷ more)) ≡ false
    room = ground (arith, m)
