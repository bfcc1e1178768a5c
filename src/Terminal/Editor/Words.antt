-- ===== src/Terminal/Editor/Words.antt =====
-- What the erasure of a word leaves.
use chatbox.Common.{
  ℕ, zero, suc, ◌+◌, ◌-◌, ◌≤◌, ◌<◌, ◌≡◌, refl, ap, ◌∙◌, ◌⊎◌, inl, inr, Bool, true, false, not, [],
  ◌∷◌, ◌++◌, arith, ◌==◌, length, is_empty, Bytes, text,
}
use mathlib.Core.Path.{ap₂}
use mathlib.Core.List.{append-nil, append_assoc, ◌++◌}
use chatbox.Common.{if-elim, take, get_or, drop, length-take, length-append}
use chatbox.Helpers.Laws.{has_no, first_has_no, rest_has_no}
use chatbox.Terminal.Editor.{
  LineEditor, is_continuation, skip_back, previous_char, backspace, erase_while, erase_word,
  after_space,
}
use chatbox.Terminal.Editor.Boundary.{
  starts, previous_char-le, previous_char-lt, drop-append_length,
}

-- An editor with the cursor between two texts.
abbrev pub between : Bytes → Bytes → LineEditor
between head rest = record { text = head ++ rest; cursor = length head }

-- A text with so many spaces behind it.
unfoldable pub spaced : Bytes → ℕ → Bytes
spaced head zero = head
spaced head (suc k) = spaced head k ++ (b' ' ∷ [])

unfoldable pub ends_in_space : Bytes → Bool
ends_in_space [] = false
ends_in_space (c ∷ []) = c == b' '
ends_in_space (c ∷ d ∷ cs) = ends_in_space (d ∷ cs)

take-append_le : (n : ℕ) (xs ys : Bytes) → n ≤ length xs → take n (xs ++ ys) ≡ take n xs
take-append_le zero xs ys h = refl
take-append_le (suc n) [] ys h = absurd (omega (arith, h))
take-append_le (suc n) (x ∷ xs) ys h = ap (λ zs. x ∷ zs) (take-append_le n xs ys (omega (arith, h)))

take-append_length : (n : ℕ) (xs ys : Bytes) → take (length xs + n) (xs ++ ys) ≡ xs ++ take n ys
take-append_length n [] ys = ap (λ k. take k ys) {x = 0 + n} {y = n} (omega arith)
take-append_length n (x ∷ xs) ys =
    ap (λ k. take k (x ∷ (xs ++ ys))) {x = suc (length xs) + n} {y = suc (length xs + n)}
      (omega arith)
    ∙ ap (λ zs. x ∷ zs) (take-append_length n xs ys)

get_or-append_length : (xs : Bytes) (c : ℕ) (ys : Bytes) → get_or (xs ++ (c ∷ ys)) (length xs) 0 ≡ c
get_or-append_length [] c ys = refl
get_or-append_length (x ∷ xs) c ys = get_or-append_length xs c ys

-- The search back stops at a character's first byte, if not before.
skip_back-ge :
    (text : Bytes) (p at : ℕ)
    → is_continuation (get_or text p 0) ≡ false
    → p ≤ at
    → p ≤ skip_back text at
unfolding skip_back
skip_back-ge text p zero h k = k
skip_back-ge text p (suc at) h k =
    if-elim (λ q. p ≤ q) (is_continuation (get_or text (suc at) 0))
      (λ e. skip_back-ge text p at h (ground (arith, e, h, k))) (λ _. k)

previous_char-ge :
    (text : Bytes) (p at : ℕ)
    → is_continuation (get_or text p 0) ≡ false
    → p < at
    → p ≤ previous_char text at
unfolding previous_char
previous_char-ge text p zero h k = absurd (omega (arith, k))
previous_char-ge text p (suc at) h k = skip_back-ge text p at h (omega (arith, k))

-- A backspace takes bytes from the end of what is before the cursor.
backspace-between :
    (head rest : Bytes)
    → backspace (between head rest)
      ≡ between (take (previous_char (head ++ rest) (length head)) head) rest
unfolding backspace
backspace-between head rest =
    ap₂ (λ text n. record { text = text; cursor = n }) texts
      (omega (arith, length-take q head, inside))
  where
    q : ℕ
    q = previous_char (head ++ rest) (length head)

    inside : q ≤ length head
    inside = previous_char-le (head ++ rest) (length head)

    texts :
        take q (head ++ rest) ++ drop (q + (length head - q)) (head ++ rest) ≡ take q head ++ rest
    texts =
        ap (λ zs. zs ++ drop (q + (length head - q)) (head ++ rest))
          (take-append_le q head rest inside)
        ∙ ap (λ n. take q head ++ drop n (head ++ rest)) {x = q + (length head - q)}
            {y = length head} (omega (arith, inside))
        ∙ ap (λ zs. take q head ++ zs) (drop-append_length head rest)

-- Of a text whose last part begins with a character's first byte, it takes bytes of that part.
backspace-part :
    (before : Bytes) (c : ℕ) (cs rest : Bytes)
    → is_continuation c ≡ false
    → (n : ℕ) × (n ≤ length cs)
      × (backspace (between (before ++ (c ∷ cs)) rest) ≡ between (before ++ take n (c ∷ cs)) rest)
backspace-part before c cs rest h = (
  q - length before,
  omega (arith, lower, upper, size),
  backspace-between head rest
      ∙ ap (λ n. between (take n head) rest) {x = q} {y = length before + (q - length before)}
          (omega (arith, lower))
      ∙ ap (λ zs. between zs rest) (take-append_length (q - length before) before (c ∷ cs)),
)
  where
    head : Bytes
    head = before ++ (c ∷ cs)

    size : length head ≡ length before + suc (length cs)
    size = length-append before (c ∷ cs)

    q : ℕ
    q = previous_char (head ++ rest) (length head)

    first : get_or (head ++ rest) (length before) 0 ≡ c
    first =
        ap (λ zs. get_or zs (length before) 0) (append_assoc before (c ∷ cs) rest)
        ∙ get_or-append_length before c (cs ++ rest)

    lower : length before ≤ q
    lower =
        previous_char-ge (head ++ rest) (length before) (length head) (ap is_continuation first ∙ h)
          (omega (arith, size))

    upper : q < length head
    upper = previous_char-lt (head ++ rest) (length head) (omega (arith, size))

ends_in_space-append :
    (xs : Bytes) (c : ℕ) (cs : Bytes) → ends_in_space (xs ++ (c ∷ cs)) ≡ ends_in_space (c ∷ cs)
unfolding ends_in_space
ends_in_space-append [] c cs = refl
ends_in_space-append (x ∷ []) c cs = refl
ends_in_space-append (x ∷ y ∷ xs) c cs = ends_in_space-append (y ∷ xs) c cs

ends_in_space-word : (word : Bytes) → has_no b' ' word ≡ true → ends_in_space word ≡ false
unfolding ends_in_space
ends_in_space-word [] h = refl
ends_in_space-word (c ∷ []) h = first_has_no b' ' c [] h
ends_in_space-word (c ∷ d ∷ cs) h = ends_in_space-word (d ∷ cs) (rest_has_no b' ' c (d ∷ cs) h)

has_no-take : (n : ℕ) (xs : Bytes) → has_no b' ' xs ≡ true → has_no b' ' (take n xs) ≡ true
unfolding has_no
has_no-take zero xs h = refl
has_no-take (suc n) [] h = refl
has_no-take (suc n) (x ∷ xs) h =
    rw (first_has_no b' ' x xs h) (has_no-take n xs (rest_has_no b' ' x xs h))

starts-take : (n : ℕ) (xs : Bytes) → starts xs ≡ true → starts (take n xs) ≡ true
unfolding starts
starts-take zero xs h = refl
starts-take (suc n) [] h = refl
starts-take (suc n) (x ∷ xs) h = h

last-between :
    (c : ℕ) (cs rest : Bytes)
    → (get_or (c ∷ (cs ++ rest)) (length cs) 0 == b' ') ≡ ends_in_space (c ∷ cs)
unfolding ends_in_space
last-between c [] rest = refl
last-between c (d ∷ cs) rest = last-between d cs rest

after_space-between :
    (c : ℕ) (cs rest : Bytes) → after_space (between (c ∷ cs) rest) ≡ ends_in_space (c ∷ cs)
unfolding after_space
after_space-between c cs rest =
    ap (λ n. get_or (c ∷ (cs ++ rest)) n 0 == b' ') {x = suc (length cs) - 1} {y = length cs}
      (omega arith)
    ∙ last-between c cs rest

nonzero : (n : ℕ) → (suc n == 0) ≡ false
nonzero n = ground arith

-- Where a loop stops, and where it goes on.
erase_while-stops :
    (on_space : Bool) (fuel : ℕ) (head rest : Bytes)
    → is_empty head ≡ true ⊎ ends_in_space head ≡ not on_space
    → erase_while on_space fuel (between head rest) ≡ between head rest
unfolding erase_while
erase_while-stops on_space zero head rest h = refl
erase_while-stops on_space (suc fuel) [] rest h = refl
erase_while-stops true (suc fuel) (c ∷ cs) rest (inr h) =
    rw (nonzero (length cs), after_space-between c cs rest ∙ h) refl
erase_while-stops false (suc fuel) (c ∷ cs) rest (inr h) =
    rw (nonzero (length cs), after_space-between c cs rest ∙ h) refl
erase_while-stops on_space (suc fuel) (c ∷ cs) rest (inl h) = cc h

erase_while-turn :
    (on_space : Bool) (fuel : ℕ) (head rest : Bytes)
    → is_empty head ≡ false
    → ends_in_space head ≡ on_space
    → erase_while on_space (suc fuel) (between head rest)
      ≡ erase_while on_space fuel (backspace (between head rest))
unfolding erase_while
erase_while-turn on_space fuel [] rest e h = cc e
erase_while-turn true fuel (c ∷ cs) rest e h =
    rw (nonzero (length cs), after_space-between c cs rest ∙ h) refl
erase_while-turn false fuel (c ∷ cs) rest e h =
    rw (nonzero (length cs), after_space-between c cs rest ∙ h) refl

is_empty-append : (xs : Bytes) (c : ℕ) (cs : Bytes) → is_empty (xs ++ (c ∷ cs)) ≡ false
is_empty-append [] c cs = refl
is_empty-append (x ∷ xs) c cs = refl

space-whole : is_continuation b' ' ≡ false
unfolding is_continuation
space-whole = refl

-- The first loop takes the spaces.
spaces-erased :
    (head rest : Bytes) (k fuel : ℕ)
    → k ≤ fuel
    → ends_in_space head ≡ false
    → erase_while true fuel (between (spaced head k) rest) ≡ between head rest
unfolding spaced ends_in_space
spaces-erased head rest zero fuel h e = erase_while-stops true fuel head rest (inr e)
spaces-erased head rest (suc k) zero h e = absurd (omega (arith, h))
spaces-erased head rest (suc k) (suc fuel) h e =
    let before = spaced head k in
    let (n, small, one) = backspace-part before b' ' [] rest space-whole in
    erase_while-turn true fuel (before ++ (b' ' ∷ [])) rest (is_empty-append before b' ' [])
      (ends_in_space-append before b' ' [])
    ∙ ap (erase_while true fuel) (
        one
        ∙ ap (λ j. between (before ++ take j (b' ' ∷ [])) rest) {x = n} {y = 0}
            (omega (arith, small))
        ∙ ap (λ zs. between zs rest) (append-nil before))
    ∙ spaces-erased head rest k fuel (omega (arith, h)) e

first-whole : (c : ℕ) (cs : Bytes) → starts (c ∷ cs) ≡ true → is_continuation c ≡ false
unfolding starts
first-whole c cs s = ground (arith, s)

-- The second loop takes the word.
word-erased :
    (before rest : Bytes)
    → is_empty before ≡ true ⊎ ends_in_space before ≡ true
    → (fuel : ℕ) (word : Bytes) → length word ≤ fuel
    → has_no b' ' word ≡ true
    → starts word ≡ true
    → erase_while false fuel (between (before ++ word) rest) ≡ between before rest
word-erased before rest b fuel [] h w s =
    ap (λ zs. erase_while false fuel (between zs rest)) (append-nil before)
    ∙ erase_while-stops false fuel before rest b
word-erased before rest b zero (c ∷ cs) h w s = absurd (omega (arith, h))
word-erased before rest b (suc fuel) (c ∷ cs) h w s =
    let (n, small, one) = backspace-part before c cs rest (first-whole c cs s) in
    erase_while-turn false fuel (before ++ (c ∷ cs)) rest (is_empty-append before c cs)
      (ends_in_space-append before c cs ∙ ends_in_space-word (c ∷ cs) w)
    ∙ ap (erase_while false fuel) one
    ∙ word-erased before rest b fuel (take n (c ∷ cs))
        (omega (arith, length-take n (c ∷ cs), small, h)) (has_no-take n (c ∷ cs) w)
        (starts-take n (c ∷ cs) s)

length-spaced : (head : Bytes) (k : ℕ) → length (spaced head k) ≡ length head + k
unfolding spaced
length-spaced head zero = omega arith
length-spaced head (suc k) =
    length-append (spaced head k) (b' ' ∷ []) ∙ omega (arith, length-spaced head k)

-- Behind a word and any number of spaces, `erase_word` erases this word and these spaces and nothing
-- else, and leaves the cursor where the word began. The word holds no space and begins with a
-- character's first byte; what is before it is empty or ends in a space; and it is empty only
-- at the start of the text.
pub erase_word-exact :
    (before word rest : Bytes) (k : ℕ)
    → is_empty before ≡ true ⊎ ends_in_space before ≡ true
    → has_no b' ' word ≡ true
    → starts word ≡ true
    → (is_empty word ≡ true → before ≡ [])
    → erase_word (between (spaced (before ++ word) k) rest) ≡ between before rest
unfolding erase_word ends_in_space
erase_word-exact before word rest k b w s n =
    ap (λ d. erase_while false d.cursor d)
      (spaces-erased (before ++ word) rest k (length (spaced (before ++ word) k))
        (omega (arith, length-spaced (before ++ word) k)) (ends word w n))
    ∙ word-erased before rest b (length (before ++ word)) word
        (omega (arith, length-append before word)) w s
  where
    ends :
        (word : Bytes)
        → has_no b' ' word ≡ true
        → (is_empty word ≡ true → before ≡ [])
        → ends_in_space (before ++ word) ≡ false
    ends [] w n = ap (λ zs. ends_in_space (zs ++ [])) (n refl)
    ends (c ∷ cs) w n = ends_in_space-append before c cs ∙ ends_in_space-word (c ∷ cs) w
