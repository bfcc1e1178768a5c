-- ===== src/Terminal/Scroll/Anchor.antt =====
-- The line at the top of the screen stays there.
use chatbox.Common.{
  get_elem?, length-append, inl, inr, ◌≤◌, ◌+◌, ◌-◌, ◌/◌, Bool-cases, zero, ℕ, suc, ◌<◌, min, ◌≡◌,
  refl, ap, ◌∙◌, Bool, true, false, some, List, [], ◌∷◌, ◌++◌, arith, ◌==◌, length, All,
}
use chatbox.Terminal.Scroll.{
  shifted, TranscriptLine, Scrollback, Shift, anchored, line_lt, lower_bound, last_start, start,
  move_by, line_before, halved, search_from,
}

-- The lines come in the order of their messages and parts, none twice.
unfoldable pub before : TranscriptLine → TranscriptLine → Bool
unfolding line_lt
before a b = line_lt a b.message b.part

unfoldable pub AreBefore : List TranscriptLine → TranscriptLine → Type 0
AreBefore lines b = All (λ a. before a b ≡ true) lines

line_lt_irrefl : (line : TranscriptLine) → line_lt line line.message line.part ≡ false
unfolding line_lt
line_lt_irrefl line = ground arith

module _ (is_before : ℕ → Bool) (at : ℕ) (above : (i : ℕ) → i < at → is_before i ≡ true)
    (below : (i : ℕ) → at ≤ i → is_before i ≡ false) where
  -- The search ends at the place that parts the positions, if it starts around it.
  search_from-found :
      (fuel first count : ℕ)
      → first ≤ at
      → at ≤ first + count
      → count ≤ fuel
      → search_from is_before fuel first count ≡ at
  unfolding search_from halved
  search_from-found zero first count h k l = omega (arith, h, k, l)
  search_from-found (suc fuel) first count h k l = elim (Bool-cases (count == 0)) [
    | inl z ↦ rw z (ground (arith, z, h, k))
    | inr z ↦ rw z (elim (Bool-cases (is_before (first + count / 2))) [
      | inl e ↦ rw e (
          search_from-found fuel (first + count / 2 + 1) (count - count / 2 - 1)
            (ground (arith, e, below (first + count / 2))) (ground (arith, z, k))
            (ground (arith, z, l)))
      | inr e ↦ rw e (
          search_from-found fuel first (count / 2) h (ground (arith, e, above (first + count / 2)))
            (ground (arith, z, l)))
    ])
  ]

-- The lines are not before the line.
unfoldable pub NoneBefore : List TranscriptLine → TranscriptLine → Type 0
NoneBefore lines b = All (λ a. before a b ≡ false) lines

line_before-below :
    (lines : List TranscriptLine) (anchor : TranscriptLine) (i : ℕ)
    → NoneBefore lines anchor
    → line_before lines anchor.message anchor.part i ≡ false
unfolding line_before NoneBefore before
line_before-below [] anchor i h = refl
line_before-below (line ∷ lines) anchor zero (h, hs) = h
line_before-below (line ∷ lines) anchor (suc i) (h, hs) = line_before-below lines anchor i hs

module _ (anchor : TranscriptLine) (more : List TranscriptLine) (n : NoneBefore more anchor) where
  line_before-above :
      (lines : List TranscriptLine) (i : ℕ)
      → AreBefore lines anchor
      → i < length lines
      → line_before (lines ++ (anchor ∷ more)) anchor.message anchor.part i ≡ true
  unfolding line_before AreBefore before
  line_before-above [] i h k = absurd (omega (arith, k))
  line_before-above (line ∷ lines) zero (h, hs) k = h
  line_before-above (line ∷ lines) (suc i) (h, hs) k =
      line_before-above lines i hs (omega (arith, k))

  line_before-from :
      (lines : List TranscriptLine) (i : ℕ)
      → length lines ≤ i
      → line_before (lines ++ (anchor ∷ more)) anchor.message anchor.part i ≡ false
  unfolding line_before
  line_before-from [] zero k = line_lt_irrefl anchor
  line_before-from [] (suc i) k = line_before-below more anchor i n
  line_before-from (line ∷ lines) zero k = absurd (omega (arith, k))
  line_before-from (line ∷ lines) (suc i) k = line_before-from lines i (omega (arith, k))

  lower_bound-found :
      (lines : List TranscriptLine)
      → AreBefore lines anchor
      → lower_bound (lines ++ (anchor ∷ more)) anchor.message anchor.part ≡ length lines
  unfolding lower_bound
  lower_bound-found lines h =
      let all = lines ++ (anchor ∷ more) in
      search_from-found (line_before all anchor.message anchor.part) (length lines)
        (λ i. line_before-above lines i h) (line_before-from lines) (length all) 0 (length all)
        (omega arith) (omega (arith, length-append lines (anchor ∷ more))) (omega arith)

get_elem?-middle :
    (above : List TranscriptLine) (line : TranscriptLine) (below : List TranscriptLine)
    → get_elem? (above ++ (line ∷ below)) (length above) ≡ some line
get_elem?-middle [] line below = refl
get_elem?-middle (a ∷ above) line below = get_elem?-middle above line below

-- A move to a line that is not the last start anchors that line.
move_by-anchor :
    (s : Scrollback) (above : List TranscriptLine) (line : TranscriptLine)
    (below : List TranscriptLine) (height : ℕ) (delta : Shift)
    → let lines = above ++ (line ∷ below) in
      shifted (last_start lines height) (start s lines height) delta ≡ length above
      → length above < last_start lines height
      → move_by s lines height delta
        ≡ record { follow = false; message = line.message; part = line.part }
unfolding move_by anchored
move_by-anchor s above line below height delta h k =
    ap (λ n. anchored s (n == last_start lines height) (get_elem? lines n)) h
    ∙ ap (anchored s (length above == last_start lines height)) (get_elem?-middle above line below)
    ∙ ap (λ b. record { follow = b; message = line.message; part = line.part }) apart
  where
    lines : List TranscriptLine
    lines = above ++ (line ∷ below)

    apart : (length above == last_start lines height) ≡ false
    apart = ground (arith, k)

-- After a move that brings a line to the top, short of the end of the transcript, this line stays at
-- the top, or the last page is shown if it begins before: whatever lines are added behind it and
-- whatever lines before it are evicted or changed, as long as all lines above it come before it in
-- the order and none behind it does, and on a screen of whatever height.
pub move_by-stays :
    (s : Scrollback) (above : List TranscriptLine) (line : TranscriptLine)
    (below : List TranscriptLine) (height : ℕ) (delta : Shift) (above' below' : List TranscriptLine)
    (height' : ℕ)
    → let lines = above ++ (line ∷ below) in
      shifted (last_start lines height) (start s lines height) delta ≡ length above
      → length above < last_start lines height
      → AreBefore above' line
      → NoneBefore below' line
      → let lines' = above' ++ (line ∷ below') in
        start (move_by s (above ++ (line ∷ below)) height delta) lines' height'
        ≡ min (last_start lines' height') (length above')
unfolding start
move_by-stays s above line below height delta above' below' height' h k v w =
    ap (λ t. start t (above' ++ (line ∷ below')) height')
      (move_by-anchor s above line below height delta h k)
    ∙ ap (min (last_start (above' ++ (line ∷ below')) height'))
        (lower_bound-found line below' w above' v)
