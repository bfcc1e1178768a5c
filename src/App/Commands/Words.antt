-- ===== src/App/Commands/Words.antt =====
-- A line that is made of words is taken apart into these words.
use chatbox.Common.{
  ℕ, zero, suc, ◌≡◌, refl, sym, ap, ◌∙◌, subst, Bool, true, false, not, ◌&&◌, ◌||◌, Option, none,
  some, List, [], ◌∷◌, ◌++◌, ◌==◌, if◌then◌else◌, is_empty, All, Bytes,
}
use mathlib.Core.List.{◌++◌}
use chatbox.Helpers.{split, split_from, join_all, join_fields}
use chatbox.Helpers.Laws.{has_no, first_has_no, rest_has_no, split_from-word, split_from-end}
use chatbox.App.Commands.{
  non_empty, command_of, parse_command, extract_whisper, until_space, from_space, skip_spaces,
}

-- A text that is not empty and has no space.
unfoldable pub is_word : Bytes → Bool
unfolding has_no
is_word word = not (is_empty word) && has_no b' ' word

word_no_space : (word : Bytes) → is_word word ≡ true → has_no b' ' word ≡ true
unfolding is_word
word_no_space [] h = refl
word_no_space (c ∷ cs) h = h

-- A word that is taken apart: its first sign, and the rest of it.
word_parts :
    (word : Bytes)
    → is_word word ≡ true
    → (c : ℕ) × (cs : Bytes) × (word ≡ c ∷ cs) × (has_no b' ' (c ∷ cs) ≡ true)
unfolding is_word
word_parts [] h = cc h
word_parts (c ∷ cs) h = (c, cs, refl, h)

-- A text after so many spaces.
pub pad : ℕ → Bytes → Bytes
pad zero xs = xs
pad (suc n) xs = b' ' ∷ pad n xs

unfoldable pub AreWords : List Bytes → Type 0
AreWords words = All (λ word. is_word word ≡ true) words

split-join_all :
    (word : Bytes) (words : List Bytes)
    → AreWords (word ∷ words)
    → split (join_all (word ∷ words) b' ') b' ' ≡ word ∷ words
unfolding split join_all AreWords
split-join_all word [] (h, _) =
    let (c, cs, e, k) = word_parts word h in
    subst (λ w. split_from b' ' [] w ≡ w ∷ []) (sym e) (split_from-end b' ' [] c cs k)
split-join_all word (next ∷ words) (h, hs) =
    split_from-word b' ' [] word (join_all (next ∷ words) b' ') (word_no_space word h)
    ∙ ap (λ ws. word ∷ ws) (split-join_all next words hs)

non_empty-words : (words : List Bytes) → AreWords words → non_empty words ≡ words
unfolding non_empty AreWords
non_empty-words [] h = refl
non_empty-words (word ∷ words) (h, hs) =
    let (c, cs, e, k) = word_parts word h in
    subst (λ w. non_empty (w ∷ words) ≡ w ∷ words) (sym e)
      (ap (λ ws. (c ∷ cs) ∷ ws) (non_empty-words words hs))

-- A slash and words with one space between them are the command of the first word, with the others as
-- its arguments.
pub parse_command-join :
    (name : Bytes) (args : List Bytes)
    → AreWords (name ∷ args)
    → parse_command (b'/' ∷ join_fields (name ∷ args) 0 b' ')
      ≡ some (record { name = name; args = args })
unfolding parse_command command_of join_fields AreWords
parse_command-join name args h =
    ap command_of (split-join_all name args h)
    ∙ ap (λ ws. some (record { name = name; args = ws })) (non_empty-words args h.1)

from_space-word :
    (word rest : Bytes) → has_no b' ' word ≡ true → from_space (word ++ (b' ' ∷ rest)) ≡ b' ' ∷ rest
unfolding from_space
from_space-word [] rest h = refl
from_space-word (c ∷ word) rest h =
    rw (first_has_no b' ' c word h) (from_space-word word rest (rest_has_no b' ' c word h))

until_space-word :
    (word rest : Bytes) → has_no b' ' word ≡ true → until_space (word ++ (b' ' ∷ rest)) ≡ word
unfolding until_space
until_space-word [] rest h = refl
until_space-word (c ∷ word) rest h =
    rw (first_has_no b' ' c word h)
      (ap (λ w. c ∷ w) (until_space-word word rest (rest_has_no b' ' c word h)))

-- However many spaces stand before it, a text that begins with another sign is found.
skip_spaces-pad :
    (n c : ℕ) (cs : Bytes) → (c == b' ') ≡ false → skip_spaces (pad n (c ∷ cs)) ≡ c ∷ cs
unfolding skip_spaces pad
skip_spaces-pad zero c cs h = rw h refl
skip_spaces-pad (suc n) c cs h = skip_spaces-pad n c cs h

-- `extract_whisper` from the end of the command on, from the target on, and from its end on.
taken : Bytes → Option (Bytes × Bytes)
taken command_end =
    if is_empty command_end
      || is_empty (skip_spaces command_end)
      || is_empty (from_space (skip_spaces command_end))
      || is_empty (skip_spaces (from_space (skip_spaces command_end)))
    then none
    else some
        (until_space (skip_spaces command_end), skip_spaces (from_space (skip_spaces command_end)))

taken_target : Bytes → Option (Bytes × Bytes)
taken_target start =
    if is_empty start || is_empty (from_space start) || is_empty (skip_spaces (from_space start))
    then none
    else some (until_space start, skip_spaces (from_space start))

taken_message : Bytes → Bytes → Option (Bytes × Bytes)
taken_message target rest =
    if is_empty rest || is_empty (skip_spaces rest) then none else some (target, skip_spaces rest)

taken-whisper :
    (t : ℕ) (ts : Bytes) (m n c : ℕ) (cs : Bytes)
    → has_no b' ' (t ∷ ts) ≡ true
    → (c == b' ') ≡ false
    → taken (b' ' ∷ pad m ((t ∷ ts) ++ (b' ' ∷ pad n (c ∷ cs)))) ≡ some (t ∷ ts, c ∷ cs)
unfolding taken taken_target taken_message pad
taken-whisper t ts m n c cs h hc =
    ap taken_target
      (skip_spaces-pad (suc m) t (ts ++ (b' ' ∷ pad n (c ∷ cs))) (first_has_no b' ' t ts h))
    ∙ ap (taken_message (until_space ((t ∷ ts) ++ (b' ' ∷ pad n (c ∷ cs)))))
        (from_space-word (t ∷ ts) (pad n (c ∷ cs)) h)
    ∙ ap (λ u. taken_message u (b' ' ∷ pad n (c ∷ cs)))
        (until_space-word (t ∷ ts) (pad n (c ∷ cs)) h)
    ∙ ap (λ ms. if is_empty ms then none else some (t ∷ ts, ms)) (skip_spaces-pad (suc n) c cs hc)

-- A command, a nickname and a message that does not begin with a space, with one space or more
-- between them, are taken for a whisper of this message to this nickname, whatever spaces the
-- message has in it.
pub extract_whisper-pad :
    (name target : Bytes) (m n c : ℕ) (cs : Bytes)
    → has_no b' ' name ≡ true
    → is_word target ≡ true
    → (c == b' ') ≡ false
    → extract_whisper (name ++ (b' ' ∷ pad m (target ++ (b' ' ∷ pad n (c ∷ cs)))))
      ≡ some (target, c ∷ cs)
unfolding extract_whisper taken
extract_whisper-pad name target m n c cs hn ht hc =
    let (t, ts, e, k) = word_parts target ht in
    ap taken (from_space-word name (pad m (target ++ (b' ' ∷ pad n (c ∷ cs)))) hn)
    ∙ subst (λ w. taken (b' ' ∷ pad m (w ++ (b' ' ∷ pad n (c ∷ cs)))) ≡ some (w, c ∷ cs)) (sym e)
        (taken-whisper t ts m n c cs k hc)
