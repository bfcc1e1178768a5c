-- ===== src/Helpers/Laws.antt =====
-- Fields that hold no delimiter are joined and split to themselves.
use chatbox.Common.{
  length-append, All-append, length, ◌≤◌, ◌*◌, ◌+◌, some, if-elim, ℕ, ◌≡◌, refl, sym, ap, ◌∙◌, Bool,
  true, false, not, ◌&&◌, List, [], ◌∷◌, ◌++◌, arith, ◌==◌, if◌then◌else◌, is_empty, All, Bytes,
}
use mathlib.Core.List.{◌++◌, append_assoc, append-nil}
use chatbox.Helpers.{cut_at, split, split_from, join_all}

unfoldable pub has_no : ℕ → Bytes → Bool
has_no delim [] = true
has_no delim (c ∷ cs) = not (c == delim) && has_no delim cs

pub first_has_no : (delim c : ℕ) (cs : Bytes) → has_no delim (c ∷ cs) ≡ true → (c == delim) ≡ false
unfolding has_no
first_has_no delim c cs h = ground (arith, h)

pub rest_has_no : (delim c : ℕ) (cs : Bytes) → has_no delim (c ∷ cs) ≡ true → has_no delim cs ≡ true
unfolding has_no
rest_has_no delim c cs h = ground (arith, h)

split_from-step :
    (delim : ℕ) (item : Bytes) (c : ℕ) (cs : Bytes)
    → (c == delim) ≡ false
    → split_from delim item (c ∷ cs) ≡ split_from delim (item ++ (c ∷ [])) cs
unfolding split_from
split_from-step delim item c cs h = rw h refl

pub split_from-word :
    (delim : ℕ) (item word rest : Bytes)
    → has_no delim word ≡ true
    → split_from delim item (word ++ (delim ∷ rest)) ≡ (item ++ word) ∷ split_from delim [] rest
unfolding split_from
split_from-word delim item [] rest h =
    rw same (ap (λ w. w ∷ split_from delim [] rest) (sym (append-nil item)))
  where
    same : (delim == delim) ≡ true
    same = ground arith
split_from-word delim item (c ∷ word) rest h =
    split_from-step delim item c (word ++ (delim ∷ rest)) (first_has_no delim c word h)
    ∙ split_from-word delim (item ++ (c ∷ [])) word rest (rest_has_no delim c word h)
    ∙ ap (λ w. w ∷ split_from delim [] rest) (append_assoc item (c ∷ []) word)

pub split_from-end :
    (delim : ℕ) (item : Bytes) (c : ℕ) (word : Bytes)
    → has_no delim (c ∷ word) ≡ true
    → split_from delim item (c ∷ word) ≡ (item ++ (c ∷ word)) ∷ []
unfolding split_from
split_from-end delim item c [] h =
    split_from-step delim item c [] (first_has_no delim c [] h) ∙ ended item
  where
    ended :
        (item : Bytes)
        → (if is_empty (item ++ (c ∷ [])) then [] else (item ++ (c ∷ [])) ∷ [])
          ≡ (item ++ (c ∷ [])) ∷ []
    ended [] = refl
    ended (x ∷ xs) = refl
split_from-end delim item c (next ∷ word) h =
    split_from-step delim item c (next ∷ word) (first_has_no delim c (next ∷ word) h)
    ∙ split_from-end delim (item ++ (c ∷ [])) next word (rest_has_no delim c (next ∷ word) h)
    ∙ ap (λ w. w ∷ []) (append_assoc item (c ∷ []) (next ∷ word))

-- The last field is not empty: `std::getline` gives no empty item at the end.
unfoldable pub ends_full : List Bytes → Bool
ends_full [] = false
ends_full (field ∷ []) = not (is_empty field)
ends_full (field ∷ next ∷ fields) = ends_full (next ∷ fields)

pub split-join_all :
    (delim : ℕ) (fields : List Bytes)
    → All (λ field. has_no delim field ≡ true) fields
    → ends_full fields ≡ true
    → split (join_all fields delim) delim ≡ fields
unfolding split join_all ends_full
split-join_all delim [] h k = cc k
split-join_all delim ([] ∷ []) h k = cc k
split-join_all delim ((c ∷ cs) ∷ []) (h, _) k = split_from-end delim [] c cs h
split-join_all delim (field ∷ next ∷ fields) (h, hs) k =
    split_from-word delim [] field (join_all (next ∷ fields) delim) h
    ∙ ap (λ ws. field ∷ ws) (split-join_all delim (next ∷ fields) hs k)

has_no-snoc :
    (delim : ℕ) (item : Bytes) (c : ℕ)
    → has_no delim item ≡ true
    → (c == delim) ≡ false
    → has_no delim (item ++ (c ∷ [])) ≡ true
unfolding has_no
has_no-snoc delim [] c h k = rw k refl
has_no-snoc delim (x ∷ item) c h k =
    rw (first_has_no delim x item h) (has_no-snoc delim item c (rest_has_no delim x item h) k)

split_from-has_no :
    (delim : ℕ) (item s : Bytes)
    → has_no delim item ≡ true
    → All (λ field. has_no delim field ≡ true) (split_from delim item s)
unfolding split_from has_no
split_from-has_no delim item [] h =
    if-elim (All (λ field. has_no delim field ≡ true)) (is_empty item) (λ _. tt) (λ _. (h, tt))
split_from-has_no delim item (c ∷ s) h =
    if-elim (All (λ field. has_no delim field ≡ true)) (c == delim)
      (λ _. (h, split_from-has_no delim [] s refl))
      (λ k. split_from-has_no delim (item ++ (c ∷ [])) s (has_no-snoc delim item c h k))

-- No field holds the delimiter.
pub split-has_no :
    (delim : ℕ) (s : Bytes) → All (λ field. has_no delim field ≡ true) (split s delim)
unfolding split has_no
split-has_no delim s = split_from-has_no delim [] s refl

pub has_no-append :
    (delim : ℕ) (xs ys : Bytes)
    → has_no delim xs ≡ true
    → has_no delim ys ≡ true
    → has_no delim (xs ++ ys) ≡ true
unfolding has_no
has_no-append delim [] ys h k = k
has_no-append delim (x ∷ xs) ys h k =
    rw (first_has_no delim x xs h) (has_no-append delim xs ys (rest_has_no delim x xs h) k)

pub cut_at-word :
    (sep : ℕ) (before after : Bytes)
    → has_no sep before ≡ true
    → cut_at sep (before ++ (sep ∷ after)) ≡ some (before, after)
unfolding cut_at has_no
cut_at-word sep [] after h = ground arith
cut_at-word sep (c ∷ before) after h =
    rw (first_has_no sep c before h)
      (rw (cut_at-word sep before after (rest_has_no sep c before h)) refl)

pub join_all-All {ℓ} :
    (P : ℕ → Type ℓ) (delim : ℕ) (fields : List Bytes)
    → P delim
    → All (λ field. All P field) fields
    → All P (join_all fields delim)
unfolding join_all
join_all-All P delim [] d h = tt
join_all-All P delim (field ∷ []) d (h, _) = h
join_all-All P delim (field ∷ next ∷ fields) d (h, hs) =
    All-append P field (delim ∷ join_all (next ∷ fields) delim) h
      (d, join_all-All P delim (next ∷ fields) d hs)

pub length-join_all :
    (most delim : ℕ) (fields : List Bytes)
    → All (λ field. length field ≤ most) fields
    → length (join_all fields delim) ≤ length fields * (most + 1)
unfolding join_all
length-join_all most delim [] h = omega arith
length-join_all most delim (field ∷ []) (h, _) = omega (arith, h)
length-join_all most delim (field ∷ next ∷ fields) (h, hs) =
    let l = length-append field (delim ∷ join_all (next ∷ fields) delim) in
    let m = length-join_all most delim (next ∷ fields) hs in grind (arith, l, m, h)

pub has_no-of_All :
    (delim : ℕ) (xs : Bytes) → All (λ x. (x == delim) ≡ false) xs → has_no delim xs ≡ true
unfolding has_no
has_no-of_All delim [] h = refl
has_no-of_All delim (x ∷ xs) (h, hs) = rw h (has_no-of_All delim xs hs)
