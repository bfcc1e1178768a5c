-- ===== src/Protocol/Fields/Laws.antt =====
-- How the fields of a text that is put together are found again.
use chatbox.Protocol.Fields.{rest_after_delimiter, after_delimiter, split_at, split_fields}
use chatbox.Common.{
  ℕ, ◌≡◌, refl, ◌≢◌, inl, inr, some, List, [], ◌∷◌, ◌++◌, arith, ◌==◌, Bool-cases, All, Bytes,
}

abbrev pub Avoids : ℕ → Bytes → Type 0
Avoids sep = All (λ c. c ≢ sep)

pub split_at_single : (sep : ℕ) (xs : Bytes) → Avoids sep xs → split_at sep xs ≡ xs ∷ []
unfolding split_at
split_at_single sep [] h = refl
split_at_single sep (x ∷ xs) h = ground (arith, split_at_single sep xs h.1)

pub split_at_cons :
    (sep : ℕ) (xs rest : Bytes)
    → Avoids sep xs
    → split_at sep (xs ++ sep ∷ rest) ≡ xs ∷ split_at sep rest
unfolding split_at
split_at_cons sep [] rest h = ground arith
split_at_cons sep (x ∷ xs) rest h = ground (arith, split_at_cons sep xs rest h.1)

-- There is always a first field, and it holds no sign.
pub split_at_some :
    (sep : ℕ) (xs : Bytes) → (f : Bytes) × (fs : List Bytes) × (split_at sep xs ≡ f ∷ fs)
unfolding split_at
split_at_some sep [] = ([], [], refl)
split_at_some sep (x ∷ xs) = elim (Bool-cases (x == sep)) [
  | inl e ↦ ([], split_at sep xs, rw e)
  | inr e ↦ let (f, fs, h) = split_at_some sep xs in (x ∷ f, fs, rw (e, h))
]

pub split_fields_single : (xs : Bytes) → Avoids b'|' xs → split_fields xs ≡ xs ∷ []
unfolding split_fields
split_fields_single xs h = split_at_single b'|' xs h

pub split_fields_cons :
    (xs rest : Bytes) → Avoids b'|' xs → split_fields (xs ++ b'|' ∷ rest) ≡ xs ∷ split_fields rest
unfolding split_fields
split_fields_cons xs rest h = split_at_cons b'|' xs rest h

pub split_fields_some : (xs : Bytes) → (f : Bytes) × (fs : List Bytes) × (split_fields xs ≡ f ∷ fs)
unfolding split_fields
split_fields_some xs = split_at_some b'|' xs

pub after_delimiter-append :
    (xs rest : Bytes) → Avoids b'|' xs → after_delimiter (xs ++ b'|' ∷ rest) ≡ some rest
unfolding after_delimiter
after_delimiter-append [] rest h = refl
after_delimiter-append (x ∷ xs) rest h = ground (arith, after_delimiter-append xs rest h.1)

pub rest_after_delimiter_two :
    (xs ys rest : Bytes)
    → Avoids b'|' xs
    → Avoids b'|' ys
    → rest_after_delimiter (xs ++ b'|' ∷ (ys ++ b'|' ∷ rest)) 2 ≡ rest
unfolding rest_after_delimiter
rest_after_delimiter_two xs ys rest h k = rw (
  after_delimiter-append xs (ys ++ b'|' ∷ rest) h,
  rest_after_delimiter,
  after_delimiter-append ys rest k,
)

pub rest_after_delimiter_three :
    (xs ys zs rest : Bytes)
    → Avoids b'|' xs
    → Avoids b'|' ys
    → Avoids b'|' zs
    → rest_after_delimiter (xs ++ b'|' ∷ (ys ++ b'|' ∷ (zs ++ b'|' ∷ rest))) 3 ≡ rest
unfolding rest_after_delimiter
rest_after_delimiter_three xs ys zs rest h k l =
    rw (after_delimiter-append xs (ys ++ b'|' ∷ (zs ++ b'|' ∷ rest)) h, rest_after_delimiter)
      (rest_after_delimiter_two ys zs rest k l)
