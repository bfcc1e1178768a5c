-- ===== src/Network/Trust/Store.antt =====
-- What is read from a trust store: its shape, and that what was written is read again.
use chatbox.Common.{
  inr, is_empty-eq-nil, sym, subst, inl, Bool-cases, ℕ, ◌≡◌, refl, true, false, not, ◌&&◌, Option,
  none, some, List, [], ◌∷◌, arith, ◌==◌, if◌then◌else◌, length, is_empty, All, Bytes,
}
use chatbox.Common.{StringMap, put_key, put_key-All, put_key-Ordered, Ordered, if-elim}
use chatbox.Protocol.Rules.{isxdigit, isspace}
use chatbox.Helpers.{cut_at, split}
use chatbox.Helpers.Laws.{split-has_no, has_no, first_has_no, rest_has_no}
use chatbox.Network.Trust.{
  Disk, read_trust_store, fingerprint_length, toupper, hex_digits, normalize_fingerprint, cut_at,
  read_line, read_lines,
}

-- A fingerprint as `normalize_fingerprint` gives it, and there is one.
abbrev pub IsFingerprint : Bytes → Type 0
IsFingerprint fingerprint =
    (is_empty fingerprint ≡ false)
    × (normalize_fingerprint fingerprint ≡ fingerprint)
    × (has_no b'\n' fingerprint ≡ true)

abbrev pub IsAddress : Bytes → Type 0
IsAddress address =
    (is_empty address ≡ false) × (has_no b'|' address ≡ true) × (has_no b'\n' address ≡ true)

fingerprint_lem :
    (digits : Bytes)
    → (hex_digits digits ≡ some digits) × (has_no b'\n' digits ≡ true)
    → not (length digits == fingerprint_length) ≡ false
    → is_empty digits ≡ false
    → IsFingerprint digits
unfolding normalize_fingerprint
fingerprint_lem digits (again, line) long e =
    (e, rw (again, normalize_fingerprint) (rw long refl), line)

-- The digits are their own, and hold no end of a line.
Digits : Option Bytes → Type 0
Digits none = Unit
Digits (some digits) = (hex_digits digits ≡ some digits) × (has_no b'\n' digits ≡ true)

toupper_lem :
    (c : ℕ)
    → isxdigit c ≡ true
    → (isxdigit (toupper c) ≡ true)
      × (toupper (toupper c) ≡ toupper c)
      × ((toupper c == b'\n') ≡ false)
unfolding toupper
toupper_lem c h = (ground (arith, h), ground (arith, h), ground (arith, h))

hex_digit-Digits :
    (c : ℕ) (digits : Bytes)
    → isxdigit c ≡ true
    → Digits (some digits)
    → Digits (some (toupper c ∷ digits))
unfolding hex_digits Digits has_no
hex_digit-Digits c digits h (again, line) =
    let (hex, same, apart) = toupper_lem c h in
    (rw (again, hex_digits) (rw hex (rw same refl)), rw apart line)

hex_digits-Digits : (cs : Bytes) → Digits (hex_digits cs)
unfolding hex_digits Digits has_no
hex_digits-Digits [] = (refl, refl)
hex_digits-Digits (c ∷ cs) = step (hex_digits cs) (hex_digits-Digits cs)
  where
    step :
        (r : Option Bytes)
        → Digits r
        → Digits (elim r [
          | none ↦ none
          | some rest ↦
              if isxdigit c
              then some (toupper c ∷ rest)
              else if not (c == b':') && not (c == b'-') && not (isspace c)
              then none
              else some rest
        ])
    step none h = tt
    step (some rest) h =
        if-elim Digits (isxdigit c) (λ hex. hex_digit-Digits c rest hex h)
          (λ _.
            if-elim Digits (not (c == b':') && not (c == b'-') && not (isspace c)) (λ _. tt)
              (λ _. h))

Fingerprint : Bytes → Type 0
Fingerprint xs = is_empty xs ≡ false → IsFingerprint xs

normalize_fingerprint-IsFingerprint : (cs : Bytes) → Fingerprint (normalize_fingerprint cs)
unfolding normalize_fingerprint Fingerprint Digits
normalize_fingerprint-IsFingerprint cs = step (hex_digits cs) (hex_digits-Digits cs)
  where
    step :
        (r : Option Bytes)
        → Digits r
        → Fingerprint (elim r [
          | none ↦ []
          | some digits ↦ if not (length digits == fingerprint_length) then [] else digits
        ])
    step none h = λ e. cc e
    step (some digits) h =
        if-elim Fingerprint (not (length digits == fingerprint_length)) (λ _ e. cc e)
          (λ long e. fingerprint_lem digits h long e)

-- What `cut_at` cuts off: of a line without an end, neither the separator nor an end stands in it.
Cut : ℕ → Option (Bytes × Bytes) → Type 0
Cut sep none = Unit
Cut sep (some (before, _)) = (has_no sep before ≡ true) × (has_no b'\n' before ≡ true)

cut_at-Cut : (sep : ℕ) (line : Bytes) → has_no b'\n' line ≡ true → Cut sep (cut_at sep line)
unfolding cut_at Cut has_no
cut_at-Cut sep [] h = tt
cut_at-Cut sep (c ∷ line) h =
    if-elim (Cut sep) (c == sep) (λ _. (refl, refl))
      (λ e. step e (cut_at sep line) (cut_at-Cut sep line (rest_has_no b'\n' c line h)))
  where
    step :
        (c == sep) ≡ false
        → (r : Option (Bytes × Bytes)) → Cut sep r
        → Cut sep (elim r [ none ↦ none | some (before, after) ↦ some (c ∷ before, after) ])
    step e none k = tt
    step e (some (before, after)) (k, n) = (rw e k, rw (first_has_no b'\n' c line h) n)

abbrev pub IsRecord : Bytes × Bytes → Type 0
IsRecord e = IsAddress e.0 × IsFingerprint e.1

-- The map in memory: in order, and each line that it is written as can be read.
abbrev pub IsStore : StringMap Bytes → Type 0
IsStore entries = Ordered entries × All IsRecord entries

pub put_key-IsStore :
    (address fingerprint : Bytes) (entries : StringMap Bytes)
    → IsAddress address
    → IsFingerprint fingerprint
    → IsStore entries
    → IsStore (put_key address fingerprint entries)
put_key-IsStore address fingerprint entries a f (ordered, each) = (
  put_key-Ordered address fingerprint entries ordered,
  put_key-All IsRecord address fingerprint entries (a, f) (λ k v r _. (r.0, f)) each,
)

address_lem :
    (address rest : Bytes)
    → (not (is_empty address) && not (is_empty (normalize_fingerprint rest))) ≡ true
    → Cut b'|' (some (address, rest))
    → IsAddress address
unfolding Cut
address_lem address rest e (k, n) = (ground (arith, e), k, n)

normalize_fingerprint_some :
    (address rest : Bytes)
    → (not (is_empty address) && not (is_empty (normalize_fingerprint rest))) ≡ true
    → IsFingerprint (normalize_fingerprint rest)
unfolding Fingerprint
normalize_fingerprint_some address rest e =
    normalize_fingerprint-IsFingerprint rest (ground (arith, e))

read_line-IsStore :
    (entries : StringMap Bytes) (line : Bytes)
    → has_no b'\n' line ≡ true
    → IsStore entries
    → IsStore (read_line entries line)
unfolding read_line
read_line-IsStore entries line h v = step (cut_at b'|' line) (cut_at-Cut b'|' line h)
  where
    step :
        (r : Option (Bytes × Bytes))
        → Cut b'|' r
        → IsStore (elim r [
          | none ↦ entries
          | some (address, rest) ↦
              let fingerprint = normalize_fingerprint rest in
              if not (is_empty address) && not (is_empty fingerprint)
              then put_key address fingerprint entries
              else entries
        ])
    step none _ = v
    step (some (address, rest)) k =
        if-elim IsStore (not (is_empty address) && not (is_empty (normalize_fingerprint rest)))
          (λ e.
            put_key-IsStore address (normalize_fingerprint rest) entries
              (address_lem address rest e k) (normalize_fingerprint_some address rest e) v)
          (λ _. v)

read_lines-IsStore :
    (entries : StringMap Bytes) (lines : List Bytes)
    → All (λ line. has_no b'\n' line ≡ true) lines
    → IsStore entries
    → IsStore (read_lines entries lines)
unfolding read_lines
read_lines-IsStore entries [] h v = v
read_lines-IsStore entries (line ∷ lines) (h, hs) v =
    read_lines-IsStore (read_line entries line) lines hs (read_line-IsStore entries line h v)

pub read_trust_store-IsStore : (disk : Disk) (path : Bytes) → IsStore (read_trust_store disk path)
unfolding read_trust_store
read_trust_store-IsStore disk path = step (disk.files path)
  where
    step :
        (r : Option Bytes)
        → IsStore (elim r [ none ↦ [] | some contents ↦ read_lines [] (split contents b'\n') ])
    step none = (tt, tt)
    step (some contents) =
        read_lines-IsStore [] (split contents b'\n') (split-has_no b'\n' contents) (tt, tt)

-- Of a fingerprint there are hexadecimal digits only.
AreDigits : Option Bytes → Type 0
AreDigits none = Unit
AreDigits (some digits) = All (λ c. isxdigit c ≡ true) digits

hex_digits-AreDigits : (cs : Bytes) → AreDigits (hex_digits cs)
unfolding hex_digits AreDigits
hex_digits-AreDigits [] = tt
hex_digits-AreDigits (c ∷ cs) = step (hex_digits cs) (hex_digits-AreDigits cs)
  where
    step :
        (r : Option Bytes)
        → AreDigits r
        → AreDigits (elim r [
          | none ↦ none
          | some rest ↦
              if isxdigit c
              then some (toupper c ∷ rest)
              else if not (c == b':') && not (c == b'-') && not (isspace c)
              then none
              else some rest
        ])
    step none h = tt
    step (some rest) h =
        if-elim AreDigits (isxdigit c) (λ hex. ((toupper_lem c hex).0, h))
          (λ _.
            if-elim AreDigits (not (c == b':') && not (c == b'-') && not (isspace c)) (λ _. tt)
              (λ _. h))

pub normalize_fingerprint_digits :
    (cs : Bytes) → All (λ c. isxdigit c ≡ true) (normalize_fingerprint cs)
unfolding normalize_fingerprint AreDigits
normalize_fingerprint_digits cs = step (hex_digits cs) (hex_digits-AreDigits cs)
  where
    step :
        (r : Option Bytes)
        → AreDigits r
        → All
            (λ c. isxdigit c ≡ true)
            (elim r [
              | none ↦ []
              | some digits ↦ if not (length digits == fingerprint_length) then [] else digits
            ])
    step none h = tt
    step (some digits) h =
        if-elim (All (λ c. isxdigit c ≡ true)) (not (length digits == fingerprint_length)) (λ _. tt)
          (λ _. h)

nothing : normalize_fingerprint [] ≡ []
unfolding normalize_fingerprint hex_digits
nothing = refl

pub normalize_fingerprint_again :
    (cs : Bytes) → normalize_fingerprint (normalize_fingerprint cs) ≡ normalize_fingerprint cs
unfolding Fingerprint
normalize_fingerprint_again cs = elim (Bool-cases (is_empty (normalize_fingerprint cs))) [
  | inl e ↦
      subst (λ xs. normalize_fingerprint xs ≡ xs)
        (sym (is_empty-eq-nil (normalize_fingerprint cs) e)) nothing
  | inr e ↦ (normalize_fingerprint-IsFingerprint cs e).1
]
