-- ===== src/Protocol/Decimal/RoundTrip.antt =====
-- `from_chars` reads back what `to_string` prints, and the digits hold no delimiter.
use chatbox.Protocol.Decimal.{in_range, from_chars, print_digits, read_digits, to_string}
use chatbox.Common.{
  true, Option, length-append, All-append, ℕ, zero, suc, ◌+◌, ◌-◌, ◌*◌, ◌/◌, ◌%◌, ◌≤◌, ◌<◌, ◌≡◌,
  refl, ap, ◌∙◌, ◌≢◌, inl, inr, some, [], ◌∷◌, ◌++◌, arith, ltb, if◌then◌else◌, Bool-cases, length,
  All, Bytes,
}

read_digits-append :
    (xs : Bytes) (acc v d : ℕ)
    → read_digits acc xs ≡ some v
    → d < 10
    → read_digits acc (xs ++ (b'0' + d) ∷ []) ≡ some (v * 10 + d)
unfolding read_digits
read_digits-append [] acc v d e h = ground arith
read_digits-append (x ∷ xs) acc v d e h =
    ground (arith, read_digits-append xs (acc * 10 + (x - b'0')) v d)

read_digits-print_digits : (fuel n : ℕ) → n < fuel → read_digits 0 (print_digits fuel n) ≡ some n
unfolding print_digits
read_digits-print_digits zero n h = absurd (omega arith)
read_digits-print_digits (suc fuel) n h = elim (Bool-cases (ltb n 10)) [
  | inl small ↦ rw small (
      read_digits-append [] 0 0 (n % 10) (unfold read_digits in refl) (omega arith)
      ∙ ap some (ground arith))
  | inr large ↦ rw large (
      read_digits-append (print_digits fuel (n / 10)) 0 (n / 10) (n % 10)
        (read_digits-print_digits fuel (n / 10) (ground arith)) (omega arith)
      ∙ ap some (omega arith))
]

print_digits-ne-nil : (fuel n : ℕ) → print_digits (suc fuel) n ≢ []
unfolding print_digits
print_digits-ne-nil fuel n e =
    let h =
      length-append (if ltb n 10 then [] else print_digits fuel (n / 10)) ((b'0' + n % 10) ∷ []) in
    let k : length (print_digits (suc fuel) n) ≡ 0 = ap length e in absurd (omega (arith, h, k))

from_chars_at :
    (bound v : ℕ) (xs : Bytes)
    → xs ≢ []
    → read_digits 0 xs ≡ some v
    → v < bound
    → from_chars bound xs ≡ some v
unfolding from_chars
from_chars_at bound v [] ne e h = absurd (ne refl)
from_chars_at bound v (x ∷ xs) ne e h = rw e (ground arith)

-- The digits are read back.
pub read_digits-to_string : (n : ℕ) → (read_digits 0 (to_string n) ≡ some n) × (to_string n ≢ [])
unfolding to_string
read_digits-to_string n =
    (read_digits-print_digits (suc n) n (omega arith), print_digits-ne-nil n n)

-- A number below the bound is read back from its decimal text.
pub from_chars-to_string : (bound n : ℕ) → n < bound → from_chars bound (to_string n) ≡ some n
unfolding to_string
from_chars-to_string bound n h =
    from_chars_at bound n _ (print_digits-ne-nil n n)
      (read_digits-print_digits (suc n) n (omega arith)) h

abbrev pub IsDigit : ℕ → Type 0
IsDigit c = (b'0' ≤ c) × (c ≤ b'9')

print_digits-IsDigit : (fuel n : ℕ) → All IsDigit (print_digits fuel n)
unfolding print_digits
print_digits-IsDigit zero n = tt
print_digits-IsDigit (suc fuel) n =
    All-append IsDigit (if ltb n 10 then [] else print_digits fuel (n / 10)) _
      (elim (Bool-cases (ltb n 10)) [
        | inl small ↦ rw small tt
        | inr large ↦ rw large (print_digits-IsDigit fuel (n / 10))
      ])
      ((omega arith, omega arith), tt)

pub to_string-IsDigit : (n : ℕ) → All IsDigit (to_string n)
unfolding to_string
to_string-IsDigit n = print_digits-IsDigit (suc n) n

in_range-lt : (bound v : ℕ) (o : Option ℕ) → in_range bound o ≡ some v → v < bound
unfolding in_range
in_range-lt bound v o e = ground arith

pub from_chars-lt : (bound v : ℕ) (xs : Bytes) → from_chars bound xs ≡ some v → v < bound
unfolding from_chars
from_chars-lt bound v [] e = cc
from_chars-lt bound v (x ∷ xs) e = in_range-lt bound v _ e

-- 10^(k + 1).
abbrev pub ten_to : ℕ → ℕ
ten_to zero = 10
ten_to (suc k) = 10 * ten_to k

length-print_digits : (fuel k n : ℕ) → n < ten_to k → length (print_digits fuel n) ≤ suc k
unfolding print_digits
length-print_digits zero k n h = omega arith
length-print_digits (suc fuel) zero n h =
    let small : ltb n 10 ≡ true = ground (arith, h) in rw small (omega arith)
length-print_digits (suc fuel) (suc k) n h =
    let ih = length-print_digits fuel k (n / 10) (omega (arith, h)) in
    let l = length-append (print_digits fuel (n / 10)) ((b'0' + n % 10) ∷ []) in
    elim (Bool-cases (ltb n 10)) [
      | inl small ↦ rw small (omega arith)
      | inr large ↦ rw large (omega (arith, ih, l))
    ]

-- A number below 10^(k + 1) has at most k + 1 digits.
pub length-to_string : (k n : ℕ) → n < ten_to k → length (to_string n) ≤ suc k
unfolding to_string
length-to_string k n h = length-print_digits (suc n) k n h
