-- ===== src/Network/Fields/Laws.antt =====
-- Which fields come back: a cleaned text is clean, and is the same when it is cleaned again; a printed
-- number is read again.
use chatbox.Common.{
  ℕ, suc, ◌+◌, ◌-◌, ◌*◌, ◌^◌, ◌≤◌, ◌<◌, ◌≡◌, refl, sym, ◌∙◌, ◌≢◌, Bool, true, false, ◌||◌, Option,
  none, some, [], ◌∷◌, ◌++◌, arith, ltb, leb, ◌==◌, if◌then◌else◌, length, All, Bytes,
}
use chatbox.Common.{length-append, All-append, if-elim}
use mathlib.Core.List.{append_assoc, append-nil}
use chatbox.Protocol.Decimal.{read_digits, to_string}
use chatbox.Protocol.Decimal.RoundTrip.{read_digits-to_string, to_string-IsDigit, IsDigit}
use chatbox.Protocol.Rules.{iscntrl, isspace}
use chatbox.Network.Fields.{
  as_u16, not_below_zero, Parsed, scan_digits, checked, stoi, stoi_from, stoi_sign, parse_u16_field,
  count_field, sanitize_from, sanitize_browser_field, port_bound,
}

abbrev IsClean : Bytes → Type 0
IsClean = All (λ ch. (iscntrl ch || ch == b'|') ≡ false)

-- A field that the directory takes as it is.
abbrev pub IsField : ℕ → Bytes → Type 0
IsField max_len field = IsClean field × (length field ≤ max_len)

sanitize_from-IsField :
    (max_len : ℕ) (out s : Bytes)
    → IsField max_len out
    → IsField max_len (sanitize_from max_len out s)
unfolding sanitize_from
sanitize_from-IsField max_len out [] h = h
sanitize_from-IsField max_len out (ch ∷ chs) (clean, short) =
    if-elim (IsField max_len) (leb max_len (length out)) (λ _. (clean, short))
      (λ room.
        sanitize_from-IsField max_len (if iscntrl ch || ch == b'|' then out else out ++ (ch ∷ []))
          chs
          (if-elim (IsField max_len) (iscntrl ch || ch == b'|') (λ _. (clean, short))
            (λ e. (
              All-append (λ ch. (iscntrl ch || ch == b'|') ≡ false) out (ch ∷ []) clean (e, tt),
              ground (arith, room, length-append out (ch ∷ [])),
            ))))

pub sanitize_browser_field-IsField :
    (s : Bytes) (max_len : ℕ) → IsField max_len (sanitize_browser_field s max_len)
unfolding sanitize_browser_field
sanitize_browser_field-IsField s max_len = sanitize_from-IsField max_len [] s (tt, omega arith)

sanitize_from_same :
    (max_len : ℕ) (out s : Bytes)
    → IsClean s
    → length out + length s ≤ max_len
    → sanitize_from max_len out s ≡ out ++ s
unfolding sanitize_from
sanitize_from_same max_len out [] h k = sym (append-nil out)
sanitize_from_same max_len out (ch ∷ chs) (h, hs) k =
    rw (room, sanitize_from)
      (rw h (
        sanitize_from_same max_len (out ++ (ch ∷ [])) chs hs
          (omega (arith, k, length-append out (ch ∷ [])))
        ∙ append_assoc out (ch ∷ []) chs))
  where
    room : leb max_len (length out) ≡ false
    room = ground (arith, k)

pub sanitize_browser_field_same :
    (s : Bytes) (max_len : ℕ) → IsField max_len s → sanitize_browser_field s max_len ≡ s
unfolding sanitize_browser_field
sanitize_browser_field_same s max_len (clean, short) =
    sanitize_from_same max_len [] s clean (omega arith)

scan_digits-read_digits :
    (value : ℕ) (digits : Bytes) (v : ℕ)
    → All IsDigit digits
    → read_digits value digits ≡ some v
    → scan_digits value digits ≡ (v, length digits)
unfolding scan_digits read_digits
scan_digits-read_digits value [] v h e = ground (arith, e)
scan_digits-read_digits value (c ∷ cs) v ((low, high), hs) e =
    ground (arith, low, high, e, scan_digits-read_digits (value * 10 + (c - b'0')) cs v hs)

stoi-digits :
    (digits : Bytes) (v : ℕ)
    → digits ≢ []
    → All IsDigit digits
    → read_digits 0 digits ≡ some v
    → v < 2 ^ 31
    → stoi digits ≡ some (record { is_negative = false; magnitude = v; consumed = length digits })
unfolding stoi stoi_from stoi_sign checked
stoi-digits [] v ne h e k = absurd (ne refl)
stoi-digits (c ∷ cs) v ne ((low, high), hs) e k =
    rw (space, stoi_from)
      (rw (minus, stoi_sign)
        (rw plus (
          rw (scan_digits-read_digits 0 (c ∷ cs) v ((low, high), hs) e)
            (rw fits (rw some_digits (ground arith))))))
  where
    space : isspace c ≡ false
    space = ground (arith, low, high)

    minus : (c == b'-') ≡ false
    minus = ground (arith, low)

    plus : (c == b'+') ≡ false
    plus = ground (arith, low)

    some_digits : (suc (length cs) == 0) ≡ false
    some_digits = ground arith

    fits : ltb (2 ^ 31 - 1) v ≡ false
    fits = ground (arith, k)

pub stoi-to_string :
    (n : ℕ)
    → n < 2 ^ 31
    → stoi (to_string n)
      ≡ some (record { is_negative = false; magnitude = n; consumed = length (to_string n) })
stoi-to_string n h =
    let (e, ne) = read_digits-to_string n in
    stoi-digits (to_string n) n ne (to_string-IsDigit n) e h

pub parse_u16_field-to_string :
    (port : ℕ) → port < port_bound → parse_u16_field (to_string port) ≡ some port
unfolding parse_u16_field
parse_u16_field-to_string port h = rw (stoi-to_string port (omega arith)) (ground (arith, h))

pub count_field-to_string : (n : ℕ) → n < 2 ^ 31 → count_field (to_string n) ≡ n
unfolding count_field
count_field-to_string n h = rw (stoi-to_string n h, count_field) refl

-- A number that is not negative is below 2^31.
Fits : Option Parsed → Type 0
Fits none = Unit
Fits (some parsed) = parsed.is_negative ≡ false → parsed.magnitude < 2 ^ 31

checked-Fits :
    (is_negative : Bool) (before : ℕ) (scanned : ℕ × ℕ) → Fits (checked is_negative before scanned)
unfolding checked Fits
checked-Fits true before (value, count) =
    if-elim Fits (count == 0) (λ _. tt)
      (λ _. if-elim Fits (ltb (2 ^ 31) value) (λ _. tt) (λ _ h. cc h))
checked-Fits false before (value, count) =
    if-elim Fits (count == 0) (λ _. tt)
      (λ _. if-elim Fits (ltb (2 ^ 31 - 1) value) (λ _. tt) (λ e _. ground (arith, e)))

stoi_sign-Fits : (before : ℕ) (s : Bytes) → Fits (stoi_sign before s)
unfolding stoi_sign Fits
stoi_sign-Fits before [] = tt
stoi_sign-Fits before (c ∷ cs) =
    if-elim Fits (c == b'-') (λ _. checked-Fits true (suc before) (scan_digits 0 cs))
      (λ _.
        if-elim Fits (c == b'+') (λ _. checked-Fits false (suc before) (scan_digits 0 cs))
          (λ _. checked-Fits false before (scan_digits 0 (c ∷ cs))))

stoi_from-Fits : (before : ℕ) (s : Bytes) → Fits (stoi_from before s)
unfolding stoi_from Fits
stoi_from-Fits before [] = tt
stoi_from-Fits before (c ∷ cs) =
    if-elim Fits (isspace c) (λ _. stoi_from-Fits (suc before) cs)
      (λ _. stoi_sign-Fits before (c ∷ cs))

pub count_field-lt : (s : Bytes) → count_field s < 2 ^ 31
unfolding count_field not_below_zero stoi Fits
count_field-lt s = step (stoi s) (stoi_from-Fits 0 s)
  where
    step :
        (r : Option Parsed)
        → Fits r
        → elim r [ none ↦ 0 | some parsed ↦ not_below_zero parsed ] < 2 ^ 31
    step none h = omega arith
    step (some parsed) h = if-elim (λ (n : ℕ). n < 2 ^ 31) parsed.is_negative (λ _. omega arith) h

as_u16-lt : (s : Bytes) (r : Option Parsed) (port : ℕ) → as_u16 s r ≡ some port → port < port_bound
unfolding as_u16
as_u16-lt s none port h = cc h
as_u16-lt s (some parsed) port h = ground (arith, h)

pub parse_u16_field-lt : (s : Bytes) (port : ℕ) → parse_u16_field s ≡ some port → port < port_bound
unfolding parse_u16_field
parse_u16_field-lt s port h = as_u16-lt s (stoi s) port h
