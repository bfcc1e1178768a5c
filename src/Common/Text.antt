-- ===== src/Common/Text.antt =====
-- Byte strings. `std::string` and `std::string_view` are lists of bytes; the literals of the source
-- are ASCII, so their bytes are their code points.
use Prim.Native.Nat.{ℕ, ◌<◌}
use Prim.Native.Char.{code}
use Prim.Native.String.{String}
use mathlib.Core.Path.{◌≡◌, refl}
use mathlib.Core.Logic.{◌↔◌}
use mathlib.Core.Bool.{Bool, true, false, ◌&&◌, ◌||◌}
use mathlib.Core.List.{List, [], ◌∷◌}
use native.Mathlib.Omega.{arith}
use chatbox.Common.Tests.{ltb, ◌==◌}
use chatbox.Common.Lists.{All}

abbrev pub Bytes : Type 0
Bytes = List ℕ

abbrev pub codes : String → Bytes
codes String.[] = []
codes (String.◌∷◌ c s) = code c ∷ codes s

-- The same, shut: for the texts that the program only passes on.
unfoldable pub text : String → Bytes
text s = codes s

-- `operator==` of two strings.
unfoldable pub bytes_eq : Bytes → Bytes → Bool
bytes_eq [] [] = true
bytes_eq (x ∷ xs) (y ∷ ys) = x == y && bytes_eq xs ys
bytes_eq _ _ = false

-- `operator<` of two strings: the bytes are compared as unsigned numbers.
unfoldable pub bytes_lt : Bytes → Bytes → Bool
bytes_lt [] [] = false
bytes_lt [] (y ∷ ys) = true
bytes_lt (x ∷ xs) [] = false
bytes_lt (x ∷ xs) (y ∷ ys) = ltb x y || x == y && bytes_lt xs ys

pub bytes_eq_iff : (a b : Bytes) → (bytes_eq a b ≡ true) ↔ (a ≡ b)
unfolding bytes_eq
bytes_eq_iff (x ∷ a) (y ∷ b) = ground (arith, bytes_eq_iff a b)
bytes_eq_iff _ _ = ground arith

pub bytes_eq_refl : (x : Bytes) → bytes_eq x x ≡ true
bytes_eq_refl x = (bytes_eq_iff x x).1 refl

pub bytes_eq_sym : (a b : Bytes) → bytes_eq a b ≡ bytes_eq b a
unfolding bytes_eq
bytes_eq_sym (x ∷ a) (y ∷ b) = ground (arith, bytes_eq_sym a b)
bytes_eq_sym [] [] = refl
bytes_eq_sym [] (y ∷ b) = refl
bytes_eq_sym (x ∷ a) [] = refl

-- Each element of a string is a byte.
abbrev pub AreBytes : Bytes → Type 0
AreBytes = All (λ b. b < 256)
