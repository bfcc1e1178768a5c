-- ===== src/Protocol/Rules/Laws.antt =====
-- Checked fields hold no delimiter.
use chatbox.Common.{all_of, ℕ, ◌≡◌, Bool, true, false, [], ◌∷◌, arith, Bytes}
use chatbox.Protocol.Rules.{
  nickname_char, room_name_char, isxdigit, is_valid_nickname, is_valid_room_name, is_hex,
}
use chatbox.Protocol.Fields.Laws.{Avoids}

all_of-Avoids :
    (p : ℕ → Bool) (sep : ℕ) (xs : Bytes) → p sep ≡ false → all_of p xs ≡ true → Avoids sep xs
all_of-Avoids p sep [] n h = tt
all_of-Avoids p sep (x ∷ xs) n h =
    (λ e. avoid x e (ground arith), all_of-Avoids p sep xs n (ground arith))
  where
    avoid : (x : ℕ) → x ≡ sep → p x ≡ true → ⊥
    avoid x e t = cc

pub nickname-Avoids :
    (sep : ℕ) (xs : Bytes) → nickname_char sep ≡ false → is_valid_nickname xs ≡ true → Avoids sep xs
unfolding is_valid_nickname
nickname-Avoids sep xs n h = all_of-Avoids nickname_char sep xs n (ground arith)

pub room_name-Avoids :
    (sep : ℕ) (xs : Bytes)
    → room_name_char sep ≡ false
    → is_valid_room_name xs ≡ true
    → Avoids sep xs
unfolding is_valid_room_name
room_name-Avoids sep xs n h = all_of-Avoids room_name_char sep xs n (ground arith)

pub hex-Avoids :
    (sep : ℕ) (xs : Bytes) (count : ℕ)
    → isxdigit sep ≡ false
    → is_hex xs count ≡ true
    → Avoids sep xs
unfolding is_hex
hex-Avoids sep xs count n h = all_of-Avoids isxdigit sep xs n (ground arith)
