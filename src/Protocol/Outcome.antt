-- ===== src/Protocol/Outcome.antt =====
-- src/protocol/protocol.h: `Error`, `Result`, the limits; `success` and `failure` of protocol.cpp.
use chatbox.Common.{
  inl, inr, List, [], ◌∷◌, All, bytes_eq, if◌then◌else◌, Bool-cases, ℕ, ◌≡◌, refl, Bytes, String,
  text,
}

pub data Error : Type 0 where
  empty_frame frame_too_large invalid_base64 empty_payload unknown_message : Error
  wrong_field_count invalid_field unsupported_version : Error

-- `Result<T>` holds a value, or an error with its detail text; `Error::None` goes with a value only.
pub data Result {ℓ} (A : Type ℓ) : Type ℓ where
  ok : A → Result A
  err : Error → Bytes → Result A

infixl 5 ◌>>=◌
abbrev pub ◌>>=◌ {ℓ κ} : {A : Type ℓ} {B : Type κ} → Result A → (A → Result B) → Result B
ok value >>= next = next value
err error detail >>= next = err error detail

-- `failure` with a literal text.
abbrev pub failure {ℓ} : {A : Type ℓ} → Error → String → Result A
failure e s = err e (text s)

pub bind-eq-ok {ℓ κ} :
    {A : Type ℓ} {B : Type κ} {y : B} (r : Result A) (next : A → Result B)
    → r >>= next ≡ ok y
    → (x : A) × (r ≡ ok x) × (next x ≡ ok y)
bind-eq-ok (ok x) next e = (x, refl, e)
bind-eq-ok (err error detail) next e = cc

pub ok-injective {ℓ} : {A : Type ℓ} {a b : A} → ok a ≡ ok b → a ≡ b
ok-injective e = cc

abbrev pub version : ℕ
version = 3

abbrev pub max_frame_length : ℕ
max_frame_length = 4096

abbrev pub max_chat_length : ℕ
max_chat_length = 1000

abbrev pub max_room_name_length : ℕ
max_room_name_length = 32

abbrev pub max_room_topic_length : ℕ
max_room_topic_length = 200

abbrev pub max_rooms : ℕ
max_rooms = 32

-- A ladder of `if (command == "...")` with one result for each literal.
unfoldable pub select {ℓ} : {A : Type ℓ} → Bytes → List (Bytes × A) → A → A
select command [] otherwise = otherwise
select command ((name, a) ∷ more) otherwise =
    if bytes_eq command name then a else select command more otherwise

-- What holds of every rung holds of the ladder.
pub select_All {ℓ κ} :
    {A : Type ℓ} (P : A → Type κ) (command : Bytes) (rungs : List (Bytes × A)) (otherwise : A)
    → All (λ rung. P rung.1) rungs
    → P otherwise
    → P (select command rungs otherwise)
unfolding select
select_All P command [] otherwise h k = k
select_All P command ((name, a) ∷ more) otherwise h k = elim (Bool-cases (bytes_eq command name)) [
  | inl e ↦ rw e h.0
  | inr e ↦ rw e (select_All P command more otherwise h.1 k)
]
