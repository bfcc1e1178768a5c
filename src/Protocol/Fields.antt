-- ===== src/Protocol/Fields.antt =====
-- Fields between '|' signs: `split_fields`, `rest_after_command` and `rest_after_delimiter` of
-- src/protocol/protocol.cpp.
pub mod Laws
use chatbox.Common.{ℕ, zero, suc, Option, none, some, List, [], ◌∷◌, ◌==◌, if◌then◌else◌, Bytes}

-- `first` joined to the front of the first field.
unfoldable pub onto_first : ℕ → List Bytes → List Bytes
onto_first c [] = (c ∷ []) ∷ []
onto_first c (f ∷ fs) = (c ∷ f) ∷ fs

-- The texts between the signs `sep`; there is one more of them than there are signs.
unfoldable pub split_at : ℕ → Bytes → List Bytes
unfolding onto_first
split_at sep [] = [] ∷ []
split_at sep (c ∷ cs) = if c == sep then [] ∷ split_at sep cs else onto_first c (split_at sep cs)

unfoldable pub split_fields : Bytes → List Bytes
unfolding split_at
split_fields payload = split_at b'|' payload

-- `find('|')`: what stands behind the first sign, or `none` for `npos`.
unfoldable pub after_delimiter : Bytes → Option Bytes
after_delimiter [] = none
after_delimiter (c ∷ cs) = if c == b'|' then some cs else after_delimiter cs

unfoldable pub rest_after_delimiter : Bytes → ℕ → Bytes
unfolding after_delimiter
rest_after_delimiter payload zero = payload
rest_after_delimiter payload (suc n) = elim (after_delimiter payload) [
  | none ↦ []
  | some rest ↦ rest_after_delimiter rest n
]

unfoldable pub rest_after_command : Bytes → Bytes
unfolding after_delimiter
rest_after_command payload = elim (after_delimiter payload) [ none ↦ [] | some rest ↦ rest ]
