-- ===== src/Helpers.antt =====
-- `split` and `join_fields` of src/common/utils.cpp, and the search for a separator.
pub mod Laws
use chatbox.Common.{
  ℕ, ◌+◌, Option, none, some, List, [], ◌∷◌, ◌++◌, ◌==◌, if◌then◌else◌, is_empty, Bytes,
}
use chatbox.Common.{drop}

-- `std::getline` over a string stream: no item comes after the last delimiter if nothing does.
unfoldable pub split_from : ℕ → Bytes → Bytes → List Bytes
split_from delim item [] = if is_empty item then [] else item ∷ []
split_from delim item (c ∷ cs) =
    if c == delim then item ∷ split_from delim [] cs else split_from delim (item ++ (c ∷ [])) cs

unfoldable pub split : Bytes → ℕ → List Bytes
unfolding split_from
split s delim = split_from delim [] s

-- `join_fields` from the first field on.
unfoldable pub join_all : List Bytes → ℕ → Bytes
join_all [] delim = []
join_all (field ∷ []) delim = field
join_all (field ∷ next ∷ fields) delim = field ++ (delim ∷ join_all (next ∷ fields) delim)

unfoldable pub join_fields : List Bytes → ℕ → ℕ → Bytes
unfolding join_all
join_fields fields start delim = join_all (drop start fields) delim

-- The text before the first separator, and the text behind it.
unfoldable pub cut_at : ℕ → Bytes → Option (Bytes × Bytes)
cut_at sep [] = none
cut_at sep (c ∷ cs) =
    if c == sep
    then some ([], cs)
    else elim (cut_at sep cs) [ none ↦ none | some (before, after) ↦ some (c ∷ before, after) ]
