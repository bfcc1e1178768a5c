-- ===== src/Common/Maps.antt =====
-- `std::map` with strings for keys, as a list in rising order of the keys.
use mathlib.Core.Path.{◌≡◌, refl, ap, subst}
use mathlib.Core.Logic.{inl, inr}
use mathlib.Core.Bool.{true, false}
use mathlib.Core.Option.{Option, none, some}
use mathlib.Core.List.{List, [], ◌∷◌}
use chatbox.Common.Tests.{if◌then◌else◌, Bool-cases, if-elim}
use chatbox.Common.Lists.{All}
use chatbox.Common.Text.{Bytes, bytes_eq, bytes_lt, bytes_eq_iff, bytes_eq_refl}

abbrev pub StringMap {ℓ} : Type ℓ → Type ℓ
StringMap A = List (Bytes × A)

module _ {ℓ} {A : Type ℓ} where
  -- `find`.
  unfoldable pub at_key : Bytes → StringMap A → Option A
  at_key key [] = none
  at_key key ((k, v) ∷ m) = if bytes_eq key k then some v else at_key key m

  -- `m[key] = value`.
  unfoldable pub put_key : Bytes → A → StringMap A → StringMap A
  put_key key value [] = (key, value) ∷ []
  put_key key value ((k, v) ∷ m) =
      if bytes_eq key k
      then (k, value) ∷ m
      else if bytes_lt key k
      then (key, value) ∷ (k, v) ∷ m
      else (k, v) ∷ put_key key value m

  -- `erase`.
  unfoldable pub drop_key : Bytes → StringMap A → StringMap A
  drop_key key [] = []
  drop_key key ((k, v) ∷ m) = if bytes_eq key k then drop_key key m else (k, v) ∷ drop_key key m

  pub at_key-put_key_same :
      (key : Bytes) (value : A) (m : StringMap A) → at_key key (put_key key value m) ≡ some value
  unfolding at_key put_key
  at_key-put_key_same key value [] = rw (bytes_eq_refl key) refl
  at_key-put_key_same key value ((k, v) ∷ m) = elim (Bool-cases (bytes_eq key k)) [
    | inl e ↦ rw e (rw e refl)
    | inr e ↦ rw e (elim (Bool-cases (bytes_lt key k)) [
      | inl l ↦ rw l (rw (bytes_eq_refl key) refl)
      | inr l ↦ rw l (rw e (at_key-put_key_same key value m))
    ])
  ]

  pub at_key-put_key_other :
      (z key : Bytes) (value : A) (m : StringMap A)
      → bytes_eq z key ≡ false
      → at_key z (put_key key value m) ≡ at_key z m
  unfolding at_key put_key
  at_key-put_key_other z key value [] h = rw h refl
  at_key-put_key_other z key value ((k, v) ∷ m) h = elim (Bool-cases (bytes_eq key k)) [
    | inl e ↦
        let apart : bytes_eq z k ≡ false =
          subst (λ w. bytes_eq z w ≡ false) ((bytes_eq_iff key k).0 e) h in
        rw e (rw apart refl)
    | inr e ↦ rw e (elim (Bool-cases (bytes_lt key k)) [
      | inl l ↦ rw l (rw h refl)
      | inr l ↦
          rw l (ap (λ o. if bytes_eq z k then some v else o) (at_key-put_key_other z key value m h))
    ])
  ]

  -- A predicate of every entry.
  pub put_key-All {κ} :
      (P : Bytes × A → Type κ) (key : Bytes) (value : A) (m : StringMap A)
      → P (key, value)
      → ((k : Bytes) (v : A) → P (k, v) → bytes_eq key k ≡ true → P (k, value))
      → All P m
      → All P (put_key key value m)
  unfolding put_key
  put_key-All P key value [] h r v = (h, tt)
  put_key-All P key value ((k, w) ∷ m) h r (p, ps) =
      if-elim (All P) (bytes_eq key k) (λ e. (r k w p e, ps))
        (λ _.
          if-elim (All P) (bytes_lt key k) (λ _. (h, (p, ps)))
            (λ _. (p, put_key-All P key value m h r ps)))

  pub drop_key-All {κ} :
      (P : Bytes × A → Type κ) (key : Bytes) (m : StringMap A) → All P m → All P (drop_key key m)
  unfolding drop_key
  drop_key-All P key [] v = tt
  drop_key-All P key ((k, w) ∷ m) (p, ps) =
      if-elim (All P) (bytes_eq key k) (λ _. drop_key-All P key m ps)
        (λ _. (p, drop_key-All P key m ps))
