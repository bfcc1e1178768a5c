-- ===== src/Common/Order.antt =====
-- The order of strings, and maps in rising order of their keys.
use mathlib.Core.Path.{◌≡◌, refl}
use mathlib.Core.Bool.{true, false}
use mathlib.Core.Option.{none}
use mathlib.Core.List.{[], ◌∷◌}
use native.Mathlib.Omega.{arith}
use chatbox.Common.Tests.{if-elim}
use chatbox.Common.Lists.{All}
use chatbox.Common.Text.{Bytes, bytes_eq, bytes_lt}
use chatbox.Common.Maps.{StringMap, at_key, put_key, put_key-All}

pub bytes_lt_trans :
    (a b c : Bytes) → bytes_lt a b ≡ true → bytes_lt b c ≡ true → bytes_lt a c ≡ true
unfolding bytes_lt
bytes_lt_trans [] [] c h k = cc h
bytes_lt_trans [] (y ∷ b) [] h k = cc k
bytes_lt_trans [] (y ∷ b) (z ∷ c) h k = refl
bytes_lt_trans (x ∷ a) [] c h k = cc h
bytes_lt_trans (x ∷ a) (y ∷ b) [] h k = cc k
bytes_lt_trans (x ∷ a) (y ∷ b) (z ∷ c) h k = ground (arith, h, k, bytes_lt_trans a b c)

pub bytes_lt_ne : (a b : Bytes) → bytes_lt a b ≡ true → bytes_eq a b ≡ false
unfolding bytes_lt bytes_eq
bytes_lt_ne [] [] h = cc h
bytes_lt_ne [] (y ∷ b) h = refl
bytes_lt_ne (x ∷ a) [] h = refl
bytes_lt_ne (x ∷ a) (y ∷ b) h = ground (arith, h, bytes_lt_ne a b)

pub bytes_lt_total :
    (a b : Bytes) → bytes_eq a b ≡ false → bytes_lt a b ≡ false → bytes_lt b a ≡ true
unfolding bytes_lt bytes_eq
bytes_lt_total [] [] h k = cc h
bytes_lt_total [] (y ∷ b) h k = cc k
bytes_lt_total (x ∷ a) [] h k = refl
bytes_lt_total (x ∷ a) (y ∷ b) h k = ground (arith, h, k, bytes_lt_total a b)

module _ {ℓ} {A : Type ℓ} where
  -- The keys of a map come in rising order, so that none is there twice.
  abbrev pub Below : Bytes → StringMap A → Type 0
  Below key m = All (λ e. bytes_lt key e.0 ≡ true) m

  abbrev pub Ordered : StringMap A → Type 0
  Ordered [] = Unit
  Ordered ((k, v) ∷ m) = Below k m × Ordered m

  pub at_key-Below : (key : Bytes) (m : StringMap A) → Below key m → at_key key m ≡ none
  unfolding at_key
  at_key-Below key [] h = refl
  at_key-Below key ((k, v) ∷ m) (h, hs) = rw (bytes_lt_ne key k h) (at_key-Below key m hs)

  Below-trans : (a b : Bytes) (m : StringMap A) → bytes_lt a b ≡ true → Below b m → Below a m
  Below-trans a b [] h v = tt
  Below-trans a b ((k, w) ∷ m) h (v, vs) = (bytes_lt_trans a b k h v, Below-trans a b m h vs)

  pub put_key-Ordered :
      (key : Bytes) (value : A) (m : StringMap A) → Ordered m → Ordered (put_key key value m)
  unfolding put_key
  put_key-Ordered key value [] h = (tt, tt)
  put_key-Ordered key value ((k, v) ∷ m) (h, hs) =
      if-elim Ordered (bytes_eq key k) (λ e. (h, hs))
        (λ e.
          if-elim Ordered (bytes_lt key k) (λ l. ((l, Below-trans key k m l h), (h, hs)))
            (λ l. (
              put_key-All (λ e. bytes_lt k e.0 ≡ true) key value m (bytes_lt_total key k e l)
                  (λ j w p q. p) h,
              put_key-Ordered key value m hs,
            )))
