-- ===== src/Chat/Quota/Window.antt =====
-- The rate limit of one queue: what passes within a window, whatever the times of the messages.
use chatbox.Common.{
  length-append, ℕ, ◌+◌, ◌≤◌, ◌<◌, ◌≡◌, refl, sym, ap, ◌∙◌, inl, inr, false, List, [], ◌∷◌, ◌++◌,
  arith, ltb, leb, if◌then◌else◌, Bool-cases, length, All,
}
use chatbox.Common.{All-append}
use mathlib.Core.List.{append_assoc}
use chatbox.Chat.Quota.{
  Session, consume_message_quota, drop_old, consume, rate_limit_messages, rate_limit_window,
}

-- The messages of one queue, as they come: the time of the last one, the times of those that passed,
-- and the queue.
pub data Run : ℕ → List ℕ → List ℕ → Type 0 where
  start : Run 0 [] []
  step :
      {t : ℕ} {passed queue : List ℕ} (now : ℕ)
      → t ≤ now
      → Run t passed queue
      → Run now (if (consume now queue).1 then passed ++ now ∷ [] else passed) (consume now queue).0

-- How many of the times lie within the window that ends now.
pub within : ℕ → List ℕ → ℕ
within now [] = 0
within now (t ∷ ts) = (if leb now (t + rate_limit_window) then 1 else 0) + within now ts

abbrev IsOld : ℕ → ℕ → Type 0
IsOld now t = t + rate_limit_window < now

within-append : (now : ℕ) (xs ys : List ℕ) → within now (xs ++ ys) ≡ within now xs + within now ys
unfolding within
within-append now [] ys = omega arith
within-append now (x ∷ xs) ys = ground (arith, within-append now xs ys)

within-le : (now : ℕ) (ts : List ℕ) → within now ts ≤ length ts
unfolding within
within-le now [] = omega arith
within-le now (t ∷ ts) = ground (arith, within-le now ts)

within-old : (now : ℕ) (ts : List ℕ) → All (IsOld now) ts → within now ts ≡ 0
unfolding within
within-old now [] a = refl
within-old now (t ∷ ts) (h, a) = ground (arith, within-old now ts a)

IsOld-later : (t now : ℕ) (ts : List ℕ) → t ≤ now → All (IsOld t) ts → All (IsOld now) ts
IsOld-later t now [] h a = a
IsOld-later t now (x ∷ xs) h (k, a) = (omega arith, IsOld-later t now xs h a)

-- What is dropped is old.
drop_old-split :
    (now : ℕ) (ts : List ℕ)
    → (gone : List ℕ) × (ts ≡ gone ++ drop_old now ts) × All (IsOld now) gone
unfolding drop_old
drop_old-split now [] = ([], refl, tt)
drop_old-split now (t ∷ ts) =
    let (gone, e, a) = drop_old-split now ts in
    elim (Bool-cases (ltb (t + rate_limit_window) now)) [
      | inl h ↦ (t ∷ gone, rw h (ap (λ l. t ∷ l) e), (ground arith, a))
      | inr h ↦ ([], rw h refl, tt)
    ]

-- The bound and the split that the run keeps.
Kept : ℕ → List ℕ → List ℕ → Type 0
Kept now passed queue =
    (length queue ≤ rate_limit_messages)
    × (gone : List ℕ) × (passed ≡ gone ++ queue)
    × All (IsOld now) gone

Kept-consume :
    (t now : ℕ) (passed queue : List ℕ)
    → t ≤ now
    → Kept t passed queue
    → Kept now (if (consume now queue).1 then passed ++ now ∷ [] else passed) (consume now queue).0
unfolding Kept consume
Kept-consume t now passed queue h (n, gone, e, a) =
    let (more, d, b) = drop_old-split now queue in
    let size = ap length d ∙ length-append more (drop_old now queue) in
    let split = e ∙ ap (λ l. gone ++ l) d ∙ sym (append_assoc gone more (drop_old now queue)) in
    let old = All-append (IsOld now) gone more (IsOld-later t now gone h a) b in
    elim (Bool-cases (leb rate_limit_messages (length (drop_old now queue)))) [
      | inl full ↦ rw full (omega arith, gone ++ more, split, old)
      | inr free ↦ rw free (
        omega (arith, length-append (drop_old now queue) (now ∷ []), ltb_of free),
        gone ++ more,
        ap (λ l. l ++ now ∷ []) split ∙ append_assoc (gone ++ more) (drop_old now queue) (now ∷ []),
        old,
      )
    ]
  where
    ltb_of :
        leb rate_limit_messages (length (drop_old now queue)) ≡ false
        → length (drop_old now queue) < rate_limit_messages
    ltb_of f = ground arith

Run-Kept : (now : ℕ) (passed queue : List ℕ) → Run now passed queue → Kept now passed queue
unfolding Kept
Run-Kept _ _ _ start = (omega arith, [], refl, tt)
Run-Kept _ _ _ (step {t = t} {passed = passed} {queue = queue} now h r) =
    Kept-consume t now passed queue h (Run-Kept t passed queue r)

-- However the messages of one queue come, as long as the clock does not go back: of those that passed,
-- at most 20 lie within the last window, and the queue has at most 20 entries.
pub rate_limited :
    (now : ℕ) (passed queue : List ℕ)
    → Run now passed queue
    → (within now passed ≤ rate_limit_messages) × (length queue ≤ rate_limit_messages)
unfolding Kept
rate_limited now passed queue r =
    let (n, gone, e, a) = Run-Kept now passed queue r in
    (
      omega (
        arith,
        ap (within now) e,
        within-append now gone queue,
        within-old now gone a,
        within-le now queue,
      ),
      n,
    )

pub consume_message_quota-room :
    (now : ℕ) (c : Session) → (consume_message_quota now c).0.active_room_id ≡ c.active_room_id
unfolding consume_message_quota
consume_message_quota-room now c = refl
