-- ===== src/App/State/Transcript.antt =====
-- What the messages of the state are, for any order of calls: the end of what was pushed since the
-- last change of room, with numbers that go on.
use chatbox.Common.{
  length-drop, drop, length-append, ℕ, zero, suc, ◌+◌, ◌-◌, ◌%◌, ◌≤◌, ◌<◌, ◌≡◌, refl, sym, ap, ◌∙◌,
  subst, inl, inr, List, [], ◌∷◌, ◌++◌, arith, ltb, Bool-cases, length, Bytes,
}
use mathlib.Core.List.{◌++◌}
use chatbox.Protocol.Server.{RoomSummary, u64_bound}
use native.Mathlib.Nat.{mod-add-mod}
use chatbox.App.State.{
  AppState, max_messages, clear_messages, update_room_users, mark_kicked, push_message,
  reset_chat_state, activate_room, update_room_topic, update_room_list, bounded,
}

pub data Call : Type 0 where
  clear kick reset : Call
  push : Bytes → Call
  users : ℕ → List Bytes → Call
  activate : ℕ → Bytes → Bytes → Call
  topic : ℕ → Bytes → Call
  rooms : List RoomSummary → Call

pub call : AppState → Call → AppState
call s clear = clear_messages s
call s kick = mark_kicked s
call s reset = reset_chat_state s
call s (push msg) = push_message s msg
call s (users id names) = update_room_users s id names
call s (activate id name t) = activate_room s id name t
call s (topic id t) = update_room_topic s id t
call s (rooms list) = update_room_list s list

pub call_all : AppState → List Call → AppState
unfolding call
call_all s [] = s
call_all s (c ∷ cs) = call_all (call s c) cs

-- What the calls ask to be shown, without a limit.
pub pushed : List Bytes → List Call → List Bytes
pushed log [] = log
pushed log (push msg ∷ cs) = pushed (log ++ (msg ∷ [])) cs
pushed log (clear ∷ cs) = pushed [] cs
pushed log (reset ∷ cs) = pushed [] cs
pushed log (activate _ _ _ ∷ cs) = pushed [] cs
pushed log (kick ∷ cs) = pushed log cs
pushed log (users _ _ ∷ cs) = pushed log cs
pushed log (topic _ _ ∷ cs) = pushed log cs
pushed log (rooms _ ∷ cs) = pushed log cs

pub pushes : List Call → ℕ
pushes [] = 0
pushes (push _ ∷ cs) = 1 + pushes cs
pushes (_ ∷ cs) = pushes cs

-- The end of a list, of at most `n` elements.
abbrev pub last : ℕ → List Bytes → List Bytes
last n xs = drop (length xs - n) xs

drop-append : (k : ℕ) (xs ys : List Bytes) → k ≤ length xs → drop k (xs ++ ys) ≡ drop k xs ++ ys
drop-append zero xs ys h = refl
drop-append (suc k) [] ys h = absurd (omega (arith, h))
drop-append (suc k) (x ∷ xs) ys h = drop-append k xs ys (omega (arith, h))

drop-drop : (k : ℕ) (xs : List Bytes) → drop 1 (drop k xs) ≡ drop (suc k) xs
drop-drop zero xs = refl
drop-drop (suc k) [] = refl
drop-drop (suc k) (x ∷ xs) = drop-drop k xs

bounded-few : (xs : List Bytes) → length xs ≤ max_messages → bounded xs ≡ xs
unfolding bounded
bounded-few xs h = ground (arith, h)

bounded-many : (xs : List Bytes) → max_messages < length xs → bounded xs ≡ drop 1 xs
unfolding bounded
bounded-many xs h = ground (arith, h)

-- A list that is short enough is its own end.
last-few : (n : ℕ) (xs : List Bytes) → length xs ≤ n → last n xs ≡ xs
last-few n xs h = ap (λ k. drop k xs) none_cut
  where
    none_cut : length xs - n ≡ 0
    none_cut = omega (arith, h)

length-snoc : (xs : List Bytes) (x : Bytes) → length (xs ++ (x ∷ [])) ≡ length xs + 1
length-snoc xs x = length-append xs (x ∷ [])

last-length : (n : ℕ) (xs : List Bytes) → n ≤ length xs → length (last n xs) ≡ n
last-length n xs h = length-drop (length xs - n) xs ∙ omega (arith, h)

-- To keep the end and to add one is to add one and to keep the end.
bounded-last :
    (log : List Bytes) (msg : Bytes)
    → bounded (last max_messages log ++ (msg ∷ [])) ≡ last max_messages (log ++ (msg ∷ []))
bounded-last log msg = elim (Bool-cases (ltb (length log) max_messages)) [
  | inl few ↦
      let small : length log + 1 ≤ max_messages = ground (arith, few) in
      let short = subst (λ n. n ≤ max_messages) (sym (length-snoc log msg)) small in
      ap (λ xs. bounded (xs ++ (msg ∷ []))) (last-few max_messages log (omega (arith, small)))
      ∙ bounded-few (log ++ (msg ∷ [])) short
      ∙ sym (last-few max_messages (log ++ (msg ∷ [])) short)
  | inr many ↦
      let large : max_messages ≤ length log = ground (arith, many) in
      let over = length-snoc (last max_messages log) msg in
      let full = last-length max_messages log large in
      let cut = length log - max_messages in
      let next : suc cut ≡ length (log ++ (msg ∷ [])) - max_messages =
        omega (arith, length-snoc log msg, large) in
      bounded-many (last max_messages log ++ (msg ∷ [])) (omega (arith, over, full))
      ∙ ap (drop 1) (sym (drop-append cut log (msg ∷ []) (omega arith)))
      ∙ drop-drop cut (log ++ (msg ∷ []))
      ∙ ap (λ k. drop k (log ++ (msg ∷ []))) next
]

-- What the state keeps of the calls.
pub record Shows (total : ℕ) (log : List Bytes) (s : AppState) : Type 0 where
  pub messages : s.messages ≡ last max_messages log
  pub sequence : s.message_sequence ≡ total % u64_bound

push_message-Shows :
    (total : ℕ) (log : List Bytes) (s : AppState) (msg : Bytes)
    → Shows total log s
    → Shows (total + 1) (log ++ (msg ∷ [])) (push_message s msg)
unfolding push_message
push_message-Shows total log s msg v = record {
  messages = ap (λ xs. bounded (xs ++ (msg ∷ []))) v.messages ∙ bounded-last log msg;
  sequence = ap (λ n. (n + 1) % u64_bound) v.sequence ∙ mod-add-mod total u64_bound 1;
}

emptied-Shows :
    (total : ℕ) (log : List Bytes) (s t : AppState)
    → t.messages ≡ []
    → t.message_sequence ≡ s.message_sequence
    → Shows total log s
    → Shows total [] t
emptied-Shows total log s t e q v = record { messages = e; sequence = q ∙ v.sequence }

other-Shows :
    (total : ℕ) (log : List Bytes) (s t : AppState)
    → t.messages ≡ s.messages
    → t.message_sequence ≡ s.message_sequence
    → Shows total log s
    → Shows total log t
other-Shows total log s t e q v = record { messages = e ∙ v.messages; sequence = q ∙ v.sequence }

-- For any calls in any order: the messages are the last 200 of those pushed since the last call that
-- emptied the transcript, oldest first, and the sequence counts all that were ever pushed, modulo
-- 2 ^ 64, if both are so before.
pub call_all-refines :
    (total : ℕ) (log : List Bytes) (s : AppState) (cs : List Call)
    → Shows total log s
    → Shows (total + pushes cs) (pushed log cs) (call_all s cs)
unfolding call_all pushed pushes call clear_messages reset_chat_state activate_room mark_kicked
    update_room_users update_room_topic update_room_list
call_all-refines total log s [] v = subst (λ n. Shows n log s) (omega arith) v
call_all-refines total log s (push msg ∷ cs) v =
    subst (λ n. Shows n (pushed (log ++ (msg ∷ [])) cs) (call_all (push_message s msg) cs))
      (omega arith)
      (call_all-refines (total + 1) (log ++ (msg ∷ [])) (push_message s msg) cs
        (push_message-Shows total log s msg v))
call_all-refines total log s (clear ∷ cs) v =
    call_all-refines total [] (clear_messages s) cs
      (emptied-Shows total log s (clear_messages s) refl refl v)
call_all-refines total log s (reset ∷ cs) v =
    call_all-refines total [] (reset_chat_state s) cs
      (emptied-Shows total log s (reset_chat_state s) refl refl v)
call_all-refines total log s (activate id name t ∷ cs) v =
    call_all-refines total [] (activate_room s id name t) cs
      (emptied-Shows total log s (activate_room s id name t) refl refl v)
call_all-refines total log s (kick ∷ cs) v =
    call_all-refines total log (mark_kicked s) cs
      (other-Shows total log s (mark_kicked s) refl refl v)
call_all-refines total log s (users id names ∷ cs) v =
    call_all-refines total log (update_room_users s id names) cs
      (other-Shows total log s (update_room_users s id names) refl refl v)
call_all-refines total log s (topic id t ∷ cs) v =
    call_all-refines total log (update_room_topic s id t) cs
      (other-Shows total log s (update_room_topic s id t) refl refl v)
call_all-refines total log s (rooms list ∷ cs) v =
    call_all-refines total log (update_room_list s list) cs
      (other-Shows total log s (update_room_list s list) refl refl v)
