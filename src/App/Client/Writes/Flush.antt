-- ===== src/App/Client/Writes/Flush.antt =====
-- The client's frames all reach the stream, if the executor and the writes go on.
use chatbox.Common.{
  drop, length-append, ℕ, zero, suc, ◌+◌, ◌≤◌, ◌≡◌, refl, sym, ap, ◌∙◌, Bool, true, false, List, [],
  ◌∷◌, ◌++◌, arith, length, Bytes,
}
use mathlib.Core.List.{◌++◌, append-nil}
use chatbox.App.Client.{ChatClient, Task, write, shut, run_task, run_write, write_next, wrote}
use chatbox.App.Client.Writes.{
  Turn, task, written, turn, turns, Open, outgoing, frames_of, has_no_shut, turns-order, said, made,
}

repeat : ℕ → Turn → List Turn
repeat zero t = []
repeat (suc n) t = t ∷ repeat n t

-- Neither says anything.
said-nothing : (a b : ℕ) → said (repeat a task ++ repeat b written) ≡ []
unfolding repeat said
said-nothing (suc a) b = said-nothing a b
said-nothing zero (suc b) = said-nothing zero b
said-nothing zero zero = refl

-- After as many runs as there are tasks, none is left, and each has queued one frame at most.
tasks_run :
    (tasks : List Task) (c : ChatClient) (queue : List Bytes)
    → has_no_shut tasks ≡ true
    → let d = turns (made c true false tasks queue) (repeat (length tasks) task) in
      (d.posted ≡ []) × (length d.write_queue ≡ length queue + length tasks)
unfolding turns turn repeat run_task run_write write_next has_no_shut
tasks_run [] c queue h = (refl, omega arith)
tasks_run (shut ∷ tasks) c queue h = cc h
tasks_run (write wire ∷ tasks) c [] h =
    let (p, q) = tasks_run tasks (record c { wire = c.wire ++ (wire ∷ []) }) (wire ∷ []) h in
    (p, q ∙ omega arith)
tasks_run (write wire ∷ tasks) c (first ∷ queue) h =
    let (p, q) = tasks_run tasks c (first ∷ (queue ++ (wire ∷ []))) h in
    (p, q ∙ omega (arith, length-append queue (wire ∷ [])))

tasks_done :
    (c : ChatClient) (connected closing : Bool) (tasks : List Task) (queue : List Bytes)
    → connected ≡ true
    → closing ≡ false
    → has_no_shut tasks ≡ true
    → let d = turns (made c connected closing tasks queue) (repeat (length tasks) task) in
      (d.posted ≡ []) × (length d.write_queue ≡ length queue + length tasks)
tasks_done c true false tasks queue e f h = tasks_run tasks c queue h
tasks_done c false closing tasks queue e f h = cc e
tasks_done c true true tasks queue e f h = cc f

writes_run :
    (n : ℕ) (c : ChatClient) (queue : List Bytes)
    → length queue ≤ n
    → let d = turns (record c { write_queue = queue }) (repeat n written) in
      (d.posted ≡ c.posted) × (d.write_queue ≡ [])
unfolding turns turn repeat wrote write_next
writes_run zero c [] h = (refl, refl)
writes_run zero c (first ∷ queue) h = absurd (omega (arith, h))
writes_run (suc n) c [] h = writes_run n c [] (omega arith)
writes_run (suc n) c (first ∷ []) h = writes_run n c [] (omega arith)
writes_run (suc n) c (first ∷ second ∷ queue) h =
    writes_run n (record c { wire = c.wire ++ (second ∷ []) }) (second ∷ queue) (omega (arith, h))

turns-append : (c : ChatClient) (ts us : List Turn) → turns c (ts ++ us) ≡ turns (turns c ts) us
unfolding turns
turns-append c [] us = refl
turns-append c (t ∷ ts) us = turns-append (turn c t) ts us

-- So many turns of the executor and of the write handlers are enough.
pub flush : ChatClient → List Turn
unfolding repeat
flush c = repeat (length c.posted) task ++ repeat (length c.write_queue + length c.posted) written

-- From an open connection, as many runs of the executor as there are tasks, and then as many
-- completed writes as there are frames, hand everything that was outgoing to the stream, in order,
-- and leave no write in flight.
pub flush-wire :
    (c : ChatClient)
    → Open c
    → let d = turns c (flush c) in (d.wire ≡ outgoing c) × (d.write_queue ≡ []) × (d.posted ≡ [])
unfolding flush outgoing frames_of
flush-wire c v =
    let (p, q) =
      tasks_done c c.connected c.closing c.posted c.write_queue v.connected v.closing v.no_shut in
    let (x, y) = writes_run count middle middle.write_queue (omega (arith, q)) in
    let (_, order) = turns-order c (flush c) v in
    (
      ap (λ d. d.wire) split
          ∙ sym (idle ends y (x ∙ p))
          ∙ ap outgoing (sym split)
          ∙ order
          ∙ ap (λ zs. outgoing c ++ zs) (said-nothing (length c.posted) count)
          ∙ append-nil (outgoing c),
      ap (λ d. d.write_queue) split ∙ y,
      ap (λ d. d.posted) split ∙ x ∙ p,
    )
  where
    count : ℕ
    count = length c.write_queue + length c.posted

    middle : ChatClient
    middle = turns c (repeat (length c.posted) task)

    ends : ChatClient
    ends = turns middle (repeat count written)

    split : turns c (flush c) ≡ ends
    split = turns-append c (repeat (length c.posted) task) (repeat count written)

    idle : (d : ChatClient) → d.write_queue ≡ [] → d.posted ≡ [] → outgoing d ≡ d.wire
    idle d e f =
        ap (λ zs. d.wire ++ (drop 1 zs ++ frames_of d.posted)) e
        ∙ ap (λ zs. d.wire ++ frames_of zs) f
        ∙ append-nil d.wire
