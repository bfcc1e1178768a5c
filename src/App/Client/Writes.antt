-- ===== src/App/Client/Writes.antt =====
-- The order of the client's frames: they reach the stream as they were sent, one at a time.
pub mod Flush
use chatbox.Common.{
  drop, ◌+◌, ◌-◌, ◌≡◌, refl, sym, ap, ◌∙◌, subst, Bool, true, false, not, none, List, [], ◌∷◌, ◌++◌,
  if◌then◌else◌, is_empty, Bytes, text,
}
use mathlib.Core.List.{append-nil, append_assoc, ◌++◌}
use chatbox.Protocol.Outcome.{Result, ok, err}
use chatbox.Protocol.Client.{ClientMessage}
use chatbox.Protocol.Codec.{encode_client_frame}
use chatbox.App.Client.{
  ChatClient, Task, write, shut, shown, send, run_task, run_write, write_next, send_encoded, wrote,
  send_encoded,
}

-- The frames that are posted and not queued yet; the task of `close` is none.
frames_of : List Task → List Bytes
frames_of [] = []
frames_of (write wire ∷ tasks) = wire ∷ frames_of tasks
frames_of (shut ∷ tasks) = frames_of tasks

frames_of-append : (xs ys : List Task) → frames_of (xs ++ ys) ≡ frames_of xs ++ frames_of ys
unfolding frames_of
frames_of-append [] ys = refl
frames_of-append (write wire ∷ xs) ys = ap (λ zs. wire ∷ zs) (frames_of-append xs ys)
frames_of-append (shut ∷ xs) ys = frames_of-append xs ys

unfoldable pub has_no_shut : List Task → Bool
has_no_shut [] = true
has_no_shut (write _ ∷ tasks) = has_no_shut tasks
has_no_shut (shut ∷ tasks) = false

-- Every frame that was handed to the stream, waits in the queue behind the one in flight, or is posted.
pub outgoing : ChatClient → List Bytes
unfolding frames_of
outgoing c = c.wire ++ (drop 1 c.write_queue ++ frames_of c.posted)

-- The connection is up and nobody closes it.
pub record Open (c : ChatClient) : Type 0 where
  pub connected : c.connected ≡ true
  pub closing : c.closing ≡ false
  pub no_shut : has_no_shut c.posted ≡ true

-- What happens to the writes of an open connection. The handler of a write runs if one is in flight.
pub data Turn : Type 0 where
  say : ClientMessage → Turn
  task written : Turn

pub turn : ChatClient → Turn → ChatClient
turn c (say m) = send c m
turn c task = run_task c
turn c written = if is_empty c.write_queue then c else wrote c none

pub turns : ChatClient → List Turn → ChatClient
unfolding turn
turns c [] = c
turns c (t ∷ ts) = turns (turn c t) ts

-- The frame of a message, if it has one.
framed : Result Bytes → List Bytes
framed (err e detail) = []
framed (ok wire) = wire ∷ []

frame : ClientMessage → List Bytes
frame m = framed (encode_client_frame m)

pub said : List Turn → List Bytes
unfolding frame
said [] = []
said (say m ∷ ts) = frame m ++ said ts
said (task ∷ ts) = said ts
said (written ∷ ts) = said ts

-- A turn keeps the connection open, and adds what it says at the end.
Turned : List Bytes → ChatClient → ChatClient → Type 0
Turned new c d = Open d × (outgoing d ≡ outgoing c ++ new)

-- A client with these parts.
abbrev made : ChatClient → Bool → Bool → List Task → List Bytes → ChatClient
made c connected closing posted queue = record c {
  connected = connected;
  closing = closing;
  posted = posted;
  write_queue = queue;
}

has_no_shut-append :
    (tasks : List Task) (wire : Bytes)
    → has_no_shut tasks ≡ true
    → has_no_shut (tasks ++ (write wire ∷ [])) ≡ true
unfolding has_no_shut
has_no_shut-append [] wire h = refl
has_no_shut-append (write _ ∷ tasks) wire h = has_no_shut-append tasks wire h
has_no_shut-append (shut ∷ tasks) wire h = cc h

unmoved : (c : ChatClient) → Open c → Turned [] c c
unfolding Turned
unmoved c v = (v, sym (append-nil (outgoing c)))

shown-Turned : (c : ChatClient) (text : Bytes) → Open c → Turned [] c (shown c text)
unfolding Turned outgoing shown
shown-Turned c text v = (
  record { connected = v.connected; closing = v.closing; no_shut = v.no_shut },
  sym (append-nil (outgoing c)),
)

posted-Turned :
    (c : ChatClient) (wire : Bytes)
    → Open c
    → Turned (wire ∷ []) c (record c { posted = c.posted ++ (write wire ∷ []) })
unfolding Turned outgoing frames_of
posted-Turned c wire v = (
  record {
    connected = v.connected;
    closing = v.closing;
    no_shut = has_no_shut-append c.posted wire v.no_shut;
  },
  ap (λ zs. c.wire ++ (drop 1 c.write_queue ++ zs)) (frames_of-append c.posted (write wire ∷ []))
      ∙ ap (λ zs. c.wire ++ zs)
          (sym (append_assoc (drop 1 c.write_queue) (frames_of c.posted) (wire ∷ [])))
      ∙ sym (append_assoc c.wire (drop 1 c.write_queue ++ frames_of c.posted) (wire ∷ [])),
)

send_encoded-Turned :
    (c : ChatClient) (r : Result Bytes) → Open c → Turned (framed r) c (send_encoded c r)
unfolding send_encoded framed
send_encoded-Turned c (err e detail) v =
    shown-Turned c (text "[system] Could not encode message: " ++ detail) v
send_encoded-Turned c (ok wire) v = posted-Turned c wire v

module _ (c : ChatClient) where
  send-made :
      (m : ClientMessage) (connected closing : Bool) (posted : List Task) (queue : List Bytes)
      → Open (made c connected closing posted queue)
      → Turned
          (frame m)
          (made c connected closing posted queue)
          (send (made c connected closing posted queue) m)
  unfolding send frame
  send-made m false closing posted queue v = cc (v.connected)
  send-made m true true posted queue v = cc (v.closing)
  send-made m true false posted queue v =
      send_encoded-Turned (made c true false posted queue) (encode_client_frame m) v

  run_task-made :
      (connected closing : Bool) (posted : List Task) (queue : List Bytes)
      → Open (made c connected closing posted queue)
      → Turned []
          (made c connected closing posted queue)
          (run_task (made c connected closing posted queue))
  unfolding run_task run_write write_next Turned outgoing frames_of has_no_shut
  run_task-made false closing posted queue v = cc (v.connected)
  run_task-made true true posted queue v = cc (v.closing)
  run_task-made true false [] queue v = unmoved (made c true false [] queue) v
  run_task-made true false (shut ∷ tasks) queue v = cc (v.no_shut)
  run_task-made true false (write wire ∷ tasks) [] v = (
    record { connected = refl; closing = refl; no_shut = v.no_shut },
    append_assoc c.wire (wire ∷ []) (frames_of tasks) ∙ sym (append-nil _),
  )
  run_task-made true false (write wire ∷ tasks) (first ∷ queue) v = (
    record { connected = refl; closing = refl; no_shut = v.no_shut },
    ap (λ zs. c.wire ++ zs) (append_assoc queue (wire ∷ []) (frames_of tasks)) ∙ sym (append-nil _),
  )

  written-made :
      (queue : List Bytes)
      → Open (record c { write_queue = queue })
      → Turned []
          (record c { write_queue = queue })
          (turn (record c { write_queue = queue }) written)
  unfolding turn wrote write_next Turned outgoing
  written-made [] v = unmoved (record c { write_queue = [] }) v
  written-made (first ∷ []) v = (
    record { connected = v.connected; closing = v.closing; no_shut = v.no_shut },
    sym (append-nil _),
  )
  written-made (first ∷ second ∷ queue) v = (
    record { connected = v.connected; closing = v.closing; no_shut = v.no_shut },
    append_assoc c.wire (second ∷ []) (queue ++ frames_of c.posted) ∙ sym (append-nil _),
  )

turn-Turned : (c : ChatClient) (t : Turn) → Open c → Turned (said (t ∷ [])) c (turn c t)
unfolding turn said
turn-Turned c (say m) v =
    subst (λ zs. Turned zs c (send c m)) (sym (append-nil (frame m)))
      (send-made c m c.connected c.closing c.posted c.write_queue v)
turn-Turned c task v = run_task-made c c.connected c.closing c.posted c.write_queue v
turn-Turned c written v = written-made c c.write_queue v

said-cons : (t : Turn) (ts : List Turn) → said (t ∷ ts) ≡ said (t ∷ []) ++ said ts
unfolding said
said-cons (say m) ts = ap (λ zs. zs ++ said ts) (sym (append-nil (frame m)))
said-cons task ts = refl
said-cons written ts = refl

-- While the connection is up and is not closed, any messages and any runs of the executor and of
-- the write handlers leave, in this order, what was handed to the stream, what is queued and what is
-- posted as before, with the frames of the new messages at the end: none is lost, doubled or
-- overtaken.
pub turns-order :
    (c : ChatClient) (ts : List Turn)
    → Open c
    → Open (turns c ts) × (outgoing (turns c ts) ≡ outgoing c ++ said ts)
unfolding turns said Turned
turns-order c [] v = (v, sym (append-nil (outgoing c)))
turns-order c (t ∷ ts) v =
    let (w, e) = turn-Turned c t v in
    let (x, f) = turns-order (turn c t) ts w in
    (
      x,
      f
          ∙ ap (λ zs. zs ++ said ts) e
          ∙ append_assoc (outgoing c) (said (t ∷ [])) (said ts)
          ∙ ap (λ zs. outgoing c ++ zs) (sym (said-cons t ts)),
    )
