-- ===== src/App/Client.antt =====
-- `ChatClient` of src/chat/chat_client.h: its fields, what it sends and the queue of its writes. The
-- field `app` stands for the globals of src/app/app_state.cpp, which the client calls. A task that is
-- posted to the executor waits in `posted`; `run_task` and `wrote` are the executor's steps.
-- `wire` lists the buffers handed to `async_write`, and `stream_closed` tells that the stream was
-- closed.
pub mod Connect
pub mod Receive
pub mod Writes
use chatbox.Common.{
  drop, ℕ, ◌+◌, ◌-◌, Bool, true, false, not, ◌&&◌, ◌||◌, Option, none, some, List, [], ◌∷◌, ◌++◌,
  if◌then◌else◌, is_empty, Bytes, text,
}
use mathlib.Core.List.{◌++◌}
use chatbox.Protocol.Outcome.{Result, ok, err}
use chatbox.Protocol.Client.{ClientMessage}
use chatbox.Protocol.Codec.{encode_client_frame}
use chatbox.App.State.{AppState, push_message}

pub data ConnectionFailure : Type 0 where
  no_failure dns refused timeout tls cancelled network : ConnectionFailure

-- A closure given to `boost::asio::post`: that of `send`, or that of `close`.
pub data Task : Type 0 where
  write : Bytes → Task
  shut : Task

pub record ClientIdentity : Type 0 where
  pub private_key : Bytes
  pub public_key_hex : Bytes

pub record ChatClient : Type 0 where
  pub app : AppState
  pub tls_enabled : Bool
  pub identity : Option ClientIdentity
  -- The attempt to connect.
  pub connecting : Bool
  pub attempt_lifetime : Option ℕ
  pub attempts : ℕ
  pub deadline_generation : ℕ
  pub connection_phase : Bytes
  pub connection_failure : ConnectionFailure
  pub connect_error : Bytes
  pub completed : List Bool
  -- The connection.
  pub connected : Bool
  pub closing : Bool
  pub stream_closed : Bool
  pub reading : Bool
  pub posted : List Task
  pub write_queue : List Bytes
  pub wire : List Bytes
  pub disconnect_reason : Bytes
  -- What the main thread polls.
  pub protocol_negotiated : Bool
  pub auth_required : Bool
  pub auth_resolved : Bool
  pub auth_ok : Bool
  pub join_resolved : Bool
  pub join_failed : Bool
  pub join_failure_reason : Bytes
  pub nickname_taken : Bool
  pub banned : Bool
  pub kicked : Bool
  pub kick_reason : Bytes
  pub room_list_requested : Bool

pub shown : ChatClient → Bytes → ChatClient
shown c msg = record c { app = push_message c.app msg }

-- What `send` does with the frame, up to its call of `post`.
send_encoded : ChatClient → Result Bytes → ChatClient
unfolding shown
send_encoded c (err e detail) = shown c (text "[system] Could not encode message: " ++ detail)
send_encoded c (ok wire) = record c { posted = c.posted ++ (write wire ∷ []) }

pub send : ChatClient → ClientMessage → ChatClient
unfolding send_encoded
send c msg = if not c.connected || c.closing then c else send_encoded c (encode_client_frame msg)

-- `close` up to its call of `post`.
pub close : ChatClient → ChatClient
close c = record c { closing = true; posted = c.posted ++ (shut ∷ []) }

pub write_next : ChatClient → ChatClient
write_next c = elim c.write_queue [ [] ↦ c | wire ∷ _ ↦ record c { wire = c.wire ++ (wire ∷ []) } ]

run_write : ChatClient → Bytes → ChatClient
unfolding write_next
run_write c wire =
    if not c.connected || c.closing
    then c
    else let writing = not (is_empty c.write_queue) in
      let queued = record c { write_queue = c.write_queue ++ (wire ∷ []) } in
      if not writing then write_next queued else queued

-- The executor runs the oldest task.
pub run_task : ChatClient → ChatClient
unfolding run_write
run_task c = elim c.posted [
  | [] ↦ c
  | write wire ∷ tasks ↦ run_write (record c { posted = tasks }) wire
  | shut ∷ tasks ↦ record c { posted = tasks; connected = false; stream_closed = true }
]

-- The handler of the write in flight: an error with its message, whether it is `operation_aborted`;
-- or none. A queue that is empty has no write in flight, and so no handler.
pub wrote : ChatClient → Option (Bytes × Bool) → ChatClient
unfolding write_next shown
wrote c (some (message, aborted)) =
    let ended = record c { disconnect_reason = message; connected = false; stream_closed = true } in
    if not aborted && not c.closing
    then shown ended
        (text "[system] Send failed: " ++ (message ++ text ". Delivery may be uncertain."))
    else ended
wrote c none =
    let rest = record c { write_queue = drop 1 c.write_queue } in
    if not (is_empty rest.write_queue) then write_next rest else rest

pub set_identity : ChatClient → ClientIdentity → ChatClient
set_identity c identity = record c { identity = some identity }

pub identify : ChatClient → Bytes → ChatClient
unfolding send
identify c nick = elim c.identity [
  | none ↦ record c {
    join_failed = true;
    join_failure_reason = text "No local identity key loaded";
    join_resolved = true;
  }
  | some identity ↦ send c (ClientMessage.identify nick identity.public_key_hex)
]

pub request_rooms : ChatClient → ChatClient
unfolding send
request_rooms c = send (record c { room_list_requested = true }) ClientMessage.list_rooms
