-- ===== src/Tests/Client.antt =====
-- A client with an empty screen: its attempt to connect, its frames and what it takes from a server;
-- a line that is a command.
use chatbox.Helpers.{join_fields}
use chatbox.Helpers.Laws.{has_no}
use chatbox.Protocol.Server.{u64_bound}
use chatbox.Common.{
  ◌+◌, ◌≡◌, refl, true, false, none, some, List, [], ◌∷◌, ◌++◌, if◌then◌else◌, length, codes,
}
use mathlib.Core.List.{◌++◌}
use chatbox.Protocol.Client.{ClientMessage}
use chatbox.App.State.{AppState}
use chatbox.App.State.Transcript.{
  Call, call_all, call_all-refines, Shows, push, clear, pushed, pushes,
}
use chatbox.App.Client.{ChatClient, ConnectionFailure, Task}
use chatbox.App.Client.Connect.{async_connect}
use chatbox.App.Client.Connect.Once.{Event, handle_all, async_connect-once}
use chatbox.App.Client.Writes.{has_no_shut, Open, Turn, turns, outgoing, said, turns-order}
use chatbox.App.Client.Writes.Flush.{flush, flush-wire}
use chatbox.App.Client.Receive.{on_line}
use chatbox.App.Client.Receive.Handshake.{Untouched, on_line-Untouched, Goes, on_line-Goes}
use chatbox.App.Commands.{parse_command, extract_whisper}
use chatbox.App.Commands.Words.{is_word, AreWords, parse_command-join, extract_whisper-pad, pad}

abbrev screen : AppState
screen = record {
  messages = [];
  message_sequence = 0;
  users = [];
  rooms = [];
  active_room_id = 1;
  active_room_name = codes "lobby";
  active_room_topic = [];
  kicked = false;
}

abbrev client : ChatClient
client = record {
  app = screen;
  tls_enabled = false;
  identity = none;
  connecting = false;
  attempt_lifetime = none;
  attempts = 0;
  deadline_generation = 0;
  connection_phase = [];
  connection_failure = ConnectionFailure.no_failure;
  connect_error = [];
  completed = [];
  connected = true;
  closing = false;
  stream_closed = false;
  reading = true;
  posted = Task.write (codes "second") ∷ [];
  write_queue = codes "first" ∷ [];
  wire = codes "first" ∷ [];
  disconnect_reason = [];
  protocol_negotiated = false;
  auth_required = false;
  auth_resolved = false;
  auth_ok = false;
  join_resolved = false;
  join_failed = false;
  join_failure_reason = [];
  nickname_taken = false;
  banned = false;
  kicked = false;
  kick_reason = [];
  room_list_requested = false;
}

abbrev calls : List Call
calls = push (codes "hi") ∷ clear ∷ push (codes "there") ∷ []

screen-Shows : Shows 0 [] screen
unfolding u64_bound
screen-Shows = record { messages = refl; sequence = refl }

call_all-refines_example : Shows (0 + pushes calls) (pushed [] calls) (call_all screen calls)
call_all-refines_example = call_all-refines 0 [] screen calls screen-Shows

on_line-Untouched_example : Untouched client (on_line (λ identity hex. hex) client (codes "SEk="))
on_line-Untouched_example = on_line-Untouched (λ identity hex. hex) client (codes "SEk=") refl

on_line-Goes_example : Goes (on_line (λ identity hex. hex) client (codes "SEk="))
on_line-Goes_example = on_line-Goes (λ identity hex. hex) client (codes "SEk=")

-- The name is resolved, and then the deadline passes.
abbrev events : List Event
events = Event.resolve 0 none ∷ Event.deadline 0 2 false ∷ Event.tcp 0 none none ∷ []

async_connect-once_example :
    let d = handle_all (async_connect client) events in
    length d.completed + (if d.connecting then 1 else 0) ≡ length client.completed + 1
async_connect-once_example = async_connect-once client events

client-Open : Open client
unfolding has_no_shut
client-Open = record { connected = refl; closing = refl; no_shut = refl }

abbrev some_turns : List Turn
some_turns = Turn.task ∷ Turn.say ClientMessage.leave ∷ Turn.written ∷ []

turns-order_example :
    Open (turns client some_turns)
    × (outgoing (turns client some_turns) ≡ outgoing client ++ said some_turns)
turns-order_example = turns-order client some_turns client-Open

flush-wire_example :
    let d = turns client (flush client) in
    (d.wire ≡ outgoing client) × (d.write_queue ≡ []) × (d.posted ≡ [])
flush-wire_example = flush-wire client client-Open

parse_command-join_example :
    parse_command (b'/' ∷ join_fields (codes "kick" ∷ codes "bob" ∷ codes "bye" ∷ []) 0 b' ')
    ≡ some (record { name = codes "kick"; args = codes "bob" ∷ codes "bye" ∷ [] })
unfolding AreWords is_word has_no
parse_command-join_example =
    parse_command-join (codes "kick") (codes "bob" ∷ codes "bye" ∷ []) (refl, (refl, (refl, tt)))

extract_whisper-pad_example :
    extract_whisper
      (codes "/whisper" ++ (b' ' ∷ pad 1 (codes "bob" ++ (b' ' ∷ pad 0 (codes "hi there")))))
    ≡ some (codes "bob", codes "hi there")
unfolding is_word has_no
extract_whisper-pad_example =
    extract_whisper-pad (codes "/whisper") (codes "bob") 1 0 b'h' (codes "i there") refl refl refl
