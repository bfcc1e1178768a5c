-- ===== src/App/Commands.antt =====
-- The commands of a line of input: src/app/commands.cpp, over `split` and `join_fields` of
-- src/common/utils.cpp. A `Desk` is what the program has at hand: the state that the screen draws, and
-- the client or the server that the context points to. A call on the server plays the server's
-- calls of src/app/app_state.cpp on the desk's state; a call on the client runs on that state.
-- The clock's text, `timestamp()`, is an argument.
pub mod Words
pub mod Input
use chatbox.Common.{
  ◌+◌, ◌/◌, Bool, not, ◌||◌, Option, none, some, List, [], ◌∷◌, ◌++◌, ◌==◌, if◌then◌else◌, is_empty,
  Bytes, text,
}
use mathlib.Core.List.{◌++◌}
use chatbox.Protocol.Client.{ClientMessage}
use chatbox.Helpers.{split, join_fields}
use chatbox.Chat.State.{Server, Effect}
use chatbox.Chat.Movement.{Reply, create_local_room, join_local_room, leave_local_room}
use chatbox.Chat.Delivery.{broadcast, send_private, room_summaries}
use chatbox.Chat.Admin.{set_local_topic, kick_user, ban_user, unban_user}
use chatbox.App.State.{
  AppState, push_message, clear_messages, activate_room, update_room_users, update_room_topic,
  update_room_list,
}
use chatbox.App.Client.{ChatClient, send, request_rooms}
use chatbox.App.Client.Receive.{room_line, push_all}

pub record Command : Type 0 where
  pub name : Bytes
  pub args : List Bytes

non_empty : List Bytes → List Bytes
non_empty [] = []
non_empty (part ∷ parts) = if is_empty part then non_empty parts else part ∷ non_empty parts

command_of : List Bytes → Option Command
unfolding non_empty
command_of [] = none
command_of (name ∷ parts) = some (record { name = name; args = non_empty parts })

pub parse_command : Bytes → Option Command
unfolding split command_of
parse_command [] = none
parse_command (c ∷ rest) = if not (c == b'/') then none else command_of (split rest b' ')

-- The text up to the first space, and from it on.
until_space : Bytes → Bytes
until_space [] = []
until_space (c ∷ cs) = if c == b' ' then [] else c ∷ until_space cs

from_space : Bytes → Bytes
from_space [] = []
from_space (c ∷ cs) = if c == b' ' then c ∷ cs else from_space cs

-- The text from the first sign that is no space on.
skip_spaces : Bytes → Bytes
skip_spaces [] = []
skip_spaces (c ∷ cs) = if c == b' ' then skip_spaces cs else c ∷ cs

-- A position that is not found is the end of the text.
pub extract_whisper : Bytes → Option (Bytes × Bytes)
unfolding until_space from_space skip_spaces
extract_whisper input =
    let command_end = from_space input in
    let target_start = skip_spaces command_end in
    let target_end = from_space target_start in
    let message_start = skip_spaces target_end in
    if is_empty command_end
      || is_empty target_start
      || is_empty target_end
      || is_empty message_start
    then none
    else some (until_space target_start, message_start)

pub record Desk : Type 0 where
  pub app : AppState
  pub client : Option ChatClient
  pub server : Option Server
  pub local_nickname : Bytes
  pub host_commands_enabled : Bool

pub data ChatInputResult : Type 0 where
  continue exit : ChatInputResult

pub say : Desk → Bytes → Desk
say d line = record d { app = push_message d.app line }

say_all : Desk → List Bytes → Desk
say_all d lines = record d { app = push_all d.app lines }

-- The server's calls of src/app/app_state.cpp.
play : AppState → List Effect → AppState
play app [] = app
play app (Effect.push_message line ∷ es) = play (push_message app line) es
play app (Effect.activate_room id name topic ∷ es) = play (activate_room app id name topic) es
play app (Effect.update_room_users id users ∷ es) = play (update_room_users app id users) es
play app (Effect.update_room_topic id topic ∷ es) = play (update_room_topic app id topic) es
play app (Effect.update_room_list rooms ∷ es) = play (update_room_list app rooms) es
play app (_ ∷ es) = play app es

-- The server after a call, which began without effects.
served : Desk → Server → Server → Desk
unfolding play
served d before after = record d {
  app = play d.app after.effects;
  server = some (record after { effects = before.effects ++ after.effects });
}

on_server : Desk → Server → (Server → Server) → Desk
unfolding served
on_server d s call = served d s (call (record s { effects = [] }))

-- A call that may fail with a text for the user.
on_server_told : Desk → Server → (Server → Reply) → Desk
unfolding served say
on_server_told d s call =
    let (after, error) = call (record s { effects = [] }) in
    let done = served d s after in
    elim error [ none ↦ done | some reason ↦ say done (text "[system] " ++ reason) ]

on_client : Desk → ChatClient → (ChatClient → ChatClient) → Desk
on_client d c call =
    let after = call (record c { app = d.app }) in record d { app = after.app; client = some after }

-- The server if there is one, else the client if there is one.
either : Desk → (Server → Desk) → (ChatClient → Desk) → Desk
either d with_server with_client = elim d.server [
  | some s ↦ with_server s
  | none ↦ elim d.client [ some c ↦ with_client c | none ↦ d ]
]
