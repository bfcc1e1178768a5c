-- ===== src/App/Commands/Input.antt =====
-- `handle_chat_input` of src/app/commands.cpp, one function for each command.
use chatbox.Common.{
  get_or, String, true, not, ◌&&◌, Option, none, some, List, [], ◌∷◌, ◌++◌, map, if◌then◌else◌,
  is_empty, Bytes, codes, text, bytes_eq,
}
use mathlib.Core.List.{◌++◌}
use chatbox.Protocol.Client.{ClientMessage}
use chatbox.Chat.State.{Server}
use chatbox.Chat.Movement.{create_local_room, join_local_room, leave_local_room}
use chatbox.Chat.Delivery.{broadcast, send_private, room_summaries}
use chatbox.Chat.Admin.{set_local_topic, kick_user, ban_user, unban_user}
use chatbox.App.State.{clear_messages, update_room_list}
use chatbox.App.Client.{send, request_rooms}
use chatbox.App.Client.Receive.{room_line}
use chatbox.App.Commands.{
  Command, Desk, ChatInputResult, continue, exit, say, say_all, on_server, on_server_told,
  on_client, served, either, join_fields, parse_command, extract_whisper,
}

show_host_command_help : Desk → Desk
show_host_command_help d = say_all d (
    text "[system] /ban  <nick> [reason] - Ban a user server-wide (host only)"
    ∷ text "[system] /unban <nick>         - Unban a user (host only)"
    ∷ text "[system] /bans                 - List server-wide bans"
    ∷ [])

show_command_help : Desk → Desk
show_command_help d = say_all d (
    text "[system] === Rooms: /create music, /join music ==="
    ∷ text "[system] /help                    - Show this help message"
    ∷ text "[system] /rooms                   - List available rooms"
    ∷ text "[system] /create <name>           - Create and enter a room"
    ∷ text "[system] /join <name>             - Switch to a room"
    ∷ text "[system] /leave                   - Return to the lobby"
    ∷ text "[system] /topic [text]            - View or set the room topic"
    ∷ text "[system] === People: /whisper alex hello ==="
    ∷ text "[system] /users                   - List users in this room"
    ∷ text "[system] /clear                   - Clear message history"
    ∷ text "[system] /time                    - Show current time"
    ∷ text "[system] /whisper <nick> <msg>    - Whisper within this room"
    ∷ text "[system] /kick <nick> [reason]    - Kick a room member (room creator/host)"
    ∷ text "[system] /exit                    - Return to server selection"
    ∷ text "[system] === End Help ==="
    ∷ [])

-- A line that is no command.
chat_line : Desk → Bytes → Bytes → Desk
chat_line d clock input =
    either d
      (λ s. on_server d s (λ t.
        broadcast t
          (text "[" ++ (clock ++ (text "] " ++ (d.local_nickname ++ (text ": " ++ input)))))))
      (λ c. on_client d c (λ t. send t (ClientMessage.chat input)))

help_command : Desk → Desk
unfolding show_command_help show_host_command_help
help_command d =
    let told = show_command_help d in
    if d.host_commands_enabled then show_host_command_help told else told

users_command : Desk → Desk
users_command d = say_all d (
    (text "[system] Users in #" ++ (d.app.active_room_name ++ text ":"))
    ∷ map (λ user. text "[system]   - " ++ user) d.app.users)

show_room_list_local : Desk → Server → Desk
show_room_list_local d s =
    let rooms = room_summaries s in
    say_all (record d { app = update_room_list d.app rooms })
      (text "[system] Available rooms:" ∷ map (room_line s.local_room_id) rooms)

rooms_command : Desk → Desk
unfolding show_room_list_local
rooms_command d = either d (show_room_list_local d) (λ c. on_client d c request_rooms)

-- `/create` and `/join`, which take one name.
room_command :
    Desk
    → List Bytes
    → String
    → (Server → Bytes → Server × Option Bytes)
    → (Bytes → ClientMessage)
    → Desk
room_command d (name ∷ []) usage call message =
    either d (λ s. on_server_told d s (λ t. call t name))
      (λ c. on_client d c (λ t. send t (message name)))
room_command d _ usage call message = say d (text usage)

leave_command : Desk → List Bytes → Desk
leave_command d [] =
    either d (λ s. on_server_told d s leave_local_room)
      (λ c. on_client d c (λ t. send t ClientMessage.leave))
leave_command d (_ ∷ _) = say d (text "[system] Usage: /leave")

topic_command : Desk → List Bytes → Desk
topic_command d [] =
    let topic = d.app.active_room_topic in
    either d
      (λ s. say d (text "[system] Topic: " ++ (if is_empty topic then text "(none)" else topic)))
      (λ c. on_client d c (λ t. send t (ClientMessage.topic_request none)))
topic_command d (word ∷ words) =
    let topic = join_fields (word ∷ words) 0 b' ' in
    either d (λ s. on_server_told d s (λ t. set_local_topic t topic))
      (λ c. on_client d c (λ t. send t (ClientMessage.topic_request (some topic))))

whisper_command : Desk → Bytes → Bytes → Desk
whisper_command d clock input = elim (extract_whisper input) [
  | none ↦ say d (text "[system] Usage: /whisper <nick> <message>")
  | some (target, message) ↦
      either d
        (λ s. on_server d s (λ t. (send_private t clock d.local_nickname target message true).0))
        (λ c. on_client d c (λ t. send t (ClientMessage.whisper target message)))
]

kick_on_server : Desk → Server → Bytes → Bytes → Desk
kick_on_server d s nick reason =
    let (after, is_kicked) = kick_user (record s { effects = [] }) nick reason in
    let done = served d s after in
    if not is_kicked
    then say done (text "[system] User '" ++ (nick ++ text "' is not in this room"))
    else done

kick_by_client : Desk → Bytes → Bytes → Desk
kick_by_client d nick reason = elim d.client [
  | none ↦ d
  | some c ↦ on_client d c (λ t. send t (ClientMessage.kick_request nick reason))
]

kick_command : Desk → List Bytes → Desk
unfolding kick_on_server kick_by_client
kick_command d [] = say d (text "[system] Usage: /kick <nick> [reason]")
kick_command d (nick ∷ words) =
    let reason = join_fields (nick ∷ words) 1 b' ' in
    elim d.server [
      | some s ↦
          if d.host_commands_enabled
          then kick_on_server d s nick reason
          else kick_by_client d nick reason
      | none ↦ kick_by_client d nick reason
    ]

ban_command : Desk → Server → Bytes → Bytes → Desk
ban_command d s nick reason =
    say (on_server d s (λ t. ban_user t nick reason))
      (text "[system] " ++ (nick ++ text " has been banned server-wide"))

unban_command : Desk → Server → Bytes → Desk
unban_command d s nick =
    let (after, was_banned) = unban_user (record s { effects = [] }) nick in
    let done = served d s after in
    if was_banned
    then say done (text "[system] " ++ (nick ++ text " has been unbanned"))
    else say done (text "[system] '" ++ (nick ++ text "' is not on the ban list"))

bans_command : Desk → Server → Desk
bans_command d s =
    if is_empty s.banned_nicks
    then say d (text "[system] Ban list is empty")
    else say_all d
        (text "[system] Banned users:" ∷ map (λ nick. text "[system]   - " ++ nick) s.banned_nicks)

unknown_command : Desk → Bytes → Desk
unknown_command d name = say d (text "[system] Unknown command: " ++ (name ++ text ". Type /help."))

-- `/ban`, `/unban` and `/bans`, which only a host with these commands has.
host_command : Desk → Command → Desk
unfolding ban_command unban_command bans_command unknown_command
host_command d cmd = elim d.server [
  | none ↦ unknown_command d cmd.name
  | some s ↦
      if not d.host_commands_enabled
      then unknown_command d cmd.name
      else if bytes_eq cmd.name (codes "ban") && not (is_empty cmd.args)
      then ban_command d s (get_or cmd.args 0 []) (join_fields cmd.args 1 b' ')
      else if bytes_eq cmd.name (codes "unban") && not (is_empty cmd.args)
      then unban_command d s (get_or cmd.args 0 [])
      else if bytes_eq cmd.name (codes "bans")
      then bans_command d s
      else unknown_command d cmd.name
]

-- The chain of tests by name. `/exit` stands first; the names differ, so that the order of the tests
-- does not matter.
command : Desk → Bytes → Bytes → Command → Desk × ChatInputResult
unfolding help_command users_command rooms_command room_command leave_command topic_command
    whisper_command kick_command host_command
command d clock input cmd =
    let name = cmd.name in
    if bytes_eq name (codes "exit") then (d, exit) else (
      (if bytes_eq name (codes "help")
          then help_command d
          else if bytes_eq name (codes "users")
          then users_command d
          else if bytes_eq name (codes "rooms")
          then rooms_command d
          else if bytes_eq name (codes "create")
          then room_command d cmd.args "[system] Usage: /create <name>" create_local_room
              (λ room. ClientMessage.create_room room)
          else if bytes_eq name (codes "join")
          then room_command d cmd.args "[system] Usage: /join <name>" join_local_room
              (λ room. ClientMessage.join_room room)
          else if bytes_eq name (codes "leave")
          then leave_command d cmd.args
          else if bytes_eq name (codes "topic")
          then topic_command d cmd.args
          else if bytes_eq name (codes "clear")
          then say (record d { app = clear_messages d.app })
              (text "[system] Message history cleared")
          else if bytes_eq name (codes "time")
          then say d (text "[system] Current time: " ++ clock)
          else if bytes_eq name (codes "whisper")
          then whisper_command d clock input
          else if bytes_eq name (codes "kick")
          then kick_command d cmd.args
          else host_command d cmd),
      continue,
    )

pub handle_chat_input : Desk → Bytes → Bytes → Desk × ChatInputResult
unfolding chat_line command
handle_chat_input d clock [] = (d, continue)
handle_chat_input d clock (c ∷ cs) = elim (parse_command (c ∷ cs)) [
  | none ↦ (chat_line d clock (c ∷ cs), continue)
  | some cmd ↦ command d clock (c ∷ cs) cmd
]
