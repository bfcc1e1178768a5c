-- ===== src/App/Console.antt =====
-- The operator's consoles: `admin_console` and `browser_console` of src/app/dedicated_server.cpp,
-- with `users_in_room` and `connected_users` of src/chat/chat_server.h. What a line prints is a list
-- of texts; the help texts have a constructor. Of the flag for the end only the console's own
-- change is modelled.
pub mod Orders
use chatbox.Common.{
  ◌⊎◌, inl, inr, ℕ, ◌+◌, ◌-◌, ◌/◌, Bool, true, false, not, ◌||◌, Option, none, some, List, [], ◌∷◌,
  ◌++◌, map, if◌then◌else◌, is_empty, Bytes, codes, text, bytes_eq,
}
use chatbox.Protocol.Decimal.{to_string}
use chatbox.Protocol.Server.{RoomSummary}
use chatbox.Helpers.{split, join_fields}
use chatbox.Chat.State.{Server, Room, nickname_of}
use chatbox.Chat.Rooms.{find_room_by_name}
use chatbox.Chat.Delivery.{room_users, room_summaries, broadcast_server, sort, nicknames}
use chatbox.Chat.Movement.{Reply, create_admin_room, no_such_room}
use chatbox.Chat.Admin.{set_admin_topic, kick_user_in_named_room, ban_user, unban_user}
use chatbox.Network.Directory.{BrowserEntry, ServerBrowser, entries, second}

pub data Print : Type 0 where
  usage : Print
  printed : Bytes → Print

-- `none` where there is no such room.
pub users_in_room : Server → Bytes → Option (List Bytes)
users_in_room s name = elim (find_room_by_name name s.rooms) [
  | none ↦ none
  | some room ↦ some (room_users s room room.id)
]

pub connected_users : Server → List Bytes
connected_users s =
    sort
      ((if is_empty s.local_nickname then [] else s.local_nickname ∷ []) ++ nicknames s s.sessions)

-- The server behind a line, what was printed, and whether the console ends.
pub record Turn : Type 0 where
  pub server : Server
  pub prints : List Print
  pub quits : Bool

turn : Server → List Print → Turn
turn s prints = record { server = s; prints = prints; quits = false }

bullet : Bytes → Print
bullet name = printed (text "  - " ++ name)

room_line : RoomSummary → Print
unfolding bullet
room_line room = bullet (room.name ++ (text " (" ++ (to_string room.user_count ++ text ")")))

-- What a call reports: its error, or this text.
report : Reply → Bytes → Turn
unfolding turn
report (s, none) success = turn s (printed success ∷ [])
report (s, some error) success = turn s (printed error ∷ [])

listing : Bytes → List Bytes → List Print
unfolding bullet
listing nobody [] = printed nobody ∷ []
listing nobody (user ∷ users) = map bullet (user ∷ users)

users_turn : Server → Bytes → Turn
unfolding turn listing
users_turn s name = elim (users_in_room s name) [
  | none ↦ turn s (printed (no_such_room name) ∷ [])
  | some users ↦ turn s (listing (text "(no users in #" ++ (name ++ text ")")) users)
]

unban_turn : Bytes → Server × Bool → Turn
unfolding turn
unban_turn nick (s, true) = turn s (printed (text "Unbanned: " ++ nick) ∷ [])
unban_turn nick (s, false) = turn s (printed (text "Not in ban list: " ++ nick) ∷ [])

unknown : Server → Turn
unfolding turn
unknown s = turn s (printed (text "Unknown command. Type /help for a list.") ∷ [])

-- The commands that have arguments; without enough of them they are unknown.
with_argument : Server → Bytes → Bytes → List Bytes → Turn
unfolding turn report users_turn unban_turn unknown
with_argument s cmd first [] =
    if bytes_eq cmd (codes "/create")
    then report (create_admin_room s first) (text "Created room: " ++ first)
    else if bytes_eq cmd (codes "/users")
    then users_turn s first
    else if bytes_eq cmd (codes "/ban")
    then turn (ban_user s first []) (printed (text "Banned: " ++ first) ∷ [])
    else if bytes_eq cmd (codes "/unban")
    then unban_turn first (unban_user s first)
    else if bytes_eq cmd (codes "/broadcast")
    then turn (broadcast_server s first) []
    else unknown s
with_argument s cmd first (next ∷ rest) =
    let parts = cmd ∷ first ∷ next ∷ rest in
    if bytes_eq cmd (codes "/topic")
    then report (set_admin_topic s first (join_fields parts 2 b' '))
        (text "Updated topic for #" ++ first)
    else if bytes_eq cmd (codes "/kick")
    then report (kick_user_in_named_room s first next (join_fields parts 3 b' '))
        (text "Kicked " ++ (next ++ (text " from #" ++ first)))
    else if bytes_eq cmd (codes "/ban")
    then turn (ban_user s first (join_fields parts 2 b' '))
        (printed (text "Banned: " ++ first) ∷ [])
    else if bytes_eq cmd (codes "/unban")
    then unban_turn first (unban_user s first)
    else if bytes_eq cmd (codes "/broadcast")
    then turn (broadcast_server s (join_fields parts 1 b' ')) []
    else unknown s

-- A command and its arguments, in the order of the tests.
run_command : Server → Bytes → List Bytes → Turn
unfolding turn room_line listing with_argument unknown
run_command s cmd args =
    if bytes_eq cmd (codes "/quit") || bytes_eq cmd (codes "/exit")
    then record { server = s; prints = []; quits = true }
    else if bytes_eq cmd (codes "/help")
    then turn s (usage ∷ [])
    else if bytes_eq cmd (codes "/rooms")
    then turn s (map room_line (room_summaries s))
    else if bytes_eq cmd (codes "/bans")
    then turn s (listing (text "(ban list is empty)") s.banned_nicks)
    else elim args [ [] ↦ unknown s | first ∷ rest ↦ with_argument s cmd first rest ]

-- One line of the operator.
pub console_line : Server → Bytes → Turn
unfolding turn run_command
console_line s line = elim (split line b' ') [
  | [] ↦ turn s []
  | cmd ∷ args ↦ run_command s cmd args
]

-- The loop: the operator's lines, each with what the network does before it.
pub admin_console : Server → List ((Server → Server) × Bytes) → Server × Bool
admin_console s [] = (s, false)
admin_console s ((meanwhile, line) ∷ lines) =
    let after = console_line (meanwhile s) line in
    let rest = admin_console after.server lines in
    if after.quits then (after.server, true) else rest

-- Ages are in whole seconds; one of a time to come counts as 0.
browser_entry_summary : ℕ → BrowserEntry → Bytes
browser_entry_summary now entry =
    entry.name
    ++ (text " | "
        ++ (entry.host
            ++ (b':'
                ∷ (to_string entry.port
                    ++ (text " | users "
                        ++ (to_string entry.users
                            ++ ((if entry.has_password then text " | password" else text " | open")
                                ++ ((if entry.uses_tls then text " | TLS" else text " | plaintext")
                                    ++ (text " | seen "
                                        ++ (to_string ((now - entry.updated_at) / second)
                                            ++ text "s ago"))))))))))

-- One line of the operator of a directory: what is printed, and whether the console ends.
browser_line : ServerBrowser → ℕ → Bytes → List Print × Bool
unfolding bullet browser_entry_summary
browser_line browser now line =
    if bytes_eq line (codes "/quit") || bytes_eq line (codes "/exit")
    then ([], true)
    else if bytes_eq line (codes "/help")
    then (usage ∷ [], false)
    else if bytes_eq line (codes "/servers")
    then (
      listing (text "(no servers published)")
          (map (browser_entry_summary now) (entries browser now)),
      false,
    )
    else if is_empty line
    then ([], false)
    else (printed (text "Unknown command. Type /help for a list.") ∷ [], false)

-- `run_browser_list`, with what the directory listed: the texts and the code it returns.
numbered : ℕ → ℕ → List BrowserEntry → List Print
unfolding browser_entry_summary
numbered now i [] = []
numbered now i (entry ∷ found) =
    printed (to_string (i + 1) ++ (text ". " ++ browser_entry_summary now entry))
    ∷ numbered now (i + 1) found

pub run_browser_list : ℕ → List BrowserEntry ⊎ Bytes → List Print × ℕ
unfolding numbered
run_browser_list now (inr error) =
    (printed (text "Could not query browser server: " ++ error) ∷ [], 1)
run_browser_list now (inl []) = (printed (text "(no servers published)") ∷ [], 0)
run_browser_list now (inl (entry ∷ found)) = (numbered now 0 (entry ∷ found), 0)
