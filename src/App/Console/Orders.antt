-- ===== src/App/Console/Orders.antt =====
-- What each order of the operator does to the server.
use chatbox.Common.{
  Option, none, some, text, ◌≡◌, refl, ap, ◌∙◌, Bool, true, false, Option, none, some, List, [],
  ◌∷◌, ◌++◌, All, Bytes, codes, text, bytes_eq,
}
use mathlib.Core.List.{◌++◌}
use chatbox.Helpers.{join_all, join_fields}
use chatbox.Helpers.Laws.{has_no, ends_full, split-join_all}
use chatbox.Chat.State.{Server}
use chatbox.Chat.Delivery.{broadcast_server}
use chatbox.Chat.Movement.{no_such_room, Reply, create_admin_room}
use chatbox.Chat.Admin.{set_admin_topic, kick_user_in_named_room, ban_user, unban_user}
use chatbox.App.Console.{
  printed, listing, Turn, turn, report, users_in_room, users_turn, unban_turn, with_argument,
  run_command, console_line,
}

-- The orders, as the help text has them. A text is given by its words, any of which may be empty;
-- words behind the nickname of an unban are ignored.
pub data Order : Type 0 where
  quit exit help rooms bans : Order
  create users : (room : Bytes) → Order
  topic : (room first : Bytes) (more : List Bytes) → Order
  kick : (room nick : Bytes) (reason : List Bytes) → Order
  ban : (nick : Bytes) (reason : List Bytes) → Order
  unban : (nick : Bytes) (ignored : List Bytes) → Order
  broadcast : (first : Bytes) (more : List Bytes) → Order

unfoldable pub command_word : Order → Bytes
command_word quit = codes "/quit"
command_word exit = codes "/exit"
command_word help = codes "/help"
command_word rooms = codes "/rooms"
command_word bans = codes "/bans"
command_word (create room) = codes "/create"
command_word (users room) = codes "/users"
command_word (topic room first more) = codes "/topic"
command_word (kick room nick reason) = codes "/kick"
command_word (ban nick reason) = codes "/ban"
command_word (unban nick ignored) = codes "/unban"
command_word (broadcast first more) = codes "/broadcast"

unfoldable pub order_arguments : Order → List Bytes
order_arguments (create room) = room ∷ []
order_arguments (users room) = room ∷ []
order_arguments (topic room first more) = room ∷ first ∷ more
order_arguments (kick room nick reason) = room ∷ nick ∷ reason
order_arguments (ban nick reason) = nick ∷ reason
order_arguments (unban nick ignored) = nick ∷ ignored
order_arguments (broadcast first more) = first ∷ more
order_arguments _ = []

-- The line of an order: its words, with one space between them.
abbrev pub spelled : Order → List Bytes
spelled order = command_word order ∷ order_arguments order

-- The call of the server that an order stands for; the other orders only print.
unfoldable pub effect : Server → Order → Server
effect s (create room) = (create_admin_room s room).0
effect s (topic room first more) = (set_admin_topic s room (join_all (first ∷ more) b' ')).0
effect s (kick room nick reason) = (kick_user_in_named_room s room nick (join_all reason b' ')).0
effect s (ban nick reason) = ban_user s nick (join_all reason b' ')
effect s (unban nick ignored) = (unban_user s nick).0
effect s (broadcast first more) = broadcast_server s (join_all (first ∷ more) b' ')
effect s _ = s

unfoldable pub is_end : Order → Bool
is_end quit = true
is_end exit = true
is_end _ = false

-- What a turn leaves: the server, and whether the console ends.
abbrev outcome : Turn → Server × Bool
outcome t = (t.server, t.quits)

module _ (s : Server) where
  report-outcome : (r : Reply) (success : Bytes) → outcome (report r success) ≡ (r.0, false)
  unfolding report turn
  report-outcome (t, none) success = refl
  report-outcome (t, some error) success = refl

  unban_turn-outcome :
      (nick : Bytes) (r : Server × Bool) → outcome (unban_turn nick r) ≡ (r.0, false)
  unfolding unban_turn turn
  unban_turn-outcome nick (t, true) = refl
  unban_turn-outcome nick (t, false) = refl

  users_turn-outcome : (name : Bytes) → outcome (users_turn s name) ≡ (s, false)
  unfolding users_turn turn
  users_turn-outcome name = listed (users_in_room s name)
    where
      listed :
          (r : Option (List Bytes))
          → outcome (elim r [
            | none ↦ turn s (printed (no_such_room name) ∷ [])
            | some names ↦ turn s (listing (text "(no users in #" ++ (name ++ text ")")) names)
          ])
            ≡ (s, false)
      listed none = refl
      listed (some names) = refl

  run_command-outcome :
      (order : Order)
      → outcome (run_command s (command_word order) (order_arguments order))
        ≡ (effect s order, is_end order)
  unfolding run_command with_argument bytes_eq turn join_fields join_all command_word
      order_arguments effect is_end
  run_command-outcome quit = refl
  run_command-outcome exit = refl
  run_command-outcome help = refl
  run_command-outcome rooms = refl
  run_command-outcome bans = refl
  run_command-outcome (create room) = report-outcome (create_admin_room s room) _
  run_command-outcome (users room) = users_turn-outcome room
  run_command-outcome (topic room first more) = report-outcome (set_admin_topic s room _) _
  run_command-outcome (kick room nick reason) =
      report-outcome (kick_user_in_named_room s room nick _) _
  run_command-outcome (ban nick []) = refl
  run_command-outcome (ban nick (next ∷ reason)) = refl
  run_command-outcome (unban nick []) = unban_turn-outcome nick (unban_user s nick)
  run_command-outcome (unban nick (next ∷ ignored)) = unban_turn-outcome nick (unban_user s nick)
  run_command-outcome (broadcast first []) = refl
  run_command-outcome (broadcast first (next ∷ more)) = refl

-- A line that spells an order leaves the server as the order's call does, with the arguments in their
-- places and a text put together from its words, and ends the console if and only if the order is to
-- quit or to exit. No word holds a space, and the last one is not empty.
pub console_line-effect :
    (s : Server) (order : Order)
    → All (λ word. has_no b' ' word ≡ true) (spelled order)
    → ends_full (spelled order) ≡ true
    → ((console_line s (join_all (spelled order) b' ')).server ≡ effect s order)
      × ((console_line s (join_all (spelled order) b' ')).quits ≡ is_end order)
unfolding console_line turn
console_line-effect s order h k = (ap (λ p. p.0) done, ap (λ p. p.1) done)
  where
    done : outcome (console_line s (join_all (spelled order) b' ')) ≡ (effect s order, is_end order)
    done =
        ap (λ words. outcome (elim words [ [] ↦ turn s [] | cmd ∷ args ↦ run_command s cmd args ]))
          (split-join_all b' ' (spelled order) h k)
        ∙ run_command-outcome s order
