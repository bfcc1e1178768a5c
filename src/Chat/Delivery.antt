-- ===== src/Chat/Delivery.antt =====
-- What `ChatServer` (src/chat/chat_server.h) sends to the members of a room: `broadcast_room`,
-- `broadcast_users`, `room_list`, `broadcast_room_lists`, `send_room_list`, `broadcast_server`,
-- `send_private_in_room`, `send_topic`, and the reads of the console.
pub mod Quiet
pub mod Unmoved
use chatbox.Protocol.Decimal.{to_string}
use chatbox.Common.{bytes_lt}
use chatbox.Common.{
  ℕ, ◌+◌, ◌-◌, Bool, true, false, not, ◌&&◌, ◌||◌, Option, none, some, List, [], ◌∷◌, ◌++◌, ltb,
  ◌==◌, if◌then◌else◌, length, is_empty, Bytes, text, bytes_eq,
}
use chatbox.Protocol.Server.{RoomSummary, room_text, user_list, room_list, room_topic}
use chatbox.Chat.State.{
  Room, Server, Effect, push_message, log_write, store_message, update_room_users, update_room_list,
  delivery, delivery_text, when, each, emit, nickname_of, room_of, default_room_id,
}
use chatbox.Chat.Rooms.{find_room, update_room}

-- `push_back`, then `pop_front` above the limit.
pub push_recent : ℕ → Bytes → List Bytes → List Bytes
push_recent limit msg [] = if ltb limit 1 then [] else msg ∷ []
push_recent limit msg (m ∷ ms) =
    if ltb limit (length (m ∷ ms) + 1) then ms ++ msg ∷ [] else (m ∷ ms) ++ msg ∷ []

abbrev pub local_in : Server → ℕ → Bool
local_in s id = not (is_empty s.local_nickname) && s.local_room_id == id

room_effects : Server → Room → ℕ → Bytes → Bytes → List Effect
room_effects s room id msg nickname =
    when (local_in s id) (push_message msg ∷ [])
    ++ (each (λ member. delivery member (room_text id msg)) room.members
        ++ (when s.has_log (log_write (text "[#" ++ (room.name ++ (text "] " ++ msg))) ∷ [])
            ++ when s.has_storage (store_message id nickname msg ∷ [])))

-- `broadcast_room`; the nickname is that of the stored message.
pub broadcast_room : Server → ℕ → Bytes → Bytes → Server
unfolding room_effects push_recent
broadcast_room s id msg nickname = record s {
  rooms =
      update_room id
        (λ r. record r { recent_messages = push_recent s.history_limit msg r.recent_messages })
        s.rooms;
  effects = s.effects ++ elim (find_room id s.rooms) [
    | none ↦ []
    | some room ↦ room_effects s room id msg nickname
  ];
}

-- `std::sort` on strings.
insert_sorted : Bytes → List Bytes → List Bytes
insert_sorted x [] = x ∷ []
insert_sorted x (y ∷ ys) = if bytes_lt y x then y ∷ insert_sorted x ys else x ∷ y ∷ ys

pub sort : List Bytes → List Bytes
unfolding insert_sorted
sort [] = []
sort (x ∷ xs) = insert_sorted x (sort xs)

-- The nicknames of those who have one.
pub nicknames : Server → List ℕ → List Bytes
nicknames s [] = []
nicknames s (x ∷ xs) =
    (if is_empty (nickname_of s x) then [] else nickname_of s x ∷ []) ++ nicknames s xs

-- The list that `broadcast_users` and `users_in_room` build.
pub room_users : Server → Room → ℕ → List Bytes
unfolding nicknames sort
room_users s room id =
    sort (nicknames s room.members ++ (if local_in s id then s.local_nickname ∷ [] else []))

users_effects : Server → Room → ℕ → List Effect
unfolding room_users
users_effects s room id =
    let users = room_users s room id in
    when (local_in s id) (update_room_users id users ∷ [])
    ++ each (λ member. delivery member (user_list id users)) room.members

pub broadcast_users : Server → ℕ → Server
unfolding users_effects
broadcast_users s id =
    emit s (elim (find_room id s.rooms) [ none ↦ [] | some room ↦ users_effects s room id ])

pub summaries : Server → List Room → List RoomSummary
summaries s [] = []
summaries s (r ∷ rs) =
    record {
      id = r.id;
      name = r.name;
      user_count = length r.members + (if local_in s r.id then 1 else 0);
    }
    ∷ summaries s rs

-- `room_list().rooms`
abbrev pub room_summaries : Server → List RoomSummary
room_summaries s = summaries s s.rooms

pub send_room_list : Server → ℕ → Server
unfolding summaries
send_room_list s sid = emit s (delivery sid (room_list (room_summaries s)))

pub broadcast_room_lists : Server → Server
unfolding summaries
broadcast_room_lists s =
    let rooms = room_summaries s in
    emit s (
      each (λ sid. when (not (is_empty (nickname_of s sid))) (delivery sid (room_list rooms)))
        s.sessions
      ++ when (not (is_empty s.local_nickname) && not (s.local_room_id == 0))
          (update_room_list rooms ∷ []))

broadcast_each : Server → List Room → Bytes → Server
broadcast_each s [] msg = s
broadcast_each s (r ∷ rs) msg = broadcast_each (broadcast_room s r.id msg []) rs msg

pub broadcast_server : Server → Bytes → Server
unfolding broadcast_each
broadcast_server s msg = broadcast_each s s.rooms (text "[SERVER] " ++ msg)

-- `broadcast`: the room of the interactive host, or the lobby.
pub broadcast : Server → Bytes → Server
broadcast s msg =
    broadcast_room s (if s.local_room_id == 0 then default_room_id else s.local_room_id) msg []

-- The last member of that nickname: the loop of `send_private_in_room` does not break.
pub last_named : Server → Bytes → List ℕ → Option ℕ
last_named s nick [] = none
last_named s nick (x ∷ xs) = elim (last_named s nick xs) [
  | some y ↦ some y
  | none ↦ if bytes_eq (nickname_of s x) nick then some x else none
]

abbrev to_session : Option ℕ → Bytes → List Effect
to_session none msg = []
to_session (some sid) msg = delivery_text sid msg

abbrev is_some {ℓ} : {A : Type ℓ} → Option A → Bool
is_some none = false
is_some (some a) = true

private_effects :
    Server → ℕ → Bytes → Bytes → Bytes → Bytes → Bool → Option ℕ → Option ℕ → List Effect × Bool
private_effects s id clock sender target message mirror from to =
    let target_is_local = local_in s id && bytes_eq target s.local_nickname in
    let error = text "[system] User '" ++ (target ++ text "' is not in this room") in
    let line =
      text "[PRIVATE "
      ++ (clock
          ++ (text "] " ++ (sender ++ (text " -> " ++ (target ++ (text ": " ++ message)))))) in
    if is_some to || target_is_local
    then (
      when (target_is_local || mirror) (push_message line ∷ [])
          ++ (to_session to line
              ++ ((if bytes_eq sender target then [] else to_session from line)
                  ++ when s.has_log (
                      log_write (
                        text "[private #"
                        ++ (to_string id
                            ++ (text "] "
                                ++ (sender
                                    ++ (text " -> " ++ (target ++ (text ": " ++ message)))))))
                      ∷ []))),
      true,
    )
    else (to_session from error ++ when mirror (push_message error ∷ []), false)

-- `send_private_in_room`; the clock's text is `timestamp()`.
pub send_private_in_room : Server → Bytes → Bytes → Bytes → Bytes → ℕ → Bool → Server × Bool
unfolding private_effects
send_private_in_room s clock sender target message id mirror = elim (find_room id s.rooms) [
  | none ↦ (s, false)
  | some room ↦
      let (es, sent) =
        private_effects s id clock sender target message mirror (last_named s sender room.members)
          (last_named s target room.members) in
      (emit s es, sent)
]

pub send_private_from : Server → Bytes → ℕ → Bytes → Bytes → Server × Bool
send_private_from s clock sid target message =
    send_private_in_room s clock (nickname_of s sid) target message (room_of s sid) false

-- The first session of that nickname, in the order of the set.
pub first_named : Server → Bytes → List ℕ → Option ℕ
first_named s nick [] = none
first_named s nick (x ∷ xs) =
    if bytes_eq (nickname_of s x) nick then some x else first_named s nick xs

-- The room that `send_private` and `kick_user` act in: the interactive host's, or the session's.
pub acting_room : Server → Bytes → ℕ
unfolding first_named
acting_room s nick =
    if s.local_room_id == 0
    then elim (first_named s nick s.sessions) [ none ↦ 0 | some sid ↦ room_of s sid ]
    else s.local_room_id

pub send_private : Server → Bytes → Bytes → Bytes → Bytes → Bool → Server × Bool
send_private s clock sender target message mirror =
    send_private_in_room s clock sender target message (acting_room s sender) mirror

pub send_topic : Server → ℕ → Server
send_topic s sid = emit s (elim (find_room (room_of s sid) s.rooms) [
  | none ↦ []
  | some room ↦ delivery sid (room_topic room.id room.topic)
])
