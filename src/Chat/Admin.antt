-- ===== src/Chat/Admin.antt =====
-- Topics, kicks, bans and identities in `ChatServer` (src/chat/chat_server.h).
pub mod Records
pub mod Unmoved
pub mod Invariant
use chatbox.Protocol.Rules.{is_hex, is_valid_room_topic, is_valid_nickname}
use chatbox.Common.{bytes_lt}
use chatbox.Common.{
  bytes_eq_iff, take, ℕ, ◌+◌, ◌-◌, ◌≡◌, Bool, true, false, not, ◌&&◌, ◌||◌, Option, none, some,
  List, [], ◌∷◌, ◌++◌, leb, ◌==◌, if◌then◌else◌, length, is_empty, Bytes, text, bytes_eq,
}
use chatbox.Protocol.Server.{kick, room_topic}
use chatbox.Chat.State.{
  Server, store_topic, store_identity, store_ban, remove_ban, save_bans, save_identities,
  update_room_topic, log_write, delivery, when, each, emit, close_session, nickname_of, room_of,
  default_room_id, activate_room,
}
use chatbox.Chat.Rooms.{find_room, update_room, find_room_by_name}
use chatbox.Chat.Delivery.{
  broadcast_room, broadcast_users, broadcast_room_lists, first_named, acting_room, local_in,
}
use chatbox.Chat.Movement.{disconnect, Reply, done, refuse, no_such_room}

-- `std::set<std::string>` and `std::map<std::string, std::string>`, in rising order.
unfoldable pub insert_text : Bytes → List Bytes → List Bytes
insert_text x [] = x ∷ []
insert_text x (y ∷ ys) =
    if bytes_eq x y then y ∷ ys else if bytes_lt x y then x ∷ y ∷ ys else y ∷ insert_text x ys

unfoldable pub erase_text : Bytes → List Bytes → List Bytes
erase_text x [] = []
erase_text x (y ∷ ys) = if bytes_eq x y then erase_text x ys else y ∷ erase_text x ys

unfoldable pub has_text : Bytes → List Bytes → Bool
has_text x [] = false
has_text x (y ∷ ys) = bytes_eq x y || has_text x ys

unfoldable pub find_key : Bytes → List (Bytes × Bytes) → Option Bytes
find_key x [] = none
find_key x ((k, v) ∷ m) = if bytes_eq x k then some v else find_key x m

unfoldable pub insert_key : Bytes → Bytes → List (Bytes × Bytes) → List (Bytes × Bytes)
insert_key x v [] = (x, v) ∷ []
insert_key x v ((k, w) ∷ m) =
    if bytes_eq x k
    then (k, v) ∷ m
    else if bytes_lt x k
    then (x, v) ∷ (k, w) ∷ m
    else (k, w) ∷ insert_key x v m

unfoldable pub is_banned : Server → Bytes → Bool
unfolding has_text
is_banned s nick = has_text nick s.banned_nicks

any_named : Server → Bytes → List ℕ → Bool
any_named s nick [] = false
any_named s nick (x ∷ xs) = bytes_eq (nickname_of s x) nick || any_named s nick xs

unfoldable pub nickname_taken : Server → Bytes → Bool
unfolding any_named
nickname_taken s nick =
    not (is_empty s.local_nickname) && bytes_eq s.local_nickname nick || any_named s nick s.sessions

-- `has_password` and `check_password`.
unfoldable pub has_password : Server → Bool
has_password s = not (is_empty s.password)

pub check_password : Server → Bytes → Bool
check_password s pw = bytes_eq pw s.password

pub check_password-eq : (s : Server) (pw : Bytes) → check_password s pw ≡ true → pw ≡ s.password
unfolding check_password
check_password-eq s pw e = (bytes_eq_iff pw s.password).0 e

owned_by_other : Option Bytes → Bytes → Bool
owned_by_other none key = false
owned_by_other (some k) key = not (bytes_eq k key)

-- The error text, or `none` if the identity may be used. A key has 32 bytes.
pub identity_available_for : Server → Bytes → Bytes → Option Bytes
unfolding find_key owned_by_other
identity_available_for s nick key =
    if not (is_valid_nickname nick)
    then some (text "Invalid nickname")
    else if not (is_hex key 64)
    then some (text "Invalid identity public key")
    else if owned_by_other (find_key nick s.identities) key
    then some (text "Nickname belongs to a different identity key")
    else none

-- The first sixteen digits.
pub identity_fingerprint : Bytes → Bytes
identity_fingerprint key = if leb (length key) 16 then key else take 16 key

unfoldable pub bind_identity : Server → Bytes → Bytes → Server × Bool
unfolding find_key insert_key
bind_identity s nick key = elim (find_key nick s.identities) [
  | some k ↦ (s, bytes_eq k key)
  | none ↦
      let identities = insert_key nick key s.identities in
      (
        record s {
          identities = identities;
          effects =
              s.effects
              ++ ((if s.has_storage
                    then store_identity nick key ∷ []
                    else when (not (is_empty s.identities_file)) (save_identities identities ∷ []))
                  ++ when s.has_log (
                      log_write (
                        text "[identity] Registered "
                        ++ (nick ++ (text " as " ++ identity_fingerprint key)))
                      ∷ []));
        },
        true,
      )
]

pub register_local_identity : Server → Bytes → Bytes → Server × Bool
unfolding bind_identity
register_local_identity s nick key = elim (identity_available_for s nick key) [
  | none ↦ bind_identity s nick key
  | some error ↦ (s, false)
]

-- A topic is set by the room's creator, or by a privileged actor.
pub set_topic_for_room : Server → ℕ → Bytes → Bool → Bytes → Reply
set_topic_for_room s id actor privileged topic =
    if not (is_valid_room_topic topic)
    then refuse s (text "Topics may contain at most 200 printable characters")
    else elim (find_room id s.rooms) [
      | none ↦ refuse s (text "The active room no longer exists")
      | some room ↦
          if not privileged && not (bytes_eq room.owner_nickname actor)
          then refuse s (text "Only this room's creator can change its topic")
          else done (
              broadcast_room
                (record s {
                  rooms = update_room id (λ r. record r { topic = topic }) s.rooms;
                  effects =
                      s.effects
                      ++ (when s.has_storage (store_topic id topic ∷ [])
                          ++ (each (λ member. delivery member (room_topic id topic)) room.members
                              ++ when (local_in s id) (update_room_topic id topic ∷ [])));
                })
                id (text "[system] " ++ (actor ++ (text " changed the topic to: " ++ topic))) [])
    ]

pub set_topic : Server → ℕ → Bytes → Reply
set_topic s sid topic = set_topic_for_room s (room_of s sid) (nickname_of s sid) false topic

pub set_local_topic : Server → Bytes → Reply
set_local_topic s topic = set_topic_for_room s s.local_room_id s.local_nickname true topic

pub set_admin_topic : Server → Bytes → Bytes → Reply
set_admin_topic s name topic = elim (find_room_by_name name s.rooms) [
  | none ↦ refuse s (no_such_room name)
  | some room ↦ set_topic_for_room s room.id (text "server") true topic
]

-- A session is told that it is kicked, and leaves without a notice of its own.
expel : Server → ℕ → Bytes → Bytes → Server
expel s sid nick reason =
    disconnect (close_session (emit s (delivery sid (kick nick reason))) sid) sid false

pub kick_user_in_room : Server → ℕ → Bytes → Bytes → Server × Bool
unfolding expel
kick_user_in_room s id nick reason = elim (find_room id s.rooms) [
  | none ↦ (s, false)
  | some room ↦ elim (first_named s nick room.members) [
    | none ↦ (s, false)
    | some sid ↦
        let notice =
          text "[system] "
          ++ (nick
              ++ (text " was kicked" ++ (if is_empty reason then [] else text ": " ++ reason))) in
        (broadcast_users (broadcast_room (expel s sid nick reason) id notice []) id, true)
  ]
]

kick_reply : Server × Bool → Bytes → Reply
kick_reply (s, true) error = done s
kick_reply (s, false) error = refuse s error

pub kick_from : Server → ℕ → Bytes → Bytes → Reply
unfolding kick_reply
kick_from s sid nick reason =
    let refused = refuse s (text "Only this room's creator can kick members") in
    elim (find_room (room_of s sid) s.rooms) [
      | none ↦ refused
      | some room ↦
          if not (bytes_eq room.owner_nickname (nickname_of s sid))
          then refused
          else if bytes_eq nick (nickname_of s sid)
          then refuse s (text "You cannot kick yourself")
          else kick_reply (kick_user_in_room s (room_of s sid) nick reason)
              (text "User '" ++ (nick ++ text "' is not in this room"))
    ]

pub kick_user : Server → Bytes → Bytes → Server × Bool
kick_user s nick reason =
    let id = acting_room s nick in
    if not (id == 0) then kick_user_in_room s id nick reason else (s, false)

-- `kick_user_in_room` by the room's name.
pub kick_user_in_named_room : Server → Bytes → Bytes → Bytes → Reply
unfolding kick_reply
kick_user_in_named_room s name nick reason = elim (find_room_by_name name s.rooms) [
  | none ↦ refuse s (no_such_room name)
  | some room ↦
      kick_reply (kick_user_in_room s room.id nick reason)
        (text "User '" ++ (nick ++ (text "' is not in #" ++ name)))
]

-- The entry in the list of bans, and its copy on disk.
pub record_ban : Server → Bytes → Bytes → Server
unfolding insert_text
record_ban s nick reason =
    let bans = insert_text nick s.banned_nicks in
    record s {
      banned_nicks = bans;
      effects =
          s.effects
          ++ (if s.has_storage
              then store_ban nick reason ∷ []
              else when (not (is_empty s.bans_file)) (save_bans bans ∷ []));
    }

ban_session : Server → Bytes → Bytes → Option ℕ → Server
unfolding expel
ban_session s nick reason none = s
ban_session s nick reason (some sid) =
    let id = room_of s sid in
    let gone = expel s sid nick (if is_empty reason then text "banned" else reason) in
    broadcast_users
      (broadcast_room gone id (text "[system] " ++ (nick ++ text " has been banned")) []) id

pub ban_user : Server → Bytes → Bytes → Server
unfolding record_ban ban_session
ban_user s nick reason =
    let listed = record_ban s nick reason in
    let gone = ban_session listed nick reason (first_named listed nick listed.sessions) in
    emit gone (
      when gone.has_log (
        log_write (
          text "[admin] Banned: "
          ++ (nick ++ (if is_empty reason then [] else text " (" ++ (reason ++ text ")"))))
        ∷ []))

pub unban_user : Server → Bytes → Server × Bool
unfolding has_text erase_text
unban_user s nick =
    let bans = erase_text nick s.banned_nicks in
    if has_text nick s.banned_nicks
    then (
      record s {
        banned_nicks = bans;
        effects =
            s.effects
            ++ ((if s.has_storage
                  then remove_ban nick ∷ []
                  else when (not (is_empty s.bans_file)) (save_bans bans ∷ []))
                ++ when s.has_log (log_write (text "[admin] Unbanned: " ++ nick) ∷ []));
      },
      true,
    )
    else (s, false)

-- `start_local_user`: the lobby is there from the constructor on.
pub start_local_user : Server → Server
start_local_user s =
    if is_empty s.local_nickname then s else elim (find_room default_room_id s.rooms) [
      | none ↦ s
      | some lobby ↦ broadcast_room_lists (
          broadcast_users
            (emit (record s { local_room_id = default_room_id })
              (activate_room lobby.id lobby.name lobby.topic ∷ []))
            lobby.id)
    ]
