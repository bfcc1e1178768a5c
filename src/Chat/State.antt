-- ===== src/Chat/State.antt =====
-- The state of `ChatServer` and `ClientSession` (src/chat/chat_server.h) and `Room`
-- (src/chat/room.h). A `shared_ptr<ClientSession>` is a number, and a set of them is a list in rising
-- order; the sessions' own fields are a function on those numbers. What the server does to the
-- outside is a list of effects, in order.
use chatbox.Common.{
  arith, ◌≡◌, refl, ◌≡◌, ℕ, Bool, true, false, List, [], ◌∷◌, ◌++◌, ◌==◌, if◌then◌else◌, Bytes,
}
use chatbox.Protocol.Outcome.{ok, err}
use chatbox.Protocol.Server.{ServerMessage, RoomSummary, plain_text}
use chatbox.Protocol.Codec.{encode_server_frame}

pub record Room : Type 0 where
  pub id : ℕ
  pub name : Bytes
  pub topic : Bytes
  pub owner_nickname : Bytes
  pub recent_messages : List Bytes
  pub members : List ℕ

pub record Session : Type 0 where
  pub nickname : Bytes
  pub pending_nickname : Bytes
  pub pending_public_key_hex : Bytes
  pub pending_challenge : Bytes
  pub active_room_id : ℕ
  pub authenticated : Bool
  pub protocol_negotiated : Bool
  pub suppress_leave_notice : Bool
  -- `recent_messages_by_room_`: a room that is not in the map has no entry yet.
  pub recent_by_room : ℕ → List ℕ

-- A session as `accept_loop` makes it.
abbrev pub new_session : Session
new_session = record {
  nickname = [];
  pending_nickname = [];
  pending_public_key_hex = [];
  pending_challenge = [];
  active_room_id = 0;
  authenticated = false;
  protocol_negotiated = false;
  suppress_leave_notice = false;
  recent_by_room = λ _. [];
}

pub data Effect : Type 0 where
  -- A message queued for a session; a message that cannot be encoded goes to `std::cerr`.
  deliver : ℕ → ServerMessage → Effect
  encode_error : Bytes → Effect
  close : ℕ → Effect
  -- Calls of src/app/app_state.cpp for the interactive host.
  push_message : Bytes → Effect
  activate_room : ℕ → Bytes → Bytes → Effect
  update_room_users : ℕ → List Bytes → Effect
  update_room_topic : ℕ → Bytes → Effect
  update_room_list : List RoomSummary → Effect
  -- Calls of the chat log and of the storage; a message's key and time are drawn by the storage call.
  log_write : Bytes → Effect
  store_message : ℕ → Bytes → Bytes → Effect
  store_room : Room → Effect
  store_topic : ℕ → Bytes → Effect
  store_identity : Bytes → Bytes → Effect
  store_ban : Bytes → Bytes → Effect
  remove_ban : Bytes → Effect
  save_bans : List Bytes → Effect
  save_identities : List (Bytes × Bytes) → Effect

pub record Server : Type 0 where
  pub password : Bytes
  pub local_nickname : Bytes
  pub has_log : Bool
  pub has_storage : Bool
  pub history_limit : ℕ
  pub sessions : List ℕ
  pub session : ℕ → Session
  pub rooms : List Room
  pub next_room_id : ℕ
  pub local_room_id : ℕ
  pub banned_nicks : List Bytes
  pub identities : List (Bytes × Bytes)
  pub bans_file : Bytes
  pub identities_file : Bytes
  pub effects : List Effect

abbrev pub default_room_id : ℕ
default_room_id = 1

abbrev pub emit : Server → List Effect → Server
emit s es = record s { effects = s.effects ++ es }

-- The new record of one session.
abbrev pub update_session : Server → ℕ → (Session → Session) → Server
update_session s sid f = record s {
  session = λ x. if x == sid then f (s.session x) else s.session x;
}

abbrev pub nickname_of : Server → ℕ → Bytes
nickname_of s sid = (s.session sid).nickname

abbrev pub room_of : Server → ℕ → ℕ
room_of s sid = (s.session sid).active_room_id

-- `ClientSession::deliver`.
pub delivery : ℕ → ServerMessage → List Effect
delivery sid m = elim (encode_server_frame m) [
  | ok wire ↦ deliver sid m ∷ []
  | err e detail ↦ encode_error detail ∷ []
]

abbrev pub delivery_text : ℕ → Bytes → List Effect
delivery_text sid body = delivery sid (plain_text body)

-- `ClientSession::close`: later reads end with no leave notice.
unfoldable pub close_session : Server → ℕ → Server
close_session s sid =
    emit (update_session s sid λ c. record c { suppress_leave_notice = true }) (close sid ∷ [])

pub close_session-bans :
    (s : Server) (sid : ℕ) → (close_session s sid).banned_nicks ≡ s.banned_nicks
unfolding close_session
close_session-bans s sid = refl

pub close_session-nickname :
    (s : Server) (sid x : ℕ) → nickname_of (close_session s sid) x ≡ nickname_of s x
unfolding close_session
close_session-nickname s sid x = ground arith

pub close_session-authenticated :
    (s : Server) (sid x : ℕ)
    → ((close_session s sid).session x).authenticated ≡ (s.session x).authenticated
unfolding close_session
close_session-authenticated s sid x = ground arith

-- Effects that happen under a condition.
abbrev pub when : Bool → List Effect → List Effect
when b es = if b then es else []

abbrev pub each {ℓ} : {A : Type ℓ} → (A → List Effect) → List A → List Effect
each f [] = []
each f (x ∷ xs) = f x ++ each f xs
