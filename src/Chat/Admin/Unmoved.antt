-- ===== src/Chat/Admin/Unmoved.antt =====
-- Topics, bans and identities leave everybody where they are.
use chatbox.Common.{
  ◌≡◌, refl, Bool, true, false, not, ◌&&◌, Bool-cases, Option-cases, inl, inr, List, Bytes, ℕ,
  bytes_eq, is_empty, text, arith,
}
use chatbox.Protocol.Rules.{is_valid_room_topic}
use chatbox.Chat.State.{
  Effect, Session, Server, default_room_id, emit, update_session, close_session, nickname_of,
  room_of,
}
use chatbox.Chat.Rooms.{find_room, find_room_by_name, update_room}
use chatbox.Chat.Invariant.{Still, Still-trans, Still-refl}
use chatbox.Chat.Delivery.Quiet.{map-bare-update_room}
use chatbox.Chat.Delivery.Unmoved.{
  broadcast_room-Still, broadcast_users-Still, broadcast_room_lists-Still,
}
use chatbox.Chat.Admin.{
  set_topic_for_room, set_topic, set_local_topic, set_admin_topic, bind_identity,
  register_local_identity, record_ban, unban_user, start_local_user, identity_available_for,
  find_key, has_text,
}

-- A change of one session's record that keeps its room.
pub update_session-Still :
    (s : Server) (sid : ℕ) (f : Session → Session)
    → ((c : Session) → (f c).active_room_id ≡ c.active_room_id)
    → Still s (update_session s sid f)
update_session-Still s sid f k = record {
  same_rooms = refl;
  same_place = λ x. ground (arith, k (s.session x));
  same_next = refl;
}

pub close_session-Still : (s : Server) (sid : ℕ) → Still s (close_session s sid)
unfolding close_session
close_session-Still s sid = record {
  same_rooms = refl;
  same_place = λ x. ground arith;
  same_next = refl;
}

topic_set-Still :
    (s : Server) (id : ℕ) (topic : Bytes) (es : List Effect)
    → Still s (record s {
      rooms = update_room id (λ r. record r { topic = topic }) s.rooms;
      effects = es;
    })
topic_set-Still s id topic es = record {
  same_rooms = map-bare-update_room id (λ r. record r { topic = topic }) s.rooms (λ r. refl);
  same_place = λ x. refl;
  same_next = refl;
}

pub set_topic_for_room-Still :
    (s : Server) (id : ℕ) (actor : Bytes) (privileged : Bool) (topic : Bytes)
    → Still s (set_topic_for_room s id actor privileged topic).0
unfolding set_topic_for_room
set_topic_for_room-Still s id actor privileged topic =
    elim (Bool-cases (is_valid_room_topic topic)) [
      | inr bad ↦ rw (bad, set_topic_for_room) (Still-refl s)
      | inl good ↦ elim (Option-cases (find_room id s.rooms)) [
        | inl e ↦ rw (good, e, set_topic_for_room) (Still-refl s)
        | inr (room, e) ↦
            rw (good, e, set_topic_for_room)
              (elim (Bool-cases (not privileged && not (bytes_eq room.owner_nickname actor))) [
                | inl stranger ↦ rw stranger (Still-refl s)
                | inr allowed ↦ rw allowed (
                    Still-trans s _ _ (topic_set-Still s id topic _)
                      (broadcast_room-Still _ id _ _))
              ])
      ]
    ]

pub set_topic-Still : (s : Server) (sid : ℕ) (topic : Bytes) → Still s (set_topic s sid topic).0
unfolding set_topic
set_topic-Still s sid topic =
    set_topic_for_room-Still s (room_of s sid) (nickname_of s sid) false topic

pub set_local_topic-Still : (s : Server) (topic : Bytes) → Still s (set_local_topic s topic).0
unfolding set_local_topic
set_local_topic-Still s topic =
    set_topic_for_room-Still s s.local_room_id s.local_nickname true topic

pub set_admin_topic-Still :
    (s : Server) (name topic : Bytes) → Still s (set_admin_topic s name topic).0
unfolding set_admin_topic
set_admin_topic-Still s name topic = elim (Option-cases (find_room_by_name name s.rooms)) [
  | inl e ↦ rw (e, set_admin_topic) (Still-refl s)
  | inr (room, e) ↦
      rw (e, set_admin_topic) (set_topic_for_room-Still s room.id (text "server") true topic)
]

pub bind_identity-Still : (s : Server) (nick key : Bytes) → Still s (bind_identity s nick key).0
unfolding bind_identity
bind_identity-Still s nick key = elim (Option-cases (find_key nick s.identities)) [
  | inl e ↦
      rw (e, bind_identity) (record { same_rooms = refl; same_place = λ x. refl; same_next = refl })
  | inr (k, e) ↦ rw (e, bind_identity) (Still-refl s)
]

pub register_local_identity-Still :
    (s : Server) (nick key : Bytes) → Still s (register_local_identity s nick key).0
unfolding register_local_identity
register_local_identity-Still s nick key = elim (Option-cases (identity_available_for s nick key)) [
  | inl e ↦ rw (e, register_local_identity) (bind_identity-Still s nick key)
  | inr (error, e) ↦ rw (e, register_local_identity) (Still-refl s)
]

pub record_ban-Still : (s : Server) (nick reason : Bytes) → Still s (record_ban s nick reason)
unfolding record_ban
record_ban-Still s nick reason = record {
  same_rooms = refl;
  same_place = λ x. refl;
  same_next = refl;
}

pub unban_user-Still : (s : Server) (nick : Bytes) → Still s (unban_user s nick).0
unfolding unban_user
unban_user-Still s nick = elim (Bool-cases (has_text nick s.banned_nicks)) [
  | inl e ↦
      rw (e, unban_user) (record { same_rooms = refl; same_place = λ x. refl; same_next = refl })
  | inr e ↦ rw (e, unban_user) (Still-refl s)
]

activated-Still :
    (s : Server) (es : List Effect)
    → Still s (emit (record s { local_room_id = default_room_id }) es)
activated-Still s es = record { same_rooms = refl; same_place = λ x. refl; same_next = refl }

pub start_local_user-Still : (s : Server) → Still s (start_local_user s)
unfolding start_local_user
start_local_user-Still s = elim (Bool-cases (is_empty s.local_nickname)) [
  | inl e ↦ rw (e, start_local_user) (Still-refl s)
  | inr e ↦ elim (Option-cases (find_room default_room_id s.rooms)) [
    | inl f ↦ rw (e, f, start_local_user) (Still-refl s)
    | inr (lobby, f) ↦
        rw (e, f, start_local_user)
          (Still-trans s _ _ (Still-trans s _ _ (activated-Still s _) (broadcast_users-Still _ _))
            (broadcast_room_lists-Still _))
  ]
]
