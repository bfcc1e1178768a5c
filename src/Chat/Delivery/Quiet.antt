-- ===== src/Chat/Delivery/Quiet.antt =====
-- Sending messages moves nobody: it changes histories and effects only.
use chatbox.Chat.Rooms.{update_room}
use chatbox.Common.{ℕ, ◌≡◌, refl, ◌∙◌, List, [], ◌∷◌, map, arith, Bytes}
use chatbox.Chat.State.{Room, Server, Effect, emit}
use chatbox.Chat.Rooms.Membership.{bare}
use chatbox.Chat.Delivery.{push_recent, broadcast_room, broadcast_users, broadcast_room_lists}

-- `t` is `s` but for the histories and the effects.
pub record Quiet (s t : Server) : Type 0 where
  pub same_rooms : map bare t.rooms ≡ map bare s.rooms
  pub same_session : t.session ≡ s.session
  pub same_sessions : t.sessions ≡ s.sessions
  pub same_next : t.next_room_id ≡ s.next_room_id
  pub same_local : t.local_room_id ≡ s.local_room_id
  pub same_nickname : t.local_nickname ≡ s.local_nickname
  pub same_limit : t.history_limit ≡ s.history_limit
  pub same_bans : t.banned_nicks ≡ s.banned_nicks
  pub same_identities : t.identities ≡ s.identities

pub Quiet-refl : (s : Server) → Quiet s s
Quiet-refl s = record {
  same_rooms = refl;
  same_session = refl;
  same_sessions = refl;
  same_next = refl;
  same_local = refl;
  same_nickname = refl;
  same_limit = refl;
  same_bans = refl;
  same_identities = refl;
}

pub Quiet-trans : (s t u : Server) → Quiet s t → Quiet t u → Quiet s u
Quiet-trans s t u p q = record {
  same_rooms = q.same_rooms ∙ p.same_rooms;
  same_session = q.same_session ∙ p.same_session;
  same_sessions = q.same_sessions ∙ p.same_sessions;
  same_next = q.same_next ∙ p.same_next;
  same_local = q.same_local ∙ p.same_local;
  same_nickname = q.same_nickname ∙ p.same_nickname;
  same_limit = q.same_limit ∙ p.same_limit;
  same_bans = q.same_bans ∙ p.same_bans;
  same_identities = q.same_identities ∙ p.same_identities;
}

Quiet-of_rooms :
    (s : Server) (rooms : List Room) (es : List Effect)
    → map bare rooms ≡ map bare s.rooms
    → Quiet s (record s { rooms = rooms; effects = es })
Quiet-of_rooms s rooms es e = record {
  same_rooms = e;
  same_session = refl;
  same_sessions = refl;
  same_next = refl;
  same_local = refl;
  same_nickname = refl;
  same_limit = refl;
  same_bans = refl;
  same_identities = refl;
}

pub emit-Quiet : (s : Server) (es : List Effect) → Quiet s (emit s es)
emit-Quiet s es = Quiet-of_rooms s s.rooms _ refl

pub map-bare-update_room :
    (id : ℕ) (f : Room → Room) (rooms : List Room)
    → ((r : Room) → bare (f r) ≡ bare r)
    → map bare (update_room id f rooms) ≡ map bare rooms
unfolding update_room
map-bare-update_room id f [] k = refl
map-bare-update_room id f (r ∷ rooms) k = ground (arith, k r, map-bare-update_room id f rooms k)

pub broadcast_room-Quiet :
    (s : Server) (id : ℕ) (msg nickname : Bytes) → Quiet s (broadcast_room s id msg nickname)
unfolding broadcast_room
broadcast_room-Quiet s id msg nickname = Quiet-of_rooms s _ _ (
    map-bare-update_room id
      (λ r. record r { recent_messages = push_recent s.history_limit msg r.recent_messages })
      s.rooms (λ r. refl))

pub broadcast_users-Quiet : (s : Server) (id : ℕ) → Quiet s (broadcast_users s id)
unfolding broadcast_users
broadcast_users-Quiet s id = emit-Quiet s _

pub broadcast_room_lists-Quiet : (s : Server) → Quiet s (broadcast_room_lists s)
unfolding broadcast_room_lists
broadcast_room_lists-Quiet s = emit-Quiet s _
