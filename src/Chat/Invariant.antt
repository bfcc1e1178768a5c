-- ===== src/Chat/Invariant.antt =====
-- The state invariant of `ChatServer`: who is a member of which room, which numbers and names are
-- taken, and that the lobby is there.
use chatbox.Common.{
  ℕ, ◌≤◌, ◌<◌, ◌≡◌, refl, sym, ap, ◌∙◌, ◌≢◌, not, ◌&&◌, Option, none, some, List, map, ◌==◌,
}
use chatbox.Chat.State.{Room, Server, room_of, default_room_id}
use chatbox.Chat.Rooms.{find_room, is_member, normalized_room_name}
use chatbox.Chat.Rooms.Membership.{bare, find_room-bare, is_member-bare}
use chatbox.Chat.Delivery.Quiet.{Quiet}
use mathlib.Core.Option

pub record Inv (s : Server) : Type 0 where
  -- A session is a member of the room that it says, and of no other; room 0 is no room.
  pub member : (id sid : ℕ) → is_member s.rooms id sid ≡ (not (id == 0) && room_of s sid == id)
  pub no_zero : find_room 0 s.rooms ≡ none
  pub lobby : find_room default_room_id s.rooms ≢ none
  -- A number from the counter on is free.
  pub fresh : (id : ℕ) → s.next_room_id ≤ id → find_room id s.rooms ≡ none
  pub next_pos : 0 < s.next_room_id
  -- No two rooms have one name, whatever its case.
  pub names :
      (i j : ℕ) (r q : Room)
      → find_room i s.rooms ≡ some r
      → find_room j s.rooms ≡ some q
      → normalized_room_name r.name ≡ normalized_room_name q.name
      → i ≡ j

-- `t` is `s` as far as the invariant goes: only topics, histories, other fields of the sessions, the
-- lists of the administration and the effects differ.
pub record Still (s t : Server) : Type 0 where
  pub same_rooms : map bare t.rooms ≡ map bare s.rooms
  pub same_place : (x : ℕ) → room_of t x ≡ room_of s x
  pub same_next : t.next_room_id ≡ s.next_room_id

pub Still-refl : (s : Server) → Still s s
Still-refl s = record { same_rooms = refl; same_place = λ x. refl; same_next = refl }

pub Still-trans : (s t u : Server) → Still s t → Still t u → Still s u
Still-trans s t u p q = record {
  same_rooms = q.same_rooms ∙ p.same_rooms;
  same_place = λ x. q.same_place x ∙ p.same_place x;
  same_next = q.same_next ∙ p.same_next;
}

pub Quiet-Still : (s t : Server) → Quiet s t → Still s t
Quiet-Still s t q = record {
  same_rooms = q.same_rooms;
  same_place = λ x. ap (λ f. (f x).active_room_id) q.same_session;
  same_next = q.same_next;
}

-- A room is there or not, whatever the topics and the histories.
abbrev Same : List Room → List Room → Type 0
Same xs ys = map bare xs ≡ map bare ys

Same-is_member :
    (xs ys : List Room) (id sid : ℕ) → Same xs ys → is_member xs id sid ≡ is_member ys id sid
Same-is_member xs ys id sid e =
    sym (is_member-bare xs id sid) ∙ ap (λ l. is_member l id sid) e ∙ is_member-bare ys id sid

Same-found :
    (xs ys : List Room) (id : ℕ)
    → Same xs ys
    → Option.map bare (find_room id xs) ≡ Option.map bare (find_room id ys)
Same-found xs ys id e = sym (find_room-bare id xs) ∙ ap (find_room id) e ∙ find_room-bare id ys

map-none : (o : Option Room) → (Option.map bare o ≡ none) → o ≡ none
map-none none e = refl
map-none (some r) e = cc

Same-none :
    (xs ys : List Room) (id : ℕ) → Same xs ys → find_room id ys ≡ none → find_room id xs ≡ none
Same-none xs ys id e h = map-none (find_room id xs) (Same-found xs ys id e ∙ ap (Option.map bare) h)

-- The name of a room before and after a change that keeps names.
named_alike :
    (o : Option Room) (r : Room)
    → some (bare r) ≡ Option.map bare o
    → (q : Room) × (o ≡ some q) × (q.name ≡ r.name)
named_alike none r e = absurd (apart e)
  where
    apart : some (bare r) ≡ none → ⊥
    apart h = cc
named_alike (some q) r e = (q, refl, sym (same e))
  where
    same : some (bare r) ≡ some (bare q) → r.name ≡ q.name
    same h = cc

Same-named :
    (xs ys : List Room) (id : ℕ) (r : Room)
    → Same xs ys
    → find_room id xs ≡ some r
    → (q : Room) × (find_room id ys ≡ some q) × (q.name ≡ r.name)
Same-named xs ys id r e h =
    named_alike (find_room id ys) r (sym (ap (Option.map bare) h) ∙ Same-found xs ys id e)

pub Still-Inv : (s t : Server) → Still s t → Inv s → Inv t
Still-Inv s t q v = record {
  member = λ j x.
      Same-is_member t.rooms s.rooms j x q.same_rooms
      ∙ v.member j x
      ∙ ap (λ p. not (j == 0) && p == j) (sym (q.same_place x));
  no_zero = Same-none t.rooms s.rooms 0 q.same_rooms v.no_zero;
  lobby = λ e. v.lobby (Same-none s.rooms t.rooms default_room_id (sym q.same_rooms) e);
  fresh = λ j h. Same-none t.rooms s.rooms j q.same_rooms (v.fresh j (rw (← q.same_next) h));
  next_pos = rw q.same_next v.next_pos;
  names = λ i j r p hr hp e.
      let (r', fr, er) = Same-named t.rooms s.rooms i r q.same_rooms hr in
      let (p', fp, ep) = Same-named t.rooms s.rooms j p q.same_rooms hp in
      v.names i j r' p' fr fp (ap normalized_room_name er ∙ e ∙ sym (ap normalized_room_name ep));
}

pub Quiet-Inv : (s t : Server) → Quiet s t → Inv s → Inv t
Quiet-Inv s t q = Still-Inv s t (Quiet-Still s t q)
