-- ===== src/Chat/Movement/Invariant.antt =====
-- The invariant across moves between rooms.
use chatbox.Common.{
  Option-cases, ℕ, ◌≡◌, refl, sym, ap, ◌∙◌, ◌≢◌, ◌↔◌, inl, inr, Bool, true, false, not, ◌&&◌, none,
  some, List, [], ◌++◌, arith, ◌==◌, if◌then◌else◌, Bool-cases, is_empty, Bytes, text,
}
use chatbox.Chat.State.{Room, Server, emit, nickname_of, room_of, default_room_id}
use chatbox.Chat.Rooms.{
  normalized_room_name, find_room, update_room, is_member, leave_members, enter_members,
}
use chatbox.Chat.Rooms.Laws.{update_room-name, find_room-update_room}
use chatbox.Chat.Rooms.Membership.{is_member-leave, is_member-enter}
use chatbox.Chat.Delivery.{broadcast_room, broadcast_users}
use chatbox.Chat.Delivery.Quiet.{
  Quiet, Quiet-refl, Quiet-trans, emit-Quiet, broadcast_room-Quiet, broadcast_users-Quiet,
  broadcast_room_lists-Quiet,
}
use chatbox.Chat.Invariant.{Inv, Quiet-Inv}
use chatbox.Chat.Movement.{
  history_effects, system_line, transfer, announce_move, move_session_to_room, detach, disconnect,
  farewell,
}

-- A change of members leaves the set of rooms as it is.
absent_after :
    (i j : ℕ) (f : Room → Room) (rooms : List Room)
    → ((r : Room) → (f r).id ≡ r.id)
    → (find_room j (update_room i f rooms) ≡ none) ↔ (find_room j rooms ≡ none)
absent_after i j f rooms k =
    let e = find_room-update_room i j f rooms k in
    elim (Option-cases (find_room j rooms)) [
      | inl h ↦ (λ _. h, λ _. ground arith)
      | inr (r, h) ↦ (λ n. ground arith, λ n. ground arith)
    ]

pub ne_zero : (s : Server) (id : ℕ) (r : Room) → find_room id s.rooms ≡ some r → Inv s → id ≢ 0
ne_zero s id r e v h = apart (sym (sym (ap (λ k. find_room k s.rooms) h) ∙ e) ∙ refl) v.no_zero
  where
    apart : some r ≡ find_room 0 s.rooms → find_room 0 s.rooms ≡ none → ⊥
    apart p q = cc

still_there :
    (i j : ℕ) (f : Room → Room) (rooms : List Room) (r : Room)
    → ((r : Room) → (f r).id ≡ r.id)
    → find_room j rooms ≡ some r
    → (q : Room) × (find_room j (update_room i f rooms) ≡ some q)
still_there i j f rooms r k e = elim (Option-cases (find_room j (update_room i f rooms))) [
  | inl h ↦ absurd (apart ((absent_after i j f rooms k).0 h))
  | inr h ↦ h
]
  where
    apart : find_room j rooms ≡ none → ⊥
    apart h = cc

-- The move under the lock, to a room that is there.
pub transfer-Inv :
    (s : Server) (sid id : ℕ) (r : Room)
    → find_room id s.rooms ≡ some r
    → Inv s
    → Inv (transfer s sid id)
unfolding transfer
transfer-Inv s sid id r e v = record {
  member = λ j x.
      is_member-enter left id j sid x here.0 here.1
      ∙ ground (arith, is_member-leave s.rooms (room_of s sid) j sid x, v.member j x, nz);
  no_zero = (both 0).1 v.no_zero;
  lobby = λ h. v.lobby ((both default_room_id).0 h);
  fresh = λ j h. (both j).1 (v.fresh j h);
  next_pos = v.next_pos;
  names = λ i j p q hp hq e'.
      let (p', fp, ep) = before i p hp in
      let (q', fq, eq) = before j q hq in
      v.names i j p' q' fp fq (ap normalized_room_name ep ∙ e' ∙ sym (ap normalized_room_name eq));
}
  where
    left : List Room
    left = update_room (room_of s sid) (leave_members sid) s.rooms

    nz : id ≢ 0
    nz = ne_zero s id r e v

    here : (q : Room) × (find_room id left ≡ some q)
    here = still_there (room_of s sid) id (leave_members sid) s.rooms r (λ q. refl) e

    before :
        (j : ℕ) (q : Room)
        → find_room j (update_room id (enter_members sid) left) ≡ some q
        → (p : Room) × (find_room j s.rooms ≡ some p) × (p.name ≡ q.name)
    before j q h =
        let (m, fm, em) =
          update_room-name id j (enter_members sid) left q (λ _. refl) (λ _. refl) h in
        let (p, fp, ep) =
          update_room-name (room_of s sid) j (leave_members sid) s.rooms m (λ _. refl) (λ _. refl)
            fm in
        (p, fp, ep ∙ em)

    both :
        (j : ℕ)
        → (find_room j (update_room id (enter_members sid) left) ≡ none)
          ↔ (find_room j s.rooms ≡ none)
    both j =
        let a = absent_after id j (enter_members sid) left (λ q. refl) in
        let b = absent_after (room_of s sid) j (leave_members sid) s.rooms (λ q. refl) in
        (λ h. b.0 (a.0 h), λ h. a.1 (b.1 h))

-- The notices only send messages.
pub announce_move-Quiet :
    (s : Server) (sid old : ℕ) (target : Room) (announced : Bool)
    → Quiet s (announce_move s sid old target announced)
unfolding announce_move
announce_move-Quiet s sid old target announced =
    Quiet-trans s left _ (left-Quiet (announced && not (old == 0))) (
      Quiet-trans left shown _ (emit-Quiet left _) (
        Quiet-trans shown joined _ (broadcast_room-Quiet shown target.id _ []) (
          Quiet-trans joined listed _ (broadcast_users-Quiet joined target.id)
            (broadcast_room_lists-Quiet listed))))
  where
    line : Bytes
    line = system_line (nickname_of s sid) " left for #" target.name

    said : Server
    said = broadcast_users (broadcast_room s old line []) old

    left : Server
    left = if announced && not (old == 0) then said else s

    left-Quiet : (b : Bool) → Quiet s (if b then said else s)
    left-Quiet true =
        Quiet-trans s (broadcast_room s old line []) _ (broadcast_room-Quiet s old line [])
          (broadcast_users-Quiet _ old)
    left-Quiet false = Quiet-refl s

    shown : Server
    shown = emit left (history_effects sid target)

    joined : Server
    joined =
        broadcast_room shown target.id (system_line (nickname_of s sid) " joined #" target.name) []

    listed : Server
    listed = broadcast_users joined target.id

-- A move of a session, to a room that is there or not, keeps the invariant.
pub move_session_to_room-Inv :
    (s : Server) (sid id : ℕ) (announced : Bool)
    → Inv s
    → Inv (move_session_to_room s sid id announced)
unfolding move_session_to_room
move_session_to_room-Inv s sid id announced v = elim (Option-cases (find_room id s.rooms)) [
  | inl e ↦ rw (e, move_session_to_room) v
  | inr (target, e) ↦
      rw (e, move_session_to_room)
        (Quiet-Inv _ _ (announce_move-Quiet _ sid (room_of s sid) target announced)
          (transfer-Inv s sid id target e v))
]

-- Taking a session out of the server.
pub detach-Inv : (s : Server) (sid : ℕ) → Inv s → Inv (detach s sid)
unfolding detach
detach-Inv s sid v = elim (Bool-cases (room_of s sid == 0)) [
  | inl z ↦ record {
    member = λ j x. rw z (ground (arith, v.member j x));
    no_zero = rw z v.no_zero;
    lobby = rw z v.lobby;
    fresh = rw z v.fresh;
    next_pos = v.next_pos;
    names = rw z v.names;
  }
  | inr z ↦ record {
    member =
        λ j x. rw z (ground (arith, is_member-leave s.rooms (room_of s sid) j sid x, v.member j x));
    no_zero = rw z ((both 0).1 v.no_zero);
    lobby = rw z (λ h. v.lobby ((both default_room_id).0 h));
    fresh = rw z (λ j h. (both j).1 (v.fresh j h));
    next_pos = v.next_pos;
    names = rw z kept;
  }
]
  where
    before :
        (j : ℕ) (q : Room)
        → find_room j (update_room (room_of s sid) (leave_members sid) s.rooms) ≡ some q
        → (p : Room) × (find_room j s.rooms ≡ some p) × (p.name ≡ q.name)
    before j q =
        update_room-name (room_of s sid) j (leave_members sid) s.rooms q (λ _. refl) (λ _. refl)

    kept :
        (i j : ℕ) (p q : Room)
        → find_room i (update_room (room_of s sid) (leave_members sid) s.rooms) ≡ some p
        → find_room j (update_room (room_of s sid) (leave_members sid) s.rooms) ≡ some q
        → normalized_room_name p.name ≡ normalized_room_name q.name
        → i ≡ j
    kept i j p q hp hq e =
        let (p', fp, ep) = before i p hp in
        let (q', fq, eq) = before j q hq in
        v.names i j p' q' fp fq (ap normalized_room_name ep ∙ e ∙ sym (ap normalized_room_name eq))

    both :
        (j : ℕ)
        → (find_room j (update_room (room_of s sid) (leave_members sid) s.rooms) ≡ none)
          ↔ (find_room j s.rooms ≡ none)
    both j = absent_after (room_of s sid) j (leave_members sid) s.rooms (λ q. refl)

farewell-Quiet :
    (s : Server) (sid old : ℕ) (announce : Bool) → Quiet s (farewell s sid old announce)
unfolding farewell
farewell-Quiet s sid old announce =
    Quiet-trans s told _ (told-Quiet (announce && not (is_empty (nickname_of s sid)))) (
      Quiet-trans told (broadcast_users told old) _ (broadcast_users-Quiet told old)
        (broadcast_room_lists-Quiet _))
  where
    said : Server
    said = broadcast_room s old (text "[system] " ++ (nickname_of s sid ++ text " left")) []

    told : Server
    told = if announce && not (is_empty (nickname_of s sid)) then said else s

    told-Quiet : (b : Bool) → Quiet s (if b then said else s)
    told-Quiet true = broadcast_room-Quiet s old _ []
    told-Quiet false = Quiet-refl s

-- The end of a session keeps the invariant, with an announcement or without.
pub disconnect-Inv :
    (s : Server) (sid : ℕ) (announce : Bool) → Inv s → Inv (disconnect s sid announce)
unfolding disconnect
disconnect-Inv s sid announce v =
    cases (not (room_of s sid == 0) && is_member s.rooms (room_of s sid) sid)
  where
    cases :
        (b : Bool)
        → Inv (if b then farewell (detach s sid) sid (room_of s sid) announce else detach s sid)
    cases true = Quiet-Inv _ _ (farewell-Quiet _ sid (room_of s sid) announce) (detach-Inv s sid v)
    cases false = detach-Inv s sid v

-- What a session's end does to the server, the notices aside.
pub same_as_detach :
    {A : Type 0} (f : Server → A)
    → ((t u : Server) → Quiet t u → f u ≡ f t)
    → (s : Server) (sid : ℕ) (announce : Bool) → f (disconnect s sid announce) ≡ f (detach s sid)
unfolding disconnect
same_as_detach f k s sid announce =
    cases (not (room_of s sid == 0) && is_member s.rooms (room_of s sid) sid)
  where
    cases :
        (b : Bool)
        → f (if b then farewell (detach s sid) sid (room_of s sid) announce else detach s sid)
          ≡ f (detach s sid)
    cases true = k _ _ (farewell-Quiet (detach s sid) sid (room_of s sid) announce)
    cases false = refl

-- Who is banned, and each session's nickname and password check, stay as they are when a session
-- ends.
pub disconnect-bans :
    (s : Server) (sid : ℕ) (announce : Bool)
    → (disconnect s sid announce).banned_nicks ≡ s.banned_nicks
unfolding detach
disconnect-bans s = same_as_detach (λ t. t.banned_nicks) (λ t u q. q.same_bans) s

pub disconnect-nickname :
    (s : Server) (sid : ℕ) (announce : Bool) (x : ℕ)
    → nickname_of (disconnect s sid announce) x ≡ nickname_of s x
unfolding detach
disconnect-nickname s sid announce x =
    same_as_detach (λ t. nickname_of t x) (λ t u q. ap (λ g. (g x).nickname) q.same_session) s sid
      announce
    ∙ ground arith

pub disconnect-authenticated :
    (s : Server) (sid : ℕ) (announce : Bool) (x : ℕ)
    → ((disconnect s sid announce).session x).authenticated ≡ (s.session x).authenticated
unfolding detach
disconnect-authenticated s sid announce x =
    same_as_detach (λ t. (t.session x).authenticated)
      (λ t u q. ap (λ g. (g x).authenticated) q.same_session) s sid announce
    ∙ ground arith
