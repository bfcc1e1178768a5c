-- ===== src/Chat/Admin/Records.antt =====
-- The lists of bans and of identities in `ChatServer` as maps, and what the operations on them do.
use chatbox.Common.{
  ℕ, ◌≡◌, refl, sym, ap, ◌∙◌, ◌↔◌, inl, inr, true, false, not, ◌&&◌, ◌||◌, Option, none, some, List,
  [], ◌∷◌, arith, if◌then◌else◌, Bool-cases, Bytes, bytes_eq,
}
use chatbox.Common.{bytes_eq_iff, Option-cases}
use chatbox.Chat.State.{Server, close_session-bans, emit, delivery}
use chatbox.Chat.Movement.Invariant.{disconnect-bans}
use chatbox.Chat.Delivery.Quiet.{broadcast_room-Quiet, broadcast_users-Quiet}
use chatbox.Protocol.Server.{kick}
use chatbox.Chat.Admin.{
  insert_text, erase_text, has_text, find_key, insert_key, is_banned, ban_user, unban_user,
  bind_identity, record_ban, ban_session, expel,
}

-- Two texts that compare as equal compare alike with a third.
alike : (z x y : Bytes) → bytes_eq x y ≡ true → bytes_eq z x ≡ bytes_eq z y
alike z x y e = ap (bytes_eq z) ((bytes_eq_iff x y).0 e)

has_text-insert_text :
    (z x : Bytes) (xs : List Bytes)
    → has_text z (insert_text x xs) ≡ (bytes_eq z x || has_text z xs)
unfolding has_text insert_text
has_text-insert_text z x [] = refl
has_text-insert_text z x (y ∷ ys) = elim (Bool-cases (bytes_eq x y)) [
  | inl h ↦ ground (arith, alike z x y h)
  | inr h ↦ ground (arith, has_text-insert_text z x ys)
]

has_text-erase_text :
    (z x : Bytes) (xs : List Bytes)
    → has_text z (erase_text x xs) ≡ (not (bytes_eq z x) && has_text z xs)
unfolding has_text erase_text
has_text-erase_text z x [] = ground arith
has_text-erase_text z x (y ∷ ys) = elim (Bool-cases (bytes_eq x y)) [
  | inl h ↦ ground (arith, alike z x y h, has_text-erase_text z x ys)
  | inr h ↦ elim (Bool-cases (bytes_eq z x)) [
    | inl k ↦ ground (arith, has_text-erase_text z x ys, (bytes_eq_iff z x).0 k)
    | inr k ↦ ground (arith, has_text-erase_text z x ys)
  ]
]

some-inj : {a b : Bytes} → some a ≡ some b → a ≡ b
some-inj e = cc

find_key-insert_key :
    (z x v : Bytes) (m : List (Bytes × Bytes))
    → find_key x m ≡ none
    → find_key z (insert_key x v m) ≡ (if bytes_eq z x then some v else find_key z m)
unfolding find_key insert_key
find_key-insert_key z x v [] e = refl
find_key-insert_key z x v ((k, w) ∷ m) e = elim (Bool-cases (bytes_eq x k)) [
  | inl h ↦ ground (arith)
  | inr h ↦ elim (Bool-cases (bytes_eq z x)) [
    | inl k1 ↦ ground (arith, find_key-insert_key z x v m, (bytes_eq_iff z x).0 k1)
    | inr k1 ↦ ground (arith, find_key-insert_key z x v m)
  ]
]

expel-bans :
    (s : Server) (sid : ℕ) (nick reason : Bytes)
    → (expel s sid nick reason).banned_nicks ≡ s.banned_nicks
unfolding expel
expel-bans s sid nick reason =
    disconnect-bans _ sid false ∙ close_session-bans (emit s (delivery sid (kick nick reason))) sid

ban_session-bans :
    (s : Server) (nick reason : Bytes) (o : Option ℕ)
    → (ban_session s nick reason o).banned_nicks ≡ s.banned_nicks
unfolding ban_session
ban_session-bans s nick reason none = refl
ban_session-bans s nick reason (some sid) =
    (broadcast_users-Quiet _ _).same_bans
    ∙ (broadcast_room-Quiet _ _ _ _).same_bans
    ∙ expel-bans s sid nick _

-- A ban adds the nickname to the banned ones, and changes the answer for no other.
pub is_banned-ban_user :
    (s : Server) (nick reason other : Bytes)
    → is_banned (ban_user s nick reason) other ≡ (bytes_eq other nick || is_banned s other)
unfolding is_banned ban_user
is_banned-ban_user s nick reason other =
    ap (has_text other) (ban_session-bans (record_ban s nick reason) nick reason _)
    ∙ has_text-insert_text other nick s.banned_nicks

has_other :
    (s : Server) (nick other : Bytes)
    → has_text nick s.banned_nicks ≡ false
    → bytes_eq other nick ≡ true
    → has_text other s.banned_nicks ≡ false
has_other s nick other h e = rw ((bytes_eq_iff other nick).0 e) h

-- Lifting a ban removes the nickname, whether it was listed or not, and changes the answer for no
-- other.
pub is_banned-unban_user :
    (s : Server) (nick other : Bytes)
    → is_banned (unban_user s nick).0 other ≡ (not (bytes_eq other nick) && is_banned s other)
unfolding is_banned unban_user
is_banned-unban_user s nick other = elim (Bool-cases (has_text nick s.banned_nicks)) [
  | inl h ↦ rw (h, unban_user) (has_text-erase_text other nick s.banned_nicks)
  | inr h ↦ rw (h, unban_user) (ground (arith, has_other s nick other h))
]

-- Once a nickname has a key, no attempt to bind it or another nickname changes that key.
pub bind_identity-keeps :
    (s : Server) (nick key other k : Bytes)
    → find_key other s.identities ≡ some k
    → find_key other (bind_identity s nick key).0.identities ≡ some k
unfolding bind_identity
bind_identity-keeps s nick key other k e = elim (Option-cases (find_key nick s.identities)) [
  | inl h ↦
      rw (h, bind_identity)
        (find_key-insert_key other nick key s.identities h
          ∙ ground (arith, e, h, (bytes_eq_iff other nick).0))
  | inr (w, h) ↦ rw (h, bind_identity) e
]

-- Binding succeeds exactly if the nickname has the key afterwards.
pub bind_identity-binds :
    (s : Server) (nick key : Bytes)
    → ((bind_identity s nick key).1 ≡ true)
      ↔ (find_key nick (bind_identity s nick key).0.identities ≡ some key)
unfolding bind_identity
bind_identity-binds s nick key = elim (Option-cases (find_key nick s.identities)) [
  | inl h ↦
      rw (h, bind_identity)
        (
          λ _.
              find_key-insert_key nick nick key s.identities h
              ∙ ground (arith, (bytes_eq_iff nick nick).1 refl),
          λ _. refl,
        )
  | inr (w, h) ↦
      rw (h, bind_identity)
        (
          λ e. h ∙ ap some ((bytes_eq_iff w key).0 e),
          λ e. (bytes_eq_iff w key).1 (some-inj (sym h ∙ e)),
        )
]

pub bind_identity-session :
    (s : Server) (nick key : Bytes) → (bind_identity s nick key).0.session ≡ s.session
unfolding bind_identity
bind_identity-session s nick key = elim (Option-cases (find_key nick s.identities)) [
  | inl h ↦ rw (h, bind_identity) refl
  | inr (w, h) ↦ rw (h, bind_identity) refl
]
