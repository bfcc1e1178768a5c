-- ===== src/Chat/Session/Admission.antt =====
-- Which proofs of identity let a session in.
use chatbox.Common.{
  Option-cases, ℕ, ◌≡◌, refl, sym, ap, ◌∙◌, subst, inl, inr, Bool, true, false, not, ◌&&◌, ◌||◌,
  none, some, arith, if◌then◌else◌, Bool-cases, is_empty, Bytes, bytes_eq,
}
use chatbox.Chat.Admin.Records.{bind_identity-session}
use chatbox.Chat.State.{Server, Session, nickname_of}
use chatbox.Chat.Movement.Placement.{admit_to_default_room-nickname}
use chatbox.Chat.Admin.{bind_identity, find_key, has_password, is_banned, nickname_taken}
use chatbox.Protocol.Client.{identity_proof}
use chatbox.Chat.Session.Gate.{dismiss-nickname}
use chatbox.Chat.Session.{
  Handled, handle_message, Moment, on_proof, on_negotiated, on_request, on_bound, admit,
  verify_identity_signature,
}

admit-nickname :
    (s : Server) (sid : ℕ) (key : Bytes)
    → nickname_of (admit s sid key) sid ≡ (s.session sid).pending_nickname
unfolding admit
admit-nickname s sid key = admit_to_default_room-nickname _ sid sid ∙ ground arith

-- The nickname is bound to no key, or to this one.
unfoldable pub is_bindable : Server → Bytes → Bytes → Bool
is_bindable s nick key = elim (find_key nick s.identities) [ none ↦ true | some k ↦ bytes_eq k key ]

-- What a proof needs: an identity that is pending, a signature that passes the check, and a nickname
-- that is not banned, not taken, and not bound to another key.
unfoldable pub is_admissible : (Bytes → Bytes → Bytes → Bool) → Server → Session → Bytes → Bool
is_admissible verify s c signature =
    let nick = c.pending_nickname in
    let key = c.pending_public_key_hex in
    not (is_empty nick || is_empty key || is_empty c.pending_challenge)
    && (verify_identity_signature verify key c.pending_challenge signature
        && (not (is_banned s nick) && (not (nickname_taken s nick) && is_bindable s nick key)))

-- The session has shaken hands, has given the password if there is one, and has no nickname.
unfoldable pub may_prove : Server → Session → Bool
may_prove s c =
    c.protocol_negotiated && (not (has_password s && not c.authenticated) && is_empty c.nickname)

module _ (verify : Bytes → Bytes → Bytes → Bool) (s : Server) (sid : ℕ) where
  abbrev pending : Bytes
  pending = (s.session sid).pending_nickname

  -- The session has its pending nickname and is read on from, or neither.
  Admitted : Bool → Handled → Type 0
  Admitted b h = (nickname_of h.0 sid ≡ (if b then pending else nickname_of s sid)) × (h.1 ≡ b)

  bind_identity-is_bindable :
      (nick key : Bytes) → (bind_identity s nick key).1 ≡ is_bindable s nick key
  unfolding is_bindable bind_identity
  bind_identity-is_bindable nick key = elim (Option-cases (find_key nick s.identities)) [
    | inl h ↦ rw (h, bind_identity, is_bindable) refl
    | inr (k, h) ↦ rw (h, bind_identity, is_bindable) refl
  ]

  bound :
      (key : Bytes) (r : Server × Bool)
      → r.0.session ≡ s.session
      → Admitted r.1 (on_bound sid key r)
  unfolding on_bound Admitted
  bound key (t, true) e = (admit-nickname t sid key ∙ ap (λ g. (g sid).pending_nickname) e, refl)
  bound key (t, false) e = (dismiss-nickname t sid _ ∙ ap (λ g. (g sid).nickname) e, refl)

  on_bound-Admitted :
      (key : Bytes)
      → Admitted (is_bindable s pending key) (on_bound sid key (bind_identity s pending key))
  on_bound-Admitted key =
      subst (λ b. Admitted b (on_bound sid key (bind_identity s pending key)))
        (bind_identity-is_bindable pending key)
        (bound key (bind_identity s pending key) (bind_identity-session s pending key))

  on_proof-Admitted :
      (signature : Bytes)
      → is_empty (nickname_of s sid) ≡ true
      → Admitted
          (is_admissible verify s (s.session sid) signature)
          (on_proof verify s sid signature)
  unfolding on_proof Admitted is_admissible
  on_proof-Admitted signature n = rw n (elim (Bool-cases missing) [
    | inl e ↦ rw e (dismiss-nickname s sid _, refl)
    | inr e ↦ rw e (elim (Bool-cases verified) [
      | inr f ↦ rw f (dismiss-nickname s sid _, refl)
      | inl f ↦ rw f (elim (Bool-cases (is_banned s pending)) [
        | inl g ↦ rw g (dismiss-nickname s sid _, refl)
        | inr g ↦ rw g (elim (Bool-cases (nickname_taken s pending)) [
          | inl h ↦ rw h (dismiss-nickname s sid _, refl)
          | inr h ↦ rw h (on_bound-Admitted (s.session sid).pending_public_key_hex)
        ])
      ])
    ])
  ])
    where
      c : Session
      c = s.session sid

      missing : Bool
      missing =
          is_empty c.pending_nickname
          || is_empty c.pending_public_key_hex
          || is_empty c.pending_challenge

      verified : Bool
      verified =
          verify_identity_signature verify c.pending_public_key_hex c.pending_challenge signature

-- After a proof of identity, a session has its pending nickname if it has shaken hands, has given the
-- password if there is one, has no nickname, has an identity pending, the signature passes the
-- check, and the nickname is not banned, not taken and not bound to another key; in every other
-- case it has the nickname that it had. If it might prove an identity, it is read on from exactly
-- if it is admitted.
pub proof_admits :
    (verify : Bytes → Bytes → Bytes → Bool) (s : Server) (sid : ℕ) (m : Moment) (signature : Bytes)
    → let h = handle_message verify s sid m (identity_proof signature) in
      let c = s.session sid in
      let fits = is_admissible verify s c signature in
      (nickname_of h.0 sid
        ≡ (if may_prove s c && fits then c.pending_nickname else nickname_of s sid))
      × (may_prove s c ≡ true → h.1 ≡ fits)
unfolding handle_message on_negotiated on_request may_prove is_admissible Admitted
proof_admits verify s sid m signature = elim (Bool-cases (s.session sid).protocol_negotiated) [
  | inr a ↦ rw a (dismiss-nickname s sid _, λ e. cc e)
  | inl a ↦ rw a (elim (Bool-cases (has_password s && not (s.session sid).authenticated)) [
    | inl w ↦ rw w (refl, λ e. cc e)
    | inr w ↦ rw w (elim (Bool-cases (is_empty (nickname_of s sid))) [
      | inr n ↦ rw (n, on_proof) (refl, λ e. cc e)
      | inl n ↦
          let done = on_proof-Admitted verify s sid signature n in
          let h = on_proof verify s sid signature in
          let c = s.session sid in
          let fits = is_admissible verify s c signature in
          subst
            (λ b.
              (nickname_of h.0 sid ≡ (if b && fits then c.pending_nickname else nickname_of s sid))
              × (b ≡ true → h.1 ≡ fits))
            (sym n) (done.0, λ _. done.1)
    ])
  ])
]
