-- ===== src/Network/Invite/RoundTrip.antt =====
-- An invitation that is made is parsed as it was.
use chatbox.Common.{
  all_of, ℕ, ◌<◌, ◌≡◌, refl, ap, ◌∙◌, subst, ◌≢◌, inl, inr, Bool, true, false, Option, none, some,
  List, [], ◌∷◌, ◌++◌, arith, Bool-cases, is_empty, Bytes, codes, bytes_eq,
}
use chatbox.Common.{All-imp, is_empty-eq-nil}
use chatbox.Protocol.Decimal.{to_string}
use chatbox.Protocol.Decimal.RoundTrip.{from_chars-to_string, to_string-IsDigit, IsDigit}
use chatbox.Protocol.Fields.{split_fields}
use chatbox.Protocol.Fields.Laws.{Avoids, split_fields_cons, split_fields_single}
use chatbox.Protocol.Rules.{isxdigit}
use chatbox.Network.Trust.{normalize_fingerprint}
use chatbox.Network.Trust.Store.{normalize_fingerprint_again, normalize_fingerprint_digits}
use chatbox.Network.Fields.{port_bound}
use chatbox.Network.Invite.{
  Invite, is_host_char, is_address, is_pinned, validate, digit, make_invite, is_digit, is_one,
  checked, parse_fields, parse_invite,
}

-- The invitation with its fingerprint in the normal spelling.
pub normalized : Invite → Invite
normalized invite = record invite { fingerprint = normalize_fingerprint invite.fingerprint }

host-Avoids : (host : Bytes) → all_of is_host_char host ≡ true → Avoids b'|' host
unfolding is_host_char
host-Avoids [] h = tt
host-Avoids (c ∷ cs) h = (ground (arith, h), host-Avoids cs (ground (arith, h)))

to_string-Avoids : (n : ℕ) → Avoids b'|' (to_string n)
to_string-Avoids n =
    All-imp IsDigit (λ c. c ≢ b'|') (λ c (low, high). omega (arith, high)) (to_string n)
      (to_string-IsDigit n)

digit-Avoids : (b : Bool) → Avoids b'|' (digit b)
unfolding digit
digit-Avoids true = (omega arith, tt)
digit-Avoids false = (omega arith, tt)

fingerprint-Avoids : (cs : Bytes) → Avoids b'|' (normalize_fingerprint cs)
fingerprint-Avoids cs =
    All-imp (λ c. isxdigit c ≡ true) (λ c. c ≢ b'|') (λ c h. ground (arith, h))
      (normalize_fingerprint cs) (normalize_fingerprint_digits cs)

invite_text : Invite → Bytes
invite_text invite =
    codes "chatbox:1|"
    ++ (invite.host
        ++ (b'|'
            ∷ (to_string invite.port
                ++ (b'|'
                    ∷ (digit invite.tls
                        ++ (b'|'
                            ∷ (digit invite.password_required
                                ++ (b'|' ∷ normalize_fingerprint invite.fingerprint))))))))

invite_fields : Invite → List Bytes
invite_fields invite =
    codes "chatbox:1"
    ∷ invite.host
    ∷ to_string invite.port
    ∷ digit invite.tls
    ∷ digit invite.password_required
    ∷ normalize_fingerprint invite.fingerprint
    ∷ []

split_fields-invite_text :
    (invite : Invite)
    → all_of is_host_char invite.host ≡ true
    → split_fields (invite_text invite) ≡ invite_fields invite
unfolding invite_text invite_fields
split_fields-invite_text invite h =
    split_fields_cons (codes "chatbox:1") _ kind
    ∙ ap (λ r. codes "chatbox:1" ∷ r)
        (split_fields_cons invite.host _ (host-Avoids invite.host h)
          ∙ ap (λ r. invite.host ∷ r)
              (split_fields_cons (to_string invite.port) _ (to_string-Avoids invite.port)
                ∙ ap (λ r. to_string invite.port ∷ r)
                    (split_fields_cons (digit invite.tls) _ (digit-Avoids invite.tls)
                      ∙ ap (λ r. digit invite.tls ∷ r)
                          (split_fields_cons (digit invite.password_required) _
                              (digit-Avoids invite.password_required)
                            ∙ ap (λ r. digit invite.password_required ∷ r)
                                (split_fields_single (normalize_fingerprint invite.fingerprint)
                                  (fingerprint-Avoids invite.fingerprint))))))
  where
    kind : Avoids b'|' (codes "chatbox:1")
    kind = (
      omega arith,
      (
        omega arith,
        (
          omega arith,
          (
            omega arith,
            (omega arith, (omega arith, (omega arith, (omega arith, (omega arith, tt))))),
          ),
        ),
      ),
    )

digit_lem : (b : Bool) → (is_one (digit b) ≡ b) × (is_digit (digit b) ≡ true)
unfolding is_one is_digit digit bytes_eq
digit_lem true = (refl, refl)
digit_lem false = (refl, refl)

validate-parts :
    (invite : Invite)
    → validate invite ≡ none
    → (is_address invite ≡ true) × (is_pinned invite ≡ true)
unfolding validate
validate-parts invite h = (ground (arith, h), ground (arith, h))

is_address-host :
    (invite : Invite) → is_address invite ≡ true → all_of is_host_char invite.host ≡ true
unfolding is_address
is_address-host invite h = ground (arith, h)

is_pinned-normalized :
    (invite : Invite) → is_pinned invite ≡ true → is_pinned (normalized invite) ≡ true
unfolding is_pinned normalized normalize_fingerprint
is_pinned-normalized invite h =
    elim (Bool-cases (is_empty (normalize_fingerprint invite.fingerprint))) [
      | inl e ↦ rw e refl
      | inr e ↦ elim (Bool-cases (is_empty invite.fingerprint)) [
        | inl z ↦
            let gone : is_empty (normalize_fingerprint []) ≡ false =
              subst (λ xs. is_empty (normalize_fingerprint xs) ≡ false)
                (is_empty-eq-nil invite.fingerprint z) e in
            cc gone
        | inr z ↦
            rw (normalize_fingerprint_again invite.fingerprint, is_pinned)
              (rw e (ground (arith, h, z, e)))
      ]
    ]

validate-of_parts :
    (invite : Invite) → is_address invite ≡ true → is_pinned invite ≡ true → validate invite ≡ none
unfolding validate
validate-of_parts invite a p = rw (a, validate) (rw p refl)

validate-normalized :
    (invite : Invite) → validate invite ≡ none → validate (normalized invite) ≡ none
unfolding validate normalized is_address
validate-normalized invite h =
    let (a, p) = validate-parts invite h in
    validate-of_parts (normalized invite) a (is_pinned-normalized invite p)

parse_fields-invite_fields :
    (invite : Invite)
    → invite.port < port_bound
    → validate invite ≡ none
    → parse_fields (invite_fields invite) ≡ inl (normalized invite)
unfolding parse_fields invite_fields checked normalized bytes_eq
parse_fields-invite_fields invite p h = rw (from_chars-to_string port_bound invite.port p) (
    rw ((digit_lem invite.tls).1) (
      rw ((digit_lem invite.password_required).1) (
        rw ((digit_lem invite.tls).0) (
          rw ((digit_lem invite.password_required).0) (
            rw (validate-normalized invite h) (
              ap (λ fp. inl (record invite { fingerprint = fp }))
                (normalize_fingerprint_again invite.fingerprint)))))))

make_invite-inl :
    (invite : Invite) (error : Option Bytes) (made : Bytes)
    → validate invite ≡ error
    → make_invite invite ≡ inl made
    → (validate invite ≡ none) × (made ≡ invite_text invite)
unfolding make_invite invite_text
make_invite-inl invite (some error) made e h = cc (rw (e, make_invite) at h)
make_invite-inl invite none made e h = (e, cc (rw (e, make_invite) at h))

-- An invitation with a port below 65536 that is made is parsed as the one it was made of, its
-- fingerprint in the normal spelling.
pub parse_invite-make_invite :
    (invite : Invite) (made : Bytes)
    → invite.port < port_bound
    → make_invite invite ≡ inl made
    → parse_invite made ≡ inl (normalized invite)
unfolding parse_invite
parse_invite-make_invite invite made p h =
    let (valid, same) = make_invite-inl invite (validate invite) made refl h in
    let (address, _) = validate-parts invite valid in
    ap parse_fields
      (ap split_fields same ∙ split_fields-invite_text invite (is_address-host invite address))
    ∙ parse_fields-invite_fields invite p valid
