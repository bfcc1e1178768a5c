-- ===== src/Network/Invite.antt =====
-- Invitations: src/network/invite.cpp. An exception is its text.
pub mod RoundTrip
use chatbox.Common.{
  all_of, ℕ, ◌⊎◌, inl, inr, Bool, not, ◌&&◌, ◌||◌, Option, none, some, List, [], ◌∷◌, ◌++◌, ltb,
  ◌==◌, if◌then◌else◌, length, is_empty, Bytes, codes, text, bytes_eq,
}
use chatbox.Protocol.Decimal.{to_string, from_chars}
use chatbox.Protocol.Fields.{split_fields}
use chatbox.Protocol.Rules.{isalnum}
use chatbox.Network.Trust.{normalize_fingerprint}
use chatbox.Network.Directory.{host_max_len}
use chatbox.Network.Fields.{port_bound}

pub record Invite : Type 0 where
  pub host : Bytes
  pub port : ℕ
  pub tls : Bool
  pub password_required : Bool
  pub fingerprint : Bytes

is_host_char : ℕ → Bool
is_host_char c = isalnum c || c == b'.' || c == b'-' || c == b':' || c == b'_' || c == b'%'

-- The host and the port; and the fingerprint, if there is one.
is_address : Invite → Bool
unfolding is_host_char
is_address invite =
    not (is_empty invite.host)
    && (not (ltb host_max_len (length invite.host))
        && (not (invite.port == 0) && all_of is_host_char invite.host))

is_pinned : Invite → Bool
is_pinned invite =
    is_empty invite.fingerprint
    || (invite.tls && not (is_empty (normalize_fingerprint invite.fingerprint)))

-- `none` where it throws nothing.
validate : Invite → Option Bytes
unfolding is_address is_pinned
validate invite =
    if not (is_address invite)
    then some (text "Invite contains an invalid address or port.")
    else if not (is_pinned invite)
    then some (text "Invite contains an invalid TLS fingerprint.")
    else none

digit : Bool → Bytes
digit b = if b then codes "1" else codes "0"

unfoldable pub make_invite : Invite → Bytes ⊎ Bytes
unfolding validate digit
make_invite invite = elim (validate invite) [
  | some error ↦ inr error
  | none ↦ inl (
      codes "chatbox:1|"
      ++ (invite.host
          ++ (b'|'
              ∷ (to_string invite.port
                  ++ (b'|'
                      ∷ (digit invite.tls
                          ++ (b'|'
                              ∷ (digit invite.password_required
                                  ++ (b'|' ∷ normalize_fingerprint invite.fingerprint)))))))))
]

is_digit : Bytes → Bool
is_digit field = bytes_eq field (codes "0") || bytes_eq field (codes "1")

is_one : Bytes → Bool
is_one field = bytes_eq field (codes "1")

checked : Invite → Option Bytes → Invite ⊎ Bytes
checked invite (some error) = inr error
checked invite none = inl (record invite { fingerprint = normalize_fingerprint invite.fingerprint })

parse_fields : List Bytes → Invite ⊎ Bytes
unfolding is_digit is_one checked validate
parse_fields (kind ∷ host ∷ port ∷ tls ∷ password ∷ fingerprint ∷ []) =
    if not (bytes_eq kind (codes "chatbox:1"))
    then inr (text "Malformed or unsupported invite version.")
    else elim (from_chars port_bound port) [
      | none ↦ inr (text "Invalid invite settings.")
      | some number ↦
          if not (is_digit tls) || not (is_digit password)
          then inr (text "Invalid invite settings.")
          else (let invite : Invite = record {
            host = host;
            port = number;
            tls = is_one tls;
            password_required = is_one password;
            fingerprint = fingerprint;
          } in
              checked invite (validate invite))
    ]
parse_fields _ = inr (text "Malformed or unsupported invite version.")

-- The loop of the source cuts the text as `split_fields` does.
unfoldable pub parse_invite : Bytes → Invite ⊎ Bytes
unfolding parse_fields
parse_invite s = parse_fields (split_fields s)
