-- ===== src/Tests/Sessions.antt =====
-- Sessions that shake hands, prove an identity and send messages, and the lists of bans and keys.
use chatbox.Protocol.Rules.{is_hex}
use chatbox.Common.{
  ap, ℕ, ◌≤◌, ◌≡◌, refl, sym, ◌∙◌, ◌≢◌, Bool, true, false, ◌&&◌, ◌||◌, some, List, [], ◌∷◌, ◌++◌,
  arith, ◌==◌, if◌then◌else◌, length, Bytes, codes, bytes_eq,
}
use chatbox.Common.{take}
use chatbox.Protocol.Outcome.{version}
use chatbox.Protocol.Client.{hello, authenticate, identity_proof, chat}
use chatbox.Chat.State.{Server, new_session, nickname_of}
use chatbox.Chat.Admin.{
  has_text, is_banned, ban_user, bind_identity, find_key, has_password, nickname_taken,
}
use chatbox.Chat.Admin.Records.{is_banned-ban_user, bind_identity-keeps}
use chatbox.Chat.Quota.{consume, rate_limit_messages}
use chatbox.Chat.Quota.Window.{Run, start, step, within, rate_limited}
use chatbox.Chat.Session.{handle_message, Moment, verify_identity_signature}
use chatbox.Chat.Session.Gate.{nickname_needs_proof}
use chatbox.Chat.Session.Handshake.{served, shown_by, handshake_first}
use chatbox.Protocol.Codec.{decode_client_frame}
use chatbox.Protocol.Frame.{decode_frame, strip_last}
use chatbox.Protocol.Base64.{decode_group, decode_groups, base64_value}
use chatbox.Protocol.Client.{leave, parse_client_message}
use chatbox.Protocol.Fields.{split_fields}
use chatbox.Protocol.Outcome.{ok}
use chatbox.Chat.Session.Password.{password_gate}
use chatbox.Chat.Session.Admission.{is_admissible, is_bindable, may_prove, proof_admits}
use chatbox.Tests.Rooms.{server}

abbrev ann : Bytes
ann = b'a' ∷ b'n' ∷ b'n' ∷ []

abbrev bob : Bytes
bob = b'b' ∷ b'o' ∷ b'b' ∷ []

-- 64 and 128 hexadecimal digits.
abbrev key_hex : Bytes
key_hex = codes "0123456789abcdef0123456789abcdef0123456789abcdef0123456789abcdef"

abbrev proof_hex : Bytes
proof_hex = key_hex ++ key_hex

-- A check that a signature starts with the key.
abbrev check : Bytes → Bytes → Bytes → Bool
check key nonce signature = bytes_eq key (take 64 signature)

abbrev moment : Moment
moment = record { now = 5; clock = codes "12:00"; random_challenge = codes "00" }

-- Session 9 has been sent a challenge; session 8 is new.
abbrev waiting : Server
waiting = record server {
  session = λ x.
      if x == 9
      then record new_session {
        pending_nickname = ann;
        pending_public_key_hex = key_hex;
        pending_challenge = codes "00";
        protocol_negotiated = true;
      }
      else new_session;
  banned_nicks = bob ∷ [];
  identities = (ann, key_hex) ∷ [];
}

abbrev locked : Server
locked = record waiting { password = codes "secret" }

is_banned-ban_user_example :
    is_banned (ban_user waiting ann []) bob ≡ (bytes_eq bob ann || is_banned waiting bob)
is_banned-ban_user_example = is_banned-ban_user waiting ann [] bob

ann-bound : find_key ann waiting.identities ≡ some key_hex
unfolding find_key bytes_eq
ann-bound = refl

bind_identity-keeps_example :
    find_key ann (bind_identity waiting ann proof_hex).0.identities ≡ some key_hex
bind_identity-keeps_example = bind_identity-keeps waiting ann proof_hex ann key_hex ann-bound

abbrev times : List ℕ
times = 3 ∷ 5 ∷ []

two_messages : Run 5 times times
unfolding consume
two_messages = step 5 (omega arith) (step 3 (omega arith) start)

rate_limited_example : (within 5 times ≤ rate_limit_messages) × (length times ≤ rate_limit_messages)
rate_limited_example = rate_limited 5 times times two_messages

-- "LEAVE" as a frame, and a line that is no frame.
abbrev leave_line : Bytes
leave_line = codes "TEVBVkU=" ++ b'\n' ∷ []

leave-decoded : decode_client_frame leave_line ≡ ok leave
unfolding decode_client_frame decode_frame strip_last decode_groups decode_group base64_value
    parse_client_message split_fields bytes_eq
leave-decoded = refl

abbrev broken_line : Bytes
broken_line = b'?' ∷ []

broken-refused : decode_client_frame broken_line ≢ ok (hello version)
unfolding decode_client_frame decode_frame strip_last
broken-refused e = cc e

leave-no_hello : decode_client_frame leave_line ≢ ok (hello version)
leave-no_hello e = apart (sym leave-decoded ∙ e)
  where
    apart : ok leave ≡ ok (hello version) → ⊥
    apart h = cc h

abbrev early_lines : List (Moment × Bytes)
early_lines = (moment, broken_line) ∷ (moment, leave_line) ∷ []

handshake_first_example :
    shown_by ((served check waiting 8 early_lines).0.session 8) ≡ shown_by (waiting.session 8)
handshake_first_example =
    handshake_first check waiting 8 early_lines refl (broken-refused, (leave-no_hello, tt))

proof-checked : verify_identity_signature check key_hex (codes "00") proof_hex ≡ true
unfolding verify_identity_signature is_hex bytes_eq
proof-checked = refl

ann-admissible : is_admissible check waiting (waiting.session 9) proof_hex ≡ true
unfolding is_admissible is_bindable verify_identity_signature is_hex is_banned has_text
    nickname_taken find_key bytes_eq
ann-admissible = refl

ann-may_prove : may_prove waiting (waiting.session 9) ≡ true
unfolding may_prove has_password
ann-may_prove = refl

proof_admits_example :
    let h = handle_message check waiting 9 moment (identity_proof proof_hex) in
    let c = waiting.session 9 in
    let fits = is_admissible check waiting c proof_hex in
    (nickname_of h.0 9 ≡ (if may_prove waiting c && fits then ann else []))
    × (may_prove waiting c ≡ true → h.1 ≡ fits)
proof_admits_example = proof_admits check waiting 9 moment proof_hex

ann-named : nickname_of (handle_message check waiting 9 moment (identity_proof proof_hex)).0 9 ≢ []
ann-named e = apart (sym named ∙ e)
  where
    named : nickname_of (handle_message check waiting 9 moment (identity_proof proof_hex)).0 9 ≡ ann
    named =
        (proof_admits check waiting 9 moment proof_hex).0
        ∙ ap
            (λ b.
              if b && is_admissible check waiting (waiting.session 9) proof_hex then ann else [])
            ann-may_prove
        ∙ ap (λ b. if true && b then ann else []) ann-admissible

    apart : ann ≡ [] → ⊥
    apart h = cc h

nickname_needs_proof_example :
    (signature : Bytes) × (identity_proof proof_hex ≡ identity_proof signature)
    × (verify_identity_signature check key_hex (codes "00") signature ≡ true)
nickname_needs_proof_example =
    nickname_needs_proof check waiting 9 moment (identity_proof proof_hex) refl ann-named

locked-has_password : has_password locked ≡ true
unfolding has_password
locked-has_password = refl

not_password : chat bob ≢ authenticate locked.password
not_password e = cc

password_gate_example :
    (((handle_message check locked 9 moment (chat bob)).0.session 9).authenticated ≡ false)
    × (nickname_of (handle_message check locked 9 moment (chat bob)).0 9 ≡ nickname_of locked 9)
password_gate_example =
    password_gate check locked 9 moment (chat bob) locked-has_password refl not_password
