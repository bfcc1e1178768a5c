-- ===== src/Protocol/Client/Sound.antt =====
-- Whatever `parse_client_message` accepts is valid.
use chatbox.Protocol.Fields.{rest_after_delimiter}
use chatbox.Protocol.Decimal.{from_chars}
use chatbox.Protocol.Rules.{is_valid_room_name}
use chatbox.Protocol.Fields.Laws.{split_fields_some}
use chatbox.Common.{
  is_empty-eq-nil, Option-cases, ◌≡◌, subst, inl, inr, true, List, [], ◌∷◌, arith, All, Bytes,
}
use chatbox.Protocol.Outcome.{select_All, Result, ok, err}
use chatbox.Protocol.Client.Validity.{IsValid}
use chatbox.Protocol.Client.{
  client_rungs, unsigned_bound, kick_reason, client_fields, client_msg, client_topic,
  client_command, client_auth, client_identify, client_plain, client_whisper, client_room,
  client_hello, client_kick, client_proof, ClientMessage, leave, disconnect, list_rooms,
  create_room, join_room, parse_client_message,
}

-- What a parser may return: an error, or a valid message.
abbrev Sound : Result ClientMessage → Type 0
Sound (ok m) = IsValid m
Sound (err e d) = Unit

client_hello-Sound : (args : List Bytes) → Sound (client_hello args)
unfolding client_hello
client_hello-Sound [] = tt
client_hello-Sound (f ∷ []) = elim (Option-cases (from_chars unsigned_bound f)) [
  | inl e ↦ rw e tt
  | inr (v, e) ↦ rw e (ground arith)
]
client_hello-Sound (f ∷ g ∷ args) = tt

module _ (payload : Bytes) where
  client_auth-Sound : (args : List Bytes) → Sound (client_auth payload args)
  unfolding client_auth
  client_auth-Sound [] = tt
  client_auth-Sound (f ∷ args) = ground arith

  client_topic-Sound : (args : List Bytes) → Sound (client_topic payload args)
  unfolding client_topic
  client_topic-Sound [] = tt
  client_topic-Sound (f ∷ args) = ground arith

  client_msg-Sound : (args : List Bytes) → Sound (client_msg payload args)
  unfolding client_msg
  client_msg-Sound [] = tt
  client_msg-Sound (f ∷ args) = ground arith

  client_whisper-Sound : (args : List Bytes) → Sound (client_whisper payload args)
  unfolding client_whisper
  client_whisper-Sound (f ∷ g ∷ args) = ground arith
  client_whisper-Sound [] = tt
  client_whisper-Sound (f ∷ []) = tt

  client_kick-Sound : (args : List Bytes) → Sound (client_kick payload args)
  unfolding client_kick kick_reason
  client_kick-Sound [] = tt
  client_kick-Sound (f ∷ []) = ground arith
  client_kick-Sound (f ∷ g ∷ args) =
      ground (arith, is_empty-eq-nil (rest_after_delimiter payload 2))

client_identify-Sound : (args : List Bytes) → Sound (client_identify args)
unfolding client_identify
client_identify-Sound (f ∷ g ∷ []) = ground arith
client_identify-Sound [] = tt
client_identify-Sound (f ∷ []) = tt
client_identify-Sound (f ∷ g ∷ h ∷ args) = tt

client_proof-Sound : (args : List Bytes) → Sound (client_proof args)
unfolding client_proof
client_proof-Sound [] = tt
client_proof-Sound (f ∷ []) = ground arith
client_proof-Sound (f ∷ g ∷ args) = tt

client_plain-Sound :
    (command : Bytes) (m : ClientMessage) (args : List Bytes)
    → IsValid m
    → Sound (client_plain command m args)
unfolding client_plain
client_plain-Sound command m [] v = v
client_plain-Sound command m (f ∷ args) v = tt

client_room-Sound :
    (command : Bytes) (m : Bytes → ClientMessage) (args : List Bytes)
    → ((name : Bytes) → is_valid_room_name name ≡ true → IsValid (m name))
    → Sound (client_room command m args)
unfolding client_room
client_room-Sound command m [] v = tt
client_room-Sound command m (f ∷ []) v = ground (arith, v f)
client_room-Sound command m (f ∷ g ∷ args) v = tt

client_rungs-Sound :
    (c : Bytes) (args : List Bytes) (p : Bytes) → All (λ rung. Sound rung.1) (client_rungs c args p)
unfolding client_rungs
client_rungs-Sound c args p = assumption (
  client_hello-Sound args,
  client_auth-Sound p args,
  client_identify-Sound args,
  client_proof-Sound args,
  client_plain-Sound c leave args tt,
  client_plain-Sound c disconnect args tt,
  client_plain-Sound c list_rooms args tt,
  client_room-Sound c create_room args (λ n h. h),
  client_room-Sound c join_room args (λ n h. h),
  client_topic-Sound p args,
  client_msg-Sound p args,
  client_whisper-Sound p args,
  client_kick-Sound p args,
)

client_command-Sound : (c : Bytes) (args : List Bytes) (p : Bytes) → Sound (client_command c args p)
unfolding client_command
client_command-Sound c args p =
    select_All Sound c (client_rungs c args p) _ (client_rungs-Sound c args p) tt

parse-Sound : (p : Bytes) → Sound (parse_client_message p)
unfolding parse_client_message client_fields
parse-Sound [] = tt
parse-Sound (x ∷ p) =
    let (f, fs, e) = split_fields_some (x ∷ p) in rw e (client_command-Sound f fs (x ∷ p))

-- A parsed message is within the bounds of its kind.
pub parse_client_message-IsValid :
    (p : Bytes) (m : ClientMessage) → parse_client_message p ≡ ok m → IsValid m
parse_client_message-IsValid p m e = subst Sound e (parse-Sound p)
