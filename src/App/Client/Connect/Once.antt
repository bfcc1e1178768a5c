-- ===== src/App/Client/Connect/Once.antt =====
-- An attempt to connect ends once, whatever its handlers are told and in whatever order they run.
use chatbox.Protocol.Codec.{encode_client_frame}
use chatbox.Common.{
  length-append, ℕ, ◌+◌, ◌≡◌, refl, ◌∙◌, inl, inr, Bool, true, false, not, ◌&&◌, Option, none, some,
  List, [], ◌∷◌, ◌++◌, arith, ◌==◌, if◌then◌else◌, Bool-cases, length, is_empty, Bytes, text,
}
use mathlib.Core.List.{◌++◌}
use chatbox.Protocol.Outcome.{version}
use chatbox.Protocol.Client.{ClientMessage}
use chatbox.App.Client.{err, ok, Result, ChatClient, ConnectionFailure, shown, send, send_encoded}
use chatbox.App.Client.Connect.{
  released, greet, async_connect, cancel_connect, resolved, tcp_connected, tls_done,
  deadline_expired, finish_connect, settle, arm_deadline, is_stale, is_no_failure,
}

pub data Event : Type 0 where
  cancel : Event
  resolve : ℕ → Option Bytes → Event
  tcp : ℕ → Option (Bool × Bytes) → Option Bytes → Event
  tls : ℕ → Option Bytes → Bool → Bytes → Bytes → Event
  deadline : ℕ → ℕ → Bool → Event

pub handle : ChatClient → Event → ChatClient
handle c cancel = cancel_connect c
handle c (resolve attempt error) = resolved c attempt error
handle c (tcp attempt error name_error) = tcp_connected c attempt error name_error
handle c (tls attempt error verified notice why) = tls_done c attempt error verified notice why
handle c (deadline attempt generation error) = deadline_expired c attempt generation error

pub handle_all : ChatClient → List Event → ChatClient
unfolding handle
handle_all c [] = c
handle_all c (e ∷ es) = handle_all (handle c e) es

-- The calls of the callback that were made, and the one that is still owed.
pub owed : ChatClient → ℕ
owed c = length c.completed + (if c.connecting then 1 else 0)

encoded-completed : (c : ChatClient) (r : Result Bytes) → (send_encoded c r).completed ≡ c.completed
unfolding send_encoded shown
encoded-completed c (ok wire) = refl
encoded-completed c (err e detail) = refl

encoded-connecting :
    (c : ChatClient) (r : Result Bytes) → (send_encoded c r).connecting ≡ c.connecting
unfolding send_encoded shown
encoded-connecting c (ok wire) = refl
encoded-connecting c (err e detail) = refl

send-completed : (c : ChatClient) (m : ClientMessage) → (send c m).completed ≡ c.completed
unfolding send
send-completed c m = ground (arith, encoded-completed c (encode_client_frame m))

send-connecting : (c : ChatClient) (m : ClientMessage) → (send c m).connecting ≡ c.connecting
unfolding send
send-connecting c m = ground (arith, encoded-connecting c (encode_client_frame m))

greet-completed : (c : ChatClient) → (greet c).completed ≡ c.completed
unfolding greet
greet-completed c = send-completed (record c { connected = true }) (ClientMessage.hello version)

greet-connecting : (c : ChatClient) → (greet c).connecting ≡ c.connecting
unfolding greet
greet-connecting c = send-connecting (record c { connected = true }) (ClientMessage.hello version)

settle-completed :
    (c : ChatClient) (f : ConnectionFailure) (e : Bytes) → (settle c f e).completed ≡ c.completed
unfolding settle released
settle-completed c f e = elim (Bool-cases (is_no_failure f)) [
  | inl h ↦ rw h (greet-completed (released c f e))
  | inr h ↦ rw h refl
]

settle-connecting :
    (c : ChatClient) (f : ConnectionFailure) (e : Bytes) → (settle c f e).connecting ≡ false
unfolding settle released
settle-connecting c f e = elim (Bool-cases (is_no_failure f)) [
  | inl h ↦ rw h (greet-connecting (released c f e))
  | inr h ↦ rw h refl
]

finish_connect-owed :
    (c : ChatClient) (f : ConnectionFailure) (e : Bytes) → owed (finish_connect c f e) ≡ owed c
unfolding owed finish_connect
finish_connect-owed c f e = ground (
  arith,
  settle-completed c f e,
  settle-connecting c f e,
  length-append c.completed (is_no_failure f ∷ []),
)

-- A branch of a handler.
branch-owed :
    (b : Bool) (c x y : ChatClient)
    → owed x ≡ owed c
    → owed y ≡ owed c
    → owed (if b then x else y) ≡ owed c
branch-owed true c x y hx hy = hx
branch-owed false c x y hx hy = hy

module _ (c : ChatClient) where
  armed-owed : (phase : Bytes) → owed (arm_deadline c phase) ≡ owed c
  unfolding owed arm_deadline
  armed-owed phase = refl

  shown-owed : (message : Bytes) → owed (shown c message) ≡ owed c
  unfolding owed shown
  shown-owed message = refl

  cancel_connect-owed : owed (cancel_connect c) ≡ owed c
  unfolding cancel_connect
  cancel_connect-owed =
      branch-owed c.connecting c _ c
        (finish_connect-owed c ConnectionFailure.cancelled (text "Connection cancelled.")) refl

  resolved-owed : (attempt : ℕ) (error : Option Bytes) → owed (resolved c attempt error) ≡ owed c
  unfolding resolved
  resolved-owed attempt error = branch-owed (is_stale c attempt) c c _ refl (rest error)
    where
      rest :
          (error : Option Bytes)
          → owed (elim error [
            | some message ↦ finish_connect c ConnectionFailure.dns message
            | none ↦ arm_deadline c (text "Connecting TCP")
          ])
            ≡ owed c
      rest (some message) = finish_connect-owed c ConnectionFailure.dns message
      rest none = armed-owed (text "Connecting TCP")

  tcp_connected-owed :
      (attempt : ℕ) (error : Option (Bool × Bytes)) (name_error : Option Bytes)
      → owed (tcp_connected c attempt error name_error) ≡ owed c
  unfolding tcp_connected
  tcp_connected-owed attempt (some (is_refused, message)) name_error =
      branch-owed (is_stale c attempt) c c _ refl (
        finish_connect-owed c
          (if is_refused then ConnectionFailure.refused else ConnectionFailure.network) message)
  tcp_connected-owed attempt none (some message) = branch-owed (is_stale c attempt) c c _ refl (
      branch-owed (not c.tls_enabled) c _ _ (finish_connect-owed c ConnectionFailure.no_failure [])
        (finish_connect-owed (arm_deadline c (text "Negotiating TLS")) ConnectionFailure.tls message
          ∙ armed-owed (text "Negotiating TLS")))
  tcp_connected-owed attempt none none = branch-owed (is_stale c attempt) c c _ refl (
      branch-owed (not c.tls_enabled) c _ _ (finish_connect-owed c ConnectionFailure.no_failure [])
        (armed-owed (text "Negotiating TLS")))

  noticed-owed :
      (notice : Bytes)
      → owed (if not (is_empty notice) then shown c (text "[security] " ++ notice) else c) ≡ owed c
  noticed-owed notice =
      branch-owed (not (is_empty notice)) c _ c (shown-owed (text "[security] " ++ notice)) refl

  tls_done-owed :
      (attempt : ℕ) (error : Option Bytes) (verified : Bool) (notice why : Bytes)
      → owed (tls_done c attempt error verified notice why) ≡ owed c
  unfolding tls_done
  tls_done-owed attempt (some message) verified notice why =
      branch-owed (is_stale c attempt) c c _ refl
        (finish_connect-owed c ConnectionFailure.tls message)
  tls_done-owed attempt none verified notice why = branch-owed (is_stale c attempt) c c _ refl (
      branch-owed (not verified) c _ _ (finish_connect-owed c ConnectionFailure.tls why) (
        finish_connect-owed
          (if not (is_empty notice) then shown c (text "[security] " ++ notice) else c)
          ConnectionFailure.no_failure []
        ∙ noticed-owed notice))

  deadline_expired-owed :
      (attempt generation : ℕ) (error : Bool)
      → owed (deadline_expired c attempt generation error) ≡ owed c
  unfolding deadline_expired
  deadline_expired-owed attempt generation error =
      branch-owed (not (is_stale c attempt) && not error && generation == c.deadline_generation) c _
        c
        (finish_connect-owed c ConnectionFailure.timeout (c.connection_phase ++ text " timed out."))
        refl

handle-owed : (c : ChatClient) (e : Event) → owed (handle c e) ≡ owed c
unfolding handle
handle-owed c cancel = cancel_connect-owed c
handle-owed c (resolve attempt error) = resolved-owed c attempt error
handle-owed c (tcp attempt error name_error) = tcp_connected-owed c attempt error name_error
handle-owed c (tls attempt error verified notice why) =
    tls_done-owed c attempt error verified notice why
handle-owed c (deadline attempt generation error) = deadline_expired-owed c attempt generation error

handle_all-owed : (c : ChatClient) (es : List Event) → owed (handle_all c es) ≡ owed c
unfolding handle_all
handle_all-owed c [] = refl
handle_all-owed c (e ∷ es) = handle_all-owed (handle c e) es ∙ handle-owed c e

-- From the start of an attempt, for any results of the resolver, the socket and TLS, any timers and
-- cancellations, in any order and of any earlier attempts: the completion callback has been called
-- once if the client is no longer connecting, and not at all while it is.
pub async_connect-once :
    (c : ChatClient) (es : List Event)
    → let d = handle_all (async_connect c) es in
      length d.completed + (if d.connecting then 1 else 0) ≡ length c.completed + 1
unfolding owed async_connect arm_deadline
async_connect-once c es = handle_all-owed (async_connect c) es
