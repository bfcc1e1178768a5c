-- ===== src/App/Client/Connect.antt =====
-- The attempt to connect in src/chat/chat_client.h: `async_connect`, `arm_deadline`,
-- `finish_connect` and `cancel_connect`. Each handler is a function; what the resolver, the socket and
-- the TLS library told it is an argument. A handler holds a weak pointer to its attempt's token: here
-- the attempt's number, which is expired when the client's token is reset or another one's.
-- The completion callback's calls are listed in `completed`.
pub mod Once
use chatbox.Common.{
  ℕ, ◌+◌, Bool, true, false, not, ◌&&◌, ◌||◌, Option, none, some, [], ◌∷◌, ◌++◌, ◌==◌,
  if◌then◌else◌, is_empty, Bytes, text,
}
use mathlib.Core.List.{◌++◌}
use chatbox.Protocol.Outcome.{version}
use chatbox.Protocol.Client.{ClientMessage}
use chatbox.App.Client.{ChatClient, ConnectionFailure, shown, send}

is_no_failure : ConnectionFailure → Bool
is_no_failure ConnectionFailure.no_failure = true
is_no_failure _ = false

-- Its timer is set anew; the one before is cancelled.
arm_deadline : ChatClient → Bytes → ChatClient
arm_deadline c phase = record c {
  connection_phase = phase;
  deadline_generation = c.deadline_generation + 1;
}

-- The attempt is over; its token is reset, its timer and its resolver are cancelled.
released : ChatClient → ConnectionFailure → Bytes → ChatClient
released c failure error = record c {
  connecting = false;
  attempt_lifetime = none;
  connection_failure = failure;
  connect_error = error;
}

-- The client is connected: it says hello and starts to read.
greet : ChatClient → ChatClient
unfolding send
greet c = record (send (record c { connected = true }) (ClientMessage.hello version)) {
  reading = true;
}

-- What comes before the call of the completion callback.
settle : ChatClient → ConnectionFailure → Bytes → ChatClient
unfolding is_no_failure released greet
settle c failure error =
    let ended = released c failure error in
    if not (is_no_failure failure) then record ended { stream_closed = true } else greet ended

finish_connect : ChatClient → ConnectionFailure → Bytes → ChatClient
unfolding settle
finish_connect c failure error =
    if not c.connecting
    then c
    else let settled = settle c failure error in
      record settled { completed = settled.completed ++ (is_no_failure failure ∷ []) }

pub async_connect : ChatClient → ChatClient
unfolding arm_deadline
async_connect c =
    arm_deadline
      (record c {
        attempt_lifetime = some c.attempts;
        attempts = c.attempts + 1;
        connect_error = [];
        connection_failure = ConnectionFailure.no_failure;
        connecting = true;
      })
      (text "Resolving address")

pub cancel_connect : ChatClient → ChatClient
unfolding finish_connect
cancel_connect c =
    if c.connecting
    then finish_connect c ConnectionFailure.cancelled (text "Connection cancelled.")
    else c

-- The guard of each handler: `lifetime.expired() || !connecting_`.
is_stale : ChatClient → ℕ → Bool
is_stale c attempt =
    not (elim c.attempt_lifetime [ none ↦ false | some current ↦ current == attempt ])
    || not c.connecting

-- The handler of `async_resolve`: no error, or its message.
pub resolved : ChatClient → ℕ → Option Bytes → ChatClient
unfolding is_stale finish_connect arm_deadline
resolved c attempt error = if is_stale c attempt then c else elim error [
  | some message ↦ finish_connect c ConnectionFailure.dns message
  | none ↦ arm_deadline c (text "Connecting TCP")
]

-- The handler of the TCP connect: an error is `connection_refused` or another one. If there is none,
-- `set_server_name` may throw an error with a message.
pub tcp_connected : ChatClient → ℕ → Option (Bool × Bytes) → Option Bytes → ChatClient
unfolding is_stale finish_connect arm_deadline
tcp_connected c attempt error name_error = if is_stale c attempt then c else elim error [
  | some (is_refused, message) ↦
      finish_connect c (if is_refused then ConnectionFailure.refused else ConnectionFailure.network)
        message
  | none ↦
      if not c.tls_enabled
      then finish_connect c ConnectionFailure.no_failure []
      else let armed = arm_deadline c (text "Negotiating TLS") in
        elim name_error [
          | some message ↦ finish_connect armed ConnectionFailure.tls message
          | none ↦ armed
        ]
]

-- The handler of the TLS handshake. `verify_peer` gives a notice, or refuses with an error.
pub tls_done : ChatClient → ℕ → Option Bytes → Bool → Bytes → Bytes → ChatClient
unfolding is_stale finish_connect shown
tls_done c attempt error is_verified notice verify_error =
    if is_stale c attempt then c else elim error [
      | some message ↦ finish_connect c ConnectionFailure.tls message
      | none ↦
          if not is_verified
          then finish_connect c ConnectionFailure.tls verify_error
          else finish_connect
              (if not (is_empty notice) then shown c (text "[security] " ++ notice) else c)
              ConnectionFailure.no_failure []
    ]

-- The handler of the timer, which was armed as the `generation`th one.
pub deadline_expired : ChatClient → ℕ → ℕ → Bool → ChatClient
unfolding is_stale finish_connect
deadline_expired c attempt generation has_error =
    if not (is_stale c attempt) && not has_error && generation == c.deadline_generation
    then finish_connect c ConnectionFailure.timeout (c.connection_phase ++ text " timed out.")
    else c
