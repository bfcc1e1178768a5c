-- ===== src/App/Client/Receive.antt =====
-- The handler of `read_loop` in src/chat/chat_client.h: what the client does with a line of the
-- server, and with a read that fails. The signing of a challenge (src/common/utils.cpp, by libsodium)
-- is a parameter. A handler runs when a read is pending; `read_loop` starts the next one.
pub mod Handshake
use chatbox.Common.{
  ℕ, true, false, not, ◌&&◌, Option, none, some, List, [], ◌∷◌, ◌++◌, map, ◌==◌, if◌then◌else◌,
  is_empty, Bytes, text,
}
use mathlib.Core.List.{◌++◌}
use chatbox.Protocol.Outcome.{ok, err, Error, version, unsupported_version}
use chatbox.Protocol.Decimal.{to_string}
use chatbox.Protocol.Server.{ServerMessage, RoomSummary}
use chatbox.Protocol.Client.{ClientMessage}
use chatbox.Protocol.Codec.{decode_server_frame}
use chatbox.App.State.{
  AppState, push_message, mark_kicked, update_room_users, update_room_list, update_room_topic,
  activate_room,
}
use chatbox.App.Client.{Result, ChatClient, ClientIdentity, shown, send, close}

read_loop : ChatClient → ChatClient
read_loop c = record c { reading = true }

-- The handler when the read fails.
pub read_failed : ChatClient → Bytes → ChatClient
unfolding shown
read_failed c message =
    let ended = record c {
      reading = false;
      disconnect_reason = message;
      connected = false;
      stream_closed = true;
    } in
    let resolved =
      if not c.closing && not c.auth_resolved
      then record ended {
        auth_ok = false;
        auth_resolved = true;
        join_failed = true;
        join_failure_reason = text "Connection closed during protocol handshake";
        join_resolved = true;
      }
      else ended in
    if not c.closing && not c.kicked && not c.banned && resolved.auth_ok
    then shown resolved (text "[system] disconnected")
    else resolved

-- The login has failed for this reason.
refused : ChatClient → Bytes → ChatClient
refused c reason = record c {
  auth_ok = false;
  auth_resolved = true;
  join_failed = true;
  join_failure_reason = reason;
  join_resolved = true;
}

invalid_frame : ChatClient → Error → Bytes → ChatClient
unfolding shown refused close read_loop
invalid_frame c e detail =
    let told = shown c (text "[system] Ignored invalid server frame: " ++ detail) in
    elim e [ unsupported_version ↦ close (refused told detail) | _ ↦ read_loop told ]

on_challenge : (ClientIdentity → Bytes → Bytes) → ChatClient → Bytes → ChatClient
unfolding send
on_challenge sign c challenge = elim c.identity [
  | some identity ↦ send c (ClientMessage.identity_proof (sign identity challenge))
  | none ↦ record c {
    join_failed = true;
    join_failure_reason = text "Identity challenge could not be answered";
    join_resolved = true;
  }
]

pub room_line : ℕ → RoomSummary → Bytes
room_line current room =
    text "[system]   "
    ++ (text (if room.id == current then "* " else "- ")
        ++ (room.name ++ (text " (" ++ (to_string room.user_count ++ text ")"))))

pub push_all : AppState → List Bytes → AppState
push_all app [] = app
push_all app (line ∷ lines) = push_all (push_message app line) lines

-- The list is shown if it was asked for; `exchange(false)` forgets the request.
on_rooms : ChatClient → List RoomSummary → ChatClient
unfolding room_line push_all
on_rooms c rooms =
    let app = update_room_list c.app rooms in
    if c.room_list_requested
    then record c {
      app =
          push_all app
            (text "[system] Available rooms:" ∷ map (room_line app.active_room_id) rooms);
      room_list_requested = false;
    }
    else record c { app = app }

on_topic : ChatClient → ℕ → Bytes → ChatClient
unfolding shown
on_topic c id topic =
    let updated = record c { app = update_room_topic c.app id topic } in
    if id == updated.app.active_room_id
    then shown updated
        (text "[system] Topic: " ++ (if is_empty topic then text "(none)" else topic))
    else updated

on_kick : ChatClient → Bytes → ChatClient
unfolding shown
on_kick c reason =
    let told =
      shown (record c { kicked = true; kick_reason = reason })
        (text "[system] You have been kicked"
          ++ (if is_empty reason then [] else text ": " ++ reason)) in
    record told { app = mark_kicked told.app }

-- A message that is no `Hello`, after the handshake.
on_signal : (ClientIdentity → Bytes → Bytes) → ChatClient → ServerMessage → ChatClient
unfolding on_challenge on_rooms on_topic on_kick shown
on_signal sign c (ServerMessage.hello v) = c
on_signal sign c ServerMessage.auth_required = record c { auth_required = true }
on_signal sign c ServerMessage.auth_accepted = record c { auth_ok = true; auth_resolved = true }
on_signal sign c ServerMessage.auth_rejected =
    shown (record c { auth_ok = false; auth_resolved = true })
      (text "[system] Wrong password - disconnected")
on_signal sign c ServerMessage.join_accepted = record c { join_resolved = true }
on_signal sign c (ServerMessage.challenge hex) = on_challenge sign c hex
on_signal sign c (ServerMessage.identity_accepted fingerprint) =
    shown c (text "[system] Identity verified: " ++ fingerprint)
on_signal sign c ServerMessage.banned =
    shown (record c { banned = true; join_resolved = true })
      (text "[system] You are banned from this server")
on_signal sign c ServerMessage.nickname_taken =
    shown (record c { nickname_taken = true; join_resolved = true })
      (text "[system] Nickname is already in use")
on_signal sign c (ServerMessage.join_rejected reason) =
    shown (record c { join_failed = true; join_failure_reason = reason; join_resolved = true })
      (text "[system] Join failed: " ++ reason)
on_signal sign c (ServerMessage.kick nickname reason) = on_kick c reason
on_signal sign c (ServerMessage.user_list id names) = record c {
  app = update_room_users c.app id names;
}
on_signal sign c (ServerMessage.room_list rooms) = on_rooms c rooms
on_signal sign c (ServerMessage.room_joined id name topic) =
    shown (record c { app = activate_room c.app id name topic })
      (text "[system] Entered #" ++ (name ++ (if is_empty topic then [] else text " - " ++ topic)))
on_signal sign c (ServerMessage.room_topic id topic) = on_topic c id topic
on_signal sign c (ServerMessage.room_text id body) =
    if id == c.app.active_room_id then shown c body else c
on_signal sign c (ServerMessage.plain_text body) = shown c body
on_signal sign c (ServerMessage.server_error reason) = shown c (text "[system] " ++ reason)

-- Whether a message is the server's `Hello`, with its version.
hello_version : ServerMessage → Option ℕ
hello_version (ServerMessage.hello v) = some v
hello_version _ = none

handshake_missing : ChatClient → ChatClient
unfolding refused shown close
handshake_missing c =
    let reason = text "Server did not complete the protocol handshake" in
    close (shown (refused c reason) (text "[system] " ++ reason))

-- The branches of the handler, by the version that a `Hello` carries.
dispatch : (ClientIdentity → Bytes → Bytes) → ChatClient → ServerMessage → Option ℕ → ChatClient
unfolding on_signal handshake_missing read_loop
dispatch sign c message (some v) = read_loop (record c { protocol_negotiated = v == version })
dispatch sign c message none =
    if not c.protocol_negotiated then handshake_missing c else read_loop (on_signal sign c message)

received : (ClientIdentity → Bytes → Bytes) → ChatClient → Result ServerMessage → ChatClient
unfolding dispatch hello_version invalid_frame
received sign c (err e detail) = invalid_frame c e detail
received sign c (ok message) = dispatch sign c message (hello_version message)

-- The handler when a line has come.
pub on_line : (ClientIdentity → Bytes → Bytes) → ChatClient → Bytes → ChatClient
unfolding received
on_line sign c line = received sign (record c { reading = false }) (decode_server_frame line)
