-- ===== src/App/Client/Receive/Handshake.antt =====
-- What the client takes from a server before and after the handshake.
use chatbox.Common.{
  ℕ, ◌≡◌, refl, sym, subst, ◌⊎◌, inl, inr, Bool, true, false, not, Option, none, some, List, [],
  ◌∷◌, ◌++◌, if◌then◌else◌, Bool-cases, Bytes,
}
use mathlib.Core.List.{◌++◌}
use chatbox.Protocol.Outcome.{Result, ok, err, Error, unsupported_version}
use chatbox.Protocol.Server.{ServerMessage}
use chatbox.Protocol.Codec.{decode_server_frame}
use chatbox.App.State.{push_message}
use chatbox.App.Client.{ChatClient, ClientIdentity, Task, shut, shown, close}
use chatbox.App.Client.Receive.{
  received, dispatch, on_signal, on_line, on_signal, invalid_frame, hello_version, read_loop,
  refused, handshake_missing,
}

-- What a server must not change before it has said which protocol it speaks.
pub record Untouched (c d : ChatClient) : Type 0 where
  pub users : d.app.users ≡ c.app.users
  pub rooms : d.app.rooms ≡ c.app.rooms
  pub active_room_id : d.app.active_room_id ≡ c.app.active_room_id
  pub active_room_name : d.app.active_room_name ≡ c.app.active_room_name
  pub active_room_topic : d.app.active_room_topic ≡ c.app.active_room_topic
  pub auth_ok : d.auth_ok ≡ true → c.auth_ok ≡ true
  pub auth_required : d.auth_required ≡ c.auth_required
  pub flags : (d.kicked ≡ c.kicked) × (d.banned ≡ c.banned) × (d.nickname_taken ≡ c.nickname_taken)
  pub posted : (d.posted ≡ c.posted) ⊎ (d.posted ≡ c.posted ++ (shut ∷ []))

module _ (c : ChatClient) where
  told-Untouched : (message : Bytes) → Untouched c (read_loop (shown c message))
  unfolding read_loop shown push_message
  told-Untouched message = record {
    users = refl;
    rooms = refl;
    active_room_id = refl;
    active_room_name = refl;
    active_room_topic = refl;
    auth_ok = λ e. e;
    auth_required = refl;
    flags = (refl, refl, refl);
    posted = inl refl;
  }

  refused-Untouched :
      (message reason : Bytes) → Untouched c (close (refused (shown c message) reason))
  unfolding close refused shown push_message
  refused-Untouched message reason = record {
    users = refl;
    rooms = refl;
    active_room_id = refl;
    active_room_name = refl;
    active_room_topic = refl;
    auth_ok = λ e. cc e;
    auth_required = refl;
    flags = (refl, refl, refl);
    posted = inr refl;
  }

  invalid_frame-Untouched : (e : Error) (detail : Bytes) → Untouched c (invalid_frame c e detail)
  unfolding invalid_frame
  invalid_frame-Untouched unsupported_version detail = refused-Untouched _ detail
  invalid_frame-Untouched _ detail = told-Untouched _

  handshake_missing-Untouched : Untouched c (handshake_missing c)
  unfolding handshake_missing refused shown push_message close
  handshake_missing-Untouched = refused-Untouched _ _

  dispatch-Untouched :
      (sign : ClientIdentity → Bytes → Bytes) (message : ServerMessage) (version : Option ℕ)
      → c.protocol_negotiated ≡ false
      → Untouched c (dispatch sign c message version)
  unfolding dispatch read_loop
  dispatch-Untouched sign message (some v) h = record {
    users = refl;
    rooms = refl;
    active_room_id = refl;
    active_room_name = refl;
    active_room_topic = refl;
    auth_ok = λ e. e;
    auth_required = refl;
    flags = (refl, refl, refl);
    posted = inl refl;
  }
  dispatch-Untouched sign message none h =
      subst
        (λ b.
          Untouched c (if not b then handshake_missing c else read_loop (on_signal sign c message)))
        (sym h) handshake_missing-Untouched

  received-Untouched :
      (sign : ClientIdentity → Bytes → Bytes) (r : Result ServerMessage)
      → c.protocol_negotiated ≡ false
      → Untouched c (received sign c r)
  unfolding received
  received-Untouched sign (err e detail) h = invalid_frame-Untouched e detail
  received-Untouched sign (ok message) h = dispatch-Untouched sign message (hello_version message) h

-- Until the handshake is complete, no line of the server changes who is in the room, the rooms or the
-- room shown, marks the client as authenticated, kicked, banned or named twice, or makes it send
-- anything: the only task that it posts is the one that closes the connection.
pub on_line-Untouched :
    (sign : ClientIdentity → Bytes → Bytes) (c : ChatClient) (line : Bytes)
    → c.protocol_negotiated ≡ false
    → Untouched c (on_line sign c line)
unfolding on_line
on_line-Untouched sign c line h =
    let u = received-Untouched (record c { reading = false }) sign (decode_server_frame line) h in
    record {
      users = u.users;
      rooms = u.rooms;
      active_room_id = u.active_room_id;
      active_room_name = u.active_room_name;
      active_room_topic = u.active_room_topic;
      auth_ok = u.auth_ok;
      auth_required = u.auth_required;
      flags = u.flags;
      posted = u.posted;
    }

-- Either the next read is pending, or the login is over and failed, and the task that closes the
-- stream is posted.
abbrev pub Goes : ChatClient → Type 0
Goes d =
    (d.reading ≡ true)
    ⊎ ((d.closing ≡ true)
        × (d.auth_resolved ≡ true)
        × (d.auth_ok ≡ false)
        × (d.join_resolved ≡ true)
        × (d.join_failed ≡ true)
        × ((tasks : List Task) × (d.posted ≡ tasks ++ (shut ∷ []))))

invalid_frame-Goes : (c : ChatClient) (e : Error) (detail : Bytes) → Goes (invalid_frame c e detail)
unfolding invalid_frame close refused shown push_message read_loop
invalid_frame-Goes c unsupported_version detail =
    inr (refl, refl, refl, refl, refl, (c.posted, refl))
invalid_frame-Goes c _ detail = inl refl

dispatch-Goes :
    (sign : ClientIdentity → Bytes → Bytes) (c : ChatClient) (message : ServerMessage)
    (version : Option ℕ)
    → Goes (dispatch sign c message version)
unfolding dispatch read_loop handshake_missing close refused shown push_message
dispatch-Goes sign c message (some v) = inl refl
dispatch-Goes sign c message none = elim (Bool-cases c.protocol_negotiated) [
  | inl e ↦ subst goal (sym e) (inl refl)
  | inr e ↦ subst goal (sym e) (inr (refl, refl, refl, refl, refl, (c.posted, refl)))
]
  where
    goal : Bool → Type 0
    goal b = Goes (if not b then handshake_missing c else read_loop (on_signal sign c message))

received-Goes :
    (sign : ClientIdentity → Bytes → Bytes) (c : ChatClient) (r : Result ServerMessage)
    → Goes (received sign c r)
unfolding received
received-Goes sign c (err e detail) = invalid_frame-Goes c e detail
received-Goes sign c (ok message) = dispatch-Goes sign c message (hello_version message)

-- The client never stops listening in silence: after any line, the next read is pending, or the
-- login is resolved as a failure and the stream's closing is posted.
pub on_line-Goes :
    (sign : ClientIdentity → Bytes → Bytes) (c : ChatClient) (line : Bytes)
    → Goes (on_line sign c line)
unfolding on_line
on_line-Goes sign c line =
    received-Goes sign (record c { reading = false }) (decode_server_frame line)
