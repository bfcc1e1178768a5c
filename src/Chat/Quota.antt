-- ===== src/Chat/Quota.antt =====
-- `ClientSession::consume_message_quota` of src/chat/client_session.cpp. Times are ticks of the steady
-- clock, in nanoseconds.
pub mod Window
use chatbox.Common.{
  ℕ, ◌+◌, Bool, true, false, List, [], ◌∷◌, ◌++◌, ltb, leb, ◌==◌, if◌then◌else◌, length,
}
use chatbox.Chat.State.{Session}

abbrev pub rate_limit_messages : ℕ
rate_limit_messages = 20

abbrev pub rate_limit_window : ℕ
rate_limit_window = 60000000000

-- The entries in front that are out of the window.
pub drop_old : ℕ → List ℕ → List ℕ
drop_old now [] = []
drop_old now (t ∷ ts) =
    let rest = drop_old now ts in if ltb (t + rate_limit_window) now then rest else t ∷ ts

-- The new queue, and whether the message may pass.
unfoldable pub consume : ℕ → List ℕ → List ℕ × Bool
unfolding drop_old
consume now recent =
    let kept = drop_old now recent in
    if leb rate_limit_messages (length kept) then (kept, false) else (kept ++ now ∷ [], true)

-- The queue is that of the session's active room.
pub consume_message_quota : ℕ → Session → Session × Bool
unfolding consume
consume_message_quota now c =
    let (queue, granted) = consume now (c.recent_by_room c.active_room_id) in
    (
      record c {
        recent_by_room = λ id. if id == c.active_room_id then queue else c.recent_by_room id;
      },
      granted,
    )
