-- ===== src/Chat/Run.antt =====
-- Everything that happens to a `ChatServer` after its start, in any order: lines of sessions, read
-- errors and new connections (src/chat/client_session.cpp), and the calls of the interactive host
-- (src/app/commands.cpp) and of the operator's console (src/app/dedicated_server.cpp).
use chatbox.Chat.Movement.Creation.{create_admin_room-Inv}
use chatbox.Chat.Admin.Invariant.{kick_user_in_named_room-Inv, ban_user-Inv, kick_user-Inv}
use chatbox.Chat.Delivery.Unmoved.{broadcast_server-Still, send_private-Still, broadcast-Still}
use chatbox.Chat.Movement.Local.{
  leave_local_room-Still, join_local_room-Still, create_local_room-Inv,
}
use chatbox.Chat.Admin.Unmoved.{
  set_admin_topic-Still, unban_user-Still, set_local_topic-Still, start_local_user-Still,
  register_local_identity-Still,
}
use chatbox.Chat.Session.Invariant.{start-Inv, read_failed-Inv, handle_line-Inv}
use chatbox.Common.{◌<◌, ◌+◌, Bool, Bytes, ℕ}
use chatbox.Protocol.Server.{u64_bound}
use chatbox.Chat.State.{Server}
use chatbox.Chat.Invariant.{Inv, Still-Inv}
use chatbox.Chat.Delivery.{broadcast_server, broadcast, send_private}
use chatbox.Chat.Movement.{create_admin_room, create_local_room, join_local_room, leave_local_room}
use chatbox.Chat.Admin.{
  set_admin_topic, set_local_topic, kick_user_in_named_room, kick_user, ban_user, unban_user,
  register_local_identity, start_local_user,
}
use chatbox.Chat.Session.{Moment, handle_line, read_failed, start}

-- One call that changes the server. A room is made only while the counter of rooms does not wrap.
pub data Step (verify : Bytes → Bytes → Bytes → Bool) : Server → Server → Type 0 where
  line :
      {s : Server} (sid : ℕ) (m : Moment) (text : Bytes)
      → s.next_room_id + 1 < u64_bound
      → Step verify s (handle_line verify s sid m text).0
  lost : {s : Server} (sid : ℕ) → Step verify s (read_failed s sid)
  connected : {s : Server} (sid : ℕ) → Step verify s (start s sid)
  host_identity :
      {s : Server} (nick key : Bytes) → Step verify s (register_local_identity s nick key).0
  host_start : {s : Server} → Step verify s (start_local_user s)
  host_create :
      {s : Server} (name : Bytes)
      → s.next_room_id + 1 < u64_bound
      → Step verify s (create_local_room s name).0
  host_join : {s : Server} (name : Bytes) → Step verify s (join_local_room s name).0
  host_leave : {s : Server} → Step verify s (leave_local_room s).0
  host_topic : {s : Server} (topic : Bytes) → Step verify s (set_local_topic s topic).0
  host_says : {s : Server} (msg : Bytes) → Step verify s (broadcast s msg)
  host_whispers :
      {s : Server} (clock sender target message : Bytes) (mirror : Bool)
      → Step verify s (send_private s clock sender target message mirror).0
  host_kicks : {s : Server} (nick reason : Bytes) → Step verify s (kick_user s nick reason).0
  bans : {s : Server} (nick reason : Bytes) → Step verify s (ban_user s nick reason)
  unbans : {s : Server} (nick : Bytes) → Step verify s (unban_user s nick).0
  admin_create :
      {s : Server} (name : Bytes)
      → s.next_room_id + 1 < u64_bound
      → Step verify s (create_admin_room s name).0
  admin_topic : {s : Server} (name topic : Bytes) → Step verify s (set_admin_topic s name topic).0
  admin_kicks :
      {s : Server} (name nick reason : Bytes)
      → Step verify s (kick_user_in_named_room s name nick reason).0
  admin_says : {s : Server} (msg : Bytes) → Step verify s (broadcast_server s msg)

pub data Reach (verify : Bytes → Bytes → Bytes → Bool) (s : Server) : Server → Type 0 where
  here : Reach verify s s
  next : {t u : Server} → Reach verify s t → Step verify t u → Reach verify s u

Step-Inv : (verify : Bytes → Bytes → Bytes → Bool) (s t : Server) → Step verify s t → Inv s → Inv t
Step-Inv verify s t (line sid m text h) v = handle_line-Inv verify s sid m h v text
Step-Inv verify s t (lost sid) v = read_failed-Inv s sid v
Step-Inv verify s t (connected sid) v = start-Inv s sid v
Step-Inv verify s t (host_identity nick key) v =
    Still-Inv s _ (register_local_identity-Still s nick key) v
Step-Inv verify s t host_start v = Still-Inv s _ (start_local_user-Still s) v
Step-Inv verify s t (host_create name h) v = create_local_room-Inv s name h v
Step-Inv verify s t (host_join name) v = Still-Inv s _ (join_local_room-Still s name) v
Step-Inv verify s t host_leave v = Still-Inv s _ (leave_local_room-Still s) v
Step-Inv verify s t (host_topic topic) v = Still-Inv s _ (set_local_topic-Still s topic) v
Step-Inv verify s t (host_says msg) v = Still-Inv s _ (broadcast-Still s msg) v
Step-Inv verify s t (host_whispers clock sender target message mirror) v =
    Still-Inv s _ (send_private-Still s clock sender target message mirror) v
Step-Inv verify s t (host_kicks nick reason) v = kick_user-Inv s nick reason v
Step-Inv verify s t (bans nick reason) v = ban_user-Inv s nick reason v
Step-Inv verify s t (unbans nick) v = Still-Inv s _ (unban_user-Still s nick) v
Step-Inv verify s t (admin_create name h) v = create_admin_room-Inv s h v name
Step-Inv verify s t (admin_topic name topic) v =
    Still-Inv s _ (set_admin_topic-Still s name topic) v
Step-Inv verify s t (admin_kicks name nick reason) v =
    kick_user_in_named_room-Inv s name nick reason v
Step-Inv verify s t (admin_says msg) v = Still-Inv s _ (broadcast_server-Still s msg) v

-- From a server whose invariant holds, no sequence of lines, connections, read errors, and calls of
-- the host and of the operator leads to one where it does not: each session is a member of the room
-- that it says and of no other, the lobby is there, no two rooms have one name in whatever case, and
-- the numbers from the counter on are free.
pub Reach-Inv :
    (verify : Bytes → Bytes → Bytes → Bool) (s t : Server) → Inv s → Reach verify s t → Inv t
Reach-Inv verify s t v here = v
Reach-Inv verify s t v (next {t = u} r step) = Step-Inv verify u t step (Reach-Inv verify s u v r)
