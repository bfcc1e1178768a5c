-- ===== src/Chat.antt =====
-- src/chat: rooms, sessions, and the server that moves sessions between rooms.
pub mod State
pub mod Rooms
pub mod Delivery
pub mod Movement
pub mod Invariant
pub mod Admin
pub mod Quota
pub mod Session
pub mod Startup
pub mod Run
