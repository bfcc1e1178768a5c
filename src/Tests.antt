-- ===== src/Tests.antt =====
-- Runs of the theorems at concrete inputs.
mod Wire
mod Rooms
mod Sessions
mod Client
mod Terminal
mod Network
