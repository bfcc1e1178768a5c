-- ===== src/Network.antt =====
-- What the program does over the network beside the chat itself: src/network.
pub mod Trust
pub mod Fields
pub mod Directory
pub mod Invite
