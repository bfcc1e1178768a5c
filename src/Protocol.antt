-- ===== src/Protocol.antt =====
-- src/protocol: the wire protocol between client and server.
pub mod Outcome
pub mod Base64
pub mod Client
pub mod Codec
pub mod Decimal
pub mod Server
pub mod Fields
pub mod Rules
pub mod Frame
