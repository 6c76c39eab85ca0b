-- ===== src/Dtls13.antt =====
-- src/dtls13: the DTLS 1.3 protocol.
pub mod Message
pub mod Record
pub mod Reconstruct
pub mod Handshake
pub mod Engine
pub mod Incoming
pub mod Search
pub mod Queue
pub mod Client
pub mod Server
pub mod Peer
