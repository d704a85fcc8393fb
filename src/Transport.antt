-- ===== src/Transport.antt =====
-- transport/peer: how two nodes greet each other.
pub mod Handshake
