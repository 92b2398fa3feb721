-- ===== src/Packets.antt =====
-- runtime/src/packets/failure.ts: the failure taxonomy and the failure packet.
pub mod Types
pub mod Failure
