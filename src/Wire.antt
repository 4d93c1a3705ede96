-- ===== src/Wire.antt =====
-- orchestrator/internal/mc_protocol/wire: the frames of Minecraft packets.
pub mod VarInt
pub mod Packet
pub mod Payload
