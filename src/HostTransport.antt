-- ===== src/HostTransport.antt =====
-- orchestrator/internal/hosttransport: the bounded framing of the socket to the bot host.
pub mod Frame
pub mod Messages
pub mod Observation
