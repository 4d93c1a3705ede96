-- ===== src/Core.antt =====
-- orchestrator/internal/engine/core: entities in tables of columns, and deferred commands.
pub mod Outcome
pub mod Table
pub mod World
pub mod Command
