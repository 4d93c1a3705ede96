-- ===== src/Model.antt =====
-- orchestrator/internal/engine/model: the data of the engine.
pub mod Types
pub mod Controller
pub mod FailedPlans
pub mod Components
pub mod Mask
pub mod Chunks
pub mod WorldViews
pub mod Entities
pub mod Reality
pub mod TickContext
