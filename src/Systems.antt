-- ===== src/Systems.antt =====
-- orchestrator/internal/engine/system/systems.go: how NetworkApplySystem applies the observations of
-- the host. What is only logged is left out.
pub mod Observations
pub mod Feedback
pub mod Terrain
pub mod Apply
