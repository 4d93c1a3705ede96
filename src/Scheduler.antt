-- ===== src/Scheduler.antt =====
-- orchestrator/internal/engine/scheduler: systems in phases, compiled into waves and executed.
pub mod Access
pub mod Degrees
pub mod Builder
pub mod Phases
pub mod Waves
pub mod Compiler
pub mod Executor
pub mod Frames
