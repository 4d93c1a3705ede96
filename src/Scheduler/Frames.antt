-- ===== src/Scheduler/Frames.antt =====
-- Why a compiled plan meets no dirty archetype and leaves no command behind: compiler.go against
-- executor.go.
pub mod Dirty
pub mod Plan
pub mod Run
