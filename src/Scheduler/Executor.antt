-- ===== src/Scheduler/Executor.antt =====
-- orchestrator/internal/engine/scheduler/executor.go: a frame runs the nodes of a plan on the world.
-- The systems of a wave run one after another; in the source they run at once, and what they may
-- change is kept apart by the compiler.
use minecraft_orchestrator.Base.{
  ℕ, Bool, not, ◌&&◌, ◌==◌, ltb, if◌then◌else◌, Option, none, some, List, [], ◌∷◌, ◌++◌,
}
use minecraft_orchestrator.Model.Mask.{Mask}
use minecraft_orchestrator.Core.Outcome
use minecraft_orchestrator.Core.World.{
  World, Envelop, query_touches_dirty, is_dirty, stage, pending_commands,
}
use minecraft_orchestrator.Core.Command.{
  CommandBuffer, new_command_buffer, buffer_len, envelopes, declared_affected, sort_envelops, sync,
}
use minecraft_orchestrator.Scheduler.Access.{SystemId, has_structural_effects}
use minecraft_orchestrator.Scheduler.Compiler.{CompiledSystem, PlanNode, sync_node, wave_node}

pub data FrameError : Type 0 where
  sync_failed : Outcome.Error → FrameError
  sync_panicked : FrameError
  plan_mismatch : SystemId → Mask → Mask → FrameError
  system_failed undeclared_commands : SystemId → FrameError
  undeclared_archetype : SystemId → Mask → FrameError
  pending : ℕ → FrameError

-- `none` is success.
abbrev pub FrameResult : Type 0
FrameResult = World × Option FrameError

pub record SystemResult : Type 0 where
  pub compiled : CompiledSystem
  pub buffer : CommandBuffer
  pub failed : Bool

unfoldable pub run_systems : List CompiledSystem → World → World × List SystemResult
run_systems [] w = (w, [])
run_systems (c ∷ cs) w =
    let (w1, buffer, failed) = c.system.run w (new_command_buffer c.order) in
    let (w2, results) = run_systems cs w1 in
    (w2, record { compiled = c; buffer = buffer; failed = failed } ∷ results)

unfoldable pub undeclared_in : List Mask → List Mask → Option Mask
undeclared_in declared [] = none
undeclared_in declared (m ∷ ms) = if is_dirty declared m then undeclared_in declared ms else some m

-- validateCommandEffects: the first archetype that a command affects and its system did not declare.
unfoldable pub validate_command_effects : List Mask → List Envelop → Option Mask
validate_command_effects declared [] = none
validate_command_effects declared (e ∷ es) =
    elim (undeclared_in declared (declared_affected e.command)) [
      | some m ↦ some m
      | none ↦ validate_command_effects declared es
    ]

abbrev pub check_result : SystemResult → Option FrameError
check_result r =
    let system = r.compiled.system in
    if r.failed
    then some (system_failed system.id)
    else if ltb 0 (buffer_len r.buffer) && not (has_structural_effects system.access)
    then some (undeclared_commands system.id)
    else elim (validate_command_effects system.access.structural (envelopes r.buffer)) [
      | some m ↦ some (undeclared_archetype system.id m)
      | none ↦ none
    ]

unfoldable pub check_results : List SystemResult → Option FrameError
check_results [] = none
check_results (r ∷ rs) = elim (check_result r) [ some e ↦ some e | none ↦ check_results rs ]

unfoldable pub all_envelopes : List SystemResult → List Envelop
all_envelopes [] = []
all_envelopes (r ∷ rs) = envelopes r.buffer ++ all_envelopes rs

-- What follows the run of the systems of a wave.
abbrev pub finish_wave : List Mask → World × List SystemResult → FrameResult
finish_wave dirty_after (w, results) = elim (check_results results) [
  | some e ↦ (w, some e)
  | none ↦ (stage (sort_envelops (all_envelopes results)) dirty_after w, none)
]

unfoldable pub run_wave : List CompiledSystem → List Mask → World → FrameResult
run_wave systems dirty_after w = finish_wave dirty_after (run_systems systems w)

-- The check before a wave that no query of its systems meets a dirty archetype.
unfoldable pub check_queries : SystemId → List Mask → List Mask → Option FrameError
check_queries id [] dirty = none
check_queries id (q ∷ qs) dirty = elim (query_touches_dirty dirty q) [
  | some m ↦ some (plan_mismatch id q m)
  | none ↦ check_queries id qs dirty
]

unfoldable pub check_wave : List CompiledSystem → List Mask → Option FrameError
check_wave [] dirty = none
check_wave (c ∷ cs) dirty = elim (check_queries c.system.id c.system.access.queries dirty) [
  | some e ↦ some e
  | none ↦ check_wave cs dirty
]

abbrev pub sync_result : World × Outcome.Result (Unit {0}) → FrameResult
sync_result (w, Outcome.ok u) = (w, none)
sync_result (w, Outcome.err e) = (w, some (sync_failed e))
sync_result (w, Outcome.panic) = (w, some sync_panicked)

unfoldable pub run_node : PlanNode → World → FrameResult
run_node (sync_node phase reason) w = sync_result (sync w)
run_node (wave_node phase index systems dirty_after) w = elim (check_wave systems w.dirty) [
  | some e ↦ (w, some e)
  | none ↦ run_wave systems dirty_after w
]

abbrev pub then_run : FrameResult → (World → FrameResult) → FrameResult
then_run (w, none) k = k w
then_run (w, some e) k = (w, some e)

abbrev pub check_pending : World → FrameResult
check_pending w =
    if not (pending_commands w == 0) then (w, some (pending (pending_commands w))) else (w, none)

unfoldable pub run_frame : List PlanNode → World → FrameResult
run_frame [] w = check_pending w
run_frame (n ∷ ns) w = then_run (run_node n w) (λ v. run_frame ns v)
