-- ===== src/Scheduler/Compiler.antt =====
-- Compile of orchestrator/internal/engine/scheduler/compiler.go, and the plan of plan.go: the waves of
-- the phases in order, with a sync before each wave that queries a dirty archetype.
use minecraft_orchestrator.Base.{ℕ, ◌+◌, Bool, if◌then◌else◌, List, [], ◌∷◌, ◌++◌, length, ltb}
use minecraft_orchestrator.Model.Mask.{Mask, contains}
use minecraft_orchestrator.Core.World.{is_dirty}
use minecraft_orchestrator.Scheduler.Access.{PhaseId, System}
use minecraft_orchestrator.Scheduler.Builder.{SystemDef, PhaseDef, Builder, Result, ok}
use minecraft_orchestrator.Scheduler.Phases.{sort_phase, or_stop}
use minecraft_orchestrator.Scheduler.Waves.{compile_phase}

pub record CompiledSystem : Type 0 where
  pub system : System
  pub order : ℕ

-- The two reasons of the source, with the masks that they print.
pub data Reason : Type 0 where
  next_wave_queries end_of_frame : List Mask → Reason

pub data PlanNode : Type 0 where
  sync_node : PhaseId → Reason → PlanNode
  wave_node : PhaseId → ℕ → List CompiledSystem → List Mask → PlanNode

abbrev pub node_phase : PlanNode → PhaseId
node_phase (sync_node phase reason) = phase
node_phase (wave_node phase index systems dirty_after) = phase

unfoldable pub append_unique_mask : List Mask → Mask → List Mask
append_unique_mask masks candidate =
    if is_dirty masks candidate then masks else masks ++ candidate ∷ []

-- The dirty masks that contain a query, added to those matched so far.
unfoldable pub match_query : List Mask → Mask → List Mask → List Mask
match_query [] query matched = matched
match_query (m ∷ dirty) query matched =
    match_query dirty query (if contains m query then append_unique_mask matched m else matched)

unfoldable pub match_queries : List Mask → List Mask → List Mask → List Mask
match_queries dirty [] matched = matched
match_queries dirty (q ∷ qs) matched = match_queries dirty qs (match_query dirty q matched)

-- waveTouchesDirty, with the matched masks; the flag is that there are some.
unfoldable pub match_wave : List SystemDef → List Mask → List Mask → List Mask
match_wave [] dirty matched = matched
match_wave (d ∷ wave) dirty matched =
    match_wave wave dirty (match_queries dirty d.system.access.queries matched)

unfoldable pub wave_touches_dirty : List SystemDef → List Mask → Bool × List Mask
wave_touches_dirty wave dirty =
    let matched = match_wave wave dirty [] in (ltb 0 (length matched), matched)

pub record CompileState : Type 0 where
  pub nodes : List PlanNode
  pub dirty : List Mask
  pub next_order : ℕ

unfoldable pub number : ℕ → List SystemDef → List CompiledSystem
number order [] = []
number order (d ∷ wave) = record { system = d.system; order = order } ∷ number (order + 1) wave

unfoldable pub append_unique_masks : List Mask → List Mask → List Mask
append_unique_masks masks [] = masks
append_unique_masks masks (m ∷ ms) = append_unique_masks (append_unique_mask masks m) ms

-- The structural masks of a wave, added to those of the plan or of the wave.
unfoldable pub wave_dirty : List SystemDef → List Mask → List Mask
wave_dirty [] masks = masks
wave_dirty (d ∷ wave) masks = wave_dirty wave (append_unique_masks masks d.system.access.structural)

unfoldable pub sync_before : PhaseId → List SystemDef → CompileState → CompileState
sync_before phase wave s =
    let (touched, masks) = wave_touches_dirty wave s.dirty in
    if touched
    then record s { nodes = s.nodes ++ sync_node phase (next_wave_queries masks) ∷ []; dirty = [] }
    else s

unfoldable pub add_wave : PhaseId → ℕ → List SystemDef → CompileState → CompileState
add_wave phase index wave s = record {
  nodes = s.nodes ++ wave_node phase index (number s.next_order wave) (wave_dirty wave []) ∷ [];
  dirty = wave_dirty wave s.dirty;
  next_order = s.next_order + length wave;
}

unfoldable pub compile_waves : PhaseId → ℕ → List (List SystemDef) → CompileState → CompileState
compile_waves phase index [] s = s
compile_waves phase index (wave ∷ rest) s =
    compile_waves phase (index + 1) rest (add_wave phase index wave (sync_before phase wave s))

unfoldable pub compile_phases : List PhaseDef → CompileState → Result CompileState
compile_phases [] s = ok s
compile_phases (p ∷ ps) s =
    or_stop (compile_phase p) (λ waves. compile_phases ps (compile_waves p.id 0 waves s))

-- The phase of the last node, or "finalize" where there is none.
unfoldable pub last_phase : List PlanNode → PhaseId
last_phase [] = "finalize"
last_phase (n ∷ []) = node_phase n
last_phase (n ∷ m ∷ ns) = last_phase (m ∷ ns)

abbrev pub close_frame : CompileState → List PlanNode
close_frame s = elim s.dirty [
  | [] ↦ s.nodes
  | m ∷ ms ↦ s.nodes ++ sync_node (last_phase s.nodes) (end_of_frame (m ∷ ms)) ∷ []
]

abbrev pub empty_plan : CompileState
empty_plan = record { nodes = []; dirty = []; next_order = 0 }

abbrev pub finish : CompileState → Result (List PlanNode)
finish s = ok (close_frame s)

abbrev pub compile_sorted : List PhaseDef → Result (List PlanNode)
compile_sorted phases = or_stop (compile_phases phases empty_plan) finish

unfoldable pub compile : Builder → Result (List PlanNode)
compile b = or_stop (sort_phase b.phases) compile_sorted
