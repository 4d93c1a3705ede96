-- ===== src/Examples/Runs.antt =====
-- Plans and frames of the scheduler at concrete inputs.
use minecraft_orchestrator.Base.{ℕ, false, List, [], ◌∷◌, ◌≡◌, ◌≢◌, refl, arith, All}
use minecraft_orchestrator.Model.Mask.{contains}
use minecraft_orchestrator.Model.Components.{nil}
use minecraft_orchestrator.Core.Table.{Bundle}
use minecraft_orchestrator.Core.World.{new_world, create_command, is_dirty}
use minecraft_orchestrator.Core.Command.{stage_command}
use minecraft_orchestrator.Model.Mask.{intersects}
use minecraft_orchestrator.Scheduler.Access.{System, any_observed, systems_conflict}
use minecraft_orchestrator.Scheduler.Degrees.{
  pos, degree, set_degree, delete, decrement_all, contains_id, zero_keys,
}
use minecraft_orchestrator.Scheduler.Builder.{PhaseDef, SystemDef, Builder, ok, find_phase}
use minecraft_orchestrator.Scheduler.Phases.{
  zero_degrees, phase_edges, all_edges, insert_phase, sort_phases, found_phases, release,
  take_phases, sort_phase,
}
use minecraft_orchestrator.Scheduler.Waves.{
  local, zero_systems, add_edge, edges_from, edges_to, system_edges, insert_system, sort_systems,
  found_systems, compatible_with, select_wave, retire, wave_loop, compile_phase, out_of_fuel,
}
use minecraft_orchestrator.Scheduler.Waves.Conflicts.{
  ConflictFree, systems_conflict_comm, wave_loop_fuel, compile_phase-ConflictFree,
}
use minecraft_orchestrator.Scheduler.Compiler.{
  PlanNode, sync_node, wave_node, next_wave_queries, append_unique_mask, append_unique_masks,
  match_query, match_queries, match_wave, wave_touches_dirty, number, wave_dirty, sync_before,
  add_wave, compile_waves, compile_phases, last_phase, compile,
}
use minecraft_orchestrator.Scheduler.Executor.{run_frame}
use minecraft_orchestrator.Scheduler.Frames.Plan.{Fresh, after_nodes, compile-Fresh}
use minecraft_orchestrator.Scheduler.Frames.Run.{Sound, run_frame-compile}

abbrev bare : Bundle
bare = record { mask = 1; components = λ c. nil }

-- One system creates an entity with a position; another queries positions.
abbrev spawner : System
spawner = record {
  id = "spawner";
  access = record { queries = []; reads = 0; writes = 0; structural = 1 ∷ [] };
  run = λ w b. (w, stage_command b (create_command bare), false);
}

abbrev watcher : System
watcher = record {
  id = "watcher";
  access = record { queries = 1 ∷ []; reads = 1; writes = 0; structural = [] };
  run = λ w b. (w, b, false);
}

abbrev spawn_phase : PhaseDef
spawn_phase = record {
  id = "spawn";
  after = [];
  order = 0;
  systems = record { system = spawner; phase = "spawn"; after = []; before = []; order = 0 } ∷ [];
}

abbrev watch_phase : PhaseDef
watch_phase = record {
  id = "watch";
  after = "spawn" ∷ [];
  order = 1;
  systems = record { system = watcher; phase = "watch"; after = []; before = []; order = 1 } ∷ [];
}

abbrev builder : Builder
builder = record { phases = spawn_phase ∷ watch_phase ∷ []; systems = []; next_order = 2 }

-- The watcher's wave comes after a sync.
abbrev plan : List PlanNode
plan =
    wave_node "spawn" 0 (record { system = spawner; order = 0 } ∷ []) (1 ∷ [])
    ∷ sync_node "watch" (next_wave_queries (1 ∷ []))
    ∷ wave_node "watch" 0 (record { system = watcher; order = 1 } ∷ []) []
    ∷ []

compile-builder : compile builder ≡ ok plan
unfolding compile sort_phase all_edges phase_edges zero_degrees find_phase sort_phases insert_phase
    found_phases release take_phases degree set_degree delete decrement_all contains_id zero_keys
    compile_phases compile_phase system_edges edges_from edges_to add_edge local zero_systems
    insert_system sort_systems found_systems compatible_with select_wave retire wave_loop
    compile_waves sync_before add_wave wave_dirty number wave_touches_dirty match_wave match_queries
    match_query append_unique_mask append_unique_masks is_dirty contains last_phase
compile-builder = refl

run_frame-compile_example : Sound (run_frame plan new_world)
unfolding new_world
run_frame-compile_example =
    run_frame-compile builder plan new_world compile-builder
      (((λ w b. (refl, refl)), tt), (((λ w b. (refl, refl)), tt), tt)) refl refl

compile-Fresh_example : Fresh plan [] × (after_nodes plan [] ≡ [])
compile-Fresh_example = compile-Fresh builder plan compile-builder

-- Two systems that read a component, and between them one that writes it.
abbrev writer : System
writer = record watcher {
  id = "writer";
  access = record { queries = 1 ∷ []; reads = 0; writes = 1; structural = [] };
}

abbrev second_watcher : System
second_watcher = record watcher { id = "second" }

abbrev declared : System → ℕ → SystemDef
declared s n = record { system = s; phase = "busy"; after = []; before = []; order = n }

abbrev busy_phase : PhaseDef
busy_phase = record {
  id = "busy";
  after = [];
  order = 0;
  systems = declared watcher 0 ∷ declared writer 1 ∷ declared second_watcher 2 ∷ [];
}

abbrev busy_waves : List (List SystemDef)
busy_waves = (declared watcher 0 ∷ declared second_watcher 2 ∷ []) ∷ (declared writer 1 ∷ []) ∷ []

compile_phase-busy_phase : compile_phase busy_phase ≡ ok busy_waves
unfolding degree set_degree delete decrement_all contains_id zero_keys compile_phase system_edges
    edges_from edges_to add_edge local zero_systems insert_system sort_systems found_systems
    compatible_with select_wave retire wave_loop systems_conflict any_observed intersects
compile_phase-busy_phase = refl

compile_phase-ConflictFree_example : All ConflictFree busy_waves
compile_phase-ConflictFree_example =
    compile_phase-ConflictFree busy_phase busy_waves compile_phase-busy_phase

systems_conflict_comm_example :
    systems_conflict spawner.access watcher.access ≡ systems_conflict watcher.access spawner.access
systems_conflict_comm_example = systems_conflict_comm spawner.access watcher.access

wave_loop_fuel_example :
    wave_loop 1 watch_phase.systems (λ id. []) (("watcher", pos 0) ∷ []) 1 ≢ out_of_fuel
wave_loop_fuel_example =
    wave_loop_fuel 1 watch_phase.systems (λ id. []) (("watcher", pos 0) ∷ []) 1 (omega arith)
