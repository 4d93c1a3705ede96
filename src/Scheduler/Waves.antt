-- ===== src/Scheduler/Waves.antt =====
-- compilePhase of orchestrator/internal/engine/scheduler/compiler.go: the systems of a phase in waves.
pub mod Conflicts
use minecraft_orchestrator.Base.{
  ℕ, zero, suc, ◌-◌, leb, Bool, true, false, if◌then◌else◌, Option, none, some, List, [], ◌∷◌, ◌++◌,
  length,
}
use text.Mathlib.Text.{◌==◌ as str_eq}
use minecraft_orchestrator.Scheduler.Access.{SystemId, systems_conflict}
use minecraft_orchestrator.Scheduler.Degrees.{
  pos, increment, Degrees, degree, set_degree, delete, Successors, append_successor, decrement_all,
  contains_id, zero_keys,
}
use minecraft_orchestrator.Scheduler.Builder.{
  SystemDef, PhaseDef, Result, ok, err, outside_phase, system_cycle,
}
use minecraft_orchestrator.Scheduler.Phases.{Graph, or_stop, cons_found}

-- The map `local`: of two systems with one name the later stands.
unfoldable pub local : SystemId → List SystemDef → Option SystemDef
local id [] = none
local id (d ∷ ds) = elim (local id ds) [
  | some found ↦ some found
  | none ↦ if str_eq d.system.id id then some d else none
]

unfoldable pub zero_systems : List SystemDef → Degrees → Degrees
zero_systems [] ds = ds
zero_systems (d ∷ rest) ds = zero_systems rest (set_degree d.system.id (pos 0) ds)

-- The closure addEdge.
unfoldable pub add_edge : PhaseDef → SystemId → SystemId → Graph → Result Graph
add_edge phase from to g = elim (local from phase.systems) [
  | none ↦ err (outside_phase phase.id from)
  | some f ↦ elim (local to phase.systems) [
    | none ↦ err (outside_phase phase.id to)
    | some t ↦
        if contains_id to (g.out from)
        then ok g
        else ok (record {
          indegree = set_degree to (increment (degree to g.indegree)) g.indegree;
          out = append_successor g.out from to;
        })
  ]
]

unfoldable pub edges_from : PhaseDef → List SystemId → SystemId → Graph → Result Graph
edges_from phase [] id g = ok g
edges_from phase (dependency ∷ rest) id g =
    or_stop (add_edge phase dependency id g) (λ g'. edges_from phase rest id g')

unfoldable pub edges_to : PhaseDef → SystemId → List SystemId → Graph → Result Graph
edges_to phase id [] g = ok g
edges_to phase id (next ∷ rest) g =
    or_stop (add_edge phase id next g) (λ g'. edges_to phase id rest g')

unfoldable pub system_edges : PhaseDef → List SystemDef → Graph → Result Graph
system_edges phase [] g = ok g
system_edges phase (d ∷ ds) g =
    or_stop (edges_from phase d.after d.system.id g)
      λ g1. or_stop (edges_to phase d.system.id d.before g1) λ g2. system_edges phase ds g2

unfoldable pub insert_system : SystemDef → List SystemDef → List SystemDef
insert_system d [] = d ∷ []
insert_system d (e ∷ es) = if leb d.order e.order then d ∷ e ∷ es else e ∷ insert_system d es

unfoldable pub sort_systems : List SystemDef → List SystemDef
sort_systems [] = []
sort_systems (d ∷ ds) = insert_system d (sort_systems ds)

-- The systems of the keys; every key is one of `local`.
unfoldable pub found_systems : List SystemDef → List SystemId → List SystemDef
found_systems systems [] = []
found_systems systems (id ∷ ids) = cons_found (local id systems) (found_systems systems ids)

unfoldable pub compatible_with : SystemDef → List SystemDef → Bool
compatible_with candidate [] = true
compatible_with candidate (selected ∷ wave) =
    if systems_conflict candidate.system.access selected.system.access
    then false
    else compatible_with candidate wave

-- The greedy choice of a wave from the ready systems.
unfoldable pub select_wave : List SystemDef → List SystemDef → List SystemDef
select_wave wave [] = wave
select_wave wave (candidate ∷ ready) =
    select_wave (if compatible_with candidate wave then wave ++ candidate ∷ [] else wave) ready

-- A system that was selected leaves the map, and its successors lose an edge.
unfoldable pub retire : Successors → List SystemDef → Degrees → Degrees
retire out [] ds = ds
retire out (d ∷ wave) ds = retire out wave (decrement_all (out d.system.id) (delete d.system.id ds))

-- What the loop ends in; `out_of_fuel` is no result of the source.
pub data WaveResult : Type 0 where
  waves : List (List SystemDef) → WaveResult
  cycle : WaveResult
  out_of_fuel : WaveResult

abbrev pub cons_wave : List SystemDef → WaveResult → WaveResult
cons_wave w (waves ws) = waves (w ∷ ws)
cons_wave w cycle = cycle
cons_wave w out_of_fuel = out_of_fuel

abbrev pub ready_systems : List SystemDef → Degrees → List SystemDef
ready_systems systems ds = sort_systems (found_systems systems (zero_keys ds))

-- The loop while systems remain, with fuel.
unfoldable pub wave_loop : ℕ → List SystemDef → Successors → Degrees → ℕ → WaveResult
wave_loop fuel systems out ds zero = waves []
wave_loop zero systems out ds (suc remaining) = out_of_fuel
wave_loop (suc fuel) systems out ds (suc remaining) = elim (ready_systems systems ds) [
  | [] ↦ cycle
  | first ∷ rest ↦
      let wave = select_wave [] (first ∷ rest) in
      cons_wave wave (wave_loop fuel systems out (retire out wave ds) (suc remaining - length wave))
]

unfoldable pub compile_phase : PhaseDef → Result (List (List SystemDef))
compile_phase phase =
    or_stop
      (system_edges phase phase.systems
        (record { indegree = zero_systems phase.systems []; out = λ id. [] }))
      λ g.
        elim (wave_loop (length phase.systems) phase.systems g.out g.indegree
          (length phase.systems)) [
            | waves ws ↦ ok ws
            | cycle ↦ err (system_cycle phase.id)
            | out_of_fuel ↦ err (system_cycle phase.id)
          ]
