-- ===== src/Scheduler/Phases.antt =====
-- sortdPhase of orchestrator/internal/engine/scheduler/compiler.go: the phases in an order that their
-- dependencies allow. A map is walked in the order of registration; the sorts by the distinct orders
-- make the result the same for any other.
use minecraft_orchestrator.Base.{
  ℕ, zero, suc, ◌==◌, leb, not, if◌then◌else◌, Option, none, some, List, [], ◌∷◌, ◌++◌, length,
}
use minecraft_orchestrator.Scheduler.Access.{PhaseId}
use minecraft_orchestrator.Scheduler.Degrees.{
  pos, increment, decrement, is_zero, Degrees, degree, set_degree, Successors, append_successor,
  zero_keys,
}
use minecraft_orchestrator.Scheduler.Builder.{
  PhaseDef, find_phase, Result, ok, err, unknown_phase, phase_cycle,
}

pub record Graph : Type 0 where
  pub indegree : Degrees
  pub out : Successors

unfoldable pub zero_degrees : List PhaseDef → Degrees → Degrees
zero_degrees [] ds = ds
zero_degrees (p ∷ ps) ds = zero_degrees ps (set_degree p.id (pos 0) ds)

unfoldable pub phase_edges : List PhaseDef → PhaseId → List PhaseId → Graph → Result Graph
phase_edges phases id [] g = ok g
phase_edges phases id (dependency ∷ rest) g = elim (find_phase dependency phases) [
  | none ↦ err (unknown_phase id dependency)
  | some p ↦ phase_edges phases id rest (record {
    indegree = set_degree id (increment (degree id g.indegree)) g.indegree;
    out = append_successor g.out dependency id;
  })
]

abbrev pub or_stop {ℓ κ} : {A : Type ℓ} {B : Type κ} → Result A → (A → Result B) → Result B
or_stop (ok a) f = f a
or_stop (err e) f = err e

unfoldable pub all_edges : List PhaseDef → List PhaseDef → Graph → Result Graph
all_edges phases [] g = ok g
all_edges phases (p ∷ ps) g =
    or_stop (phase_edges phases p.id p.after g) (λ g'. all_edges phases ps g')

-- Sorting by `order`.
unfoldable pub insert_phase : PhaseDef → List PhaseDef → List PhaseDef
insert_phase p [] = p ∷ []
insert_phase p (q ∷ qs) = if leb p.order q.order then p ∷ q ∷ qs else q ∷ insert_phase p qs

unfoldable pub sort_phases : List PhaseDef → List PhaseDef
sort_phases [] = []
sort_phases (p ∷ ps) = insert_phase p (sort_phases ps)

abbrev pub cons_found {ℓ} : {A : Type ℓ} → Option A → List A → List A
cons_found none xs = xs
cons_found (some x) xs = x ∷ xs

-- The phases of the keys; every key is one of a phase.
unfoldable pub found_phases : List PhaseDef → List PhaseId → List PhaseDef
found_phases phases [] = []
found_phases phases (id ∷ ids) = cons_found (find_phase id phases) (found_phases phases ids)

-- The inner loop, on the successors of a phase that was taken.
unfoldable pub release :
    List PhaseDef → List PhaseId → Degrees → List PhaseDef → Degrees × List PhaseDef
release phases [] ds ready = (ds, ready)
release phases (next ∷ rest) ds ready =
    let d = decrement (degree next ds) in
    let ready' =
      if is_zero d then sort_phases (ready ++ cons_found (find_phase next phases) []) else ready in
    release phases rest (set_degree next d ds) ready'

-- The outer loop, with fuel: the phases taken, and those that stay ready when the fuel is spent.
unfoldable pub take_phases :
    ℕ → List PhaseDef → Successors → Degrees → List PhaseDef → List PhaseDef × List PhaseDef
take_phases zero phases out ds ready = ([], ready)
take_phases (suc fuel) phases out ds [] = ([], [])
take_phases (suc fuel) phases out ds (phase ∷ ready) =
    let (ds', ready') = release phases (out phase.id) ds ready in
    let (result, left) = take_phases fuel phases out ds' ready' in (phase ∷ result, left)

unfoldable pub sort_phase : List PhaseDef → Result (List PhaseDef)
sort_phase phases =
    or_stop (all_edges phases phases (record { indegree = zero_degrees phases []; out = λ id. [] }))
      λ g.
        let ready = sort_phases (found_phases phases (zero_keys g.indegree)) in
        let (result, left) = take_phases (length phases) phases g.out g.indegree ready in
        if not (length result == length phases) then err phase_cycle else ok result
