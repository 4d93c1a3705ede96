-- ===== src/Scheduler/Builder.antt =====
-- orchestrator/internal/engine/scheduler/builder.go. The phases stand in the order of registration;
-- the map of registered systems, which no code fills, is kept as it is.
use minecraft_orchestrator.Base.{
  ℕ, ◌+◌, if◌then◌else◌, Option, none, some, List, [], ◌∷◌, ◌++◌, length,
}
use text.Mathlib.Text.{◌==◌ as str_eq}
use minecraft_orchestrator.Scheduler.Access.{
  PhaseId, SystemId, System, AccessError, validate_access,
}

pub record SystemDef : Type 0 where
  pub system : System
  pub phase : PhaseId
  pub after : List SystemId
  pub before : List SystemId
  pub order : ℕ

pub record PhaseDef : Type 0 where
  pub id : PhaseId
  pub after : List PhaseId
  pub order : ℕ
  pub systems : List SystemDef

pub record Builder : Type 0 where
  pub phases : List PhaseDef
  pub systems : List (SystemId × SystemDef)
  pub next_order : ℕ

pub data SchedulerError : Type 0 where
  empty_phase_id empty_system_id phase_cycle : SchedulerError
  phase_registered phase_missing : PhaseId → SchedulerError
  unknown_phase : PhaseId → PhaseId → SchedulerError
  system_registered : SystemId → SchedulerError
  bad_access : SystemId → AccessError → SchedulerError
  outside_phase : PhaseId → SystemId → SchedulerError
  system_cycle : PhaseId → SchedulerError

pub data Result {ℓ} (A : Type ℓ) : Type ℓ where
  ok : A → Result A
  err : SchedulerError → Result A

infixl 5 ◌>>=◌
abbrev pub ◌>>=◌ {ℓ μ} : {B : Type μ} {A : Type ℓ} → Result A → (A → Result B) → Result B
err stopped >>= _ = err stopped
ok value >>= next = next value

unfoldable pub new_builder : Builder
new_builder = record { phases = []; systems = []; next_order = 0 }

unfoldable pub find_phase : PhaseId → List PhaseDef → Option PhaseDef
find_phase id [] = none
find_phase id (p ∷ ps) = if str_eq p.id id then some p else find_phase id ps

unfoldable pub find_system : SystemId → List (SystemId × SystemDef) → Option SystemDef
find_system id [] = none
find_system id ((i, d) ∷ rest) = if str_eq i id then some d else find_system id rest

unfoldable pub add_phase : PhaseId → List PhaseId → Builder → Result Builder
add_phase id after b = if str_eq id "" then err empty_phase_id else elim (find_phase id b.phases) [
  | some p ↦ err (phase_registered id)
  | none ↦ ok (record b {
    phases =
        b.phases ++ record { id = id; after = after; order = length b.phases; systems = [] } ∷ [];
  })
]

pub data SystemOption : Type 0 where
  after_option before_option : List SystemId → SystemOption

unfoldable pub apply_options : List SystemOption → SystemDef → SystemDef
apply_options [] d = d
apply_options (after_option ids ∷ os) d = apply_options os (record d { after = d.after ++ ids })
apply_options (before_option ids ∷ os) d = apply_options os (record d { before = d.before ++ ids })

unfoldable pub append_system : PhaseId → SystemDef → List PhaseDef → List PhaseDef
append_system id d [] = []
append_system id d (p ∷ ps) =
    if str_eq p.id id
    then record p { systems = p.systems ++ d ∷ [] } ∷ ps
    else p ∷ append_system id d ps

-- AddSystem on a system that is not nil.
unfoldable pub add_system : PhaseId → System → List SystemOption → Builder → Result Builder
add_system phase system options b = elim (find_phase phase b.phases) [
  | none ↦ err (phase_missing phase)
  | some p ↦
      if str_eq system.id "" then err empty_system_id else elim (find_system system.id b.systems) [
        | some d ↦ err (system_registered system.id)
        | none ↦ elim (validate_access system.access) [
          | some e ↦ err (bad_access system.id e)
          | none ↦
              let def : SystemDef = record {
                system = system;
                phase = phase;
                after = [];
                before = [];
                order = b.next_order;
              } in
              ok (record b {
                phases = append_system phase (apply_options options def) b.phases;
                next_order = b.next_order + 1;
              })
        ]
      ]
]
