-- ===== src/Model/Components.antt =====
-- The component values of orchestrator/internal/engine/model/components.go, and the `any` that
-- holds one. A nil slice is the empty list.
use minecraft_orchestrator.Base.{
  ℕ, ◌^◌, Bool, true, false, ◌&&◌, ltb, leb, Option, none, some, List, map,
}
use Prim.Native.String.{String}
use minecraft_orchestrator.Model.Types.{
  Int32, Float32, Float64, ProfileId, Position, BlockPosition, GoalType, GoalLifecyclePhase,
  GoalTarget, GoalExitReason, HostileMemory, InFlightOneShot,
}
use minecraft_orchestrator.Model.Controller.{ControllerState, clone}
use minecraft_orchestrator.Model.FailedPlans.{FailedPlanCache}
use minecraft_orchestrator.Model.Mask.{
  Component, c_position, c_velocity, c_health, c_hunger, c_bot, c_rotation, c_game_mode, c_session,
  c_inventory, c_effects, c_utility_ai, c_controller_sync,
}

pub record Bot : Type 0 where
  pub profile_id : ProfileId
  pub username : String

pub record Velocity : Type 0 where
  pub x : Float64
  pub y : Float64
  pub z : Float64

pub record Rotation : Type 0 where
  pub yaw : Float32
  pub pitch : Float32

-- A uint8, which may be none of the four.
abbrev pub GameMode : Type 0
GameMode = ℕ

abbrev pub survival : GameMode
survival = 0

abbrev pub creative : GameMode
creative = 1

abbrev pub adventure : GameMode
adventure = 2

abbrev pub spectator : GameMode
spectator = 3

pub data SessionPhase : Type 0 where
  stopped connecting play_ready retry_waiting session_failed : SessionPhase

pub record Session : Type 0 where
  pub phase : SessionPhase
  pub attempt_id : ℕ
  pub player_entity_id : Int32
  pub failure : String
  pub remote_session_id : String
  pub last_sequence : ℕ

pub record ItemStack : Type 0 where
  pub id : Int32
  pub name : String
  pub metadata : Int32
  pub count : Int32

pub record InventorySlot : Type 0 where
  pub slot : Int32
  pub item : Option ItemStack

pub record Inventory : Type 0 where
  pub selected_hotbar_slot : Int32
  pub slots : List InventorySlot

pub record Effect : Type 0 where
  pub id : Int32
  pub name : String
  pub amplifier : Int32
  pub duration_ticks : Int32

pub record Effects : Type 0 where
  pub values : List Effect

pub record Health : Type 0 where
  pub current : Float64
  pub max : Float64

pub record Hunger : Type 0 where
  pub current : Float64
  pub max : Float64

pub record UtilityAiState : Type 0 where
  pub current_goal : GoalType
  pub phase : GoalLifecyclePhase
  pub target : GoalTarget
  pub recent_hostiles : List HostileMemory
  pub recent_hostile_count : ℕ
  pub last_exit_reason : GoalExitReason
  pub failed_plans : FailedPlanCache
  pub completed_plans : FailedPlanCache

pub record ControllerSyncState : Type 0 where
  pub desired : ControllerState
  pub last_sent : ControllerState
  pub controller_sequence : ℕ
  pub action_sequences : List ℕ
  pub in_flight_one_shot : InFlightOneShot
  pub break_digging_observed : Bool
  pub break_digging_target : BlockPosition
  pub break_digging_correlation : ℕ

-- What an `any` of a bundle or a column holds.
pub data Value : Type 0 where
  nil : Value
  position_value : Position → Value
  velocity_value : Velocity → Value
  health_value : Health → Value
  hunger_value : Hunger → Value
  bot_value : Bot → Value
  rotation_value : Rotation → Value
  game_mode_value : GameMode → Value
  session_value : Session → Value
  inventory_value : Inventory → Value
  effects_value : Effects → Value
  utility_ai_value : UtilityAiState → Value
  controller_sync_value : ControllerSyncState → Value

-- The type assertion of a component's column, `val.(T)`; where it is false the source panics.
unfoldable pub is_of : Component → Value → Bool
is_of c_position (position_value x) = true
is_of c_velocity (velocity_value x) = true
is_of c_health (health_value x) = true
is_of c_hunger (hunger_value x) = true
is_of c_bot (bot_value x) = true
is_of c_rotation (rotation_value x) = true
is_of c_game_mode (game_mode_value x) = true
is_of c_session (session_value x) = true
is_of c_inventory (inventory_value x) = true
is_of c_effects (effects_value x) = true
is_of c_utility_ai (utility_ai_value x) = true
is_of c_controller_sync (controller_sync_value x) = true
is_of _ _ = false

-- `x < 0` of a float64: the sign bit is set, and it is neither minus zero nor a NaN.
unfoldable pub is_negative : Float64 → Bool
is_negative bits = ltb (2 ^ 63) bits && leb bits 0xfff0000000000000

clone_slot : InventorySlot → InventorySlot
clone_slot slot = record slot { item = elim slot.item [ none ↦ none | some item ↦ some item ] }

clone_inventory : Inventory → Inventory
unfolding clone_slot
clone_inventory inventory = record inventory { slots = map clone_slot inventory.slots }

clone_effects : Effects → Effects
clone_effects effects = record { values = map (λ e. e) effects.values }

clone_controller_sync : ControllerSyncState → ControllerSyncState
unfolding clone
clone_controller_sync s = record s { desired = clone s.desired; last_sent = clone s.last_sent }

-- A value without references is copied as it stands; the assertions of the other cases are those of
-- `is_of`, which each caller has passed.
unfoldable pub clone_component : Component → Value → Value
unfolding clone_inventory clone_effects clone_controller_sync
clone_component c_inventory (inventory_value i) = inventory_value (clone_inventory i)
clone_component c_effects (effects_value e) = effects_value (clone_effects e)
clone_component c_controller_sync (controller_sync_value s) =
    controller_sync_value (clone_controller_sync s)
clone_component _ value = value
