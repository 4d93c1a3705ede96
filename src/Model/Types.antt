-- ===== src/Model/Types.antt =====
-- The shared types of orchestrator/internal/engine/model (utility_ai.go, chunks.go). An int32 or a
-- float64 is its bit pattern, a number below 2 ^ 32 or 2 ^ 64; a nil pointer is `none`.
use minecraft_orchestrator.Base.{ℕ}
use Prim.Native.String.{String}

abbrev pub Int32 : Type 0
Int32 = ℕ

abbrev pub Float64 : Type 0
Float64 = ℕ

abbrev pub Float32 : Type 0
Float32 = ℕ

-- A ProfileID is the number that its sixteen bytes spell; zero is ProfileID{}.
abbrev pub ProfileId : Type 0
ProfileId = ℕ

pub record BlockPosition : Type 0 where
  pub x : Int32
  pub y : Int32
  pub z : Int32

pub record Position : Type 0 where
  pub x : Float64
  pub y : Float64
  pub z : Float64

pub data GoalType : Type 0 where
  idle eat craft_tool find_food flee fight gather_resource hunt return_to_shelter : GoalType

pub data GoalLifecyclePhase : Type 0 where
  inactive entering executing exiting blocked : GoalLifecyclePhase

pub data GoalTargetKind : Type 0 where
  no_target entity block item destination : GoalTargetKind

pub record GoalTarget : Type 0 where
  pub kind : GoalTargetKind
  pub entity_id : Int32
  pub block_at : BlockPosition
  pub item_name : String
  pub destination_at : Position

pub record HostileMemory : Type 0 where
  pub entity_id : Int32
  pub position : Position
  pub seen_tick : ℕ

pub data ControllerAction : Type 0 where
  no_action goto break attack craft equip place consume : ControllerAction

pub record InFlightOneShot : Type 0 where
  pub action : ControllerAction
  pub correlation : ℕ
  pub goal : GoalType
  pub target : GoalTarget
  pub preconditions_hash : ℕ
  pub craft_count : Int32
  pub place_item : String

pub data GoalExitReason : Type 0 where
  no_exit completed cancelled failed session_reset exit_blocked : GoalExitReason

pub record FailedPlan : Type 0 where
  pub goal : GoalType
  pub action : ControllerAction
  pub target : GoalTarget
  pub reason : GoalExitReason
  pub correlation : ℕ
  pub preconditions_hash : ℕ
  pub craft_count : Int32
  pub place_item : String

pub record CraftTarget : Type 0 where
  pub item_name : String
  pub count : Int32

pub record PlaceTarget : Type 0 where
  pub x : Int32
  pub y : Int32
  pub z : Int32
  pub face_x : Int32
  pub face_y : Int32
  pub face_z : Int32
