-- ===== src/Model/Reality.antt =====
-- RealityState and RealityView of
-- orchestrator/internal/engine/model/resources.go. A nil slice is the empty list, a nil pointer is
-- `none`, and a map is a function into `Option`.
use minecraft_orchestrator.Base.{ℕ, Bool, Option, none, some, List, update}
use Prim.Native.String.{String}
use minecraft_orchestrator.Model.Types.{Int32, Float64, ProfileId, BlockPosition, ControllerAction}

pub data ActionOutcomeStatus : Type 0 where
  outcome_unspecified outcome_completed outcome_failed : ActionOutcomeStatus

pub record ActionOutcome : Type 0 where
  pub controller_sequence : ℕ
  pub action : ControllerAction
  pub status : ActionOutcomeStatus
  pub detail : String

pub record RealityState : Type 0 where
  pub arrival_distance : Option Float64
  pub digging_block : Option BlockPosition
  pub attacking_entity : Option Int32
  pub equipped_item : Option String
  pub goto_target : Option BlockPosition
  pub action_outcomes : List ActionOutcome
  pub action_failed : Bool
  pub failure : String
  pub action_failure_correlation : ℕ

abbrev pub RealityView : Type 0
RealityView = ProfileId → Option RealityState

unfoldable pub set : ProfileId → RealityState → RealityView → RealityView
set profile s v = update v profile (some s)

unfoldable pub get : ProfileId → RealityView → Option RealityState
get profile v = v profile

-- Feedback that belongs to a previous host session is deleted.
unfoldable pub clear : ProfileId → RealityView → RealityView
clear profile v = update v profile none
