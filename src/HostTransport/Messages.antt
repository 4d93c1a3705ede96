-- ===== src/HostTransport/Messages.antt =====
-- The messages of proto/orchestrator/v1/host.proto that the orchestrator receives, as their getters
-- show them. A message that may be missing is an `Option`; an enum is its number; an int32, a float
-- or a double is its bit pattern.
use minecraft_orchestrator.Base.{ℕ, Option, List}
use Prim.Native.String.{String}
use minecraft_orchestrator.Model.Types.{Int32, Float32, Float64}

pub record BotStatusChanged : Type 0 where
  pub state : ℕ
  pub detail : String

pub record HostVitals : Type 0 where
  pub health : Float64
  pub food : Int32
  pub saturation : Float64
  pub oxygen : Int32

pub record HostPotionEffect : Type 0 where
  pub id : Int32
  pub name : String
  pub amplifier : Int32
  pub duration_ticks : Int32

pub record HostPosition : Type 0 where
  pub dimension : String
  pub x : Float64
  pub y : Float64
  pub z : Float64
  pub yaw : Float64
  pub pitch : Float64
  pub velocity_x : Float64
  pub velocity_y : Float64
  pub velocity_z : Float64

pub record HostItemStack : Type 0 where
  pub id : Int32
  pub name : String
  pub metadata : Int32
  pub count : Int32

pub record HostInventorySlot : Type 0 where
  pub slot : Int32
  pub item : Option HostItemStack

pub record HostInventory : Type 0 where
  pub selected_hotbar_slot : Int32
  pub slots : List (Option HostInventorySlot)

pub record HostBotState : Type 0 where
  pub vitals : Option HostVitals
  pub effects : List (Option HostPotionEffect)
  pub position : Option HostPosition
  pub inventory : Option HostInventory
  pub game_mode : Int32

pub record HostChunkLoaded : Type 0 where
  pub chunk_x : Int32
  pub chunk_z : Int32
  pub bytes : List ℕ
  pub min_y : Int32
  pub height : Int32

pub record HostChunkUnloaded : Type 0 where
  pub chunk_x : Int32
  pub chunk_z : Int32

-- HostBlockUpdated, and a BlockRecord of HostMultiBlocksUpdated.
pub record HostBlock : Type 0 where
  pub x : Int32
  pub y : Int32
  pub z : Int32
  pub state_id : Int32

pub record HostEntity : Type 0 where
  pub entity_id : Int32
  pub name : String
  pub x : Float64
  pub y : Float64
  pub z : Float64
  pub yaw : Float32
  pub pitch : Float32

pub record HostEntitiesChanged : Type 0 where
  pub added : List (Option HostEntity)
  pub removed : List Int32
  pub moved : List (Option HostEntity)

-- The oneof of an observation. Where the getters hide a missing message, the case has its fields.
pub data Payload : Type 0 where
  no_payload : Payload
  status_changed : Option BotStatusChanged → Payload
  spawned : Option HostBotState → Payload
  state_snapshot : Option HostBotState → Payload
  vitals_changed : Option HostVitals → Payload
  effects_changed : List (Option HostPotionEffect) → Payload
  position_changed : Option HostPosition → Payload
  inventory_changed : Int32 → List (Option HostInventorySlot) → Payload
  chunk_loaded : HostChunkLoaded → Payload
  chunk_unloaded : HostChunkUnloaded → Payload
  block_updated : HostBlock → Payload
  multi_blocks_updated : List (Option HostBlock) → Payload
  command_result : Payload
  entities_changed : Option HostEntitiesChanged → Payload

pub record BotObservation : Type 0 where
  pub profile_id : List ℕ
  pub session_id : String
  pub sequence : ℕ
  pub payload : Payload

pub record Vec3i : Type 0 where
  pub x : Int32
  pub y : Int32
  pub z : Int32

pub record HostActionOutcome : Type 0 where
  pub controller_sequence : ℕ
  pub kind : ℕ
  pub status : ℕ
  pub detail : String

pub record HostRealityState : Type 0 where
  pub profile_id : List ℕ
  pub sequence : ℕ
  pub arrival_distance : Option Float64
  pub digging_block : Option Vec3i
  pub attacking_entity : Option Int32
  pub equipped_item : Option String
  pub goto_target : Option Vec3i
  pub action_outcomes : List (Option HostActionOutcome)
  pub session_id : String
