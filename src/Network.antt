-- ===== src/Network.antt =====
-- orchestrator/internal/engine/network: the messages between the transport and the engine, and the
-- two mailboxes (inbox.go, outbox.go). A mailbox is its list; its mutex makes each call one step.
pub mod Mailbox
use minecraft_orchestrator.Base.{ℕ, Bool, Option, List, [], ◌∷◌, ◌++◌}
use Prim.Native.String.{String}
use minecraft_orchestrator.Model.Types.{Int32, Float32, Float64, ProfileId, Position, BlockPosition}
use minecraft_orchestrator.Model.Components.{Rotation, Velocity, Inventory, Effects, GameMode}
use minecraft_orchestrator.Model.WorldViews.{ChunkPosition}
use minecraft_orchestrator.Model.Reality.{ActionOutcome}

pub data EventKind : Type 0 where
  event_host_status event_host_snapshot event_host_position event_host_vitals : EventKind
  event_host_effects event_host_inventory event_chunk_load event_chunk_unload : EventKind
  event_block_state_change event_multi_blocks_updated event_entity_changes : EventKind
  event_reality_state : EventKind

pub data HostStatus : Type 0 where
  host_connecting host_connected host_disconnected host_kicked host_error : HostStatus

pub record HostVitals : Type 0 where
  pub health : Float64
  pub food : Int32
  pub saturation : Float64
  pub oxygen : Int32

pub record HostSnapshot : Type 0 where
  pub vitals : HostVitals
  pub position : Position
  pub rotation : Rotation
  pub velocity : Velocity
  pub inventory : Inventory
  pub effects : Effects
  pub game_mode : GameMode

pub record ChunkLoad : Type 0 where
  pub position : ChunkPosition
  pub bytes : List ℕ  -- Data
  pub min_y : Int32
  pub height : Int32

pub record BlockStateChange : Type 0 where
  pub position : BlockPosition
  pub state_id : ℕ

pub record MultiBlocksUpdated : Type 0 where
  pub records : List BlockStateChange

pub record Entity : Type 0 where
  pub id : Int32
  pub name : String
  pub position : Position
  pub yaw : Float32
  pub pitch : Float32

pub record EntityChanges : Type 0 where
  pub added : List Entity
  pub removed : List Int32
  pub moved : List Entity

pub record RealityState : Type 0 where
  pub arrival_distance : Option Float64
  pub digging_block : Option BlockPosition
  pub attacking_entity : Option Int32
  pub equipped_item : Option String
  pub goto_target : Option BlockPosition
  pub action_outcomes : List ActionOutcome
  pub action_failed : Bool
  pub failure : String
  pub action_failure_correlation : ℕ

pub record Event : Type 0 where
  pub profile_id : ProfileId
  pub kind : EventKind
  pub failure : String
  pub remote_session_id : String
  pub sequence : ℕ
  pub host_status : HostStatus
  pub snapshot : Option HostSnapshot
  pub vitals : Option HostVitals
  pub position : Option HostSnapshot
  pub effects : Option Effects
  pub inventory : Option Inventory
  pub chunk_load : Option ChunkLoad
  pub chunk_unload : Option ChunkPosition
  pub block_state_change : Option BlockStateChange
  pub multi_blocks_updated : Option MultiBlocksUpdated
  pub entity_changes : Option EntityChanges
  pub reality_state : Option RealityState
