-- ===== src/HostTransport/Observation.antt =====
-- orchestrator/internal/hosttransport/observation.go: a message of the host becomes an event of the
-- inbox, or an error. The allowed profiles are a function; `to_float32` is the conversion
-- float32(x) of a float64.
pub mod Events
pub mod Laws
pub mod Reports
use minecraft_orchestrator.Base.{
  ℕ, zero, suc, ◌+◌, ◌*◌, ◌%◌, Bool, true, false, not, ◌||◌, ◌&&◌, ◌==◌, if◌then◌else◌, Option,
  none, some, List, [], ◌∷◌, ◌++◌, length, map,
}
use Prim.Native.String.{String}
use text.Mathlib.Text.{◌==◌ as str_eq}
use minecraft_orchestrator.Model.Types.{
  Float32, Float64, ProfileId, Position, BlockPosition, ControllerAction, goto, break, attack,
  craft, equip, place, consume,
}
use minecraft_orchestrator.Model.Components.{
  Rotation, Velocity, ItemStack, InventorySlot, Inventory, Effect, Effects,
}
use minecraft_orchestrator.Model.Reality.{
  ActionOutcome, ActionOutcomeStatus, outcome_completed, outcome_failed,
}
use minecraft_orchestrator.Network
use minecraft_orchestrator.Network.{
  Event, EventKind, HostStatus, HostSnapshot, BlockStateChange, EntityChanges, Entity, RealityState,
  event_host_status, event_host_snapshot, event_host_position, event_host_vitals,
  event_host_effects, event_host_inventory, event_chunk_load, event_chunk_unload,
  event_block_state_change, event_multi_blocks_updated, event_entity_changes, event_reality_state,
  host_connecting, host_connected, host_disconnected, host_kicked, host_error,
}
use minecraft_orchestrator.HostTransport.Messages
use minecraft_orchestrator.HostTransport.Messages.{
  BotObservation, BotStatusChanged, HostBotState, HostPosition, HostPotionEffect, HostItemStack,
  HostInventorySlot, HostInventory, HostBlock, HostEntity, HostEntitiesChanged, HostRealityState,
  HostActionOutcome, Vec3i, Payload, no_payload, status_changed, spawned, state_snapshot,
  vitals_changed, effects_changed, position_changed, inventory_changed, chunk_loaded,
  chunk_unloaded, block_updated, multi_blocks_updated, command_result, entities_changed,
}

pub data Error : Type 0 where
  is_nil unknown_profile empty_session zero_sequence without_payload : Error
  profile_length : ℕ → Error

pub data Result (A : Type 0) : Type 0 where
  err : Error → Result A
  ok : A → Result A

-- The getters of a message that is missing.
abbrev pub got {ℓ} : {A : Type ℓ} → A → Option A → A
got missing none = missing
got missing (some a) = a

unfoldable pub host_status : Option BotStatusChanged → HostStatus × String
host_status none = (host_error, "missing status")
host_status (some s) = (
  if s.state == 1
      then host_connecting
      else if s.state == 2
      then host_connected
      else if s.state == 3
      then host_disconnected
      else if s.state == 4
      then host_kicked
      else host_error,
  s.detail,
)

unfoldable pub vitals : Option Messages.HostVitals → Network.HostVitals
vitals none = record { health = 0; food = 0; saturation = 0; oxygen = 0 }
vitals (some v) = record {
  health = v.health;
  food = v.food;
  saturation = v.saturation;
  oxygen = v.oxygen;
}

unfoldable pub position : Option HostPosition → Position
position none = record { x = 0; y = 0; z = 0 }
position (some p) = record { x = p.x; y = p.y; z = p.z }

unfoldable pub rotation : (Float64 → Float32) → Option HostPosition → Rotation
rotation to_float32 none = record { yaw = 0; pitch = 0 }
rotation to_float32 (some p) = record { yaw = to_float32 p.yaw; pitch = to_float32 p.pitch }

unfoldable pub velocity : Option HostPosition → Velocity
velocity none = record { x = 0; y = 0; z = 0 }
velocity (some p) = record { x = p.velocity_x; y = p.velocity_y; z = p.velocity_z }

unfoldable pub effect_values : List (Option HostPotionEffect) → List Effect
effect_values [] = []
effect_values (none ∷ values) = effect_values values
effect_values (some e ∷ values) =
    record { id = e.id; name = e.name; amplifier = e.amplifier; duration_ticks = e.duration_ticks }
    ∷ effect_values values

unfoldable pub effects : List (Option HostPotionEffect) → Effects
unfolding effect_values
effects values = record { values = effect_values values }

abbrev pub item_of : Option HostItemStack → Option ItemStack
item_of none = none
item_of (some i) =
    some (record { id = i.id; name = i.name; metadata = i.metadata; count = i.count })

unfoldable pub slot_values : List (Option HostInventorySlot) → List InventorySlot
slot_values [] = []
slot_values (none ∷ slots) = slot_values slots
slot_values (some s ∷ slots) = record { slot = s.slot; item = item_of s.item } ∷ slot_values slots

unfoldable pub inventory : Option HostInventory → Inventory
unfolding slot_values
inventory none = record { selected_hotbar_slot = 0; slots = [] }
inventory (some i) = record {
  selected_hotbar_slot = i.selected_hotbar_slot;
  slots = slot_values i.slots;
}

abbrev pub no_snapshot : HostSnapshot
no_snapshot = record {
  vitals = vitals none;
  position = position none;
  rotation = rotation (λ x. x) none;
  velocity = velocity none;
  inventory = inventory none;
  effects = record { values = [] };
  game_mode = 0;
}

-- The conversion to a uint8 takes the low byte.
unfoldable pub bot_state : (Float64 → Float32) → Option HostBotState → HostSnapshot
unfolding vitals position rotation velocity inventory effects
bot_state to_float32 none = no_snapshot
bot_state to_float32 (some s) = record {
  vitals = vitals s.vitals;
  position = position s.position;
  rotation = rotation to_float32 s.position;
  velocity = velocity s.position;
  inventory = inventory s.inventory;
  effects = effects s.effects;
  game_mode = s.game_mode % 256;
}

abbrev pub no_entity : HostEntity
no_entity = record { entity_id = 0; name = ""; x = 0; y = 0; z = 0; yaw = 0; pitch = 0 }

unfoldable pub entity_to_go : Option HostEntity → Entity
entity_to_go given =
    let e = got no_entity given in
    record {
      id = e.entity_id;
      name = e.name;
      position = record { x = e.x; y = e.y; z = e.z };
      yaw = e.yaw;
      pitch = e.pitch;
    }

unfoldable pub entity_changes : Option HostEntitiesChanged → Option EntityChanges
unfolding entity_to_go
entity_changes none = none
entity_changes (some c) = some (record {
  added = map entity_to_go c.added;
  removed = c.removed;
  moved = map entity_to_go c.moved;
})

abbrev pub no_block : HostBlock
no_block = record { x = 0; y = 0; z = 0; state_id = 0 }

unfoldable pub block_change : Option HostBlock → BlockStateChange
block_change given =
    let b = got no_block given in
    record { position = record { x = b.x; y = b.y; z = b.z }; state_id = b.state_id }

-- The number that the sixteen bytes of a profile spell.
unfoldable pub profile_from : ℕ → List ℕ → ProfileId
profile_from n [] = n
profile_from n (b ∷ bytes) = profile_from (n * 256 + b) bytes

abbrev pub plain_event : ProfileId → String → ℕ → EventKind → Event
plain_event profile session sequence kind = record {
  profile_id = profile;
  kind = kind;
  failure = "";
  remote_session_id = session;
  sequence = sequence;
  host_status = host_connecting;
  snapshot = none;
  vitals = none;
  position = none;
  effects = none;
  inventory = none;
  chunk_load = none;
  chunk_unload = none;
  block_state_change = none;
  multi_blocks_updated = none;
  entity_changes = none;
  reality_state = none;
}
