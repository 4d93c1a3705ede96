-- ===== src/Model/TickContext.antt =====
-- orchestrator/internal/engine/model/tick_context.go: the snapshot of a bot that a behaviour reads in
-- one tick. A fixed array is a list of its length, with a count, a uint8, of the entries in use.
pub mod Bounded
use minecraft_orchestrator.Base.{
  ℕ, zero, suc, ◌+◌, ◌%◌, Bool, true, false, ltb, leb, if◌then◌else◌, Option, none, some, List, [],
  ◌∷◌, length, set, take, map,
}
use Prim.Native.String.{String}
use minecraft_orchestrator.Model.Types.{
  Int32, Float64, ProfileId, Position, BlockPosition, HostileMemory, no_action,
}
use minecraft_orchestrator.Model.Components.{
  Bot, Session, Rotation, Health, Hunger, ItemStack, InventorySlot, Inventory,
}
use minecraft_orchestrator.Model.Chunks.{replicate}
use minecraft_orchestrator.Model.Entities.{PerceivedEntity, PerceptionBlock}
use minecraft_orchestrator.Model.Reality.{ActionOutcome, RealityState, outcome_unspecified}

abbrev pub inventory_capacity : ℕ
inventory_capacity = 64

abbrev pub entity_capacity : ℕ
entity_capacity = 64

abbrev pub block_capacity : ℕ
block_capacity = 128

abbrev pub outcome_capacity : ℕ
outcome_capacity = 16

abbrev pub hostile_capacity : ℕ
hostile_capacity = 16

pub record TickInventorySlot : Type 0 where
  pub slot : Int32
  pub item : ItemStack
  pub has_item : Bool

pub record TickInventory : Type 0 where
  pub selected_hotbar_slot : Int32
  pub slots : List TickInventorySlot
  pub count : ℕ

pub record TickRealityFeedback : Type 0 where
  pub has_arrival_distance : Bool
  pub arrival_distance : Float64
  pub has_digging_block : Bool
  pub digging_block : BlockPosition
  pub has_attacking_entity : Bool
  pub attacking_entity : Int32
  pub has_equipped_item : Bool
  pub equipped_item : String
  pub has_goto_target : Bool
  pub goto_target : BlockPosition
  pub action_outcomes : List ActionOutcome
  pub action_outcome_count : ℕ
  pub action_failed : Bool
  pub failure : String
  pub action_failure_correlation : ℕ

pub record TickWorldFacts : Type 0 where
  pub has_navigable_world : Bool
  pub wander_destination : BlockPosition
  pub has_wander_target : Bool
  pub preconditions_hash : ℕ

pub record TickContextInput : Type 0 where
  pub tick : ℕ
  pub bot : Bot
  pub session : Session
  pub position : Position
  pub rotation : Rotation
  pub health : Health
  pub hunger : Hunger
  pub inventory : Inventory
  pub entities : List PerceivedEntity
  pub blocks : List PerceptionBlock
  pub reality : Option RealityState
  pub world : TickWorldFacts

pub record TickContext : Type 0 where
  pub tick : ℕ
  pub profile_id : ProfileId
  pub username : String
  pub session : Session
  pub position : Position
  pub rotation : Rotation
  pub health : Health
  pub hunger : Hunger
  pub inventory : TickInventory
  pub entities : List PerceivedEntity
  pub entity_count : ℕ
  pub blocks : List PerceptionBlock
  pub block_count : ℕ
  pub reality : TickRealityFeedback
  pub world : TickWorldFacts
  pub recent_hostiles : List HostileMemory
  pub recent_hostile_count : ℕ

abbrev pub no_block_position : BlockPosition
no_block_position = record { x = 0; y = 0; z = 0 }

abbrev pub no_place : Position
no_place = record { x = 0; y = 0; z = 0 }

abbrev pub no_item : ItemStack
no_item = record { id = 0; name = ""; metadata = 0; count = 0 }

abbrev pub no_slot : TickInventorySlot
no_slot = record { slot = 0; item = no_item; has_item = false }

abbrev pub no_entity : PerceivedEntity
no_entity = record { id = 0; name = ""; position = no_place; distance = 0; angle = 0 }

abbrev pub no_seen_block : PerceptionBlock
no_seen_block = record {
  position = no_block_position;
  name = "";
  distance = 0;
  angle = 0;
  visible_face = no_block_position;
}

abbrev pub no_outcome : ActionOutcome
no_outcome = record {
  controller_sequence = 0;
  action = no_action;
  status = outcome_unspecified;
  detail = "";
}

abbrev pub no_hostile : HostileMemory
no_hostile = record { entity_id = 0; position = no_place; seen_tick = 0 }

abbrev pub no_feedback : TickRealityFeedback
no_feedback = record {
  has_arrival_distance = false;
  arrival_distance = 0;
  has_digging_block = false;
  digging_block = no_block_position;
  has_attacking_entity = false;
  attacking_entity = 0;
  has_equipped_item = false;
  equipped_item = "";
  has_goto_target = false;
  goto_target = no_block_position;
  action_outcomes = replicate outcome_capacity no_outcome;
  action_outcome_count = 0;
  action_failed = false;
  failure = "";
  action_failure_correlation = 0;
}

-- The loop that copies a slice into an array from an index on, and counts: it stops at the capacity.
unfoldable pub fill {ℓ μ} :
    {A : Type ℓ} {B : Type μ} → (A → B) → ℕ → ℕ → List A → List B → ℕ → List B × ℕ
fill of capacity i [] array count = (array, count)
fill of capacity i (x ∷ xs) array count =
    if leb capacity i
    then (array, count)
    else fill of capacity (suc i) xs (set array i (of x)) ((count + 1) % 256)

unfoldable pub snapshot_slot : InventorySlot → TickInventorySlot
snapshot_slot slot = elim slot.item [
  | none ↦ record { slot = slot.slot; item = no_item; has_item = false }
  | some item ↦ record { slot = slot.slot; item = item; has_item = true }
]

unfoldable pub restore_slot : TickInventorySlot → InventorySlot
restore_slot slot = record {
  slot = slot.slot;
  item = if slot.has_item then some slot.item else none;
}

unfoldable pub to_inventory : TickInventory → Inventory
unfolding restore_slot
to_inventory i =
    let count = if ltb (length i.slots) i.count then length i.slots else i.count in
    record {
      selected_hotbar_slot = i.selected_hotbar_slot;
      slots = map restore_slot (take count i.slots);
    }

unfoldable pub snapshot_inventory : Inventory → TickInventory
unfolding fill snapshot_slot
snapshot_inventory inventory =
    let filled =
      fill snapshot_slot inventory_capacity 0 inventory.slots (replicate inventory_capacity no_slot)
        0 in
    record {
      selected_hotbar_slot = inventory.selected_hotbar_slot;
      slots = filled.0;
      count = filled.1;
    }

abbrev pub is_there {ℓ} : {A : Type ℓ} → Option A → Bool
is_there none = false
is_there (some a) = true

abbrev pub value_or {ℓ} : {A : Type ℓ} → A → Option A → A
value_or zero_value none = zero_value
value_or zero_value (some a) = a

unfoldable pub snapshot_reality : RealityState → TickRealityFeedback
unfolding fill
snapshot_reality r =
    let outcomes =
      fill (λ o. o) outcome_capacity 0 r.action_outcomes (replicate outcome_capacity no_outcome)
        0 in
    record {
      has_arrival_distance = is_there r.arrival_distance;
      arrival_distance = value_or 0 r.arrival_distance;
      has_digging_block = is_there r.digging_block;
      digging_block = value_or no_block_position r.digging_block;
      has_attacking_entity = is_there r.attacking_entity;
      attacking_entity = value_or 0 r.attacking_entity;
      has_equipped_item = is_there r.equipped_item;
      equipped_item = value_or "" r.equipped_item;
      has_goto_target = is_there r.goto_target;
      goto_target = value_or no_block_position r.goto_target;
      action_outcomes = outcomes.0;
      action_outcome_count = outcomes.1;
      action_failed = r.action_failed;
      failure = r.failure;
      action_failure_correlation = r.action_failure_correlation;
    }

abbrev pub feedback_of : Option RealityState → TickRealityFeedback
feedback_of none = no_feedback
feedback_of (some r) = snapshot_reality r

unfoldable pub new_tick_context : TickContextInput → TickContext
unfolding fill snapshot_inventory snapshot_reality
new_tick_context input =
    let entities =
      fill (λ e. e) entity_capacity 0 input.entities (replicate entity_capacity no_entity) 0 in
    let blocks =
      fill (λ b. b) block_capacity 0 input.blocks (replicate block_capacity no_seen_block) 0 in
    record {
      tick = input.tick;
      profile_id = input.bot.profile_id;
      username = input.bot.username;
      session = input.session;
      position = input.position;
      rotation = input.rotation;
      health = input.health;
      hunger = input.hunger;
      inventory = snapshot_inventory input.inventory;
      entities = entities.0;
      entity_count = entities.1;
      blocks = blocks.0;
      block_count = blocks.1;
      reality = feedback_of input.reality;
      world = input.world;
      recent_hostiles = replicate hostile_capacity no_hostile;
      recent_hostile_count = 0;
    }
