-- ===== src/HostTransport/Observation/Events.antt =====
-- ObservationToEvent, RealityStateToEvent and actionOutcome of observation.go.
use minecraft_orchestrator.Base.{
  ℕ, Bool, true, false, not, ◌&&◌, ◌==◌, if◌then◌else◌, Option, none, some, List, [], ◌∷◌, ◌++◌,
  length, map,
}
use Prim.Native.String.{String}
use text.Mathlib.Text.{◌==◌ as str_eq}
use minecraft_orchestrator.Model.Types.{
  Float32, Float64, ProfileId, BlockPosition, ControllerAction, goto, break, attack, craft, equip,
  place, consume,
}
use minecraft_orchestrator.Model.Reality.{
  ActionOutcome, ActionOutcomeStatus, outcome_completed, outcome_failed,
}
use minecraft_orchestrator.Network.{
  Event, HostSnapshot, RealityState, event_host_status, event_host_snapshot, event_host_position,
  event_host_vitals, event_host_effects, event_host_inventory, event_chunk_load, event_chunk_unload,
  event_block_state_change, event_multi_blocks_updated, event_entity_changes, event_reality_state,
}
use minecraft_orchestrator.HostTransport.Messages.{
  BotObservation, HostPosition, HostRealityState, HostActionOutcome, Vec3i, Payload, no_payload,
  status_changed, spawned, state_snapshot, vitals_changed, effects_changed, position_changed,
  inventory_changed, chunk_loaded, chunk_unloaded, block_updated, multi_blocks_updated,
  command_result, entities_changed,
}
use minecraft_orchestrator.HostTransport.Observation.{
  is_nil, unknown_profile, empty_session, zero_sequence, without_payload, profile_length, Result,
  ok, err, host_status, vitals, position, rotation, velocity, effects, inventory, no_snapshot,
  bot_state, entity_changes, block_change, profile_from, plain_event,
}

-- The snapshot of which an event on the position has only the place and the movement.
unfoldable pub place_only : (Float64 → Float32) → Option HostPosition → HostSnapshot
unfolding position rotation velocity
place_only to_float32 p = record no_snapshot {
  position = position p;
  rotation = rotation to_float32 p;
  velocity = velocity p;
}

-- The switch on the payload; CommandResult has no case and falls to the default.
unfoldable pub payload_event : (Float64 → Float32) → ProfileId → String → ℕ → Payload → Result Event
unfolding host_status bot_state vitals effects place_only inventory block_change entity_changes
payload_event to_float32 p s n no_payload = err without_payload
payload_event to_float32 p s n command_result = err without_payload
payload_event to_float32 p s n (status_changed status) =
    ok (record (plain_event p s n event_host_status) {
      host_status = (host_status status).0;
      failure = (host_status status).1;
    })
payload_event to_float32 p s n (spawned state) =
    ok (record (plain_event p s n event_host_snapshot) {
      snapshot = some (bot_state to_float32 state);
    })
payload_event to_float32 p s n (state_snapshot state) =
    ok (record (plain_event p s n event_host_snapshot) {
      snapshot = some (bot_state to_float32 state);
    })
payload_event to_float32 p s n (vitals_changed v) =
    ok (record (plain_event p s n event_host_vitals) { vitals = some (vitals v) })
payload_event to_float32 p s n (effects_changed es) =
    ok (record (plain_event p s n event_host_effects) { effects = some (effects es) })
payload_event to_float32 p s n (position_changed at) =
    ok (record (plain_event p s n event_host_position) {
      position = some (place_only to_float32 at);
    })
payload_event to_float32 p s n (inventory_changed selected slots) =
    ok (record (plain_event p s n event_host_inventory) {
      inventory =
          some (inventory (some (record { selected_hotbar_slot = selected; slots = slots })));
    })
payload_event to_float32 p s n (chunk_loaded c) = ok (record (plain_event p s n event_chunk_load) {
  chunk_load = some (record {
    position = record { x = c.chunk_x; z = c.chunk_z };
    bytes = c.bytes;
    min_y = c.min_y;
    height = c.height;
  });
})
payload_event to_float32 p s n (chunk_unloaded c) =
    ok (record (plain_event p s n event_chunk_unload) {
      chunk_unload = some (record { x = c.chunk_x; z = c.chunk_z });
    })
payload_event to_float32 p s n (block_updated b) =
    ok (record (plain_event p s n event_block_state_change) {
      block_state_change = some (block_change (some b));
    })
payload_event to_float32 p s n (multi_blocks_updated bs) =
    ok (record (plain_event p s n event_multi_blocks_updated) {
      multi_blocks_updated = some (record { records = map block_change bs });
    })
payload_event to_float32 p s n (entities_changed c) =
    ok (record (plain_event p s n event_entity_changes) { entity_changes = entity_changes c })

unfoldable pub observation_to_event :
    (Float64 → Float32) → (ProfileId → Bool) → Option BotObservation → Result Event
unfolding payload_event profile_from
observation_to_event to_float32 allowed none = err is_nil
observation_to_event to_float32 allowed (some o) =
    let profile = profile_from 0 o.profile_id in
    if not (length o.profile_id == 16)
    then err (profile_length (length o.profile_id))
    else if not (allowed profile)
    then err unknown_profile
    else if str_eq o.session_id ""
    then err empty_session
    else if o.sequence == 0
    then err zero_sequence
    else payload_event to_float32 profile o.session_id o.sequence o.payload

unfoldable pub action_of : ℕ → Option ControllerAction
action_of kind =
    if kind == 1
    then some goto
    else if kind == 2
    then some break
    else if kind == 6
    then some attack
    else if kind == 3
    then some craft
    else if kind == 7
    then some equip
    else if kind == 5
    then some place
    else if kind == 4
    then some consume
    else none

unfoldable pub status_of : ℕ → Option ActionOutcomeStatus
status_of status =
    if status == 1
    then some outcome_completed
    else if status == 2
    then some outcome_failed
    else none

abbrev pub known_outcome :
    HostActionOutcome → Option ControllerAction → Option ActionOutcomeStatus → Option ActionOutcome
known_outcome o (some action) (some status) = some (record {
  controller_sequence = o.controller_sequence;
  action = action;
  status = status;
  detail = o.detail;
})
known_outcome o _ _ = none

-- An outcome that is missing, or whose kind or status is not known, is passed over.
unfoldable pub action_outcome : Option HostActionOutcome → Option ActionOutcome
unfolding action_of status_of
action_outcome none = none
action_outcome (some o) = known_outcome o (action_of o.kind) (status_of o.status)

abbrev pub is_failed : ActionOutcomeStatus → Bool
is_failed outcome_failed = true
is_failed _ = false

-- One mapped outcome: the first that failed is kept as the failure.
unfoldable pub record_outcome : ActionOutcome → RealityState → RealityState
record_outcome mapped rs =
    let listed = record rs { action_outcomes = rs.action_outcomes ++ mapped ∷ [] } in
    if not rs.action_failed && is_failed mapped.status
    then record listed {
      action_failed = true;
      failure = mapped.detail;
      action_failure_correlation = mapped.controller_sequence;
    }
    else listed

abbrev pub record_mapped : Option ActionOutcome → RealityState → RealityState
record_mapped none rs = rs
record_mapped (some mapped) rs = record_outcome mapped rs

unfoldable pub record_outcomes : List (Option HostActionOutcome) → RealityState → RealityState
unfolding action_outcome record_outcome
record_outcomes [] rs = rs
record_outcomes (o ∷ os) rs = record_outcomes os (record_mapped (action_outcome o) rs)

abbrev pub block_at : Option Vec3i → Option BlockPosition
block_at none = none
block_at (some v) = some (record { x = v.x; y = v.y; z = v.z })

abbrev pub copy_of {ℓ} : {A : Type ℓ} → Option A → Option A
copy_of none = none
copy_of (some a) = some a

abbrev pub observed : HostRealityState → RealityState
observed r = record {
  arrival_distance = copy_of r.arrival_distance;
  digging_block = block_at r.digging_block;
  attacking_entity = copy_of r.attacking_entity;
  equipped_item = copy_of r.equipped_item;
  goto_target = block_at r.goto_target;
  action_outcomes = [];
  action_failed = false;
  failure = "";
  action_failure_correlation = 0;
}

unfoldable pub reality_state_to_event : (ProfileId → Bool) → Option HostRealityState → Result Event
unfolding record_outcomes profile_from
reality_state_to_event allowed none = err is_nil
reality_state_to_event allowed (some r) =
    let profile = profile_from 0 r.profile_id in
    if not (length r.profile_id == 16)
    then err (profile_length (length r.profile_id))
    else if not (allowed profile)
    then err unknown_profile
    else ok (record (plain_event profile r.session_id r.sequence event_reality_state) {
      reality_state = some (record_outcomes r.action_outcomes (observed r));
    })
