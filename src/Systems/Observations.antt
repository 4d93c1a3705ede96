-- ===== src/Systems/Observations.antt =====
-- applyNetworkEvent and what it calls (systems.go): an event of the host on one row of a
-- MirroredBotView, whose slices are the columns of a table, read and written at one index.
pub mod Laws
pub mod Redelivery
pub mod Replay
use minecraft_orchestrator.Base.{
  ℕ, zero, suc, ◌+◌, ◌-◌, ◌*◌, ◌^◌, Bool, true, false, not, ◌||◌, ◌&&◌, leb, if◌then◌else◌, Option,
  none, some, List, [], ◌==◌,
}
use Prim.Native.String.{String}
use text.Mathlib.Text.{◌==◌ as str_eq}
use minecraft_orchestrator.Model.Types.{
  Int32, Float64, Position, BlockPosition, GoalTarget, HostileMemory, FailedPlan, InFlightOneShot,
  idle, inactive, no_target, no_exit, no_action,
}
use minecraft_orchestrator.Model.Chunks.{replicate}
use minecraft_orchestrator.Model.FailedPlans.{FailedPlanCache, failed_plan_cache_capacity}
use minecraft_orchestrator.Model.Controller.{empty_controller_state}
use minecraft_orchestrator.Model.Components.{
  Bot, Session, Rotation, Velocity, Health, Hunger, GameMode, Inventory, Effects, UtilityAiState,
  ControllerSyncState, connecting, play_ready, retry_waiting,
}
use minecraft_orchestrator.Network.{
  Event, EventKind, HostSnapshot, HostVitals, HostStatus, host_connecting, host_connected,
  host_disconnected, event_host_status, event_host_snapshot, event_host_position, event_host_vitals,
  event_host_effects, event_host_inventory,
}

pub record Row : Type 0 where
  pub bot : Bot
  pub session : Session
  pub position : Position
  pub rotation : Rotation
  pub velocity : Velocity
  pub health : Health
  pub hunger : Hunger
  pub game_mode : GameMode
  pub inventory : Inventory
  pub effects : Effects
  pub utility_ai : UtilityAiState
  pub controller_sync : ControllerSyncState

abbrev pub no_block : BlockPosition
no_block = record { x = 0; y = 0; z = 0 }

abbrev pub no_position : Position
no_position = record { x = 0; y = 0; z = 0 }

abbrev pub no_goal_target : GoalTarget
no_goal_target = record {
  kind = no_target;
  entity_id = 0;
  block_at = no_block;
  item_name = "";
  destination_at = no_position;
}

abbrev pub no_plan : FailedPlan
no_plan = record {
  goal = idle;
  action = no_action;
  target = no_goal_target;
  reason = no_exit;
  correlation = 0;
  preconditions_hash = 0;
  craft_count = 0;
  place_item = "";
}

abbrev pub no_plans : FailedPlanCache
no_plans = record { entries = replicate failed_plan_cache_capacity no_plan; count = 0 }

abbrev pub recent_hostile_memory_capacity : ℕ
recent_hostile_memory_capacity = 16

-- UtilityAIState{}.
abbrev pub no_ai : UtilityAiState
no_ai = record {
  current_goal = idle;
  phase = inactive;
  target = no_goal_target;
  recent_hostiles =
      replicate recent_hostile_memory_capacity
        (record { entity_id = 0; position = no_position; seen_tick = 0 });
  recent_hostile_count = 0;
  last_exit_reason = no_exit;
  failed_plans = no_plans;
  completed_plans = no_plans;
}

abbrev pub controller_action_count : ℕ
controller_action_count = 8

-- ControllerSyncState{}.
abbrev pub no_sync : ControllerSyncState
no_sync = record {
  desired = empty_controller_state;
  last_sent = empty_controller_state;
  controller_sequence = 0;
  action_sequences = replicate controller_action_count 0;
  in_flight_one_shot = record {
    action = no_action;
    correlation = 0;
    goal = idle;
    target = no_goal_target;
    preconditions_hash = 0;
    craft_count = 0;
    place_item = "";
  };
  break_digging_observed = false;
  break_digging_target = no_block;
  break_digging_correlation = 0;
}

-- The float64 of a natural number below 2 ^ (exponent + 1): it is doubled until its leading bit is
-- bit 52, and the exponent counts down from 52.
unfoldable pub normalise : ℕ → ℕ → ℕ
normalise zero m = 0
normalise (suc e) m =
    if leb (2 ^ 52) m then (1023 + e) * 2 ^ 52 + (m - 2 ^ 52) else normalise e (2 * m)

-- The conversion float64(n) of an int32, which is exact.
unfoldable pub float64_of_int32 : Int32 → Float64
unfolding normalise
float64_of_int32 n = if leb (2 ^ 31) n then 2 ^ 63 + normalise 53 (2 ^ 32 - n) else normalise 53 n

unfoldable pub begins_new_remote_session : Session → Event → Bool
begins_new_remote_session session event =
    not (str_eq event.remote_session_id "")
    && not (str_eq session.remote_session_id "")
    && not (str_eq session.remote_session_id event.remote_session_id)

unfoldable pub reset_session_ai : Row → Row
reset_session_ai row = record row { utility_ai = no_ai; controller_sync = no_sync }

-- The local copy of the session that an event begins.
unfoldable pub begun : Event → Session → Session
begun event session = record session {
  remote_session_id = event.remote_session_id;
  last_sequence = 0;
}

-- A refused event leaves the session as it was stored, also where the reset has taken place.
unfoldable pub accept_in : Event → Session → Row → Row × Bool
accept_in event session row = if leb event.sequence session.last_sequence then (row, false) else (
  record row { session = record session { last_sequence = event.sequence; phase = play_ready } },
  true,
)

unfoldable pub accept_host_observation : Row → Event → Row × Bool
unfolding accept_in begun reset_session_ai
accept_host_observation row event =
    if str_eq event.remote_session_id ""
    then (row, false)
    else if not (str_eq row.session.remote_session_id event.remote_session_id)
    then accept_in event (begun event row.session) (reset_session_ai row)
    else accept_in event row.session row

unfoldable pub with_status : Event → Session → Session
with_status event session = elim event.host_status [
  | host_connecting ↦ record session { phase = connecting }
  | host_connected ↦ record session { phase = play_ready }
  | host_disconnected ↦ record session { phase = retry_waiting }
  | _ ↦ record session { phase = retry_waiting; failure = event.failure }
]

unfoldable pub status_in : Event → Session → Row → Row × Bool
unfolding with_status
status_in event session row = if leb event.sequence session.last_sequence then (row, false) else (
  record row { session = with_status event (record session { last_sequence = event.sequence }) },
  true,
)

unfoldable pub apply_host_status : Row → Event → Row × Bool
unfolding status_in begun reset_session_ai
apply_host_status row event =
    if not (str_eq event.remote_session_id "")
      && not (str_eq row.session.remote_session_id event.remote_session_id)
    then status_in event (begun event row.session) (reset_session_ai row)
    else status_in event row.session row

-- Max: 20, as a float64.
abbrev pub twenty : Float64
twenty = 0x4034000000000000

unfoldable pub apply_vitals : HostVitals → Row → Row
unfolding float64_of_int32
apply_vitals vitals row = record row {
  health = record row.health { current = vitals.health };
  hunger = record { current = float64_of_int32 vitals.food; max = twenty };
}

unfoldable pub apply_position : HostSnapshot → Row → Row
apply_position s row = record row {
  position = s.position;
  rotation = s.rotation;
  velocity = s.velocity;
}

unfoldable pub apply_host_snapshot : HostSnapshot → Row → Row
unfolding apply_vitals apply_position
apply_host_snapshot s row = record (apply_vitals s.vitals (apply_position s row)) {
  game_mode = s.game_mode;
  inventory = s.inventory;
  effects = s.effects;
}

-- The guards that the observations share: a session, and a sequence that is new. Where the event
-- holds no payload the row keeps what the guards have written.
abbrev pub filled {ℓ} : {A : Type ℓ} → (A → Row → Row) → Option A → Row → Row
filled f none row = row
filled f (some a) row = f a row

abbrev pub if_accepted {ℓ} : {A : Type ℓ} → (A → Row → Row) → Option A → Row × Bool → Row
if_accepted f payload (row, false) = row
if_accepted f payload (row, true) = filled f payload row

unfoldable pub observe {ℓ} : {A : Type ℓ} → (A → Row → Row) → Option A → Event → Row → Row
unfolding accept_host_observation
observe f payload event row =
    if str_eq event.remote_session_id ""
    then row
    else if_accepted f payload (accept_host_observation row event)

-- The switch on the kind of the event.
unfoldable pub apply_kind : EventKind → Event → Row → Row
unfolding observe apply_host_status apply_host_snapshot apply_position apply_vitals
apply_kind event_host_status event row = (apply_host_status row event).0
apply_kind event_host_snapshot event row = observe apply_host_snapshot event.snapshot event row
apply_kind event_host_position event row = observe apply_position event.position event row
apply_kind event_host_vitals event row = observe apply_vitals event.vitals event row
apply_kind event_host_effects event row =
    observe (λ e r. record r { effects = e }) event.effects event row
apply_kind event_host_inventory event row =
    observe (λ i r. record r { inventory = i }) event.inventory event row
apply_kind _ event row = row

unfoldable pub apply_network_event : Event → Row → Row
unfolding apply_kind
apply_network_event event row = apply_kind event.kind event row
