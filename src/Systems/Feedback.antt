-- ===== src/Systems/Feedback.antt =====
-- applyEntityEvent, toModelEntities and applyRealityEvent (systems.go).
pub mod Laws
use minecraft_orchestrator.Base.{
  ℕ, Bool, true, false, not, ◌&&◌, ◌||◌, ◌==◌, if◌then◌else◌, Option, none, some, List, [], ◌∷◌,
  map,
}
use Prim.Native.String.{String}
use text.Mathlib.Text.{◌==◌ as str_eq}
use minecraft_orchestrator.Model.Types.{Int32, ProfileId}
use minecraft_orchestrator.Model.Entities as Model
use minecraft_orchestrator.Model.Entities.{
  EntityViews, add_entities, remove_entities, move_entities,
}
use minecraft_orchestrator.Model.Reality as Reality
use minecraft_orchestrator.Model.Reality.{RealityView, set}
use minecraft_orchestrator.Network.{
  Event, EventKind, Entity, EntityChanges, RealityState, event_entity_changes, event_reality_state,
}
use minecraft_orchestrator.Systems.Observations.{Row}

unfoldable pub to_model_entity : Entity → Model.Entity
to_model_entity e = record {
  id = e.id;
  name = e.name;
  position = e.position;
  yaw = e.yaw;
  pitch = e.pitch;
}

unfoldable pub to_model_entities : List Entity → List Model.Entity
unfolding to_model_entity
to_model_entities es = map to_model_entity es

-- A list that is empty is passed over.
abbrev pub unless_empty {ℓ} :
    {A : Type ℓ} → (List A → EntityViews → EntityViews) → List A → EntityViews → EntityViews
unless_empty f [] v = v
unless_empty f (x ∷ xs) v = f (x ∷ xs) v

unfoldable pub apply_changes : ProfileId → EntityChanges → EntityViews → EntityViews
unfolding to_model_entities
apply_changes profile changes v =
    let added = unless_empty (λ es. add_entities profile (to_model_entities es)) changes.added v in
    let removed = unless_empty (remove_entities profile) changes.removed added in
    unless_empty (λ es. move_entities profile (to_model_entities es)) changes.moved removed

abbrev pub changed : ProfileId → Option EntityChanges → EntityViews → EntityViews
changed profile none v = v
changed profile (some changes) v = apply_changes profile changes v

unfoldable pub apply_entity_event : Event → EntityViews → EntityViews
apply_entity_event event v = elim event.kind [
  | event_entity_changes ↦ changed event.profile_id event.entity_changes v
  | _ ↦ v
]

-- Whether a row has the event's profile and session; the loops go on, and find no less.
unfoldable pub matches_session : Event → Row → Bool
matches_session event row =
    row.bot.profile_id == event.profile_id
    && not (str_eq event.remote_session_id "")
    && str_eq row.session.remote_session_id event.remote_session_id

unfoldable pub any_row : (Row → Bool) → List Row → Bool
any_row test [] = false
any_row test (row ∷ rows) = test row || any_row test rows

unfoldable pub any_view : (Row → Bool) → List (List Row) → Bool
unfolding any_row
any_view test [] = false
any_view test (view ∷ views) = any_row test view || any_view test views

unfoldable pub to_model_reality : RealityState → Reality.RealityState
to_model_reality rs = record {
  arrival_distance = rs.arrival_distance;
  digging_block = rs.digging_block;
  attacking_entity = rs.attacking_entity;
  equipped_item = rs.equipped_item;
  goto_target = rs.goto_target;
  action_outcomes = rs.action_outcomes;
  action_failed = rs.action_failed;
  failure = rs.failure;
  action_failure_correlation = rs.action_failure_correlation;
}

abbrev pub set_matched : Event → List (List Row) → Option RealityState → RealityView → RealityView
set_matched event views none v = v
set_matched event views (some rs) v =
    if any_view (matches_session event) views
    then set event.profile_id (to_model_reality rs) v
    else v

unfoldable pub apply_reality_event : Event → List (List Row) → RealityView → RealityView
unfolding any_view matches_session to_model_reality
apply_reality_event event views v = elim event.kind [
  | event_reality_state ↦ set_matched event views event.reality_state v
  | _ ↦ v
]
