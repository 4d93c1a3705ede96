-- ===== src/Systems/Apply.antt =====
-- NetworkApplySystem.Run (systems.go): the events that have been drained from the inbox, each applied
-- to the views of the resources and to the rows of its bot. A view's slices are the columns of the
-- world itself, so that a write is seen by the events that follow. The result is `none` where a block
-- state panics. The test of the tick's data, which ends in an error of the scheduler, is left out.
pub mod Laws
pub mod Sessions
pub mod Feedback
use minecraft_orchestrator.Base.{
  Bool, true, false, not, ◌&&◌, ◌==◌, if◌then◌else◌, Option, none, some, List, [], ◌∷◌, map,
}
use minecraft_orchestrator.Model.WorldViews.{WorldViews}
use minecraft_orchestrator.Model.Entities.{EntityViews}
use minecraft_orchestrator.Model.Reality.{RealityView, clear}
use minecraft_orchestrator.Network.{Event, EventKind, event_reality_state}
use minecraft_orchestrator.Systems.Observations.{
  Row, begins_new_remote_session, apply_network_event,
}
use minecraft_orchestrator.Systems.Terrain.{apply_chunk_event}
use minecraft_orchestrator.Systems.Feedback.{any_view, apply_entity_event, apply_reality_event}

pub record State : Type 0 where
  pub rows : List (List Row)
  pub worlds : WorldViews
  pub entities : EntityViews
  pub reality : RealityView

-- A row of the event's bot, for which the event begins another session.
unfoldable pub begins_session : Event → Row → Bool
unfolding begins_new_remote_session
begins_session event row =
    row.bot.profile_id == event.profile_id && begins_new_remote_session row.session event

-- Feedback of a previous session is cleared before anything else; clearing it once more for another
-- row changes nothing.
unfoldable pub clear_previous : Event → List (List Row) → RealityView → RealityView
unfolding begins_session any_view
clear_previous event rows reality = elim event.kind [
  | event_reality_state ↦ reality
  | _ ↦ if any_view (begins_session event) rows then clear event.profile_id reality else reality
]

unfoldable pub apply_to_row : Event → Row → Row
unfolding apply_network_event
apply_to_row event row =
    if not (row.bot.profile_id == event.profile_id) then row else apply_network_event event row

abbrev pub applied : Event → State → Option WorldViews → Option State
applied event s none = none
applied event s (some worlds) = some (record {
  rows = map (map (apply_to_row event)) s.rows;
  worlds = worlds;
  entities = apply_entity_event event s.entities;
  reality = apply_reality_event event s.rows (clear_previous event s.rows s.reality);
})

unfoldable pub apply_event : Event → State → Option State
unfolding apply_to_row clear_previous apply_chunk_event apply_entity_event apply_reality_event
apply_event event s = applied event s (apply_chunk_event event s.worlds)

abbrev pub or_none : Option State → (State → Option State) → Option State
or_none none f = none
or_none (some s) f = f s

unfoldable pub run : List Event → State → Option State
unfolding apply_event
run [] s = some s
run (event ∷ events) s = or_none (apply_event event s) (run events)
