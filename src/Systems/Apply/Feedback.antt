-- ===== src/Systems/Apply/Feedback.antt =====
-- The feedback that is kept for a bot, and the bot's session (systems.go).
use minecraft_orchestrator.Systems.Apply.Sessions.{
  IsElsewhere, IsIn, IsPrevious, any_view-IsIn, any_view-IsElsewhere, begins_session-true,
}
use minecraft_orchestrator.Base.{
  true, false, not, ◌==◌, Option, none, some, List, [], ◌∷◌, map, ◌≡◌, ◌≢◌, refl, sym, ap, ◌∙◌,
  arith, some_injective, none_ne_some, if_false, if_same, update_self,
}
use minecraft_orchestrator.Model.WorldViews.{WorldViews}
use minecraft_orchestrator.Model.Entities.{EntityViews}
use minecraft_orchestrator.Model.Reality.{RealityView, clear}
use minecraft_orchestrator.Network.{Event, RealityState, event_reality_state}
use minecraft_orchestrator.Systems.Observations.{Row, apply_kind, apply_network_event}
use minecraft_orchestrator.Systems.Terrain.{apply_chunk_kind, apply_chunk_event}
use minecraft_orchestrator.Systems.Feedback.{
  any_view, matches_session, apply_entity_event, apply_reality_event, set_matched,
}
use minecraft_orchestrator.Systems.Apply.{
  State, begins_session, clear_previous, apply_to_row, applied, apply_event,
}

rows-dropped :
    (event : Event) (rows : List Row)
    → event.kind ≡ event_reality_state
    → map (apply_to_row event) rows ≡ rows
unfolding apply_to_row apply_network_event apply_kind
rows-dropped event [] e = refl
rows-dropped event (row ∷ rows) e =
    rw (rows-dropped event rows e, e)
      (ap (λ (r : Row). r ∷ rows) (if_same (not (row.bot.profile_id == event.profile_id)) row))

views-dropped :
    (event : Event) (views : List (List Row))
    → event.kind ≡ event_reality_state
    → map (map (apply_to_row event)) views ≡ views
views-dropped event [] e = refl
views-dropped event (view ∷ views) e =
    rw (rows-dropped event view e, views-dropped event views e) refl

set_matched-dropped :
    (event : Event) (views : List (List Row)) (rs : Option RealityState) (v : RealityView)
    → any_view (matches_session event) views ≡ false
    → set_matched event views rs v ≡ v
set_matched-dropped event views none v e = refl
set_matched-dropped event views (some rs) v e = if_false _ _ _ e

chunk-dropped :
    (event : Event) (v : WorldViews)
    → event.kind ≡ event_reality_state
    → apply_chunk_event event v ≡ some v
unfolding apply_chunk_event apply_chunk_kind
chunk-dropped event v e = ap (λ kind. apply_chunk_kind kind event v) e

entity-dropped :
    (event : Event) (v : EntityViews)
    → event.kind ≡ event_reality_state
    → apply_entity_event event v ≡ v
unfolding apply_entity_event
entity-dropped event v e = ground (arith, e)

reality-dropped :
    (event : Event) (rows : List (List Row)) (v : RealityView)
    → event.kind ≡ event_reality_state
    → any_view (matches_session event) rows ≡ false
    → apply_reality_event event rows (clear_previous event rows v) ≡ v
unfolding apply_reality_event clear_previous
reality-dropped event rows v e other =
    grind (arith, e, set_matched-dropped event rows event.reality_state v other)

-- Feedback without a session, or for one that none of its bot's rows is in, is dropped: nothing
-- changes, whatever sessions the other bots are in.
pub apply_event-dropped :
    (event : Event) (s : State)
    → event.kind ≡ event_reality_state
    → IsElsewhere event s.rows
    → apply_event event s ≡ some s
unfolding apply_event
apply_event-dropped event s e elsewhere =
    let other = any_view-IsElsewhere event s.rows elsewhere in
    ap (applied event s) (chunk-dropped event s.worlds e) ∙ λ i. some (record {
      rows = views-dropped event s.rows e i;
      worlds = s.worlds;
      entities = entity-dropped event s.entities e i;
      reality = reality-dropped event s.rows s.reality e other i;
    })

reality-cleared :
    (event : Event) (rows : List (List Row)) (v : RealityView)
    → event.kind ≢ event_reality_state
    → any_view (begins_session event) rows ≡ true
    → apply_reality_event event rows (clear_previous event rows v) event.profile_id ≡ none
unfolding apply_reality_event clear_previous clear
reality-cleared event rows v kind begins =
    grind (arith, kind, begins, update_self v event.profile_id none)

applied-reality :
    (event : Event) (s t : State) (o : Option WorldViews)
    → applied event s o ≡ some t
    → apply_reality_event event s.rows (clear_previous event s.rows s.reality) ≡ t.reality
applied-reality event s t none e = absurd (none_ne_some e)
applied-reality event s t (some worlds) e = ap (λ (x : State). x.reality) (some_injective e)

-- An event other than feedback, which names a session, drops its bot's feedback when a row of the bot
-- is in a session with another name, wherever among the rows it stands; provided the event does not
-- panic.
pub apply_event-cleared :
    (event : Event) (s t : State) (row : Row)
    → event.kind ≢ event_reality_state
    → IsIn row s.rows
    → IsPrevious event row
    → apply_event event s ≡ some t
    → t.reality event.profile_id ≡ none
unfolding apply_event
apply_event-cleared event s t row kind is_in previous e =
    ap (λ (v : RealityView). v event.profile_id)
      (sym (applied-reality event s t (apply_chunk_event event s.worlds) e))
    ∙ reality-cleared event s.rows s.reality kind (
        any_view-IsIn (begins_session event) s.rows row is_in
          (begins_session-true event row previous))
