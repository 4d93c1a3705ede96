-- ===== src/Examples/Hosts.antt =====
-- The theorems on messages of the host and on runs of events at concrete inputs.
use minecraft_orchestrator.Base.{
  inr, update, ℕ, ◌≤◌, ◌==◌, true, none, some, List, [], ◌∷◌, ◌≡◌, ◌≢◌, ◌⊎◌, refl, arith,
}
use Prim.Native.String.{String}
use minecraft_orchestrator.Network.{Event, RealityState, event_host_vitals, event_reality_state}
use minecraft_orchestrator.HostTransport.Observation.{plain_event, ok, profile_from}
use minecraft_orchestrator.HostTransport.Observation.Events.{
  observation_to_event, payload_event, reality_state_to_event, record_outcomes, observed,
}
use minecraft_orchestrator.HostTransport.Observation.Laws.{
  observation_to_event-guards, observation_to_event-taken,
}
use minecraft_orchestrator.HostTransport.Observation.Reports.{
  reality_state_to_event-Reports, mapped_outcomes, first_failed, Reports,
}
use minecraft_orchestrator.HostTransport.Messages.{
  BotObservation, HostRealityState, HostActionOutcome, vitals_changed,
}
use minecraft_orchestrator.Systems.Observations.{Row, apply_network_event}
use minecraft_orchestrator.Systems.Feedback.{
  to_model_reality, apply_entity_event, apply_reality_event,
}
use minecraft_orchestrator.Systems.Terrain.{apply_chunk_event, apply_chunk_kind}
use minecraft_orchestrator.Systems.Apply
use minecraft_orchestrator.Systems.Apply.{
  State, begins_session, apply_event, clear_previous, apply_to_row,
}
use minecraft_orchestrator.Systems.Apply.Laws.{SameFor, run-other}
use minecraft_orchestrator.Systems.Apply.Feedback.{apply_event-dropped, apply_event-cleared}
use minecraft_orchestrator.Systems.Apply.Sessions.{IsIn}
use minecraft_orchestrator.Systems.Observations.Laws.{same_string}
use minecraft_orchestrator.Examples.Events.{steve, vitals_event, state}

abbrev sixteen : List ℕ
sixteen = 0 ∷ 0 ∷ 0 ∷ 0 ∷ 0 ∷ 0 ∷ 0 ∷ 0 ∷ 0 ∷ 0 ∷ 0 ∷ 0 ∷ 0 ∷ 0 ∷ 0 ∷ 5 ∷ []

abbrev message : BotObservation
message = record {
  profile_id = sixteen;
  session_id = "one";
  sequence = 6;
  payload = vitals_changed none;
}

abbrev message_event : Event
message_event = record (plain_event 5 "one" 6 event_host_vitals) {
  vitals = some (record { health = 0; food = 0; saturation = 0; oxygen = 0 });
}

message-accepted : observation_to_event (λ x. x) (λ p. p == 5) (some message) ≡ ok message_event
unfolding observation_to_event payload_event profile_from
message-accepted = refl

observation_to_event-guards_example :
    ((5 == 5) ≡ true) × (message_event.remote_session_id ≢ "") × (message_event.sequence ≢ 0)
observation_to_event-guards_example =
    observation_to_event-guards (λ x. x) (λ p. p == 5) (some message) message_event message-accepted

observation_to_event-taken_example :
    (apply_network_event message_event steve ≡ steve)
    ⊎ (((apply_network_event message_event steve).session.remote_session_id ≡ "one")
        × (6 ≤ (apply_network_event message_event steve).session.last_sequence))
observation_to_event-taken_example =
    observation_to_event-taken (λ x. x) (λ p. p == 5) (some message) message_event steve
      message-accepted

abbrev failed_break : HostActionOutcome
failed_break = record { controller_sequence = 3; kind = 2; status = 2; detail = "no path" }

abbrev report : HostRealityState
report = record {
  profile_id = sixteen;
  sequence = 1;
  arrival_distance = none;
  digging_block = none;
  attacking_entity = none;
  equipped_item = none;
  goto_target = none;
  action_outcomes = none ∷ some failed_break ∷ [];
  session_id = "two";
}

abbrev report_event : Event
report_event = record (plain_event 5 "two" 1 event_reality_state) {
  reality_state = some (record_outcomes report.action_outcomes (observed report));
}

report-accepted : reality_state_to_event (λ p. p == 5) (some report) ≡ ok report_event
unfolding reality_state_to_event profile_from
report-accepted = refl

reality_state_to_event-Reports_example :
    (rs : RealityState) × (report_event.reality_state ≡ some rs)
    × (rs.action_outcomes ≡ mapped_outcomes report.action_outcomes)
    × Reports (first_failed (mapped_outcomes report.action_outcomes)) rs
reality_state_to_event-Reports_example =
    reality_state_to_event-Reports (λ p. p == 5) report report_event report-accepted

-- Another bot, which is in the session of the report.
abbrev alex : Row
alex = record steve {
  bot = record { profile_id = 6; username = "alex" };
  session = record steve.session { remote_session_id = "two" };
}

abbrev both : State
both = record state { rows = (alex ∷ steve ∷ []) ∷ [] }

abbrev has_alex : IsIn alex both.rows
has_alex = record {
  view_at = 0;
  row_at = 0;
  view = alex ∷ steve ∷ [];
  has_view = refl;
  has_row = refl;
}

abbrev has_steve : IsIn steve both.rows
has_steve = record {
  view_at = 0;
  row_at = 1;
  view = alex ∷ steve ∷ [];
  has_view = refl;
  has_row = refl;
}

abbrev Differ : String → String → Type 0
Differ a b = a ≢ b

two_ne_empty : Differ "two" ""
two_ne_empty e = let t = same_string "two" "" e in cc

one_ne_empty : Differ "one" ""
one_ne_empty e = let t = same_string "one" "" e in cc

one_ne_two : Differ "one" "two"
one_ne_two e = let t = same_string "one" "two" e in cc

apply_event-dropped_example : apply_event report_event both ≡ some both
apply_event-dropped_example =
    apply_event-dropped report_event both refl
      (((λ e. omega (arith, e)), ((λ e. inr one_ne_two), tt)), tt)

abbrev report_of_alex : Event
report_of_alex = record report_event { profile_id = 6 }

abbrev renewed : Event
renewed = record (vitals_event 1) { remote_session_id = "two" }

abbrev end_state : State
end_state = record {
  rows = (apply_to_row renewed steve ∷ []) ∷ [];
  worlds = λ p. none;
  entities = λ p. none;
  reality = clear_previous renewed state.rows state.reality;
}

renewed-applied : apply_event renewed state ≡ some end_state
unfolding apply_event apply_chunk_event apply_chunk_kind apply_entity_event apply_reality_event
renewed-applied = refl

-- The bot had feedback, and the other bot stands first.
abbrev reported : State
reported = record both {
  reality =
      update both.reality 5
        (some (to_model_reality (record_outcomes report.action_outcomes (observed report))));
}

abbrev cleared : State
cleared = record reported {
  rows = (alex ∷ apply_to_row renewed steve ∷ []) ∷ [];
  reality = clear_previous renewed reported.rows reported.reality;
}

reported-cleared : apply_event renewed reported ≡ some cleared
unfolding apply_event apply_chunk_event apply_chunk_kind apply_entity_event apply_reality_event
    apply_to_row
reported-cleared = refl

apply_event-cleared_example : cleared.reality 5 ≡ none
apply_event-cleared_example =
    apply_event-cleared renewed reported cleared steve (λ e. cc) has_steve
      (refl, two_ne_empty, one_ne_empty, one_ne_two) reported-cleared

run-renewed : Apply.run (renewed ∷ []) state ≡ some end_state
unfolding Apply.run apply_event apply_chunk_event apply_chunk_kind apply_entity_event
    apply_reality_event
run-renewed = refl

run-other_example : SameFor 6 state end_state
run-other_example =
    run-other (renewed ∷ []) 6 state end_state ((λ e. omega (arith, e)), tt) run-renewed
