-- ===== src/Systems/Apply/Laws.antt =====
-- What an event leaves alone, and what it does to the feedback of a bot.
use minecraft_orchestrator.Base.{
  Bool, true, false, ◌==◌, if◌then◌else◌, Option, none, some, List, [], ◌∷◌, ◌++◌, map, All,
  ==-cases, Bool-cases, Option-cases, inl, inr, ◌≡◌, ◌≢◌, refl, sym, ap, subst, ◌∙◌, arith,
  some_injective, none_ne_some, if_true, if_false,
}
use text.Mathlib.Text.{◌==◌ as str_eq}
use minecraft_orchestrator.Model.Types.{Int32, ProfileId}
use minecraft_orchestrator.Model.WorldViews.{WorldViews}
use minecraft_orchestrator.Model.Entities.{EntityViews}
use minecraft_orchestrator.Model.Entities.Laws.{entity_of}
use minecraft_orchestrator.Model.Reality.{RealityView, set, clear}
use minecraft_orchestrator.Network.{Event, EventKind, EntityChanges, event_entity_changes}
use minecraft_orchestrator.Systems.Observations.{
  Row, apply_network_event, observe, filled, if_accepted, apply_host_status, status_in, with_status,
  accept_host_observation, accept_in, begun, reset_session_ai,
}
use minecraft_orchestrator.Systems.Observations.Laws.{Keeps, by_kind}
use minecraft_orchestrator.Systems.Terrain.{apply_chunk_event}
use minecraft_orchestrator.Systems.Terrain.Laws.{Steps-other, apply_chunk_event-Steps}
use minecraft_orchestrator.Systems.Feedback.{apply_entity_event, apply_reality_event, changed}
use minecraft_orchestrator.Systems.Feedback.Laws.{entity_of-apply_changes}
use minecraft_orchestrator.Systems.Apply.{
  State, clear_previous, apply_to_row, applied, apply_event, or_none, run,
}

status-bot : (event : Event) (row : Row) → (apply_host_status row event).0.bot ≡ row.bot
unfolding apply_host_status status_in begun reset_session_ai with_status
status-bot event row = ground arith

filled-bot {ℓ} :
    {A : Type ℓ} (f : A → Row → Row) (payload : Option A) (row : Row)
    → Keeps f
    → (filled f payload row).bot ≡ row.bot
filled-bot f none row k = refl
filled-bot f (some a) row k = (k a row).1

if_accepted-bot {ℓ} :
    {A : Type ℓ} (f : A → Row → Row) (payload : Option A) (answer : Row × Bool)
    → Keeps f
    → (if_accepted f payload answer).bot ≡ answer.0.bot
if_accepted-bot f payload (row, false) k = refl
if_accepted-bot f payload (row, true) k = filled-bot f payload row k

accept-bot : (event : Event) (row : Row) → (accept_host_observation row event).0.bot ≡ row.bot
unfolding accept_host_observation accept_in begun reset_session_ai
accept-bot event row = ground arith

observe-bot {ℓ} :
    {A : Type ℓ} (f : A → Row → Row) (payload : Option A) (event : Event) (row : Row)
    → Keeps f
    → (observe f payload event row).bot ≡ row.bot
unfolding observe
observe-bot f payload event row k = elim (Bool-cases (str_eq event.remote_session_id "")) [
  | inl empty ↦ ap (λ (r : Row). r.bot) (if_true _ _ _ empty)
  | inr session ↦
      ap (λ (r : Row). r.bot) (if_false _ _ _ session)
      ∙ if_accepted-bot f payload (accept_host_observation row event) k
      ∙ accept-bot event row
]

apply_network_event-bot :
    (event : Event) (row : Row) → (apply_network_event event row).bot ≡ row.bot
unfolding apply_network_event
apply_network_event-bot event row =
    by_kind event (λ apply. (apply row).bot ≡ row.bot) (status-bot event row)
      (λ A f payload k. observe-bot f payload event row k) refl event.kind

-- The rows of a bot, in order.
unfoldable pub rows_in : ProfileId → List Row → List Row
rows_in q [] = []
rows_in q (row ∷ rows) =
    let rest = rows_in q rows in if row.bot.profile_id == q then row ∷ rest else rest

unfoldable pub rows_of : ProfileId → List (List Row) → List Row
unfolding rows_in
rows_of q [] = []
rows_of q (view ∷ views) = rows_in q view ++ rows_of q views

rows_in-apply :
    (event : Event) (q : ProfileId) (rows : List Row)
    → event.profile_id ≢ q
    → rows_in q (map (apply_to_row event) rows) ≡ rows_in q rows
unfolding rows_in apply_to_row
rows_in-apply event q [] ne = refl
rows_in-apply event q (row ∷ rows) ne = elim (==-cases row.bot.profile_id event.profile_id) [
  | inl own ↦
      grind (arith, own, ne, apply_network_event-bot event row, rows_in-apply event q rows ne)
  | inr other ↦ grind (arith, other, rows_in-apply event q rows ne)
]

rows_of-apply :
    (event : Event) (q : ProfileId) (views : List (List Row))
    → event.profile_id ≢ q
    → rows_of q (map (map (apply_to_row event)) views) ≡ rows_of q views
unfolding rows_of
rows_of-apply event q [] ne = refl
rows_of-apply event q (view ∷ views) ne =
    rw (rows_in-apply event q view ne, rows_of-apply event q views ne) refl

-- What the state holds for a bot is the same in both.
pub record SameFor (q : ProfileId) (s t : State) : Type 0 where
  pub rows : rows_of q t.rows ≡ rows_of q s.rows
  pub world : t.worlds q ≡ s.worlds q
  pub entities : (id : Int32) → entity_of q id t.entities ≡ entity_of q id s.entities
  pub reality : t.reality q ≡ s.reality q

entity-other :
    (event : Event) (q : ProfileId) (v : EntityViews) (id : Int32)
    → event.profile_id ≢ q
    → entity_of q id (apply_entity_event event v) ≡ entity_of q id v
unfolding apply_entity_event
entity-other event q v id ne = at event.kind event.entity_changes
  where
    at :
        (kind : EventKind) (changes : Option EntityChanges)
        → entity_of q id
            (elim kind [ event_entity_changes ↦ changed event.profile_id changes v | _ ↦ v ])
          ≡ entity_of q id v
    at kind none = ground arith
    at kind (some changes) =
        ground (arith, entity_of-apply_changes event.profile_id q id changes v, ne)

clear-other :
    (event : Event) (q : ProfileId) (rows : List (List Row)) (v : RealityView)
    → event.profile_id ≢ q
    → clear_previous event rows v q ≡ v q
unfolding clear_previous clear
clear-other event q rows v ne = ground (arith, ne)

reality-other :
    (event : Event) (q : ProfileId) (rows : List (List Row)) (v : RealityView)
    → event.profile_id ≢ q
    → apply_reality_event event rows v q ≡ v q
unfolding apply_reality_event set
reality-other event q rows v ne = ground (arith, ne)

SameFor-refl : (q : ProfileId) (s : State) → SameFor q s s
SameFor-refl q s = record { rows = refl; world = refl; entities = λ id. refl; reality = refl }

SameFor-trans : {q : ProfileId} {s t u : State} → SameFor q s t → SameFor q t u → SameFor q s u
SameFor-trans a b = record {
  rows = b.rows ∙ a.rows;
  world = b.world ∙ a.world;
  entities = λ id. b.entities id ∙ a.entities id;
  reality = b.reality ∙ a.reality;
}

applied-other :
    (event : Event) (q : ProfileId) (s t : State) (worlds : WorldViews)
    → event.profile_id ≢ q
    → worlds q ≡ s.worlds q
    → applied event s (some worlds) ≡ some t
    → SameFor q s t
applied-other event q s t worlds ne same e = subst (SameFor q s) (some_injective e) (record {
  rows = rows_of-apply event q s.rows ne;
  world = same;
  entities = λ id. entity-other event q s.entities id ne;
  reality =
      reality-other event q s.rows (clear_previous event s.rows s.reality) ne
      ∙ clear-other event q s.rows s.reality ne;
})

apply_event-other :
    (event : Event) (q : ProfileId) (s t : State)
    → event.profile_id ≢ q
    → apply_event event s ≡ some t
    → SameFor q s t
unfolding apply_event
apply_event-other event q s t ne e = elim (Option-cases (apply_chunk_event event s.worlds)) [
  | inl panic ↦ absurd (none_ne_some (sym (ap (applied event s) panic) ∙ e))
  | inr (worlds, made) ↦
      applied-other event q s t worlds ne
        (Steps-other (apply_chunk_event-Steps event s.worlds worlds made) q ne)
        (sym (ap (applied event s) made) ∙ e)
]

-- A run of events that are not a bot's, and that does not panic, leaves alone all that is kept for
-- that bot: its rows, its world, the entities it knows and its feedback.
pub run-other :
    (events : List Event) (q : ProfileId) (s t : State)
    → All (λ e. e.profile_id ≢ q) events
    → run events s ≡ some t
    → SameFor q s t
unfolding run
run-other [] q s t all e = subst (SameFor q s) (some_injective e) (SameFor-refl q s)
run-other (event ∷ events) q s t (ne, all) e = elim (Option-cases (apply_event event s)) [
  | inl panic ↦ absurd (none_ne_some (sym (ap (λ o. or_none o (run events)) panic) ∙ e))
  | inr (u, made) ↦
      SameFor-trans (apply_event-other event q s u ne made)
        (run-other events q u t all (sym (ap (λ o. or_none o (run events)) made) ∙ e))
]
