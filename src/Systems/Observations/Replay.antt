-- ===== src/Systems/Observations/Replay.antt =====
-- Observations of one session, in any number, and their repetition (systems.go).
use minecraft_orchestrator.Base.{
  ◌≤◌, false, leb, Option, List, [], ◌∷◌, All, ◌&&◌, inl, inr, ◌≡◌, refl, sym, ap, ◌∙◌, arith, not,
  Bool-cases, leb-false→lt,
}
use text.Mathlib.Text.{◌==◌ as str_eq}
use minecraft_orchestrator.Network.{Event}
use minecraft_orchestrator.Systems.Observations.{
  Row, accept_in, accept_host_observation, status_in, apply_host_status, observe, apply_kind,
  apply_network_event,
}
use minecraft_orchestrator.Systems.Observations.Laws.{
  Keeps, IsStale, same_string, status-stale, observe-empty, observe-stale, Delivered, is_past,
  is_refused, filled-session, accepted, observe-Delivered, with_status-keeps, status-Delivered,
  by_kind,
}

-- The events of a list, in order.
unfoldable pub apply_events : List Event → Row → Row
unfolding apply_network_event
apply_events [] row = row
apply_events (event ∷ events) row = apply_events events (apply_network_event event row)

-- An event of the row's session leaves the session where it is, and its sequence where it is or later.
abbrev Later : Row → Row → Type 0
Later row after =
    (after.session.remote_session_id ≡ row.session.remote_session_id)
    × (row.session.last_sequence ≤ after.session.last_sequence)

begins_none :
    (event : Event) (row : Row)
    → event.remote_session_id ≡ row.session.remote_session_id
    → (not (str_eq event.remote_session_id "")
        && not (str_eq row.session.remote_session_id event.remote_session_id))
      ≡ false
begins_none event row same =
    ground (arith, same_string row.session.remote_session_id event.remote_session_id (sym same))

status-Later :
    (event : Event) (row : Row)
    → event.remote_session_id ≡ row.session.remote_session_id
    → Later row (apply_host_status row event).0
unfolding apply_host_status status_in
status-Later event row same = elim (Bool-cases (leb event.sequence row.session.last_sequence)) [
  | inl stale ↦ rw (begins_none event row same, stale) (refl, omega arith)
  | inr later ↦
      let kept = with_status-keeps event (record row.session { last_sequence = event.sequence }) in
      rw (begins_none event row same, later)
        (kept.0, omega (arith, kept.1, leb-false→lt event.sequence row.session.last_sequence later))
]

observe-Later {ℓ} :
    {A : Type ℓ} (f : A → Row → Row) (payload : Option A) (event : Event) (row : Row)
    → Keeps f
    → event.remote_session_id ≡ row.session.remote_session_id
    → Later row (observe f payload event row)
unfolding observe accept_host_observation accept_in
observe-Later f payload event row k same = elim (Bool-cases (str_eq event.remote_session_id "")) [
  | inl empty ↦ rw empty (refl, omega arith)
  | inr session ↦ elim (Bool-cases (leb event.sequence row.session.last_sequence)) [
    | inl stale ↦
        rw
          (
            session,
            same_string row.session.remote_session_id event.remote_session_id (sym same),
            stale,
          )
          (refl, omega arith)
    | inr later ↦
        let kept = filled-session f payload (accepted event row.session row) k in
        rw
          (
            session,
            same_string row.session.remote_session_id event.remote_session_id (sym same),
            later,
          )
          (
            ap (λ s. s.remote_session_id) kept,
            omega (
              arith,
              ap (λ s. s.last_sequence) kept,
              leb-false→lt event.sequence row.session.last_sequence later,
            ),
          )
  ]
]

apply_network_event-Later :
    (event : Event) (row : Row)
    → event.remote_session_id ≡ row.session.remote_session_id
    → Later row (apply_network_event event row)
unfolding apply_network_event
apply_network_event-Later event row same =
    by_kind event (λ apply. Later row (apply row)) (status-Later event row same)
      (λ A f payload k. observe-Later f payload event row k same) (refl, omega arith) event.kind

-- Events of one session leave a row of that session in it, and its sequence only grows.
pub apply_events-Later :
    (events : List Event) (row : Row)
    → All (λ e. e.remote_session_id ≡ row.session.remote_session_id) events
    → (((apply_events events row).session.remote_session_id ≡ row.session.remote_session_id)
        × (row.session.last_sequence ≤ (apply_events events row).session.last_sequence))
unfolding apply_events
apply_events-Later [] row all = (refl, omega arith)
apply_events-Later (event ∷ events) row (same, all) =
    let step = apply_network_event-Later event row same in
    let rest = apply_events-Later events (apply_network_event event row) (rw step.0 all) in
    (rest.0 ∙ step.0, omega (arith, rest.1, step.1))

IsStale-Later :
    (event : Event) (row after : Row) → IsStale event row → Later row after → IsStale event after
IsStale-Later event row after (inl empty, passed) (same, later) = (inl empty, omega arith)
IsStale-Later event row after (inr equal, passed) (same, later) = (inr (same ∙ equal), omega arith)

-- A delivery in the row's own session is not one that is refused for its session.
Delivered-IsStale :
    (event : Event) (row after : Row)
    → event.remote_session_id ≡ row.session.remote_session_id
    → Delivered event row after
    → IsStale event after
Delivered-IsStale event row after same (is_past stale) = stale
Delivered-IsStale event row after same (is_refused other passed reset) =
    let equal = same_string row.session.remote_session_id event.remote_session_id (sym same) in cc

observe-replay {ℓ} :
    {A : Type ℓ} (f : A → Row → Row) (payload : Option A) (event : Event) (row after : Row)
    → Keeps f
    → event.remote_session_id ≡ row.session.remote_session_id
    → Later (observe f payload event row) after
    → observe f payload event after ≡ after
observe-replay f payload event row after k same later =
    elim (Bool-cases (str_eq event.remote_session_id "")) [
      | inl empty ↦ observe-empty f payload event after empty
      | inr session ↦ observe-stale f payload event after (
          IsStale-Later event (observe f payload event row) after
            (Delivered-IsStale event row (observe f payload event row) same
              (observe-Delivered f payload event row k session))
            later)
    ]

-- Where an event of the row's session comes again after any number of events of that session, it
-- changes nothing.
pub apply_events-replay :
    (event : Event) (events : List Event) (row : Row)
    → All (λ e. e.remote_session_id ≡ row.session.remote_session_id) (event ∷ events)
    → let after = apply_events (event ∷ events) row in apply_network_event event after ≡ after
unfolding apply_events apply_network_event
apply_events-replay event events row (same, all) =
    by_kind event (λ apply. (after : Row) → Later (apply row) after → apply after ≡ after)
      (λ after later.
        ap (λ r. r.0)
          (status-stale after event (
            IsStale-Later event (apply_host_status row event).0 after
              (Delivered-IsStale event row (apply_host_status row event).0 same
                (status-Delivered event row))
              later)))
      (λ A f payload k after. observe-replay f payload event row after k same) (λ after later. refl)
      event.kind (apply_events events (apply_kind event.kind event row))
      (apply_events-Later events (apply_network_event event row)
        (rw (apply_network_event-Later event row same).0 all))
