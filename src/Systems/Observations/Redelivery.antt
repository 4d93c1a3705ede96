-- ===== src/Systems/Observations/Redelivery.antt =====
-- The repeated and the stale delivery of an event to a row (systems.go).
use minecraft_orchestrator.Base.{Option, inl, inr, ◌≡◌, refl, ap, arith, Bool-cases}
use text.Mathlib.Text.{◌==◌ as str_eq}
use minecraft_orchestrator.Network.{Event}
use minecraft_orchestrator.Systems.Observations.{
  Row, begun, accept_in, accept_host_observation, status_in, apply_host_status, observe,
  apply_network_event, reset_session_ai,
}
use minecraft_orchestrator.Systems.Observations.Laws.{
  Keeps, IsStale, status-stale, observe-empty, observe-stale, Delivered, is_past, is_refused,
  observe-Delivered, status-Delivered, by_kind,
}

observe-again {ℓ} :
    {A : Type ℓ} (f : A → Row → Row) (payload : Option A) (event : Event) (row after : Row)
    → Delivered event row after
    → observe f payload event row ≡ after
    → observe f payload event after ≡ after
unfolding observe accept_host_observation accept_in begun reset_session_ai
observe-again f payload event row after (is_past stale) e =
    observe-stale f payload event after stale
observe-again f payload event row after (is_refused other stale reset) e =
    rw reset (ground (arith, other, stale))

observe-twice {ℓ} :
    {A : Type ℓ} (f : A → Row → Row) (payload : Option A) (event : Event) (row : Row)
    → Keeps f
    → observe f payload event (observe f payload event row) ≡ observe f payload event row
observe-twice f payload event row k = elim (Bool-cases (str_eq event.remote_session_id "")) [
  | inl empty ↦ observe-empty f payload event _ empty
  | inr session ↦
      observe-again f payload event row _ (observe-Delivered f payload event row k session) refl
]

status-again :
    (event : Event) (row after : Row)
    → Delivered event row after
    → (apply_host_status row event).0 ≡ after
    → (apply_host_status after event).0 ≡ after
unfolding apply_host_status status_in begun reset_session_ai
status-again event row after (is_past stale) e = ap (λ r. r.0) (status-stale after event stale)
status-again event row after (is_refused other stale reset) e =
    rw reset (ground (arith, other, stale))

-- An event whose sequence the row has passed in the same session, or without a session, changes
-- nothing in the row.
pub apply_network_event-stale :
    (event : Event) (row : Row) → IsStale event row → apply_network_event event row ≡ row
unfolding apply_network_event
apply_network_event-stale event row stale =
    by_kind event (λ apply. apply row ≡ row) (ap (λ r. r.0) (status-stale row event stale))
      (λ A f payload k. observe-stale f payload event row stale) refl event.kind

-- An event that is delivered twice leaves of the row what it leaves of it when delivered once.
pub apply_network_event-twice :
    (event : Event) (row : Row)
    → apply_network_event event (apply_network_event event row) ≡ apply_network_event event row
unfolding apply_network_event
apply_network_event-twice event row =
    by_kind event (λ apply. apply (apply row) ≡ apply row)
      (status-again event row _ (status-Delivered event row) refl)
      (λ A f payload k. observe-twice f payload event row k) refl event.kind
