-- ===== src/Systems/Observations/Laws.antt =====
-- What the delivery of an event leaves of a row: a row past the event, or a refusal that repeats.
use minecraft_orchestrator.Base.{
  ◌≤◌, true, false, leb, Option, none, some, inl, inr, ◌⊎◌, ◌≡◌, ◌≢◌, refl, ap, ◌∙◌, arith,
  Bool-cases, if_true,
}
use Prim.Native.String.{String}
use text.Mathlib.Text.{◌==◌ as str_eq}
use text.Mathlib.TextEquality.{eq_iff}
use minecraft_orchestrator.Model.Components.{Session, play_ready}
use minecraft_orchestrator.Network.{
  Event, EventKind, event_host_status, event_host_snapshot, event_host_position, event_host_vitals,
  event_host_effects, event_host_inventory, event_chunk_load, event_chunk_unload,
  event_block_state_change, event_multi_blocks_updated, event_entity_changes, event_reality_state,
}
use minecraft_orchestrator.Systems.Observations.{
  Row, begun, accept_in, accept_host_observation, status_in, apply_host_status, observe, filled,
  apply_kind, reset_session_ai, with_status, apply_vitals, apply_position, apply_host_snapshot,
}

-- What a payload changes is neither the session nor the bot.
abbrev pub Keeps {ℓ} : {A : Type ℓ} → (A → Row → Row) → Type ℓ
Keeps {A} f = (a : A) (row : Row) → ((f a row).session ≡ row.session) × ((f a row).bot ≡ row.bot)

-- An event of the row's session, or of none, that the row has passed.
abbrev pub IsStale : Event → Row → Type 0
IsStale event row =
    ((event.remote_session_id ≡ "") ⊎ (row.session.remote_session_id ≡ event.remote_session_id))
    × (event.sequence ≤ row.session.last_sequence)

pub same_string : (s t : String) → s ≡ t → str_eq s t ≡ true
same_string s t e = (eq_iff s t).1 e

pub other_string : (s t : String) → s ≢ t → str_eq s t ≡ false
other_string s t d = ground (arith, eq_iff s t)

pub status-stale :
    (row : Row) (event : Event) → IsStale event row → apply_host_status row event ≡ (row, false)
unfolding apply_host_status status_in
status-stale row event (inl empty, passed) =
    ground (arith, same_string event.remote_session_id "" empty)
status-stale row event (inr same, passed) =
    ground (arith, same_string row.session.remote_session_id event.remote_session_id same)

pub observe-empty {ℓ} :
    {A : Type ℓ} (f : A → Row → Row) (payload : Option A) (event : Event) (row : Row)
    → str_eq event.remote_session_id "" ≡ true
    → observe f payload event row ≡ row
unfolding observe
observe-empty f payload event row empty = if_true _ _ _ empty

pub observe-stale {ℓ} :
    {A : Type ℓ} (f : A → Row → Row) (payload : Option A) (event : Event) (row : Row)
    → IsStale event row
    → observe f payload event row ≡ row
unfolding observe accept_host_observation accept_in
observe-stale f payload event row (inl empty, passed) =
    observe-empty f payload event row (same_string event.remote_session_id "" empty)
observe-stale f payload event row (inr same, passed) =
    ground (arith, same_string row.session.remote_session_id event.remote_session_id same)

-- An observation of a session leaves the row past it, or is refused as often as it comes.
pub data Delivered (event : Event) (row : Row) (after : Row) : Type 0 where
  is_past : IsStale event after → Delivered event row after
  is_refused :
      str_eq row.session.remote_session_id event.remote_session_id ≡ false
      → leb event.sequence 0 ≡ true
      → after ≡ reset_session_ai row
      → Delivered event row after

pub filled-session {ℓ} :
    {A : Type ℓ} (f : A → Row → Row) (payload : Option A) (row : Row)
    → Keeps f
    → (filled f payload row).session ≡ row.session
filled-session f none row k = refl
filled-session f (some a) row k = (k a row).0

-- The session that an accepted event stores.
abbrev pub accepted : Event → Session → Row → Row
accepted event session row = record row {
  session = record session { last_sequence = event.sequence; phase = play_ready };
}

accepted-IsStale {ℓ} :
    {A : Type ℓ} (f : A → Row → Row) (payload : Option A) (event : Event) (session : Session)
    (row : Row)
    → Keeps f
    → session.remote_session_id ≡ event.remote_session_id
    → IsStale event (filled f payload (accepted event session row))
accepted-IsStale f payload event session row k same = (
  inr (
      ap (λ s. s.remote_session_id) (filled-session f payload (accepted event session row) k)
      ∙ same),
  omega
      (arith, ap (λ s. s.last_sequence) (filled-session f payload (accepted event session row) k)),
)

pub observe-Delivered {ℓ} :
    {A : Type ℓ} (f : A → Row → Row) (payload : Option A) (event : Event) (row : Row)
    → Keeps f
    → str_eq event.remote_session_id "" ≡ false
    → Delivered event row (observe f payload event row)
unfolding observe accept_host_observation accept_in begun reset_session_ai
observe-Delivered f payload event row k session =
    elim (Bool-cases (str_eq row.session.remote_session_id event.remote_session_id)) [
      | inl same ↦ elim (Bool-cases (leb event.sequence row.session.last_sequence)) [
        | inl stale ↦
            rw (session, same, stale)
              (is_past (
                inr ((eq_iff row.session.remote_session_id event.remote_session_id).0 same),
                ground (arith, stale),
              ))
        | inr later ↦
            rw (session, same, later)
              (is_past (
                accepted-IsStale f payload event row.session row k
                  ((eq_iff row.session.remote_session_id event.remote_session_id).0 same)))
      ]
      | inr other ↦ elim (Bool-cases (leb event.sequence 0)) [
        | inl stale ↦ rw (session, other, stale) (is_refused other stale refl)
        | inr later ↦
            rw (session, other, later)
              (is_past (
                accepted-IsStale f payload event (begun event row.session) (reset_session_ai row) k
                  refl))
      ]
    ]

pub with_status-keeps :
    (event : Event) (session : Session)
    → ((with_status event session).remote_session_id ≡ session.remote_session_id)
      × ((with_status event session).last_sequence ≡ session.last_sequence)
unfolding with_status
with_status-keeps event session = ground arith

with_status-IsStale :
    (event : Event) (session : Session) (row : Row)
    → (event.remote_session_id ≡ "") ⊎ (session.remote_session_id ≡ event.remote_session_id)
    → IsStale event (record row {
      session = with_status event (record session { last_sequence = event.sequence });
    })
with_status-IsStale event session row same =
    let kept = with_status-keeps event (record session { last_sequence = event.sequence }) in
    (elim same [ inl empty ↦ inl empty | inr e ↦ inr (kept.0 ∙ e) ], omega (arith, kept.1))

pub status-Delivered :
    (event : Event) (row : Row) → Delivered event row (apply_host_status row event).0
unfolding apply_host_status status_in begun reset_session_ai
status-Delivered event row = elim (Bool-cases (str_eq event.remote_session_id "")) [
  | inl empty ↦ elim (Bool-cases (leb event.sequence row.session.last_sequence)) [
    | inl stale ↦
        rw (empty, stale)
          (is_past (inl ((eq_iff event.remote_session_id "").0 empty), ground (arith, stale)))
    | inr later ↦
        rw (empty, later)
          (is_past (
            with_status-IsStale event row.session row
              (inl ((eq_iff event.remote_session_id "").0 empty))))
  ]
  | inr session ↦ elim (Bool-cases (str_eq row.session.remote_session_id event.remote_session_id)) [
    | inl same ↦
        let equal = (eq_iff row.session.remote_session_id event.remote_session_id).0 same in
        elim (Bool-cases (leb event.sequence row.session.last_sequence)) [
          | inl stale ↦ rw (session, same, stale) (is_past (inr equal, ground (arith, stale)))
          | inr later ↦
              rw (session, same, later)
                (is_past (with_status-IsStale event row.session row (inr equal)))
        ]
    | inr other ↦ elim (Bool-cases (leb event.sequence 0)) [
      | inl stale ↦ rw (session, other, stale) (is_refused other stale refl)
      | inr later ↦
          rw (session, other, later)
            (is_past (
              with_status-IsStale event (begun event row.session) (reset_session_ai row)
                (inr refl)))
    ]
  ]
]

-- What holds of the status, of each observation and of no change holds of an event of any kind.
pub by_kind {ℓ} :
    (event : Event) (P : (Row → Row) → Type ℓ)
    → P (λ r. (apply_host_status r event).0)
    → ((A : Type 0) (f : A → Row → Row) (payload : Option A)
        → Keeps f
        → P (λ r. observe f payload event r))
    → P (λ r. r)
    → (kind : EventKind) → P (λ r. apply_kind kind event r)
unfolding apply_kind apply_host_snapshot apply_position apply_vitals
by_kind event P status observed same event_host_status = status
by_kind event P status observed same event_host_snapshot =
    observed _ apply_host_snapshot event.snapshot (λ a r. (refl, refl))
by_kind event P status observed same event_host_position =
    observed _ apply_position event.position (λ a r. (refl, refl))
by_kind event P status observed same event_host_vitals =
    observed _ apply_vitals event.vitals (λ a r. (refl, refl))
by_kind event P status observed same event_host_effects =
    observed _ _ event.effects (λ a r. (refl, refl))
by_kind event P status observed same event_host_inventory =
    observed _ _ event.inventory (λ a r. (refl, refl))
by_kind event P status observed same event_chunk_load = same
by_kind event P status observed same event_chunk_unload = same
by_kind event P status observed same event_block_state_change = same
by_kind event P status observed same event_multi_blocks_updated = same
by_kind event P status observed same event_entity_changes = same
by_kind event P status observed same event_reality_state = same
