-- ===== src/HostTransport/Observation/Laws.antt =====
-- What a message that passes the transport promises the engine.
use minecraft_orchestrator.Base.{
  ℕ, ◌≤◌, Bool, true, false, not, ◌==◌, if◌then◌else◌, Option, none, some, length, ◌≡◌, ◌≢◌, refl,
  sym, ap, ◌∙◌, arith, inl, inr, ◌⊎◌,
}
use Prim.Native.String.{String}
use text.Mathlib.Text.{◌==◌ as str_eq}
use text.Mathlib.TextEquality.{eq_iff}
use minecraft_orchestrator.Model.Types.{Float32, Float64, ProfileId}
use minecraft_orchestrator.Network.{Event}
use minecraft_orchestrator.HostTransport.Messages.{BotObservation, Payload}
use minecraft_orchestrator.HostTransport.Observation.{
  Error, unknown_profile, empty_session, zero_sequence, profile_length, Result, ok, err,
  profile_from,
}
use minecraft_orchestrator.HostTransport.Observation.Events.{payload_event, observation_to_event}
use minecraft_orchestrator.Systems.Observations.{Row, apply_network_event}
use minecraft_orchestrator.Systems.Observations.Laws.{
  by_kind, Delivered, is_past, is_refused, status-Delivered, observe-Delivered, other_string,
}

payload_event-identity :
    (f : Float64 → Float32) (p : ProfileId) (s : String) (n : ℕ) (given : Payload) (e : Event)
    → payload_event f p s n given ≡ ok e
    → (e.profile_id ≡ p) × (e.remote_session_id ≡ s) × (e.sequence ≡ n)
unfolding payload_event
payload_event-identity f p s n given e h = ground arith

pub guard_ok :
    (b : Bool) (x : Error) (r : Result Event) (e : Event)
    → (if b then err x else r) ≡ ok e
    → (b ≡ false) × (r ≡ ok e)
guard_ok true x r e h = cc
guard_ok false x r e h = (refl, h)

not-not : (b : Bool) → not b ≡ false → b ≡ true
not-not b h = ground arith

-- An observation of which an event comes is of an allowed profile, of a session that is not empty, and
-- has a sequence that is not zero.
pub observation_to_event-guards :
    (to_float32 : Float64 → Float32) (allowed : ProfileId → Bool) (o : Option BotObservation)
    (e : Event)
    → observation_to_event to_float32 allowed o ≡ ok e
    → (allowed e.profile_id ≡ true) × (e.remote_session_id ≢ "") × (e.sequence ≢ 0)
unfolding observation_to_event
observation_to_event-guards f allowed none e h = cc
observation_to_event-guards f allowed (some o) e h =
    let profile = profile_from 0 o.profile_id in
    let last = payload_event f profile o.session_id o.sequence o.payload in
    let third = if o.sequence == 0 then err zero_sequence else last in
    let second = if str_eq o.session_id "" then err empty_session else third in
    let first = if not (allowed profile) then err unknown_profile else second in
    let (sixteen, h1) =
      guard_ok (not (length o.profile_id == 16)) (profile_length (length o.profile_id)) first e h in
    let (known, h2) = guard_ok (not (allowed profile)) unknown_profile second e h1 in
    let (session, h3) = guard_ok (str_eq o.session_id "") empty_session third e h2 in
    let (sequence, h4) = guard_ok (o.sequence == 0) zero_sequence last e h3 in
    let (p, s, n) = payload_event-identity f profile o.session_id o.sequence o.payload e h4 in
    (
      ap allowed p ∙ not-not (allowed profile) known,
      λ empty. ground (arith, session, eq_iff o.session_id "", sym s ∙ empty),
      λ zero_one. ground (arith, sequence, sym n ∙ zero_one),
    )

-- A sequence that is not zero is not refused for good.
past :
    (e : Event) (row after : Row)
    → e.remote_session_id ≢ ""
    → e.sequence ≢ 0
    → Delivered e row after
    → (after.session.remote_session_id ≡ e.remote_session_id)
      × (e.sequence ≤ after.session.last_sequence)
past e row after session sequence (is_past (inl empty, passed)) = absurd (session empty)
past e row after session sequence (is_past (inr same, passed)) = (same, passed)
past e row after session sequence (is_refused other zero_one reset) =
    absurd (ground (arith, sequence, zero_one))

-- What an event of an observation does to a row: nothing, or it takes the row to the event's session
-- and to its sequence at least.
pub observation_to_event-taken :
    (to_float32 : Float64 → Float32) (allowed : ProfileId → Bool) (o : Option BotObservation)
    (e : Event) (row : Row)
    → observation_to_event to_float32 allowed o ≡ ok e
    → (apply_network_event e row ≡ row)
      ⊎ (((apply_network_event e row).session.remote_session_id ≡ e.remote_session_id)
          × (e.sequence ≤ (apply_network_event e row).session.last_sequence))
unfolding apply_network_event
observation_to_event-taken f allowed o e row h =
    let (known, session, sequence) = observation_to_event-guards f allowed o e h in
    by_kind e
      (λ apply.
        (apply row ≡ row)
        ⊎ (((apply row).session.remote_session_id ≡ e.remote_session_id)
            × (e.sequence ≤ (apply row).session.last_sequence)))
      (inr (past e row _ session sequence (status-Delivered e row)))
      (λ A g payload k. inr (
        past e row _ session sequence
          (observe-Delivered g payload e row k (other_string e.remote_session_id "" session))))
      (inl refl) e.kind
