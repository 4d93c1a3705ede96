-- ===== src/HostTransport/Observation/Reports.antt =====
-- What the event of a reality message reports of the outcomes of actions.
use minecraft_orchestrator.Base.{
  Bool, true, false, not, ◌&&◌, ◌==◌, if◌then◌else◌, Option, none, some, List, [], ◌∷◌, ◌++◌,
  length, ◌≡◌, refl, sym, ap, ◌∙◌, Bool-cases, inl, inr, if_true, if_false, append-nil,
  append_assoc,
}
use minecraft_orchestrator.Model.Types.{ProfileId}
use minecraft_orchestrator.Model.Reality.{ActionOutcome}
use minecraft_orchestrator.Network.{Event, RealityState, event_reality_state}
use minecraft_orchestrator.HostTransport.Messages.{HostActionOutcome, HostRealityState}
use minecraft_orchestrator.HostTransport.Observation.{
  unknown_profile, profile_length, Result, ok, err, profile_from, plain_event,
}
use minecraft_orchestrator.HostTransport.Observation.Events.{
  action_outcome, is_failed, record_outcome, record_mapped, record_outcomes, observed,
  reality_state_to_event,
}
use minecraft_orchestrator.HostTransport.Observation.Laws.{guard_ok}

-- The outcomes that are mapped, and the first of them that failed.
abbrev pub cons_mapped : Option ActionOutcome → List ActionOutcome → List ActionOutcome
cons_mapped none ms = ms
cons_mapped (some m) ms = m ∷ ms

unfoldable pub mapped_outcomes : List (Option HostActionOutcome) → List ActionOutcome
mapped_outcomes [] = []
mapped_outcomes (o ∷ os) = cons_mapped (action_outcome o) (mapped_outcomes os)

unfoldable pub first_failed : List ActionOutcome → Option ActionOutcome
first_failed [] = none
first_failed (o ∷ os) = if is_failed o.status then some o else first_failed os

-- What a state reports of the outcome that failed, if any did.
abbrev pub Reports : Option ActionOutcome → RealityState → Type 0
Reports none rs = rs.action_failed ≡ false
Reports (some o) rs =
    (rs.action_failed ≡ true)
    × (rs.failure ≡ o.detail)
    × (rs.action_failure_correlation ≡ o.controller_sequence)

abbrev listed : ActionOutcome → RealityState → RealityState
listed m rs = record rs { action_outcomes = rs.action_outcomes ++ m ∷ [] }

abbrev failing : ActionOutcome → RealityState → RealityState
failing m rs = record (listed m rs) {
  action_failed = true;
  failure = m.detail;
  action_failure_correlation = m.controller_sequence;
}

record_outcome-listed :
    (m : ActionOutcome) (rs : RealityState)
    → (not rs.action_failed && is_failed m.status) ≡ false
    → record_outcome m rs ≡ listed m rs
unfolding record_outcome
record_outcome-listed m rs h = if_false _ _ _ h

record_outcome-failing :
    (m : ActionOutcome) (rs : RealityState)
    → (not rs.action_failed && is_failed m.status) ≡ true
    → record_outcome m rs ≡ failing m rs
unfolding record_outcome
record_outcome-failing m rs h = if_true _ _ _ h

-- With a failure kept, no outcome replaces it.
abbrev Kept : RealityState → List ActionOutcome → RealityState → Type 0
Kept rs ms after =
    (after.action_outcomes ≡ rs.action_outcomes ++ ms)
    × (after.action_failed ≡ true)
    × (after.failure ≡ rs.failure)
    × (after.action_failure_correlation ≡ rs.action_failure_correlation)

Kept-step :
    (o : Option ActionOutcome) (os : List (Option HostActionOutcome)) (rs : RealityState)
    → rs.action_failed ≡ true
    → ((r : RealityState)
        → r.action_failed ≡ true
        → Kept r (mapped_outcomes os) (record_outcomes os r))
    → Kept rs (cons_mapped o (mapped_outcomes os)) (record_outcomes os (record_mapped o rs))
Kept-step none os rs failed rest = rest rs failed
Kept-step (some m) os rs failed rest =
    let (all, still, detail, correlation) = rest (listed m rs) failed in
    rw (record_outcome-listed m rs (ap (λ b. not b && is_failed m.status) failed)) (
      all ∙ append_assoc rs.action_outcomes (m ∷ []) (mapped_outcomes os),
      still,
      detail,
      correlation,
    )

record_outcomes-Kept :
    (os : List (Option HostActionOutcome)) (rs : RealityState)
    → rs.action_failed ≡ true
    → Kept rs (mapped_outcomes os) (record_outcomes os rs)
unfolding record_outcomes mapped_outcomes
record_outcomes-Kept [] rs failed = (sym (append-nil rs.action_outcomes), failed, refl, refl)
record_outcomes-Kept (o ∷ os) rs failed =
    Kept-step (action_outcome o) os rs failed (record_outcomes-Kept os)

abbrev Told : RealityState → List ActionOutcome → RealityState → Type 0
Told rs ms after =
    (after.action_outcomes ≡ rs.action_outcomes ++ ms) × Reports (first_failed ms) after

Told-step :
    (o : Option ActionOutcome) (os : List (Option HostActionOutcome)) (rs : RealityState)
    → rs.action_failed ≡ false
    → ((r : RealityState)
        → r.action_failed ≡ false
        → Told r (mapped_outcomes os) (record_outcomes os r))
    → Told rs (cons_mapped o (mapped_outcomes os)) (record_outcomes os (record_mapped o rs))
unfolding first_failed
Told-step none os rs fine rest = rest rs fine
Told-step (some m) os rs fine rest = elim (Bool-cases (is_failed m.status)) [
  | inl failed ↦
      let (all, still, detail, correlation) = record_outcomes-Kept os (failing m rs) refl in
      rw (record_outcome-failing m rs (ap (λ b. not b && is_failed m.status) fine ∙ failed), failed)
        (
          all ∙ append_assoc rs.action_outcomes (m ∷ []) (mapped_outcomes os),
          (still, detail, correlation),
        )
  | inr passed ↦
      let (all, told) = rest (listed m rs) fine in
      rw (record_outcome-listed m rs (ap (λ b. not b && is_failed m.status) fine ∙ passed), passed)
        (all ∙ append_assoc rs.action_outcomes (m ∷ []) (mapped_outcomes os), told)
]

record_outcomes-Reports :
    (os : List (Option HostActionOutcome)) (rs : RealityState)
    → rs.action_failed ≡ false
    → Told rs (mapped_outcomes os) (record_outcomes os rs)
unfolding record_outcomes mapped_outcomes first_failed
record_outcomes-Reports [] rs fine = (sym (append-nil rs.action_outcomes), fine)
record_outcomes-Reports (o ∷ os) rs fine =
    Told-step (action_outcome o) os rs fine (record_outcomes-Reports os)

-- The event of a reality message has the outcomes that can be mapped, in order, and it reports the
-- first of them that failed, with its detail and its sequence; where none did it reports no failure.
pub reality_state_to_event-Reports :
    (allowed : ProfileId → Bool) (r : HostRealityState) (e : Event)
    → reality_state_to_event allowed (some r) ≡ ok e
    → (rs : RealityState) × (e.reality_state ≡ some rs)
      × (rs.action_outcomes ≡ mapped_outcomes r.action_outcomes)
      × Reports (first_failed (mapped_outcomes r.action_outcomes)) rs
unfolding reality_state_to_event
reality_state_to_event-Reports allowed r e h =
    let profile = profile_from 0 r.profile_id in
    let last : Result Event =
      ok (record (plain_event profile r.session_id r.sequence event_reality_state) {
        reality_state = some (record_outcomes r.action_outcomes (observed r));
      }) in
    let second = if not (allowed profile) then err unknown_profile else last in
    let (sixteen, h1) =
      guard_ok (not (length r.profile_id == 16)) (profile_length (length r.profile_id)) second e
        h in
    let (known, h2) = guard_ok (not (allowed profile)) unknown_profile last e h1 in
    let (all, reports) = record_outcomes-Reports r.action_outcomes (observed r) refl in
    (record_outcomes r.action_outcomes (observed r), sym (ap reality_of h2), all, reports)
  where
    reality_of : Result Event → Option RealityState
    reality_of (ok x) = x.reality_state
    reality_of (err x) = none
