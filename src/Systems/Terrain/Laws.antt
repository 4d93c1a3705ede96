-- ===== src/Systems/Terrain/Laws.antt =====
-- Events on chunks are operations on the views, one after another.
use minecraft_orchestrator.Base.{
  Bool, true, false, if◌then◌else◌, Option, none, some, map, ◌≡◌, ◌≢◌, refl, subst, ◌∙◌, inl, inr,
  some_injective, Option-cases, Bool-cases,
}
use minecraft_orchestrator.Model.Types.{ProfileId}
use minecraft_orchestrator.Model.Chunks.Columns.{ChunkColumn}
use minecraft_orchestrator.Model.WorldViews.{WorldView, WorldViews}
use minecraft_orchestrator.Model.WorldViews.Binding.{
  Step, begun, types_set, bound, replaced, unloaded, block_set, blocks_set, Step-other,
}
use minecraft_orchestrator.Network.{
  Event, EventKind, ChunkLoad, event_chunk_load, event_chunk_unload, event_block_state_change,
  event_multi_blocks_updated,
}
use minecraft_orchestrator.ChunkDecode.{Result, decoded, failed, decode_column}
use minecraft_orchestrator.Systems.Terrain.{
  initialise, prepare, store_chunk, store_decoded, apply_chunk_load, apply_chunk_kind,
  apply_chunk_event, with_payload, views_of, to_update,
}

-- Operations for one profile, one after another.
pub data Steps (p : ProfileId) (v : WorldViews) : WorldViews → Type 0 where
  nothing : Steps p v v
  then_one : {u w : WorldViews} → Steps p v u → Step p u w → Steps p v w

pub Steps-other :
    {p : ProfileId} {v u : WorldViews} → Steps p v u → (q : ProfileId) → p ≢ q → u q ≡ v q
Steps-other nothing q ne = refl
Steps-other (then_one steps step) q ne = Step-other step q ne ∙ Steps-other steps q ne

initialise-Steps :
    (p : ProfileId) (load : ChunkLoad) (v : WorldViews) → Steps p v (initialise p load v)
unfolding initialise
initialise-Steps p load v =
    then_one (then_one (then_one nothing (begun _ v)) (types_set _ _ _)) (bound _ _ _)

prepare-Steps : (p : ProfileId) (load : ChunkLoad) (v : WorldViews) → Steps p v (prepare p load v)
unfolding prepare
prepare-Steps p load v = either _ (initialise-Steps p load v) nothing
  where
    either :
        (b : Bool) {u w : WorldViews} → Steps p v u → Steps p v w → Steps p v (if b then u else w)
    either true s t = s
    either false s t = t

store_decoded-Steps :
    (p : ProfileId) (load : ChunkLoad) (view : WorldView) (v u : WorldViews)
    (r : Result ChunkColumn)
    → Steps p v u
    → Steps p v (store_decoded p load view u r)
store_decoded-Steps p load view v u (failed e) steps = steps
store_decoded-Steps p load view v u (decoded column) steps = then_one steps (replaced _ _ _ u)

store_chunk-Steps :
    (p : ProfileId) (load : ChunkLoad) (v u : WorldViews)
    → Steps p v u
    → Steps p v (store_chunk p load u)
unfolding store_chunk
store_chunk-Steps p load v u steps = elim (Option-cases (u p)) [
  | inl unknown ↦ rw (unknown, store_chunk) steps
  | inr (view, known) ↦ elim (Bool-cases view.has_active_dimension_type) [
    | inl active ↦
        rw (known, active, store_chunk)
          (store_decoded-Steps p load view v u (decode_column load.bytes view.active_dimension_type)
            steps)
    | inr idle ↦ rw (known, idle, store_chunk) steps
  ]
]

-- What an operation that may panic leaves is one step.
block_set-Steps :
    (p : ProfileId) (v u : WorldViews) (o : Option (WorldViews × Bool))
    → ((w : WorldViews) (answer : Bool) → o ≡ some (w, answer) → Step p v w)
    → views_of o ≡ some u
    → Steps p v u
block_set-Steps p v u none step e = cc
block_set-Steps p v u (some (w, answer)) step e =
    then_one nothing (subst (Step p v) (some_injective e) (step w answer refl))

with_payload-Steps :
    {A : Type 0} (p : ProfileId) (o : Option A) (f : A → Option WorldViews) (v u : WorldViews)
    → ((a : A) → f a ≡ some u → Steps p v u)
    → with_payload o f v ≡ some u
    → Steps p v u
with_payload-Steps p none f v u steps e = subst (Steps p v) (some_injective e) nothing
with_payload-Steps p (some a) f v u steps e = steps a e

apply_chunk_kind-Steps :
    (kind : EventKind) (event : Event) (v u : WorldViews)
    → apply_chunk_kind kind event v ≡ some u
    → Steps event.profile_id v u
unfolding apply_chunk_kind apply_chunk_load
apply_chunk_kind-Steps event_chunk_load event v u e =
    with_payload-Steps event.profile_id event.chunk_load _ v u
      (λ load same.
        subst (Steps event.profile_id v) (some_injective same)
          (store_chunk-Steps event.profile_id load v _ (prepare-Steps event.profile_id load v)))
      e
apply_chunk_kind-Steps event_chunk_unload event v u e =
    with_payload-Steps event.profile_id event.chunk_unload _ v u
      (λ at same.
        subst (Steps event.profile_id v) (some_injective same) (then_one nothing (unloaded _ at v)))
      e
apply_chunk_kind-Steps event_block_state_change event v u e =
    with_payload-Steps event.profile_id event.block_state_change _ v u
      (λ b same.
        block_set-Steps event.profile_id v u _
          (λ w answer set. block_set _ b.position b.state_id set) same)
      e
apply_chunk_kind-Steps event_multi_blocks_updated event v u e =
    with_payload-Steps event.profile_id event.multi_blocks_updated _ v u
      (λ m same.
        block_set-Steps event.profile_id v u _
          (λ w answer set. blocks_set _ (map to_update m.records) set) same)
      e
apply_chunk_kind-Steps _ event v u e = subst (Steps event.profile_id v) (some_injective e) nothing

pub apply_chunk_event-Steps :
    (event : Event) (v u : WorldViews)
    → apply_chunk_event event v ≡ some u
    → Steps event.profile_id v u
unfolding apply_chunk_event
apply_chunk_event-Steps event v u e = apply_chunk_kind-Steps event.kind event v u e
