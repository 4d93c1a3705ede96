-- ===== src/Systems/Terrain.antt =====
-- applyChunkEvent, canStandAt and isHazard (systems.go): what the events on chunks and blocks do to
-- the views of the bots' worlds. `none` is a panic, of a block state that is out of range.
pub mod Laws
pub mod Loads
pub mod Destination
use minecraft_orchestrator.Base.{
  ℕ, ◌+◌, ◌-◌, ◌%◌, ◌^◌, Bool, true, false, not, ◌||◌, ◌&&◌, ◌==◌, leb, if◌then◌else◌, Option, none,
  some, List, [], ◌∷◌, map,
}
use minecraft_orchestrator.Model.Types.{ProfileId, BlockPosition}
use minecraft_orchestrator.Model.Chunks.Columns.{DimensionType, ChunkColumn}
use minecraft_orchestrator.Model.WorldViews.{
  WorldView, WorldViews, no_dimension, begin_attempt, set_dimension_types, bind_dimension,
  replace_chunk, unload_chunk,
}
use minecraft_orchestrator.Model.WorldViews.Blocks.{set_block_state, set_block_states, block_state}
use minecraft_orchestrator.Network.{
  Event, EventKind, ChunkLoad, BlockStateChange, event_chunk_load, event_chunk_unload,
  event_block_state_change, event_multi_blocks_updated,
}
use minecraft_orchestrator.ChunkDecode.{Result, decoded, failed, decode_column}

-- The attempt of the profile's view; of no view, it is that of WorldView{} or the zero that the
-- source writes.
unfoldable pub attempt_of : ProfileId → WorldViews → ℕ
attempt_of profile v = elim (v profile) [ none ↦ 0 | some view ↦ view.attempt_id ]

unfoldable pub active_of : ProfileId → WorldViews → DimensionType
active_of profile v = elim (v profile) [
  | none ↦ no_dimension
  | some view ↦ view.active_dimension_type
]

abbrev pub overworld : ChunkLoad → DimensionType
overworld load = record {
  registry_id = 0;
  key = "minecraft:overworld";
  min_y = load.min_y;
  height = load.height;
}

abbrev pub is_known : Option WorldView → Bool
is_known none = false
is_known (some view) = true

-- A new attempt, whose one dimension has the geometry of the chunk.
unfoldable pub initialise : ProfileId → ChunkLoad → WorldViews → WorldViews
unfolding attempt_of
initialise profile load v =
    let attempt = (attempt_of profile v + 1) % 2 ^ 64 in
    let begun = begin_attempt profile attempt v in
    let listed = (set_dimension_types profile attempt (overworld load ∷ []) begun).0 in
    (bind_dimension profile attempt 0 listed).0

unfoldable pub prepare : ProfileId → ChunkLoad → WorldViews → WorldViews
unfolding initialise active_of
prepare profile load v =
    if not (is_known (v profile))
      || not ((active_of profile v).min_y == load.min_y)
      || not ((active_of profile v).height == load.height)
    then initialise profile load v
    else v

abbrev pub store_decoded :
    ProfileId → ChunkLoad → WorldView → WorldViews → Result ChunkColumn → WorldViews
store_decoded profile load view v (failed e) = v
store_decoded profile load view v (decoded column) =
    (replace_chunk profile view.attempt_id load.position column v).0

unfoldable pub store_chunk : ProfileId → ChunkLoad → WorldViews → WorldViews
store_chunk profile load v = elim (v profile) [
  | none ↦ v
  | some view ↦
      if not view.has_active_dimension_type
      then v
      else store_decoded profile load view v (decode_column load.bytes view.active_dimension_type)
]

unfoldable pub apply_chunk_load : ProfileId → ChunkLoad → WorldViews → WorldViews
unfolding prepare store_chunk
apply_chunk_load profile load v = store_chunk profile load (prepare profile load v)

abbrev pub views_of : Option (WorldViews × Bool) → Option WorldViews
views_of none = none
views_of (some (v, answer)) = some v

-- An event without its payload is passed over.
abbrev pub with_payload {ℓ} :
    {A : Type ℓ} → Option A → (A → Option WorldViews) → WorldViews → Option WorldViews
with_payload none f v = some v
with_payload (some a) f v = f a

abbrev pub to_update : BlockStateChange → BlockPosition × ℕ
to_update r = (r.position, r.state_id)

unfoldable pub apply_chunk_kind : EventKind → Event → WorldViews → Option WorldViews
unfolding apply_chunk_load attempt_of
apply_chunk_kind event_chunk_load event v =
    with_payload event.chunk_load (λ load. some (apply_chunk_load event.profile_id load v)) v
apply_chunk_kind event_chunk_unload event v =
    with_payload event.chunk_unload
      (λ at. some (unload_chunk event.profile_id (attempt_of event.profile_id v) at v).0) v
apply_chunk_kind event_block_state_change event v =
    with_payload event.block_state_change
      (λ b.
        views_of (
          set_block_state event.profile_id (attempt_of event.profile_id v) b.position b.state_id v))
      v
apply_chunk_kind event_multi_blocks_updated event v =
    with_payload event.multi_blocks_updated
      (λ m. views_of (
        set_block_states event.profile_id (attempt_of event.profile_id v) (map to_update m.records)
          v))
      v
apply_chunk_kind _ event v = some v

unfoldable pub apply_chunk_event : Event → WorldViews → Option WorldViews
unfolding apply_chunk_kind
apply_chunk_event event v = apply_chunk_kind event.kind event v

unfoldable pub is_hazard : ℕ → Bool
is_hazard id =
    (leb 86 id && leb id 117)
    || (leb 3174 id && leb id 3685)
    || (leb 6728 id && leb id 6743)
    || id == 14643
    || (leb 20675 id && leb id 20742)
    || id == 24487

-- The test of one block; an answer `false`, where nothing is known, fails it.
abbrev pub passes : (ℕ → Bool) → Option (Option ℕ) → Option Bool
passes test none = none
passes test (some none) = some false
passes test (some (some id)) = some (test id)

abbrev pub and_then : Option Bool → Option Bool → Option Bool
and_then none k = none
and_then (some false) k = some false
and_then (some true) k = k

unfoldable pub can_stand_at : ProfileId → ℕ → ℕ → ℕ → WorldViews → Option Bool
unfolding is_hazard
can_stand_at profile x y z v =
    and_then (passes (λ id. id == 0) (block_state profile (record { x = x; y = y; z = z }) v)) (
      and_then
        (passes (λ id. id == 0)
          (block_state profile (record { x = x; y = (y + 1) % 2 ^ 32; z = z }) v))
        (passes (λ id. not (id == 0 || is_hazard id))
          (block_state profile (record { x = x; y = (y + 2 ^ 32 - 1) % 2 ^ 32; z = z }) v)))
