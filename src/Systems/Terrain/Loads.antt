-- ===== src/Systems/Terrain/Loads.antt =====
-- The blocks of a chunk that a bot loads (applyChunkEvent of systems.go).
use minecraft_orchestrator.Base.{
  ℕ, ◌+◌, ◌%◌, ◌^◌, Bool, true, false, not, ◌||◌, ◌==◌, ==_refl, if_true, if_false, none, some, [],
  ◌∷◌, ◌≡◌, refl, sym, ap, ◌∙◌, arith, update,
}
use minecraft_orchestrator.Model.Types.{ProfileId, BlockPosition}
use minecraft_orchestrator.Model.Chunks.Columns
use minecraft_orchestrator.Model.Chunks.Columns.{DimensionType, ChunkColumn, geometry_matches}
use minecraft_orchestrator.Model.WorldViews.{
  ChunkPosition, WorldView, WorldViews, fresh_view, with_types, begin_attempt, set_dimension_types,
  bind_dimension, dimension_type, current, replace_chunk, find_chunk, chunks_of, next_version,
  put_chunk,
}
use minecraft_orchestrator.Model.WorldViews.Blocks.{chunk_of, local, out_of_dimension, block_state}
use minecraft_orchestrator.Model.WorldViews.Updates.{reversioned, read_stored}
use minecraft_orchestrator.Network.{ChunkLoad}
use minecraft_orchestrator.ChunkDecode.{decoded, decode_column}
use minecraft_orchestrator.ChunkDecode.Geometry.{decode_column-geometry}
use minecraft_orchestrator.Systems.Terrain.{
  attempt_of, active_of, is_known, initialise, prepare, store_chunk, store_decoded,
  apply_chunk_load, overworld,
}

-- The view that a chunk makes of no view, or of one with another geometry.
abbrev first_view : ℕ → ChunkLoad → WorldView
first_view attempt load = record (fresh_view attempt) {
  dimension_types = overworld load ∷ [];
  active_dimension_type = overworld load;
  has_dimension_type_binding = true;
  has_active_dimension_type = true;
}

initialise-view :
    (p : ProfileId) (load : ChunkLoad) (v : WorldViews)
    → initialise p load v p ≡ some (first_view ((attempt_of p v + 1) % 2 ^ 64) load)
unfolding initialise set_dimension_types bind_dimension begin_attempt current with_types
    dimension_type
initialise-view p load v = ground arith

-- The view in which a chunk is stored: the bot's own, of the chunk's geometry, or a first one.
pub data Receives (p : ProfileId) (load : ChunkLoad) (v : WorldViews) : DimensionType → Type 0 where
  first : v p ≡ none → Receives p load v (overworld load)
  again :
      (view : WorldView)
      → v p ≡ some view
      → view.has_active_dimension_type ≡ true
      → view.active_dimension_type.min_y ≡ load.min_y
      → view.active_dimension_type.height ≡ load.height
      → Receives p load v view.active_dimension_type

matching :
    (p : ProfileId) (load : ChunkLoad) (v : WorldViews) (view : WorldView)
    → v p ≡ some view
    → view.active_dimension_type.min_y ≡ load.min_y
    → view.active_dimension_type.height ≡ load.height
    → (not (is_known (v p))
        || not ((active_of p v).min_y == load.min_y)
        || not ((active_of p v).height == load.height))
      ≡ false
unfolding active_of
matching p load v view known bottom height = rw (known, active_of) (ground (arith, bottom, height))

prepared :
    (p : ProfileId) (load : ChunkLoad) (v : WorldViews) (d : DimensionType)
    → Receives p load v d
    → (view : WorldView) × (prepare p load v p ≡ some view)
      × (view.has_active_dimension_type ≡ true)
      × (view.active_dimension_type ≡ d)
unfolding prepare
prepared p load v d (first unknown) = (
  first_view ((attempt_of p v + 1) % 2 ^ 64) load,
  rw unknown (initialise-view p load v),
  refl,
  refl,
)
prepared p load v d (again view known active bottom height) = (
  view,
  ap (λ (w : WorldViews). w p) (if_false _ _ _ (matching p load v view known bottom height))
      ∙ known,
  active,
  refl,
)

current-own :
    (p : ProfileId) (v : WorldViews) (view : WorldView)
    → v p ≡ some view
    → current p view.attempt_id v ≡ some view
unfolding current
current-own p v view known = rw (known, current) (if_true _ _ _ (==_refl view.attempt_id))

-- The view with a column stored at a chunk, in its next version.
abbrev with_column : ChunkPosition → ChunkColumn → WorldView → WorldView
with_column at c view = record view {
  chunks = some (
      put_chunk at (record c { version = next_version (find_chunk at (chunks_of view.chunks)) })
        (chunks_of view.chunks));
}

module _ (p : ProfileId) (load : ChunkLoad) (v : WorldViews) (view : WorldView) (c : ChunkColumn)
    (known : v p ≡ some view) (active : view.has_active_dimension_type ≡ true)
    (fits : geometry_matches c view.active_dimension_type ≡ true) where
  open_guard :
      (not view.has_active_dimension_type || not (geometry_matches c view.active_dimension_type))
      ≡ false
  open_guard = ground (arith, active, fits)

  replace_chunk-stored :
      replace_chunk p view.attempt_id load.position c v
      ≡ (update v p (some (with_column load.position c view)), true)
  unfolding replace_chunk
  replace_chunk-stored = rw (current-own p v view known, replace_chunk) (if_false _ _ _ open_guard)

  store_chunk-stored :
      decode_column load.bytes view.active_dimension_type ≡ decoded c
      → store_chunk p load v ≡ update v p (some (with_column load.position c view))
  unfolding store_chunk
  store_chunk-stored made =
      rw (known, store_chunk)
        (if_false _ _ _ (ap not active)
          ∙ ap (store_decoded p load view v) made
          ∙ ap (λ (r : WorldViews × Bool). r.0) replace_chunk-stored)

readable :
    (view : WorldView) (y : ℕ)
    → view.has_active_dimension_type ≡ true
    → out_of_dimension view.active_dimension_type y ≡ false
    → (not view.has_active_dimension_type || out_of_dimension view.active_dimension_type y) ≡ false
readable view y active inside = ground (arith, active, inside)

-- After a chunk is loaded whose bytes decode, for a bot that has no world, or one of the chunk's
-- geometry, the bot's world has at each place in that chunk the block that the decoded column has.
pub block_state-apply_chunk_load :
    (p : ProfileId) (load : ChunkLoad) (v : WorldViews) (d : DimensionType) (c : ChunkColumn)
    (at : BlockPosition)
    → Receives p load v d
    → decode_column load.bytes d ≡ decoded c
    → chunk_of at ≡ load.position
    → out_of_dimension d at.y ≡ false
    → block_state p at (apply_chunk_load p load v)
      ≡ Columns.block_state c (local at.x) at.y (local at.z)
unfolding apply_chunk_load
block_state-apply_chunk_load p load v d c at receives made chunk inside =
    let (view, ready, active, type) = prepared p load v d receives in
    let u = prepare p load v in
    let decoded_here = ap (decode_column load.bytes) type ∙ made in
    let fits = (decode_column-geometry load.bytes view.active_dimension_type c decoded_here).0 in
    let n : ℕ = next_version (find_chunk load.position (chunks_of view.chunks)) in
    ap (block_state p at) (store_chunk-stored p load u view c ready active fits decoded_here)
    ∙ ap
        (λ (k : ChunkPosition). block_state p at (
          update u p (
            some (record view {
              chunks = some (put_chunk k (record c { version = n }) (chunks_of view.chunks));
            }))))
        (sym chunk)
    ∙ read_stored u p view at (record c { version = n }) ready
        (readable view at.y active
          (ap (λ (t : DimensionType). out_of_dimension t at.y) type ∙ inside))
    ∙ reversioned c n (local at.x) at.y (local at.z)
