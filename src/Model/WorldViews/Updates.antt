-- ===== src/Model/WorldViews/Updates.antt =====
-- Blocks that are set and read in a bot's world (resources.go).
use minecraft_orchestrator.Base.{
  ℕ, ◌+◌, ◌-◌, ◌*◌, ◌%◌, ◌^◌, ◌<◌, true, false, not, ◌||◌, ◌==◌, ==_iff, if◌then◌else◌, Option,
  none, some, [], ◌∷◌, update, update_self, ◌≡◌, ◌≢◌, refl, sym, ap, ◌∙◌, inl, inr, arith,
  Bool-cases, if_false,
}
use minecraft_orchestrator.Model.Types.{ProfileId, BlockPosition}
use minecraft_orchestrator.Model.Chunks.{stored}
use minecraft_orchestrator.Model.Chunks.Columns
use minecraft_orchestrator.Model.Chunks.Columns.{ChunkColumn, outside, offset}
use minecraft_orchestrator.Model.Chunks.Columns.Laws.{HasRoom, block_state-set_block_state}
use minecraft_orchestrator.Model.WorldViews.{
  ChunkPosition, Chunks, WorldView, WorldViews, same_chunk, find_chunk, put_chunk, chunks_of,
  current,
}
use minecraft_orchestrator.Model.WorldViews.Blocks.{
  floor_chunk, chunk_of, local, out_of_dimension, set_in_column, set_block_state, state_in,
  block_state,
}

same_chunk_iff : (a b : ChunkPosition) → same_chunk a b ≡ true → a ≡ b
unfolding same_chunk
same_chunk_iff a b h = ground arith

pub same_chunk_refl : (a : ChunkPosition) → same_chunk a a ≡ true
unfolding same_chunk
same_chunk_refl a = ground arith

pub find_chunk-put_chunk :
    (at at' : ChunkPosition) (c : ChunkColumn) (chunks : Chunks)
    → find_chunk at' (put_chunk at c chunks)
      ≡ (if same_chunk at at' then some c else find_chunk at' chunks)
unfolding find_chunk put_chunk same_chunk
find_chunk-put_chunk at at' c [] = ground arith
find_chunk-put_chunk at at' c ((p, d) ∷ chunks) =
    ground (arith, find_chunk-put_chunk at at' c chunks)

-- The version of a column has no part in what it holds.
pub reversioned :
    (c : ChunkColumn) (n x y z : ℕ)
    → Columns.block_state (record c { version = n }) x y z ≡ Columns.block_state c x y z
unfolding Columns.block_state Columns.outside Columns.offset
reversioned c n x y z = refl

local_injective :
    (v w : ℕ) → v < 2 ^ 32 → w < 2 ^ 32 → floor_chunk v ≡ floor_chunk w → local v ≡ local w → v ≡ w
unfolding local
local_injective v w hv hw chunk e =
    let t : ℕ = floor_chunk w * 16 % 2 ^ 32 in
    let same : (v + 2 ^ 32 - t) % 2 ^ 32 ≡ (w + 2 ^ 32 - t) % 2 ^ 32 =
      ap (λ (k : ℕ). (v + 2 ^ 32 - k * 16 % 2 ^ 32) % 2 ^ 32) (sym chunk) ∙ e in
    omega arith

abbrev pub stored_view : WorldView → BlockPosition → ChunkColumn → WorldView
stored_view view at c = record view {
  chunks = some (put_chunk (chunk_of at) c (chunks_of view.chunks));
}

module _ (v : WorldViews) (p : ProfileId) (view : WorldView) (at : BlockPosition) (c : ChunkColumn)
    (found : v p ≡ some view)
    (active : (not view.has_active_dimension_type
        || out_of_dimension view.active_dimension_type at.y)
      ≡ false) where
  pub read_stored :
      block_state p at (update v p (some (stored_view view at c)))
      ≡ Columns.block_state c (local at.x) at.y (local at.z)
  unfolding block_state
  read_stored =
      rw (update_self v p (some (stored_view view at c)), block_state)
        (if_false _ _ _ active
          ∙ rw (
            find_chunk-put_chunk (chunk_of at) (chunk_of at) c (chunks_of view.chunks),
            same_chunk_refl (chunk_of at),
          ))

  -- At another place the two stores agree if the two columns do.
  read_elsewhere :
      (d : ChunkColumn) (at' : BlockPosition)
      → find_chunk (chunk_of at) (chunks_of view.chunks) ≡ some d
      → (chunk_of at ≡ chunk_of at'
          → Columns.block_state c (local at'.x) at'.y (local at'.z)
            ≡ Columns.block_state d (local at'.x) at'.y (local at'.z))
      → block_state p at' (update v p (some (stored_view view at c))) ≡ block_state p at' v
  unfolding block_state
  read_elsewhere d at' before agree =
      rw (update_self v p (some (stored_view view at c)), found, block_state)
        (ap
          (λ (t : Option (Option ℕ)).
            if not view.has_active_dimension_type
              || out_of_dimension view.active_dimension_type at'.y
            then some none
            else t)
          same)
    where
      same :
          state_in at'
            (find_chunk (chunk_of at') (put_chunk (chunk_of at) c (chunks_of view.chunks)))
          ≡ state_in at' (find_chunk (chunk_of at') (chunks_of view.chunks))
      same = elim (Bool-cases (same_chunk (chunk_of at) (chunk_of at'))) [
        | inl e ↦
            let one : chunk_of at ≡ chunk_of at' = same_chunk_iff (chunk_of at) (chunk_of at') e in
            rw (find_chunk-put_chunk (chunk_of at) (chunk_of at') c (chunks_of view.chunks), e)
              (agree one
                ∙ sym (
                    ap (λ (o : Option ChunkColumn). state_in at' o)
                      (ap (λ (k : ChunkPosition). find_chunk k (chunks_of view.chunks)) (sym one)
                        ∙ before)))
        | inr e ↦
            rw (find_chunk-put_chunk (chunk_of at) (chunk_of at') c (chunks_of view.chunks), e)
      ]

-- A block that lies in a loaded column of the attempt's view.
pub record InWorld (v : WorldViews) (p : ProfileId) (attempt : ℕ) (at : BlockPosition)
    (view : WorldView) (c : ChunkColumn) : Type 0 where
  pub found : v p ≡ some view
  pub of_attempt : view.attempt_id ≡ attempt
  pub active :
      (not view.has_active_dimension_type || out_of_dimension view.active_dimension_type at.y)
      ≡ false
  pub column : find_chunk (chunk_of at) (chunks_of view.chunks) ≡ some c
  pub aligned : c.min_y % 16 ≡ 0
  pub ranges : (c.min_y < 2 ^ 32) × (at.x < 2 ^ 32) × (at.y < 2 ^ 32) × (at.z < 2 ^ 32)
  pub inside : outside c (local at.x) at.y (local at.z) ≡ false

set_block_state-stored :
    (v : WorldViews) (p : ProfileId) (attempt : ℕ) (at : BlockPosition) (state : ℕ)
    (view : WorldView) (c d : ChunkColumn)
    → InWorld v p attempt at view c
    → set_in_column at state c ≡ stored d
    → set_block_state p attempt at state v ≡ some (update v p (some (stored_view view at d)), true)
unfolding set_block_state current
set_block_state-stored v p attempt at state view c d w wrote =
    let attempt_same : (view.attempt_id == attempt) ≡ true = (==_iff _ _).1 w.of_attempt in
    rw (w.found, current, attempt_same, set_block_state)
      (if_false _ _ _ w.active ∙ rw (w.column, wrote))

-- A block in a loaded, aligned column of a bot's current attempt is set when the section it lies in
-- reads as a function of its 4096 indices (its packed indices are within its palette) and has room for
-- the state; the bot's world then has the state at its place, and at every other place what it had
-- before.
pub block_state-set_block_state_view :
    (v : WorldViews) (p : ProfileId) (attempt : ℕ) (at : BlockPosition) (state : ℕ)
    (view : WorldView) (c : ChunkColumn) (f : ℕ → ℕ)
    → InWorld v p attempt at view c
    → HasRoom c at.y f state
    → (u : WorldViews) × (set_block_state p attempt at state v ≡ some (u, true))
      × (block_state p at u ≡ some (some state))
      × ((at' : BlockPosition)
          → (at'.x < 2 ^ 32) × (at'.y < 2 ^ 32) × (at'.z < 2 ^ 32)
          → at ≢ at'
          → block_state p at' u ≡ block_state p at' v)
unfolding set_in_column chunk_of
block_state-set_block_state_view v p attempt at state view c f w room =
    let (d, wrote, here, elsewhere) =
      block_state-set_block_state c f (local at.x) at.y (local at.z) state w.aligned w.ranges.0
        w.ranges.2 room w.inside in
    let n : ℕ = (d.version + 1) % 2 ^ 64 in
    let d' : ChunkColumn = record d { version = n } in
    (
      update v p (some (stored_view view at d')),
      set_block_state-stored v p attempt at state view c d' w (rw wrote),
      read_stored v p view at d' w.found w.active
          ∙ reversioned d n (local at.x) at.y (local at.z)
          ∙ here,
      λ at' (hx, hy, hz) ne. read_elsewhere v p view at d' w.found w.active c at' w.column λ same.
          reversioned d n (local at'.x) at'.y (local at'.z)
          ∙ elsewhere (local at'.x) at'.y (local at'.z) hy λ ex ey ez. ne (
              position_path
                (local_injective at.x at'.x w.ranges.1 hx (ap (λ (k : ChunkPosition). k.x) same) ex)
                ey
                (local_injective at.z at'.z w.ranges.3 hz (ap (λ (k : ChunkPosition). k.z) same)
                  ez)),
    )
  where
    position_path : {a b : BlockPosition} → a.x ≡ b.x → a.y ≡ b.y → a.z ≡ b.z → a ≡ b
    position_path x y z = λ i. record { x = x i; y = y i; z = z i }
