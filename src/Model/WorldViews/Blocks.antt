-- ===== src/Model/WorldViews/Blocks.antt =====
-- SetBlockState, SetBlockStates and BlockState of orchestrator/internal/engine/model/resources.go. A
-- write that panics in its column is `none`.
use minecraft_orchestrator.Base.{
  ℕ, ◌+◌, ◌-◌, ◌*◌, ◌/◌, ◌%◌, ◌^◌, Bool, not, ◌||◌, ltb, if◌then◌else◌, Option, none, some, List,
  [], ◌∷◌,
}
use minecraft_orchestrator.Model.Types.{ProfileId, BlockPosition}
use minecraft_orchestrator.Model.Chunks.{Written, panicked, refused, stored}
use minecraft_orchestrator.Model.Chunks.Columns
use minecraft_orchestrator.Model.Chunks.Columns.{ChunkColumn, DimensionType}
use minecraft_orchestrator.Model.WorldViews.{
  ChunkPosition, Chunks, WorldView, WorldViews, find_chunk, put_chunk, chunks_of, int32_lt, current,
  unchanged, save,
}

-- `/` on an int32 rounds towards zero.
unfoldable pub int32_div_16 : ℕ → ℕ
int32_div_16 v = if ltb v (2 ^ 31) then v / 16 else (2 ^ 32 - (2 ^ 32 - v) / 16) % 2 ^ 32

unfoldable pub floor_chunk : ℕ → ℕ
unfolding int32_div_16
floor_chunk v = if ltb v (2 ^ 31) then int32_div_16 v else int32_div_16 ((v + 2 ^ 32 - 15) % 2 ^ 32)

unfoldable pub chunk_of : BlockPosition → ChunkPosition
unfolding floor_chunk
chunk_of at = record { x = floor_chunk at.x; z = floor_chunk at.z }

-- `position.X - chunk.X*chunkWidth`, which wraps.
unfoldable pub local : ℕ → ℕ
unfolding floor_chunk
local v = (v + 2 ^ 32 - floor_chunk v * 16 % 2 ^ 32) % 2 ^ 32

-- Whether a height is outside the active dimension, whose upper end wraps.
unfoldable pub out_of_dimension : DimensionType → ℕ → Bool
unfolding int32_lt
out_of_dimension d y = int32_lt y d.min_y || not (int32_lt y ((d.min_y + d.height) % 2 ^ 32))

-- setBlockState at the place of a block in its column, with the next version.
abbrev pub bumped : Written ChunkColumn → Written ChunkColumn
bumped panicked = panicked
bumped refused = refused
bumped (stored c) = stored (record c { version = (c.version + 1) % 2 ^ 64 })

unfoldable pub set_in_column : BlockPosition → ℕ → ChunkColumn → Written ChunkColumn
set_in_column at state column =
    bumped (Columns.set_block_state column (local at.x) at.y (local at.z) state)

-- What is done with the column of a block: `none` is a panic.
abbrev pub save_column :
    ProfileId
    → ChunkPosition
    → WorldView
    → WorldViews
    → Written ChunkColumn
    → Option (WorldViews × Bool)
save_column profile at view v panicked = none
save_column profile at view v refused = some (unchanged v)
save_column profile at view v (stored c) =
    some (save profile (record view { chunks = some (put_chunk at c (chunks_of view.chunks)) }) v)

abbrev pub set_found :
    ProfileId
    → BlockPosition
    → ℕ
    → WorldView
    → WorldViews
    → Option ChunkColumn
    → Option (WorldViews × Bool)
set_found profile at state view v none = some (unchanged v)
set_found profile at state view v (some column) =
    save_column profile (chunk_of at) view v (set_in_column at state column)

unfoldable pub set_block_state :
    ProfileId → ℕ → BlockPosition → ℕ → WorldViews → Option (WorldViews × Bool)
set_block_state profile attempt at state v = elim (current profile attempt v) [
  | none ↦ some (unchanged v)
  | some view ↦
      if not view.has_active_dimension_type || out_of_dimension view.active_dimension_type at.y
      then some (unchanged v)
      else set_found profile at state view v (find_chunk (chunk_of at) (chunks_of view.chunks))
]

-- One round of the loop of SetBlockStates; `none` is a panic.
abbrev pub put_written : ChunkPosition → Chunks → Written ChunkColumn → Option Chunks
put_written at chunks panicked = none
put_written at chunks refused = some chunks
put_written at chunks (stored c) = some (put_chunk at c chunks)

abbrev pub update_found : BlockPosition → ℕ → Chunks → Option ChunkColumn → Option Chunks
update_found at state chunks none = some chunks
update_found at state chunks (some column) =
    put_written (chunk_of at) chunks (set_in_column at state column)

unfoldable pub update_block : DimensionType → BlockPosition → ℕ → Chunks → Option Chunks
update_block d at state chunks =
    if out_of_dimension d at.y
    then some chunks
    else update_found at state chunks (find_chunk (chunk_of at) chunks)

abbrev pub then_chunks {ℓ} : {A : Type ℓ} → Option Chunks → (Chunks → Option A) → Option A
then_chunks none f = none
then_chunks (some chunks) f = f chunks

unfoldable pub update_blocks : DimensionType → List (BlockPosition × ℕ) → Chunks → Option Chunks
update_blocks d [] chunks = some chunks
update_blocks d ((at, state) ∷ updates) chunks =
    then_chunks (update_block d at state chunks) (λ after. update_blocks d updates after)

abbrev pub set_all :
    ProfileId
    → List (BlockPosition × ℕ)
    → WorldView
    → WorldViews
    → Option Chunks
    → Option (WorldViews × Bool)
set_all profile updates view v none = some (unchanged v)
set_all profile updates view v (some chunks) =
    then_chunks (update_blocks view.active_dimension_type updates chunks)
      (λ after. some (save profile (record view { chunks = some after }) v))

unfoldable pub set_block_states :
    ProfileId → ℕ → List (BlockPosition × ℕ) → WorldViews → Option (WorldViews × Bool)
set_block_states profile attempt updates v = elim (current profile attempt v) [
  | none ↦ some (unchanged v)
  | some view ↦
      if view.has_active_dimension_type
      then set_all profile updates view v view.chunks
      else some (unchanged v)
]

abbrev pub state_in : BlockPosition → Option ChunkColumn → Option (Option ℕ)
state_in at none = some none
state_in at (some column) = Columns.block_state column (local at.x) at.y (local at.z)

-- `some none` is the answer `false`.
unfoldable pub block_state : ProfileId → BlockPosition → WorldViews → Option (Option ℕ)
block_state profile at v = elim (v profile) [
  | none ↦ some none
  | some view ↦
      if not view.has_active_dimension_type || out_of_dimension view.active_dimension_type at.y
      then some none
      else state_in at (find_chunk (chunk_of at) (chunks_of view.chunks))
]
