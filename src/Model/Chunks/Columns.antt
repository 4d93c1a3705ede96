-- ===== src/Model/Chunks/Columns.antt =====
-- The columns of orchestrator/internal/engine/model/chunks.go. An int32 is its bit pattern, so that a
-- negative one is from 2 ^ 31 on; `none` is the panic on an index out of range.
pub mod Laws
use minecraft_orchestrator.Base.{
  ℕ, zero, suc, ◌+◌, ◌-◌, ◌*◌, ◌/◌, ◌%◌, ◌^◌, Bool, true, false, not, ◌||◌, ◌&&◌, ◌==◌, ltb, leb,
  if◌then◌else◌, Option, none, some, List, [], ◌∷◌, length, get_elem?, set, bit_or,
}
use minecraft_orchestrator.Model.Chunks.{
  ChunkSection, BlockStates, ChunkError, invalid_geometry, Result, ok, err, bind, states_get,
  Written, panicked, refused, stored, states_set,
}

pub record ChunkColumn : Type 0 where
  pub min_y : ℕ
  pub height : ℕ
  pub sections : List ChunkSection
  pub version : ℕ

pub record DimensionType : Type 0 where
  pub registry_id : ℕ
  pub key : Prim.Native.String.String
  pub min_y : ℕ
  pub height : ℕ

-- A section always has block states here, so the test for nil is left out.
unfoldable pub new_chunk_column : ℕ → ℕ → List ChunkSection → Result ChunkColumn
new_chunk_column min_y height sections =
    if not (min_y % 16 == 0)
      || (height == 0 || leb (2 ^ 31) height)
      || not (height % 16 == 0)
      || not (length sections == height / 16)
    then err invalid_geometry
    else ok (record { min_y = min_y; height = height; sections = sections; version = 0 })

unfoldable pub geometry_matches : ChunkColumn → DimensionType → Bool
geometry_matches c dimension = c.min_y == dimension.min_y && c.height == dimension.height

-- `y - c.minY`, which wraps.
unfoldable pub offset : ChunkColumn → ℕ → ℕ
offset c y = (y + 2 ^ 32 - c.min_y) % 2 ^ 32

-- The guard of both operations; sectionIndex is negative where the offset is.
unfoldable pub outside : ChunkColumn → ℕ → ℕ → ℕ → Bool
outside c x y z =
    leb 16 x || leb 16 z || leb (2 ^ 31) (offset c y) || leb (length c.sections) (offset c y / 16)

-- `localY<<8 | localZ<<4 | localX`, with `localY` the low four bits of `y`.
unfoldable pub state_index : ℕ → ℕ → ℕ → ℕ
state_index x y z = bit_or (bit_or (y % 16 * 2 ^ 8) (z * 2 ^ 4)) x

-- `some none` is the answer `false`.
unfoldable pub block_state : ChunkColumn → ℕ → ℕ → ℕ → Option (Option ℕ)
block_state c x y z =
    if outside c x y z
    then some none
    else bind (get_elem? c.sections (offset c y / 16))
        λ section. bind (states_get section.states (state_index x y z)) λ state. some (some state)

-- The count of blocks that are not air, a uint16.
unfoldable pub next_non_air : ℕ → ℕ → ℕ → ℕ
next_non_air old new non_air =
    if old == 0 && not (new == 0)
    then (non_air + 1) % 2 ^ 16
    else if not (old == 0) && new == 0
    then (non_air + 2 ^ 16 - 1) % 2 ^ 16
    else non_air

abbrev pub store_section :
    ChunkColumn → ℕ → ChunkSection → ℕ → ℕ → Written BlockStates → Written ChunkColumn
store_section c k section old new panicked = panicked
store_section c k section old new refused = refused
store_section c k section old new (stored states) = stored (record c {
  sections =
      set c.sections k (record { non_air = next_non_air old new section.non_air; states = states });
})

abbrev pub set_over : ChunkColumn → ℕ → ℕ → ℕ → ChunkSection → Option ℕ → Written ChunkColumn
set_over c k i state section none = panicked
set_over c k i state section (some old) =
    store_section c k section old state (states_set section.states i state)

abbrev pub set_in_section : ChunkColumn → ℕ → ℕ → ℕ → Option ChunkSection → Written ChunkColumn
set_in_section c k i state none = panicked
set_in_section c k i state (some section) =
    set_over c k i state section (states_get section.states i)

unfoldable pub set_block_state : ChunkColumn → ℕ → ℕ → ℕ → ℕ → Written ChunkColumn
set_block_state c x y z state =
    let k = offset c y / 16 in
    if outside c x y z
    then refused
    else set_in_section c k (state_index x y z) state (get_elem? c.sections k)

-- The sum is a uint32.
unfoldable pub non_air_blocks : List ChunkSection → ℕ → ℕ
non_air_blocks [] total = total
non_air_blocks (s ∷ sections) total = non_air_blocks sections ((total + s.non_air) % 2 ^ 32)
