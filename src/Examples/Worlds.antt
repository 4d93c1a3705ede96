-- ===== src/Examples/Worlds.antt =====
-- The theorems on payloads, chunks and the views of worlds at concrete inputs.
use minecraft_orchestrator.Base.{
  ℕ, true, some, List, [], ◌∷◌, ◌++◌, ◌≡◌, refl, subst, arith, length, All, some_injective, ◌^◌,
  ◌<◌, ◌*◌, ◌%◌, update,
}
use minecraft_orchestrator.Wire.VarInt.{ok, read_var_int, read_from, write_var_int, write_from}
use minecraft_orchestrator.Base.Words.{u16_of}
use minecraft_orchestrator.Wire.Packet.{read_full}
use minecraft_orchestrator.Wire.Payload.{
  read_string, write_string, read_byte_array, write_byte_array, read_bit_set, write_bit_set,
  write_words, write_int64, BlockPosition, read_block_position, write_block_position,
  pack_block_position, out_of_range, require_empty, read_int16, sign_extend,
}
use minecraft_orchestrator.Wire.Payload.RoundTrip.{
  read_string-write_string, read_byte_array-write_byte_array, read_bit_set-write_bit_set,
  read_block_position-write_block_position,
}
use minecraft_orchestrator.Model.Chunks.{
  ChunkSection, single, stored, new_single_value_section, states_set, states_get,
}
use minecraft_orchestrator.Model.Chunks.Sections.{IsStates, Represents, Fits, Stores}
use minecraft_orchestrator.Model.Chunks.Writes.{states_set-Stores}
use minecraft_orchestrator.Model.Chunks.Columns
use minecraft_orchestrator.Model.Chunks.Columns.{
  ChunkColumn, DimensionType, outside, offset, geometry_matches, new_chunk_column,
}
use minecraft_orchestrator.Model.Chunks.Columns.Laws.{HasRoom, block_state-set_block_state}
use minecraft_orchestrator.ChunkDecode.{
  decoded, decode_column, read_sections, read_section, read_block_states, read_single,
  read_state_id, skip_biome_states, read_byte,
}
use minecraft_orchestrator.ChunkDecode.Geometry.{IsSection, decode_column-geometry}

read_string-write_string_example :
    read_string (write_string (104 ∷ 105 ∷ []) ++ 7 ∷ []) ≡ ok (104 ∷ 105 ∷ [], 7 ∷ [])
read_string-write_string_example = read_string-write_string (104 ∷ 105 ∷ []) (7 ∷ []) (omega arith)

written_bytes : write_byte_array (9 ∷ 8 ∷ []) ≡ ok (2 ∷ 9 ∷ 8 ∷ [])
unfolding write_byte_array write_var_int write_from
written_bytes = refl

read_byte_array-write_byte_array_example :
    read_byte_array (2 ∷ 9 ∷ 8 ∷ 7 ∷ []) ≡ ok (9 ∷ 8 ∷ [], 7 ∷ [])
read_byte_array-write_byte_array_example =
    read_byte_array-write_byte_array (9 ∷ 8 ∷ []) (2 ∷ 9 ∷ 8 ∷ []) (7 ∷ []) written_bytes

written_words : write_bit_set (5 ∷ []) ≡ ok (1 ∷ 0 ∷ 0 ∷ 0 ∷ 0 ∷ 0 ∷ 0 ∷ 0 ∷ 5 ∷ [])
unfolding write_bit_set write_words write_var_int write_from write_int64
written_words = refl

read_bit_set-write_bit_set_example :
    read_bit_set 3 (1 ∷ 0 ∷ 0 ∷ 0 ∷ 0 ∷ 0 ∷ 0 ∷ 0 ∷ 5 ∷ 6 ∷ []) ≡ ok (5 ∷ [], 6 ∷ [])
read_bit_set-write_bit_set_example =
    read_bit_set-write_bit_set 3 (5 ∷ []) (1 ∷ 0 ∷ 0 ∷ 0 ∷ 0 ∷ 0 ∷ 0 ∷ 0 ∷ 5 ∷ []) (6 ∷ [])
      (omega arith, tt) (omega arith) written_words

-- The position (1, -1, 2).
abbrev below : BlockPosition
below = record { x = 1; y = 0xffffffff; z = 2 }

written_position : write_block_position below ≡ ok (0 ∷ 0 ∷ 0 ∷ 64 ∷ 0 ∷ 0 ∷ 47 ∷ 255 ∷ [])
unfolding write_block_position pack_block_position out_of_range sign_extend write_int64
written_position = refl

read_block_position-write_block_position_example :
    read_block_position (0 ∷ 0 ∷ 0 ∷ 64 ∷ 0 ∷ 0 ∷ 47 ∷ 255 ∷ 3 ∷ []) ≡ ok (below, 3 ∷ [])
read_block_position-write_block_position_example =
    read_block_position-write_block_position below (0 ∷ 0 ∷ 0 ∷ 64 ∷ 0 ∷ 0 ∷ 47 ∷ 255 ∷ []) (3 ∷ [])
      (omega arith, omega arith, omega arith) written_position

states_set-Stores_example : Stores (states_set (single 0) 17 9) (update (λ j. 0) 17 9)
unfolding states_get
states_set-Stores_example =
    states_set-Stores (single 0) (λ j. 0) 17 9 tt (λ j h. refl) tt (omega arith)

abbrev pub air : ChunkColumn
air = record {
  min_y = 0;
  height = 16;
  sections = record { non_air = 0; states = single 0 } ∷ [];
  version = 0;
}

pub air-HasRoom : (v : ℕ) → HasRoom air 2 (λ j. 0) v
unfolding states_get offset
air-HasRoom v s e =
    subst
      (λ (t : ChunkSection).
        IsStates t.states × Represents t.states (λ j. 0) × Fits t.states (λ j. 0) v)
      (some_injective e) (tt, (λ j h. refl), tt)

block_state-set_block_state_example :
    (d : ChunkColumn) × (Columns.set_block_state air 1 2 3 9 ≡ stored d)
    × (Columns.block_state d 1 2 3 ≡ some (some 9))
    × ((x' y' z' : ℕ)
        → y' < 2 ^ 32
        → (1 ≡ x' → 2 ≡ y' → 3 ≡ z' → ⊥)
        → Columns.block_state d x' y' z' ≡ Columns.block_state air x' y' z')
unfolding outside offset
block_state-set_block_state_example =
    block_state-set_block_state air (λ j. 0) 1 2 3 9 refl (omega arith) (omega arith)
      (air-HasRoom 9) refl

abbrev pub flat : DimensionType
flat = record { registry_id = 0; key = "minecraft:overworld"; min_y = 0; height = 16 }

-- One section of a single state, 33, and of a single biome.
abbrev pub one_section : List ℕ
one_section = 16 ∷ 0 ∷ 0 ∷ 33 ∷ 0 ∷ 1 ∷ []

abbrev pub stone : ChunkColumn
stone = record {
  min_y = 0;
  height = 16;
  sections = record { non_air = 4096; states = single 33 } ∷ [];
  version = 0;
}

pub one_section-stone : decode_column one_section flat ≡ decoded stone
unfolding decode_column read_sections read_section read_block_states read_single read_state_id
    skip_biome_states read_byte new_chunk_column require_empty read_var_int read_from read_int16
    sign_extend new_single_value_section read_full u16_of
one_section-stone = refl

decode_column-geometry_example :
    (geometry_matches stone flat ≡ true)
    × (0 % 16 ≡ 0)
    × (length stone.sections * 16 ≡ 16)
    × All IsSection stone.sections
decode_column-geometry_example = decode_column-geometry one_section flat stone one_section-stone
