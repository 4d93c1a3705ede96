-- ===== src/ChunkDecode.antt =====
-- orchestrator/internal/mc_protocol/chunk/decode.go: the sections of a chunk from their bytes. The
-- contexts that errors are wrapped in are left out.
pub mod Geometry
use minecraft_orchestrator.Base.{
  ℕ, zero, suc, ◌+◌, ◌-◌, ◌*◌, ◌/◌, ◌%◌, ◌^◌, Bool, true, false, not, ◌||◌, ◌&&◌, ◌==◌, ltb, leb,
  if◌then◌else◌, Option, none, some, List, [], ◌∷◌, ◌++◌, length,
}
use minecraft_orchestrator.Model.Chunks.{
  ChunkSection, ChunkError, new_single_value_section, new_indirect_palette_section,
  new_direct_palette_section,
}
use minecraft_orchestrator.Model.Chunks as Section
use minecraft_orchestrator.Model.Chunks.Columns.{ChunkColumn, DimensionType, new_chunk_column}
use minecraft_orchestrator.Wire.VarInt
use minecraft_orchestrator.Wire.VarInt.{read_var_int}
use minecraft_orchestrator.Wire.Payload.{read_int16, read_int64, require_empty}

pub data DecodeError : Type 0 where
  wire_error : VarInt.Error → DecodeError
  chunk_error : ChunkError → DecodeError
  invalid_dimension : DecodeError
  invalid_block_count invalid_state_bits invalid_biome_bits invalid_palette_length : ℕ → DecodeError
  negative_state packed_bits : ℕ → DecodeError

pub data Result {ℓ} (A : Type ℓ) : Type ℓ where
  decoded : A → Result A
  failed : DecodeError → Result A

infixl 5 ◌>>=◌
abbrev pub ◌>>=◌ {ℓ μ} : {B : Type μ} {A : Type ℓ} → Result A → (A → Result B) → Result B
failed why >>= k = failed why
decoded value >>= k = k value

abbrev pub wire {ℓ} : {A : Type ℓ} → VarInt.Result A → Result A
wire (VarInt.err e) = failed (wire_error e)
wire (VarInt.ok a) = decoded a

abbrev pub section {ℓ} : {A : Type ℓ} → Section.Result A → Result A
section (Section.err e) = failed (chunk_error e)
section (Section.ok a) = decoded a

abbrev pub block_entries : ℕ
block_entries = 16 * 16 * 16

abbrev pub biome_entries : ℕ
biome_entries = 4 * 4 * 4

-- A number read, or a section, with the bytes that are left.
abbrev pub Read : Type 0 → Type 0
Read A = List ℕ → Result (A × List ℕ)

unfoldable pub read_byte : Read ℕ
read_byte [] = failed (wire_error VarInt.eof)
read_byte (b ∷ rest) = decoded (b, rest)

unfoldable pub read_state_id : Read ℕ
read_state_id bytes = wire (read_var_int bytes) >>= λ (id, rest).
    if leb (2 ^ 31) id then failed (negative_state id) else decoded (id, rest)

unfoldable pub read_state_ids : ℕ → Read (List ℕ)
read_state_ids zero bytes = decoded ([], bytes)
read_state_ids (suc n) bytes = read_state_id bytes >>= λ (id, rest).
    read_state_ids n rest >>= λ (ids, left). decoded (id ∷ ids, left)

-- A negative count is above the limit too.
unfoldable pub read_palette : ℕ → Read (List ℕ)
read_palette bits bytes = wire (read_var_int bytes) >>= λ (count, rest).
    if count == 0 || ltb (2 ^ bits) count
    then failed (invalid_palette_length count)
    else read_state_ids count rest

unfoldable pub read_words : ℕ → Read (List ℕ)
read_words zero bytes = decoded ([], bytes)
read_words (suc n) bytes = wire (read_int64 bytes) >>= λ (word, rest).
    read_words n rest >>= λ (words, left). decoded (word ∷ words, left)

unfoldable pub read_packed_words : ℕ → ℕ → Read (List ℕ)
read_packed_words entries bits bytes =
    if bits == 0 || ltb 32 bits
    then failed (packed_bits bits)
    else read_words ((entries + 64 / bits - 1) / (64 / bits)) bytes

-- A section that its constructor accepts, with the bytes that are left.
abbrev pub made : Section.Result ChunkSection → List ℕ → Result (ChunkSection × List ℕ)
made r rest = section r >>= λ s. decoded (s, rest)

unfoldable pub read_single : ℕ → Read ChunkSection
read_single non_air bytes =
    read_state_id bytes >>= λ (id, rest). made (new_single_value_section non_air id) rest

unfoldable pub read_indirect : ℕ → ℕ → Read ChunkSection
read_indirect non_air bits bytes = read_palette bits bytes >>= λ (palette, rest).
    read_packed_words block_entries bits rest >>= λ (words, left).
    made (new_indirect_palette_section non_air bits palette (some words)) left

unfoldable pub read_direct : ℕ → ℕ → Read ChunkSection
read_direct non_air bits bytes = read_packed_words block_entries bits bytes >>= λ (words, left).
    made (new_direct_palette_section non_air bits (some words)) left

unfoldable pub read_block_states : ℕ → Read ChunkSection
read_block_states non_air bytes = read_byte bytes >>= λ (bits, rest).
    if bits == 0
    then read_single non_air rest
    else if leb bits 8
    then read_indirect non_air bits rest
    else if ltb 15 bits
    then failed (invalid_state_bits bits)
    else read_direct non_air bits rest

-- The palette of biomes, where there is one, and the words.
unfoldable pub skip_palette : ℕ → List ℕ → Result (List ℕ)
skip_palette bits bytes =
    if leb bits 3
    then (read_palette bits bytes >>= λ (palette, rest). decoded rest)
    else decoded bytes

unfoldable pub skip_biome_states : List ℕ → Result (List ℕ)
skip_biome_states bytes = read_byte bytes >>= λ (bits, rest).
    if bits == 0
    then (read_state_id rest >>= λ (id, left). decoded left)
    else if ltb 8 bits
    then failed (invalid_biome_bits bits)
    else (skip_palette bits rest >>= λ left.
        read_packed_words biome_entries bits left >>= λ (words, end). decoded end)

unfoldable pub read_section : Read ChunkSection
read_section bytes = wire (read_int16 bytes) >>= λ (non_air, rest).
    if leb (2 ^ 15) non_air
    then failed (invalid_block_count non_air)
    else (read_block_states non_air rest >>= λ (s, left).
        skip_biome_states left >>= λ end. decoded (s, end))

unfoldable pub read_sections : ℕ → Read (List ChunkSection)
read_sections zero bytes = decoded ([], bytes)
read_sections (suc n) bytes = read_section bytes >>= λ (s, rest).
    read_sections n rest >>= λ (sections, left). decoded (s ∷ sections, left)

-- A height from 2 ^ 31 on is negative.
unfoldable pub decode_column : List ℕ → DimensionType → Result ChunkColumn
decode_column payload d =
    if not (d.min_y % 16 == 0)
      || (d.height == 0 || leb (2 ^ 31) d.height)
      || not (d.height % 16 == 0)
    then failed invalid_dimension
    else (read_sections (d.height / 16) payload >>= λ (sections, rest).
        wire (require_empty rest) >>= λ done. section (new_chunk_column d.min_y d.height sections))
