-- ===== src/Wire/Payload.antt =====
-- The fields of payloads of orchestrator/internal/mc_protocol/wire/payload.go, and WriteString of
-- codec.go. A signed number or a float is its bit pattern, a string its bytes; NBT is left out.
pub mod RoundTrip
use minecraft_orchestrator.Base.{
  ℕ, zero, suc, ◌+◌, ◌-◌, ◌*◌, ◌/◌, ◌%◌, ◌^◌, Bool, true, false, ◌||◌, ◌&&◌, ◌==◌, ltb, leb,
  if◌then◌else◌, List, [], ◌∷◌, ◌++◌, length, bit_or,
}
use minecraft_orchestrator.Base.Words.{put_u16, u16_of, put_u32, u32_of, put_u64, u64_of}
use minecraft_orchestrator.Wire.VarInt.{
  eof, negative_string_length, invalid_boolean, invalid_byte_array_length, byte_array_too_large,
  invalid_bit_set_length, bit_set_too_large, trailing_bytes, block_position_out_of_range, Result,
  ok, err, ◌>>=◌, read_var_int, write_var_int,
}
use minecraft_orchestrator.Wire.Packet.{max_packet_size, read_full}

-- What a reader gives: a value and the bytes that are left.
abbrev pub Read {ℓ} : Type ℓ → Type ℓ
Read A = List ℕ → Result (A × List ℕ)

unfoldable pub read_string : Read (List ℕ)
read_string bytes = read_var_int bytes >>= λ (n, rest).
    if leb (2 ^ 31) n then err (negative_string_length n) else read_full n rest

-- The conversion int32(len(value)) wraps.
unfoldable pub write_string : List ℕ → List ℕ
write_string value = write_var_int (length value % 2 ^ 32) ++ value

unfoldable pub read_bool : Read Bool
read_bool [] = err eof
read_bool (b ∷ rest) = if ltb 1 b then err (invalid_boolean b) else ok (b == 1, rest)

unfoldable pub write_bool : Bool → List ℕ
write_bool value = (if value then 1 else 0) ∷ []

-- A negative length is above the limit too.
unfoldable pub read_byte_array : Read (List ℕ)
read_byte_array bytes = read_var_int bytes >>= λ (n, rest).
    if ltb max_packet_size n then err (invalid_byte_array_length n) else read_full n rest

unfoldable pub write_byte_array : List ℕ → Result (List ℕ)
write_byte_array content =
    if ltb max_packet_size (length content)
    then err (byte_array_too_large (length content))
    else ok (write_var_int (length content) ++ content)

unfoldable pub read_int32 : Read ℕ
read_int32 bytes = read_full 4 bytes >>= λ (b, rest). ok (u32_of b, rest)

unfoldable pub write_int32 : ℕ → List ℕ
write_int32 value = put_u32 value

unfoldable pub read_int16 : Read ℕ
read_int16 bytes = read_full 2 bytes >>= λ (b, rest). ok (u16_of b, rest)

unfoldable pub write_int16 : ℕ → List ℕ
write_int16 value = put_u16 value

unfoldable pub read_int64 : Read ℕ
read_int64 bytes = read_full 8 bytes >>= λ (b, rest). ok (u64_of b, rest)

unfoldable pub write_int64 : ℕ → List ℕ
write_int64 value = put_u64 value

unfoldable pub read_float32 : Read ℕ
read_float32 bytes = read_int32 bytes

unfoldable pub write_float32 : ℕ → List ℕ
write_float32 value = write_int32 value

unfoldable pub read_float64 : Read ℕ
read_float64 bytes = read_int64 bytes

unfoldable pub write_float64 : ℕ → List ℕ
write_float64 value = write_int64 value

unfoldable pub read_uuid : Read (List ℕ)
read_uuid bytes = read_full 16 bytes

unfoldable pub write_uuid : List ℕ → List ℕ
write_uuid uuid = uuid

pub record BlockPosition : Type 0 where
  pub x : ℕ
  pub y : ℕ
  pub z : ℕ

-- `value << shift >> shift` on an int32, where the second shift repeats the sign.
unfoldable pub sign_extend : ℕ → ℕ → ℕ
sign_extend bits value =
    let shifted = value * 2 ^ (32 - bits) % 2 ^ 32 in
    if ltb shifted (2 ^ 31)
    then shifted / 2 ^ (32 - bits)
    else shifted / 2 ^ (32 - bits) + (2 ^ 32 - 2 ^ bits)

unfoldable pub read_block_position : Read BlockPosition
read_block_position bytes = read_int64 bytes >>= λ (packed, rest). ok (
  record {
    x = sign_extend 26 (packed / 2 ^ 38 % 2 ^ 32);
    y = sign_extend 12 (packed % 2 ^ 12 % 2 ^ 32);
    z = sign_extend 26 (packed / 2 ^ 12 % 2 ^ 26 % 2 ^ 32);
  },
  rest,
)

-- `value < -(1 << (bits-1)) || value >= 1 << (bits-1)` on the pattern of an int32.
unfoldable pub out_of_range : ℕ → ℕ → Bool
out_of_range bits value = leb (2 ^ (bits - 1)) value && ltb value (2 ^ 32 - 2 ^ (bits - 1))

unfoldable pub pack_block_position : BlockPosition → ℕ
pack_block_position p =
    bit_or (bit_or (p.x % 2 ^ 26 * 2 ^ 38) (p.z % 2 ^ 26 * 2 ^ 12)) (p.y % 2 ^ 12)

unfoldable pub write_block_position : BlockPosition → Result (List ℕ)
write_block_position p =
    if out_of_range 26 p.x || out_of_range 12 p.y || out_of_range 26 p.z
    then err block_position_out_of_range
    else ok (write_int64 (pack_block_position p))

-- The loop over the words of a set.
unfoldable pub read_words : ℕ → Read (List ℕ)
read_words zero bytes = ok ([], bytes)
read_words (suc n) bytes = read_int64 bytes >>= λ (word, rest).
    read_words n rest >>= λ (words, left). ok (word ∷ words, left)

-- The limit is an int32 that is not negative; a negative length is above it.
unfoldable pub read_bit_set : ℕ → Read (List ℕ)
read_bit_set max_words bytes = read_var_int bytes >>= λ (n, rest).
    if ltb max_words n then err (invalid_bit_set_length n) else read_words n rest

unfoldable pub write_words : List ℕ → List ℕ
write_words [] = []
write_words (word ∷ words) = write_int64 word ++ write_words words

unfoldable pub write_bit_set : List ℕ → Result (List ℕ)
write_bit_set words =
    if ltb (max_packet_size / 8) (length words)
    then err (bit_set_too_large (length words))
    else ok (write_var_int (length words) ++ write_words words)

unfoldable pub require_empty : List ℕ → Result (Unit {0})
require_empty rest = if length rest == 0 then ok tt else err (trailing_bytes (length rest))
