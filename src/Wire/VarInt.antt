-- ===== src/Wire/VarInt.antt =====
-- ReadVarInt and WriteVarInt of orchestrator/internal/mc_protocol/wire/codec.go. An int32 is its bit
-- pattern; a reader is the bytes that are left, and a writer takes all it is given.
pub mod RoundTrip
use minecraft_orchestrator.Base.{
  ℕ, zero, suc, ◌+◌, ◌*◌, ◌/◌, ◌%◌, ◌^◌, Bool, ◌==◌, if◌then◌else◌, List, [], ◌∷◌, ◌++◌, bit_and,
  bit_or,
}

pub data Error : Type 0 where
  eof unexpected_eof var_int_too_long : Error
  invalid_packet_length : ℕ → Error
  invalid_uncompressed_length : ℕ → Error
  bad_compressed_data : Error
  decompressed_length : ℕ → ℕ → Error
  packet_too_large frame_too_large : ℕ → Error
  negative_threshold : ℕ → Error
  negative_string_length invalid_boolean invalid_byte_array_length byte_array_too_large : ℕ → Error
  invalid_bit_set_length bit_set_too_large trailing_bytes negative_state_id : ℕ → Error
  block_position_out_of_range : Error

pub data Result {ℓ} (A : Type ℓ) : Type ℓ where
  ok : A → Result A
  err : Error → Result A

infixl 5 ◌>>=◌
abbrev pub ◌>>=◌ {ℓ μ} : {B : Type μ} {A : Type ℓ} → Result A → (A → Result B) → Result B
err stopped >>= _ = err stopped
ok value >>= next = next value

-- `value |= int32(b&0x7f) << int32(7*position)`: the shift drops what passes 32 bits.
abbrev pub add_bits : ℕ → ℕ → ℕ → ℕ
add_bits position value b = bit_or value (bit_and b 0x7f * 2 ^ (7 * position) % 2 ^ 32)

-- The loop over the positions that are left, the first of them given.
unfoldable pub read_from : ℕ → ℕ → ℕ → List ℕ → Result (ℕ × List ℕ)
read_from zero position value bytes = err var_int_too_long
read_from (suc left) position value [] = err eof
read_from (suc left) position value (b ∷ bytes) =
    let more = read_from left (suc position) (add_bits position value b) bytes in
    if bit_and b 0x80 == 0 then ok (add_bits position value b, bytes) else more

unfoldable pub read_var_int : List ℕ → Result (ℕ × List ℕ)
read_var_int bytes = read_from 5 0 0 bytes

-- The loop of WriteVarInt on a uint32, with fuel; five rounds write any.
unfoldable pub write_from : ℕ → ℕ → List ℕ
write_from zero n = []
write_from (suc fuel) n =
    let b = bit_and n 0x7f in
    let rest = bit_or b 0x80 ∷ write_from fuel (n / 2 ^ 7) in
    if n / 2 ^ 7 == 0 then b ∷ [] else rest

unfoldable pub write_var_int : ℕ → List ℕ
write_var_int value = write_from 5 value
