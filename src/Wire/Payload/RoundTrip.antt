-- ===== src/Wire/Payload/RoundTrip.antt =====
-- Fields of payloads, written and read, whatever follows them (payload.go).
use minecraft_orchestrator.Base.{
  ℕ, ◌+◌, ◌*◌, ◌/◌, ◌%◌, ◌^◌, ◌≤◌, ◌<◌, Bool, false, ◌||◌, ltb, leb, List, [], ◌∷◌, ◌++◌, length,
  All, ◌≡◌, refl, subst, ◌∙◌, inl, inr, arith, Bool-cases, append_assoc, bit_or, bit_or-high,
  bit_or_comm, ltb-false→le, le→ltb,
}
use minecraft_orchestrator.Base.Words.{put_u64, u64_of-put_u64}
use minecraft_orchestrator.Wire.VarInt.{Error, ok, err}
use minecraft_orchestrator.Wire.VarInt.RoundTrip.{read_var_int-write_var_int}
use minecraft_orchestrator.Wire.Packet.{max_packet_size}
use minecraft_orchestrator.Wire.Packet.RoundTrip.{read_full-append}
use minecraft_orchestrator.Wire.Payload.{
  read_string, write_string, read_byte_array, write_byte_array, read_int64, write_int64,
  BlockPosition, sign_extend, read_block_position, out_of_range, pack_block_position,
  write_block_position, read_words, write_words, read_bit_set, write_bit_set,
}

ok_path {ℓ} : {A : Type ℓ} {a b : A} → ok a ≡ ok b → a ≡ b
ok_path h = cc

err_ok {ℓ} : {A : Type ℓ} {x : Error} {b : A} → err x ≡ ok b → ⊥
err_ok h = cc

pub read_int64-write_int64 :
    (n : ℕ) (rest : List ℕ) → n < 2 ^ 64 → read_int64 (write_int64 n ++ rest) ≡ ok (n, rest)
unfolding read_int64 write_int64
read_int64-write_int64 n rest h = rw (read_full-append (put_u64 n) rest, u64_of-put_u64 n h)

-- A string of fewer than 2 ^ 31 bytes is read back, and the reader is left with what follows it.
pub read_string-write_string :
    (s rest : List ℕ) → length s < 2 ^ 31 → read_string (write_string s ++ rest) ≡ ok (s, rest)
unfolding read_string write_string
read_string-write_string s rest h =
    let whole : length s % 2 ^ 32 ≡ length s = omega arith in
    let positive : leb (2 ^ 31) (length s) ≡ false = ground arith in
    rw (
      whole,
      append_assoc,
      read_var_int-write_var_int (length s) (s ++ rest) (omega arith),
      positive,
      read_full-append s rest,
    )

-- A byte array that is written, which is one of at most 2 ^ 23 bytes, is read back.
pub read_byte_array-write_byte_array :
    (s bytes rest : List ℕ)
    → write_byte_array s ≡ ok bytes
    → read_byte_array (bytes ++ rest) ≡ ok (s, rest)
unfolding read_byte_array write_byte_array
read_byte_array-write_byte_array s bytes rest e =
    elim (Bool-cases (ltb max_packet_size (length s))) [
      | inl over ↦ absurd (err_ok (rw over at e))
      | inr fits ↦
          let small : length s ≤ max_packet_size = ltb-false→le _ _ fits in
          subst (λ bs. read_byte_array (bs ++ rest) ≡ ok (s, rest)) (ok_path (rw fits at e))
            (rw (
              append_assoc,
              read_var_int-write_var_int (length s) (s ++ rest) (omega arith),
              fits,
              read_full-append s rest,
            ))
    ]

read_words-write_words :
    (ws rest : List ℕ)
    → All (λ w. w < 2 ^ 64) ws
    → read_words (length ws) (write_words ws ++ rest) ≡ ok (ws, rest)
unfolding read_words write_words
read_words-write_words [] rest h = refl
read_words-write_words (w ∷ ws) rest h = rw (
  append_assoc,
  read_int64-write_int64 w (write_words ws ++ rest) h.0,
  read_words-write_words ws rest h.1,
)

-- A bit set of 64-bit words that is written is read back under any limit that admits its words.
pub read_bit_set-write_bit_set :
    (max_words : ℕ) (ws bytes rest : List ℕ)
    → All (λ w. w < 2 ^ 64) ws
    → length ws ≤ max_words
    → write_bit_set ws ≡ ok bytes
    → read_bit_set max_words (bytes ++ rest) ≡ ok (ws, rest)
unfolding read_bit_set write_bit_set
read_bit_set-write_bit_set max_words ws bytes rest words fits e =
    elim (Bool-cases (ltb (max_packet_size / 8) (length ws))) [
      | inl over ↦ absurd (err_ok (rw over at e))
      | inr few ↦
          let small : length ws ≤ max_packet_size / 8 = ltb-false→le _ _ few in
          let admitted : ltb max_words (length ws) ≡ false = le→ltb _ _ fits in
          subst (λ bs. read_bit_set max_words (bs ++ rest) ≡ ok (ws, rest)) (ok_path (rw few at e))
            (rw (
              append_assoc,
              read_var_int-write_var_int (length ws) (write_words ws ++ rest) (omega arith),
              admitted,
              read_words-write_words ws rest words,
            ))
    ]

-- The three fields do not meet, so the packed position is their sum.
pack_block_position-sum :
    (p : BlockPosition)
    → pack_block_position p ≡ p.y % 2 ^ 12 + (p.z % 2 ^ 26 * 2 ^ 12 + p.x % 2 ^ 26 * 2 ^ 38)
unfolding pack_block_position
pack_block_position-sum p =
    let upper : bit_or (p.x % 2 ^ 26 * 2 ^ 38) (p.z % 2 ^ 26 * 2 ^ 12)
        ≡ (p.z % 2 ^ 26 + p.x % 2 ^ 26 * 2 ^ 26) * 2 ^ 12 =
      bit_or_comm _ _ ∙ bit_or-high 38 _ _ (omega arith) ∙ omega arith in
    rw upper (bit_or_comm _ _ ∙ bit_or-high 12 _ _ (omega arith) ∙ omega arith)

sign_extend_26 : (v : ℕ) → v < 2 ^ 32 → out_of_range 26 v ≡ false → sign_extend 26 (v % 2 ^ 26) ≡ v
unfolding sign_extend out_of_range
sign_extend_26 v h r = ground arith

sign_extend_12 : (v : ℕ) → v < 2 ^ 32 → out_of_range 12 v ≡ false → sign_extend 12 (v % 2 ^ 12) ≡ v
unfolding sign_extend out_of_range
sign_extend_12 v h r = ground arith

or_three : (a b c : Bool) → (a || b || c) ≡ false → (a ≡ false) × (b ≡ false) × (c ≡ false)
or_three a b c h = ground arith

-- A block position that is written, which is one in the range of its fields, is read back.
pub read_block_position-write_block_position :
    (p : BlockPosition) (bytes rest : List ℕ)
    → (p.x < 2 ^ 32) × (p.y < 2 ^ 32) × (p.z < 2 ^ 32)
    → write_block_position p ≡ ok bytes
    → read_block_position (bytes ++ rest) ≡ ok (p, rest)
unfolding read_block_position write_block_position
read_block_position-write_block_position p bytes rest (hx, hy, hz) e =
    elim (Bool-cases (out_of_range 26 p.x || out_of_range 12 p.y || out_of_range 26 p.z)) [
      | inl out ↦ absurd (err_ok (rw out at e))
      | inr fits ↦
          let (fx, fy, fz) = or_three _ _ _ fits in
          let packed = p.y % 2 ^ 12 + (p.z % 2 ^ 26 * 2 ^ 12 + p.x % 2 ^ 26 * 2 ^ 38) in
          let x : packed / 2 ^ 38 % 2 ^ 32 ≡ p.x % 2 ^ 26 = omega arith in
          let y : packed % 2 ^ 12 % 2 ^ 32 ≡ p.y % 2 ^ 12 = omega arith in
          let z : packed / 2 ^ 12 % 2 ^ 26 % 2 ^ 32 ≡ p.z % 2 ^ 26 = omega arith in
          subst (λ bs. read_block_position (bs ++ rest) ≡ ok (p, rest)) (ok_path (rw fits at e))
            (rw (
              pack_block_position-sum p,
              read_int64-write_int64 packed rest (omega arith),
              x,
              y,
              z,
              sign_extend_26 p.x hx fx,
              sign_extend_12 p.y hy fy,
              sign_extend_26 p.z hz fz,
            ))
    ]
