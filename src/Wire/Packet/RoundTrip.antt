-- ===== src/Wire/Packet/RoundTrip.antt =====
-- A packet that is written is read back, whatever follows it.
use minecraft_orchestrator.Base.{
  ℕ, ◌+◌, ◌^◌, ◌≤◌, ◌<◌, true, false, ◌||◌, ◌==◌, some, List, ◌++◌, length, ltb, leb, ◌≡◌, subst,
  ◌∙◌, inl, inr, arith, Bool-cases, take-append, take-length, drop-append, drop-length,
  append_assoc, le→leb, le→ltb, ltb-false→le, length-append,
}
use minecraft_orchestrator.Wire.VarInt.{Error, ok, err, write_var_int, write_from}
use minecraft_orchestrator.Wire.VarInt.RoundTrip.{read_var_int-write_var_int}
use minecraft_orchestrator.Wire.Packet.{
  max_packet_size, max_frame_size, Packet, Codec, Zlib, read_full, packet_data, packet_from_data,
  compressed_frame, write_frame, write_packet, decompressed, decompress_rest, read_frame,
  read_sized, read_packet,
}

-- A zlib reader gives back what a writer compressed, when its limit admits it.
abbrev pub Lossless : Zlib → Type 0
Lossless z =
    (n : ℕ) (content : List ℕ)
    → length content < n
    → z.read_limited n (z.compress content) ≡ some content

length-write_var_int : (n : ℕ) → 0 < length (write_var_int n)
unfolding write_var_int write_from
length-write_var_int n = ground arith

pub read_full-append : (xs rest : List ℕ) → read_full (length xs) (xs ++ rest) ≡ ok (xs, rest)
unfolding read_full
read_full-append xs rest =
    let fits : leb (length xs) (length (xs ++ rest)) ≡ true =
      le→leb _ _ (omega (arith, length-append xs rest)) in
    rw (
      fits,
      take-append (length xs) xs rest (omega arith),
      take-length,
      drop-append (length xs) xs rest (omega arith),
      drop-length,
    )

-- A frame of an admitted length, read with its prefix.
read_packet-frame :
    (z : Zlib) (c : Codec) (frame rest : List ℕ) (p : Packet)
    → 0 < length frame
    → length frame ≤ max_frame_size
    → read_frame z c frame ≡ ok p
    → read_packet z c ((write_var_int (length frame) ++ frame) ++ rest) ≡ ok (p, rest)
unfolding read_packet read_sized
read_packet-frame z c frame rest p some_bytes fits read =
    let valid : ((length frame == 0) || ltb max_frame_size (length frame)) ≡ false = ground arith in
    rw (
      append_assoc,
      read_var_int-write_var_int (length frame) (frame ++ rest) (omega arith),
      valid,
      read_full-append frame rest,
      read,
    )

packet_from_data-write :
    (p : Packet) → p.id < 2 ^ 32 → packet_from_data (write_var_int p.id ++ p.body) ≡ ok p
unfolding packet_from_data
packet_from_data-write p h = rw (read_var_int-write_var_int p.id p.body h)

-- The frame of a compressing codec gives its data back, on both sides of the threshold.
read_frame-compressed :
    (z : Zlib) (c : Codec) (content : List ℕ)
    → Lossless z
    → c.compression_enabled ≡ true
    → 0 < length content
    → length content ≤ max_packet_size
    → read_frame z c (compressed_frame z c content) ≡ packet_from_data content
unfolding read_frame compressed_frame decompress_rest decompressed
read_frame-compressed z c content lossless on some_bytes fits =
    elim (Bool-cases (ltb (length content) c.compression_threshold)) [
      | inl short ↦ rw (on, short, read_var_int-write_var_int 0 content (omega arith))
      | inr long ↦
          let small : ltb max_packet_size (length content) ≡ false = le→ltb _ _ fits in
          let filled : (length content == 0) ≡ false = ground arith in
          let same : (length content == length content) ≡ true = ground arith in
          rw (
            on,
            long,
            read_var_int-write_var_int (length content) (z.compress content) (omega arith),
            small,
            filled,
            lossless (length content + 1) content (omega arith),
            decompressed,
            same,
          )
    ]

length-compressed_frame :
    (z : Zlib) (c : Codec) (content : List ℕ) → 0 < length (compressed_frame z c content)
unfolding compressed_frame
length-compressed_frame z c content = ground (
  arith,
  length-append (write_var_int 0) content,
  length-write_var_int 0,
  length-append (write_var_int (length content)) (z.compress content),
  length-write_var_int (length content),
)

read_packet-write_frame :
    (z : Zlib) (c : Codec) (content rest bytes : List ℕ) (p : Packet)
    → Lossless z
    → 0 < length content
    → length content ≤ max_packet_size
    → packet_from_data content ≡ ok p
    → write_frame z c content ≡ ok bytes
    → read_packet z c (bytes ++ rest) ≡ ok (p, rest)
unfolding write_frame read_frame compressed_frame
read_packet-write_frame z c content rest bytes p lossless some_bytes fits parse e =
    elim (Bool-cases c.compression_enabled) [
      | inr off ↦
          subst (λ bs. read_packet z c (bs ++ rest) ≡ ok (p, rest)) (ok_path (rw off at e))
            (read_packet-frame z c content rest p some_bytes (omega arith) (plain off))
      | inl on ↦ elim (Bool-cases (ltb max_frame_size (length (compressed_frame z c content)))) [
        | inl over ↦ absurd (err_ok (rw (on, over) at e))
        | inr short ↦
            subst (λ bs. read_packet z c (bs ++ rest) ≡ ok (p, rest))
              (ok_path (rw (on, short) at e))
              (read_packet-frame z c (compressed_frame z c content) rest p
                (length-compressed_frame z c content) (ltb-false→le _ _ short)
                (read_frame-compressed z c content lossless on some_bytes fits ∙ parse))
      ]
    ]
  where
    ok_path : {a b : List ℕ} → ok a ≡ ok b → a ≡ b
    ok_path h = cc

    err_ok : {x : Error} {b : List ℕ} → err x ≡ ok b → ⊥
    err_ok h = cc

    plain : c.compression_enabled ≡ false → read_frame z c content ≡ ok p
    plain off = rw off parse

-- A packet that a codec writes, compressing or not and on both sides of the threshold, is what the
-- same codec reads back, and the reader is left with what follows it; zlib is taken to be lossless.
pub read_packet-write_packet :
    (z : Zlib) (c : Codec) (p : Packet) (bytes rest : List ℕ)
    → Lossless z
    → p.id < 2 ^ 32
    → write_packet z c p ≡ ok bytes
    → read_packet z c (bytes ++ rest) ≡ ok (p, rest)
unfolding write_packet packet_data
read_packet-write_packet z c p bytes rest lossless small e =
    let content = write_var_int p.id ++ p.body in
    elim (Bool-cases (ltb max_packet_size (length content))) [
      | inl over ↦ absurd (never (rw over at e))
      | inr fits ↦
          read_packet-write_frame z c content rest bytes p lossless
            (omega (arith, length-append (write_var_int p.id) p.body, length-write_var_int p.id))
            (ltb-false→le _ _ fits) (packet_from_data-write p small) (rw fits at e)
    ]
  where
    never : {x : Error} {b : List ℕ} → err x ≡ ok b → ⊥
    never h = cc
