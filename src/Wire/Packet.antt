-- ===== src/Wire/Packet.antt =====
-- Codec, WritePacket and ReadPacket of orchestrator/internal/mc_protocol/wire/codec.go, and Packet of
-- packet.go. A writer takes all it is given; the contexts that errors are wrapped in are left out.
pub mod RoundTrip
use minecraft_orchestrator.Base.{
  ℕ, zero, suc, ◌+◌, ◌*◌, ◌^◌, Bool, true, false, ◌||◌, ◌==◌, if◌then◌else◌, Option, none, some,
  List, [], ◌∷◌, ◌++◌, length, take, drop, ltb, leb,
}
use minecraft_orchestrator.Wire.VarInt.{
  Error, eof, unexpected_eof, invalid_packet_length, invalid_uncompressed_length,
  bad_compressed_data, decompressed_length, packet_too_large, frame_too_large, negative_threshold,
  Result, ok, err, ◌>>=◌, read_var_int, write_var_int,
}

abbrev pub max_packet_size : ℕ
max_packet_size = 8 * 2 ^ 20

abbrev pub max_frame_size : ℕ
max_frame_size = max_packet_size + 5

-- An int32 identifier as its bit pattern.
pub record Packet : Type 0 where
  pub id : ℕ
  pub body : List ℕ

pub record Codec : Type 0 where
  pub compression_enabled : Bool
  pub compression_threshold : ℕ

unfoldable pub new_codec : Codec
new_codec = record { compression_enabled = false; compression_threshold = 0 }

-- A pattern from 2 ^ 31 on is a negative int32.
unfoldable pub enable_compression : ℕ → Codec → Result Codec
enable_compression threshold c =
    if leb (2 ^ 31) threshold
    then err (negative_threshold threshold)
    else ok (record { compression_enabled = true; compression_threshold = threshold })

-- compress/zlib: what a closed writer has written for some data, and what a reader limited to so
-- many bytes reads of a stream, `none` for an error.
pub record Zlib : Type 0 where
  pub compress : List ℕ → List ℕ
  pub read_limited : ℕ → List ℕ → Option (List ℕ)

-- io.ReadFull.
unfoldable pub read_full : ℕ → List ℕ → Result (List ℕ × List ℕ)
read_full n bytes =
    if leb n (length bytes)
    then ok (take n bytes, drop n bytes)
    else (if length bytes == 0 then err eof else err unexpected_eof)

unfoldable pub packet_data : Packet → Result (List ℕ)
packet_data p =
    let content = write_var_int p.id ++ p.body in
    if ltb max_packet_size (length content)
    then err (packet_too_large (length content))
    else ok content

unfoldable pub packet_from_data : List ℕ → Result Packet
packet_from_data content =
    read_var_int content >>= λ (id, body). ok (record { id = id; body = body })

-- The frame of a compressing codec. Its threshold is not negative, and neither is the length of
-- data that packetData lets through.
unfoldable pub compressed_frame : Zlib → Codec → List ℕ → List ℕ
compressed_frame z c content =
    if ltb (length content) c.compression_threshold
    then write_var_int 0 ++ content
    else write_var_int (length content) ++ z.compress content

unfoldable pub write_frame : Zlib → Codec → List ℕ → Result (List ℕ)
write_frame z c content =
    let frame = compressed_frame z c content in
    if c.compression_enabled
    then (if ltb max_frame_size (length frame)
        then err (frame_too_large (length frame))
        else ok (write_var_int (length frame) ++ frame))
    else ok (write_var_int (length content) ++ content)

unfoldable pub write_packet : Zlib → Codec → Packet → Result (List ℕ)
write_packet z c p = packet_data p >>= λ content. write_frame z c content

unfoldable pub decompressed : ℕ → Option (List ℕ) → Result Packet
decompressed n none = err bad_compressed_data
decompressed n (some content) =
    if length content == n
    then packet_from_data content
    else err (decompressed_length (length content) n)

unfoldable pub decompress_rest : Zlib → ℕ → List ℕ → Result Packet
decompress_rest z n bytes =
    if ltb max_packet_size n
    then err (invalid_uncompressed_length n)
    else (if n == 0 then packet_from_data bytes else decompressed n (z.read_limited (n + 1) bytes))

-- What is done with a frame that was read. A negative length is above every limit.
unfoldable pub read_frame : Zlib → Codec → List ℕ → Result Packet
read_frame z c frame =
    if c.compression_enabled
    then (read_var_int frame >>= λ (n, bytes). decompress_rest z n bytes)
    else packet_from_data frame

unfoldable pub read_sized : Zlib → Codec → ℕ → List ℕ → Result (Packet × List ℕ)
read_sized z c n bytes =
    if (n == 0) || ltb max_frame_size n
    then err (invalid_packet_length n)
    else (read_full n bytes >>= λ (frame, rest). read_frame z c frame >>= λ p. ok (p, rest))

unfoldable pub read_packet : Zlib → Codec → List ℕ → Result (Packet × List ℕ)
read_packet z c bytes = read_var_int bytes >>= λ (n, rest). read_sized z c n rest
