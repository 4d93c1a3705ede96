-- ===== src/HostTransport/Frame.antt =====
-- orchestrator/internal/hosttransport/frame.go. A byte is a number below 256, a []byte a list.
mod Laws
pub mod Stream
pub mod Prefix
use minecraft_orchestrator.Base.{
  ℕ, zero, suc, ◌+◌, ◌*◌, ◌%◌, ◌^◌, Option, none, some, List, [], ◌∷◌, ◌++◌, length, take, drop,
  ltb, leb, if◌then◌else◌,
}
use minecraft_orchestrator.Base.Words.{put_u32, u32_of}

abbrev pub default_maximum_frame_size : ℕ
default_maximum_frame_size = 1024 * 1024

abbrev pub length_prefix_byte : ℕ
length_prefix_byte = 4

-- The conversion uint32(len(payload)) wraps.
unfoldable pub encode : List ℕ → List ℕ
encode payload = put_u32 (length payload % 2 ^ 32) ++ payload

pub record Decoder : Type 0 where
  pub maximum_frame_size : ℕ
  pub buffer : List ℕ

-- `none` is the panic on a limit below one.
unfoldable pub new_decoder : ℕ → Option Decoder
new_decoder maximum =
    if ltb maximum 1 then none else some (record { maximum_frame_size = maximum; buffer = [] })

-- What Push returns: the frames, or the error with the length that was announced.
pub data PushResult : Type 0 where
  ok : List (List ℕ) → PushResult
  err : ℕ → PushResult

abbrev pub prepend : List ℕ → List ℕ × PushResult → List ℕ × PushResult
prepend payload (buffer, ok frames) = (buffer, ok (payload ∷ frames))
prepend payload (buffer, err n) = (buffer, err n)

-- The loop of Push over d.buffer, with fuel: each round takes at least the four prefix bytes.
unfoldable pub take_frames : ℕ → ℕ → List ℕ → List ℕ × PushResult
take_frames zero maximum buffer = (buffer, ok [])
take_frames (suc fuel) maximum buffer =
    let n = u32_of buffer in
    let rest = prepend (take n (drop 4 buffer)) (take_frames fuel maximum (drop (4 + n) buffer)) in
    if leb 4 (length buffer)
    then (if ltb maximum n
        then (buffer, err n)
        else (if ltb (length buffer) (4 + n) then (buffer, ok []) else rest))
    else (buffer, ok [])

unfoldable pub push : Decoder → List ℕ → Decoder × PushResult
push d chunk =
    let received = d.buffer ++ chunk in
    let (left, result) = take_frames (length received) d.maximum_frame_size received in
    (record d { buffer = left }, result)
