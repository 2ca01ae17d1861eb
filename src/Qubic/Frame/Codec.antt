-- ===== src/Qubic/Frame/Codec.antt =====
-- Frames on the wire: what a serialized frame consists of, and how it is read back.
use xdna_npu_miner.Prelude.{
  ℕ, ◌+◌, ◌-◌, ◌*◌, ◌/◌, ◌%◌, ◌^◌, ◌≤◌, ◌≡◌, refl, ◌∙◌, List, [], ◌∷◌, ◌++◌, arith, bit_or, length,
  replicate, length-replicate, drop, ok, ◌>>=◌, get, ltb-false,
}
use mathlib.Core.List.{append-nil}
use xdna_npu_miner.Prelude.Bits.{bit_or_fields}
use xdna_npu_miner.Prelude.Words.{IsByte, IsU32}
use xdna_npu_miner.Bpp9000.Types.{Bytes}
use xdna_npu_miner.Bpp9000.Fields.RoundTrip.{word_bytes}
use xdna_npu_miner.Qubic.Types.{Frame, maximum_frame_bytes}
use xdna_npu_miner.Qubic.Frame.{serialize_frame, declared_size, parse_frame}
use xdna_npu_miner.Qubic.Wire.Layout.{Field, byte, word32, raw, images, total, length-images}
use xdna_npu_miner.Qubic.Wire.Layout.Write.{write_all_lem}
use xdna_npu_miner.Qubic.Wire.Layout.Read.{images_lem}

-- The fields of a frame whose whole size is `size`.
abbrev pub frame_fields : ℕ → Frame → List Field
frame_fields size frame =
    byte (size % 256)
    ∷ byte (size / 2 ^ 8 % 256)
    ∷ byte (size / 2 ^ 16 % 256)
    ∷ byte frame.message_type
    ∷ word32 frame.dejavu
    ∷ raw frame.payload
    ∷ []

-- The bytes of a frame.
abbrev pub frame_image : Frame → Bytes
frame_image frame = images (frame_fields (8 + length frame.payload) frame)

-- The values that the fields of a `Frame` can have, and a payload that the size field can tell.
abbrev pub IsFrame : Frame → Type 0
IsFrame frame =
    IsByte frame.message_type
    × IsU32 frame.dejavu
    × (length frame.payload ≤ maximum_frame_bytes - 8)

pub length-frame_image : (frame : Frame) → length (frame_image frame) ≡ 8 + length frame.payload
length-frame_image frame =
    omega (arith, length-images (frame_fields (8 + length frame.payload) frame))

pub serialize_frame_lem :
    (frame : Frame)
    → IsFrame frame
    → serialize_frame frame.message_type frame.dejavu frame.payload ≡ ok (frame_image frame)
unfolding serialize_frame
serialize_frame_lem frame (_, _, fits) =
    let size = 8 + length frame.payload in
    let fs = frame_fields size frame in
    let zeros : length {A = ℕ} (replicate size 0) ≡ total fs =
      length-replicate {A = ℕ} size 0 ∙ omega arith in
    rw (ltb-false (maximum_frame_bytes - 8) (length frame.payload) fits)
      (write_all_lem fs (replicate size 0) zeros)

size_lem :
    (n : ℕ)
    → n ≤ maximum_frame_bytes
    → bit_or
        (bit_or (n % 256) (n / 2 ^ 8 % 256 * 2 ^ 8 % 2 ^ 32))
        (n / 2 ^ 16 % 256 * 2 ^ 16 % 2 ^ 32)
      ≡ n
size_lem n fits =
    let w1 : n / 2 ^ 8 % 256 * 2 ^ 8 % 2 ^ 32 ≡ n / 2 ^ 8 % 256 * 2 ^ 8 = omega arith in
    let w2 : n / 2 ^ 16 % 256 * 2 ^ 16 % 2 ^ 32 ≡ n / 2 ^ 16 % 256 * 2 ^ 16 = omega arith in
    let s : n % 256 + n / 2 ^ 8 % 256 * 2 ^ 8 ≡ n % 2 ^ 16 = omega arith in
    rw
      (
        w1,
        bit_or_fields 8 (n / 2 ^ 8 % 256) (n % 256) (omega arith),
        s,
        w2,
        bit_or_fields 16 (n / 2 ^ 16 % 256) (n % 2 ^ 16) (omega arith),
      )
      (omega arith)

-- A list with the first bytes of a frame tells the frame's size.
pub declared_size_lem :
    (frame : Frame) (behind : Bytes)
    → IsFrame frame
    → declared_size (frame_image frame ++ behind) ≡ ok (8 + length frame.payload)
unfolding declared_size get
declared_size_lem frame behind (_, _, fits) =
    rw (size_lem (8 + length frame.payload) (omega arith)) refl

pub parse_frame_lem : (frame : Frame) → IsFrame frame → parse_frame (frame_image frame) ≡ ok frame
unfolding parse_frame get word_bytes
parse_frame_lem frame (b, d, fits) =
    let fs = frame_fields (8 + length frame.payload) frame in
    let size = length-frame_image frame in
    let placed =
      images_lem fs (omega arith, (omega arith, (omega arith, (b, (d, (tt, tt)))))) (omega arith) in
    let declared =
      rw (append-nil (frame_image frame)) at (declared_size_lem frame [] (b, d, fits)) in
    let whole : drop 8 (frame_image frame) ≡ frame.payload = append-nil frame.payload in
    ground (arith, size, declared, placed.1.1.1.0, placed.1.1.1.1.0, whole)

-- A frame within the limits is what parsing its serialization gives back.
pub frame_roundtrip :
    (frame : Frame)
    → IsFrame frame
    → (serialize_frame frame.message_type frame.dejavu frame.payload >>= parse_frame) ≡ ok frame
frame_roundtrip frame fits = rw (serialize_frame_lem frame fits) (parse_frame_lem frame fits)
