-- ===== src/Qubic/Wire/Layout/Read.antt =====
-- Reading the fields of a sequence at running offsets gives their values.
use xdna_npu_miner.Prelude.{
  ℕ, ◌+◌, ◌*◌, ◌/◌, ◌%◌, ◌^◌, ◌≤◌, ◌<◌, ◌≡◌, refl, ◌∙◌, List, [], ◌∷◌, ◌++◌, bit_or, arith, length,
  length-append, get_or, get_or-append_left, get_or-append_right, get_in_range, le→leb, drop-append,
  take-append, All, ok,
}
use mathlib.Core.List.{append-nil, append_assoc}
use xdna_npu_miner.Prelude.Words.{IsU64}
use xdna_npu_miner.Bpp9000.Types.{Bytes}
use xdna_npu_miner.Bpp9000.Fields.RoundTrip.{
  Stands, word_bytes, length-word_bytes, get_or-word_bytes, joined, word_at_lem, read_bytes_lem,
}
use xdna_npu_miner.Qubic.Types.{Thrown}
use xdna_npu_miner.Qubic.Wire.{require_bytes, read_u16, read_u32, read_u64, copy_from}
use xdna_npu_miner.Qubic.Wire.Layout.{
  Field, byte, word16, word32, word64, raw, width, image, images, Fits, Reads, Placed, total,
  length-image, length-images,
}

word_bytes-Stands :
    (n v : ℕ) (front behind : Bytes)
    → Stands n v (front ++ (word_bytes n 0 v ++ behind)) (length front)
unfolding Stands
word_bytes-Stands n v front behind i h =
    let e : 0 + i ≡ i = omega arith in
    get_or-append_right front (word_bytes n 0 v ++ behind) i 0
    ∙ get_or-append_left (word_bytes n 0 v) behind i 0 (omega (arith, length-word_bytes n 0 v))
    ∙ rw e at (get_or-word_bytes n 0 v i h)

read_u16_lem :
    (v offset : ℕ) (bytes : Bytes)
    → v < 0x1_0000
    → offset + 2 ≤ length bytes
    → IsU64 (length bytes)
    → Stands 2 v bytes offset
    → read_u16 bytes offset ≡ ok v
unfolding read_u16 require_bytes Stands
read_u16_lem v offset bytes small inside sized at =
    let start : offset + 0 ≡ offset = omega arith in
    let b0 : get_or bytes offset 0 ≡ v % 2 ^ 8 = omega (arith, rw start at (at 0 (omega arith))) in
    let w1 : v / 2 ^ 8 % 256 * 2 ^ 8 % 2 ^ 16 ≡ v / 2 ^ 8 % 256 * 2 ^ 8 = omega arith in
    let s1 : v % 2 ^ 8 + v / 2 ^ 8 % 256 * 2 ^ 8 ≡ v = omega arith in
    let sum : bit_or (v % 2 ^ 8) (v / 2 ^ 8 % 256 * 2 ^ 8 % 2 ^ 16) ≡ v =
      rw (w1, joined 8 v (omega arith)) s1 in
    ground (
      arith,
      get_in_range {E = Thrown} bytes offset 0 (omega arith),
      get_in_range {E = Thrown} bytes (offset + 1) 0 (omega arith),
      b0,
      at 1 (omega arith),
      sum,
    )

read_back_lem :
    (f : Field) (front behind : Bytes)
    → Fits f
    → IsU64 (length (front ++ (image f ++ behind)))
    → length front + width f ≤ length (front ++ (image f ++ behind))
    → Reads f (front ++ (image f ++ behind)) (length front)
read_back_lem (byte v) front behind fits sized inside =
    let e : length front + 0 ≡ length front = omega arith in
    get_in_range {E = Thrown} (front ++ (v ∷ behind)) (length front) 0 (omega arith)
    ∙ rw (rw e at (get_or-append_right front (v ∷ behind) 0 0)) refl
read_back_lem (word16 v) front behind fits sized inside =
    read_u16_lem v (length front) (front ++ (word_bytes 2 0 v ++ behind)) fits inside sized
      (word_bytes-Stands 2 v front behind)
read_back_lem (word32 v) front behind fits sized inside =
    let found =
      word_at_lem {E = Thrown} v (length front) (front ++ (word_bytes 4 0 v ++ behind)) fits inside
        sized (word_bytes-Stands 4 v front behind) in
    unfold read_u32 require_bytes in ground (arith, found)
read_back_lem (word64 v) front behind fits sized inside =
    let found =
      read_bytes_lem {E = Thrown} v (length front) (front ++ (word_bytes 8 0 v ++ behind)) fits
        inside sized (word_bytes-Stands 8 v front behind) in
    unfold read_u64 require_bytes in ground (arith, found)
read_back_lem (raw source) front behind fits sized inside =
    unfold copy_from in
    rw
      (
        le→leb (length front + length source) (length (front ++ (source ++ behind))) inside,
        drop-append front (source ++ behind) (length front) refl,
        take-append source behind (length source) refl,
      )
      refl

pub field-Reads :
    (f : Field) (front behind : Bytes)
    → Fits f
    → IsU64 (length (front ++ (image f ++ behind)))
    → Reads f (front ++ (image f ++ behind)) (length front)
field-Reads f front behind fits sized =
    let inside : length front + width f ≤ length (front ++ (image f ++ behind)) = omega (
      arith,
      length-append front (image f ++ behind),
      length-append (image f) behind,
      length-image f,
    ) in
    read_back_lem f front behind fits sized inside

pub images-Placed :
    (fs : List Field) (front behind : Bytes)
    → All Fits fs
    → IsU64 (length (front ++ (images fs ++ behind)))
    → Placed fs (front ++ (images fs ++ behind)) (length front)
images-Placed [] front behind fits sized = tt
images-Placed (f ∷ fs) front behind fits sized =
    let here = append_assoc (image f) (images fs) behind in
    let next = append_assoc front (image f) (images fs ++ behind) in
    let place : length (front ++ image f) ≡ length front + width f =
      omega (arith, length-append front (image f), length-image f) in
    let sized' = rw here at sized in
    let rest = images-Placed fs (front ++ image f) behind fits.1 (rw next sized') in
    rw here (field-Reads f front (images fs ++ behind) fits.0 sized', rw (place, next) at rest)

-- A message that consists of its fields gives each of them back at its offset.
pub images_lem : (fs : List Field) → All Fits fs → IsU64 (total fs) → Placed fs (images fs) 0
images_lem fs fits sized =
    let e = append-nil (images fs) in
    rw e at (images-Placed fs [] [] fits (rw e (omega (arith, sized, length-images fs))))
