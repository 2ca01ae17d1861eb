-- ===== src/Qubic/Frame/Decoder.antt =====
-- The incremental decoder gives the frames of a stream, however the stream is cut into pieces.
use xdna_npu_miner.Prelude.{
  ◌+◌, ◌-◌, ◌≤◌, ◌<◌, ◌≡◌, refl, sym, ap, ◌∙◌, List, [], ◌∷◌, ◌++◌, arith, length, length-append,
  drop, take, drop-append, take-append, Outcome, ok, ◌>>=◌, get, some, none, ltb, ltb-false,
  Bool-cases, All, inl, inr,
}
use mathlib.Core.List.{append_assoc, append-nil}
use xdna_npu_miner.Bpp9000.Types.{Bytes}
use xdna_npu_miner.Qubic.Types.{Thrown, Frame, maximum_frame_bytes}
use xdna_npu_miner.Qubic.Frame.{declared_size, feed, next}
use xdna_npu_miner.Qubic.Frame.Codec.{
  frame_image, IsFrame, length-frame_image, declared_size_lem, parse_frame_lem,
}

-- What the decoder holds is bounded by the size of the largest frame.
abbrev pub IsHeld : Bytes → Type 0
IsHeld held = length held ≤ maximum_frame_bytes

-- Feeding two pieces one after the other is feeding them at once, errors included.
pub feed-append :
    (held first second : Bytes)
    → IsHeld held
    → (feed held first >>= λ held. feed held second) ≡ feed held (first ++ second)
unfolding feed
feed-append held first second bound =
    ground
      (arith, length-append held first, length-append first second, append_assoc held first second)

-- A frame at the front is given, and what stands behind it is held.
pub next-frame :
    (frame : Frame) (behind : Bytes)
    → IsFrame frame
    → next (frame_image frame ++ behind) ≡ ok (some frame, behind)
unfolding next
next-frame frame behind fits =
    let size = length-frame_image frame in
    let whole = length-append (frame_image frame) behind in
    let declared = declared_size_lem frame behind fits in
    let took : take (8 + length frame.payload) (frame_image frame ++ behind) ≡ frame_image frame =
      take-append (frame_image frame) behind (8 + length frame.payload) size in
    let dropped : drop (8 + length frame.payload) (frame_image frame ++ behind) ≡ behind =
      drop-append (frame_image frame) behind (8 + length frame.payload) size in
    let (_, _, room) = fits in
    ground (arith, size, whole, declared, took, dropped, parse_frame_lem frame fits)

declared_size-append :
    (front behind : Bytes)
    → 3 ≤ length front
    → declared_size (front ++ behind) ≡ declared_size front
unfolding declared_size get
declared_size-append [] behind h = absurd (omega arith)
declared_size-append (a ∷ []) behind h = absurd (omega arith)
declared_size-append (a ∷ b ∷ []) behind h = absurd (omega arith)
declared_size-append (a ∷ b ∷ c ∷ front) behind h = refl

-- The start of a frame is held until the rest of it comes.
pub next-part :
    (frame : Frame) (part missing : Bytes)
    → IsFrame frame
    → frame_image frame ≡ part ++ missing
    → 0 < length missing
    → next part ≡ ok (none, part)
unfolding next
next-part frame part missing fits cut some_missing =
    let size : length part + length missing ≡ 8 + length frame.payload =
      omega (arith, length-append part missing, length-frame_image frame, ap length cut) in
    let (_, _, room) = fits in
    elim (Bool-cases (ltb (length part) 8)) [
      | inl short ↦ rw short refl
      | inr long ↦
          let declared : declared_size part ≡ ok (8 + length frame.payload) =
            sym (declared_size-append part missing (ground (arith, long)))
            ∙ rw (append-nil (frame_image frame), cut) at (declared_size_lem frame [] fits) in
          ground (arith, long, declared)
    ]

-- What calls of `next` give from a buffer, until one gives nothing: the frames, and what is held.
pub data Decodes : Bytes → List Frame → Bytes → Type 0 where
  waits : {held : Bytes} → next held ≡ ok (none, held) → Decodes held [] held
  gives :
      {held rest tail : Bytes} {frame : Frame} {frames : List Frame}
      → next held ≡ ok (some frame, rest)
      → Decodes rest frames tail
      → Decodes held (frame ∷ frames) tail

abbrev pub stream : List Frame → Bytes → Bytes
stream [] tail = tail
stream (frame ∷ frames) tail = frame_image frame ++ stream frames tail

-- The pieces of a stream, fed one after the other.
abbrev pub feed_all : List Bytes → Bytes → Outcome Thrown Bytes
feed_all [] held = ok held
feed_all (piece ∷ pieces) held = do held ← feed held piece; feed_all pieces held

abbrev pub joined_pieces : List Bytes → Bytes
joined_pieces [] = []
joined_pieces (piece ∷ pieces) = piece ++ joined_pieces pieces

feed_all_lem :
    (pieces : List Bytes) (held : Bytes)
    → length held + length (joined_pieces pieces) ≤ maximum_frame_bytes
    → feed_all pieces held ≡ ok (held ++ joined_pieces pieces)
unfolding feed
feed_all_lem [] held bound = rw (append-nil held) refl
feed_all_lem (piece ∷ pieces) held bound =
    let size = length-append piece (joined_pieces pieces) in
    let rest =
      feed_all_lem pieces (held ++ piece) (omega (arith, bound, size, length-append held piece)) in
    rw
      (
        ltb-false (maximum_frame_bytes - length held) (length piece) (omega (arith, bound, size)),
        rest,
      )
      (rw (append_assoc held piece (joined_pieces pieces)) refl)

stream-Decodes :
    (frames : List Frame) (tail : Bytes)
    → All IsFrame frames
    → next tail ≡ ok (none, tail)
    → Decodes (stream frames tail) frames tail
stream-Decodes [] tail are last = waits last
stream-Decodes (frame ∷ frames) tail are last =
    gives (next-frame frame (stream frames tail) are.0) (stream-Decodes frames tail are.1 last)

-- However a stream of frames and the start of one more is cut into pieces, feeding the pieces
-- succeeds while they fit the decoder's limit, and calls of `next` then give the frames in order,
-- each of them once, and hold the start of the last.
pub decoder_lem :
    (frames : List Frame) (last : Frame) (part missing : Bytes) (pieces : List Bytes)
    → All IsFrame frames
    → IsFrame last
    → frame_image last ≡ part ++ missing
    → 0 < length missing
    → joined_pieces pieces ≡ stream frames part
    → length (stream frames part) ≤ maximum_frame_bytes
    → (feed_all pieces [] ≡ ok (stream frames part)) × Decodes (stream frames part) frames part
decoder_lem frames last part missing pieces are fits cut some_missing joins bound = (
  feed_all_lem pieces [] (omega (arith, ap length joins, bound)) ∙ ap ok joins,
  stream-Decodes frames part are (next-part last part missing fits cut some_missing),
)
