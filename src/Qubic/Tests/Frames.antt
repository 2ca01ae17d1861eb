-- ===== src/Qubic/Tests/Frames.antt =====
-- Frames and the decoder at concrete values.
use xdna_npu_miner.Prelude.{◌≤◌, ◌≡◌, refl, arith, List, [], ◌∷◌, ◌++◌, length, ok, ◌>>=◌}
use xdna_npu_miner.Bpp9000.Types.{Bytes}
use xdna_npu_miner.Bpp9000.Fields.RoundTrip.{word_bytes}
use xdna_npu_miner.Qubic.Frame.{serialize_frame, parse_frame}
use xdna_npu_miner.Qubic.Frame.Codec.{IsFrame, frame_image, frame_roundtrip}
use xdna_npu_miner.Qubic.Frame.Decoder.{Decodes, stream, feed_all, joined_pieces, decoder_lem}
use xdna_npu_miner.Qubic.Tests.{message}

message-IsFrame : IsFrame message
message-IsFrame = (omega arith, omega arith, omega arith)

frame_roundtrip_example : (serialize_frame 1 7 (5 ∷ 6 ∷ []) >>= parse_frame) ≡ ok message
frame_roundtrip_example = frame_roundtrip message message-IsFrame

-- Two frames and five bytes of a third, in two pieces.
abbrev part : Bytes
part = 10 ∷ 0 ∷ 0 ∷ 1 ∷ 7 ∷ []

abbrev missing : Bytes
missing = 0 ∷ 0 ∷ 0 ∷ 5 ∷ 6 ∷ []

abbrev whole_frame : Bytes
whole_frame = 10 ∷ 0 ∷ 0 ∷ 1 ∷ 7 ∷ 0 ∷ 0 ∷ 0 ∷ 5 ∷ 6 ∷ []

abbrev pieces : List Bytes
pieces = (whole_frame ++ (10 ∷ 0 ∷ [])) ∷ (0 ∷ 1 ∷ 7 ∷ 0 ∷ 0 ∷ 0 ∷ 5 ∷ 6 ∷ part) ∷ []

message-image : frame_image message ≡ part ++ missing
unfolding word_bytes
message-image = refl

pieces-join : joined_pieces pieces ≡ stream (message ∷ message ∷ []) part
unfolding word_bytes
pieces-join = refl

stream-bound : length (stream (message ∷ message ∷ []) part) ≤ 0x00ff_ffff
unfolding word_bytes
stream-bound = omega arith

decoder_lem_example :
    (feed_all pieces [] ≡ ok (stream (message ∷ message ∷ []) part))
    × Decodes (stream (message ∷ message ∷ []) part) (message ∷ message ∷ []) part
decoder_lem_example =
    decoder_lem (message ∷ message ∷ []) message part missing pieces
      (message-IsFrame, (message-IsFrame, tt)) message-IsFrame message-image (omega arith)
      pieces-join stream-bound
