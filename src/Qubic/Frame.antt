-- ===== src/Qubic/Frame.antt =====
-- src/qubic/direct_node.cpp: frames, the requests, and the incremental decoder, whose state is the
-- bytes that it holds.
pub mod Total
pub mod Codec
pub mod Decoder
use xdna_npu_miner.Prelude.{
  ℕ, ◌+◌, ◌-◌, ◌*◌, ◌%◌, ◌/◌, ◌^◌, bit_or, not, [], ◌++◌, ltb, ◌==◌, length, drop, take, replicate,
  Outcome, ok, ◌>>=◌, ◌>>◌, throw_if, get, put, if◌then◌else◌, Option, none, some,
}
use xdna_npu_miner.Bpp9000.Types.{Bytes}
use xdna_npu_miner.Qubic.Types.{
  request_response_header_bytes, exchange_public_peers_payload_bytes, maximum_frame_bytes,
  exchange_public_peers, request_computors_type, request_system_info_type, request_entity_type,
  Thrown, protocol_error, Frame, truncated, invalid_frame_size, frame_too_large,
}
use xdna_npu_miner.Qubic.Wire.{read_u32, write_u32, copy_into}

-- The guard keeps `total` below 2 ^ 24, so the sum does not wrap.
unfoldable pub serialize_frame : ℕ → ℕ → Bytes → Outcome Thrown Bytes
serialize_frame message_type dejavu payload = do
  throw_if (ltb (maximum_frame_bytes - request_response_header_bytes) (length payload))
      (protocol_error frame_too_large)
  let total = request_response_header_bytes + length payload
  encoded ← put (replicate total 0) 0 (total % 256)
  encoded ← put encoded 1 (total / 2 ^ 8 % 256)
  encoded ← put encoded 2 (total / 2 ^ 16 % 256)
  encoded ← put encoded 3 message_type
  encoded ← write_u32 encoded 4 dejavu
  encoded ← copy_into payload encoded request_response_header_bytes
  ok encoded

-- The size in the first three bytes.
unfoldable pub declared_size : Bytes → Outcome Thrown ℕ
declared_size encoded = do
  b0 ← get encoded 0
  b1 ← get encoded 1
  b2 ← get encoded 2
  ok (bit_or (bit_or b0 (b1 * 2 ^ 8 % 2 ^ 32)) (b2 * 2 ^ 16 % 2 ^ 32))

unfoldable pub parse_frame : Bytes → Outcome Thrown Frame
parse_frame encoded = do
  throw_if (ltb (length encoded) request_response_header_bytes) (protocol_error truncated)
  declared ← declared_size encoded
  throw_if (ltb declared request_response_header_bytes) (protocol_error invalid_frame_size)
  throw_if (ltb maximum_frame_bytes declared) (protocol_error frame_too_large)
  throw_if (not (declared == length encoded)) (protocol_error invalid_frame_size)
  message_type ← get encoded 3
  dejavu ← read_u32 encoded 4
  ok (record {
    message_type = message_type;
    dejavu = dejavu;
    payload = drop request_response_header_bytes encoded;
  })

-- `FrameDecoder::feed`. The decoder starts empty, and neither member lets it hold more than the
-- limit, so the difference does not wrap.
unfoldable pub feed : Bytes → Bytes → Outcome Thrown Bytes
feed held bytes = do
  throw_if (ltb (maximum_frame_bytes - length held) (length bytes)) (protocol_error frame_too_large)
  ok (held ++ bytes)

-- `FrameDecoder::next`.
unfoldable pub next : Bytes → Outcome Thrown (Option Frame × Bytes)
next held = if ltb (length held) request_response_header_bytes then ok (none, held) else (do
  declared ← declared_size held
  throw_if (ltb declared request_response_header_bytes) (protocol_error invalid_frame_size)
  throw_if (ltb maximum_frame_bytes declared) (protocol_error frame_too_large)
  if ltb (length held) declared
      then ok (none, held)
      else (do frame ← parse_frame (take declared held); ok (some frame, drop declared held)))

unfoldable pub make_system_info_request : ℕ → Outcome Thrown Bytes
make_system_info_request dejavu = serialize_frame request_system_info_type dejavu []

unfoldable pub make_exchange_public_peers : ℕ → Outcome Thrown Bytes
make_exchange_public_peers dejavu =
    serialize_frame exchange_public_peers dejavu (replicate exchange_public_peers_payload_bytes 0)

unfoldable pub make_computors_request : ℕ → Outcome Thrown Bytes
make_computors_request dejavu = serialize_frame request_computors_type dejavu []

unfoldable pub make_entity_request : Bytes → ℕ → Outcome Thrown Bytes
make_entity_request public_key dejavu = serialize_frame request_entity_type dejavu public_key
