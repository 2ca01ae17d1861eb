-- ===== src/Qubic/Messages.antt =====
-- src/qubic/direct_node.cpp: the payloads of system information, the list of computors and an
-- entity.
pub mod RoundTrip
pub mod Keys
use xdna_npu_miner.Prelude.{
  ℕ, zero, suc, ◌+◌, not, Bool, false, ◌||◌, List, [], ◌∷◌, ◌==◌, length, replicate, Outcome, ok,
  ◌>>=◌, ◌>>◌, throw_if, get, put,
}
use xdna_npu_miner.Bpp9000.Types.{Bytes, bytes_eq}
use xdna_npu_miner.Qubic.Types.{
  system_info_payload_bytes, computor_count, computors_signature_bytes,
  computors_signed_payload_bytes, computors_payload_bytes, entity_sibling_count,
  entity_payload_bytes, broadcast_computors, respond_system_info, respond_entity, Thrown,
  protocol_error, Frame, SystemInfo, ComputorList, EntityInfo, wrong_message_type,
  invalid_payload_size,
}
use xdna_npu_miner.Qubic.Wire.{
  read_u16, read_u32, read_u64, write_u16, write_u32, write_u64, copy_into, copy_from,
}

unfoldable pub parse_system_info : Frame → Outcome Thrown SystemInfo
parse_system_info frame = do
  throw_if (not (frame.message_type == respond_system_info)) (protocol_error wrong_message_type)
  throw_if (not (length frame.payload == system_info_payload_bytes))
      (protocol_error invalid_payload_size)
  let bytes = frame.payload
  version ← read_u16 bytes 0
  epoch ← read_u16 bytes 2
  tick ← read_u32 bytes 4
  initial_tick ← read_u32 bytes 8
  latest_created_tick ← read_u32 bytes 12
  initial_millisecond ← read_u16 bytes 16
  initial_second ← get bytes 18
  initial_minute ← get bytes 19
  initial_hour ← get bytes 20
  initial_day ← get bytes 21
  initial_month ← get bytes 22
  initial_year ← get bytes 23
  number_of_entities ← read_u32 bytes 24
  number_of_transactions ← read_u32 bytes 28
  mining_seed ← copy_from bytes 32 32
  solution_threshold ← read_u32 bytes 64
  total_spectrum_amount ← read_u64 bytes 68
  current_entity_balance_dust_threshold ← read_u64 bytes 76
  target_tick_vote_signature ← read_u32 bytes 84
  computor_packet_signature ← read_u64 bytes 88
  solution_additional_threshold ← read_u64 bytes 96
  reserve2 ← read_u64 bytes 104
  reserve3 ← read_u64 bytes 112
  reserve4 ← read_u64 bytes 120
  ok (record {
    version = version;
    epoch = epoch;
    tick = tick;
    initial_tick = initial_tick;
    latest_created_tick = latest_created_tick;
    initial_millisecond = initial_millisecond;
    initial_second = initial_second;
    initial_minute = initial_minute;
    initial_hour = initial_hour;
    initial_day = initial_day;
    initial_month = initial_month;
    initial_year = initial_year;
    number_of_entities = number_of_entities;
    number_of_transactions = number_of_transactions;
    mining_seed = mining_seed;
    solution_threshold = solution_threshold;
    total_spectrum_amount = total_spectrum_amount;
    current_entity_balance_dust_threshold = current_entity_balance_dust_threshold;
    target_tick_vote_signature = target_tick_vote_signature;
    computor_packet_signature = computor_packet_signature;
    solution_additional_threshold = solution_additional_threshold;
    reserve2 = reserve2;
    reserve3 = reserve3;
    reserve4 = reserve4;
  })

unfoldable pub serialize_system_info_payload : SystemInfo → Outcome Thrown Bytes
serialize_system_info_payload info = do
  output ← write_u16 (replicate system_info_payload_bytes 0) 0 info.version
  output ← write_u16 output 2 info.epoch
  output ← write_u32 output 4 info.tick
  output ← write_u32 output 8 info.initial_tick
  output ← write_u32 output 12 info.latest_created_tick
  output ← write_u16 output 16 info.initial_millisecond
  output ← put output 18 info.initial_second
  output ← put output 19 info.initial_minute
  output ← put output 20 info.initial_hour
  output ← put output 21 info.initial_day
  output ← put output 22 info.initial_month
  output ← put output 23 info.initial_year
  output ← write_u32 output 24 info.number_of_entities
  output ← write_u32 output 28 info.number_of_transactions
  output ← copy_into info.mining_seed output 32
  output ← write_u32 output 64 info.solution_threshold
  output ← write_u64 output 68 info.total_spectrum_amount
  output ← write_u64 output 76 info.current_entity_balance_dust_threshold
  output ← write_u32 output 84 info.target_tick_vote_signature
  output ← write_u64 output 88 info.computor_packet_signature
  output ← write_u64 output 96 info.solution_additional_threshold
  output ← write_u64 output 104 info.reserve2
  output ← write_u64 output 112 info.reserve3
  output ← write_u64 output 120 info.reserve4
  ok output

-- The loop over `count` public keys of 32 bytes each, from `offset` on.
unfoldable pub copy_keys : ℕ → Bytes → ℕ → Outcome Thrown (List Bytes)
copy_keys zero bytes offset = ok []
copy_keys (suc count) bytes offset = do
  public_key ← copy_from bytes offset 32
  rest ← copy_keys count bytes (offset + 32)
  ok (public_key ∷ rest)

unfoldable pub parse_computors : Frame → Outcome Thrown ComputorList
parse_computors frame = do
  throw_if (not (frame.message_type == broadcast_computors)) (protocol_error wrong_message_type)
  throw_if (not (length frame.payload == computors_payload_bytes))
      (protocol_error invalid_payload_size)
  epoch ← read_u16 frame.payload 0
  public_keys ← copy_keys computor_count frame.payload 2
  signature ← copy_from frame.payload computors_signed_payload_bytes computors_signature_bytes
  ok (record { epoch = epoch; public_keys = public_keys; signature = signature })

-- The loop over the public keys, which gives back the offset behind them.
unfoldable pub write_keys : List Bytes → Bytes → ℕ → Outcome Thrown (Bytes × ℕ)
write_keys [] output offset = ok (output, offset)
write_keys (public_key ∷ rest) output offset = do
  output ← copy_into public_key output offset
  write_keys rest output (offset + length public_key)

unfoldable pub serialize_computors_payload : ComputorList → Outcome Thrown Bytes
serialize_computors_payload computors = do
  output ← write_u16 (replicate computors_payload_bytes 0) 0 computors.epoch
  written ← write_keys computors.public_keys output 2
  output ← copy_into computors.signature (written.0) (written.1)
  ok output

-- `std::any_of` over the public keys.
unfoldable pub has_key : List Bytes → Bytes → Bool
has_key [] public_key = false
has_key (candidate ∷ rest) public_key = bytes_eq candidate public_key || has_key rest public_key

unfoldable pub contains_computor : ComputorList → Bytes → Bool
contains_computor computors public_key = has_key computors.public_keys public_key

unfoldable pub parse_entity : Frame → Outcome Thrown EntityInfo
parse_entity frame = do
  throw_if (not (frame.message_type == respond_entity)) (protocol_error wrong_message_type)
  throw_if (not (length frame.payload == entity_payload_bytes))
      (protocol_error invalid_payload_size)
  let bytes = frame.payload
  public_key ← copy_from bytes 0 32
  incoming_amount ← read_u64 bytes 32
  outgoing_amount ← read_u64 bytes 40
  number_of_incoming_transfers ← read_u32 bytes 48
  number_of_outgoing_transfers ← read_u32 bytes 52
  latest_incoming_transfer_tick ← read_u32 bytes 56
  latest_outgoing_transfer_tick ← read_u32 bytes 60
  tick ← read_u32 bytes 64
  spectrum_index ← read_u32 bytes 68
  siblings ← copy_keys entity_sibling_count bytes 72
  ok (record {
    public_key = public_key;
    incoming_amount = incoming_amount;
    outgoing_amount = outgoing_amount;
    number_of_incoming_transfers = number_of_incoming_transfers;
    number_of_outgoing_transfers = number_of_outgoing_transfers;
    latest_incoming_transfer_tick = latest_incoming_transfer_tick;
    latest_outgoing_transfer_tick = latest_outgoing_transfer_tick;
    tick = tick;
    spectrum_index = spectrum_index;
    siblings = siblings;
  })
