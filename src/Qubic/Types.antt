-- ===== src/Qubic/Types.antt =====
-- src/qubic/direct_node.hpp: the sizes and the message types of the protocol, its errors and its
-- records of data.
use xdna_npu_miner.Prelude.{ℕ, ◌+◌, ◌*◌, List}
use xdna_npu_miner.Bpp9000.Types.{Bytes}

abbrev pub request_response_header_bytes : ℕ
request_response_header_bytes = 8

abbrev pub exchange_public_peers_payload_bytes : ℕ
exchange_public_peers_payload_bytes = 16

abbrev pub system_info_payload_bytes : ℕ
system_info_payload_bytes = 128

abbrev pub computor_count : ℕ
computor_count = 676

abbrev pub computors_signature_bytes : ℕ
computors_signature_bytes = 64

abbrev pub computors_signed_payload_bytes : ℕ
computors_signed_payload_bytes = 2 + computor_count * 32

abbrev pub computors_payload_bytes : ℕ
computors_payload_bytes = computors_signed_payload_bytes + computors_signature_bytes

abbrev pub entity_sibling_count : ℕ
entity_sibling_count = 24

abbrev pub entity_payload_bytes : ℕ
entity_payload_bytes = 64 + 4 + 4 + entity_sibling_count * 32

abbrev pub broadcast_payload_bytes : ℕ
broadcast_payload_bytes = 228

abbrev pub encrypted_solution_bytes : ℕ
encrypted_solution_bytes = 68

abbrev pub signature_bytes : ℕ
signature_bytes = 64

abbrev pub maximum_frame_bytes : ℕ
maximum_frame_bytes = 0x00ff_ffff

abbrev pub exchange_public_peers : ℕ
exchange_public_peers = 0

abbrev pub broadcast_message : ℕ
broadcast_message = 1

abbrev pub broadcast_computors : ℕ
broadcast_computors = 2

abbrev pub request_computors_type : ℕ
request_computors_type = 11

abbrev pub request_system_info_type : ℕ
request_system_info_type = 46

abbrev pub respond_system_info : ℕ
respond_system_info = 47

abbrev pub request_entity_type : ℕ
request_entity_type = 31

abbrev pub respond_entity : ℕ
respond_entity = 32

abbrev pub solution_message : ℕ
solution_message = 0

pub data ProtocolErrorCode : Type 0 where
  truncated invalid_frame_size frame_too_large wrong_message_type : ProtocolErrorCode
  invalid_payload_size invalid_system_info unsupported_algorithm : ProtocolErrorCode
  invalid_task invalid_seed invalid_threshold stale_context invalid_nonce : ProtocolErrorCode
  invalid_score score_mismatch missing_signing_material crypto_unavailable : ProtocolErrorCode
  invalid_gamma_nonce invalid_endpoint : ProtocolErrorCode

-- What direct_node.cpp throws: a `ProtocolError` with its code, a `TransportError`, or a
-- `ResourceLimitError`. The messages are left out.
pub data Thrown : Type 0 where
  protocol_error : ProtocolErrorCode → Thrown
  transport_error resource_limit_error : Thrown

-- `type` is a word of the language.
pub record Frame : Type 0 where
  pub message_type : ℕ
  pub dejavu : ℕ
  pub payload : Bytes

-- Signed fields hold the two's complement of their value, as on the wire.
pub record SystemInfo : Type 0 where
  pub version : ℕ
  pub epoch : ℕ
  pub tick : ℕ
  pub initial_tick : ℕ
  pub latest_created_tick : ℕ
  pub initial_millisecond : ℕ
  pub initial_second : ℕ
  pub initial_minute : ℕ
  pub initial_hour : ℕ
  pub initial_day : ℕ
  pub initial_month : ℕ
  pub initial_year : ℕ
  pub number_of_entities : ℕ
  pub number_of_transactions : ℕ
  pub mining_seed : Bytes
  pub solution_threshold : ℕ
  pub total_spectrum_amount : ℕ
  pub current_entity_balance_dust_threshold : ℕ
  pub target_tick_vote_signature : ℕ
  pub computor_packet_signature : ℕ
  pub solution_additional_threshold : ℕ
  pub reserve2 : ℕ
  pub reserve3 : ℕ
  pub reserve4 : ℕ

pub record ComputorList : Type 0 where
  pub epoch : ℕ
  pub public_keys : List Bytes
  pub signature : Bytes

pub record EntityInfo : Type 0 where
  pub public_key : Bytes
  pub incoming_amount : ℕ
  pub outgoing_amount : ℕ
  pub number_of_incoming_transfers : ℕ
  pub number_of_outgoing_transfers : ℕ
  pub latest_incoming_transfer_tick : ℕ
  pub latest_outgoing_transfer_tick : ℕ
  pub tick : ℕ
  pub spectrum_index : ℕ
  pub siblings : List Bytes
