-- ===== src/Qubic/Messages/RoundTrip.antt =====
-- Payloads that are serialized and parsed again.
use xdna_npu_miner.Prelude.{ℕ, ◌≡◌, refl, List, [], ◌∷◌, arith, length, replicate, ok, ◌>>=◌, All}
use xdna_npu_miner.Bpp9000.Types.{Bytes}
use xdna_npu_miner.Qubic.Types.{SystemInfo, respond_system_info}
use xdna_npu_miner.Qubic.Messages.{parse_system_info, serialize_system_info_payload}
use xdna_npu_miner.Qubic.Wire.Layout.{
  Field, byte, word16, word32, word64, raw, images, Fits, Placed, total, length-images,
}
use xdna_npu_miner.Qubic.Wire.Layout.Write.{write_all_lem}
use xdna_npu_miner.Qubic.Wire.Layout.Read.{images_lem}

-- The fields of system information in the order of the payload.
abbrev pub system_fields : SystemInfo → List Field
system_fields info =
    word16 info.version
    ∷ word16 info.epoch
    ∷ word32 info.tick
    ∷ word32 info.initial_tick
    ∷ word32 info.latest_created_tick
    ∷ word16 info.initial_millisecond
    ∷ byte info.initial_second
    ∷ byte info.initial_minute
    ∷ byte info.initial_hour
    ∷ byte info.initial_day
    ∷ byte info.initial_month
    ∷ byte info.initial_year
    ∷ word32 info.number_of_entities
    ∷ word32 info.number_of_transactions
    ∷ raw info.mining_seed
    ∷ word32 info.solution_threshold
    ∷ word64 info.total_spectrum_amount
    ∷ word64 info.current_entity_balance_dust_threshold
    ∷ word32 info.target_tick_vote_signature
    ∷ word64 info.computor_packet_signature
    ∷ word64 info.solution_additional_threshold
    ∷ word64 info.reserve2
    ∷ word64 info.reserve3
    ∷ word64 info.reserve4
    ∷ []

serialize_system_info_lem :
    (info : SystemInfo)
    → length info.mining_seed ≡ 32
    → serialize_system_info_payload info ≡ ok (images (system_fields info))
unfolding serialize_system_info_payload
serialize_system_info_lem info e =
    let zeros : length {A = ℕ} (replicate 128 0) ≡ total (system_fields info) = omega (arith, e) in
    rw e at (write_all_lem (system_fields info) (replicate 128 0) zeros)

parse_system_info_lem :
    (info : SystemInfo) (dejavu : ℕ) (bytes : Bytes)
    → length info.mining_seed ≡ 32
    → length bytes ≡ 128
    → Placed (system_fields info) bytes 0
    → parse_system_info
        (record { message_type = respond_system_info; dejavu = dejavu; payload = bytes })
      ≡ ok info
unfolding parse_system_info
parse_system_info_lem info dejavu bytes e size placed =
    let p = rw e at placed in
    rw
      (
        size, p.0, p.1.0, p.1.1.0, p.1.1.1.0, p.1.1.1.1.0, p.1.1.1.1.1.0, p.1.1.1.1.1.1.0,
        p.1.1.1.1.1.1.1.0, p.1.1.1.1.1.1.1.1.0, p.1.1.1.1.1.1.1.1.1.0, p.1.1.1.1.1.1.1.1.1.1.0,
        p.1.1.1.1.1.1.1.1.1.1.1.0, p.1.1.1.1.1.1.1.1.1.1.1.1.0, p.1.1.1.1.1.1.1.1.1.1.1.1.1.0,
        p.1.1.1.1.1.1.1.1.1.1.1.1.1.1.0, p.1.1.1.1.1.1.1.1.1.1.1.1.1.1.1.0,
        p.1.1.1.1.1.1.1.1.1.1.1.1.1.1.1.1.0, p.1.1.1.1.1.1.1.1.1.1.1.1.1.1.1.1.1.0,
        p.1.1.1.1.1.1.1.1.1.1.1.1.1.1.1.1.1.1.0, p.1.1.1.1.1.1.1.1.1.1.1.1.1.1.1.1.1.1.1.0,
        p.1.1.1.1.1.1.1.1.1.1.1.1.1.1.1.1.1.1.1.1.0, p.1.1.1.1.1.1.1.1.1.1.1.1.1.1.1.1.1.1.1.1.1.0,
        p.1.1.1.1.1.1.1.1.1.1.1.1.1.1.1.1.1.1.1.1.1.1.0,
        p.1.1.1.1.1.1.1.1.1.1.1.1.1.1.1.1.1.1.1.1.1.1.1.0,
      )
      refl

-- System information with fields that fit their width, and a seed of 32 bytes, is what parsing the
-- frame of its serialized payload gives back.
pub system_info_roundtrip :
    (info : SystemInfo) (dejavu : ℕ)
    → All Fits (system_fields info)
    → length info.mining_seed ≡ 32
    → (serialize_system_info_payload info >>= λ payload.
        parse_system_info
          (record { message_type = respond_system_info; dejavu = dejavu; payload = payload }))
      ≡ ok info
system_info_roundtrip info dejavu fits e =
    let size : length (images (system_fields info)) ≡ 128 =
      omega (arith, e, length-images (system_fields info)) in
    rw (serialize_system_info_lem info e) (
      parse_system_info_lem info dejavu (images (system_fields info)) e size
        (images_lem (system_fields info) fits (omega (arith, e))))
