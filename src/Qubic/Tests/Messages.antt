-- ===== src/Qubic/Tests/Messages.antt =====
-- Payloads at concrete values.
use xdna_npu_miner.Prelude.{
  ◌≡◌, refl, arith, [], length, replicate, length-replicate, All, All-replicate, true, ok, ◌>>=◌,
}
use xdna_npu_miner.Bpp9000.Types.{Bytes}
use xdna_npu_miner.Qubic.Types.{
  ComputorList, EntityInfo, respond_system_info, broadcast_computors, respond_entity,
}
use xdna_npu_miner.Qubic.Messages.{
  parse_system_info, serialize_system_info_payload, parse_computors, serialize_computors_payload,
  contains_computor, parse_entity,
}
use xdna_npu_miner.Qubic.Wire.Layout.{Fits, images}
use xdna_npu_miner.Qubic.Messages.RoundTrip.{system_fields, system_info_roundtrip}
use xdna_npu_miner.Qubic.Messages.Keys.{
  IsComputors, computors_roundtrip, IsEntity, entity_fields, Fits-keys, parse_entity_lem,
  contains_computor_iff,
}
use xdna_npu_miner.Qubic.Tests.{key_of, info}

info-Fits : All Fits (system_fields info)
info-Fits = (
  omega arith,
  (
    omega arith,
    (
      omega arith,
      (
        omega arith,
        (
          omega arith,
          (
            omega arith,
            (
              omega arith,
              (
                omega arith,
                (
                  omega arith,
                  (
                    omega arith,
                    (
                      omega arith,
                      (
                        omega arith,
                        (
                          omega arith,
                          (
                            omega arith,
                            (
                              tt,
                              (
                                omega arith,
                                (
                                  omega arith,
                                  (
                                    omega arith,
                                    (
                                      omega arith,
                                      (
                                        omega arith,
                                        (
                                          omega arith,
                                          (omega arith, (omega arith, (omega arith, tt))),
                                        ),
                                      ),
                                    ),
                                  ),
                                ),
                              ),
                            ),
                          ),
                        ),
                      ),
                    ),
                  ),
                ),
              ),
            ),
          ),
        ),
      ),
    ),
  ),
)

system_info_roundtrip_example :
    (serialize_system_info_payload info >>= λ payload.
    parse_system_info
      (record { message_type = respond_system_info; dejavu = 11; payload = payload }))
    ≡ ok info
system_info_roundtrip_example = system_info_roundtrip info 11 info-Fits refl

abbrev computors : ComputorList
computors = record {
  epoch = 180;
  public_keys = replicate 676 (key_of 3);
  signature = replicate 64 255;
}

computors-IsComputors : IsComputors computors
computors-IsComputors = (
  omega arith,
  length-replicate {A = Bytes} 676 (key_of 3),
  All-replicate (λ public_key. length public_key ≡ 32) 676 (key_of 3) refl,
  refl,
)

computors_roundtrip_example :
    (serialize_computors_payload computors >>= λ payload.
    parse_computors (record { message_type = broadcast_computors; dejavu = 0; payload = payload }))
    ≡ ok computors
computors_roundtrip_example = computors_roundtrip computors 0 computors-IsComputors

contains_computor_iff_example : contains_computor computors (key_of 3) ≡ true
contains_computor_iff_example =
    (contains_computor_iff computors (key_of 3)).1 (0, omega arith, refl)

abbrev entity : EntityInfo
entity = record {
  public_key = key_of 3;
  incoming_amount = 1000000;
  outgoing_amount = 18446744073709551615;
  number_of_incoming_transfers = 4;
  number_of_outgoing_transfers = 2;
  latest_incoming_transfer_tick = 29999999;
  latest_outgoing_transfer_tick = 29999990;
  tick = 30000000;
  spectrum_index = 4294967295;
  siblings = replicate 24 (key_of 6);
}

entity-IsEntity : IsEntity entity
entity-IsEntity = (
  (
    tt,
    (
      omega arith,
      (
        omega arith,
        (
          omega arith,
          (
            omega arith,
            (
              omega arith,
              (
                omega arith,
                (omega arith, (omega arith, Fits-keys (replicate 24 (key_of 6)) [] tt)),
              ),
            ),
          ),
        ),
      ),
    ),
  ),
  refl,
  refl,
  All-replicate (λ public_key. length public_key ≡ 32) 24 (key_of 6) refl,
)

parse_entity_lem_example :
    parse_entity (record {
      message_type = respond_entity;
      dejavu = 1;
      payload = images (entity_fields entity);
    })
    ≡ ok entity
parse_entity_lem_example = parse_entity_lem entity 1 entity-IsEntity
