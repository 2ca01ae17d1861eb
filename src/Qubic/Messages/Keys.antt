-- ===== src/Qubic/Messages/Keys.antt =====
-- The public keys of a message, and the payloads that hold them.
use xdna_npu_miner.Prelude.{
  ℕ, zero, suc, ◌+◌, ◌*◌, ◌<◌, ◌≡◌, refl, sym, ◌∙◌, List, [], ◌∷◌, arith, length, replicate,
  length-replicate, ok, ◌>>=◌, All, bind_ext, bind_assoc, ◌↔◌, inl, inr, Bool-cases, true, get_or,
}
use xdna_npu_miner.Bpp9000.Types.{Bytes, bytes_eq, bytes_eq_iff}
use xdna_npu_miner.Qubic.Types.{ComputorList, EntityInfo, respond_entity, broadcast_computors}
use xdna_npu_miner.Qubic.Wire.{copy_into, write_u16}
use xdna_npu_miner.Qubic.Messages.{
  copy_keys, write_keys, parse_computors, serialize_computors_payload, parse_entity, has_key,
  contains_computor,
}
use xdna_npu_miner.Qubic.Wire.Layout.{
  Field, word16, word32, word64, raw, images, Fits, Placed, write_all, total, length-images,
}
use xdna_npu_miner.Qubic.Wire.Layout.Write.{write_all_lem}
use xdna_npu_miner.Qubic.Wire.Layout.Read.{images_lem}

abbrev pub IsKey : Bytes → Type 0
IsKey public_key = length public_key ≡ 32

-- Public keys, and the fields `behind` them.
abbrev pub key_fields : List Bytes → List Field → List Field
key_fields [] behind = behind
key_fields (public_key ∷ rest) behind = raw public_key ∷ key_fields rest behind

total-keys :
    (public_keys : List Bytes) (behind : List Field)
    → All IsKey public_keys
    → total (key_fields public_keys behind) ≡ 32 * length public_keys + total behind
total-keys [] behind are = omega arith
total-keys (public_key ∷ rest) behind are = omega (arith, total-keys rest behind are.1, are.0)

pub Fits-keys :
    (public_keys : List Bytes) (behind : List Field)
    → All Fits behind
    → All Fits (key_fields public_keys behind)
Fits-keys [] behind fits = fits
Fits-keys (public_key ∷ rest) behind fits = (tt, Fits-keys rest behind fits)

copy_keys_lem :
    (public_keys : List Bytes) (behind : List Field) (bytes : Bytes) (offset : ℕ)
    → All IsKey public_keys
    → Placed (key_fields public_keys behind) bytes offset
    → (copy_keys (length public_keys) bytes offset ≡ ok public_keys)
      × Placed behind bytes (offset + 32 * length public_keys)
unfolding copy_keys
copy_keys_lem [] behind bytes offset are placed =
    let e : offset + 0 ≡ offset = omega arith in (refl, rw e placed)
copy_keys_lem (public_key ∷ rest) behind bytes offset are placed =
    let e : offset + 32 * suc (length rest) ≡ offset + 32 + 32 * length rest = omega arith in
    let (here, others) = rw (are.0) at placed in
    let (run, after) = copy_keys_lem rest behind bytes (offset + 32) are.1 others in
    (rw (here, run) refl, rw e after)

write_keys_lem :
    (public_keys : List Bytes) (last output : Bytes) (offset : ℕ)
    → (write_keys public_keys output offset >>= λ written.
        copy_into last (written.0) (written.1) >>= λ output. ok output)
      ≡ write_all (key_fields public_keys (raw last ∷ [])) output offset
unfolding write_keys
write_keys_lem [] last output offset = refl
write_keys_lem (public_key ∷ rest) last output offset =
    bind_assoc (copy_into public_key output offset) _ _
    ∙ bind_ext (copy_into public_key output offset) _ _
        (λ output. write_keys_lem rest last output (offset + length public_key))

abbrev pub computor_fields : ComputorList → List Field
computor_fields computors =
    word16 computors.epoch ∷ key_fields computors.public_keys (raw computors.signature ∷ [])

-- The sizes that the arrays of a `ComputorList` have.
abbrev pub IsComputors : ComputorList → Type 0
IsComputors computors =
    (computors.epoch < 0x1_0000)
    × (length computors.public_keys ≡ 676)
    × All IsKey computors.public_keys
    × (length computors.signature ≡ 64)

-- What the serializer does to a payload of the right size.
write_computors_lem :
    (computors : ComputorList) (zeros : Bytes)
    → length zeros ≡ total (computor_fields computors)
    → (write_u16 zeros 0 computors.epoch >>= λ output.
        write_keys computors.public_keys output 2 >>= λ written.
        copy_into computors.signature (written.0) (written.1) >>= λ output. ok output)
      ≡ ok (images (computor_fields computors))
write_computors_lem computors zeros e =
    bind_ext (write_u16 zeros 0 computors.epoch) _ _
      (λ output. write_keys_lem computors.public_keys computors.signature output 2)
    ∙ write_all_lem (computor_fields computors) zeros e

-- A list of computors, 676 keys of 32 bytes with a signature of 64, is what parsing the frame of
-- its serialized payload gives back.
pub computors_roundtrip :
    (computors : ComputorList) (dejavu : ℕ)
    → IsComputors computors
    → (serialize_computors_payload computors >>= λ payload.
        parse_computors
          (record { message_type = broadcast_computors; dejavu = dejavu; payload = payload }))
      ≡ ok computors
unfolding serialize_computors_payload parse_computors
computors_roundtrip computors dejavu (small, count, are, signed) =
    let fs = computor_fields computors in
    let sum : total fs ≡ 21698 =
      omega (arith, total-keys computors.public_keys (raw computors.signature ∷ []) are) in
    let written =
      write_computors_lem computors (replicate 21698 0)
        (length-replicate {A = ℕ} 21698 0 ∙ sym sum) in
    let sized : length (images fs) ≡ 21698 = length-images fs ∙ sum in
    let fits = Fits-keys computors.public_keys (raw computors.signature ∷ []) (tt, tt) in
    let (epoch, others) = images_lem fs (small, fits) (omega (arith, sum)) in
    let (keys, (last, _)) =
      copy_keys_lem computors.public_keys (raw computors.signature ∷ []) (images fs) 2 are others in
    rw written (rw (sized, epoch, rw count at keys, rw (count, signed) at last) refl)

-- The wire layout of an entity.
abbrev pub entity_fields : EntityInfo → List Field
entity_fields entity =
    raw entity.public_key
    ∷ word64 entity.incoming_amount
    ∷ word64 entity.outgoing_amount
    ∷ word32 entity.number_of_incoming_transfers
    ∷ word32 entity.number_of_outgoing_transfers
    ∷ word32 entity.latest_incoming_transfer_tick
    ∷ word32 entity.latest_outgoing_transfer_tick
    ∷ word32 entity.tick
    ∷ word32 entity.spectrum_index
    ∷ key_fields entity.siblings []

-- Every field fits its width, keys have 32 bytes, and there are 24 siblings.
abbrev pub IsEntity : EntityInfo → Type 0
IsEntity entity =
    All Fits (entity_fields entity)
    × IsKey entity.public_key
    × (length entity.siblings ≡ 24)
    × All IsKey entity.siblings

-- A response whose payload is the fields of an entity one after the other, each as wide as the
-- protocol makes it, is parsed into that entity.
pub parse_entity_lem :
    (entity : EntityInfo) (dejavu : ℕ)
    → IsEntity entity
    → parse_entity (record {
      message_type = respond_entity;
      dejavu = dejavu;
      payload = images (entity_fields entity);
    })
      ≡ ok entity
unfolding parse_entity
parse_entity_lem entity dejavu (fits, key, count, are) =
    let fs = entity_fields entity in
    let sum : total fs ≡ 840 = omega (arith, key, count, total-keys entity.siblings [] are) in
    let sized : length (images fs) ≡ 840 = length-images fs ∙ sum in
    let p = rw key at (images_lem fs fits (omega (arith, sum))) in
    let siblings = (copy_keys_lem entity.siblings [] (images fs) 72 are (p.1.1.1.1.1.1.1.1.1)).0 in
    rw
      (
        sized,
        p.0,
        p.1.0,
        p.1.1.0,
        p.1.1.1.0,
        p.1.1.1.1.0,
        p.1.1.1.1.1.0,
        p.1.1.1.1.1.1.0,
        p.1.1.1.1.1.1.1.0,
        p.1.1.1.1.1.1.1.1.0,
        rw count at siblings,
      )
      refl

has_key-found :
    (keys : List Bytes) (public_key : Bytes)
    → has_key keys public_key ≡ true
    → (i : ℕ) × (i < length keys) × (get_or keys i [] ≡ public_key)
unfolding has_key
has_key-found [] public_key h = cc
has_key-found (key ∷ keys) public_key h = elim (Bool-cases (bytes_eq key public_key)) [
  | inl same ↦ (0, omega arith, (bytes_eq_iff key public_key).0 same)
  | inr other ↦
      let (i, inside, at) = has_key-found keys public_key (rw other at h) in
      (suc i, omega (arith, inside), at)
]

found-has_key :
    (keys : List Bytes) (public_key : Bytes) (i : ℕ)
    → i < length keys
    → get_or keys i [] ≡ public_key
    → has_key keys public_key ≡ true
unfolding has_key
found-has_key [] public_key i inside at = absurd (omega arith)
found-has_key (key ∷ keys) public_key zero inside at = rw ((bytes_eq_iff key public_key).1 at) refl
found-has_key (key ∷ keys) public_key (suc i) inside at =
    elim (Bool-cases (bytes_eq key public_key)) [
      | inl same ↦ rw same refl
      | inr other ↦ rw other (found-has_key keys public_key i (omega (arith, inside)) at)
    ]

-- A key is among the computors exactly when it stands at some index of their list.
pub contains_computor_iff :
    (computors : ComputorList) (public_key : Bytes)
    → (contains_computor computors public_key ≡ true) ↔ (
        (i : ℕ) × (i < length computors.public_keys)
        × (get_or computors.public_keys i [] ≡ public_key))
unfolding contains_computor
contains_computor_iff computors public_key =
    let keys = computors.public_keys in
    (has_key-found keys public_key, λ (i, inside, at). found-has_key keys public_key i inside at)
