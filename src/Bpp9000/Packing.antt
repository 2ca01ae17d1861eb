-- ===== src/Bpp9000/Packing.antt =====
-- src/bpp9000/task.cpp, `pack_trits` and `unpack_trits`: five trits in a byte, base 3, lowest first.
pub mod Pack
pub mod Unpack
pub mod RoundTrip
use xdna_npu_miner.Prelude.{
  ℕ, zero, suc, ◌+◌, ◌*◌, ◌/◌, ◌%◌, not, List, ltb, leb, if◌then◌else◌, length, replicate, Outcome,
  ok, ◌>>=◌, ◌>>◌, throw_if, get, put, for_range,
}
use xdna_npu_miner.Prelude.Words.{mul64, add64, add32}
use xdna_npu_miner.Bpp9000.Types.{
  Byte, Bytes, Trit, Exception, task_error, truncated, invalid_domain_value, invalid_packed_trit,
  is_valid_trit_byte, trits_per_packed_byte, packed_byte_limit, zero_trit,
}
use xdna_npu_miner.Bpp9000.Fields.{checked_add, checked_to_size}

unfoldable pub packed_bytes_for_trits : ℕ → Outcome Exception ℕ
packed_bytes_for_trits trit_count = do
  numerator ← checked_add trit_count 4
  checked_to_size (numerator / trits_per_packed_byte)

-- `for (i = 0; i < position; ++i) weight *= 3;`
unfoldable pub weight_of : ℕ → ℕ → ℕ
weight_of zero weight = weight
weight_of (suc position) weight = weight_of position (weight * 3 % 0x1_0000_0000)

-- The body of the loop of `pack_trits`.
unfoldable pub pack_trit : List Trit → ℕ → Bytes → Outcome Exception Bytes
pack_trit trits index packed = do
  value ← get trits index
  throw_if (not (is_valid_trit_byte value)) (task_error invalid_domain_value)
  existing ← get packed (index / trits_per_packed_byte)
  let weight = weight_of (index % trits_per_packed_byte) 1
  put packed (index / trits_per_packed_byte) (add32 existing (value * weight % 0x1_0000_0000) % 256)

unfoldable pub pack_trits : List Trit → Outcome Exception Bytes
pack_trits trits = do
  size ← packed_bytes_for_trits (length trits)
  for_range (length trits) 0 (pack_trit trits) (replicate size 0)

-- The bodies of the loops of `unpack_trits`: one trit, with what is left of the byte, and one byte.
unfoldable pub unpack_trit : ℕ → ℕ → ℕ → ℕ × List Trit → Outcome Exception (ℕ × List Trit)
unpack_trit trit_count byte_index position (value, trits) = do
  let trit_index = add64 (mul64 byte_index trits_per_packed_byte) position
  trits' ← if ltb trit_index trit_count then put trits trit_index (value % 3) else ok trits
  ok (value / 3, trits')

unfoldable pub unpack_byte : Bytes → ℕ → ℕ → List Trit → Outcome Exception (List Trit)
unpack_byte packed trit_count byte_index trits = do
  value ← get packed byte_index
  throw_if (leb packed_byte_limit value) (task_error invalid_packed_trit)
  (rest, trits') ←
      for_range trits_per_packed_byte 0 (unpack_trit trit_count byte_index) (value, trits)
  ok trits'

unfoldable pub unpack_trits : Bytes → ℕ → Outcome Exception (List Trit)
unpack_trits packed trit_count = do
  required ← packed_bytes_for_trits trit_count
  throw_if (ltb (length packed) required) (task_error truncated)
  for_range required 0 (unpack_byte packed trit_count) (replicate trit_count zero_trit)
