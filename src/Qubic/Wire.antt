-- ===== src/Qubic/Wire.antt =====
-- src/qubic/direct_node.cpp: the little-endian fields of a message, read by a checked offset and
-- written in place.
pub mod Layout
use xdna_npu_miner.Prelude.{
  ℕ, ◌+◌, ◌-◌, ◌*◌, ◌/◌, ◌%◌, ◌^◌, bit_or, ◌||◌, [], ◌∷◌, ◌++◌, leb, ltb, length, drop, take,
  Outcome, ok, fault, ◌>>=◌, ◌>>◌, throw_if, get, put, for_range, if◌then◌else◌,
}
use xdna_npu_miner.Prelude.Words.{add64}
use xdna_npu_miner.Bpp9000.Types.{Bytes}
use xdna_npu_miner.Bpp9000.Fields.{word_at, read_byte}
use xdna_npu_miner.Qubic.Types.{Thrown, protocol_error, truncated}

-- The guard of the three reads: `offset > bytes.size() || bytes.size() - offset < size`.
unfoldable pub require_bytes : Bytes → ℕ → ℕ → Outcome Thrown (Unit {0})
require_bytes bytes offset size =
    throw_if (ltb (length bytes) offset || ltb (length bytes - offset) size)
      (protocol_error truncated)

unfoldable pub read_u16 : Bytes → ℕ → Outcome Thrown ℕ
read_u16 bytes offset = do
  require_bytes bytes offset 2
  b0 ← get bytes offset
  b1 ← get bytes (add64 offset 1)
  ok (bit_or b0 (b1 * 2 ^ 8 % 2 ^ 16))

-- The return statement is that of `read_u32` of src/bpp9000/task.cpp, word for word.
unfoldable pub read_u32 : Bytes → ℕ → Outcome Thrown ℕ
read_u32 bytes offset = do require_bytes bytes offset 4; word_at bytes offset

-- The loop is that of `read_u64` of src/bpp9000/task.cpp.
unfoldable pub read_u64 : Bytes → ℕ → Outcome Thrown ℕ
read_u64 bytes offset = do require_bytes bytes offset 8; for_range 8 0 (read_byte bytes offset) 0

-- A write past the end is undefined, so `offset + 3` never gets to wrap around.
unfoldable pub write_u16 : Bytes → ℕ → ℕ → Outcome Thrown Bytes
write_u16 bytes offset value = do
  bytes ← put bytes offset (value % 256)
  put bytes (offset + 1) (value / 2 ^ 8 % 256)

unfoldable pub write_u32 : Bytes → ℕ → ℕ → Outcome Thrown Bytes
write_u32 bytes offset value = do
  bytes ← put bytes offset (value % 256)
  bytes ← put bytes (offset + 1) (value / 2 ^ 8 % 256)
  bytes ← put bytes (offset + 2) (value / 2 ^ 16 % 256)
  put bytes (offset + 3) (value / 2 ^ 24 % 256)

unfoldable pub write_u64 : Bytes → ℕ → ℕ → Outcome Thrown Bytes
write_u64 bytes offset value =
    for_range 8 0 (λ index bytes. put bytes (offset + index) (value / 2 ^ (8 * index) % 256)) bytes

unfoldable pub append_bytes : Bytes → Bytes → Bytes
append_bytes destination source = destination ++ source

-- `std::copy(source.begin(), source.end(), bytes.begin() + offset)`
unfoldable pub copy_into : Bytes → Bytes → ℕ → Outcome Thrown Bytes
copy_into [] bytes offset = ok bytes
copy_into (value ∷ source) bytes offset = do
  bytes ← put bytes offset value
  copy_into source bytes (offset + 1)

-- `std::copy_n(bytes.begin() + offset, count, ...)`, into an array of `count` bytes.
unfoldable pub copy_from : Bytes → ℕ → ℕ → Outcome Thrown Bytes
copy_from bytes offset count =
    if leb (offset + count) (length bytes) then ok (take count (drop offset bytes)) else fault
