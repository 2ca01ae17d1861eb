-- ===== src/Bpp9000/Fields.antt =====
-- src/bpp9000/task.cpp: the checked sizes, and the little-endian fields of a task file.
pub mod RoundTrip
use xdna_npu_miner.Prelude.{
  ℕ, zero, suc, ◌+◌, ◌-◌, ◌*◌, ◌/◌, ◌%◌, ◌^◌, bit_or, not, ◌&&◌, ◌||◌, List, [], ◌∷◌, ◌++◌, ltb,
  ◌==◌, length, drop, take, Outcome, ok, ◌>>=◌, ◌>>◌, throw_if, get, for_range,
}
use xdna_npu_miner.Prelude.Words.{u64_max, mul64, add64}
use xdna_npu_miner.Bpp9000.Types.{Bytes, Exception, task_error, truncated, bad_length, hash_bytes}

unfoldable pub checked_to_size : ℕ → Outcome Exception ℕ
checked_to_size value = do throw_if (ltb u64_max value) (task_error bad_length); ok value

unfoldable pub checked_add : ℕ → ℕ → Outcome Exception ℕ
checked_add left right = do
  throw_if (ltb (u64_max - left) right) (task_error bad_length)
  ok (add64 left right)

unfoldable pub checked_multiply : ℕ → ℕ → Outcome Exception ℕ
checked_multiply left right = do
  throw_if (not (left == 0) && ltb (u64_max / left) right) (task_error bad_length)
  ok (mul64 left right)

-- `offset > bytes.size() || bytes.size() - offset < size`, or a throw.
unfoldable pub require_field : Bytes → ℕ → ℕ → Outcome Exception (Unit {0})
require_field bytes offset size =
    throw_if (ltb (length bytes) offset || ltb (length bytes - offset) size) (task_error truncated)

-- The four bytes from `offset` on, joined, under any type of errors.
unfoldable pub word_at : {E : Type 0} → Bytes → ℕ → Outcome E ℕ
word_at bytes offset = do
  b0 ← get bytes offset
  b1 ← get bytes (add64 offset 1)
  b2 ← get bytes (add64 offset 2)
  b3 ← get bytes (add64 offset 3)
  ok (
      bit_or (bit_or (bit_or b0 (b1 * 2 ^ 8 % 2 ^ 32)) (b2 * 2 ^ 16 % 2 ^ 32))
        (b3 * 2 ^ 24 % 2 ^ 32))

unfoldable pub read_u32 : Bytes → ℕ → Outcome Exception ℕ
read_u32 bytes offset = do require_field bytes offset 4; word_at bytes offset

-- One byte of the loop of `read_u64`, under any type of errors.
unfoldable pub read_byte : {E : Type 0} → Bytes → ℕ → ℕ → ℕ → Outcome E ℕ
read_byte bytes offset i value = do
  byte ← get bytes (add64 offset i)
  ok (bit_or value (byte * 2 ^ (8 * i) % 2 ^ 64))

unfoldable pub read_u64 : Bytes → ℕ → Outcome Exception ℕ
read_u64 bytes offset = do require_field bytes offset 8; for_range 8 0 (read_byte bytes offset) 0

-- `for (i = first; i < first + count; ++i) bytes.push_back(static_cast<Byte>(value >> (8U * i)));`
unfoldable pub write_bytes : ℕ → ℕ → ℕ → Bytes → Bytes
write_bytes zero i value bytes = bytes
write_bytes (suc count) i value bytes =
    write_bytes count (i + 1) value (bytes ++ (value / 2 ^ (8 * i) % 256 ∷ []))

unfoldable pub write_u32 : Bytes → ℕ → Bytes
write_u32 bytes value = write_bytes 4 0 value bytes

unfoldable pub write_u64 : Bytes → ℕ → Bytes
write_u64 bytes value = write_bytes 8 0 value bytes

unfoldable pub write_digest : Bytes → Bytes → Bytes
write_digest bytes digest = bytes ++ digest

unfoldable pub read_digest : Bytes → ℕ → Outcome Exception Bytes
read_digest bytes offset = do
  require_field bytes offset hash_bytes
  ok (take hash_bytes (drop offset bytes))
