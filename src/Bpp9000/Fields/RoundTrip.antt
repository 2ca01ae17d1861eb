-- ===== src/Bpp9000/Fields/RoundTrip.antt =====
-- Reading a field where it was written gives it back.
use xdna_npu_miner.Prelude.{
  ℕ, zero, suc, ◌+◌, ◌*◌, ◌/◌, ◌%◌, ◌^◌, ◌<◌, ◌≤◌, ◌≡◌, refl, sym, ◌∙◌, bit_or, [], ◌∷◌, ◌++◌,
  arith, length, get_or, get_in_range, for_range, length-append, get_or-append_left,
  get_or-append_right, ok, for_range_inv,
}
use mathlib.Core.List.{append-nil, append_assoc}
use xdna_npu_miner.Prelude.Bits.{bit_or_fields}
use xdna_npu_miner.Prelude.Words.{IsU32, IsU64}
use xdna_npu_miner.Bpp9000.Types.{Bytes, Exception}
use xdna_npu_miner.Bpp9000.Fields.{
  require_field, word_at, read_u32, read_byte, read_u64, write_bytes, write_u32, write_u64,
}

-- The next byte of a word, put above its low `k` bits.
pub joined :
    (k v : ℕ)
    → 0 < 2 ^ k
    → bit_or (v % 2 ^ k) (v / 2 ^ k % 256 * 2 ^ k) ≡ v % 2 ^ k + v / 2 ^ k % 256 * 2 ^ k
joined k v pos = bit_or_fields k (v / 2 ^ k % 256) (v % 2 ^ k) (grind arith)

-- The bytes of a word stand at `offset`.
unfoldable pub Stands : ℕ → ℕ → Bytes → ℕ → Type 0
Stands count v bytes offset =
    (i : ℕ) → i < count → get_or bytes (offset + i) 0 ≡ v / 2 ^ (8 * i) % 256

pub word_at_lem :
    {E : Type 0} (v offset : ℕ) (bytes : Bytes)
    → IsU32 v
    → offset + 4 ≤ length bytes
    → IsU64 (length bytes)
    → Stands 4 v bytes offset
    → word_at {E = E} bytes offset ≡ ok v
unfolding word_at Stands
word_at_lem {E = E} v offset bytes small inside sized at =
    let start : offset + 0 ≡ offset = omega arith in
    let b0 : get_or bytes offset 0 ≡ v % 2 ^ 8 = omega (arith, rw start at (at 0 (omega arith))) in
    let w1 : v / 2 ^ 8 % 256 * 2 ^ 8 % 2 ^ 32 ≡ v / 2 ^ 8 % 256 * 2 ^ 8 = omega arith in
    let s1 : v % 2 ^ 8 + v / 2 ^ 8 % 256 * 2 ^ 8 ≡ v % 2 ^ 16 = omega arith in
    let w2 : v / 2 ^ 16 % 256 * 2 ^ 16 % 2 ^ 32 ≡ v / 2 ^ 16 % 256 * 2 ^ 16 = omega arith in
    let s2 : v % 2 ^ 16 + v / 2 ^ 16 % 256 * 2 ^ 16 ≡ v % 2 ^ 24 = omega arith in
    let w3 : v / 2 ^ 24 % 256 * 2 ^ 24 % 2 ^ 32 ≡ v / 2 ^ 24 % 256 * 2 ^ 24 = omega arith in
    let s3 : v % 2 ^ 24 + v / 2 ^ 24 % 256 * 2 ^ 24 ≡ v = omega arith in
    let sum : bit_or
          (bit_or (bit_or (v % 2 ^ 8) (v / 2 ^ 8 % 256 * 2 ^ 8 % 2 ^ 32))
            (v / 2 ^ 16 % 256 * 2 ^ 16 % 2 ^ 32))
          (v / 2 ^ 24 % 256 * 2 ^ 24 % 2 ^ 32)
        ≡ v =
      rw
        (
          w1,
          joined 8 v (omega arith),
          s1,
          w2,
          joined 16 v (omega arith),
          s2,
          w3,
          joined 24 v (omega arith),
        )
        s3 in
    ground (
      arith,
      get_in_range {E = E} bytes offset 0 (omega arith),
      get_in_range {E = E} bytes (offset + 1) 0 (omega arith),
      get_in_range {E = E} bytes (offset + 2) 0 (omega arith),
      get_in_range {E = E} bytes (offset + 3) 0 (omega arith),
      b0,
      at 1 (omega arith),
      at 2 (omega arith),
      at 3 (omega arith),
      sum,
    )

read_u32_lem :
    (v offset : ℕ) (bytes : Bytes)
    → IsU32 v
    → offset + 4 ≤ length bytes
    → IsU64 (length bytes)
    → Stands 4 v bytes offset
    → read_u32 bytes offset ≡ ok v
unfolding read_u32 require_field
read_u32_lem v offset bytes small inside sized at =
    ground (arith, word_at_lem {E = Exception} v offset bytes small inside sized at)

word_byte :
    (k next v : ℕ)
    → 0 < 2 ^ k
    → v / 2 ^ k % 256 * 2 ^ k % 2 ^ 64 ≡ v / 2 ^ k % 256 * 2 ^ k
    → v % 2 ^ k + v / 2 ^ k % 256 * 2 ^ k ≡ v % 2 ^ next
    → bit_or (v % 2 ^ k) (v / 2 ^ k % 256 * 2 ^ k % 2 ^ 64) ≡ v % 2 ^ next
word_byte k next v pos fits sum = rw (fits, joined k v pos) sum

word_step :
    (v i : ℕ)
    → i < 8
    → bit_or (v % 2 ^ (8 * i)) (v / 2 ^ (8 * i) % 256 * 2 ^ (8 * i) % 2 ^ 64)
      ≡ v % 2 ^ (8 * (i + 1))
word_step v zero h = word_byte 0 8 v (omega arith) (omega arith) (omega arith)
word_step v (suc zero) h = word_byte 8 16 v (omega arith) (omega arith) (omega arith)
word_step v (suc (suc zero)) h = word_byte 16 24 v (omega arith) (omega arith) (omega arith)
word_step v (suc (suc (suc zero))) h = word_byte 24 32 v (omega arith) (omega arith) (omega arith)
word_step v (suc (suc (suc (suc zero)))) h =
    word_byte 32 40 v (omega arith) (omega arith) (omega arith)
word_step v (suc (suc (suc (suc (suc zero))))) h =
    word_byte 40 48 v (omega arith) (omega arith) (omega arith)
word_step v (suc (suc (suc (suc (suc (suc zero)))))) h =
    word_byte 48 56 v (omega arith) (omega arith) (omega arith)
word_step v (suc (suc (suc (suc (suc (suc (suc i))))))) h =
    let e : i ≡ 0 = omega arith in
    rw e (word_byte 56 64 v (omega arith) (omega arith) (omega arith))

pub read_bytes_lem :
    {E : Type 0} (v offset : ℕ) (bytes : Bytes)
    → IsU64 v
    → offset + 8 ≤ length bytes
    → IsU64 (length bytes)
    → Stands 8 v bytes offset
    → for_range 8 0 (read_byte {E = E} bytes offset) 0 ≡ ok v
unfolding read_byte Stands
read_bytes_lem {E = E} v offset bytes small inside sized at =
    let (r, run, last) =
      for_range_inv (λ i value. value ≡ v % 2 ^ (8 * i)) (read_byte {E = E} bytes offset) 8
        (λ i value p q.
          let place : (offset + i) % 0x1_0000_0000_0000_0000 ≡ offset + i = omega arith in
          (
            v % 2 ^ (8 * (i + 1)),
            rw
                (
                  place,
                  get_in_range {E = E} bytes (offset + i) 0 (omega arith),
                  at i p,
                  q,
                  word_step v i p,
                )
                refl,
            refl,
          ))
        8 0 0 refl (omega arith) in
    let whole : r ≡ v = omega arith in rw (← whole) run

read_u64_lem :
    (v offset : ℕ) (bytes : Bytes)
    → IsU64 v
    → offset + 8 ≤ length bytes
    → IsU64 (length bytes)
    → Stands 8 v bytes offset
    → read_u64 bytes offset ≡ ok v
unfolding read_u64 require_field
read_u64_lem v offset bytes small inside sized at =
    ground (arith, read_bytes_lem {E = Exception} v offset bytes small inside sized at)

-- The bytes that the loops write.
unfoldable pub word_bytes : ℕ → ℕ → ℕ → Bytes
word_bytes zero i v = []
word_bytes (suc count) i v = v / 2 ^ (8 * i) % 256 ∷ word_bytes count (i + 1) v

write_bytes_lem :
    (count i v : ℕ) (bytes : Bytes) → write_bytes count i v bytes ≡ bytes ++ word_bytes count i v
unfolding write_bytes word_bytes
write_bytes_lem zero i v bytes = sym (append-nil bytes)
write_bytes_lem (suc count) i v bytes =
    write_bytes_lem count (i + 1) v (bytes ++ (v / 2 ^ (8 * i) % 256 ∷ []))
    ∙ append_assoc bytes (v / 2 ^ (8 * i) % 256 ∷ []) (word_bytes count (i + 1) v)

pub length-word_bytes : (count i v : ℕ) → length (word_bytes count i v) ≡ count
unfolding word_bytes
length-word_bytes zero i v = refl
length-word_bytes (suc count) i v = omega (arith, length-word_bytes count (i + 1) v)

pub get_or-word_bytes :
    (count i v k : ℕ) → k < count → get_or (word_bytes count i v) k 0 ≡ v / 2 ^ (8 * (i + k)) % 256
unfolding word_bytes
get_or-word_bytes zero i v k h = absurd (omega arith)
get_or-word_bytes (suc count) i v zero h = let e : i + 0 ≡ i = omega arith in rw e refl
get_or-word_bytes (suc count) i v (suc k) h =
    let e : i + suc k ≡ i + 1 + k = omega arith in
    rw e (get_or-word_bytes count (i + 1) v k (omega arith))

write_bytes-Stands :
    (count v : ℕ) (before after : Bytes)
    → Stands count v (write_bytes count 0 v before ++ after) (length before)
      × (length (write_bytes count 0 v before ++ after) ≡ length before + count + length after)
unfolding Stands
write_bytes-Stands count v before after =
    let word = word_bytes count 0 v in
    rw (write_bytes_lem count 0 v before, append_assoc before word after)
      (
        λ i h.
            let e : 0 + i ≡ i = omega arith in
            get_or-append_right before (word ++ after) i 0
            ∙ get_or-append_left word after i 0 (omega (arith, length-word_bytes count 0 v))
            ∙ rw e at (get_or-word_bytes count 0 v i h),
        omega (
          arith,
          length-append before (word ++ after),
          length-append word after,
          length-word_bytes count 0 v,
        ),
      )

-- A 32-bit word that `write_u32` appended to `before` is what `read_u32` reads there, whatever
-- follows it, while the whole fits a 64-bit size.
pub read-write_u32 :
    (v : ℕ) (before after : Bytes)
    → IsU32 v
    → IsU64 (length before + 4 + length after)
    → read_u32 (write_u32 before v ++ after) (length before) ≡ ok v
unfolding write_u32
read-write_u32 v before after small sized =
    let (at, size) = write_bytes-Stands 4 v before after in
    read_u32_lem v (length before) (write_bytes 4 0 v before ++ after) small (omega arith)
      (omega arith) at

-- A 64-bit word that `write_u64` appended to `before` is what `read_u64` reads there, whatever
-- follows it, while the whole fits a 64-bit size.
pub read-write_u64 :
    (v : ℕ) (before after : Bytes)
    → IsU64 v
    → IsU64 (length before + 8 + length after)
    → read_u64 (write_u64 before v ++ after) (length before) ≡ ok v
unfolding write_u64
read-write_u64 v before after small sized =
    let (at, size) = write_bytes-Stands 8 v before after in
    read_u64_lem v (length before) (write_bytes 8 0 v before ++ after) small (omega arith)
      (omega arith) at
