-- ===== src/Bpp9000/Packing/Unpack.antt =====
-- `unpack_trits` reads the base-3 digits of the bytes.
use xdna_npu_miner.Prelude.{
  ℕ, zero, suc, ◌+◌, ◌*◌, ◌/◌, ◌%◌, ◌<◌, ◌≤◌, ◌≡◌, refl, sym, List, inl, inr, arith, ltb, length,
  get_or, set, replicate, length-replicate, length-set, get_or-set_self, get_or-set_ne, Bool-cases,
  ltb→lt, ge_of_ltb, ok, get_in_range, put_in_range, for_range_inv,
}
use xdna_npu_miner.Bpp9000.Types.{Bytes, Trit, Exception}
use xdna_npu_miner.Bpp9000.Fields.{checked_add, checked_to_size}
use xdna_npu_miner.Bpp9000.Packing.{packed_bytes_for_trits, unpack_trit, unpack_byte, unpack_trits}
use native.Mathlib.Decide.{ℕ_discrete}

-- The bytes that a count of trits takes.
abbrev pub bytes_for : ℕ → ℕ
bytes_for count = (count + 4) / 5

pub packed_bytes_for_trits_lem :
    (count : ℕ)
    → count < 0xffff_ffff_ffff_fff0
    → packed_bytes_for_trits count ≡ ok (bytes_for count)
unfolding packed_bytes_for_trits checked_add checked_to_size
packed_bytes_for_trits_lem count small = ground arith

-- What is left of a byte after its first digits.
unfoldable pub shifted : ℕ → ℕ → ℕ
shifted zero value = value
shifted (suc position) value = shifted position value / 3

-- The digit of trit `k`.
unfoldable pub digit_of : Bytes → ℕ → ℕ
digit_of packed k = shifted (k % 5) (get_or packed (k / 5) 0) % 3

module _ (packed : Bytes) (count : ℕ) (small : count < 0xffff_ffff_ffff_fff0) where
  -- The first `n` trits are unpacked.
  abbrev Unpacked : ℕ → List Trit → Type 0
  Unpacked n trits =
      (length trits ≡ count) × ((k : ℕ) → k < n → k < count → get_or trits k 0 ≡ digit_of packed k)

  -- Those before byte `j` and the first of its own, and what is left of the byte.
  abbrev Partly : ℕ → ℕ → ℕ × List Trit → Type 0
  Partly j position st =
      (st.0 ≡ shifted position (get_or packed j 0)) × Unpacked (j * 5 + position) st.1

  unpack_trit_lem :
      (j position : ℕ) (st : ℕ × List Trit)
      → j < bytes_for count
      → position < 5
      → Partly j position st
      → (st' : ℕ × List Trit) × (unpack_trit count j position st ≡ ok st')
        × Partly j (position + 1) st'
  unfolding unpack_trit
  unpack_trit_lem j position (value, trits) inside p (left, (size, done)) =
      let index = j * 5 + position in
      let place : (j * 5 % 0x1_0000_0000_0000_0000 + position) % 0x1_0000_0000_0000_0000 ≡ index =
        omega arith in
      let digit : value % 3 ≡ digit_of packed index =
        let row : index / 5 ≡ j = omega arith in
        let column : index % 5 ≡ position = omega arith in
        unfold digit_of in rw (row, column, left) refl in
      let next : value / 3 ≡ shifted (position + 1) (get_or packed j 0) =
        let e : position + 1 ≡ suc position = omega arith in
        rw (e, left) (unfold shifted in refl) in
      elim (Bool-cases (ltb index count)) [
        | inl more ↦
            let there : index < length trits = omega (arith, ltb→lt index count more) in
            (
              (value / 3, set trits index (value % 3)),
              rw (place, more, put_in_range {E = Exception} trits index (value % 3) there) refl,
              (
                next,
                (
                  omega (arith, length-set trits index (value % 3)),
                  λ k q r. elim (ℕ_discrete k index) [
                    | yes here ↦ rw (here, get_or-set_self trits index (value % 3) 0 there) digit
                    | no other ↦
                        rw (get_or-set_ne trits index k (value % 3) 0 (λ e. other (sym e)))
                          (done k (omega arith) r)
                  ],
                ),
              ),
            )
        | inr past ↦ (
          (value / 3, trits),
          rw (place, past) refl,
          (next, (size, λ k q r. done k (omega (arith, ge_of_ltb index count past)) r)),
        )
      ]

  unpack_byte_lem :
      (j : ℕ) (trits : List Trit)
      → j < bytes_for count
      → j < length packed
      → get_or packed j 0 < 243
      → Unpacked (j * 5) trits
      → (trits' : List Trit) × (unpack_byte packed count j trits ≡ ok trits')
        × Unpacked ((j + 1) * 5) trits'
  unfolding unpack_byte
  unpack_byte_lem j trits inside there limit (size, done) =
      let value = get_or packed j 0 in
      let start : j * 5 + 0 ≡ j * 5 = omega arith in
      let ((rest, trits'), run, (_, (size', done'))) =
        for_range_inv (Partly j) (unpack_trit count j) 5
          (λ i st p q. unpack_trit_lem j i st inside p q) 5 0 (value, trits) refl
          (unfold shifted in refl, rw start (size, done)) in
      (
        trits',
        ground (arith, get_in_range {E = Exception} packed j 0 there, run),
        (size', λ k q r. done' k (omega arith) r),
      )

  -- With enough bytes below 243, all trits are unpacked.
  pub unpack_trits_lem :
      bytes_for count ≤ length packed
      → ((j : ℕ) → j < bytes_for count → get_or packed j 0 < 243)
      → (trits : List Trit) × (unpack_trits packed count ≡ ok trits)
        × (length trits ≡ count)
        × ((k : ℕ) → k < count → get_or trits k 0 ≡ digit_of packed k)
  unfolding unpack_trits
  unpack_trits_lem enough limit =
      let (trits, run, (size, done)) =
        for_range_inv (λ j. Unpacked (j * 5)) (unpack_byte packed count) (bytes_for count)
          (λ j st p q. unpack_byte_lem j st p (omega arith) (limit j p) q) (bytes_for count) 0
          (replicate count 0) (omega arith)
          (length-replicate count 0, λ k p q. absurd (omega arith)) in
      (
        trits,
        ground (arith, packed_bytes_for_trits_lem count small, run),
        size,
        λ k p. done k (omega arith) p,
      )
