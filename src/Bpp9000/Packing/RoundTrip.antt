-- ===== src/Bpp9000/Packing/RoundTrip.antt =====
-- `unpack_trits` undoes `pack_trits`.
use xdna_npu_miner.Prelude.{
  ℕ, ◌+◌, ◌*◌, ◌/◌, ◌%◌, ◌<◌, ◌≤◌, ◌≡◌, refl, ◌∙◌, List, arith, lt→ltb, length, get_or, list_ext,
  ok, All,
}
use xdna_npu_miner.Bpp9000.Types.{Bytes, Trit}
use xdna_npu_miner.Bpp9000.Packing.{pack_trits, unpack_trits}
use xdna_npu_miner.Bpp9000.Packing.Pack.{among, among-le, group, pack_trits_lem}
use xdna_npu_miner.Bpp9000.Packing.Unpack.{shifted, digit_of, unpack_trits_lem}
use native.Mathlib.Decide.{ℕ_discrete}

-- A digit of a sum of five.
shifted-sum :
    (a b c d e : ℕ)
    → a ≤ 2
    → b ≤ 2
    → c ≤ 2
    → d ≤ 2
    → e ≤ 2
    → (shifted 0 (a + 3 * b + 9 * c + 27 * d + 81 * e) % 3 ≡ a)
      × (shifted 1 (a + 3 * b + 9 * c + 27 * d + 81 * e) % 3 ≡ b)
      × (shifted 2 (a + 3 * b + 9 * c + 27 * d + 81 * e) % 3 ≡ c)
      × (shifted 3 (a + 3 * b + 9 * c + 27 * d + 81 * e) % 3 ≡ d)
      × (shifted 4 (a + 3 * b + 9 * c + 27 * d + 81 * e) % 3 ≡ e)
unfolding shifted
shifted-sum a b c d e p q s t u = (omega arith, omega arith, omega arith, omega arith, omega arith)

module _ (trits : List Trit) (valid : All (λ t. t ≤ 2) trits) where
  -- What the first `n` trits are: at most 2, and in the end the trits themselves.
  low : (k : ℕ) → among trits (length trits) k ≤ 2
  low k = among-le trits (length trits) k valid (omega arith)

  among_all : (k : ℕ) → k < length trits → among trits (length trits) k ≡ get_or trits k 0
  unfolding among
  among_all k h = rw (lt→ltb k (length trits) h) refl

  shifted-group :
      (j r : ℕ)
      → r < 5
      → shifted r (group trits (length trits) j) % 3 ≡ among trits (length trits) (j * 5 + r)
  unfolding group
  shifted-group j r h =
      let (s0, s1, s2, s3, s4) =
        shifted-sum _ _ _ _ _ (low (j * 5)) (low (j * 5 + 1)) (low (j * 5 + 2)) (low (j * 5 + 3))
          (low (j * 5 + 4)) in
      let start : j * 5 + 0 ≡ j * 5 = omega arith in
      elim (ℕ_discrete r 0) [
        | yes e ↦ rw (e, start) s0
        | no n0 ↦ elim (ℕ_discrete r 1) [
          | yes e ↦ rw e s1
          | no n1 ↦ elim (ℕ_discrete r 2) [
            | yes e ↦ rw e s2
            | no n2 ↦ elim (ℕ_discrete r 3) [
              | yes e ↦ rw e s3
              | no n3 ↦ let e : r ≡ 4 = omega arith in rw e s4
            ]
          ]
        ]
      ]

  -- Valid trits are packed, five to a byte, and unpacking as many gives them back.
  pub unpack-pack_trits :
      length trits < 0xffff_ffff_ffff_fff0
      → (packed : Bytes) × (pack_trits trits ≡ ok packed)
        × (length packed ≡ (length trits + 4) / 5)
        × (unpack_trits packed (length trits) ≡ ok trits)
  unpack-pack_trits small =
      let (packed, packs, size, holds) = pack_trits_lem trits valid small in
      let (back, unpacks, size', digits) =
        unpack_trits_lem packed (length trits) small (omega arith) (λ j p. (holds j p).1) in
      let same : back ≡ trits = list_ext back trits 0 size' (λ k p.
        let q : k < length trits = omega arith in
        let e : k / 5 * 5 + k % 5 ≡ k = omega arith in
        digits k q
        ∙ unfold digit_of in
          rw (holds (k / 5) (omega arith)).0
            (rw e at (shifted-group (k / 5) (k % 5) (omega arith)) ∙ among_all k q)) in
      (packed, packs, size, rw same at unpacks)
