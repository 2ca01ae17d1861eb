-- ===== src/Bpp9000/Packing/Pack.antt =====
-- `pack_trits` puts each trit at its digit.
use xdna_npu_miner.Prelude.{
  ℕ, zero, suc, ◌+◌, ◌*◌, ◌/◌, ◌%◌, ◌<◌, ◌≤◌, ◌≡◌, ◌≢◌, refl, sym, ◌∙◌, List, inl, inr, arith, ltb,
  length, get_or, set, replicate, length-replicate, get_or-replicate, length-set, get_or-set_self,
  get_or-set_ne, Bool-cases, ltb→lt, ok, get_in_range, put_in_range, for_range_inv, if◌then◌else◌,
  All, All-get_or,
}
use xdna_npu_miner.Bpp9000.Types.{Bytes, Trit, Exception}
use xdna_npu_miner.Bpp9000.Packing.{weight_of, pack_trit, pack_trits}
use xdna_npu_miner.Bpp9000.Packing.Unpack.{bytes_for, packed_bytes_for_trits_lem}
use native.Mathlib.Decide.{ℕ_discrete}

-- Trit `k` if it is among the first `n`, which the packed bytes hold so far.
unfoldable pub among : List Trit → ℕ → ℕ → Trit
among trits n k = if ltb k n then get_or trits k 0 else 0

-- Five of them, as the digits of byte `j`.
unfoldable pub group : List Trit → ℕ → ℕ → ℕ
group trits n j =
    among trits n (j * 5)
    + 3 * among trits n (j * 5 + 1)
    + 9 * among trits n (j * 5 + 2)
    + 27 * among trits n (j * 5 + 3)
    + 81 * among trits n (j * 5 + 4)

among_other : (trits : List Trit) (n k : ℕ) → k ≢ n → among trits (n + 1) k ≡ among trits n k
unfolding among
among_other trits n k other = ground arith

among_next :
    (trits : List Trit) (n : ℕ) → (among trits (n + 1) n ≡ get_or trits n 0) × (among trits n n ≡ 0)
unfolding among
among_next trits n = (ground arith, ground arith)

group_none : (trits : List Trit) (j : ℕ) → group trits 0 j ≡ 0
unfolding group among
group_none trits j = ground arith

-- The next trit is a digit of its own byte only.
group_other : (trits : List Trit) (n j : ℕ) → j ≢ n / 5 → group trits (n + 1) j ≡ group trits n j
unfolding group
group_other trits n j other =
    rw
      (
        among_other trits n (j * 5) (omega arith),
        among_other trits n (j * 5 + 1) (omega arith),
        among_other trits n (j * 5 + 2) (omega arith),
        among_other trits n (j * 5 + 3) (omega arith),
        among_other trits n (j * 5 + 4) (omega arith),
      )
      refl

-- Its weight is the power of three of its place.
group_at :
    (trits : List Trit) (n q r : ℕ)
    → n ≡ q * 5 + r
    → r < 5
    → group trits (n + 1) q ≡ group trits n q + get_or trits n 0 * weight_of r 1
unfolding group weight_of
group_at trits n q zero e h =
    let here : q * 5 ≡ n = omega arith in
    rw here (
      omega (
        arith,
        among_next trits n,
        among_other trits n (n + 1) (omega arith),
        among_other trits n (n + 2) (omega arith),
        among_other trits n (n + 3) (omega arith),
        among_other trits n (n + 4) (omega arith),
      ))
group_at trits n q (suc zero) e h =
    let here : q * 5 + 1 ≡ n = omega arith in
    rw here (
      omega (
        arith,
        among_next trits n,
        among_other trits n (q * 5) (omega arith),
        among_other trits n (q * 5 + 2) (omega arith),
        among_other trits n (q * 5 + 3) (omega arith),
        among_other trits n (q * 5 + 4) (omega arith),
      ))
group_at trits n q (suc (suc zero)) e h =
    let here : q * 5 + 2 ≡ n = omega arith in
    rw here (
      omega (
        arith,
        among_next trits n,
        among_other trits n (q * 5) (omega arith),
        among_other trits n (q * 5 + 1) (omega arith),
        among_other trits n (q * 5 + 3) (omega arith),
        among_other trits n (q * 5 + 4) (omega arith),
      ))
group_at trits n q (suc (suc (suc zero))) e h =
    let here : q * 5 + 3 ≡ n = omega arith in
    rw here (
      omega (
        arith,
        among_next trits n,
        among_other trits n (q * 5) (omega arith),
        among_other trits n (q * 5 + 1) (omega arith),
        among_other trits n (q * 5 + 2) (omega arith),
        among_other trits n (q * 5 + 4) (omega arith),
      ))
group_at trits n q (suc (suc (suc (suc zero)))) e h =
    let here : q * 5 + 4 ≡ n = omega arith in
    rw here (
      omega (
        arith,
        among_next trits n,
        among_other trits n (q * 5) (omega arith),
        among_other trits n (q * 5 + 1) (omega arith),
        among_other trits n (q * 5 + 2) (omega arith),
        among_other trits n (q * 5 + 3) (omega arith),
      ))
group_at trits n q (suc (suc (suc (suc (suc r))))) e h = absurd (omega arith)

pub among-le :
    (trits : List Trit) (n k : ℕ) → All (λ t. t ≤ 2) trits → n ≤ length trits → among trits n k ≤ 2
unfolding among
among-le trits n k valid inside = elim (Bool-cases (ltb k n)) [
  | inl here ↦ rw here (All-get_or _ trits k 0 valid (omega (arith, ltb→lt k n here)))
  | inr past ↦ rw past (omega arith)
]

group-le :
    (trits : List Trit) (n j : ℕ)
    → All (λ t. t ≤ 2) trits
    → n ≤ length trits
    → group trits n j ≤ 242
unfolding group
group-le trits n j valid inside =
    let each : (k : ℕ) → among trits n k ≤ 2 = λ k. among-le trits n k valid inside in
    omega
      (arith, each (j * 5), each (j * 5 + 1), each (j * 5 + 2), each (j * 5 + 3), each (j * 5 + 4))

weight_of-le : (r : ℕ) → r < 5 → weight_of r 1 ≤ 81
unfolding weight_of
weight_of-le zero h = omega arith
weight_of-le (suc zero) h = omega arith
weight_of-le (suc (suc zero)) h = omega arith
weight_of-le (suc (suc (suc zero))) h = omega arith
weight_of-le (suc (suc (suc (suc r)))) h = let e : r ≡ 0 = omega arith in rw e (omega arith)

module _ (trits : List Trit) (valid : All (λ t. t ≤ 2) trits) where
  -- The first `n` trits are packed.
  abbrev Packed : ℕ → Bytes → Type 0
  Packed n packed =
      (length packed ≡ bytes_for (length trits))
      × ((j : ℕ) → j < bytes_for (length trits) → get_or packed j 0 ≡ group trits n j)

  pack_trit_lem :
      (n : ℕ) (packed : Bytes)
      → n < length trits
      → Packed n packed
      → (packed' : Bytes) × (pack_trit trits n packed ≡ ok packed') × Packed (n + 1) packed'
  unfolding pack_trit
  pack_trit_lem n packed more (size, done) =
      let j = n / 5 in
      let there : j < length packed = omega arith in
      let value = get_or trits n 0 in
      let two : value ≤ 2 = All-get_or _ trits n 0 valid more in
      let next = group_at trits n j (n % 5) (omega arith) (omega arith) in
      let top = group-le trits (n + 1) j valid (omega arith) in
      let sum : (get_or packed j 0 + value * weight_of (n % 5) 1 % 0x1_0000_0000)
            % 0x1_0000_0000
            % 256
          ≡ group trits (n + 1) j =
        omega (arith, done j (omega arith), next, top) in
      (
        set packed j (group trits (n + 1) j),
        ground (
          arith,
          get_in_range {E = Exception} trits n 0 more,
          two,
          get_in_range {E = Exception} packed j 0 there,
          sum,
          put_in_range {E = Exception} packed j (group trits (n + 1) j) there,
        ),
        (
          omega (arith, length-set packed j (group trits (n + 1) j)),
          λ k p. elim (ℕ_discrete k j) [
            | yes here ↦ rw (here, get_or-set_self packed j (group trits (n + 1) j) 0 there) refl
            | no other ↦
                rw
                  (
                    get_or-set_ne packed j k (group trits (n + 1) j) 0 (λ e. other (sym e)),
                    group_other trits n k other,
                  )
                  (done k p)
          ],
        ),
      )

  -- Valid trits are packed: each byte holds its five trits, and is below 243.
  pub pack_trits_lem :
      length trits < 0xffff_ffff_ffff_fff0
      → (packed : Bytes) × (pack_trits trits ≡ ok packed)
        × (length packed ≡ bytes_for (length trits))
        × ((j : ℕ)
            → j < bytes_for (length trits)
            → (get_or packed j 0 ≡ group trits (length trits) j) × (get_or packed j 0 < 243))
  unfolding pack_trits
  pack_trits_lem small =
      let (packed, run, (size, done)) =
        for_range_inv Packed (pack_trit trits) (length trits) (λ n p q r. pack_trit_lem n p q r)
          (length trits) 0 (replicate (bytes_for (length trits)) 0) (omega arith)
          (
            length-replicate (bytes_for (length trits)) 0,
            λ j p. get_or-replicate (bytes_for (length trits)) j 0 0 p ∙ sym (group_none trits j),
          ) in
      (
        packed,
        ground (arith, packed_bytes_for_trits_lem (length trits) small, run),
        size,
        λ j p. (
          done j p,
          omega (arith, done j p, group-le trits (length trits) j valid (omega arith)),
        ),
      )
