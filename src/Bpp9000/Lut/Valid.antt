-- ===== src/Bpp9000/Lut/Valid.antt =====
-- The invariant of a `Lut`'s storage, and its rows read and written under it.
use xdna_npu_miner.Prelude.{
  ℕ, ◌+◌, ◌*◌, ◌≤◌, ◌<◌, ◌≡◌, refl, ◌∙◌, arith, length, get_or, set, ok, put, get_in_range,
  put_in_range, length-set, get_or-set_self, get_or-set_ne, for_range_inv,
}
use xdna_npu_miner.Bpp9000.Types.{Exception, Trit, Bytes}
use xdna_npu_miner.Bpp9000.Lut.{Lut, rows, slot, at_row, set_row, fill_row, fill}
use native.Mathlib.Decide.{ℕ_discrete}

pub record IsValidLut (lut : Lut) : Type 0 where
  pub storage_size : length lut.storage ≡ rows lut * 32
  pub rows_small : rows lut < 0x8000_0000
  pub entries :
      (row entry : ℕ) → row < rows lut → entry < 27 → get_or lut.storage (row * 32 + entry) 0 ≤ 2

abbrev pub entry_at : Lut → ℕ → ℕ → Trit
entry_at lut row entry = get_or lut.storage (row * 32 + entry) 0

abbrev pub write_entry : Lut → ℕ → ℕ → Trit → Lut
write_entry lut row entry value = record lut { storage = set lut.storage (row * 32 + entry) value }

pub slot_lem : (row entry : ℕ) → row < 0x8000_0000 → entry < 32 → slot row entry ≡ row * 32 + entry
slot_lem row entry h k = omega arith

pub slot_in_range : (row entry n : ℕ) → row < n → entry < 32 → row * 32 + entry < n * 32
slot_in_range row entry n h k = omega arith

pub slot-injective :
    (row entry row' entry' : ℕ)
    → entry < 32
    → entry' < 32
    → row * 32 + entry ≡ row' * 32 + entry'
    → (row ≡ row') × (entry ≡ entry')
slot-injective row entry row' entry' h h' e = omega arith

pub at_row_lem :
    (lut : Lut) (row entry : ℕ)
    → IsValidLut lut
    → row < rows lut
    → entry < 27
    → at_row lut row entry ≡ ok (entry_at lut row entry)
unfolding at_row
at_row_lem lut row entry v h k = ground (
  arith,
  slot_lem row entry,
  slot_in_range row entry (rows lut),
  get_in_range {E = Exception} lut.storage (row * 32 + entry) 0,
  v.entries row entry,
)

pub set_row_lem :
    (lut : Lut) (row entry value : ℕ)
    → IsValidLut lut
    → row < rows lut
    → entry < 27
    → value ≤ 2
    → set_row lut row entry value ≡ ok (write_entry lut row entry value)
unfolding set_row
set_row_lem lut row entry value v h k t = ground (
  arith,
  slot_lem row entry,
  slot_in_range row entry (rows lut),
  put_in_range {E = Exception} lut.storage (row * 32 + entry) value,
)

pub entry_at-write_same :
    (lut : Lut) (row entry value : ℕ)
    → IsValidLut lut
    → row < rows lut
    → entry < 27
    → entry_at (write_entry lut row entry value) row entry ≡ value
entry_at-write_same lut row entry value v h k =
    get_or-set_self lut.storage (row * 32 + entry) value 0 (omega (arith, v.storage_size))

pub entry_at-write_other :
    (lut : Lut) (row entry row' entry' value : ℕ)
    → entry < 27
    → entry' < 27
    → ¬ ((row ≡ row') × (entry ≡ entry'))
    → entry_at (write_entry lut row entry value) row' entry' ≡ entry_at lut row' entry'
entry_at-write_other lut row entry row' entry' value h h' ne =
    get_or-set_ne lut.storage _ _ value 0
      (λ e. ne (slot-injective row entry row' entry' (omega arith) (omega arith) e))

pub write_entry-IsValidLut :
    (lut : Lut) (row entry value : ℕ)
    → IsValidLut lut
    → row < rows lut
    → entry < 27
    → value ≤ 2
    → IsValidLut (write_entry lut row entry value)
write_entry-IsValidLut lut row entry value v h k t = record {
  storage_size = length-set lut.storage (row * 32 + entry) value ∙ v.storage_size;
  rows_small = v.rows_small;
  entries = λ r e p q. elim (ℕ_discrete (row * 32 + entry) (r * 32 + e)) [
    | yes same ↦ rw (← same) (rw (entry_at-write_same lut row entry value v h k) t)
    | no other ↦ rw (get_or-set_ne lut.storage _ _ value 0 other) (v.entries r e p q)
  ];
}

-- The entries below a position of the storage are all `value`.
abbrev Filled : Trit → ℕ → Bytes → Type 0
Filled value bound s =
    (row entry : ℕ) → entry < 27 → row * 32 + entry < bound → get_or s (row * 32 + entry) 0 ≡ value

set-Filled :
    (value written row entry : ℕ) (s : Bytes)
    → entry < 32
    → row * 32 + entry < length s
    → (entry < 27 → written ≡ value)
    → Filled value (row * 32 + entry) s
    → Filled value (row * 32 + (entry + 1)) (set s (row * 32 + entry) written)
set-Filled value written row entry s h inside same f r e p q =
    elim (ℕ_discrete (row * 32 + entry) (r * 32 + e)) [
      | yes here ↦ rw (← here) (
          get_or-set_self s (row * 32 + entry) written 0 inside
          ∙ same (omega (arith, slot-injective row entry r e h (omega arith) here)))
      | no other ↦ get_or-set_ne s _ _ written 0 other ∙ f r e p (omega arith)
    ]

module _ (value n : ℕ) (small : n < 0x8000_0000) (row : ℕ) (inside : row < n) where
  abbrev RowInv : ℕ → Bytes → Type 0
  RowInv entry s = (length s ≡ n * 32) × Filled value (row * 32 + entry) s

  put_round :
      (entry written : ℕ) (s : Bytes)
      → entry < 32
      → (entry < 27 → written ≡ value)
      → RowInv entry s
      → (s' : Bytes) × (put {E = Exception} s (slot row entry) written ≡ ok s')
        × RowInv (entry + 1) s'
  put_round entry written s p same (l, g) =
      let room : row * 32 + entry < length s = omega arith in
      (
        set s (row * 32 + entry) written,
        rw (slot_lem row entry (omega arith) p) (put_in_range s (row * 32 + entry) written room),
        (
          length-set s (row * 32 + entry) written ∙ l,
          set-Filled value written row entry s p room same g,
        ),
      )

  fill_row_lem :
      (s : Bytes) → RowInv 0 s → (s' : Bytes) × (fill_row value row s ≡ ok s') × RowInv 32 s'
  unfolding fill_row
  fill_row_lem s inv =
      let (s', run, inv') =
        for_range_inv RowInv (λ entry t. put t (slot row entry) value) 27
          (λ i t p q. put_round i value t (omega arith) (λ _. refl) q) 27 0 s refl inv in
      let (s'', run', (_, inv'')) =
        for_range_inv (λ entry t. (27 ≤ entry) × RowInv entry t)
          (λ entry t. put t (slot row entry) 0) 32
          (λ i t p (low, q).
            let (t', run, q') = put_round i 0 t (omega arith) (λ high. absurd (omega arith)) q in
            (t', run, (omega arith, q')))
          5 27 s' refl (omega arith, inv') in
      (s'', rw run run', inv'')

-- `fill` succeeds on a trit, and every entry of every row is that trit then.
pub fill_lem :
    (lut : Lut) (value : ℕ)
    → length lut.storage ≡ rows lut * 32
    → rows lut < 0x8000_0000
    → value ≤ 2
    → (storage : Bytes) × (fill lut value ≡ ok (record lut { storage = storage }))
      × (length storage ≡ rows lut * 32)
      × ((row entry : ℕ)
          → row < rows lut
          → entry < 27
          → get_or storage (row * 32 + entry) 0 ≡ value)
unfolding fill
fill_lem lut value size small trit =
    let (s, run, (l, f)) =
      for_range_inv (λ row t. (length t ≡ rows lut * 32) × Filled value (row * 32) t)
        (fill_row value) (rows lut)
        (λ i t p (l, f).
          let (t', run, (l', f')) =
            fill_row_lem value (rows lut) small i p t (l, λ r e a b. f r e a (omega arith)) in
          (t', run, (l', λ r e a b. f' r e a (omega arith))))
        (rows lut) 0 lut.storage (omega arith) (size, λ r e p q. absurd (omega arith)) in
    (s, ground (arith, run), l, λ r e p q. f r e q (omega arith))
