-- ===== src/Bpp9000/Lut/Init.antt =====
-- `initialize_from_root_bytes`: the root draw, entry by entry.
use xdna_npu_miner.Prelude.{
  ℕ, ◌+◌, ◌*◌, ◌%◌, ◌≤◌, ◌<◌, ◌≡◌, refl, ◌∙◌, arith, length, get_or, set, ok, get_in_range,
  for_range_inv,
}
use xdna_npu_miner.Prelude.Words.{mul64, add64}
use xdna_npu_miner.Bpp9000.Types.{Exception, Bytes, Task}
use xdna_npu_miner.Bpp9000.Contract.{checked_size_product_lem}
use xdna_npu_miner.Bpp9000.Lut.{
  Lut, rows, population, init_entry, init_row, initialize_from_root_bytes,
}
use xdna_npu_miner.Bpp9000.Lut.Valid.{
  IsValidLut, fill_lem, set_row_lem, write_entry-IsValidLut, entry_at-write_same,
  entry_at-write_other,
}
use xdna_npu_miner.Bpp9000.Lut.Build.{IsLutFor}
use native.Mathlib.Decide.{ℕ_discrete}

-- The trit that the draw gives an entry of a row's neuron.
abbrev pub draw : Lut → Bytes → ℕ → ℕ → ℕ
draw lut root row entry = get_or root (get_or lut.updated_neurons row 0 * 27 + entry) 0 % 3

module _ (lut : Lut) (root : Bytes) (size : ℕ) where
  -- The neurons of the rows have a place in the draw.
  module _ (small : size < 0x8000_0000) (enough : size * 27 ≤ length root)
      (neurons : (row : ℕ) → row < rows lut → get_or lut.updated_neurons row 0 < size) where
    -- The loop's lut is the first one with another storage, whose entries up to a place are drawn.
    Drawn : ℕ → Lut → Type 0
    Drawn bound l =
        (s : Bytes) × (l ≡ record lut { storage = s })
        × IsValidLut (record lut { storage = s })
        × ((row entry : ℕ)
            → row < rows lut
            → entry < 27
            → row * 27 + entry < bound
            → get_or s (row * 32 + entry) 0 ≡ draw lut root row entry)

    init_entry_lem :
        (row entry : ℕ) (l : Lut)
        → row < rows lut
        → entry < 27
        → Drawn (row * 27 + entry) l
        → (l' : Lut) × (init_entry root (get_or lut.updated_neurons row 0) row entry l ≡ ok l')
          × Drawn (row * 27 + (entry + 1)) l'
    unfolding Drawn init_entry
    init_entry_lem row entry l h k (s, e, v, d) =
        let neuron = get_or lut.updated_neurons row 0 in
        let here = neurons row h in
        let place : add64 (mul64 neuron 27) entry ≡ neuron * 27 + entry = omega arith in
        let value = draw lut root row entry in
        let current : Lut = record lut { storage = s } in
        let trit : value ≤ 2 = omega arith in
        (
          record lut { storage = set s (row * 32 + entry) value },
          rw (e, place, get_in_range {E = Exception} root (neuron * 27 + entry) 0 (omega arith))
              (set_row_lem current row entry value v h k trit),
          (
            set s (row * 32 + entry) value,
            refl,
            write_entry-IsValidLut current row entry value v h k trit,
            λ r f p q b. elim (ℕ_discrete (r * 27 + f) (row * 27 + entry)) [
              | yes same ↦
                  let er : r ≡ row = omega arith in
                  let ee : f ≡ entry = omega arith in
                  rw (er, ee) (entry_at-write_same current row entry value v h k)
              | no other ↦
                  entry_at-write_other current row entry r f value k q
                    (λ z. other (omega (arith, z.0, z.1)))
                  ∙ d r f p q (omega arith)
            ],
          ),
        )

    init_row_lem :
        (row : ℕ) (l : Lut)
        → row < rows lut
        → Drawn (row * 27) l
        → (l' : Lut) × (init_row root row l ≡ ok l') × Drawn ((row + 1) * 27) l'
    unfolding init_row Drawn
    init_row_lem row l h (s, e, v, d) =
        let neuron = get_or lut.updated_neurons row 0 in
        let (l', run, (s', e', v', d')) =
          for_range_inv (λ entry. Drawn (row * 27 + entry)) (init_entry root neuron row) 27
            (λ i t p q. init_entry_lem row i t h p q) 27 0 l refl
            (s, e, v, λ r f p q b. d r f p q (omega arith)) in
        (
          l',
          rw e (rw (get_in_range {E = Exception} lut.updated_neurons row 0 h) (rw e at run)),
          (s', e', v', λ r f p q b. d' r f p q (omega arith)),
        )

-- On a table of the task, with a population below 2 ^ 31 and 27 bytes for each of its neurons, the
-- initialization succeeds: each entry of a row is the byte that the draw has for the row's neuron
-- and the entry, modulo 3, and the table stays one of the task.
pub initialize_from_root_bytes_lem :
    (task : Task) (lut : Lut) (root : Bytes)
    → IsLutFor task lut
    → task.header.shape.population < 0x8000_0000
    → task.header.shape.population * 27 ≤ length root
    → (s : Bytes) × (initialize_from_root_bytes lut root ≡ ok (record lut { storage = s }))
      × IsLutFor task (record lut { storage = s })
      × ((row entry : ℕ)
          → row < rows lut
          → entry < 27
          → get_or s (row * 32 + entry) 0 ≡ draw lut root row entry)
unfolding initialize_from_root_bytes Drawn
initialize_from_root_bytes_lem task lut root for small enough =
    let size = task.header.shape.population in
    let (zeros, filled, l, f) =
      fill_lem lut 0 for.valid.storage_size for.valid.rows_small (omega arith) in
    let cleared : Lut = record lut { storage = zeros } in
    let ok_cleared : IsValidLut cleared = record {
      storage_size = l;
      rows_small = for.valid.rows_small;
      entries = λ r e p q. omega (arith, f r e p q);
    } in
    let (_, run, (s, e, v, d)) =
      for_range_inv
        (λ row. Drawn lut root size small enough (λ r p. (for.indexed.neuron_of r p).0) (row * 27))
        (init_row root) (rows lut)
        (λ i t p q.
          init_row_lem lut root size small enough (λ r p. (for.indexed.neuron_of r p).0) i t p q)
        (rows lut) 0 cleared (omega arith)
        (zeros, refl, ok_cleared, λ r e p q b. absurd (omega arith)) in
    (
      s,
      ground (
        arith,
        checked_size_product_lem (population lut) 27,
        for.indexed.row_for_size,
        filled,
        run,
        e,
      ),
      record { indexed = for.indexed; valid = v },
      λ r e p q. d r e p q (omega arith),
    )
