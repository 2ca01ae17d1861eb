-- ===== src/Bpp9000/Lut/Build.antt =====
-- The constructor of `Lut` and `initialize_from_root_bytes`: which neuron has which row.
use xdna_npu_miner.Prelude.{
  ℕ, ◌+◌, ◌*◌, ◌%◌, ◌≤◌, ◌<◌, ◌≡◌, ◌∙◌, ◌≢◌, true, false, inl, inr, List, [], ◌∷◌, ◌++◌, arith,
  length, get_or, set, replicate, ok, put_in_range, length-set, length-append, length-replicate,
  get_or-set_self, get_or-set_ne, get_or-append_left, get_or-replicate, get_or-snoc, ap, for_range,
  for_range_inv, Bool-cases,
}
use xdna_npu_miner.Bpp9000.Types.{Exception, Task}
use xdna_npu_miner.Bpp9000.Roles.{is_member}
use xdna_npu_miner.Bpp9000.Contract.{checked_size_product_lem}
use xdna_npu_miner.Bpp9000.Lut.{Lut, rows, minus_one, assign_row, make_lut}
use xdna_npu_miner.Bpp9000.Lut.Valid.{IsValidLut, fill_lem, entry_at}
use native.Mathlib.Decide.{ℕ_discrete}

-- The two index vectors are inverse to each other on the neurons below `bound` that are no inputs;
-- every other neuron has the row -1.
pub record Indexed (inputs : List ℕ) (size bound : ℕ) (updated row_for : List ℕ) : Type 0 where
  pub row_for_size : length row_for ≡ size
  pub few : length updated ≤ bound
  pub row_of :
      (neuron : ℕ)
      → neuron < bound
      → is_member inputs neuron ≡ false
      → (get_or row_for neuron 0 < length updated)
        × (get_or updated (get_or row_for neuron 0) 0 ≡ neuron)
  pub neuron_of :
      (row : ℕ)
      → row < length updated
      → (get_or updated row 0 < bound)
        × (is_member inputs (get_or updated row 0) ≡ false)
        × (get_or row_for (get_or updated row 0) 0 ≡ row)
  pub no_row :
      (neuron : ℕ)
      → neuron < size
      → is_member inputs neuron ≡ true
      → get_or row_for neuron 0 ≡ minus_one

differ :
    (inputs : List ℕ) (a b : ℕ) → is_member inputs a ≡ true → is_member inputs b ≡ false → b ≢ a
differ inputs a b p q e = cc (ap (is_member inputs) e)

differ' :
    (inputs : List ℕ) (a b : ℕ) → is_member inputs a ≡ false → is_member inputs b ≡ true → a ≢ b
differ' inputs a b p q e = cc (ap (is_member inputs) e)

module _ (inputs : List ℕ) (size : ℕ) (small : size < 0x8000_0000) where
  abbrev Inv : ℕ → List ℕ × List ℕ → Type 0
  Inv bound (updated, row_for) = Indexed inputs size bound updated row_for

  assign_row_lem :
      (neuron : ℕ) (s : List ℕ × List ℕ)
      → neuron < size
      → Inv neuron s
      → (s' : List ℕ × List ℕ) × (assign_row inputs neuron s ≡ ok s') × Inv (neuron + 1) s'
  unfolding assign_row
  assign_row_lem neuron (updated, row_for) h inv = elim (Bool-cases (is_member inputs neuron)) [
    | inl member ↦ (
      (updated, row_for),
      rw member,
      record {
        row_for_size = inv.row_for_size;
        few = omega (arith, inv.few);
        row_of = λ n p q. inv.row_of n (omega (arith, differ inputs neuron n member q)) q;
        neuron_of = λ r p. let a = inv.neuron_of r p in (omega (arith, a.0), a.1, a.2);
        no_row = inv.no_row;
      },
    )
    | inr other ↦
        let r = length updated in
        let grown = length-append updated (neuron ∷ []) in
        let e : r % 0x1_0000_0000 ≡ r = omega (arith, inv.few) in
        (
          (updated ++ (neuron ∷ []), set row_for neuron r),
          rw other (
              rw e (
                rw (
                  put_in_range {E = Exception} row_for neuron r
                    (omega (arith, inv.row_for_size))))),
          record {
            row_for_size = length-set row_for neuron r ∙ inv.row_for_size;
            few = omega (arith, length-append updated (neuron ∷ []), inv.few);
            row_of = λ n p q. elim (ℕ_discrete n neuron) [
              | yes e ↦ rw e (
                  ground (
                    arith,
                    grown,
                    get_or-set_self row_for neuron r 0,
                    get_or-snoc updated neuron 0,
                    inv.row_for_size,
                  ))
              | no ne ↦ ground (
                arith,
                grown,
                get_or-set_ne row_for neuron n r 0,
                get_or-append_left updated (neuron ∷ []) (get_or row_for n 0) 0,
                inv.row_of n,
              )
            ];
            neuron_of = λ i p. elim (ℕ_discrete i r) [
              | yes e ↦ rw e (
                  ground (
                    arith,
                    get_or-snoc updated neuron 0,
                    get_or-set_self row_for neuron r 0,
                    inv.row_for_size,
                  ))
              | no ne ↦ ground (
                arith,
                grown,
                get_or-append_left updated (neuron ∷ []) i 0,
                get_or-set_ne row_for neuron (get_or updated i 0) r 0,
                inv.neuron_of i,
              )
            ];
            no_row = λ n p q.
                get_or-set_ne row_for neuron n r 0 (differ' inputs neuron n other q)
                ∙ inv.no_row n p q;
          },
        )
  ]

-- The constructor's loop.
pub index_lem :
    (inputs : List ℕ) (size : ℕ)
    → size < 0x8000_0000
    → (s : List ℕ × List ℕ) × (for_range size 0 (assign_row inputs) ([], replicate size minus_one)
        ≡ ok s)
      × Indexed inputs size size s.0 s.1
index_lem inputs size small =
    for_range_inv (Inv inputs size small) (assign_row inputs) size
      (λ i s p q. assign_row_lem inputs size small i s p q) size 0 ([], replicate size minus_one)
      (omega arith)
      (record {
        row_for_size = length-replicate size minus_one;
        few = omega arith;
        row_of = λ n p q. absurd (omega arith);
        neuron_of = λ r p. absurd (omega arith);
        no_row = λ n p q. get_or-replicate size n minus_one 0 p;
      })

-- What the constructor gives: the index vectors, a valid storage, and every entry `Unknown`.
pub record IsLutFor (task : Task) (lut : Lut) : Type 0 where
  pub indexed :
      Indexed task.topology.input_neurons task.header.shape.population task.header.shape.population
        lut.updated_neurons lut.row_for_neuron
  pub valid : IsValidLut lut

-- For a population between 1 and 2 ^ 31 - 1 and as many input neurons as the shape says, the
-- constructor succeeds. The rows are the neurons that are no inputs, in both directions, the
-- storage is valid, and every entry is unknown.
pub make_lut_lem :
    (task : Task)
    → 0 < task.header.shape.population
    → task.header.shape.population < 0x8000_0000
    → length task.topology.input_neurons ≡ task.header.shape.input_trits
    → (lut : Lut) × (make_lut task ≡ ok lut)
      × IsLutFor task lut
      × ((row entry : ℕ) → row < rows lut → entry < 27 → entry_at lut row entry ≡ 2)
unfolding make_lut
make_lut_lem task pos small count =
    let ((updated, row_for), run, idx) = index_lem inputs size small in
    let empty : Lut = record {
      updated_neurons = updated;
      row_for_neuron = row_for;
      storage = replicate (length updated * 32) 0;
    } in
    let few : length updated < 0x8000_0000 = omega (arith, idx.few) in
    let (storage, filled, l, f) =
      fill_lem empty 2 (length-replicate (length updated * 32) 0) few (omega arith) in
    (
      record empty { storage = storage },
      ground (arith, run, checked_size_product_lem (length updated) 32, filled),
      record {
        indexed = idx;
        valid = record {
          storage_size = l;
          rows_small = few;
          entries = λ r e p q. omega (arith, f r e p q);
        };
      },
      f,
    )
  where
    open task.topology use {input_neurons as inputs}
    open task.header.shape use {population as size}
