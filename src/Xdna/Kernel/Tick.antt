-- ===== src/Xdna/Kernel/Tick.antt =====
-- The kernel's tick computes the step of the network, as the reference's tick does.
use xdna_npu_miner.Prelude.{
  ℕ, ◌+◌, ◌*◌, ◌<◌, ◌≤◌, ◌≡◌, ◌≢◌, ap, refl, sym, ◌∙◌, inl, inr, true, List, arith, length, get_or,
  set, length-set, get_or-set_self, get_or-set_ne, Bool-cases, All, list_ext, ok, get_in_range,
  put_in_range, for_range, for_range_inv,
}
use xdna_npu_miner.Prelude.Words.{add32}
use xdna_npu_miner.Bpp9000.Types.{Task, Byte, Exception}
use xdna_npu_miner.Bpp9000.Roles.{is_member}
use xdna_npu_miner.Bpp9000.Lut.{Lut, rows}
use xdna_npu_miner.Bpp9000.Network.{Trits, neighbor_trit, next_trit, step}
use xdna_npu_miner.Bpp9000.State.Tick.{length-step, get_or-step, IsReady, reads, neighbor_trit-le}
use xdna_npu_miner.Xdna.Kernel.{copy_neuron, update_row, tick_once, mul32}
use native.Mathlib.Decide.{ℕ_discrete}

-- Copying 64 neurons copies the state.
pub copy_state_lem :
    (source destination : List Byte)
    → length source ≡ 64
    → length destination ≡ 64
    → for_range 64 0 (copy_neuron source) destination ≡ ok source
unfolding copy_neuron
copy_state_lem source destination e f =
    let (copied, run, (size, same)) =
      for_range_inv
        (λ i (now : List Byte).
          (length now ≡ 64) × ((j : ℕ) → j < i → get_or now j 0 ≡ get_or source j 0))
        (copy_neuron source) 64
        (λ i now p (size, same). (
          set now i (get_or source i 0),
          rw
              (
                get_in_range {E = Exception} source i 0 (omega arith),
                put_in_range {E = Exception} now i (get_or source i 0) (omega arith),
              )
              refl,
          (
            omega (arith, length-set now i (get_or source i 0)),
            λ j q. elim (ℕ_discrete j i) [
              | yes here ↦ rw here (get_or-set_self now i (get_or source i 0) 0 (omega arith))
              | no other ↦
                  rw (get_or-set_ne now i j (get_or source i 0) 0 (λ t. other (sym t)))
                    (same j (omega arith))
            ],
          ),
        ))
        64 0 destination refl (f, λ j p. absurd (omega arith)) in
    let all : copied ≡ source =
      list_ext copied source 0 (size ∙ sym e) (λ i p. same i (omega arith)) in
    rw all at run

module _ (task : Task) (lut : Lut) (ready : IsReady task lut) (now : Trits)
    (population : task.header.shape.population ≡ 64) (all_rows : rows lut ≡ 46)
    (size : length now ≡ 64) (trits : All (λ t. t ≤ 2) now) where
  -- After `i` rows: the neurons of these have stepped, and the others are as before.
  abbrev Stepped : ℕ → List Byte → Type 0
  Stepped i next =
      (length next ≡ 64)
      × ((row : ℕ)
          → row < i
          → get_or next (get_or lut.updated_neurons row 0) 0
            ≡ next_trit task lut now (get_or lut.updated_neurons row 0))
      × ((neuron : ℕ)
          → is_member task.topology.input_neurons neuron ≡ true
          → get_or next neuron 0 ≡ get_or now neuron 0)

  update_row_lem :
      (row : ℕ) (next : List Byte)
      → row < 46
      → Stepped row next
      → (next' : List Byte) × (update_row now lut.storage task.topology.neighbors
            lut.updated_neurons row next
          ≡ ok next')
        × Stepped (row + 1) next'
  unfolding update_row next_trit
  update_row_lem row next h (wide, done, kept) =
      let neuron = get_or lut.updated_neurons row 0 in
      let (below, other, back) = ready.lut_for.indexed.neuron_of row (omega (arith, all_rows)) in
      let near : neuron < task.header.shape.population = below in
      let full : length now ≡ task.header.shape.population = size ∙ sym population in
      let le0 = neighbor_trit-le task lut ready now neuron 0 full trits near (omega arith) in
      let le1 = neighbor_trit-le task lut ready now neuron 1 full trits near (omega arith) in
      let le2 = neighbor_trit-le task lut ready now neuron 2 full trits near (omega arith) in
      let r0 = reads task lut ready now neuron full near 0 (omega arith) in
      let r1 = reads task lut ready now neuron full near 1 (omega arith) in
      let r2 = reads task lut ready now neuron full near 2 (omega arith) in
      let f = neighbor_trit task lut now neuron 0 in
      let g = neighbor_trit task lut now neuron 1 in
      let k = neighbor_trit task lut now neuron 2 in
      let value = get_or lut.storage (row * 32 + (f + 3 * g + 9 * k)) 0 in
      let base : mul32 neuron 3 ≡ neuron * 3 + 0 = omega (arith, population) in
      let at1 : add32 (neuron * 3 + 0) 1 ≡ neuron * 3 + 1 = omega (arith, population) in
      let at2 : add32 (neuron * 3 + 0) 2 ≡ neuron * 3 + 2 = omega (arith, population) in
      let index : add32 (add32 f (mul32 3 g)) (mul32 9 k) ≡ f + 3 * g + 9 * k =
        omega (arith, le0, le1, le2) in
      let place : add32 (mul32 row 32) (f + 3 * g + 9 * k) ≡ row * 32 + (f + 3 * g + 9 * k) =
        omega (arith, le0, le1, le2) in
      let same : value ≡ next_trit task lut now neuron = rw (other, back) refl in
      let there : neuron < length next = omega (arith, wide, population) in
      (
        set next neuron value,
        rw
            (
              get_in_range {E = Exception} lut.updated_neurons row 0 (omega (arith, all_rows)),
              base,
              r0.0,
              r0.1,
              at1,
              r1.0,
              r1.1,
              at2,
              r2.0,
              r2.1,
              index,
              place,
              get_in_range {E = Exception} lut.storage (row * 32 + (f + 3 * g + 9 * k)) 0
                  (omega (arith, le0, le1, le2, ready.lut_for.valid.storage_size, all_rows)),
            )
            (put_in_range {E = Exception} next neuron value there),
        (
          omega (arith, length-set next neuron value),
          λ row' q. elim (ℕ_discrete row' row) [
            | yes here ↦ rw here (get_or-set_self next neuron value 0 there ∙ same)
            | no apart ↦
                let back' = (ready.lut_for.indexed.neuron_of row' (omega (arith, all_rows))).2 in
                let apart' : neuron ≢ get_or lut.updated_neurons row' 0 =
                  λ e. apart (sym back' ∙ ap (λ t. get_or lut.row_for_neuron t 0) (sym e) ∙ back) in
                get_or-set_ne next neuron (get_or lut.updated_neurons row' 0) value 0 apart'
                ∙ done row' (omega arith)
          ],
          λ input m.
              let apart : neuron ≢ input =
                λ e. cc (other, ap (is_member task.topology.input_neurons) e, m) in
              get_or-set_ne next neuron input value 0 apart ∙ kept input m,
        ),
      )

  -- For a task of 64 neurons with a whole topology, a table of 46 rows built for it, and a state of
  -- 64 trits, the kernel's tick over that table and topology succeeds, and leaves the network's step
  -- of the state in the other buffer of 64 bytes, whatever that held.
  pub tick_once_lem :
      (next : List Byte)
      → length next ≡ 64
      → tick_once now next lut.storage task.topology.neighbors lut.updated_neurons
        ≡ ok (step task lut now)
  unfolding tick_once next_trit
  tick_once_lem next wide =
      let copied = copy_state_lem now next size wide in
      let (after, run, (wide', done, kept)) =
        for_range_inv Stepped
          (update_row now lut.storage task.topology.neighbors lut.updated_neurons) 46
          (λ row next p q. update_row_lem row next p q) 46 0 now refl
          (size, λ row p. absurd (omega arith), λ neuron m. refl) in
      let each : (neuron : ℕ)
          → neuron < 64
          → get_or after neuron 0 ≡ next_trit task lut now neuron =
        λ neuron p. elim (Bool-cases (is_member task.topology.input_neurons neuron)) [
          | inl input ↦ kept neuron input ∙ rw input refl
          | inr updated ↦
              let (row, there) =
                ready.lut_for.indexed.row_of neuron (omega (arith, population)) updated in
              rw there at (done (get_or lut.row_for_neuron neuron 0) (omega (arith, all_rows)))
        ] in
      let whole : after ≡ step task lut now =
        list_ext after (step task lut now) 0
          (wide' ∙ sym population ∙ sym (length-step task lut ready now))
          (λ neuron p.
            each neuron (omega (arith, wide'))
            ∙ sym (get_or-step task lut ready now neuron (omega (arith, wide', population)))) in
      rw copied (rw whole at run)
