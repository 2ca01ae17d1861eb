-- ===== src/Bpp9000/Network.antt =====
-- What scoring means, without machinery: a network of trits that steps as a whole. No error, no
-- buffer and no machine arithmetic stands here; the code is proved to compute this.
pub mod Watching
use xdna_npu_miner.Prelude.{
  ℕ, zero, suc, ◌+◌, ◌*◌, List, [], ◌∷◌, Bool, true, false, leb, ◌==◌, get_or, set, range, map,
  if◌then◌else◌,
}
use xdna_npu_miner.Bpp9000.Types.{Task, Trit, unknown}
use xdna_npu_miner.Bpp9000.Roles.{is_member}
use xdna_npu_miner.Bpp9000.Lut.{Lut}
use xdna_npu_miner.Bpp9000.Lut.Valid.{entry_at}

-- The trits of all neurons, in order.
abbrev pub Trits : Type 0
Trits = List Trit

module _ (task : Task) (lut : Lut) where
  -- The `i`-th neighbour's trit.
  abbrev pub neighbor_trit : Trits → ℕ → ℕ → Trit
  neighbor_trit now neuron i = get_or now (get_or task.topology.neighbors (neuron * 3 + i) 0) 0

  -- The table's trit at the base-3 number of the neighbours.
  abbrev pub table_trit : ℕ → ℕ → ℕ → ℕ → Trit
  table_trit neuron first second third =
      entry_at lut (get_or lut.row_for_neuron neuron 0) (first + 3 * second + 9 * third)

  -- An input keeps its trit; any other neuron looks its neighbours up in its table.
  unfoldable pub next_trit : Trits → ℕ → Trit
  next_trit now neuron =
      if is_member task.topology.input_neurons neuron
      then get_or now neuron 0
      else table_trit neuron (neighbor_trit now neuron 0) (neighbor_trit now neuron 1)
          (neighbor_trit now neuron 2)

  -- All neurons step at once.
  unfoldable pub step : Trits → Trits
  step now = map (next_trit now) (range 0 task.header.shape.population)

  -- The trits of a row go to the input neurons, in order; `at_input` counts through the data.
  unfoldable pub write_inputs : List ℕ → ℕ → Trits → Trits
  write_inputs [] at_input now = now
  write_inputs (neuron ∷ rest) at_input now =
      write_inputs rest (at_input + 1) (set now neuron (get_or task.inputs at_input 0))

  unfoldable pub feed : ℕ → Trits → Trits
  feed row now = write_inputs task.topology.input_neurons (row * task.header.shape.input_trits) now

  -- All inputs become unknown.
  unfoldable pub forget : Trits → Trits
  forget now =
      map
        (λ neuron.
          if is_member task.topology.input_neurons neuron then unknown else get_or now neuron 0)
        (range 0 task.header.shape.population)

-- A network in a window: its trits, the rows that it took, the ticks that it made, and whether it
-- asked for a row beyond the window, which is what settles it.
pub record Watch : Type 0 where
  pub now : Trits
  pub fed : ℕ
  pub ticked : ℕ
  pub done : Bool

module _ (task : Task) (lut : Lut) (width start : ℕ) where
  -- While the signal neuron is unknown the network takes the next row, else it runs on its own.
  unfoldable pub watch : ℕ → Trits → ℕ → ℕ → Watch
  watch zero now fed ticked = record { now = now; fed = fed; ticked = ticked; done = false }
  watch (suc left) now fed ticked = elim (get_or now task.topology.signal_neuron 0 == unknown) [
    | true ↦ elim (leb width fed) [
      | true ↦ record { now = now; fed = fed; ticked = ticked; done = true }
      | false ↦ watch left (step task lut (feed task lut (start + fed) now)) (fed + 1) (ticked + 1)
    ]
    | false ↦ watch left (step task lut (forget task lut now)) fed (ticked + 1)
  ]
