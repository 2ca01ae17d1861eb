-- ===== src/Bpp9000/State/Feed.antt =====
-- `feed_row` computes `feed`: the row's trits go to the inputs.
use xdna_npu_miner.Prelude.{
  ℕ, suc, ◌+◌, ◌*◌, ◌≤◌, ◌<◌, ◌≡◌, refl, ◌∙◌, ap, true, arith, length, get_or, set, drop, drop_step,
  drop_all, ok, get_in_range, put_in_range, length-set, for_range_inv, All, All-get_or, All-set,
}
use xdna_npu_miner.Prelude.Words.{mul64, add64, u64_max}
use xdna_npu_miner.Bpp9000.Types.{Task, Exception}
use xdna_npu_miner.Bpp9000.Roles.{is_member, is_member-get_or}
use xdna_npu_miner.Bpp9000.Lut.{Lut}
use xdna_npu_miner.Bpp9000.Network.{Trits, write_inputs, feed}
use xdna_npu_miner.Bpp9000.State.{RecurrentState, set_input}
use xdna_npu_miner.Bpp9000.State.Tick.{IsStateFor}
use xdna_npu_miner.Bpp9000.State.Inputs.{replaced-IsStateFor}
use xdna_npu_miner.Bpp9000.Score.{feed_input, feed_row}

row_in_range :
    (row index height width : ℕ)
    → row < height
    → index < width
    → row * width + index < height * width
row_in_range row index height width h k = grind arith

set_input_lem :
    (task : Task) (s : RecurrentState) (neuron value : ℕ)
    → IsStateFor task s
    → neuron < task.header.shape.population
    → is_member task.topology.input_neurons neuron ≡ true
    → value ≤ 2
    → set_input s neuron value ≡ ok (record s { current = set s.current neuron value })
unfolding set_input
set_input_lem task s neuron value for h member le = ground (
  arith,
  for.mask_size,
  for.mask neuron h,
  member,
  put_in_range {E = Exception} s.current neuron value (omega (arith, for.current_size)),
)

module _ (task : Task) (lut : Lut) (row : ℕ) (inside : row < task.header.shape.sequence_length)
    (in_range : All (λ n. n < task.header.shape.population) task.topology.input_neurons)
    (count : length task.topology.input_neurons ≡ task.header.shape.input_trits)
    (data_size : length task.inputs
      ≡ task.header.shape.sequence_length * task.header.shape.input_trits)
    (fits : task.header.shape.sequence_length * task.header.shape.input_trits ≤ u64_max)
    (valid : All (λ t. t ≤ 2) task.inputs) where
  -- After `i` inputs: what remains to be written gives the same in the end.
  Fed : RecurrentState → ℕ → RecurrentState → Type 0
  Fed s i t =
      (now : Trits) × (t ≡ record s { current = now })
      × IsStateFor task (record s { current = now })
      × (write_inputs task lut (drop i task.topology.input_neurons)
            (row * task.header.shape.input_trits + i) now
          ≡ feed task lut row s.current)

  feed_round :
      (s : RecurrentState) (i : ℕ) (t : RecurrentState)
      → i < task.header.shape.input_trits
      → Fed s i t
      → (t' : RecurrentState) × (feed_input task (mul64 row task.header.shape.input_trits) i t
          ≡ ok t')
        × Fed s (i + 1) t'
  unfolding feed_input Fed write_inputs
  feed_round s i t h (now, e, for, rest) =
      let inputs = task.topology.input_neurons in
      let width = task.header.shape.input_trits in
      let neuron = get_or inputs i 0 in
      let i_in : i < length inputs = omega (arith, count) in
      let place = row_in_range row i task.header.shape.sequence_length width inside h in
      let there : row * width + i < length task.inputs = omega (arith, data_size, place) in
      let value = get_or task.inputs (row * width + i) 0 in
      let base : mul64 row width ≡ row * width = omega (arith, place, fits) in
      let sum : add64 (row * width) i ≡ row * width + i = omega (arith, place, fits) in
      let neuron_in = All-get_or _ inputs i 0 in_range i_in in
      let le = All-get_or _ task.inputs (row * width + i) 0 valid there in
      let shift : row * width + (i + 1) ≡ row * width + i + 1 = omega arith in
      let next : i + 1 ≡ suc i = omega arith in
      let current : RecurrentState = record s { current = now } in
      (
        record s { current = set now neuron value },
        rw
            (
              base,
              sum,
              e,
              get_in_range {E = Exception} inputs i 0 i_in,
              get_in_range {E = Exception} task.inputs (row * width + i) 0 there,
            )
            (set_input_lem task current neuron value for neuron_in (is_member-get_or inputs i i_in)
              le),
        (
          set now neuron value,
          refl,
          replaced-IsStateFor task lut current (set now neuron value) for
              (length-set now neuron value ∙ for.current_size)
              (All-set _ now neuron value for.trits le),
          rw (shift, next) (rw (drop_step inputs i 0 i_in) at rest),
        ),
      )

  -- For a row of the task, with input neurons in range, complete data of valid trits and a state of
  -- the task, the loop that feeds the row succeeds: the input neurons get the row's trits in their
  -- order, every other neuron keeps its trit, and the state stays one of the task.
  pub feed_row_lem :
      (s : RecurrentState)
      → IsStateFor task s
      → (feed_row task row s ≡ ok (record s { current = feed task lut row s.current }))
        × IsStateFor task (record s { current = feed task lut row s.current })
  unfolding feed_row Fed write_inputs feed
  feed_row_lem s for =
      let width = task.header.shape.input_trits in
      let start : row * width + 0 ≡ row * width = omega arith in
      let (t, run, (now, e, for', done)) =
        for_range_inv (Fed s) (feed_input task (mul64 row width)) width
          (λ i t p q. feed_round s i t p q) width 0 s (omega arith)
          (s.current, refl, for, rw start) in
      let same : now ≡ feed task lut row s.current =
        rw (drop_all task.topology.input_neurons width (omega (arith, count))) at done in
      (rw (← same) (run ∙ ap ok e), rw (← same) for')
