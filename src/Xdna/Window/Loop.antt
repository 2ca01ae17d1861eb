-- ===== src/Xdna/Window/Loop.antt =====
-- The kernel's loop watches the network, and how what follows it differs from the reference.
use xdna_npu_miner.Prelude.{
  ℕ, zero, suc, ◌+◌, ◌*◌, ◌<◌, ◌≤◌, ◌≡◌, refl, ◌∙◌, inl, inr, true, false, arith, length, get_or,
  leb, ◌==◌, Bool-cases, ok, get_in_range, some, none,
}
use xdna_npu_miner.Prelude.Words.{add32, IsU32}
use xdna_npu_miner.Bpp9000.Types.{Task, ReferenceConfig, Exception, unknown}
use xdna_npu_miner.Bpp9000.Contract.Scorable.{IsScorable}
use xdna_npu_miner.Bpp9000.Lut.{Lut, rows}
use xdna_npu_miner.Bpp9000.Network.{Trits, Watch, watch, step, feed, forget}
use xdna_npu_miner.Bpp9000.Network.Watching.{watch_free, watch_fed, watch_settled}
use xdna_npu_miner.Bpp9000.State.{RecurrentState}
use xdna_npu_miner.Bpp9000.State.Tick.{IsReady, IsStateFor, tick_lem}
use xdna_npu_miner.Bpp9000.State.Inputs.{set_all_inputs_unknown_lem}
use xdna_npu_miner.Bpp9000.State.Feed.{feed_row_lem}
use xdna_npu_miner.Xdna.Kernel.{tick_once, copy_state, mul32}
use xdna_npu_miner.Xdna.Kernel.Tick.{tick_once_lem, copy_state_lem}
use xdna_npu_miner.Xdna.Window.{KernelInput, KernelRun, prepare_tick, kernel_loop}
use xdna_npu_miner.Xdna.Window.Inputs.{write_input_lem, forget_inputs_lem}

-- The input holds the task, the table and the window from row `start` on.
pub record IsInputFor (task : Task) (lut : Lut) (config : ReferenceConfig) (start : ℕ)
    (input : KernelInput) : Type 0 where
  pub width : input.window_width ≡ config.window_width
  pub max_ticks : input.max_ticks ≡ config.max_ticks
  pub signal : input.signal_neuron ≡ task.topology.signal_neuron
  pub output : input.output_neuron ≡ get_or task.topology.output_neurons 0 0
  pub table : input.lut ≡ lut.storage
  pub neighbors : input.neighbors ≡ task.topology.neighbors
  pub updated : input.updated_neurons ≡ lut.updated_neurons
  pub roles : input.input_roles ≡ task.topology.input_neurons
  pub sequence_size : config.window_width * 18 ≤ length input.input_sequence
  pub sequence_small : length input.input_sequence < 0x1_0000_0000
  pub sequence :
      (k : ℕ)
      → k < config.window_width * 18
      → get_or input.input_sequence k 0 ≡ get_or task.inputs (start * 18 + k) 0

-- A task of the kernel's size.
pub record FitsKernel (task : Task) (lut : Lut) : Type 0 where
  pub population : task.header.shape.population ≡ 64
  pub inputs : task.header.shape.input_trits ≡ 18
  pub all_rows : rows lut ≡ 46

module _ (task : Task) (lut : Lut) (config : ReferenceConfig) (start : ℕ) (input : KernelInput)
    (ready : IsReady task lut) (s : IsScorable task config) (fits : FitsKernel task lut)
    (inside : start + config.window_width < task.header.shape.sequence_length)
    (ticks_u32 : IsU32 config.max_ticks) (of : IsInputFor task lut config start input) where
  kernel_tick :
      (r : RecurrentState) (next : Trits)
      → IsStateFor task r
      → length next ≡ 64
      → (tick_once r.current next input.lut input.neighbors input.updated_neurons
          ≡ ok (step task lut r.current))
        × (copy_state (step task lut r.current) r.current ≡ ok (step task lut r.current))
        × IsStateFor task (record r { current = step task lut r.current; next = r.current })
  unfolding copy_state
  kernel_tick r next for wide =
      let ticked = (tick_lem task lut ready r for).1 in
      let size : length r.current ≡ 64 = for.current_size ∙ fits.population in
      (
        rw (of.table, of.neighbors, of.updated)
            (tick_once_lem task lut ready r.current fits.population fits.all_rows size for.trits
              next wide),
        copy_state_lem (step task lut r.current) r.current (ticked.current_size ∙ fits.population)
            size,
        ticked,
      )

  feed_lem :
      (r : RecurrentState) (fed : ℕ)
      → IsStateFor task r
      → fed < config.window_width
      → (get_or r.current task.topology.signal_neuron 0 == unknown) ≡ true
      → (prepare_tick input r.current fed
          ≡ ok (some (feed task lut (start + fed) r.current, fed + 1)))
        × IsStateFor task (record r { current = feed task lut (start + fed) r.current })
  unfolding prepare_tick feed
  feed_lem r fed for h waits =
      let roles = task.topology.input_neurons in
      let count : length roles ≡ 18 = s.inputs_count ∙ fits.inputs in
      let fed_state =
        (feed_row_lem task lut (start + fed) (omega arith) s.roles.inputs_in_range s.inputs_count
          s.inputs_length s.inputs_fit s.inputs_valid r for).1 in
      let base : mul32 fed 18 ≡ fed * 18 = omega (arith, s.ticks_enough) in
      let next : add32 fed 1 ≡ fed + 1 = omega (arith, s.ticks_enough) in
      let more : leb input.window_width fed ≡ false = ground (arith, of.width) in
      let sized : length r.current ≡ task.header.shape.population = for.current_size in
      let row : (start + fed) * 18 + 0 ≡ (start + fed) * 18 = omega arith in
      let run =
        write_input_lem task lut roles input.input_sequence (fed * 18) ((start + fed) * 18) 18 0
          r.current (omega (arith, count)) (rw sized s.roles.inputs_in_range)
          (omega (arith, of.sequence_size, count)) of.sequence_small
          (λ k p.
            let here : start * 18 + (fed * 18 + k) ≡ (start + fed) * 18 + k = omega arith in
            rw here at (of.sequence (fed * 18 + k) (omega (arith, count)))) in
      (
        rw
            (
              of.signal,
              get_in_range {E = Exception} r.current task.topology.signal_neuron 0
                  (omega (arith, sized, s.roles.signal_in_range)),
              waits,
              more,
              of.roles,
              base,
              rw row at run,
              next,
              fits.inputs,
            )
            refl,
        fed_state,
      )

  forget_lem :
      (r : RecurrentState) (fed : ℕ)
      → IsStateFor task r
      → (get_or r.current task.topology.signal_neuron 0 == unknown) ≡ false
      → (prepare_tick input r.current fed ≡ ok (some (forget task lut r.current, fed)))
        × IsStateFor task (record r { current = forget task lut r.current })
  unfolding prepare_tick
  forget_lem r fed for known =
      let count : length task.topology.input_neurons ≡ 18 = s.inputs_count ∙ fits.inputs in
      let run = forget_inputs_lem task lut r.current for.current_size s.roles.inputs_in_range in
      (
        rw
            (
              of.signal,
              get_in_range {E = Exception} r.current task.topology.signal_neuron 0
                  (omega (arith, for.current_size, s.roles.signal_in_range)),
              known,
              of.roles,
              rw count at run,
            )
            refl,
        (set_all_inputs_unknown_lem task lut r for).1,
      )

  settle_lem :
      (r : RecurrentState)
      → IsStateFor task r
      → (fed : ℕ) → leb config.window_width fed ≡ true
      → (get_or r.current task.topology.signal_neuron 0 == unknown) ≡ true
      → prepare_tick input r.current fed ≡ ok none
  unfolding prepare_tick
  settle_lem r for fed used waits =
      rw
        (
          of.signal,
          get_in_range {E = Exception} r.current task.topology.signal_neuron 0
              (omega (arith, for.current_size, s.roles.signal_in_range)),
          waits,
          of.width,
          used,
        )
        refl

  -- What the loop leaves of a watched network.
  abbrev run_of : Watch → KernelRun
  run_of w = record { current = w.now; feed_count = w.fed; ticks = w.ticked }

  pub kernel_loop_lem :
      (left : ℕ) (r : RecurrentState) (next : Trits) (fed ticked : ℕ)
      → IsStateFor task r
      → length next ≡ 64
      → ticked + left ≡ config.max_ticks
      → kernel_loop input left r.current next fed ticked
        ≡ ok (run_of (watch task lut config.window_width start left r.current fed ticked))
  unfolding kernel_loop
  kernel_loop_lem zero r next fed ticked for wide e = unfold watch in refl
  kernel_loop_lem (suc left) r next fed ticked for wide e =
      let tick : add32 ticked 1 ≡ ticked + 1 = omega (arith, ticks_u32) in
      elim (Bool-cases (get_or r.current task.topology.signal_neuron 0 == unknown)) [
        | inl waits ↦ elim (Bool-cases (leb config.window_width fed)) [
          | inl used ↦
              rw
                (
                  settle_lem r for fed used waits,
                  watch_settled task lut config.window_width start left r.current fed ticked waits
                      used,
                )
                refl
          | inr free ↦
              let (ready', for') = feed_lem r fed for (ground (arith, free)) waits in
              let (ticks, copied, for'') = kernel_tick _ next for' wide in
              let rest =
                kernel_loop_lem left _ _ (fed + 1) (ticked + 1) for''
                  (for''.current_size ∙ fits.population) (omega arith) in
              rw
                (
                  ready',
                  watch_fed task lut config.window_width start left r.current fed ticked waits free,
                )
                (rw (ticks, copied, tick) rest)
        ]
        | inr known ↦
            let (ready', for') = forget_lem r fed for known in
            let (ticks, copied, for'') = kernel_tick _ next for' wide in
            let rest =
              kernel_loop_lem left _ _ fed (ticked + 1) for'' (for''.current_size ∙ fits.population)
                (omega arith) in
            rw
              (
                ready',
                watch_free task lut config.window_width start left r.current fed ticked known,
              )
              (rw (ticks, copied, tick) rest)
      ]
