-- ===== src/Bpp9000/Score/Window.antt =====
-- `score_window` computes what the network does in the window, and never fails on a scorable task.
use xdna_npu_miner.Prelude.{
  ℕ, zero, suc, ◌+◌, ◌≤◌, ◌<◌, ◌≡◌, refl, inl, inr, true, false, arith, get_or, none, some, leb,
  ◌==◌, ok, get_in_range, Bool-cases,
}
use xdna_npu_miner.Prelude.Words.{add64, add32, IsU32}
use xdna_npu_miner.Bpp9000.Types.{Task, Exception, ReferenceConfig, unknown}
use xdna_npu_miner.Bpp9000.Contract.Scorable.{IsScorable}
use xdna_npu_miner.Bpp9000.Lut.{Lut}
use xdna_npu_miner.Bpp9000.Network.{Watch, watch, feed, forget}
use xdna_npu_miner.Bpp9000.Network.Watching.{watch_free, watch_fed, watch_settled}
use xdna_npu_miner.Bpp9000.State.{RecurrentState}
use xdna_npu_miner.Bpp9000.State.Tick.{IsStateFor, IsReady, tick_lem}
use xdna_npu_miner.Bpp9000.State.Inputs.{set_all_inputs_unknown_lem}
use xdna_npu_miner.Bpp9000.State.Feed.{feed_row_lem}
use xdna_npu_miner.Bpp9000.Score.{WindowRun, prepare_round, feed_row, window_loop}

-- The run of the code's loop is the network's.
pub record IsRunOf (task : Task) (run : WindowRun) (w : Watch) : Type 0 where
  pub now : run.state.current ≡ w.now
  pub fed : run.feed_count ≡ w.fed
  pub ticked : run.ticks ≡ w.ticked
  pub done : run.done ≡ w.done
  pub state_for : IsStateFor task run.state

module _ (task : Task) (lut : Lut) (config : ReferenceConfig) (start : ℕ) (ready : IsReady task lut)
    (scorable : IsScorable task config)
    (inside : start + config.window_width < task.header.shape.sequence_length) where
  fed_row :
      (s : RecurrentState) (fed : ℕ)
      → IsStateFor task s
      → fed < config.window_width
      → (feed_row task (add64 start fed) s
          ≡ ok (record s { current = feed task lut (start + fed) s.current }))
        × IsStateFor task (record s { current = feed task lut (start + fed) s.current })
  fed_row s fed for more =
      let row : add64 start fed ≡ start + fed = omega (arith, scorable.outputs_fit) in
      rw row (
        feed_row_lem task lut (start + fed) (omega arith) ready.inputs_in_range
          scorable.inputs_count scorable.inputs_length scorable.inputs_fit scorable.inputs_valid s
          for)

  -- A round whose signal neuron is known runs free.
  free_round :
      (s : RecurrentState) (fed : ℕ)
      → IsStateFor task s
      → (get_or s.current task.topology.signal_neuron 0 == unknown) ≡ false
      → prepare_round task config start s fed
        ≡ ok (some (record s { current = forget task lut s.current }, fed))
  unfolding prepare_round
  free_round s fed for known =
      let signal =
        get_in_range {E = Exception} s.current task.topology.signal_neuron 0
          (omega (arith, for.current_size, scorable.roles.signal_in_range)) in
      rw (signal, known, (set_all_inputs_unknown_lem task lut s for).0)

  -- A round that waits for input takes the next row, unless the window is used up.
  fed_round :
      (s : RecurrentState) (fed : ℕ)
      → IsStateFor task s
      → (get_or s.current task.topology.signal_neuron 0 == unknown) ≡ true
      → fed < config.window_width
      → prepare_round task config start s fed
        ≡ ok (some (record s { current = feed task lut (start + fed) s.current }, fed + 1))
  unfolding prepare_round
  fed_round s fed for waits more =
      let signal =
        get_in_range {E = Exception} s.current task.topology.signal_neuron 0
          (omega (arith, for.current_size, scorable.roles.signal_in_range)) in
      let count : add64 fed 1 ≡ fed + 1 = omega (arith, scorable.outputs_fit, inside) in
      let open_ : leb config.window_width fed ≡ false = ground arith in
      rw (signal, waits, open_, (fed_row s fed for more).0, count)

  last_round :
      (s : RecurrentState) (fed : ℕ)
      → IsStateFor task s
      → (get_or s.current task.topology.signal_neuron 0 == unknown) ≡ true
      → leb config.window_width fed ≡ true
      → prepare_round task config start s fed ≡ ok none
  unfolding prepare_round
  last_round s fed for waits used =
      let signal =
        get_in_range {E = Exception} s.current task.topology.signal_neuron 0
          (omega (arith, for.current_size, scorable.roles.signal_in_range)) in
      rw (signal, waits, used)

  pub window_loop_lem :
      (left : ℕ) (s : RecurrentState) (fed ticked : ℕ)
      → IsStateFor task s
      → fed ≤ config.window_width
      → IsU32 (ticked + left)
      → (run : WindowRun) × (window_loop task lut config start left s fed ticked ≡ ok run)
        × IsRunOf task run (watch task lut config.window_width start left s.current fed ticked)
  unfolding window_loop watch
  window_loop_lem zero s fed ticked for le small =
      (_, refl, record { now = refl; fed = refl; ticked = refl; done = refl; state_for = for })
  window_loop_lem (suc left) s fed ticked for le small =
      let more : add32 ticked 1 ≡ ticked + 1 = omega arith in
      elim (Bool-cases (get_or s.current task.topology.signal_neuron 0 == unknown)) [
        | inl waits ↦ elim (Bool-cases (leb config.window_width fed)) [
          | inl used ↦
              rw
                (
                  last_round s fed for waits used,
                  watch_settled task lut config.window_width start left s.current fed ticked waits
                      used,
                )
                (
                  _,
                  refl,
                  record { now = refl; fed = refl; ticked = refl; done = refl; state_for = for },
                )
          | inr free ↦
              let lt : fed < config.window_width = ground arith in
              let for' = (fed_row s fed for lt).1 in
              let (t, for'') = tick_lem task lut ready _ for' in
              rw
                (
                  fed_round s fed for waits lt,
                  watch_fed task lut config.window_width start left s.current fed ticked waits free,
                  t,
                  more,
                )
                (window_loop_lem left _ (fed + 1) (ticked + 1) for'' (omega arith) (omega arith))
        ]
        | inr known ↦
            let for' = (set_all_inputs_unknown_lem task lut s for).1 in
            let (t, for'') = tick_lem task lut ready _ for' in
            rw
              (
                free_round s fed for known,
                watch_free task lut config.window_width start left s.current fed ticked known,
                t,
                more,
              )
              (window_loop_lem left _ fed (ticked + 1) for'' le (omega arith))
      ]
