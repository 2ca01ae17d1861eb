-- ===== src/Bpp9000/Score.antt =====
-- src/bpp9000/reference.cpp, `score_window` and `score_lut`.
pub mod Window
pub mod Meaning
pub mod Total
use xdna_npu_miner.Prelude.{
  ℕ, zero, suc, ◌-◌, ◌%◌, Bool, true, false, not, Option, none, some, leb, ◌==◌, if◌then◌else◌,
  Outcome, ok, ◌>>=◌, ◌>>◌, throw_if, get, for_range,
}
use xdna_npu_miner.Prelude.Words.{mul64, add64, add32}
use xdna_npu_miner.Bpp9000.Types.{
  Task, Trit, ReferenceConfig, ScoreResult, settled, timeout, timed_out, Exception, task_error,
  bad_dimensions, invalid_topology, timeout_score, unknown,
}
use xdna_npu_miner.Bpp9000.Contract.{require_scorable_task}
use xdna_npu_miner.Bpp9000.Lut.{Lut, population}
use xdna_npu_miner.Bpp9000.State.{
  RecurrentState, make_state, reset_unknown, set_input, set_all_inputs_unknown, tick,
  validate_lut_storage,
}

pub record WindowResult : Type 0 where
  pub score : ScoreResult
  pub predicted : Trit
  pub expected : Trit
  pub feed_count : ℕ

-- One input of the row that `window_start + feed_count` names.
unfoldable pub feed_input : Task → ℕ → ℕ → RecurrentState → Outcome Exception RecurrentState
feed_input task input_base index state = do
  neuron ← get task.topology.input_neurons index
  value ← get task.inputs (add64 input_base index)
  set_input state neuron value

unfoldable pub feed_row : Task → ℕ → RecurrentState → Outcome Exception RecurrentState
feed_row task row state =
    for_range task.header.shape.input_trits 0
      (feed_input task (mul64 row task.header.shape.input_trits)) state

-- What a round does before its tick: `none` is the `break` on a settled window, otherwise the state
-- with its inputs set and the new feed count.
unfoldable pub prepare_round :
    Task
    → ReferenceConfig
    → ℕ
    → RecurrentState
    → ℕ
    → Outcome Exception (Option (RecurrentState × ℕ))
prepare_round task config window_start state feed_count = do
  signal ← get state.current task.topology.signal_neuron
  if signal == unknown
      then (if leb config.window_width feed_count
          then ok none
          else (feed_row task (add64 window_start feed_count) state >>= λ fed.
              ok (some (fed, add64 feed_count 1))))
      else (set_all_inputs_unknown state >>= λ quiet. ok (some (quiet, feed_count)))

-- Where the loop stopped.
pub record WindowRun : Type 0 where
  pub state : RecurrentState
  pub feed_count : ℕ
  pub ticks : ℕ
  pub done : Bool

-- `for (; ticks < config.max_ticks; ++ticks)`, over the rounds left.
unfoldable pub window_loop :
    Task → Lut → ReferenceConfig → ℕ → ℕ → RecurrentState → ℕ → ℕ → Outcome Exception WindowRun
window_loop task lut config window_start zero state feed_count ticks =
    ok (record { state = state; feed_count = feed_count; ticks = ticks; done = false })
window_loop task lut config window_start (suc left) state feed_count ticks = do
  prepared ← prepare_round task config window_start state feed_count
  elim prepared [
    | none ↦ ok (record { state = state; feed_count = feed_count; ticks = ticks; done = true })
    | some (ready, feed_count') ↦ tick ready task lut >>= λ ticked.
        window_loop task lut config window_start left ticked feed_count' (add32 ticks 1)
  ]

-- The result that the end of `score_window` fills in.
unfoldable pub window_result : Task → ℕ → WindowRun → Outcome Exception WindowResult
window_result task window_start run =
    let base : WindowResult = record {
      score = record {
        score = timeout_score;
        status = timeout;
        windows_evaluated = 1;
        ticks = run.ticks;
      };
      predicted = unknown;
      expected = unknown;
      feed_count = run.feed_count % 0x1_0000_0000;
    } in
    if not run.done then ok base else do
      output ← get task.topology.output_neurons 0
      predicted ← get run.state.current output
      expected ←
          get task.outputs
            (mul64 (add64 window_start run.feed_count) task.header.shape.output_trits)
      ok (record base {
        score = record {
          score = if predicted == expected then 0 else 1;
          status = settled;
          windows_evaluated = 1;
          ticks = run.ticks;
        };
        predicted = predicted;
        expected = expected;
      })

unfoldable pub score_window : Task → Lut → ℕ → ReferenceConfig → Outcome Exception WindowResult
score_window task lut window_start config = do
  require_scorable_task task config
  throw_if (leb (task.header.shape.sequence_length - config.window_width) window_start)
      (task_error bad_dimensions)
  throw_if (not (population lut == task.header.shape.population)) (task_error invalid_topology)
  validate_lut_storage lut
  fresh ← make_state task
  run ← window_loop task lut config window_start config.max_ticks (reset_unknown fresh) 0 0
  window_result task window_start run

-- `for (window = 0; window < window_count; ++window)`, over the windows left.
unfoldable pub score_windows :
    Task → Lut → ReferenceConfig → ℕ → ℕ → ScoreResult → Outcome Exception ScoreResult
score_windows task lut config zero window total = ok total
score_windows task lut config (suc left) window total = do
  current ← score_window task lut window config
  let evaluated = add32 window 1
  elim (timed_out current.score) [
    | true ↦ ok (record {
      score = timeout_score;
      status = timeout;
      windows_evaluated = evaluated;
      ticks = current.score.ticks;
    })
    | false ↦ score_windows task lut config left (add64 window 1) (record {
      score = add32 total.score current.score.score;
      status = total.status;
      windows_evaluated = evaluated;
      ticks = current.score.ticks;
    })
  ]

unfoldable pub score_lut : Task → Lut → ReferenceConfig → Outcome Exception ScoreResult
score_lut task lut config = do
  require_scorable_task task config
  score_windows task lut config (task.header.shape.sequence_length - config.window_width) 0
      (record { score = 0; status = settled; windows_evaluated = 0; ticks = 0 })
