-- ===== src/Bpp9000/Score/Meaning.antt =====
-- What a window's score means, and that `score_window` returns it on every task that scoring accepts.
use xdna_npu_miner.Prelude.{
  ℕ, ◌+◌, ◌%◌, ◌<◌, ◌≡◌, refl, inl, inr, arith, get_or, ◌==◌, ok, ◌>>=◌, get_in_range, for_range,
  for_range_inv, Bool-cases, All-get_or, if◌then◌else◌,
}
use xdna_npu_miner.Prelude.Words.{mul64, add64, IsU32}
use xdna_npu_miner.Bpp9000.Types.{
  Task, Exception, ReferenceConfig, unknown, settled, timeout, timeout_score,
}
use xdna_npu_miner.Bpp9000.Contract.{require_scorable_task}
use xdna_npu_miner.Bpp9000.Contract.Scorable.{IsScorable, require_scorable_task-IsScorable}
use xdna_npu_miner.Bpp9000.Lut.{Lut, rows, at_row}
use xdna_npu_miner.Bpp9000.Lut.Valid.{IsValidLut, at_row_lem}
use xdna_npu_miner.Bpp9000.Lut.Build.{IsLutFor}
use xdna_npu_miner.Bpp9000.Network.{Watch, watch}
use xdna_npu_miner.Bpp9000.Network.Watching.{watch-IsBounded, IsBounded}
use xdna_npu_miner.Bpp9000.State.{validate_lut_storage}
use xdna_npu_miner.Bpp9000.State.Tick.{IsReady}
use xdna_npu_miner.Bpp9000.State.Inputs.{make_state_lem, blank}
use xdna_npu_miner.Bpp9000.Score.{WindowRun, WindowResult, window_result, score_window}
use xdna_npu_miner.Bpp9000.Score.Window.{IsRunOf, window_loop_lem}

-- The network, all unknown, in the window from row `start` on.
unfoldable pub network_window : Task → Lut → ReferenceConfig → ℕ → Watch
network_window task lut config start =
    watch task lut config.window_width start config.max_ticks (blank task) 0 0

-- A settled network is scored by its output neuron against the row after the window; one that did
-- not settle in time has the timeout score.
unfoldable pub meaning : Task → ℕ → Watch → WindowResult
meaning task start w =
    let predicted = get_or w.now (get_or task.topology.output_neurons 0 0) 0 in
    let expected = get_or task.outputs (start + w.fed) 0 in
    if w.done
    then record {
      score = record {
        score = if predicted == expected then 0 else 1;
        status = settled;
        windows_evaluated = 1;
        ticks = w.ticked;
      };
      predicted = predicted;
      expected = expected;
      feed_count = w.fed;
    }
    else record {
      score = record {
        score = timeout_score;
        status = timeout;
        windows_evaluated = 1;
        ticks = w.ticked;
      };
      predicted = unknown;
      expected = unknown;
      feed_count = w.fed;
    }

-- A task that scoring accepts, with a table built for it. The types of the fields bound the rest.
pub record CanScore (task : Task) (lut : Lut) (config : ReferenceConfig) : Type 0 where
  pub accepted : require_scorable_task task config ≡ ok tt
  pub small : task.header.shape.population < 0x8000_0000
  pub ticks_u32 : IsU32 config.max_ticks
  pub lut_for : IsLutFor task lut

pub CanScore-IsScorable :
    {task : Task} {lut : Lut} {config : ReferenceConfig}
    → CanScore task lut config
    → IsScorable task config
CanScore-IsScorable {task} {lut} {config} c =
    require_scorable_task-IsScorable task config (omega (arith, c.small)) c.accepted

pub CanScore-IsReady :
    {task : Task} {lut : Lut} {config : ReferenceConfig}
    → CanScore task lut config
    → IsReady task lut
CanScore-IsReady c =
    let s = CanScore-IsScorable c in
    record {
      small = c.small;
      inputs_in_range = s.roles.inputs_in_range;
      neighbors_count = s.neighbors_count;
      neighbors_in_range = s.neighbors_in_range;
      three_neighbors = s.three_neighbors;
      lut_for = c.lut_for;
    }

pub validate_lut_storage_lem : (lut : Lut) → IsValidLut lut → validate_lut_storage lut ≡ ok tt
unfolding validate_lut_storage
validate_lut_storage_lem lut valid =
    let (t, run, _) =
      for_range_inv (λ _ _. Unit {0})
        (λ row _. for_range 27 0 (λ entry _. at_row lut row entry >>= λ _. ok tt) tt) (rows lut)
        (λ row _ p _.
          let (t, run, _) =
            for_range_inv (λ _ _. Unit {0}) (λ entry _. at_row lut row entry >>= λ _. ok tt) 27
              (λ entry _ q _. (tt, rw (at_row_lem lut row entry valid p q), tt)) 27 0 tt refl tt in
          (tt, run, tt))
        (rows lut) 0 tt (omega arith) tt in
    run

window_result_lem :
    (task : Task) (config : ReferenceConfig) (start : ℕ) (run : WindowRun) (w : Watch)
    → IsScorable task config
    → start + config.window_width < task.header.shape.sequence_length
    → IsU32 config.max_ticks
    → IsBounded task config.window_width config.max_ticks w
    → IsRunOf task run w
    → window_result task start run ≡ ok (meaning task start w)
unfolding window_result meaning
window_result_lem task config start run w s inside small b of = elim (Bool-cases w.done) [
  | inl done ↦
      let fed = b.done_fed done in
      let fits : w.fed % 0x1_0000_0000 ≡ w.fed = omega (arith, b.fed_le, s.ticks_enough) in
      let outputs_in =
        All-get_or _ task.topology.output_neurons 0 0 s.roles.outputs_in_range
          (omega (arith, s.outputs_count)) in
      let row : mul64 (add64 start w.fed) 1 ≡ start + w.fed =
        omega (arith, b.fed_le, s.outputs_fit) in
      rw
        (
          of.done,
          of.fed,
          of.ticked,
          of.now,
          done,
          s.one_output,
          row,
          fits,
          get_in_range {E = Exception} task.topology.output_neurons 0 0
              (omega (arith, s.outputs_count)),
        )
        (rw (← of.now) (
          rw (
            get_in_range {E = Exception} run.state.current (get_or task.topology.output_neurons 0 0)
                0 (omega (arith, of.state_for.current_size, outputs_in)),
            get_in_range {E = Exception} task.outputs (start + w.fed) 0
                (omega (arith, s.outputs_length, b.fed_le)),
          )))
  | inr spent ↦
      let fits : w.fed % 0x1_0000_0000 ≡ w.fed = omega (arith, b.fed_le, s.ticks_enough) in
      rw (of.done, of.fed, of.ticked, spent, fits)
]

-- On an accepted task with a table built for it, and for a window that lies inside the task,
-- `score_window` neither throws nor faults. It returns what the network does: the comparison of its
-- output neuron with the row after the window if it settles, the timeout score if it does not.
pub score_window_lem :
    (task : Task) (lut : Lut) (config : ReferenceConfig) (start : ℕ)
    → CanScore task lut config
    → start + config.window_width < task.header.shape.sequence_length
    → score_window task lut start config
      ≡ ok (meaning task start (network_window task lut config start))
unfolding score_window network_window
score_window_lem task lut config start c inside =
    let s = CanScore-IsScorable c in
    let ready = CanScore-IsReady c in
    let (fresh, made, reset, blank_now, for) =
      make_state_lem task s.roles.inputs_in_range s.roles.inputs_distinct in
    let (run, ran, of) =
      window_loop_lem task lut config start ready s inside config.max_ticks fresh 0 0 for
        (omega arith) (omega (arith, c.ticks_u32)) in
    let bounded =
      watch-IsBounded task lut config.window_width start config.max_ticks (blank task) 0 0
        config.max_ticks (omega arith) (omega arith) in
    let judged =
      window_result_lem task config start run _ s inside c.ticks_u32 bounded (rw blank_now at of) in
    ground (
      arith,
      c.accepted,
      c.lut_for.indexed.row_for_size,
      validate_lut_storage_lem lut c.lut_for.valid,
      made,
      reset,
      ran,
      judged,
    )
