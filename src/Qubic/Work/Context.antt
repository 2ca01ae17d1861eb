-- ===== src/Qubic/Work/Context.antt =====
-- When system information and a task make a work context, and which one.
use xdna_npu_miner.Prelude.{ℕ, ◌+◌, ◌-◌, ◌≤◌, ◌<◌, ◌≡◌, ◌↔◌, true, arith, ok}
use xdna_npu_miner.Bpp9000.Types.{is_valid_mining_seed}
use xdna_npu_miner.Qubic.Types.{SystemInfo}
use xdna_npu_miner.Qubic.Work.{
  bpp9000, is_supported_algorithm, TaskIdentity, WorkContext, make_work_context,
}

-- What a work context promises of its own fields.
abbrev pub IsWork : WorkContext → Type 0
IsWork context =
    (context.algorithm ≡ bpp9000)
    × (is_valid_mining_seed context.mining_seed ≡ true)
    × (0 < context.window_width)
    × (context.window_width < context.max_ticks)
    × (0 < context.number_of_windows)
    × (context.window_width + context.number_of_windows ≡ context.task.shape.sequence_length)
    × (context.solution_threshold ≤ context.number_of_windows)
    × (context.solution_threshold < 0x8000_0000)

-- The context that the arguments describe, whether or not it is one.
abbrev pub described : SystemInfo → TaskIdentity → ℕ → ℕ → ℕ → WorkContext
described info task algorithm window_width max_ticks = record {
  epoch = info.epoch;
  tick = info.tick;
  mining_seed = info.mining_seed;
  solution_threshold = info.solution_threshold;
  algorithm = algorithm;
  task = task;
  window_width = window_width;
  max_ticks = max_ticks;
  number_of_windows = task.shape.sequence_length - window_width;
}

-- A context is made exactly where the described one keeps its promises: the supported algorithm, a
-- seed that is not zero, a window shorter than the sequence and than the ticks, and a threshold
-- that is not negative and at most the number of windows. It is then the described one.
pub make_work_context_iff :
    (info : SystemInfo) (task : TaskIdentity) (algorithm window_width max_ticks : ℕ)
    (context : WorkContext)
    → (make_work_context info task algorithm window_width max_ticks ≡ ok context) ↔ (
        IsWork (described info task algorithm window_width max_ticks)
        × (described info task algorithm window_width max_ticks ≡ context))
unfolding make_work_context is_supported_algorithm
make_work_context_iff info task algorithm window_width max_ticks context = ground arith
