-- ===== src/Qubic/Work.antt =====
-- src/qubic/direct_node.cpp and direct_node.hpp: the work context that system information and a
-- task make, and the tracker of the current one, whose state is an optional context.
pub mod Equality
pub mod Context
pub mod Tracker
use xdna_npu_miner.Prelude.{
  ℕ, ◌-◌, Bool, false, not, ◌&&◌, ◌||◌, ltb, leb, ◌==◌, Option, none, some, Outcome, ok, err, ◌>>=◌,
  ◌>>◌, throw_if, if◌then◌else◌,
}
use xdna_npu_miner.Bpp9000.Types.{Bytes, bytes_eq, TaskShape, shape_eq, Task, is_valid_mining_seed}
use xdna_npu_miner.Qubic.Types.{
  Thrown, protocol_error, SystemInfo, unsupported_algorithm, invalid_seed, invalid_threshold,
  invalid_task, stale_context,
}

-- An enumeration over a byte, to which a caller may cast any byte.
abbrev pub Algorithm : Type 0
Algorithm = ℕ

abbrev pub bpp9000 : Algorithm
bpp9000 = 1

unfoldable pub is_supported_algorithm : Algorithm → Bool
is_supported_algorithm algorithm = algorithm == bpp9000

pub record TaskIdentity : Type 0 where
  pub shape : TaskShape
  pub topology_hash : Bytes
  pub data_hash : Bytes

-- The defaulted `operator==` of `TaskIdentity`.
unfoldable pub identity_eq : TaskIdentity → TaskIdentity → Bool
identity_eq left right =
    shape_eq left.shape right.shape
    && bytes_eq left.topology_hash right.topology_hash
    && bytes_eq left.data_hash right.data_hash

unfoldable pub task_identity : Task → TaskIdentity
task_identity task = record {
  shape = task.header.shape;
  topology_hash = task.header.topology_hash;
  data_hash = task.header.data_hash;
}

pub record WorkContext : Type 0 where
  pub epoch : ℕ
  pub tick : ℕ
  pub mining_seed : Bytes
  pub solution_threshold : ℕ
  pub algorithm : Algorithm
  pub task : TaskIdentity
  pub window_width : ℕ
  pub max_ticks : ℕ
  pub number_of_windows : ℕ

unfoldable pub same_work_parameters : WorkContext → WorkContext → Bool
same_work_parameters left right =
    left.algorithm == right.algorithm
    && identity_eq left.task right.task
    && left.window_width == right.window_width
    && left.max_ticks == right.max_ticks
    && left.number_of_windows == right.number_of_windows

-- The defaulted `operator==` of `WorkContext`.
unfoldable pub context_eq : WorkContext → WorkContext → Bool
context_eq left right =
    left.epoch == right.epoch
    && left.tick == right.tick
    && bytes_eq left.mining_seed right.mining_seed
    && left.solution_threshold == right.solution_threshold
    && left.algorithm == right.algorithm
    && identity_eq left.task right.task
    && left.window_width == right.window_width
    && left.max_ticks == right.max_ticks
    && left.number_of_windows == right.number_of_windows

-- A threshold is negative where the highest bit of its word is set.
unfoldable pub make_work_context :
    SystemInfo → TaskIdentity → Algorithm → ℕ → ℕ → Outcome Thrown WorkContext
make_work_context info task algorithm window_width max_ticks = do
  throw_if (not (is_supported_algorithm algorithm)) (protocol_error unsupported_algorithm)
  throw_if (not (is_valid_mining_seed info.mining_seed)) (protocol_error invalid_seed)
  throw_if (leb 0x8000_0000 info.solution_threshold) (protocol_error invalid_threshold)
  throw_if
      (task.shape.sequence_length == 0
        || window_width == 0
        || leb task.shape.sequence_length window_width
        || leb max_ticks window_width)
      (protocol_error invalid_task)
  let windows = task.shape.sequence_length - window_width
  let threshold = info.solution_threshold
  throw_if (ltb windows threshold) (protocol_error invalid_threshold)
  ok (record {
    epoch = info.epoch;
    tick = info.tick;
    mining_seed = info.mining_seed;
    solution_threshold = threshold;
    algorithm = algorithm;
    task = task;
    window_width = window_width;
    max_ticks = max_ticks;
    number_of_windows = windows;
  })

-- The overload that takes a task.
unfoldable pub make_task_work_context :
    SystemInfo → Task → Algorithm → ℕ → ℕ → Outcome Thrown WorkContext
make_task_work_context info task algorithm window_width max_ticks =
    make_work_context info (task_identity task) algorithm window_width max_ticks

pub data ContextUpdate : Type 0 where
  installed unchanged advanced rejected_older_epoch rejected_older_tick : ContextUpdate

-- `WorkContextTracker`: its one member.
abbrev pub WorkContextTracker : Type 0
WorkContextTracker = Option WorkContext

unfoldable pub observe : WorkContextTracker → WorkContext → ContextUpdate × WorkContextTracker
observe none incoming = (installed, some incoming)
observe (some current) incoming =
    if ltb incoming.epoch current.epoch
    then (rejected_older_epoch, some current)
    else (if incoming.epoch == current.epoch
          && bytes_eq incoming.mining_seed current.mining_seed
          && ltb incoming.tick current.tick
        then (rejected_older_tick, some current)
        else (if context_eq incoming current
            then (unchanged, some current)
            else (advanced, some incoming)))

-- `WorkContextTracker::current`.
unfoldable pub current_context : WorkContextTracker → Outcome Thrown WorkContext
current_context none = err (protocol_error stale_context)
current_context (some current) = ok current

unfoldable pub is_fresh : WorkContextTracker → WorkContext → Bool
is_fresh none candidate = false
is_fresh (some current) candidate =
    same_work_parameters candidate current
    && candidate.epoch == current.epoch
    && bytes_eq candidate.mining_seed current.mining_seed
    && candidate.solution_threshold == current.solution_threshold
    && leb candidate.tick current.tick
