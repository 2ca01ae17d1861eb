-- ===== src/Xdna/Window.antt =====
-- src/xdna/m4_kernel.cc, the window mode of `bpp9000_m4_dispatch`, over the parts of the input.
pub mod Inputs
pub mod Loop
pub mod Verdict
use xdna_npu_miner.Prelude.{
  ℕ, zero, suc, ◌+◌, ◌&&◌, List, Option, none, some, ltb, leb, ◌==◌, if◌then◌else◌, Outcome, ok,
  ◌>>=◌, get, put, for_range,
}
use xdna_npu_miner.Prelude.Words.{add32}
use xdna_npu_miner.Bpp9000.Types.{
  Byte, Bytes, Exception, ScoreStatus, settled, timeout, timeout_score, unknown,
}
use xdna_npu_miner.Xdna.Kernel.{mul32, tick_once, copy_state}

-- The parts of the device's input.
pub record KernelInput : Type 0 where
  pub window_width : ℕ
  pub max_ticks : ℕ
  pub output_neuron : ℕ
  pub signal_neuron : ℕ
  pub lut : Bytes
  pub neighbors : List ℕ
  pub updated_neurons : List ℕ
  pub input_roles : List ℕ
  pub input_sequence : Bytes
  pub targets : Bytes

abbrev pub kernel_inputs : ℕ
kernel_inputs = 18

unfoldable pub write_input : List ℕ → Bytes → ℕ → ℕ → List Byte → Outcome Exception (List Byte)
write_input input_roles sequence row i current = do
  role ← get input_roles i
  value ← get sequence (add32 row i)
  put current role value

unfoldable pub forget_role : List ℕ → ℕ → List Byte → Outcome Exception (List Byte)
forget_role input_roles i current = do role ← get input_roles i; put current role unknown

-- What a round does before its tick; `none` is the `break`.
unfoldable pub prepare_tick :
    KernelInput → List Byte → ℕ → Outcome Exception (Option (List Byte × ℕ))
prepare_tick input current feed_count = do
  signal ← get current input.signal_neuron
  if signal == unknown
      then (if leb input.window_width feed_count
          then ok none
          else (for_range kernel_inputs 0
                (write_input input.input_roles input.input_sequence
                  (mul32 feed_count kernel_inputs))
                current
              >>= λ fed. ok (some (fed, add32 feed_count 1))))
      else (for_range kernel_inputs 0 (forget_role input.input_roles) current >>= λ quiet.
          ok (some (quiet, feed_count)))

pub record KernelRun : Type 0 where
  pub current : List Byte
  pub feed_count : ℕ
  pub ticks : ℕ

-- The loop over the ticks, for the ticks left. `next` is the buffer that `tick_once` writes.
unfoldable pub kernel_loop :
    KernelInput → ℕ → List Byte → List Byte → ℕ → ℕ → Outcome Exception KernelRun
kernel_loop input zero current next feed_count ticks =
    ok (record { current = current; feed_count = feed_count; ticks = ticks })
kernel_loop input (suc left) current next feed_count ticks = do
  prepared ← prepare_tick input current feed_count
  elim prepared [
    | none ↦ ok (record { current = current; feed_count = feed_count; ticks = ticks })
    | some (ready, fed) ↦ do
      ticked ← tick_once ready next input.lut input.neighbors input.updated_neurons
      now ← copy_state ticked ready
      kernel_loop input left now ticked fed (add32 ticks 1)
  ]

pub record KernelResult : Type 0 where
  pub score : ℕ
  pub status : ScoreStatus
  pub ticks : ℕ
  pub feed_count : ℕ
  pub predicted : ℕ
  pub expected : ℕ

-- What follows the loop.
unfoldable pub kernel_result : KernelInput → KernelRun → Outcome Exception KernelResult
kernel_result input run =
    if leb input.max_ticks run.ticks && ltb run.feed_count input.window_width
    then ok (record {
      score = timeout_score;
      status = timeout;
      ticks = run.ticks;
      feed_count = run.feed_count;
      predicted = unknown;
      expected = unknown;
    })
    else do
      predicted ← get run.current input.output_neuron
      expected ← get input.targets run.feed_count
      ok (record {
        score = if predicted == expected then 0 else 1;
        status = settled;
        ticks = run.ticks;
        feed_count = run.feed_count;
        predicted = predicted;
        expected = expected;
      })

-- The window mode from an initial state, with the second buffer as it is.
unfoldable pub window_mode : KernelInput → List Byte → List Byte → Outcome Exception KernelResult
window_mode input initial next = do
  run ← kernel_loop input input.max_ticks initial next 0 0
  kernel_result input run
