-- ===== src/Xdna/Tests.antt =====
-- The kernel's tick at a task of the kernel's size.
use xdna_npu_miner.Prelude.{
  sym, ◌∙◌, ℕ, ◌*◌, ◌+◌, get_or, ◌≡◌, ◌≤◌, ◌<◌, refl, [], ◌∷◌, ◌++◌, arith, range, replicate,
  All-replicate, get_or-replicate, ok, put, for_range,
}
use xdna_npu_miner.Bpp9000.Types.{Task, task_magic, task_version}
use xdna_npu_miner.Bpp9000.Roles.{is_member}
use xdna_npu_miner.Bpp9000.Lut.{Lut, minus_one, assign_row}
use xdna_npu_miner.Bpp9000.Lut.Build.{IsLutFor, index_lem}
use xdna_npu_miner.Bpp9000.Network.{step}
use xdna_npu_miner.Bpp9000.State.Tick.{IsReady}
use xdna_npu_miner.Bpp9000.Types.{ReferenceConfig}
use xdna_npu_miner.Bpp9000.Roles.{claim_roles, all_below, all_valid_trits}
use xdna_npu_miner.Bpp9000.Contract.{claim_all_roles, require_scorable_task}
use xdna_npu_miner.Bpp9000.State.Inputs.{blank}
use xdna_npu_miner.Bpp9000.Score.{WindowResult, score_window}
use xdna_npu_miner.Bpp9000.Score.Meaning.{network_window}
use xdna_npu_miner.Xdna.Window.{KernelInput, KernelResult, window_mode}
use xdna_npu_miner.Xdna.Window.Loop.{IsInputFor}
use xdna_npu_miner.Xdna.Window.Verdict.{Agrees, window_mode_lem}
use xdna_npu_miner.Xdna.Kernel.{tick_once}
use xdna_npu_miner.Xdna.Kernel.Tick.{tick_once_lem}

abbrev wide : Task
wide = record {
  header = record {
    magic = task_magic;
    version = task_version;
    shape = record {
      input_trits = 18;
      output_trits = 1;
      sequence_length = 4;
      population = 64;
      neighbors = 3;
    };
    topology_hash = [];
    data_hash = [];
  };
  topology = record {
    input_neurons = range 0 18;
    output_neurons = 18 ∷ [];
    signal_neuron = 19;
    neighbors = replicate 192 20;
  };
  inputs = replicate 72 0;
  outputs = replicate 4 1;
  packed_topology = [];
  packed_data = [];
}

abbrev wide_lut : Lut
wide_lut = record {
  updated_neurons = range 18 46;
  row_for_neuron = replicate 18 minus_one ++ range 0 46;
  storage = replicate 1472 1;
}

rows-assigned :
    for_range 64 0 (assign_row (range 0 18)) ([], replicate 64 minus_one)
    ≡ ok (range 18 46, replicate 18 minus_one ++ range 0 46)
unfolding for_range assign_row is_member put
rows-assigned = refl

ones : (n i : ℕ) → i < n → get_or (replicate n 1) i 0 ≤ 2
ones n i h = rw (get_or-replicate {A = ℕ} n i 1 0 h) (omega arith)

wide_lut-IsLutFor : IsLutFor wide wide_lut
wide_lut-IsLutFor =
    let (s, run, idx) = index_lem (range 0 18) 64 (omega arith) in
    let same : s ≡ (range 18 46, replicate 18 minus_one ++ range 0 46) = cc (run, rows-assigned) in
    record {
      indexed = rw same at idx;
      valid = record {
        storage_size = refl;
        rows_small = omega arith;
        entries = λ row entry p q. ones 1472 (row * 32 + entry) (omega arith);
      };
    }

wide-IsReady : IsReady wide wide_lut
wide-IsReady = record {
  small = omega arith;
  inputs_in_range = ground arith;
  neighbors_count = refl;
  neighbors_in_range = All-replicate (λ n. n < 64) 192 20 (omega arith);
  three_neighbors = refl;
  lut_for = wide_lut-IsLutFor;
}

tick_once_lem_example :
    tick_once (replicate 64 2) (replicate 64 0) (replicate 1472 1) (replicate 192 20) (range 18 46)
    ≡ ok (step wide wide_lut (replicate 64 2))
tick_once_lem_example =
    tick_once_lem wide wide_lut wide-IsReady (replicate 64 2) refl refl refl
      (All-replicate (λ t. t ≤ 2) 64 2 (omega arith)) (replicate 64 0) refl

abbrev config : ReferenceConfig
config = record { window_width = 2; max_ticks = 5; mutation_steps = 0 }

wide_accepted : require_scorable_task wide config ≡ ok tt
unfolding require_scorable_task claim_all_roles claim_roles all_below all_valid_trits
wide_accepted = refl

abbrev kernel_input : KernelInput
kernel_input = record {
  window_width = 2;
  max_ticks = 5;
  output_neuron = 18;
  signal_neuron = 19;
  lut = replicate 1472 1;
  neighbors = replicate 192 20;
  updated_neurons = range 18 46;
  input_roles = range 0 18;
  input_sequence = replicate 36 0;
  targets = replicate 3 1;
}

zeros :
    (n k m j : ℕ)
    → k < n
    → j < m
    → get_or {A = ℕ} (replicate n 0) k 0 ≡ get_or {A = ℕ} (replicate m 0) j 0
zeros n k m j h e = get_or-replicate {A = ℕ} n k 0 0 h ∙ sym (get_or-replicate {A = ℕ} m j 0 0 e)

kernel_input-IsInputFor : IsInputFor wide wide_lut config 1 kernel_input
kernel_input-IsInputFor = record {
  width = refl;
  max_ticks = refl;
  signal = refl;
  output = refl;
  table = refl;
  neighbors = refl;
  updated = refl;
  roles = refl;
  sequence_size = omega arith;
  sequence_small = omega arith;
  sequence = λ k h. zeros 36 k 72 (1 * 18 + k) h (omega arith);
}

window_mode_lem_example :
    (r : KernelResult) × (reference : WindowResult) × (window_mode kernel_input
        (blank wide)
        (replicate 64 0)
      ≡ ok r)
    × (score_window wide wide_lut 1 config ≡ ok reference)
    × Agrees config (network_window wide wide_lut config 1) r reference
window_mode_lem_example =
    window_mode_lem wide wide_lut config 1 kernel_input (replicate 64 0)
      (record {
        accepted = wide_accepted;
        small = omega arith;
        ticks_u32 = omega arith;
        lut_for = wide_lut-IsLutFor;
      })
      (record { population = refl; inputs = refl; all_rows = refl }) (omega arith)
      kernel_input-IsInputFor (record { enough = omega arith; target = refl }) refl
