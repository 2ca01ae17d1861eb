-- ===== src/Xdna/Kernel.antt =====
-- src/xdna/m4_kernel.cc: the tick and the input loops of the window kernel.
pub mod Tick
use xdna_npu_miner.Prelude.{ℕ, ◌+◌, ◌*◌, ◌%◌, List, Outcome, ok, ◌>>=◌, get, put, for_range}
use xdna_npu_miner.Prelude.Words.{add32}
use xdna_npu_miner.Bpp9000.Types.{Byte, Bytes, Exception}

abbrev pub kernel_population : ℕ
kernel_population = 64

abbrev pub updated_rows : ℕ
updated_rows = 46

abbrev pub kernel_stride : ℕ
kernel_stride = 32

-- `a * b` on 32-bit words.
abbrev pub mul32 : ℕ → ℕ → ℕ
mul32 a b = a * b % 0x1_0000_0000

-- The bodies of the loops of `tick_once`: a copied neuron, and an updated one.
unfoldable pub copy_neuron : List Byte → ℕ → List Byte → Outcome Exception (List Byte)
copy_neuron previous neuron next = do value ← get previous neuron; put next neuron value

unfoldable pub update_row :
    List Byte → Bytes → List ℕ → List ℕ → ℕ → List Byte → Outcome Exception (List Byte)
update_row previous lut neighbors updated_neurons row next = do
  neuron ← get updated_neurons row
  let neighbor_base = mul32 neuron 3
  n0 ← get neighbors neighbor_base
  first ← get previous n0
  n1 ← get neighbors (add32 neighbor_base 1)
  second ← get previous n1
  n2 ← get neighbors (add32 neighbor_base 2)
  third ← get previous n2
  let index = add32 (add32 first (mul32 3 second)) (mul32 9 third)
  value ← get lut (add32 (mul32 row kernel_stride) index)
  put next neuron value

unfoldable pub tick_once :
    List Byte → List Byte → Bytes → List ℕ → List ℕ → Outcome Exception (List Byte)
tick_once previous next lut neighbors updated_neurons = do
  copied ← for_range kernel_population 0 (copy_neuron previous) next
  for_range updated_rows 0 (update_row previous lut neighbors updated_neurons) copied

-- `copy_state`
unfoldable pub copy_state : List Byte → List Byte → Outcome Exception (List Byte)
copy_state source destination = for_range kernel_population 0 (copy_neuron source) destination
