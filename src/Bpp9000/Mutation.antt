-- ===== src/Bpp9000/Mutation.antt =====
-- src/bpp9000/reference.cpp, `mutate_lut` and `rollback_mutation`.
pub mod Undo
use xdna_npu_miner.Prelude.{
  ℕ, ◌+◌, ◌/◌, ◌%◌, Bool, not, ◌||◌, List, [], ◌∷◌, ◌++◌, leb, ◌==◌, get_or, Outcome, ok, ◌>>=◌,
  ◌>>◌, throw_if, get,
}
use xdna_npu_miner.Prelude.Words.{add64}
use xdna_npu_miner.Bpp9000.Types.{
  Trit, Exception, task_error, invalid_topology, invalid_domain_value, lut_entries,
}
use xdna_npu_miner.Bpp9000.Contract.{checked_size_product}
use xdna_npu_miner.Bpp9000.Lut.{Lut, rows, at_row, set_row}

pub record MutationRecord : Type 0 where
  pub row : ℕ
  pub neuron : ℕ
  pub entry : ℕ
  pub old_value : Trit
  pub new_value : Trit

-- The bits of the seed above the lowest choose the entry, the lowest one of the two other trits.
unfoldable pub mutate_lut : Lut → ℕ → Outcome Exception (MutationRecord × Lut)
mutate_lut lut mutation_seed = do
  throw_if (rows lut == 0) (task_error invalid_topology)
  total_entries ← checked_size_product (rows lut) lut_entries
  let flat = mutation_seed / 2 % total_entries
  let row = flat / lut_entries
  let entry = flat % lut_entries
  old_value ← at_row lut row entry
  let new_value = (old_value + 1 + mutation_seed % 2) % 3 % 256
  lut' ← set_row lut row entry new_value
  neuron ← get lut'.updated_neurons row
  ok (
    record {
      row = row;
      neuron = neuron;
      entry = entry;
      old_value = old_value;
      new_value = new_value;
    },
    lut',
  )

unfoldable pub rollback_mutation : Lut → MutationRecord → Outcome Exception Lut
rollback_mutation lut done = do
  throw_if
      (leb (rows lut) done.row
        || leb lut_entries done.entry
        || not (get_or lut.updated_neurons done.row 0 == done.neuron))
      (task_error invalid_domain_value)
  value ← at_row lut done.row done.entry
  throw_if (not (value == done.new_value)) (task_error invalid_domain_value)
  set_row lut done.row done.entry done.old_value

-- The loop of a step's mutations: its records and the table, for `words[word_base + mutation]`.
unfoldable pub mutate_once :
    List ℕ → ℕ → ℕ → List MutationRecord × Lut → Outcome Exception (List MutationRecord × Lut)
mutate_once words word_base mutation (mutations, lut) = do
  word ← get words (add64 word_base mutation)
  (done, lut') ← mutate_lut lut word
  ok (mutations ++ (done ∷ []), lut')

-- The loop from `rbegin` to `rend` is this one on the reversed list.
unfoldable pub rollback_all : List MutationRecord → Lut → Outcome Exception Lut
rollback_all [] lut = ok lut
rollback_all (done ∷ rest) lut = do lut' ← rollback_mutation lut done; rollback_all rest lut'
