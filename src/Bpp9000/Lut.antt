-- ===== src/Bpp9000/Lut.antt =====
-- src/bpp9000/reference.hpp, class `Lut`, with its operations of src/bpp9000/reference.cpp.
-- A row of the table holds 27 trits in a stride of 32 bytes; each neuron that is no input has a row.
-- An `std::int32_t` is its bit pattern, so -1 is 2 ^ 32 - 1 and the negative ones are from 2 ^ 31 on.
pub mod Valid
pub mod Build
pub mod Init
use xdna_npu_miner.Prelude.{
  ℕ, ◌+◌, ◌-◌, ◌*◌, ◌%◌, Bool, not, ◌||◌, List, [], ◌∷◌, ◌++◌, leb, ltb, ◌==◌, length, get_or,
  replicate, if◌then◌else◌, Outcome, ok, ◌>>=◌, ◌>>◌, throw_if, get, put, for_range,
}
use xdna_npu_miner.Prelude.Words.{mul64, add64}
use xdna_npu_miner.Bpp9000.Types.{
  Task, Bytes, Trit, Exception, task_error, invalid_topology, invalid_domain_value, bad_length,
  lut_entries, lut_stride, unknown, zero_trit, is_valid_trit_byte,
}
use xdna_npu_miner.Bpp9000.Roles.{is_member}
use xdna_npu_miner.Bpp9000.Contract.{checked_size_product}

-- `lut_index`: `first + 3 * second + 9 * third`, for trits only.
unfoldable pub lut_index : Trit → Trit → Trit → Outcome Exception ℕ
lut_index first second third = do
  throw_if
      (not (is_valid_trit_byte first)
        || not (is_valid_trit_byte second)
        || not (is_valid_trit_byte third))
      (task_error invalid_domain_value)
  ok ((first + 3 * second + 9 * third) % 0x1_0000_0000)

pub record Lut : Type 0 where
  pub updated_neurons : List ℕ
  pub row_for_neuron : List ℕ
  pub storage : Bytes

abbrev pub minus_one : ℕ
minus_one = 0xffff_ffff

abbrev pub is_negative : ℕ → Bool
is_negative word = leb 0x8000_0000 word

abbrev pub rows : Lut → ℕ
rows lut = length lut.updated_neurons

abbrev pub population : Lut → ℕ
population lut = length lut.row_for_neuron

-- Where `entry` of `row` stands in the storage.
abbrev pub slot : ℕ → ℕ → ℕ
slot row entry = add64 (mul64 row lut_stride) entry

unfoldable pub at_row : Lut → ℕ → ℕ → Outcome Exception Trit
at_row lut row entry = do
  throw_if (leb (rows lut) row || leb lut_entries entry) (task_error invalid_domain_value)
  value ← get lut.storage (slot row entry)
  throw_if (not (is_valid_trit_byte value)) (task_error invalid_domain_value)
  ok value

-- `neuron >= row_for_neuron_.size() || row_for_neuron_[neuron] < 0`
abbrev pub has_no_row : Lut → ℕ → Bool
has_no_row lut neuron =
    leb (population lut) neuron || is_negative (get_or lut.row_for_neuron neuron 0)

unfoldable pub at_neuron : Lut → ℕ → ℕ → Outcome Exception Trit
at_neuron lut neuron entry = do
  throw_if (has_no_row lut neuron) (task_error invalid_domain_value)
  at_row lut (get_or lut.row_for_neuron neuron 0) entry

unfoldable pub set_row : Lut → ℕ → ℕ → Trit → Outcome Exception Lut
set_row lut row entry value = do
  throw_if (leb (rows lut) row || leb lut_entries entry || not (is_valid_trit_byte value))
      (task_error invalid_domain_value)
  storage ← put lut.storage (slot row entry) value
  ok (record lut { storage = storage })

unfoldable pub set_neuron : Lut → ℕ → ℕ → Trit → Outcome Exception Lut
set_neuron lut neuron entry value = do
  throw_if (has_no_row lut neuron) (task_error invalid_domain_value)
  set_row lut (get_or lut.row_for_neuron neuron 0) entry value

-- The body of the loop of `fill` for one row: the 27 entries, then zeros up to the stride.
unfoldable pub fill_row : Trit → ℕ → Bytes → Outcome Exception Bytes
fill_row value row storage = do
  storage' ← for_range lut_entries 0 (λ entry s. put s (slot row entry) value) storage
  for_range (lut_stride - lut_entries) lut_entries (λ entry s. put s (slot row entry) 0) storage'

unfoldable pub fill : Lut → Trit → Outcome Exception Lut
fill lut value = do
  throw_if (not (is_valid_trit_byte value)) (task_error invalid_domain_value)
  storage ← for_range (rows lut) 0 (fill_row value) lut.storage
  ok (record lut { storage = storage })

-- One round of the constructor's loop, over `updated_neurons_` and `row_for_neuron_`.
unfoldable pub assign_row : List ℕ → ℕ → List ℕ × List ℕ → Outcome Exception (List ℕ × List ℕ)
assign_row inputs neuron (updated, row_for) =
    if is_member inputs neuron then ok (updated, row_for) else do
      row_for' ← put row_for neuron (length updated % 0x1_0000_0000)
      ok (updated ++ (neuron ∷ []), row_for')

-- The constructor `Lut::Lut(task)`.
unfoldable pub make_lut : Task → Outcome Exception Lut
make_lut task = do
  let size = task.header.shape.population
  let inputs = task.topology.input_neurons
  throw_if (size == 0 || not (length inputs == task.header.shape.input_trits))
      (task_error invalid_topology)
  (updated, row_for) ← for_range size 0 (assign_row inputs) ([], replicate size minus_one)
  bytes ← checked_size_product (length updated) lut_stride
  fill (record { updated_neurons = updated; row_for_neuron = row_for; storage = replicate bytes 0 })
      unknown

-- The loops of `initialize_from_root_bytes`: one entry, and the entries of one row.
unfoldable pub init_entry : Bytes → ℕ → ℕ → ℕ → Lut → Outcome Exception Lut
init_entry root_bytes neuron row entry lut = do
  byte ← get root_bytes (add64 (mul64 neuron lut_entries) entry)
  set_row lut row entry (byte % 3)

unfoldable pub init_row : Bytes → ℕ → Lut → Outcome Exception Lut
init_row root_bytes row lut = do
  neuron ← get lut.updated_neurons row
  for_range lut_entries 0 (init_entry root_bytes neuron row) lut

unfoldable pub initialize_from_root_bytes : Lut → Bytes → Outcome Exception Lut
initialize_from_root_bytes lut root_bytes = do
  required ← checked_size_product (population lut) lut_entries
  throw_if (ltb (length root_bytes) required) (task_error bad_length)
  cleared ← fill lut zero_trit
  for_range (rows cleared) 0 (init_row root_bytes) cleared
