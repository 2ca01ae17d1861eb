-- ===== src/Bpp9000/Task.antt =====
-- src/bpp9000/task.cpp and task.hpp: the validation of a task, and the task file that it is serialized to.
pub mod Unique
use xdna_npu_miner.Prelude.{
  ℕ, zero, suc, ◌+◌, ◌-◌, ◌*◌, bit_and, Bool, true, false, not, ◌&&◌, ◌||◌, List, [], ◌∷◌, ◌++◌,
  ltb, leb, ◌==◌, length, get_or, replicate, take, drop, Option, none, some, Outcome, ok, ◌>>=◌,
  ◌>>◌, throw_if, for_range, if◌then◌else◌,
}
use xdna_npu_miner.Prelude.Words.{add64, mul64}
use xdna_npu_miner.Bpp9000.Types.{
  Byte, Bytes, Trit, Exception, task_error, truncated, trailing_bytes, bad_magic, bad_version,
  bad_dimensions, bad_length, missing_digest_provider, hash_mismatch, invalid_topology,
  invalid_domain_value, TaskShape, shape_eq, production_shape, TaskHeader, Topology, Task,
  task_magic, task_version, task_header_bytes, is_zero, bytes_eq,
}
use xdna_npu_miner.Bpp9000.Roles.{claim_roles, all_below, all_valid_trits}
use xdna_npu_miner.Bpp9000.Fields.{
  checked_to_size, checked_add, checked_multiply, read_u32, read_u64, read_digest, write_u32,
  write_u64, write_digest,
}
use xdna_npu_miner.Bpp9000.Packing.{packed_bytes_for_trits, pack_trits, unpack_trits}

-- The three tests of the roles, one after the other.
unfoldable pub signal_is_free : ℕ → ℕ → Option (List Bool) → Bool
signal_is_free population signal none = false
signal_is_free population signal (some seen) =
    not (leb population signal || get_or seen signal false)

unfoldable pub claim_outputs : ℕ → List ℕ → Option (List Bool) → Option (List Bool)
claim_outputs population neurons none = none
claim_outputs population neurons (some seen) = claim_roles population neurons seen

unfoldable pub has_unique_roles : TaskShape → Topology → Bool
has_unique_roles shape topology = signal_is_free shape.population topology.signal_neuron (
    claim_outputs shape.population topology.output_neurons
      (claim_roles shape.population topology.input_neurons (replicate shape.population false)))

-- The sum of 32-bit numbers does not wrap in 64 bits; `population - 1` is of one that is not zero.
unfoldable pub validate_shape : TaskShape → Outcome Exception (Unit {0})
validate_shape shape = do
  throw_if
      (shape.input_trits == 0
        || shape.output_trits == 0
        || shape.sequence_length == 0
        || shape.population == 0
        || shape.neighbors == 0)
      (task_error bad_dimensions)
  throw_if (leb shape.population (shape.input_trits + shape.output_trits + 1))
      (task_error bad_dimensions)
  throw_if (not (bit_and shape.population (shape.population - 1) == 0)) (task_error bad_dimensions)

unfoldable pub sizes_match : TaskShape → Topology → Bool
sizes_match shape topology =
    length topology.input_neurons == shape.input_trits
    && length topology.output_neurons == shape.output_trits
    && length topology.neighbors == mul64 shape.population shape.neighbors

unfoldable pub validate_task_components : Task → Outcome Exception (Unit {0})
validate_task_components task = do
  let shape = task.header.shape
  validate_shape shape
  throw_if (not (task.header.magic == task_magic)) (task_error bad_magic)
  throw_if (not (task.header.version == task_version)) (task_error bad_version)
  throw_if (not (sizes_match shape task.topology)) (task_error invalid_topology)
  throw_if (not (has_unique_roles shape task.topology)) (task_error invalid_topology)
  throw_if (not (all_below shape.population task.topology.neighbors)) (task_error invalid_topology)
  input_count ← checked_multiply shape.sequence_length shape.input_trits
  output_count ← checked_multiply shape.sequence_length shape.output_trits
  input_size ← checked_to_size input_count
  output_size ← checked_to_size output_count
  throw_if (not (length task.inputs == input_size) || not (length task.outputs == output_size))
      (task_error invalid_domain_value)
  throw_if (not (all_valid_trits task.inputs)) (task_error invalid_domain_value)
  throw_if (not (all_valid_trits task.outputs)) (task_error invalid_domain_value)

unfoldable pub topology_bytes_for_shape : TaskShape → Outcome Exception ℕ
topology_bytes_for_shape shape = do
  validate_shape shape
  role_count ← checked_add shape.input_trits shape.output_trits
  neuron_count ← checked_add role_count 1
  neighbor_count ← checked_multiply shape.population shape.neighbors
  words ← checked_add neuron_count neighbor_count
  bytes ← checked_multiply words 4
  checked_to_size bytes

unfoldable pub data_bytes_for_shape : TaskShape → Outcome Exception ℕ
data_bytes_for_shape shape = do
  validate_shape shape
  input_bytes ← packed_bytes_for_trits shape.input_trits
  output_bytes ← packed_bytes_for_trits shape.output_trits
  row_bytes ← checked_add input_bytes output_bytes
  bytes ← checked_multiply shape.sequence_length row_bytes
  checked_to_size bytes

-- `for (value : values) write_u32(bytes, value);`
unfoldable pub write_words : List ℕ → Bytes → Bytes
write_words [] bytes = bytes
write_words (value ∷ values) bytes = write_words values (write_u32 bytes value)

unfoldable pub serialize_topology : TaskShape → Topology → Outcome Exception Bytes
serialize_topology shape topology = do
  validate_shape shape
  throw_if (not (sizes_match shape topology) || not (has_unique_roles shape topology))
      (task_error invalid_topology)
  throw_if (not (all_below shape.population topology.neighbors)) (task_error invalid_topology)
  _ ← topology_bytes_for_shape shape
  let roles = write_words topology.output_neurons (write_words topology.input_neurons [])
  ok (write_words topology.neighbors (write_u32 roles topology.signal_neuron))

-- One row of the loop of `serialize_data`; the rows lie within the vectors, whose sizes are checked.
unfoldable pub serialize_row :
    TaskShape → List Trit → List Trit → ℕ → ℕ → ℕ → Bytes → Outcome Exception Bytes
serialize_row shape inputs outputs input_bytes output_bytes row packed = do
  packed_input ← pack_trits (take shape.input_trits (drop (row * shape.input_trits) inputs))
  packed_output ← pack_trits (take shape.output_trits (drop (row * shape.output_trits) outputs))
  throw_if (not (length packed_input == input_bytes) || not (length packed_output == output_bytes))
      (task_error bad_length)
  ok ((packed ++ packed_input) ++ packed_output)

unfoldable pub serialize_data : TaskShape → List Trit → List Trit → Outcome Exception Bytes
serialize_data shape inputs outputs = do
  validate_shape shape
  inputs_of ← checked_multiply shape.sequence_length shape.input_trits
  input_count ← checked_to_size inputs_of
  outputs_of ← checked_multiply shape.sequence_length shape.output_trits
  output_count ← checked_to_size outputs_of
  throw_if (not (length inputs == input_count) || not (length outputs == output_count))
      (task_error invalid_domain_value)
  input_bytes ← packed_bytes_for_trits shape.input_trits
  output_bytes ← packed_bytes_for_trits shape.output_trits
  _ ← data_bytes_for_shape shape
  for_range shape.sequence_length 0 (serialize_row shape inputs outputs input_bytes output_bytes) []

unfoldable pub serialize_header : TaskHeader → Bytes
serialize_header header =
    write_digest
      (write_digest
        (write_u32
          (write_u32
            (write_u64
              (write_u32
                (write_u32 (write_u32 (write_u32 [] header.magic) header.version)
                  header.shape.input_trits)
                header.shape.output_trits)
              header.shape.sequence_length)
            header.shape.population)
          header.shape.neighbors)
        header.topology_hash)
      header.data_hash

unfoldable pub serialize_task : Task → Outcome Exception Bytes
serialize_task task = do
  validate_task_components task
  topology ← serialize_topology task.header.shape task.topology
  rows ← serialize_data task.header.shape task.inputs task.outputs
  ok ((serialize_header task.header ++ topology) ++ rows)
