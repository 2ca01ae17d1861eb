-- ===== src/Bpp9000/Parse.antt =====
-- src/bpp9000/task.cpp and task.hpp: the parsing of a task file.
pub mod Accepted
use xdna_npu_miner.Prelude.{
  ℕ, zero, suc, ◌+◌, ◌*◌, Bool, true, false, not, ◌&&◌, ◌||◌, List, [], ◌∷◌, ◌++◌, ltb, ◌==◌,
  length, take, drop, Option, none, some, Outcome, ok, ◌>>=◌, ◌>>◌, throw_if, for_range,
  if◌then◌else◌,
}
use xdna_npu_miner.Prelude.Words.{add64, mul64}
use xdna_npu_miner.Bpp9000.Types.{
  Bytes, Trit, Exception, task_error, truncated, trailing_bytes, bad_magic, bad_version,
  bad_dimensions, missing_digest_provider, hash_mismatch, invalid_topology, TaskShape, shape_eq,
  production_shape, TaskHeader, Topology, Task, task_magic, task_version, task_header_bytes,
  is_zero, bytes_eq,
}
use xdna_npu_miner.Bpp9000.Roles.{all_below}
use xdna_npu_miner.Bpp9000.Fields.{
  checked_to_size, checked_add, checked_multiply, read_u32, read_u64, read_digest,
}
use xdna_npu_miner.Bpp9000.Packing.{packed_bytes_for_trits, unpack_trits}
use xdna_npu_miner.Bpp9000.Task.{
  has_unique_roles, validate_shape, topology_bytes_for_shape, data_bytes_for_shape,
}

-- A `BlockDigestProvider` is its function, and a null pointer is `none`.
pub record TaskParseOptions : Type 0 where
  pub digest_provider : Option (Bytes → Bytes)
  pub expected_shape : Option TaskShape
  pub require_hash_metadata : Bool

unfoldable pub read_header : Bytes → Outcome Exception TaskHeader
read_header bytes = do
  throw_if (ltb (length bytes) task_header_bytes) (task_error truncated)
  magic ← read_u32 bytes 0
  version ← read_u32 bytes 4
  input_trits ← read_u32 bytes 8
  output_trits ← read_u32 bytes 12
  sequence_length ← read_u64 bytes 16
  population ← read_u32 bytes 24
  neighbors ← read_u32 bytes 28
  topology_hash ← read_digest bytes 32
  data_hash ← read_digest bytes 64
  ok (record {
    magic = magic;
    version = version;
    shape = record {
      input_trits = input_trits;
      output_trits = output_trits;
      sequence_length = sequence_length;
      population = population;
      neighbors = neighbors;
    };
    topology_hash = topology_hash;
    data_hash = data_hash;
  })

-- `expected.has_value() && shape != expected.value()`
unfoldable pub differs_from : Option TaskShape → TaskShape → Bool
differs_from none shape = false
differs_from (some expected) shape = not (shape_eq shape expected)

unfoldable pub check_header : TaskHeader → TaskParseOptions → Outcome Exception (Unit {0})
check_header header options = do
  throw_if (not (header.magic == task_magic)) (task_error bad_magic)
  throw_if (not (header.version == task_version)) (task_error bad_version)
  validate_shape header.shape
  throw_if (differs_from options.expected_shape header.shape) (task_error bad_dimensions)

-- The sizes of the two blocks of a file of the right length.
unfoldable pub block_sizes : Bytes → TaskShape → Outcome Exception (ℕ × ℕ)
block_sizes bytes shape = do
  topology_size ← topology_bytes_for_shape shape
  data_size ← data_bytes_for_shape shape
  front ← checked_add task_header_bytes topology_size
  whole ← checked_add front data_size
  expected_length ← checked_to_size whole
  throw_if (ltb (length bytes) expected_length) (task_error truncated)
  throw_if (ltb expected_length (length bytes)) (task_error trailing_bytes)
  ok (topology_size, data_size)

unfoldable pub has_no_provider : Option (Bytes → Bytes) → Bool
has_no_provider none = true
has_no_provider (some digest) = false

-- The comparison of the digests, for a provider.
unfoldable pub digests_differ : Option (Bytes → Bytes) → TaskHeader → Bytes → Bytes → Bool
digests_differ none header topology_block data_block = false
digests_differ (some digest) header topology_block data_block =
    (not (is_zero header.topology_hash)
      && not (bytes_eq (digest topology_block) header.topology_hash))
    || (not (is_zero header.data_hash) && not (bytes_eq (digest data_block) header.data_hash))

unfoldable pub check_hashes :
    TaskHeader → TaskParseOptions → Bytes → Bytes → Outcome Exception (Unit {0})
check_hashes header options topology_block data_block = do
  throw_if
      (options.require_hash_metadata && (is_zero header.topology_hash || is_zero header.data_hash))
      (task_error hash_mismatch)
  throw_if
      ((not (is_zero header.topology_hash) || not (is_zero header.data_hash))
        && has_no_provider options.digest_provider)
      (task_error missing_digest_provider)
  throw_if (digests_differ options.digest_provider header topology_block data_block)
      (task_error hash_mismatch)

-- A loop that reads `count` words from `offset` on, with the offset behind them.
unfoldable pub read_words : ℕ → Bytes → ℕ → Outcome Exception (List ℕ × ℕ)
read_words zero bytes offset = ok ([], offset)
read_words (suc count) bytes offset = do
  word ← read_u32 bytes offset
  rest ← read_words count bytes (add64 offset 4)
  ok (word ∷ (rest.0), rest.1)

unfoldable pub parse_topology : Bytes → TaskShape → Outcome Exception Topology
parse_topology topology_block shape = do
  inputs ← read_words shape.input_trits topology_block 0
  outputs ← read_words shape.output_trits topology_block (inputs.1)
  signal ← read_u32 topology_block (outputs.1)
  neighbors ←
      read_words (mul64 shape.population shape.neighbors) topology_block (add64 (outputs.1) 4)
  let topology : Topology = record {
    input_neurons = inputs.0;
    output_neurons = outputs.0;
    signal_neuron = signal;
    neighbors = neighbors.0;
  }
  throw_if (not (neighbors.1 == length topology_block) || not (has_unique_roles shape topology))
      (task_error invalid_topology)
  throw_if (not (all_below shape.population (neighbors.0))) (task_error invalid_topology)
  ok topology

-- One row of the loop over the data; the rows lie within the block, whose size is checked.
unfoldable pub parse_row :
    TaskShape
    → Bytes
    → ℕ
    → ℕ
    → ℕ
    → List Trit × List Trit
    → Outcome Exception (List Trit × List Trit)
parse_row shape data_block input_bytes output_bytes row (inputs, outputs) = do
  let start = row * (input_bytes + output_bytes)
  input_row ← unpack_trits (take input_bytes (drop start data_block)) shape.input_trits
  output_row ←
      unpack_trits (take output_bytes (drop (start + input_bytes) data_block)) shape.output_trits
  ok (inputs ++ input_row, outputs ++ output_row)

unfoldable pub parse_data : Bytes → TaskShape → Outcome Exception (List Trit × List Trit)
parse_data data_block shape = do
  input_bytes ← packed_bytes_for_trits shape.input_trits
  output_bytes ← packed_bytes_for_trits shape.output_trits
  inputs_of ← checked_multiply shape.sequence_length shape.input_trits
  _ ← checked_to_size inputs_of
  outputs_of ← checked_multiply shape.sequence_length shape.output_trits
  _ ← checked_to_size outputs_of
  for_range shape.sequence_length 0 (parse_row shape data_block input_bytes output_bytes) ([], [])

unfoldable pub parse_task : Bytes → TaskParseOptions → Outcome Exception Task
parse_task bytes options = do
  header ← read_header bytes
  check_header header options
  sizes ← block_sizes bytes header.shape
  let topology_block = take (sizes.0) (drop task_header_bytes bytes)
  let data_block = take (sizes.1) (drop (task_header_bytes + sizes.0) bytes)
  check_hashes header options topology_block data_block
  topology ← parse_topology topology_block header.shape
  trits ← parse_data data_block header.shape
  ok (record {
    header = header;
    topology = topology;
    inputs = trits.0;
    outputs = trits.1;
    packed_topology = topology_block;
    packed_data = data_block;
  })

unfoldable pub parse_production_task : Bytes → (Bytes → Bytes) → Outcome Exception Task
parse_production_task bytes digest_provider = parse_task bytes (record {
  digest_provider = some digest_provider;
  expected_shape = some production_shape;
  require_hash_metadata = true;
})
