-- ===== src/Bpp9000/Tests/File.antt =====
-- A task file at concrete bytes.
use xdna_npu_miner.Prelude.{
  ◌≡◌, refl, true, [], ◌∷◌, ◌++◌, replicate, none, some, Outcome, ok, err, fault, get, put,
  for_range,
}
use xdna_npu_miner.Bpp9000.Types.{Bytes, Exception, Task, is_zero, bytes_eq, production_shape}
use xdna_npu_miner.Bpp9000.Roles.{claim_roles, all_below}
use xdna_npu_miner.Bpp9000.Fields.{
  checked_to_size, checked_add, checked_multiply, require_field, word_at, read_u32, read_byte,
  read_u64, read_digest,
}
use xdna_npu_miner.Bpp9000.Packing.{packed_bytes_for_trits, unpack_trit, unpack_byte, unpack_trits}
use xdna_npu_miner.Bpp9000.Task.{
  signal_is_free, claim_outputs, has_unique_roles, validate_shape, topology_bytes_for_shape,
  data_bytes_for_shape,
}
use xdna_npu_miner.Bpp9000.Parse.{
  read_header, differs_from, check_header, block_sizes, has_no_provider, digests_differ,
  check_hashes, read_words, parse_topology, parse_row, parse_data, parse_task,
}
use xdna_npu_miner.Bpp9000.Parse.Accepted.{IsParsed, parse_task_lem}

-- Four neurons with one neighbour each, one input, one output, and two rows.
abbrev file : Bytes
file =
    (76 ∷ 85 ∷ 84 ∷ 84 ∷ 1 ∷ 0 ∷ 0 ∷ 0 ∷ 1 ∷ 0 ∷ 0 ∷ 0 ∷ 1 ∷ 0 ∷ 0 ∷ 0 ∷ 2 ∷ 0 ∷ 0 ∷ 0 ∷ 0 ∷ 0 ∷ 0
      ∷ 0 ∷ 4 ∷ 0 ∷ 0 ∷ 0 ∷ 1 ∷ 0 ∷ 0 ∷ 0 ∷ [])
    ++ (replicate 64 1
        ++ (0 ∷ 0 ∷ 0 ∷ 0 ∷ 1 ∷ 0 ∷ 0 ∷ 0 ∷ 2 ∷ 0 ∷ 0 ∷ 0 ∷ 3 ∷ 0 ∷ 0 ∷ 0 ∷ 0 ∷ 0 ∷ 0 ∷ 0 ∷ 1 ∷ 0
            ∷ 0 ∷ 0 ∷ 2 ∷ 0 ∷ 0 ∷ 0 ∷ 1 ∷ 2 ∷ 0 ∷ 1 ∷ []))

abbrev ones : Bytes → Bytes
ones block = replicate 32 1

abbrev parsed : Outcome Exception Task
parsed =
    parse_task file
      (record { digest_provider = some ones; expected_shape = none; require_hash_metadata = true })

abbrev empty_task : Task
empty_task = record {
  header = record {
    magic = 0;
    version = 0;
    shape = production_shape;
    topology_hash = [];
    data_hash = [];
  };
  topology = record { input_neurons = []; output_neurons = []; signal_neuron = 0; neighbors = [] };
  inputs = [];
  outputs = [];
  packed_topology = [];
  packed_data = [];
}

abbrev task_or : Outcome Exception Task → Task
task_or (ok task) = task
task_or (err thrown) = empty_task
task_or fault = empty_task

parsed-ok : parsed ≡ ok (task_or parsed)
unfolding parse_task read_header check_header block_sizes check_hashes parse_topology parse_data
    parse_row read_words has_no_provider digests_differ differs_from validate_shape
    topology_bytes_for_shape data_bytes_for_shape has_unique_roles claim_outputs signal_is_free
    claim_roles all_below packed_bytes_for_trits unpack_trits unpack_byte unpack_trit
    checked_to_size checked_add checked_multiply require_field word_at read_u32 read_byte read_u64
    read_digest is_zero bytes_eq get put for_range
parsed-ok = refl

parse_task_lem_example : IsParsed file ones none (task_or parsed)
parse_task_lem_example = parse_task_lem file ones none (task_or parsed) parsed-ok
