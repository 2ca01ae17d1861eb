-- ===== src/Bpp9000/Parse/Accepted.antt =====
-- What a parsed task is.
use xdna_npu_miner.Prelude.{
  ℕ, ◌+◌, ◌≤◌, ◌<◌, ◌≡◌, sym, ap, arith, ◌++◌, Bool, true, false, not, ◌||◌, ltb, ◌==◌, length,
  take, drop, length-drop, All, Option, some, Outcome, ok, passed, bind-inv, ok-inj, List, take_all,
  drop-drop, take-append-drop,
}
use mathlib.Core.Path.{subst}
use xdna_npu_miner.Prelude.Words.{u64_max, mul64, add64}
use xdna_npu_miner.Bpp9000.Types.{
  Bytes, Trit, Exception, bytes_eq_iff, TaskShape, shape_eq, TaskHeader, Topology, Task, task_magic,
  task_version, production_shape,
}
use xdna_npu_miner.Bpp9000.Roles.{all_below, all_below-All}
use xdna_npu_miner.Bpp9000.Fields.{checked_add, checked_to_size, read_u32}
use xdna_npu_miner.Bpp9000.Task.{
  has_unique_roles, validate_shape, topology_bytes_for_shape, data_bytes_for_shape,
}
use xdna_npu_miner.Bpp9000.Task.Unique.{AreUnique, has_unique_roles-AreUnique}
use xdna_npu_miner.Bpp9000.Parse.{
  TaskParseOptions, read_header, differs_from, check_header, block_sizes, has_no_provider,
  digests_differ, check_hashes, read_words, parse_topology, parse_data, parse_task,
  parse_production_task,
}

checked_add_lem :
    (left right sum : ℕ)
    → left ≤ u64_max
    → checked_add left right ≡ ok sum
    → (sum ≡ left + right) × (sum ≤ u64_max)
unfolding checked_add
checked_add_lem left right sum fits h = ground (arith, h)

sizes_lem :
    (size t d front whole expected topology_size data_size : ℕ)
    → checked_add 96 t ≡ ok front
    → checked_add front d ≡ ok whole
    → checked_to_size whole ≡ ok expected
    → ltb size expected ≡ false
    → ltb expected size ≡ false
    → ◌≡◌ {A = Outcome Exception (ℕ × ℕ)} (ok (t, d)) (ok (topology_size, data_size))
    → size ≡ 96 + topology_size + data_size
unfolding checked_to_size
sizes_lem size t d front whole expected topology_size data_size f w e long short same =
    let (first, bound) = checked_add_lem 96 t front (omega arith) f in
    let (second, _) = checked_add_lem front d whole bound w in
    let last : whole ≡ expected = ground (arith, e) in
    let t_is : t ≡ topology_size = ap (λ p. p.0) (ok-inj same) in
    let d_is : d ≡ data_size = ap (λ p. p.1) (ok-inj same) in
    let exact : size ≡ expected = ground (arith, long, short) in
    omega (arith, first, second, last, t_is, d_is, exact)

-- The blocks fill the file behind its header.
block_sizes_lem :
    (bytes : Bytes) (shape : TaskShape) (topology_size data_size : ℕ)
    → block_sizes bytes shape ≡ ok (topology_size, data_size)
    → length bytes ≡ 96 + topology_size + data_size
unfolding block_sizes
block_sizes_lem bytes shape topology_size data_size h =
    let (t, _, h1) = bind-inv (topology_bytes_for_shape shape) _ h in
    let (d, _, h2) = bind-inv (data_bytes_for_shape shape) _ h1 in
    let (front, f, h3) = bind-inv (checked_add 96 t) _ h2 in
    let (whole, w, h4) = bind-inv (checked_add front d) _ h3 in
    let (expected, e, h5) = bind-inv (checked_to_size whole) _ h4 in
    let (long, h6) = passed _ _ _ h5 in
    let (short, h7) = passed _ _ _ h6 in
    sizes_lem (length bytes) t d front whole expected topology_size data_size f w e long short h7

roles_lem :
    (shape : TaskShape) (found topology : Topology) (fits : Bool)
    → (not fits || not (has_unique_roles shape found)) ≡ false
    → not (all_below shape.population found.neighbors) ≡ false
    → found ≡ topology
    → (has_unique_roles shape topology ≡ true) × All (λ n. n < shape.population) topology.neighbors
roles_lem shape found topology fits unique below same =
    rw (← same) (
      ground (arith, unique),
      all_below-All shape.population found.neighbors (ground (arith, below)),
    )

topology_lem :
    (block : Bytes) (shape : TaskShape) (topology : Topology)
    → parse_topology block shape ≡ ok topology
    → (has_unique_roles shape topology ≡ true) × All (λ n. n < shape.population) topology.neighbors
unfolding parse_topology
topology_lem block shape topology h =
    let (inputs, _, h1) = bind-inv (read_words shape.input_trits block 0) _ h in
    let (outputs, _, h2) = bind-inv (read_words shape.output_trits block (inputs.1)) _ h1 in
    let (signal, _, h3) = bind-inv (read_u32 block (outputs.1)) _ h2 in
    let (neighbors, _, h4) =
      bind-inv (read_words (mul64 shape.population shape.neighbors) block (add64 (outputs.1) 4)) _
        h3 in
    let found : Topology = record {
      input_neurons = inputs.0;
      output_neurons = outputs.0;
      signal_neuron = signal;
      neighbors = neighbors.0;
    } in
    let (unique, h5) =
      passed (not (neighbors.1 == length block) || not (has_unique_roles shape found)) _ _ h4 in
    let (below, h6) = passed (not (all_below shape.population (neighbors.0))) _ _ h5 in
    roles_lem shape found topology (neighbors.1 == length block) unique below (ok-inj h6)

header_lem :
    (header : TaskHeader) (options : TaskParseOptions)
    → check_header header options ≡ ok tt
    → (header.magic ≡ task_magic)
      × (header.version ≡ task_version)
      × (validate_shape header.shape ≡ ok tt)
      × (differs_from options.expected_shape header.shape ≡ false)
unfolding check_header
header_lem header options h =
    let (magic, h1) = passed (not (header.magic == task_magic)) _ _ h in
    let (version, h2) = passed (not (header.version == task_version)) _ _ h1 in
    let (_, shape, h3) = bind-inv (validate_shape header.shape) _ h2 in
    (ground (arith, magic), ground (arith, version), shape, ground (arith, h3))

production_hashes_lem :
    (header : TaskHeader) (digest : Bytes → Bytes) (expected : Option TaskShape)
    (topology_block data_block : Bytes)
    → check_hashes header
        (record {
          digest_provider = some digest;
          expected_shape = expected;
          require_hash_metadata = true;
        })
        topology_block
        data_block
      ≡ ok tt
    → (digest topology_block ≡ header.topology_hash) × (digest data_block ≡ header.data_hash)
unfolding check_hashes digests_differ has_no_provider
production_hashes_lem header digest expected topology_block data_block h = ground (
  arith,
  h,
  bytes_eq_iff (digest topology_block) header.topology_hash,
  bytes_eq_iff (digest data_block) header.data_hash,
)

-- What a parsed task is, with the digests of a provider.
abbrev pub IsParsed : Bytes → (Bytes → Bytes) → Option TaskShape → Task → Type 0
IsParsed bytes digest expected task =
    (task.header.magic ≡ task_magic)
    × (task.header.version ≡ task_version)
    × (differs_from expected task.header.shape ≡ false)
    × AreUnique task.header.shape.population task.topology
    × All (λ n. n < task.header.shape.population) task.topology.neighbors
    × (digest task.packed_topology ≡ task.header.topology_hash)
    × (digest task.packed_data ≡ task.header.data_hash)
    × (bytes ≡ take 96 bytes ++ (task.packed_topology ++ task.packed_data))

split_lem :
    (bytes : Bytes) (t d : ℕ)
    → length bytes ≡ 96 + t + d
    → bytes ≡ take 96 bytes ++ (take t (drop 96 bytes) ++ take d (drop (96 + t) bytes))
split_lem bytes t d size =
    let rest = drop (96 + t) bytes in
    let last : take d rest ≡ rest =
      take_all rest d (omega (arith, length-drop (96 + t) bytes, size)) in
    let inner = take-append-drop t (drop 96 bytes) in
    sym (rw (last, ← drop-drop 96 t bytes, inner) (take-append-drop 96 bytes))

shape_lem : (a b : TaskShape) → differs_from (some b) a ≡ false → a ≡ b
unfolding differs_from shape_eq
shape_lem a b h = ground (arith, h)

abbrev made_task : Bytes → TaskHeader → ℕ → ℕ → Topology → List Trit → List Trit → Task
made_task bytes header t d topology inputs outputs = record {
  header = header;
  topology = topology;
  inputs = inputs;
  outputs = outputs;
  packed_topology = take t (drop 96 bytes);
  packed_data = take d (drop (96 + t) bytes);
}

parsed_lem :
    (bytes : Bytes) (digest : Bytes → Bytes) (expected : Option TaskShape) (header : TaskHeader)
    (t d : ℕ) (topology : Topology) (inputs outputs : List Trit) (task : Task)
    → check_header header (record {
      digest_provider = some digest;
      expected_shape = expected;
      require_hash_metadata = true;
    })
      ≡ ok tt
    → length bytes ≡ 96 + t + d
    → check_hashes header
        (record {
          digest_provider = some digest;
          expected_shape = expected;
          require_hash_metadata = true;
        })
        (take t (drop 96 bytes))
        (take d (drop (96 + t) bytes))
      ≡ ok tt
    → parse_topology (take t (drop 96 bytes)) header.shape ≡ ok topology
    → made_task bytes header t d topology inputs outputs ≡ task
    → IsParsed bytes digest expected task
parsed_lem bytes digest expected header t d topology inputs outputs task checked size hashes roles
      same =
    let (magic, version, _, shape) = header_lem header _ checked in
    let (unique, below) = topology_lem (take t (drop 96 bytes)) header.shape topology roles in
    let (first, second) =
      production_hashes_lem header digest expected (take t (drop 96 bytes))
        (take d (drop (96 + t) bytes)) hashes in
    subst (IsParsed bytes digest expected) same (
      magic,
      version,
      shape,
      has_unique_roles-AreUnique header.shape topology unique,
      below,
      first,
      second,
      split_lem bytes t d size,
    )

-- A task that is parsed with a provider of digests and required hashes has the magic and the version
-- of a task file and no other shape than the expected one; the roles of its topology are distinct,
-- and they and the neighbours lie within the network; the digests of both blocks are those of the
-- header; and the file is the 96 bytes of the header and the two blocks, nothing more.
pub parse_task_lem :
    (bytes : Bytes) (digest : Bytes → Bytes) (expected : Option TaskShape) (task : Task)
    → parse_task bytes (record {
      digest_provider = some digest;
      expected_shape = expected;
      require_hash_metadata = true;
    })
      ≡ ok task
    → IsParsed bytes digest expected task
unfolding parse_task
parse_task_lem bytes digest expected task h =
    let options : TaskParseOptions = record {
      digest_provider = some digest;
      expected_shape = expected;
      require_hash_metadata = true;
    } in
    let (header, _, h1) = bind-inv (read_header bytes) _ h in
    let (_, checked, h2) = bind-inv (check_header header options) _ h1 in
    let ((t, d), sizes, h3) = bind-inv (block_sizes bytes header.shape) _ h2 in
    let topology_block = take t (drop 96 bytes) in
    let data_block = take d (drop (96 + t) bytes) in
    let (_, hashes, h4) = bind-inv (check_hashes header options topology_block data_block) _ h3 in
    let (topology, roles, h5) = bind-inv (parse_topology topology_block header.shape) _ h4 in
    let (trits, _, h6) = bind-inv (parse_data data_block header.shape) _ h5 in
    parsed_lem bytes digest expected header t d topology (trits.0) (trits.1) task checked
      (block_sizes_lem bytes header.shape t d sizes) hashes roles (ok-inj h6)

-- A production task has the production shape besides.
pub parse_production_task_lem :
    (bytes : Bytes) (digest : Bytes → Bytes) (task : Task)
    → parse_production_task bytes digest ≡ ok task
    → IsParsed bytes digest (some production_shape) task × (task.header.shape ≡ production_shape)
unfolding parse_production_task
parse_production_task_lem bytes digest task h =
    let parsed = parse_task_lem bytes digest (some production_shape) task h in
    let (_, _, shape, _, _, _, _, _) = parsed in
    (parsed, shape_lem task.header.shape production_shape shape)
