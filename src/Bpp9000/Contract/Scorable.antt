-- ===== src/Bpp9000/Contract/Scorable.antt =====
-- What a task and a configuration satisfy once `require_scorable_task` let them pass.
use xdna_npu_miner.Prelude.{
  ℕ, ◌+◌, ◌*◌, ◌≤◌, ◌<◌, ◌≡◌, refl, ◌∙◌, Bool, true, false, List, [], ◌∷◌, arith, length, get_or,
  replicate, length-replicate, All, ok, Option-cases, inl, inr,
}
use xdna_npu_miner.Prelude.Words.{u64_max, u32_max, mul64_checked, checked_fits, IsU32}
use xdna_npu_miner.Bpp9000.Types.{
  Task, Topology, TaskShape, ReferenceConfig, task_magic, task_version,
}
use xdna_npu_miner.Bpp9000.Roles.{
  claim_roles, claim_roles-Claimed, all_below-All, all_valid_trits-All, IsDistinct, NotIn,
  NotIn-is_member, is_member,
}
use xdna_npu_miner.Bpp9000.Contract.{is_none, claim_all_roles, require_scorable_task}

-- The three roles: in range, no neuron twice.
pub record RolesClaimed (population : ℕ) (topology : Topology) : Type 0 where
  pub inputs_in_range : All (λ n. n < population) topology.input_neurons
  pub inputs_distinct : IsDistinct topology.input_neurons
  pub outputs_in_range : All (λ n. n < population) topology.output_neurons
  pub outputs_distinct : IsDistinct topology.output_neurons
  pub signal_in_range : topology.signal_neuron < population
  pub outputs_no_inputs : All (λ n. NotIn n topology.input_neurons) topology.output_neurons
  pub signal_no_input : NotIn topology.signal_neuron topology.input_neurons
  pub signal_no_output : NotIn topology.signal_neuron topology.output_neurons

pub record IsScorable (task : Task) (config : ReferenceConfig) : Type 0 where
  pub magic : task.header.magic ≡ task_magic
  pub version : task.header.version ≡ task_version
  pub input_trits_pos : 0 < task.header.shape.input_trits
  pub population_pos : 0 < task.header.shape.population
  pub inputs_count : length task.topology.input_neurons ≡ task.header.shape.input_trits
  pub outputs_count : length task.topology.output_neurons ≡ 1
  pub neighbors_count : length task.topology.neighbors ≡ task.header.shape.population * 3
  pub roles : RolesClaimed task.header.shape.population task.topology
  pub neighbors_in_range : All (λ n. n < task.header.shape.population) task.topology.neighbors
  pub one_output : task.header.shape.output_trits ≡ 1
  pub three_neighbors : task.header.shape.neighbors ≡ 3
  pub inputs_length :
      length task.inputs ≡ task.header.shape.sequence_length * task.header.shape.input_trits
  pub outputs_length : length task.outputs ≡ task.header.shape.sequence_length
  pub inputs_fit : task.header.shape.sequence_length * task.header.shape.input_trits ≤ u64_max
  pub outputs_fit : task.header.shape.sequence_length ≤ u64_max
  pub inputs_valid : All (λ t. t ≤ 2) task.inputs
  pub outputs_valid : All (λ t. t ≤ 2) task.outputs
  pub width_two : 2 ≤ config.window_width
  pub width_short : config.window_width < task.header.shape.sequence_length
  pub ticks_enough : config.window_width < config.max_ticks
  pub windows_fit : task.header.shape.sequence_length ≤ u32_max + config.window_width

not_true : (b : Bool) → ¬ (b ≡ true) → b ≡ false
not_true true h = absurd (h refl)
not_true false h = refl

-- Every output was unmarked when its turn came, so it is no input.
outputs-NotIn :
    (inputs outputs : List ℕ)
    → ((n : ℕ) → is_member inputs n ≡ true → NotIn n outputs)
    → All (λ n. NotIn n inputs) outputs
outputs-NotIn inputs [] h = tt
outputs-NotIn inputs (y ∷ ys) h = (
  NotIn-is_member inputs y (not_true _ (λ m. (h y m).0 refl)),
  outputs-NotIn inputs ys (λ n m. (h n m).1),
)

-- The role loops pass only where the three role lists are in range, distinct and disjoint.
pub claim_all_roles-RolesClaimed :
    (shape : TaskShape) (topology : Topology)
    → is_none (claim_all_roles shape topology) ≡ false
    → RolesClaimed shape.population topology
unfolding claim_all_roles
claim_all_roles-RolesClaimed shape topology h =
    elim (Option-cases (claim_roles population inputs (replicate population false))) [
      | inl e ↦ ground (arith, e)
      | inr (seen, e) ↦ elim (Option-cases (claim_roles population outputs seen)) [
        | inl e' ↦ ground (arith, e, e')
        | inr (seen', e') ↦
            let c =
              claim_roles-Claimed population inputs (replicate population false)
                (length-replicate population false) e in
            let c' =
              claim_roles-Claimed population outputs seen
                (c.size ∙ length-replicate population false) e' in
            let free : (signal < population) × (get_or seen' signal false ≡ false) =
              ground (arith, e, e') in
            record {
              inputs_in_range = c.in_range;
              inputs_distinct = c.distinct;
              outputs_in_range = c'.in_range;
              outputs_distinct = c'.distinct;
              signal_in_range = free.0;
              outputs_no_inputs =
                  outputs-NotIn inputs outputs (λ n m. (c'.kept n (c.marked n m)).0);
              signal_no_input =
                  NotIn-is_member inputs signal
                    (not_true _ (λ m. cc ((c'.kept signal (c.marked signal m)).1, free.1)));
              signal_no_output =
                  NotIn-is_member outputs signal
                    (not_true _ (λ m. cc (c'.marked signal m, free.1)));
            }
      ]
    ]
  where
    open shape use {population}
    open topology use {input_neurons as inputs, output_neurons as outputs, signal_neuron as signal}

-- A task whose population fits 32 bits and that `require_scorable_task` accepts has all that
-- scoring uses: its magic and version, complete vectors, distinct input and output neurons and a
-- signal neuron that have no other role, neighbours in range, valid trits, and bounds on the window
-- width, the ticks and the number of windows.
pub require_scorable_task-IsScorable :
    (task : Task) (config : ReferenceConfig)
    → IsU32 task.header.shape.population
    → require_scorable_task task config ≡ ok tt
    → IsScorable task config
unfolding require_scorable_task
require_scorable_task-IsScorable task config small h = record {
  magic = ground arith;
  version = ground arith;
  input_trits_pos = ground arith;
  population_pos = ground arith;
  inputs_count = ground arith;
  outputs_count = ground arith;
  neighbors_count = ground arith;
  roles = claim_all_roles-RolesClaimed task.header.shape task.topology (ground arith);
  neighbors_in_range =
      all_below-All task.header.shape.population task.topology.neighbors (ground arith);
  one_output = ground arith;
  three_neighbors = ground arith;
  inputs_length =
      ground (arith, mul64_checked task.header.shape.sequence_length task.header.shape.input_trits);
  outputs_length = ground arith;
  inputs_fit =
      ground (arith, checked_fits task.header.shape.sequence_length task.header.shape.input_trits);
  outputs_fit = ground arith;
  inputs_valid = all_valid_trits-All task.inputs (ground arith);
  outputs_valid = all_valid_trits-All task.outputs (ground arith);
  width_two = ground arith;
  width_short = ground arith;
  ticks_enough = ground arith;
  windows_fit = ground arith;
}
