-- ===== src/Bpp9000/State.antt =====
-- src/bpp9000/reference.hpp, class `RecurrentState`, and `recurrent_tick`, as
-- src/bpp9000/reference.cpp defines them: two buffers of trits that a tick swaps.
pub mod Tick
pub mod Inputs
pub mod Feed
use xdna_npu_miner.Prelude.{
  ℕ, Bool, false, not, ◌||◌, List, none, some, leb, ◌==◌, length, get_or, replicate, map,
  if◌then◌else◌, Outcome, ok, err, ◌>>=◌, ◌>>◌, throw_if, get, put, for_range,
}
use xdna_npu_miner.Prelude.Words.{mul64, add64}
use xdna_npu_miner.Bpp9000.Types.{
  Task, Byte, Trit, Exception, task_error, invalid_topology, invalid_domain_value, bad_length,
  bad_magic, bad_version, bad_dimensions, task_magic, task_version, unknown, is_valid_trit_byte,
  lut_entries,
}
use xdna_npu_miner.Bpp9000.Roles.{claim_roles, all_below, all_valid_trits}
use xdna_npu_miner.Bpp9000.Contract.{is_none}
use xdna_npu_miner.Bpp9000.Lut.{Lut, rows, population, lut_index, at_row, at_neuron}

pub record RecurrentState : Type 0 where
  pub current : List Byte
  pub next : List Byte
  pub input_mask : List Bool

-- The constructor.
unfoldable pub make_state : Task → Outcome Exception RecurrentState
make_state task =
    let size = task.header.shape.population in
    elim (claim_roles size task.topology.input_neurons (replicate size false)) [
      | none ↦ err (task_error invalid_topology)
      | some mask ↦ ok (record {
        current = replicate size unknown;
        next = replicate size unknown;
        input_mask = mask;
      })
    ]

unfoldable pub reset_unknown : RecurrentState → RecurrentState
reset_unknown state = record state {
  current = map (λ _. unknown) state.current;
  next = map (λ _. unknown) state.next;
}

unfoldable pub load_current : RecurrentState → List Byte → Outcome Exception RecurrentState
load_current state values = do
  throw_if (not (length values == length state.current)) (task_error bad_length)
  throw_if (not (all_valid_trits values)) (task_error invalid_domain_value)
  ok (record state { current = values; next = values })

unfoldable pub set_input : RecurrentState → ℕ → Trit → Outcome Exception RecurrentState
set_input state neuron value = do
  throw_if
      (leb (length state.input_mask) neuron
        || not (get_or state.input_mask neuron false)
        || not (is_valid_trit_byte value))
      (task_error invalid_domain_value)
  current ← put state.current neuron value
  ok (record state { current = current })

-- One round of `set_all_inputs_unknown`.
unfoldable pub forget_input : List Bool → ℕ → List Byte → Outcome Exception (List Byte)
forget_input mask neuron current =
    if get_or mask neuron false then put current neuron unknown else ok current

unfoldable pub set_all_inputs_unknown : RecurrentState → Outcome Exception RecurrentState
set_all_inputs_unknown state = do
  current ← for_range (length state.input_mask) 0 (forget_input state.input_mask) state.current
  ok (record state { current = current })

-- The trit of a neuron that is no input after the tick: its table at its three neighbours.
unfoldable pub lookup_next : Task → Lut → List Byte → ℕ → Outcome Exception Trit
lookup_next task lut current neuron = do
  let base = mul64 neuron task.header.shape.neighbors
  i ← get task.topology.neighbors base
  first ← get current i
  j ← get task.topology.neighbors (add64 base 1)
  second ← get current j
  k ← get task.topology.neighbors (add64 base 2)
  third ← get current k
  entry ← lut_index first second third
  at_neuron lut neuron entry

-- One round of the loop of `tick`.
unfoldable pub tick_neuron :
    Task → Lut → RecurrentState → ℕ → List Byte → Outcome Exception (List Byte)
tick_neuron task lut state neuron next = do
  is_input ← get state.input_mask neuron
  value ← if is_input then get state.current neuron else lookup_next task lut state.current neuron
  put next neuron value

unfoldable pub tick : RecurrentState → Task → Lut → Outcome Exception RecurrentState
tick state task lut = do
  let size = task.header.shape.population
  throw_if (not (length state.current == size) || not (population lut == size))
      (task_error invalid_topology)
  next ← for_range size 0 (tick_neuron task lut state) state.next
  ok (record state { current = next; next = state.current })

-- The loops that read every logical entry, and so throw at an invalid one.
unfoldable pub validate_lut_storage : Lut → Outcome Exception (Unit {0})
validate_lut_storage lut =
    for_range (rows lut) 0
      (λ row _. for_range lut_entries 0 (λ entry _. at_row lut row entry >>= λ _. ok tt) tt) tt

unfoldable pub require_recurrent_contract : Task → Lut → Outcome Exception (Unit {0})
require_recurrent_contract task lut = do
  throw_if (not (task.header.magic == task_magic)) (task_error bad_magic)
  throw_if (not (task.header.version == task_version)) (task_error bad_version)
  throw_if (shape.population == 0 || not (shape.neighbors == 3)) (task_error bad_dimensions)
  throw_if
      (not (length task.topology.input_neurons == shape.input_trits)
        || not (length task.topology.neighbors == mul64 shape.population shape.neighbors))
      (task_error invalid_topology)
  throw_if
      (is_none (
        claim_roles shape.population task.topology.input_neurons
          (replicate shape.population false)))
      (task_error invalid_topology)
  throw_if (not (all_below shape.population task.topology.neighbors)) (task_error invalid_topology)
  throw_if (not (population lut == shape.population)) (task_error invalid_topology)
  validate_lut_storage lut
  where
    open task.header use {shape}

unfoldable pub recurrent_tick : Task → List Byte → Lut → Outcome Exception (List Byte)
recurrent_tick task previous_state lut = do
  require_recurrent_contract task lut
  throw_if (not (length previous_state == task.header.shape.population)) (task_error bad_length)
  fresh ← make_state task
  loaded ← load_current fresh previous_state
  ticked ← tick loaded task lut
  ok ticked.current
