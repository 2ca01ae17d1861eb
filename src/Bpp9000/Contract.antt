-- ===== src/Bpp9000/Contract.antt =====
-- src/bpp9000/reference.cpp: the checks that scoring makes of its task, and the checked sizes.
pub mod Scorable
use xdna_npu_miner.Prelude.{
  ℕ, ◌≡◌, ◌*◌, ◌<◌, ◌≤◌, arith, ◌+◌, ◌-◌, ◌/◌, ◌%◌, ◌≤◌, ◌<◌, ◌≡◌, refl, Bool, true, false, not,
  ◌&&◌, ◌||◌, List, [], ◌∷◌, Option, none, some, arith, ltb, leb, ◌==◌, length, get_or, replicate,
  All, if◌then◌else◌, bit_and, Outcome, ok, err, fault, ◌>>=◌, ◌>>◌, throw_if,
}
use xdna_npu_miner.Prelude.Words.{u32_max, u64_max, mul64, mul64_u32, fits_u64, add64, IsU32}
use xdna_npu_miner.Bpp9000.Types.{
  Task, Topology, TaskShape, ReferenceConfig, Exception, task_error, bad_magic, bad_version,
  bad_dimensions, bad_length, invalid_topology, invalid_domain_value, task_magic, task_version,
}
use xdna_npu_miner.Bpp9000.Roles.{
  claim_roles, all_below, all_valid_trits, Claimed, claim_roles-Claimed, all_below-All,
  all_valid_trits-All, IsDistinct,
}
use native.Mathlib.Decide.{dec_lt}
use native.Mathlib.Nat.{le-div_iff_mul-le}

-- `left * right`, or `BadLength`.
unfoldable pub checked_size_product : ℕ → ℕ → Outcome Exception ℕ
checked_size_product left right = do
  throw_if (not (left == 0) && ltb (u64_max / left) right) (task_error bad_length)
  ok (mul64 left right)

-- The draw is padded to a multiple of 64 bytes.
unfoldable pub padded_draw_bytes : ℕ → Outcome Exception ℕ
padded_draw_bytes logical_bytes =
    let padding = 64 - logical_bytes % 64 in
    if logical_bytes % 64 == 0 then ok logical_bytes else do
      throw_if (ltb (u64_max - padding) logical_bytes) (task_error bad_length)
      ok (add64 logical_bytes padding)

-- The three role loops over one array `seen`; `none` is the throw of any of them.
unfoldable pub claim_all_roles : TaskShape → Topology → Option (List Bool)
claim_all_roles shape topology =
    elim (claim_roles shape.population topology.input_neurons (replicate shape.population false)) [
      | none ↦ none
      | some seen ↦ elim (claim_roles shape.population topology.output_neurons seen) [
        | none ↦ none
        | some seen' ↦
            if leb shape.population topology.signal_neuron
              || get_or seen' topology.signal_neuron false
            then none
            else some seen'
      ]
    ]

abbrev pub is_none {ℓ} : {A : Type ℓ} → Option A → Bool
is_none none = true
is_none (some a) = false

unfoldable pub require_scorable_task : Task → ReferenceConfig → Outcome Exception (Unit {0})
require_scorable_task task config = do
  throw_if (not (task.header.magic == task_magic)) (task_error bad_magic)
  throw_if (not (task.header.version == task_version)) (task_error bad_version)
  throw_if
      (shape.input_trits == 0
        || shape.population == 0
        || shape.sequence_length == 0
        || not (bit_and shape.population (shape.population - 1) == 0))
      (task_error bad_dimensions)
  throw_if
      (not (length task.topology.input_neurons == shape.input_trits)
        || not (length task.topology.output_neurons == shape.output_trits)
        || not (length task.topology.neighbors == mul64 shape.population shape.neighbors))
      (task_error invalid_topology)
  throw_if (is_none (claim_all_roles shape task.topology)) (task_error invalid_topology)
  throw_if (not (all_below shape.population task.topology.neighbors)) (task_error invalid_topology)
  throw_if
      (ltb u64_max shape.sequence_length
        || not (shape.input_trits == 0) && ltb (u64_max / shape.input_trits) shape.sequence_length
        || not (shape.output_trits == 0)
          && ltb (u64_max / shape.output_trits) shape.sequence_length)
      (task_error bad_length)
  throw_if
      (not (length task.inputs == mul64 shape.sequence_length shape.input_trits)
        || not (length task.outputs == mul64 shape.sequence_length shape.output_trits))
      (task_error invalid_domain_value)
  throw_if (not (all_valid_trits task.inputs)) (task_error invalid_domain_value)
  throw_if (not (all_valid_trits task.outputs)) (task_error invalid_domain_value)
  throw_if (not (shape.output_trits == 1) || not (shape.neighbors == 3)) (task_error bad_dimensions)
  throw_if (ltb config.window_width 2 || leb shape.sequence_length config.window_width)
      (task_error bad_dimensions)
  throw_if (leb config.max_ticks config.window_width) (task_error bad_dimensions)
  throw_if (ltb u32_max (shape.sequence_length - config.window_width)) (task_error bad_dimensions)
  where
    open task.header use {shape}

pub checked_size_product_fits :
    (left right : ℕ) → left * right ≤ u64_max → checked_size_product left right ≡ ok (left * right)
unfolding checked_size_product
checked_size_product_fits left right h =
    let exact : mul64 left right ≡ left * right = omega arith in
    elim (dec_lt 0 left) [
      | yes p ↦
          let bound : right ≤ u64_max / left = (le-div_iff_mul-le p).1 (omega arith) in
          ground (arith, bound, exact)
      | no p ↦ ground (arith, exact)
    ]

pub checked_size_product_lem :
    (left right : ℕ)
    → IsU32 left
    → IsU32 right
    → checked_size_product left right ≡ ok (left * right)
checked_size_product_lem left right h k =
    checked_size_product_fits left right (fits_u64 left right h k)
