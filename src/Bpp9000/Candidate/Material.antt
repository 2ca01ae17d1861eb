-- ===== src/Bpp9000/Candidate/Material.antt =====
-- `make_candidate_material`: the draws are as long as the search needs them.
use xdna_npu_miner.Prelude.{
  ℕ, ◌+◌, ◌*◌, ◌/◌, ◌%◌, ◌≤◌, ◌<◌, ◌≡◌, true, List, arith, length, get_or, replicate,
  length-replicate, ok,
}
use xdna_npu_miner.Prelude.Words.{IsU32}
use xdna_npu_miner.Bpp9000.Types.{
  Bytes, Byte, Task, ReferenceConfig, is_canonical_nonce, is_valid_mining_seed,
}
use xdna_npu_miner.Bpp9000.Contract.{
  padded_draw_bytes, checked_size_product, checked_size_product_lem, checked_size_product_fits,
  require_scorable_task,
}
use xdna_npu_miner.Bpp9000.Candidate.{
  CandidateRandomSource, CandidateMaterial, require_work, make_candidate_material,
}

-- The source fills every span of fewer than 2 ^ 40 places. (A span keeps its length.)
pub record Serves (source : CandidateRandomSource) (seed key nonce : Bytes) : Type 0 where
  pub serves_root :
      (span : List Byte)
      → length span < 0x100_0000_0000
      → (drawn : List Byte) × (source.fill_root_lut seed key span ≡ ok drawn)
        × (length drawn ≡ length span)
  pub serves_words :
      (span : List ℕ)
      → length span < 0x100_0000_0000
      → (drawn : List ℕ) × (source.fill_mutation_words seed key nonce span ≡ ok drawn)
        × (length drawn ≡ length span)

-- The padding never shortens, and reaches a multiple of 64.
pub padded_draw_bytes_lem :
    (n : ℕ)
    → n < 0x1000_0000_0000_0000
    → (m : ℕ) × (padded_draw_bytes n ≡ ok m) × (n ≤ m) × (m % 64 ≡ 0) × (m < n + 64)
unfolding padded_draw_bytes
padded_draw_bytes_lem n h =
    ((n + 63) / 64 * 64, ground arith, omega arith, omega arith, omega arith)

pub require_work_lem :
    (seed nonce : Bytes)
    → is_canonical_nonce nonce ≡ true
    → is_valid_mining_seed seed ≡ true
    → require_work seed nonce ≡ ok tt
unfolding require_work
require_work_lem seed nonce h k = rw (h, k)

pub canonical_count :
    (nonce : Bytes)
    → is_canonical_nonce nonce ≡ true
    → (1 ≤ get_or nonce 1 0) × (get_or nonce 1 0 ≤ 10)
unfolding is_canonical_nonce
canonical_count nonce h = ground arith

-- For an accepted task with 32-bit sizes, a canonical nonce, a valid seed and a random source that
-- fills the spans it is given, `make_candidate_material` succeeds, with 27 root bytes for each
-- neuron and ten words for each mutation step.
pub make_candidate_material_lem :
    (task : Task) (key seed nonce : Bytes) (source : CandidateRandomSource)
    (config : ReferenceConfig)
    → require_scorable_task task config ≡ ok tt
    → IsU32 task.header.shape.population
    → IsU32 config.mutation_steps
    → is_canonical_nonce nonce ≡ true
    → is_valid_mining_seed seed ≡ true
    → Serves source seed key nonce
    → (m : CandidateMaterial) × (make_candidate_material task key seed nonce source config ≡ ok m)
      × (task.header.shape.population * 27 ≤ length m.root_bytes)
      × (config.mutation_steps * 10 ≤ length m.mutation_words)
unfolding make_candidate_material
make_candidate_material_lem task key seed nonce source config accepted small steps canonical valid
      serves =
    let size = task.header.shape.population in
    let (root_size, padded, root_le, _, root_near) =
      padded_draw_bytes_lem (size * 27) (omega arith) in
    let (root, drawn, root_length) =
      serves.serves_root (replicate root_size 0)
        (omega (arith, length-replicate {A = ℕ} root_size 0)) in
    let (words_size, padded', words_le, _, words_near) =
      padded_draw_bytes_lem (config.mutation_steps * 10 * 8) (omega arith) in
    let (words, drawn', words_length) =
      serves.serves_words (replicate (words_size / 8) 0)
        (omega (arith, length-replicate {A = ℕ} (words_size / 8) 0)) in
    let total : checked_size_product (config.mutation_steps * 10) 8
        ≡ ok (config.mutation_steps * 10 * 8) =
      checked_size_product_fits (config.mutation_steps * 10) 8 (omega arith) in
    (
      record { root_bytes = root; mutation_words = words },
      ground (
        arith,
        accepted,
        require_work_lem seed nonce canonical valid,
        checked_size_product_lem size 27,
        padded,
        drawn,
        checked_size_product_lem config.mutation_steps 10,
        total,
        padded',
        drawn',
      ),
      omega (arith, length-replicate {A = ℕ} root_size 0),
      omega (arith, length-replicate {A = ℕ} (words_size / 8) 0),
    )
