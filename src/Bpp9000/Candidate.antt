-- ===== src/Bpp9000/Candidate.antt =====
-- src/bpp9000/reference.cpp, `make_candidate_material` and `score_candidate`, and the interface
-- `CandidateRandomSource` of src/bpp9000/random.hpp.
pub mod Material
pub mod Descent
use xdna_npu_miner.Prelude.{
  ℕ, ◌/◌, Bool, not, List, [], ◌∷◌, ◌++◌, ltb, leb, get_or, replicate, if◌then◌else◌, Outcome, ok,
  ◌>>=◌, ◌>>◌, throw_if, for_range,
}
use xdna_npu_miner.Prelude.Words.{u64_max, mul64, add32}
use xdna_npu_miner.Bpp9000.Types.{
  Byte, Bytes, Task, ReferenceConfig, ScoreResult, Exception, task_error, invalid_domain_value,
  bad_length, is_canonical_nonce, is_valid_mining_seed, max_mutations_per_step, lut_entries,
}
use xdna_npu_miner.Bpp9000.Contract.{checked_size_product, padded_draw_bytes, require_scorable_task}
use xdna_npu_miner.Bpp9000.Lut.{Lut, make_lut, initialize_from_root_bytes}
use xdna_npu_miner.Bpp9000.Score.{score_lut}
use xdna_npu_miner.Bpp9000.Mutation.{MutationRecord, mutate_once, rollback_all}
use mathlib.Core.List.{reverse}

-- Each draw overwrites a span, given here with what it holds before.
pub record CandidateRandomSource : Type 0 where
  pub fill_root_lut : Bytes → Bytes → List Byte → Outcome Exception (List Byte)
  pub fill_mutation_words : Bytes → Bytes → Bytes → List ℕ → Outcome Exception (List ℕ)

pub record CandidateMaterial : Type 0 where
  pub root_bytes : List Byte
  pub mutation_words : List ℕ

-- `is_canonical_nonce` and `is_valid_mining_seed` or a throw.
unfoldable pub require_work : Bytes → Bytes → Outcome Exception (Unit {0})
require_work mining_seed nonce = do
  throw_if (not (is_canonical_nonce nonce)) (task_error invalid_domain_value)
  throw_if (not (is_valid_mining_seed mining_seed)) (task_error invalid_domain_value)

unfoldable pub make_candidate_material :
    Task
    → Bytes
    → Bytes
    → Bytes
    → CandidateRandomSource
    → ReferenceConfig
    → Outcome Exception CandidateMaterial
make_candidate_material task public_key mining_seed nonce source config = do
  require_scorable_task task config
  require_work mining_seed nonce
  throw_if (ltb (u64_max / max_mutations_per_step) config.mutation_steps) (task_error bad_length)
  root_logical ← checked_size_product task.header.shape.population lut_entries
  root_size ← padded_draw_bytes root_logical
  root_bytes ← source.fill_root_lut mining_seed public_key (replicate root_size 0)
  mutation_total ← checked_size_product config.mutation_steps max_mutations_per_step
  mutation_logical ← checked_size_product mutation_total 8
  mutation_size ← padded_draw_bytes mutation_logical
  words ← source.fill_mutation_words mining_seed public_key nonce (replicate (mutation_size / 8) 0)
  ok (record { root_bytes = root_bytes; mutation_words = words })

pub record MutationAttempt : Type 0 where
  pub mutations : List MutationRecord
  pub measured : ScoreResult
  pub accepted : Bool

pub record CandidateResult : Type 0 where
  pub initial : ScoreResult
  pub best : ScoreResult
  pub best_lut : Lut
  pub current_lut : Lut
  pub score_calls : ℕ
  pub attempts : List MutationAttempt

-- The variables of the loop of `score_candidate`.
pub record Search : Type 0 where
  pub current : Lut
  pub current_score : ScoreResult
  pub best : ScoreResult
  pub best_lut : Lut
  pub score_calls : ℕ
  pub attempts : List MutationAttempt

-- One round of the loop over the mutation steps.
unfoldable pub search_step :
    Task → ReferenceConfig → ℕ → List ℕ → ℕ → Search → Outcome Exception Search
search_step task config mutation_count words step search = do
  (mutations, mutated) ←
      for_range mutation_count 0 (mutate_once words (mul64 step max_mutations_per_step))
        ([], search.current)
  measured ← score_lut task mutated config
  let accepted = leb measured.score search.current_score.score
  current ← if accepted then ok mutated else rollback_all (reverse mutations) mutated
  let current_score = if accepted then measured else search.current_score
  let better = ltb current_score.score search.best.score
  ok (record {
    current = current;
    current_score = current_score;
    best = if better then current_score else search.best;
    best_lut = if better then current else search.best_lut;
    score_calls = add32 search.score_calls 1;
    attempts =
        search.attempts
        ++ (record { mutations = mutations; measured = measured; accepted = accepted } ∷ []);
  })

unfoldable pub score_candidate :
    Task
    → Bytes
    → Bytes
    → Bytes
    → CandidateRandomSource
    → ReferenceConfig
    → Outcome Exception CandidateResult
score_candidate task public_key mining_seed nonce source config = do
  require_scorable_task task config
  require_work mining_seed nonce
  material ← make_candidate_material task public_key mining_seed nonce source config
  blank ← make_lut task
  current ← initialize_from_root_bytes blank material.root_bytes
  initial ← score_lut task current config
  search ←
      for_range config.mutation_steps 0
        (search_step task config (get_or nonce 1 0) material.mutation_words)
        (record {
          current = current;
          current_score = initial;
          best = initial;
          best_lut = current;
          score_calls = 1;
          attempts = [];
        })
  ok (record {
    initial = initial;
    best = search.best;
    best_lut = search.best_lut;
    current_lut = search.current;
    score_calls = search.score_calls;
    attempts = search.attempts;
  })
