-- ===== src/Bpp9000/Tests.antt =====
-- A small task, its tables and its states, and the theorems about src/bpp9000 at these.
mod Codec
mod File
use xdna_npu_miner.Prelude.{
  ℕ, ◌/◌, zero, suc, ◌≡◌, get, put, get_or, for_range, ◌<◌, ◌≤◌, ◌*◌, ◌+◌, ◌%◌, ◌↔◌, refl, true,
  false, List, [], ◌∷◌, ◌++◌, arith, replicate, length, All, ok,
}
use xdna_npu_miner.Bpp9000.Types.{
  Bytes, Task, ReferenceConfig, ScoreResult, settled, is_valid_score, task_magic, task_version,
  is_zero, is_canonical_nonce, is_valid_mining_seed,
}
use xdna_npu_miner.Bpp9000.Roles.{is_member, claim_roles, all_below, all_valid_trits}
use xdna_npu_miner.Bpp9000.Contract.{checked_size_product, claim_all_roles, require_scorable_task}
use xdna_npu_miner.Bpp9000.Contract.Scorable.{IsScorable, require_scorable_task-IsScorable}
use xdna_npu_miner.Bpp9000.Lut.{
  Lut, make_lut, rows, minus_one, fill, fill_row, set_row, assign_row, at_row, at_neuron, lut_index,
}
use xdna_npu_miner.Bpp9000.Lut.Valid.{IsValidLut, entry_at, write_entry, write_entry-IsValidLut}
use xdna_npu_miner.Bpp9000.Score.{
  score_window, score_lut, score_windows, window_loop, prepare_round, feed_row, feed_input,
  window_result,
}
use xdna_npu_miner.Bpp9000.Score.Meaning.{
  CanScore, meaning, network_window, score_window_lem, CanScore-IsReady,
}
use xdna_npu_miner.Bpp9000.Score.Total.{IsVerdict, score_lut_lem, is_valid_score_lem}
use xdna_npu_miner.Bpp9000.Mutation.{
  MutationRecord, mutate_lut, rollback_mutation, mutate_once, rollback_all,
}
use xdna_npu_miner.Bpp9000.Mutation.Undo.{
  IsMutation, mutate_lut_lem, rollback-mutate, mutations_undo,
}
use xdna_npu_miner.Bpp9000.Network.{step}
use xdna_npu_miner.Bpp9000.State.{
  RecurrentState, make_state, reset_unknown, tick, validate_lut_storage, set_input, forget_input,
  set_all_inputs_unknown, tick_neuron, lookup_next,
}
use xdna_npu_miner.Bpp9000.State.Inputs.{blank, make_state_lem}
use xdna_npu_miner.Bpp9000.State.Tick.{IsStateFor, tick_lem}
use xdna_npu_miner.Bpp9000.State.Feed.{feed_row_lem}
use xdna_npu_miner.Bpp9000.Lut.{initialize_from_root_bytes}
use xdna_npu_miner.Bpp9000.Lut.Init.{draw, initialize_from_root_bytes_lem}
use xdna_npu_miner.Bpp9000.State.Inputs.{set_all_inputs_unknown_lem}
use xdna_npu_miner.Bpp9000.Network.{feed, forget}
use xdna_npu_miner.Bpp9000.Candidate.{
  CandidateRandomSource, CandidateMaterial, CandidateResult, MutationAttempt,
  make_candidate_material, score_candidate,
}
use xdna_npu_miner.Bpp9000.Candidate.Material.{Serves, make_candidate_material_lem}
use xdna_npu_miner.Bpp9000.Candidate.Descent.{score_candidate_lem}
use mathlib.Core.List.{reverse}
use xdna_npu_miner.Bpp9000.Lut.Build.{IsLutFor, make_lut_lem}

abbrev tiny : Task
tiny = record {
  header = record {
    magic = task_magic;
    version = task_version;
    shape = record {
      input_trits = 1;
      output_trits = 1;
      sequence_length = 4;
      population = 4;
      neighbors = 3;
    };
    topology_hash = [];
    data_hash = [];
  };
  topology = record {
    input_neurons = 0 ∷ [];
    output_neurons = 1 ∷ [];
    signal_neuron = 2;
    neighbors = 0 ∷ 1 ∷ 2 ∷ 0 ∷ 2 ∷ 3 ∷ 0 ∷ 1 ∷ 3 ∷ 1 ∷ 2 ∷ 0 ∷ [];
  };
  inputs = 0 ∷ 1 ∷ 0 ∷ 1 ∷ [];
  outputs = 1 ∷ 0 ∷ 1 ∷ 2 ∷ [];
  packed_topology = [];
  packed_data = [];
}

abbrev config : ReferenceConfig
config = record { window_width = 2; max_ticks = 5; mutation_steps = 1 }

tiny_accepted : require_scorable_task tiny config ≡ ok tt
unfolding require_scorable_task claim_all_roles claim_roles all_below all_valid_trits
tiny_accepted = refl

abbrev row_of_two : Bytes
row_of_two = replicate 27 2 ++ replicate 5 0

abbrev tiny_lut : Lut
tiny_lut = record {
  updated_neurons = 1 ∷ 2 ∷ 3 ∷ [];
  row_for_neuron = minus_one ∷ 0 ∷ 1 ∷ 2 ∷ [];
  storage = row_of_two ++ row_of_two ++ row_of_two;
}

make_lut-tiny : make_lut tiny ≡ ok tiny_lut
unfolding make_lut fill fill_row set_row assign_row for_range is_member checked_size_product put
make_lut-tiny = refl

make_lut_lem_example :
    (lut : Lut) × (make_lut tiny ≡ ok lut)
    × IsLutFor tiny lut
    × ((row entry : ℕ) → row < rows lut → entry < 27 → entry_at lut row entry ≡ 2)
make_lut_lem_example = make_lut_lem tiny (omega arith) (omega arith) refl

tiny_lut_for : IsLutFor tiny tiny_lut
tiny_lut_for =
    let (lut, run, for, _) = make_lut_lem tiny (omega arith) (omega arith) refl in
    let same : lut ≡ tiny_lut = cc (run, make_lut-tiny) in rw same at for

CanScore-tiny : CanScore tiny tiny_lut config
CanScore-tiny = record {
  accepted = tiny_accepted;
  small = omega arith;
  ticks_u32 = omega arith;
  lut_for = tiny_lut_for;
}

require_scorable_task-IsScorable_example : IsScorable tiny config
require_scorable_task-IsScorable_example =
    require_scorable_task-IsScorable tiny config (omega arith) tiny_accepted

score_window_lem_example :
    score_window tiny tiny_lut 1 config
    ≡ ok (meaning tiny 1 (network_window tiny tiny_lut config 1))
score_window_lem_example = score_window_lem tiny tiny_lut config 1 CanScore-tiny (omega arith)

score_lut_lem_example :
    (r : ScoreResult) × (score_lut tiny tiny_lut config ≡ ok r) × IsVerdict tiny tiny_lut config r
score_lut_lem_example = score_lut_lem tiny tiny_lut config CanScore-tiny

-- Every entry is unknown, so the signal asks for both rows and the output stays unknown: of the two
-- windows, the second has an unknown expected output.
abbrev tiny_score : ScoreResult
tiny_score = record { score = 1; status = settled; windows_evaluated = 2; ticks = 2 }

score_lut-tiny : score_lut tiny tiny_lut config ≡ ok tiny_score
unfolding score_lut score_windows score_window require_scorable_task claim_all_roles claim_roles
    all_below all_valid_trits is_member validate_lut_storage at_row make_state reset_unknown
    window_loop prepare_round feed_row feed_input set_input set_all_inputs_unknown forget_input tick
    tick_neuron lookup_next lut_index at_neuron window_result for_range get put
score_lut-tiny = refl

is_valid_score_lem_example : (is_valid_score tiny_score 2 ≡ true) ↔ (tiny_score.status ≡ settled)
is_valid_score_lem_example =
    is_valid_score_lem tiny tiny_lut config CanScore-tiny tiny_score (omega arith) score_lut-tiny

mutate_lut_lem_example :
    (done : MutationRecord) × (lut' : Lut) × (mutate_lut tiny_lut 7 ≡ ok (done, lut'))
    × IsMutation tiny_lut done lut'
    × IsValidLut lut'
mutate_lut_lem_example = mutate_lut_lem tiny_lut 7 tiny_lut_for.valid (omega arith)

mutations_undo_example :
    (mutations : List MutationRecord) × (s : Bytes) × (for_range 2 0
        (mutate_once (5 ∷ 7 ∷ 9 ∷ []) 1)
        ([], tiny_lut)
      ≡ ok (mutations, record tiny_lut { storage = s }))
    × IsValidLut (record tiny_lut { storage = s })
    × (length mutations ≡ 2)
    × (rollback_all (reverse mutations) (record tiny_lut { storage = s }) ≡ ok tiny_lut)
mutations_undo_example =
    mutations_undo tiny_lut (5 ∷ 7 ∷ 9 ∷ []) 1 2 tiny_lut_for.valid (omega arith) (omega arith)
      (omega arith)

-- The mutation of the first entry of the first row to False.
abbrev first_entry : MutationRecord
first_entry = record { row = 0; neuron = 1; entry = 0; old_value = 2; new_value = 0 }

first_entry-IsMutation : IsMutation tiny_lut first_entry (write_entry tiny_lut 0 0 0)
first_entry-IsMutation = record {
  row_in = omega arith;
  entry_in = omega arith;
  neuron = refl;
  old = refl;
  differs = omega arith;
  trit = omega arith;
  result = refl;
}

rollback-mutate_example : rollback_mutation (write_entry tiny_lut 0 0 0) first_entry ≡ ok tiny_lut
rollback-mutate_example =
    rollback-mutate tiny_lut (write_entry tiny_lut 0 0 0) first_entry tiny_lut_for.valid
      (write_entry-IsValidLut tiny_lut 0 0 0 tiny_lut_for.valid (omega arith) (omega arith)
        (omega arith))
      first_entry-IsMutation

make_state_lem_example :
    (s : RecurrentState) × (make_state tiny ≡ ok s)
    × (reset_unknown s ≡ s)
    × (s.current ≡ blank tiny)
    × IsStateFor tiny s
make_state_lem_example = make_state_lem tiny (omega arith, tt) (tt, tt)

abbrev tiny_state : RecurrentState
tiny_state = record {
  current = 1 ∷ 0 ∷ 2 ∷ 1 ∷ [];
  next = replicate 4 2;
  input_mask = true ∷ false ∷ false ∷ false ∷ [];
}

tiny_mask :
    (neuron : ℕ)
    → neuron < 4
    → get_or (true ∷ false ∷ false ∷ false ∷ []) neuron false ≡ is_member (0 ∷ []) neuron
unfolding is_member
tiny_mask zero h = refl
tiny_mask (suc zero) h = refl
tiny_mask (suc (suc zero)) h = refl
tiny_mask (suc (suc (suc n))) h = let e : n ≡ 0 = omega arith in rw e refl

tiny_state_for : IsStateFor tiny tiny_state
tiny_state_for = record {
  current_size = refl;
  next_size = refl;
  mask_size = refl;
  mask = tiny_mask;
  trits = (omega arith, (omega arith, (omega arith, (omega arith, tt))));
}

tick_lem_example :
    (tick tiny_state tiny tiny_lut
      ≡ ok (record tiny_state {
        current = step tiny tiny_lut tiny_state.current;
        next = tiny_state.current;
      }))
    × IsStateFor tiny (record tiny_state {
      current = step tiny tiny_lut tiny_state.current;
      next = tiny_state.current;
    })
tick_lem_example = tick_lem tiny tiny_lut (CanScore-IsReady CanScore-tiny) tiny_state tiny_state_for

-- A random source that leaves every span as it is.
abbrev echo : CandidateRandomSource
echo = record {
  fill_root_lut = λ seed key span. ok span;
  fill_mutation_words = λ seed key nonce span. ok span;
}

abbrev key : Bytes
key = replicate 32 0

abbrev seed : Bytes
seed = replicate 32 9

abbrev nonce : Bytes
nonce = 1 ∷ 3 ∷ replicate 30 0

echo-Serves : Serves echo seed key nonce
echo-Serves = record {
  serves_root = λ span small. (span, refl, refl);
  serves_words = λ span small. (span, refl, refl);
}

nonce_canonical : is_canonical_nonce nonce ≡ true
unfolding is_canonical_nonce
nonce_canonical = refl

seed_valid : is_valid_mining_seed seed ≡ true
unfolding is_valid_mining_seed is_zero
seed_valid = refl

make_candidate_material_lem_example :
    (m : CandidateMaterial) × (make_candidate_material tiny key seed nonce echo config ≡ ok m)
    × (4 * 27 ≤ length m.root_bytes)
    × (1 * 10 ≤ length m.mutation_words)
make_candidate_material_lem_example =
    make_candidate_material_lem tiny key seed nonce echo config tiny_accepted (omega arith)
      (omega arith) nonce_canonical seed_valid echo-Serves

score_candidate_lem_example :
    (r : CandidateResult) × (last : ScoreResult) × (score_candidate tiny key seed nonce echo config
      ≡ ok r)
    × (score_lut tiny r.best_lut config ≡ ok r.best)
    × (score_lut tiny r.current_lut config ≡ ok last)
    × (r.best.score ≤ last.score)
    × (last.score ≤ r.initial.score)
    × All (λ (a : MutationAttempt). r.best.score ≤ a.measured.score) r.attempts
    × (length r.attempts ≡ 1)
    × (r.score_calls ≡ (1 + 1) % 0x1_0000_0000)
score_candidate_lem_example =
    score_candidate_lem tiny config tiny_accepted (omega arith) (omega arith) (omega arith) key seed
      nonce echo nonce_canonical seed_valid echo-Serves

initialize_from_root_bytes_lem_example :
    (s : Bytes) × (initialize_from_root_bytes tiny_lut (replicate 128 5)
      ≡ ok (record tiny_lut { storage = s }))
    × IsLutFor tiny (record tiny_lut { storage = s })
    × ((row entry : ℕ)
        → row < rows tiny_lut
        → entry < 27
        → get_or s (row * 32 + entry) 0 ≡ draw tiny_lut (replicate 128 5) row entry)
initialize_from_root_bytes_lem_example =
    initialize_from_root_bytes_lem tiny tiny_lut (replicate 128 5) tiny_lut_for (omega arith)
      (omega arith)

set_all_inputs_unknown_lem_example :
    (set_all_inputs_unknown tiny_state
      ≡ ok (record tiny_state { current = forget tiny tiny_lut tiny_state.current }))
    × IsStateFor tiny (record tiny_state { current = forget tiny tiny_lut tiny_state.current })
set_all_inputs_unknown_lem_example =
    set_all_inputs_unknown_lem tiny tiny_lut tiny_state tiny_state_for

feed_row_lem_example :
    (feed_row tiny 1 tiny_state
      ≡ ok (record tiny_state { current = feed tiny tiny_lut 1 tiny_state.current }))
    × IsStateFor tiny (record tiny_state { current = feed tiny tiny_lut 1 tiny_state.current })
feed_row_lem_example =
    feed_row_lem tiny tiny_lut 1 (omega arith) (omega arith, tt) refl refl (omega arith)
      (omega arith, (omega arith, (omega arith, (omega arith, tt)))) tiny_state tiny_state_for
