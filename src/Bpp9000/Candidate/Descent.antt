-- ===== src/Bpp9000/Candidate/Descent.antt =====
-- `score_candidate`: a descent that ends with the best of all tables that it measured.
use xdna_npu_miner.Prelude.{
  ℕ, ◌+◌, ◌*◌, ◌%◌, ◌≤◌, ◌<◌, Bool, ◌≡◌, refl, inl, inr, true, false, List, [], ◌∷◌, ◌++◌, arith,
  length, get_or, length-append, ltb, leb, All, All-append, All-zip, ok, for_range, for_range_inv,
  Bool-cases, leb→le, ltb→lt, gt_of_leb, ge_of_ltb, ltb-false,
}
use xdna_npu_miner.Prelude.Words.{IsU32, mul64, add32}
use xdna_npu_miner.Bpp9000.Types.{
  Bytes, Task, ReferenceConfig, ScoreResult, is_canonical_nonce, is_valid_mining_seed,
}
use xdna_npu_miner.Bpp9000.Roles.{is_member-NotIn}
use xdna_npu_miner.Bpp9000.Contract.{require_scorable_task}
use xdna_npu_miner.Bpp9000.Contract.Scorable.{require_scorable_task-IsScorable}
use xdna_npu_miner.Bpp9000.Lut.{Lut, rows}
use xdna_npu_miner.Bpp9000.Lut.Valid.{IsValidLut}
use xdna_npu_miner.Bpp9000.Lut.Build.{IsLutFor, make_lut_lem}
use xdna_npu_miner.Bpp9000.Lut.Init.{initialize_from_root_bytes_lem}
use xdna_npu_miner.Bpp9000.Score.{score_lut}
use xdna_npu_miner.Bpp9000.Score.Meaning.{CanScore}
use xdna_npu_miner.Bpp9000.Score.Total.{score_lut_lem}
use xdna_npu_miner.Bpp9000.Mutation.{MutationRecord, mutate_once, rollback_all}
use xdna_npu_miner.Bpp9000.Mutation.Undo.{mutations_undo}
use xdna_npu_miner.Bpp9000.Candidate.{
  CandidateRandomSource, CandidateResult, MutationAttempt, Search, search_step, score_candidate,
}
use xdna_npu_miner.Bpp9000.Candidate.Material.{
  Serves, make_candidate_material_lem, require_work_lem, canonical_count,
}
use mathlib.Core.List.{reverse}

-- After `steps` rounds: both tables go with the task, their scores are what `score_lut` gives, and
-- no measured score is below the best one.
pub record IsDescent (task : Task) (config : ReferenceConfig) (initial : ScoreResult) (steps : ℕ)
    (s : Search) : Type 0 where
  pub current_for : IsLutFor task s.current
  pub best_for : IsLutFor task s.best_lut
  pub current_scored : score_lut task s.current config ≡ ok s.current_score
  pub best_scored : score_lut task s.best_lut config ≡ ok s.best
  pub best_le_current : s.best.score ≤ s.current_score.score
  pub current_le_initial : s.current_score.score ≤ initial.score
  pub best_least : All (λ (a : MutationAttempt). s.best.score ≤ a.measured.score) s.attempts
  pub attempts_count : length s.attempts ≡ steps
  pub calls : s.score_calls ≡ (steps + 1) % 0x1_0000_0000

with_storage-IsLutFor :
    (task : Task) (lut : Lut) (s : Bytes)
    → IsLutFor task lut
    → IsValidLut (record lut { storage = s })
    → IsLutFor task (record lut { storage = s })
with_storage-IsLutFor task lut s for valid = record { indexed = for.indexed; valid = valid }

module _ (task : Task) (config : ReferenceConfig)
    (accepted : require_scorable_task task config ≡ ok tt)
    (small : task.header.shape.population < 0x8000_0000) (ticks : IsU32 config.max_ticks)
    (steps : IsU32 config.mutation_steps) where
  can_score : (lut : Lut) → IsLutFor task lut → CanScore task lut config
  can_score lut for = record {
    accepted = accepted;
    small = small;
    ticks_u32 = ticks;
    lut_for = for;
  }

  -- The signal neuron has a row.
  rows-pos : (lut : Lut) → IsLutFor task lut → 0 < rows lut
  rows-pos lut for =
      let roles = (require_scorable_task-IsScorable task config (omega arith) accepted).roles in
      let row = for.indexed.row_of task.topology.signal_neuron roles.signal_in_range (
        is_member-NotIn task.topology.input_neurons task.topology.signal_neuron
          roles.signal_no_input) in
      omega (arith, row.0)

  -- The variables after a round that goes on from `now` and keeps `top`.
  after : Search → MutationAttempt → Lut → ScoreResult → ScoreResult → Lut → Search
  after s attempt now now_score top top_lut = record {
    current = now;
    current_score = now_score;
    best = top;
    best_lut = top_lut;
    score_calls = add32 s.score_calls 1;
    attempts = s.attempts ++ (attempt ∷ []);
  }

  after-IsDescent :
      (initial : ScoreResult) (step : ℕ) (s : Search) (attempt : MutationAttempt) (now : Lut)
      (now_score top : ScoreResult) (top_lut : Lut)
      → IsDescent task config initial step s
      → IsLutFor task now
      → IsLutFor task top_lut
      → score_lut task now config ≡ ok now_score
      → score_lut task top_lut config ≡ ok top
      → top.score ≤ now_score.score
      → now_score.score ≤ s.current_score.score
      → top.score ≤ s.best.score
      → top.score ≤ attempt.measured.score
      → IsDescent task config initial (step + 1) (after s attempt now now_score top top_lut)
  unfolding after
  after-IsDescent initial step s attempt now now_score top top_lut d now_for top_for scored
        top_scored a b c e =
      record {
        current_for = now_for;
        best_for = top_for;
        current_scored = scored;
        best_scored = top_scored;
        best_le_current = a;
        current_le_initial = omega (arith, b, d.current_le_initial);
        best_least =
            All-append (λ t. top.score ≤ t.measured.score) s.attempts (attempt ∷ [])
              (All-zip {P = λ t. s.best.score ≤ t.measured.score}
                {Q = λ t. s.best.score ≤ t.measured.score} s.attempts (λ t p _. omega (arith, p, c))
                d.best_least d.best_least)
              (e, tt);
        attempts_count = omega (arith, length-append s.attempts (attempt ∷ []), d.attempts_count);
        calls = omega (arith, d.calls);
      }

  -- One round, from what its mutations, its measurement and its rollback give.
  round_lem :
      (initial : ScoreResult) (count : ℕ) (words : List ℕ) (step : ℕ) (s : Search)
      (mutations : List MutationRecord) (changed : Lut) (measured : ScoreResult)
      → IsDescent task config initial step s
      → for_range count 0 (mutate_once words (step * 10)) ([], s.current) ≡ ok (mutations, changed)
      → mul64 step 10 ≡ step * 10
      → score_lut task changed config ≡ ok measured
      → rollback_all (reverse mutations) changed ≡ ok s.current
      → IsLutFor task changed
      → (s' : Search) × (search_step task config count words step s ≡ ok s')
        × IsDescent task config initial (step + 1) s'
  unfolding search_step after
  round_lem initial count words step s mutations changed measured d mutated base scored undone
        changed_for =
      let attempt : Bool → MutationAttempt =
        λ b. record { mutations = mutations; measured = measured; accepted = b } in
      let low = d.best_le_current in
      elim (Bool-cases (leb measured.score s.current_score.score)) [
        | inl taken ↦
            let le = leb→le measured.score s.current_score.score taken in
            elim (Bool-cases (ltb measured.score s.best.score)) [
              | inl better ↦ (
                after s (attempt true) changed measured measured changed,
                rw (base, mutated, scored, taken, better) refl,
                after-IsDescent initial step s (attempt true) changed measured measured changed d
                    changed_for changed_for scored scored (omega arith) le
                    (omega (arith, ltb→lt measured.score s.best.score better)) (omega arith),
              )
              | inr worse ↦
                  let ge = ge_of_ltb measured.score s.best.score worse in
                  (
                    after s (attempt true) changed measured s.best s.best_lut,
                    rw (base, mutated, scored, taken, worse) refl,
                    after-IsDescent initial step s (attempt true) changed measured s.best s.best_lut
                        d changed_for d.best_for scored d.best_scored ge le (omega arith) ge,
                  )
            ]
        | inr refused ↦
            let gt = gt_of_leb measured.score s.current_score.score refused in
            (
              after s (attempt false) s.current s.current_score s.best s.best_lut,
              rw
                  (
                    base,
                    mutated,
                    scored,
                    refused,
                    undone,
                    ltb-false s.current_score.score s.best.score low,
                  )
                  refl,
              after-IsDescent initial step s (attempt false) s.current s.current_score s.best
                  s.best_lut d d.current_for d.best_for d.current_scored d.best_scored low
                  (omega arith) (omega arith) (omega (arith, low, gt)),
            )
      ]

  search_step_lem :
      (initial : ScoreResult) (count : ℕ) (words : List ℕ) (step : ℕ) (s : Search)
      → count ≤ 10
      → config.mutation_steps * 10 ≤ length words
      → step < config.mutation_steps
      → IsDescent task config initial step s
      → (s' : Search) × (search_step task config count words step s ≡ ok s')
        × IsDescent task config initial (step + 1) s'
  search_step_lem initial count words step s few enough more d =
      let base : mul64 step 10 ≡ step * 10 = omega arith in
      let (mutations, storage, mutated, valid, _, undone) =
        mutations_undo s.current words (step * 10) count d.current_for.valid
          (rows-pos s.current d.current_for) (omega arith) (omega arith) in
      let changed : Lut = record s.current { storage = storage } in
      let changed_for = with_storage-IsLutFor task s.current storage d.current_for valid in
      let (measured, scored, _) =
        score_lut_lem task changed config (can_score changed changed_for) in
      round_lem initial count words step s mutations changed measured d mutated base scored undone
        changed_for

  -- For an accepted task of fewer than 2 ^ 31 neurons, 32-bit numbers of ticks and steps, a
  -- canonical nonce, a valid seed and a random source that fills the spans it is given,
  -- `score_candidate` succeeds. The best and the last table have the scores reported for them, the
  -- best is no worse than the last, the last no worse than the first, and no measured table is
  -- better than the best. It makes one attempt for each step, and counts one more score call,
  -- modulo 2 ^ 32.
  pub score_candidate_lem :
      (key seed nonce : Bytes) (source : CandidateRandomSource)
      → is_canonical_nonce nonce ≡ true
      → is_valid_mining_seed seed ≡ true
      → Serves source seed key nonce
      → (r : CandidateResult) × (last : ScoreResult) × (score_candidate task key seed nonce source
            config
          ≡ ok r)
        × (score_lut task r.best_lut config ≡ ok r.best)
        × (score_lut task r.current_lut config ≡ ok last)
        × (r.best.score ≤ last.score)
        × (last.score ≤ r.initial.score)
        × All (λ (a : MutationAttempt). r.best.score ≤ a.measured.score) r.attempts
        × (length r.attempts ≡ config.mutation_steps)
        × (r.score_calls ≡ (config.mutation_steps + 1) % 0x1_0000_0000)
  unfolding score_candidate
  score_candidate_lem key seed nonce source canonical valid_seed serves =
      let sound = require_scorable_task-IsScorable task config (omega arith) accepted in
      let (material, made, root_enough, words_enough) =
        make_candidate_material_lem task key seed nonce source config accepted (omega arith) steps
          canonical valid_seed serves in
      let (blank, built, blank_for, _) =
        make_lut_lem task (omega (arith, sound.roles.signal_in_range)) small sound.inputs_count in
      let (storage, filled, first_for, _) =
        initialize_from_root_bytes_lem task blank material.root_bytes blank_for small root_enough in
      let first : Lut = record blank { storage = storage } in
      let (initial, scored, _) = score_lut_lem task first config (can_score first first_for) in
      let start : Search = record {
        current = first;
        current_score = initial;
        best = initial;
        best_lut = first;
        score_calls = 1;
        attempts = [];
      } in
      let count = get_or nonce 1 0 in
      let words = material.mutation_words in
      let (s, run, d) =
        for_range_inv (IsDescent task config initial) (search_step task config count words)
          config.mutation_steps
          (λ i t p q.
            search_step_lem initial count words i t (canonical_count nonce canonical).1 words_enough
              p q)
          config.mutation_steps 0 start (omega arith)
          (record {
            current_for = first_for;
            best_for = first_for;
            current_scored = scored;
            best_scored = scored;
            best_le_current = omega arith;
            current_le_initial = omega arith;
            best_least = tt;
            attempts_count = refl;
            calls = refl;
          }) in
      (
        record {
          initial = initial;
          best = s.best;
          best_lut = s.best_lut;
          current_lut = s.current;
          score_calls = s.score_calls;
          attempts = s.attempts;
        },
        s.current_score,
        rw
            (
              accepted,
              require_work_lem seed nonce canonical valid_seed,
              made,
              built,
              filled,
              scored,
              run,
            )
            refl,
        d.best_scored,
        d.current_scored,
        d.best_le_current,
        d.current_le_initial,
        d.best_least,
        d.attempts_count,
        d.calls,
      )
