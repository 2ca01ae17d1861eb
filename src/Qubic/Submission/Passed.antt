-- ===== src/Qubic/Submission/Passed.antt =====
-- A submission is authorized where none of the guards rejects it.
use xdna_npu_miner.Prelude.{
  ◌≡◌, refl, Bool, true, false, not, ltb, ◌||◌, ◌==◌, arith, if◌then◌else◌,
}
use xdna_npu_miner.Bpp9000.Types.{
  bytes_eq, bytes_eq_iff, is_zero, is_valid_mining_seed, is_canonical_nonce, settled, timeout_score,
  timed_out, status_eq,
}
use xdna_npu_miner.Qubic.Work.{bpp9000, is_supported_algorithm, WorkContext, same_work_parameters}
use xdna_npu_miner.Qubic.Work.Equality.{identity_eq_iff}
use xdna_npu_miner.Qubic.Work.{identity_eq}
use xdna_npu_miner.Qubic.Submission.{
  SubmissionInput, SubmissionDecision, lacks_material, score_equal, SubmissionRejectReason, reject,
  authorize_submission,
}
use xdna_npu_miner.Qubic.Submission.Comparisons.{IsCurrent}

passes :
    (b : Bool) (r : SubmissionRejectReason) (k : SubmissionDecision)
    → (if b then reject r else k).authorized ≡ true
    → (b ≡ false) × (k.authorized ≡ true)
unfolding reject
passes true r k h = cc
passes false r k h = (refl, h)

-- None of the guards rejects.
abbrev pub Passed : SubmissionInput → WorkContext → Type 0
Passed input current =
    ((not (is_supported_algorithm input.candidate_algorithm)
        || not (input.candidate_algorithm == current.algorithm)
        || not (input.candidate_context.algorithm == input.candidate_algorithm))
      ≡ false)
    × ((not (identity_eq input.candidate_task current.task)
          || not (identity_eq input.candidate_context.task current.task))
        ≡ false)
    × ((not (same_work_parameters input.candidate_context current)
          || not (input.candidate_context.epoch == current.epoch)
          || not (bytes_eq input.candidate_context.mining_seed current.mining_seed)
          || not (input.candidate_context.solution_threshold == current.solution_threshold)
          || ltb current.tick input.candidate_context.tick)
        ≡ false)
    × ((not (is_valid_mining_seed input.candidate.mining_seed)
          || not (bytes_eq input.candidate.mining_seed current.mining_seed))
        ≡ false)
    × ((not (is_canonical_nonce input.candidate.nonce)) ≡ false)
    × ((not (score_equal input.evidence.cpu input.evidence.npu)) ≡ false)
    × ((timed_out input.evidence.cpu || input.evidence.cpu.score == timeout_score) ≡ false)
    × ((not (status_eq input.evidence.cpu.status settled)
          || not (input.evidence.cpu.windows_evaluated == current.number_of_windows)
          || not (input.evidence.cpu.score == input.candidate.score)
          || not (input.evidence.npu.score == input.candidate.score))
        ≡ false)
    × ((ltb current.number_of_windows input.candidate.score) ≡ false)
    × ((ltb current.solution_threshold input.candidate.score) ≡ false)
    × ((is_zero input.source_public_key) ≡ false)
    × ((is_zero input.destination_public_key) ≡ false)
    × ((lacks_material input.signing_material input.source_public_key) ≡ false)

pub authorized-Passed :
    (input : SubmissionInput) (current : WorkContext)
    → (authorize_submission input current).authorized ≡ true
    → Passed input current
unfolding authorize_submission
authorized-Passed input current h =
    let (g1, k1) = passes _ _ _ h in
    let (g2, k2) = passes _ _ _ k1 in
    let (g3, k3) = passes _ _ _ k2 in
    let (g4, k4) = passes _ _ _ k3 in
    let (g5, k5) = passes _ _ _ k4 in
    let (g6, k6) = passes _ _ _ k5 in
    let (g7, k7) = passes _ _ _ k6 in
    let (g8, k8) = passes _ _ _ k7 in
    let (g9, k9) = passes _ _ _ k8 in
    let (g10, k10) = passes _ _ _ k9 in
    let (g11, k11) = passes _ _ _ k10 in
    let (g12, k12) = passes _ _ _ k11 in
    let (g13, k13) = passes _ _ _ k12 in (g1, g2, g3, g4, g5, g6, g7, g8, g9, g10, g11, g12, g13)

pub Passed-authorized :
    (input : SubmissionInput) (current : WorkContext)
    → Passed input current
    → (authorize_submission input current).authorized ≡ true
unfolding authorize_submission
Passed-authorized input current (g1, g2, g3, g4, g5, g6, g7, g8, g9, g10, g11, g12, g13) =
    rw (g1, g2, g3, g4, g5, g6, g7, g8, g9, g10, g11, g12, g13) refl

-- The three guards on the work of the candidate.
pub work_lem :
    (input : SubmissionInput) (current : WorkContext)
    → ((not (is_supported_algorithm input.candidate_algorithm)
          || not (input.candidate_algorithm == current.algorithm)
          || not (input.candidate_context.algorithm == input.candidate_algorithm))
        ≡ false)
    → ((not (identity_eq input.candidate_task current.task)
          || not (identity_eq input.candidate_context.task current.task))
        ≡ false)
    → ((not (same_work_parameters input.candidate_context current)
          || not (input.candidate_context.epoch == current.epoch)
          || not (bytes_eq input.candidate_context.mining_seed current.mining_seed)
          || not (input.candidate_context.solution_threshold == current.solution_threshold)
          || ltb current.tick input.candidate_context.tick)
        ≡ false)
    → (input.candidate_algorithm ≡ bpp9000)
      × (current.algorithm ≡ bpp9000)
      × (input.candidate_task ≡ current.task)
      × IsCurrent input.candidate_context current
unfolding is_supported_algorithm same_work_parameters
work_lem input current g1 g2 g3 = (
  ground (arith, g1),
  ground (arith, g1),
  ground (arith, g2, identity_eq_iff input.candidate_task current.task),
  (
    ground (
      arith,
      g3,
      identity_eq_iff input.candidate_context.task current.task,
      bytes_eq_iff input.candidate_context.mining_seed current.mining_seed,
    ),
    ground (arith, g3),
  ),
)
