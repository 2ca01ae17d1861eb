-- ===== src/Qubic/Submission.antt =====
-- src/qubic/direct_node.cpp and direct_node.hpp: what a submission is checked for.
pub mod Comparisons
pub mod Passed
pub mod Authorized
pub mod Refused
use xdna_npu_miner.Prelude.{
  ℕ, Bool, true, false, not, ◌&&◌, ◌||◌, ltb, ◌==◌, Option, none, some, if◌then◌else◌,
}
use xdna_npu_miner.Bpp9000.Types.{
  Bytes, bytes_eq, is_zero, is_valid_mining_seed, is_canonical_nonce, ScoreResult, settled,
  status_eq, timed_out, timeout_score,
}
use xdna_npu_miner.Qubic.Work.{
  Algorithm, is_supported_algorithm, TaskIdentity, identity_eq, WorkContext, same_work_parameters,
}

-- The secret's bytes; that its memory is cleared is left out.
pub record SigningMaterial : Type 0 where
  pub public_key : Bytes
  pub secret : Bytes

pub record CandidateSolution : Type 0 where
  pub mining_seed : Bytes
  pub nonce : Bytes
  pub score : ℕ

pub record ScoreEvidence : Type 0 where
  pub cpu : ScoreResult
  pub npu : ScoreResult

-- A null pointer is `none`.
pub record SubmissionInput : Type 0 where
  pub candidate_context : WorkContext
  pub candidate_task : TaskIdentity
  pub candidate_algorithm : Algorithm
  pub source_public_key : Bytes
  pub destination_public_key : Bytes
  pub candidate : CandidateSolution
  pub evidence : ScoreEvidence
  pub signing_material : Option SigningMaterial
  pub gamming_nonce : Bytes

pub data SubmissionRejectReason : Type 0 where
  no_reason unsupported_algorithm task_mismatch context_mismatch : SubmissionRejectReason
  stale_context invalid_seed invalid_nonce cpu_npu_mismatch timeout : SubmissionRejectReason
  bad_score threshold_exceeded missing_source missing_destination : SubmissionRejectReason
  missing_signing_material crypto_unavailable invalid_gamma_nonce : SubmissionRejectReason
  live_submission_disabled : SubmissionRejectReason

pub record SubmissionDecision : Type 0 where
  pub authorized : Bool
  pub reason : SubmissionRejectReason

unfoldable pub reject : SubmissionRejectReason → SubmissionDecision
reject reason = record { authorized = false; reason = reason }

unfoldable pub score_equal : ScoreResult → ScoreResult → Bool
score_equal left right =
    left.score == right.score
    && status_eq left.status right.status
    && left.windows_evaluated == right.windows_evaluated
    && left.ticks == right.ticks

-- `signing_material == nullptr || signing_material->public_key != source`.
unfoldable pub lacks_material : Option SigningMaterial → Bytes → Bool
lacks_material none source = true
lacks_material (some material) source = not (bytes_eq material.public_key source)

unfoldable pub authorize_submission : SubmissionInput → WorkContext → SubmissionDecision
authorize_submission input current =
    if not (is_supported_algorithm input.candidate_algorithm)
      || not (input.candidate_algorithm == current.algorithm)
      || not (input.candidate_context.algorithm == input.candidate_algorithm)
    then reject unsupported_algorithm
    else (if not (identity_eq input.candidate_task current.task)
          || not (identity_eq input.candidate_context.task current.task)
        then reject task_mismatch
        else (if not (same_work_parameters input.candidate_context current)
              || not (input.candidate_context.epoch == current.epoch)
              || not (bytes_eq input.candidate_context.mining_seed current.mining_seed)
              || not (input.candidate_context.solution_threshold == current.solution_threshold)
              || ltb current.tick input.candidate_context.tick
            then reject context_mismatch
            else (if not (is_valid_mining_seed input.candidate.mining_seed)
                  || not (bytes_eq input.candidate.mining_seed current.mining_seed)
                then reject invalid_seed
                else (if not (is_canonical_nonce input.candidate.nonce)
                    then reject invalid_nonce
                    else (if not (score_equal input.evidence.cpu input.evidence.npu)
                        then reject cpu_npu_mismatch
                        else (if timed_out input.evidence.cpu
                              || input.evidence.cpu.score == timeout_score
                            then reject timeout
                            else (if not (status_eq input.evidence.cpu.status settled)
                                  || not (
                                      input.evidence.cpu.windows_evaluated
                                      == current.number_of_windows)
                                  || not (input.evidence.cpu.score == input.candidate.score)
                                  || not (input.evidence.npu.score == input.candidate.score)
                                then reject bad_score
                                else (if ltb current.number_of_windows input.candidate.score
                                    then reject bad_score
                                    else (if ltb current.solution_threshold input.candidate.score
                                        then reject threshold_exceeded
                                        else (if is_zero input.source_public_key
                                            then reject missing_source
                                            else (if is_zero input.destination_public_key
                                                then reject missing_destination
                                                else (if lacks_material input.signing_material
                                                      input.source_public_key
                                                    then reject missing_signing_material
                                                    else record {
                                                      authorized = true;
                                                      reason = no_reason;
                                                    }))))))))))))
