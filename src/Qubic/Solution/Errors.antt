-- ===== src/Qubic/Solution/Errors.antt =====
-- Why no solution is built.
use xdna_npu_miner.Prelude.{
  ◌≤◌, ◌≡◌, ◌≢◌, refl, some, true, false, err, Bool-cases, inl, inr, ◌⊎◌, arith,
}
use xdna_npu_miner.Bpp9000.Types.{
  is_zero, is_valid_mining_seed, is_canonical_nonce, settled, timeout_score, timed_out,
}
use xdna_npu_miner.Qubic.Types.{
  ProtocolErrorCode, protocol_error, invalid_task, score_mismatch, invalid_score,
}
use xdna_npu_miner.Qubic.Types as Types
use xdna_npu_miner.Qubic.Work.{bpp9000}
use xdna_npu_miner.Qubic.Submission.{
  SubmissionInput, SubmissionRejectReason, SigningMaterial, authorize_submission, no_reason,
  unsupported_algorithm, task_mismatch, context_mismatch, stale_context, invalid_seed,
  invalid_nonce, cpu_npu_mismatch, timeout, bad_score, threshold_exceeded, missing_source,
  missing_destination, missing_signing_material, crypto_unavailable, invalid_gamma_nonce,
  live_submission_disabled,
}
use xdna_npu_miner.Qubic.Submission.Authorized.{IsAuthorized, authorize_submission_iff}
use xdna_npu_miner.Qubic.Submission.Refused.{IsRefused, authorize_submission-IsExplained}
use xdna_npu_miner.Qubic.Solution.{CryptoProvider, rejection_code, build_solution}

-- What is wrong with a submission, judged against its own context, whose solution is refused with a
-- code. No other code refuses one.
abbrev pub Blames : SubmissionInput → ProtocolErrorCode → Type 0
Blames input Types.unsupported_algorithm =
    ¬ ((input.candidate_algorithm ≡ bpp9000) × (input.candidate_context.algorithm ≡ bpp9000))
Blames input invalid_task =
    (input.candidate_task ≢ input.candidate_context.task)
    ⊎ ((is_zero input.source_public_key ≡ true) ⊎ (is_zero input.destination_public_key ≡ true))
Blames input Types.invalid_seed = ¬ (
    (is_valid_mining_seed input.candidate.mining_seed ≡ true)
    × (input.candidate.mining_seed ≡ input.candidate_context.mining_seed))
Blames input Types.invalid_nonce = is_canonical_nonce input.candidate.nonce ≡ false
Blames input score_mismatch = input.evidence.cpu ≢ input.evidence.npu
Blames input invalid_score = ¬ (
    (timed_out input.evidence.cpu ≡ false)
    × (input.evidence.cpu.score ≢ timeout_score)
    × (input.evidence.cpu.status ≡ settled)
    × (input.evidence.cpu.windows_evaluated ≡ input.candidate_context.number_of_windows)
    × (input.evidence.cpu.score ≡ input.candidate.score)
    × (input.evidence.npu.score ≡ input.candidate.score)
    × (input.candidate.score ≤ input.candidate_context.number_of_windows)
    × (input.candidate.score ≤ input.candidate_context.solution_threshold))
Blames input Types.missing_signing_material = ¬ (
    (m : SigningMaterial) × (input.signing_material ≡ some m)
    × (m.public_key ≡ input.source_public_key))
Blames input _ = ⊥

-- The code that is thrown for a reason blames what the reason is about.
code_lem :
    (input : SubmissionInput) (why : SubmissionRejectReason)
    → IsRefused input input.candidate_context why
    → Blames input (rejection_code why)
unfolding rejection_code
code_lem input unsupported_algorithm wrong = λ (a, b). wrong (a, b, b)
code_lem input task_mismatch wrong = inl (λ same. wrong (same, refl))
code_lem input context_mismatch wrong = absurd (wrong (refl, omega arith))
code_lem input invalid_seed wrong = wrong
code_lem input invalid_nonce wrong = wrong
code_lem input cpu_npu_mismatch wrong = wrong
code_lem input timeout (inl late) = λ (early, _, _, _, _, _, _, _). cc
code_lem input timeout (inr score) = λ (_, other, _, _, _, _, _, _). other score
code_lem input bad_score wrong = λ (_, _, a, b, c, d, e, _). wrong (a, b, c, d, e)
code_lem input threshold_exceeded wrong =
    λ (_, _, _, _, _, _, _, small). omega (arith, wrong, small)
code_lem input missing_source wrong = inr (inl wrong)
code_lem input missing_destination wrong = inr (inr wrong)
code_lem input missing_signing_material wrong = wrong
code_lem input no_reason wrong = absurd wrong
code_lem input stale_context wrong = absurd wrong
code_lem input crypto_unavailable wrong = absurd wrong
code_lem input invalid_gamma_nonce wrong = absurd wrong
code_lem input live_submission_disabled wrong = absurd wrong

-- For a submission that is not authorized against its own context no solution is built, whatever
-- the cryptography is, and the code that is thrown blames something that is wrong: the algorithm,
-- the task or a zero key, the seed, the nonce, the evidence of the two scorers, the score, or the
-- signing material.
pub build_solution_refused :
    (input : SubmissionInput) (crypto : CryptoProvider)
    → ¬ IsAuthorized input input.candidate_context
    → (code : ProtocolErrorCode) × (build_solution input crypto ≡ err (protocol_error code))
      × Blames input code
unfolding build_solution
build_solution_refused input crypto wrong =
    elim (Bool-cases (authorize_submission input input.candidate_context).authorized) [
      | inl granted ↦
          absurd (wrong ((authorize_submission_iff input input.candidate_context).0 granted))
      | inr refused ↦ (
        rejection_code (authorize_submission input input.candidate_context).reason,
        rw refused refl,
        code_lem input _ (authorize_submission-IsExplained input input.candidate_context refused),
      )
    ]
