-- ===== src/Qubic/Submission/Refused.antt =====
-- Why a submission is not authorized.
use xdna_npu_miner.Prelude.{
  ◌≤◌, ◌<◌, ◌≡◌, ◌≢◌, refl, ap, some, Bool, true, false, not, ltb, ◌||◌, ◌==◌, arith, inl, inr, ◌⊎◌,
  Bool-cases, if◌then◌else◌,
}
use xdna_npu_miner.Bpp9000.Types.{
  bytes_eq, bytes_eq_iff, is_zero, is_valid_mining_seed, is_canonical_nonce, settled, timeout_score,
  timed_out, status_eq,
}
use xdna_npu_miner.Qubic.Work.{
  bpp9000, is_supported_algorithm, WorkContext, same_work_parameters, identity_eq,
}
use xdna_npu_miner.Qubic.Work.Equality.{identity_eq_iff}
use xdna_npu_miner.Qubic.Submission.{
  SubmissionInput, SubmissionDecision, SigningMaterial, lacks_material, SubmissionRejectReason,
  reject, authorize_submission, unsupported_algorithm, task_mismatch, context_mismatch,
  invalid_seed, invalid_nonce, cpu_npu_mismatch, timeout, bad_score, threshold_exceeded,
  missing_source, missing_destination, missing_signing_material,
}
use xdna_npu_miner.Qubic.Submission.Comparisons.{
  IsCurrent, has_material_iff, score_equal_iff, status_eq_iff,
}

-- What is wrong with a submission that is rejected for a reason. No other reason is given.
abbrev pub IsRefused : SubmissionInput → WorkContext → SubmissionRejectReason → Type 0
IsRefused input current unsupported_algorithm = ¬ (
    (input.candidate_algorithm ≡ bpp9000)
    × (current.algorithm ≡ bpp9000)
    × (input.candidate_context.algorithm ≡ bpp9000))
IsRefused input current task_mismatch =
    ¬ ((input.candidate_task ≡ current.task) × (input.candidate_context.task ≡ current.task))
IsRefused input current context_mismatch = ¬ IsCurrent input.candidate_context current
IsRefused input current invalid_seed = ¬ (
    (is_valid_mining_seed input.candidate.mining_seed ≡ true)
    × (input.candidate.mining_seed ≡ current.mining_seed))
IsRefused input current invalid_nonce = is_canonical_nonce input.candidate.nonce ≡ false
IsRefused input current cpu_npu_mismatch = input.evidence.cpu ≢ input.evidence.npu
IsRefused input current timeout =
    (timed_out input.evidence.cpu ≡ true) ⊎ (input.evidence.cpu.score ≡ timeout_score)
IsRefused input current bad_score = ¬ (
    (input.evidence.cpu.status ≡ settled)
    × (input.evidence.cpu.windows_evaluated ≡ current.number_of_windows)
    × (input.evidence.cpu.score ≡ input.candidate.score)
    × (input.evidence.npu.score ≡ input.candidate.score)
    × (input.candidate.score ≤ current.number_of_windows))
IsRefused input current threshold_exceeded = current.solution_threshold < input.candidate.score
IsRefused input current missing_source = is_zero input.source_public_key ≡ true
IsRefused input current missing_destination = is_zero input.destination_public_key ≡ true
IsRefused input current missing_signing_material = ¬ (
    (m : SigningMaterial) × (input.signing_material ≡ some m)
    × (m.public_key ≡ input.source_public_key))
IsRefused input current _ = ⊥

module _ (input : SubmissionInput) (current : WorkContext) where
  -- A decision that rejects does so for something that is wrong.
  abbrev IsExplained : SubmissionDecision → Type 0
  IsExplained decision = decision.authorized ≡ false → IsRefused input current decision.reason

  -- One guard.
  guard :
      (c : Bool) (why : SubmissionRejectReason) (rest : SubmissionDecision)
      → (c ≡ true → IsRefused input current why)
      → IsExplained rest
      → IsExplained (if c then reject why else rest)
  unfolding reject
  guard true why rest wrong later h = wrong refl
  guard false why rest wrong later h = later h

  algorithm_lem :
      (not (is_supported_algorithm input.candidate_algorithm)
          || not (input.candidate_algorithm == current.algorithm)
          || not (input.candidate_context.algorithm == input.candidate_algorithm))
        ≡ true
      → IsRefused input current unsupported_algorithm
  unfolding is_supported_algorithm
  algorithm_lem g (a, b, c) = ground (arith, g, a, b, c)

  task_lem :
      (not (identity_eq input.candidate_task current.task)
          || not (identity_eq input.candidate_context.task current.task))
        ≡ true
      → IsRefused input current task_mismatch
  task_lem g (a, b) = ground (
    arith,
    g,
    a,
    b,
    identity_eq_iff input.candidate_task current.task,
    identity_eq_iff input.candidate_context.task current.task,
  )

  context_lem :
      (not (same_work_parameters input.candidate_context current)
          || not (input.candidate_context.epoch == current.epoch)
          || not (bytes_eq input.candidate_context.mining_seed current.mining_seed)
          || not (input.candidate_context.solution_threshold == current.solution_threshold)
          || ltb current.tick input.candidate_context.tick)
        ≡ true
      → IsRefused input current context_mismatch
  unfolding same_work_parameters
  context_lem g (work, tick) = ground (
    arith,
    g,
    tick,
    ap (λ c. c.epoch) work,
    ap (λ c. c.task) work,
    ap (λ c. c.algorithm) work,
    ap (λ c. c.mining_seed) work,
    ap (λ c. c.solution_threshold) work,
    ap (λ c. c.window_width) work,
    ap (λ c. c.max_ticks) work,
    ap (λ c. c.number_of_windows) work,
    identity_eq_iff input.candidate_context.task current.task,
    bytes_eq_iff input.candidate_context.mining_seed current.mining_seed,
  )

  seed_lem :
      (not (is_valid_mining_seed input.candidate.mining_seed)
          || not (bytes_eq input.candidate.mining_seed current.mining_seed))
        ≡ true
      → IsRefused input current invalid_seed
  seed_lem g (a, b) =
      ground (arith, g, a, b, bytes_eq_iff input.candidate.mining_seed current.mining_seed)

  timeout_lem :
      (timed_out input.evidence.cpu || input.evidence.cpu.score == timeout_score) ≡ true
      → IsRefused input current timeout
  timeout_lem g = elim (Bool-cases (timed_out input.evidence.cpu)) [
    | inl late ↦ inl late
    | inr early ↦ inr (ground (arith, g, early))
  ]

  score_lem :
      (not (status_eq input.evidence.cpu.status settled)
          || not (input.evidence.cpu.windows_evaluated == current.number_of_windows)
          || not (input.evidence.cpu.score == input.candidate.score)
          || not (input.evidence.npu.score == input.candidate.score))
        ≡ true
      → IsRefused input current bad_score
  score_lem g (a, b, c, d, _) =
      ground (arith, g, a, b, c, d, status_eq_iff input.evidence.cpu.status settled)

  material_lem :
      lacks_material input.signing_material input.source_public_key ≡ true
      → IsRefused input current missing_signing_material
  material_lem g given =
      let held = (has_material_iff input.signing_material input.source_public_key).1 given in cc

  -- A submission that is not authorized is rejected for something that is wrong with it.
  pub authorize_submission-IsExplained : IsExplained (authorize_submission input current)
  unfolding authorize_submission
  authorize_submission-IsExplained =
      let evidence = score_equal_iff input.evidence.cpu input.evidence.npu in
      guard _ unsupported_algorithm _ algorithm_lem (
        guard _ task_mismatch _ task_lem (
          guard _ context_mismatch _ context_lem (
            guard _ invalid_seed _ seed_lem (
              guard _ invalid_nonce _ (λ g. ground (arith, g))
                (guard _ cpu_npu_mismatch _ (λ g same. ground (arith, g, same, evidence))
                  (guard _ timeout _ timeout_lem (
                    guard _ bad_score _ score_lem (
                      guard _ bad_score _ (λ g (_, _, _, _, small). ground (arith, g, small))
                        (guard _ threshold_exceeded _ (λ g. ground (arith, g))
                          (guard _ missing_source _ (λ g. g)
                            (guard _ missing_destination _ (λ g. g)
                              (guard _ missing_signing_material _ material_lem (λ h. cc)))))))))))))
