-- ===== src/Qubic/Submission/Authorized.antt =====
-- The exact conditions of an authorized submission.
use xdna_npu_miner.Prelude.{◌≤◌, ◌≡◌, ◌≢◌, ◌↔◌, ap, true, false, arith, some}
use xdna_npu_miner.Bpp9000.Types.{
  bytes_eq_iff, is_zero, is_valid_mining_seed, is_canonical_nonce, settled, timeout_score,
}
use xdna_npu_miner.Qubic.Work.{
  bpp9000, is_supported_algorithm, WorkContext, same_work_parameters, is_fresh,
}
use xdna_npu_miner.Qubic.Work.Equality.{identity_eq_iff}
use xdna_npu_miner.Qubic.Submission.{SubmissionInput, SigningMaterial, authorize_submission}
use xdna_npu_miner.Qubic.Submission.Comparisons.{
  IsCurrent, is_fresh_iff, status_eq_iff, score_equal_iff, has_material_iff,
}
use xdna_npu_miner.Qubic.Submission.Passed.{authorized-Passed, Passed-authorized, work_lem}

-- Everything that an authorized submission has to be.
abbrev pub IsAuthorized : SubmissionInput → WorkContext → Type 0
IsAuthorized input current =
    (input.candidate_algorithm ≡ bpp9000)
    × (current.algorithm ≡ bpp9000)
    × (input.candidate_task ≡ current.task)
    × IsCurrent input.candidate_context current
    × (is_valid_mining_seed input.candidate.mining_seed ≡ true)
    × (input.candidate.mining_seed ≡ current.mining_seed)
    × (is_canonical_nonce input.candidate.nonce ≡ true)
    × (input.evidence.cpu ≡ input.evidence.npu)
    × (input.evidence.cpu.status ≡ settled)
    × (input.evidence.cpu.windows_evaluated ≡ current.number_of_windows)
    × (input.evidence.cpu.score ≡ input.candidate.score)
    × (input.candidate.score ≢ timeout_score)
    × (input.candidate.score ≤ current.number_of_windows)
    × (input.candidate.score ≤ current.solution_threshold)
    × (is_zero input.source_public_key ≡ false)
    × (is_zero input.destination_public_key ≡ false)
    × ((m : SigningMaterial) × (input.signing_material ≡ some m)
        × (m.public_key ≡ input.source_public_key))

authorized-IsAuthorized :
    (input : SubmissionInput) (current : WorkContext)
    → (authorize_submission input current).authorized ≡ true
    → IsAuthorized input current
authorized-IsAuthorized input current h =
    let (g1, g2, g3, g4, g5, g6, g7, g8, g9, g10, g11, g12, g13) =
      authorized-Passed input current h in
    let (algorithm, same, task, work) = work_lem input current g1 g2 g3 in
    let evidence = score_equal_iff input.evidence.cpu input.evidence.npu in
    let status = status_eq_iff input.evidence.cpu.status settled in
    (
      algorithm,
      same,
      task,
      work,
      ground (arith, g4),
      ground (arith, g4, bytes_eq_iff input.candidate.mining_seed current.mining_seed),
      ground (arith, g5),
      ground (arith, g6, evidence),
      ground (arith, g8, status),
      ground (arith, g8),
      ground (arith, g8),
      ground (arith, g7, g8),
      ground (arith, g9),
      ground (arith, g10),
      g11,
      g12,
      (has_material_iff input.signing_material input.source_public_key).0 g13,
    )

IsAuthorized-authorized :
    (input : SubmissionInput) (current : WorkContext)
    → IsAuthorized input current
    → (authorize_submission input current).authorized ≡ true
unfolding is_supported_algorithm same_work_parameters
IsAuthorized-authorized input current
      (
        algorithm,
        same,
        task,
        (work, tick),
        valid,
        seed,
        nonce,
        evidence,
        status,
        windows,
        score,
        finite,
        range,
        threshold,
        source,
        destination,
        material,
      ) =
    let epoch : input.candidate_context.epoch ≡ current.epoch = ap (λ c. c.epoch) work in
    Passed-authorized input current (
      ground (arith, algorithm, same, ap (λ c. c.algorithm) work),
      ground (
        arith,
        task,
        ap (λ c. c.task) work,
        identity_eq_iff input.candidate_task current.task,
        identity_eq_iff input.candidate_context.task current.task,
      ),
      ground (
        arith,
        tick,
        epoch,
        ap (λ c. c.task) work,
        ap (λ c. c.algorithm) work,
        ap (λ c. c.mining_seed) work,
        ap (λ c. c.solution_threshold) work,
        ap (λ c. c.window_width) work,
        ap (λ c. c.max_ticks) work,
        ap (λ c. c.number_of_windows) work,
        identity_eq_iff input.candidate_context.task current.task,
        bytes_eq_iff input.candidate_context.mining_seed current.mining_seed,
      ),
      ground (arith, valid, seed, bytes_eq_iff input.candidate.mining_seed current.mining_seed),
      ground (arith, nonce),
      ground (arith, evidence, (score_equal_iff input.evidence.cpu input.evidence.npu).1 evidence),
      ground (arith, finite, score, status),
      ground (arith, status, windows, score, ap (λ r. r.score) evidence),
      ground (arith, range),
      ground (arith, threshold),
      source,
      destination,
      (has_material_iff input.signing_material input.source_public_key).1 material,
    )

-- A submission is authorized exactly when it names the supported algorithm and the current task,
-- its work is the current one from no later tick, its seed is the current one and not zero, its
-- nonce is canonical, both scorers agree on a settled score of all windows that is the claimed one,
-- within the range and the threshold, neither key is zero, and the signing material is that of the
-- source.
pub authorize_submission_iff :
    (input : SubmissionInput) (current : WorkContext)
    → ((authorize_submission input current).authorized ≡ true) ↔ IsAuthorized input current
authorize_submission_iff input current =
    (authorized-IsAuthorized input current, IsAuthorized-authorized input current)

-- What is authorized against the context that a tracker holds is fresh for that tracker.
pub authorized-fresh :
    (input : SubmissionInput) (current : WorkContext)
    → (authorize_submission input current).authorized ≡ true
    → is_fresh (some current) input.candidate_context ≡ true
authorized-fresh input current h =
    let (_, _, _, work, _, _, _, _, _, _, _, _, _, _, _, _, _) =
      authorized-IsAuthorized input current h in
    (is_fresh_iff input.candidate_context current).1 work
