-- ===== src/Qubic/Tests/Solutions.antt =====
-- A solution that is built with a provider of concrete functions.
use xdna_npu_miner.Prelude.{
  ℕ, ◌≡◌, refl, [], length, replicate, length-replicate, some, Outcome, ok, err, get, put,
  for_range,
}
use xdna_npu_miner.Bpp9000.Types.{
  Bytes, bytes_eq, is_zero, is_valid_mining_seed, is_canonical_nonce, shape_eq, production_shape,
}
use xdna_npu_miner.Qubic.Types.{Thrown, protocol_error, ProtocolErrorCode}
use xdna_npu_miner.Qubic.Wire.{write_u32, copy_into, append_bytes}
use xdna_npu_miner.Qubic.Frame.{serialize_frame, parse_frame}
use xdna_npu_miner.Qubic.Work.{is_supported_algorithm, identity_eq, same_work_parameters}
use xdna_npu_miner.Qubic.Submission.{
  SubmissionInput, authorize_submission, score_equal, lacks_material,
}
use xdna_npu_miner.Qubic.Submission.Authorized.{IsAuthorized}
use xdna_npu_miner.Qubic.Solution.{
  CryptoProvider, DirectNodeSolution, available, material_of, encrypt_bytes, encrypt_score, encrypt,
  shared_key_of, gamming_key_of, body_of, sign_solution, build_solution,
}
use xdna_npu_miner.Qubic.Solution.Cipher.{plain, xor_bytes}
use xdna_npu_miner.Qubic.Solution.Built.{FillsSpans, HasSizes, message_of, build_solution_lem}
use xdna_npu_miner.Qubic.Solution.Errors.{Blames, build_solution_refused}
use xdna_npu_miner.Qubic.Tests.{work, submission}

-- A provider that fills every span with zeros, and a signature with threes.
abbrev pub plain_crypto : CryptoProvider
plain_crypto = record {
  hash = λ input size. some (replicate size 0);
  sign = λ material digest size. some (replicate size 3);
  derive_shared_key = λ material peer size. some (replicate size 0);
}

pub plain_crypto-FillsSpans : FillsSpans plain_crypto
plain_crypto-FillsSpans = (
  λ input size output e. rw (← some-inj e) (length-replicate {A = ℕ} size 0),
  λ material digest size output e. rw (← some-inj e) (length-replicate {A = ℕ} size 3),
)
  where
    some-inj : {a b : Bytes} → some a ≡ some b → a ≡ b
    some-inj e = cc

pub submission-HasSizes : HasSizes submission
submission-HasSizes = (refl, refl, refl, refl, refl)

abbrev empty_solution : DirectNodeSolution
empty_solution = record {
  source_public_key = [];
  destination_public_key = [];
  gamming_nonce = [];
  candidate = submission.candidate;
  encrypted_payload = [];
  signature = [];
  frame = [];
}

abbrev solution_or : Outcome Thrown DirectNodeSolution → DirectNodeSolution
solution_or outcome = elim outcome [ ok s ↦ s | _ ↦ empty_solution ]

abbrev pub solution : DirectNodeSolution
solution = solution_or (build_solution submission plain_crypto)

pub solution-built : build_solution submission plain_crypto ≡ ok solution
unfolding build_solution sign_solution body_of gamming_key_of shared_key_of encrypt encrypt_score
    encrypt_bytes material_of available authorize_submission lacks_material score_equal
    same_work_parameters identity_eq is_supported_algorithm serialize_frame append_bytes copy_into
    write_u32 bytes_eq is_zero is_valid_mining_seed is_canonical_nonce shape_eq production_shape
    for_range get put
solution-built = refl

build_solution_lem_example :
    IsAuthorized submission work
    × ((key : Bytes) × (gamma : Bytes) × (gamming_key_of submission plain_crypto ≡ ok key)
        × (plain_crypto.hash key 68 ≡ some gamma)
        × (xor_bytes solution.encrypted_payload gamma ≡ plain submission.candidate))
    × (parse_frame solution.frame ≡ ok (message_of solution))
    × (length (message_of solution).payload ≡ 228)
build_solution_lem_example =
    build_solution_lem submission plain_crypto solution plain_crypto-FillsSpans submission-HasSizes
      solution-built

-- The submission with no destination.
abbrev undirected : SubmissionInput
undirected = record submission { destination_public_key = replicate 32 0 }

undirected-refused : ¬ IsAuthorized undirected undirected.candidate_context
unfolding is_zero
undirected-refused (_, _, _, _, _, _, _, _, _, _, _, _, _, _, _, given, _) = cc

build_solution_refused_example :
    (code : ProtocolErrorCode) × (build_solution undirected plain_crypto
      ≡ err (protocol_error code))
    × Blames undirected code
build_solution_refused_example = build_solution_refused undirected plain_crypto undirected-refused
