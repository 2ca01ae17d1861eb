-- ===== src/Qubic/Solution.antt =====
-- src/qubic/direct_node.cpp and direct_node.hpp: the solution that is built for a submission, over
-- a `CryptoProvider`, whose functions fill a span of the size they are given or fail.
pub mod Cipher
pub mod Built
pub mod Errors
use xdna_npu_miner.Prelude.{
  ℕ, ◌+◌, ◌*◌, ◌/◌, ◌%◌, ◌^◌, bit_xor, not, [], ◌==◌, replicate, Bool, Option, none, some, Outcome,
  ok, err, fault, ◌>>=◌, ◌>>◌, throw_if, get, put, for_range, if◌then◌else◌,
}
use xdna_npu_miner.Bpp9000.Types.{Bytes, bytes_eq}
use xdna_npu_miner.Qubic.Types.{
  Thrown, protocol_error, ProtocolErrorCode, crypto_unavailable, invalid_gamma_nonce,
  score_mismatch, invalid_score, invalid_task, encrypted_solution_bytes, signature_bytes,
  solution_message, broadcast_message,
}
use xdna_npu_miner.Qubic.Types as Types
use xdna_npu_miner.Qubic.Wire.{copy_into, append_bytes}
use xdna_npu_miner.Qubic.Frame.{serialize_frame}
use xdna_npu_miner.Qubic.Submission.{
  SigningMaterial, CandidateSolution, SubmissionInput, SubmissionRejectReason, authorize_submission,
  unsupported_algorithm, task_mismatch, context_mismatch, invalid_seed, invalid_nonce,
  cpu_npu_mismatch, timeout, bad_score, threshold_exceeded, missing_signing_material,
}

-- The functions take the size of the span; `none` is a returned `false`.
pub record CryptoProvider : Type 0 where
  pub hash : Bytes → ℕ → Option Bytes
  pub sign : SigningMaterial → Bytes → ℕ → Option Bytes
  pub derive_shared_key : SigningMaterial → Bytes → ℕ → Option Bytes

-- `UnavailableCryptoProvider`.
unfoldable pub unavailable_crypto_provider : CryptoProvider
unavailable_crypto_provider = record {
  hash = λ input size. none;
  sign = λ material digest size. none;
  derive_shared_key = λ material peer size. none;
}

pub record DirectNodeSolution : Type 0 where
  pub source_public_key : Bytes
  pub destination_public_key : Bytes
  pub gamming_nonce : Bytes
  pub candidate : CandidateSolution
  pub encrypted_payload : Bytes
  pub signature : Bytes
  pub frame : Bytes

-- The switch on the reason of a rejected decision.
unfoldable pub rejection_code : SubmissionRejectReason → ProtocolErrorCode
rejection_code unsupported_algorithm = Types.unsupported_algorithm
rejection_code task_mismatch = invalid_task
rejection_code context_mismatch = invalid_task
rejection_code invalid_seed = Types.invalid_seed
rejection_code invalid_nonce = Types.invalid_nonce
rejection_code cpu_npu_mismatch = score_mismatch
rejection_code timeout = invalid_score
rejection_code bad_score = invalid_score
rejection_code threshold_exceeded = invalid_score
rejection_code missing_signing_material = Types.missing_signing_material
rejection_code _ = invalid_task

-- `if (!crypto.f(..., output)) throw ProtocolError(CryptoUnavailable, ...)`
unfoldable pub available : Option Bytes → Outcome Thrown Bytes
available none = err (protocol_error crypto_unavailable)
available (some output) = ok output

-- `*input.signing_material`, undefined for a null pointer.
unfoldable pub material_of : SubmissionInput → Outcome Thrown SigningMaterial
material_of input = elim (input.signing_material) [ none ↦ fault | some material ↦ ok material ]

-- One round of the loop over the seed and the nonce.
unfoldable pub encrypt_bytes : Bytes → Bytes → Bytes → ℕ → Bytes → Outcome Thrown Bytes
encrypt_bytes seed nonce gamma index encrypted = do
  s ← get seed index
  g ← get gamma index
  encrypted ← put encrypted index (bit_xor s g)
  n ← get nonce index
  h ← get gamma (index + 32)
  put encrypted (index + 32) (bit_xor n h)

-- One round of the loop over the score.
unfoldable pub encrypt_score : ℕ → Bytes → ℕ → Bytes → Outcome Thrown Bytes
encrypt_score score gamma index encrypted = do
  g ← get gamma (index + 64)
  put encrypted (index + 64) (bit_xor (score / 2 ^ (8 * index) % 256) g)

unfoldable pub encrypt : CandidateSolution → Bytes → Outcome Thrown Bytes
encrypt candidate gamma = do
  encrypted ←
      for_range 32 0 (encrypt_bytes candidate.mining_seed candidate.nonce gamma)
        (replicate encrypted_solution_bytes 0)
  for_range 4 0 (encrypt_score candidate.score gamma) encrypted

unfoldable pub shared_key_of : SubmissionInput → CryptoProvider → Outcome Thrown Bytes
shared_key_of input crypto =
    if bytes_eq input.source_public_key input.destination_public_key
    then (do
      material ← material_of input
      available (crypto.derive_shared_key material input.destination_public_key 32))
    else ok (replicate 32 0)

-- The key of the message, which has to select the type of a solution.
unfoldable pub gamming_key_of : SubmissionInput → CryptoProvider → Outcome Thrown Bytes
gamming_key_of input crypto = do
  shared_key ← shared_key_of input crypto
  shared_key_and_nonce ← copy_into shared_key (replicate 64 0) 0
  shared_key_and_nonce ← copy_into input.gamming_nonce shared_key_and_nonce 32
  gamming_key ← available (crypto.hash shared_key_and_nonce 32)
  first ← get gamming_key 0
  throw_if (not (first == solution_message)) (protocol_error invalid_gamma_nonce)
  ok gamming_key

unfoldable pub body_of : SubmissionInput → Bytes → Bytes
body_of input encrypted =
    append_bytes
      (append_bytes
        (append_bytes (append_bytes [] input.source_public_key) input.destination_public_key)
        input.gamming_nonce)
      encrypted

-- From the encrypted payload on.
unfoldable pub sign_solution :
    SubmissionInput → CryptoProvider → Bytes → Outcome Thrown DirectNodeSolution
sign_solution input crypto encrypted = do
  let body = body_of input encrypted
  digest ← available (crypto.hash body 32)
  material ← material_of input
  signature ← available (crypto.sign material digest signature_bytes)
  let payload = append_bytes body signature
  frame ← serialize_frame broadcast_message 0 payload
  ok (record {
    source_public_key = input.source_public_key;
    destination_public_key = input.destination_public_key;
    gamming_nonce = input.gamming_nonce;
    candidate = input.candidate;
    encrypted_payload = encrypted;
    signature = signature;
    frame = frame;
  })

unfoldable pub build_solution : SubmissionInput → CryptoProvider → Outcome Thrown DirectNodeSolution
build_solution input crypto = do
  let decision = authorize_submission input input.candidate_context
  throw_if (not decision.authorized) (protocol_error (rejection_code decision.reason))
  gamming_key ← gamming_key_of input crypto
  gamma ← available (crypto.hash gamming_key encrypted_solution_bytes)
  encrypted ← encrypt input.candidate gamma
  sign_solution input crypto encrypted
