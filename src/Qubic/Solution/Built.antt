-- ===== src/Qubic/Solution/Built.antt =====
-- What a built solution is, and what stops one from being built.
use xdna_npu_miner.Prelude.{
  ℕ, ◌≤◌, ◌≡◌, sym, ap, ◌∙◌, ◌++◌, arith, Bool, true, false, not, length, length-append, Option,
  some, none, ok, passed, bind-inv, ok-inj,
}
use mathlib.Core.Path.{subst}
use mathlib.Core.List.{append_assoc}
use xdna_npu_miner.Bpp9000.Types.{Bytes}
use xdna_npu_miner.Qubic.Wire.{append_bytes}
use xdna_npu_miner.Bpp9000.Fields.RoundTrip.{word_bytes, length-word_bytes}
use xdna_npu_miner.Qubic.Types.{Frame, broadcast_message}
use xdna_npu_miner.Qubic.Frame.{parse_frame, serialize_frame}
use xdna_npu_miner.Qubic.Frame.Codec.{IsFrame, frame_image, serialize_frame_lem, parse_frame_lem}
use xdna_npu_miner.Qubic.Submission.{SigningMaterial, SubmissionInput, authorize_submission}
use xdna_npu_miner.Qubic.Submission.Authorized.{IsAuthorized, authorize_submission_iff}
use xdna_npu_miner.Qubic.Solution.{
  CryptoProvider, DirectNodeSolution, available, material_of, body_of, sign_solution, encrypt,
  gamming_key_of, build_solution,
}
use xdna_npu_miner.Qubic.Solution.Cipher.{
  plain, xor_bytes, encrypt_lem, length-xor_bytes, xor_bytes_cancel,
}

-- A span keeps its size when a function fills it.
abbrev pub FillsSpans : CryptoProvider → Type 0
FillsSpans crypto =
    ((input : Bytes) (size : ℕ) (output : Bytes)
      → crypto.hash input size ≡ some output
      → length output ≡ size)
    × ((material : SigningMaterial) (digest : Bytes) (size : ℕ) (output : Bytes)
        → crypto.sign material digest size ≡ some output
        → length output ≡ size)

-- The sizes of the arrays of a submission.
abbrev pub HasSizes : SubmissionInput → Type 0
HasSizes input =
    (length input.source_public_key ≡ 32)
    × (length input.destination_public_key ≡ 32)
    × (length input.gamming_nonce ≡ 32)
    × (length input.candidate.mining_seed ≡ 32)
    × (length input.candidate.nonce ≡ 32)

abbrev pub message_of : DirectNodeSolution → Frame
message_of solution = record {
  message_type = broadcast_message;
  dejavu = 0;
  payload =
      solution.source_public_key
      ++ (solution.destination_public_key
          ++ (solution.gamming_nonce ++ (solution.encrypted_payload ++ solution.signature)));
}

available-inv : (o : Option Bytes) (output : Bytes) → available o ≡ ok output → o ≡ some output
unfolding available
available-inv none output e = cc
available-inv (some x) output e = ground (arith, e)

-- The payload, part by part.
payload_lem :
    (input : SubmissionInput) (encrypted signature : Bytes)
    → append_bytes (body_of input encrypted) signature
      ≡ input.source_public_key
        ++ (input.destination_public_key ++ (input.gamming_nonce ++ (encrypted ++ signature)))
unfolding append_bytes body_of
payload_lem input encrypted signature =
    let source = input.source_public_key in
    let destination = input.destination_public_key in
    let nonce = input.gamming_nonce in
    append_assoc ((source ++ destination) ++ nonce) encrypted signature
    ∙ append_assoc (source ++ destination) nonce (encrypted ++ signature)
    ∙ append_assoc source destination (nonce ++ (encrypted ++ signature))

length-payload :
    (source destination nonce encrypted signature : Bytes)
    → length source ≡ 32
    → length destination ≡ 32
    → length nonce ≡ 32
    → length encrypted ≡ 68
    → length signature ≡ 64
    → length (source ++ (destination ++ (nonce ++ (encrypted ++ signature)))) ≡ 228
length-payload source destination nonce encrypted signature e1 e2 e3 e4 e5 = omega (
  arith,
  length-append source (destination ++ (nonce ++ (encrypted ++ signature))),
  length-append destination (nonce ++ (encrypted ++ signature)),
  length-append nonce (encrypted ++ signature),
  length-append encrypted signature,
)

length-plain : (input : SubmissionInput) → HasSizes input → length (plain input.candidate) ≡ 68
length-plain input (_, _, _, e4, e5) =
    let score = word_bytes 4 0 input.candidate.score in
    omega (
      arith,
      e4,
      e5,
      length-append input.candidate.mining_seed (input.candidate.nonce ++ score),
      length-append input.candidate.nonce score,
      length-word_bytes 4 0 input.candidate.score,
    )

abbrev made : SubmissionInput → Bytes → Bytes → Bytes → DirectNodeSolution
made input encrypted signature frame = record {
  source_public_key = input.source_public_key;
  destination_public_key = input.destination_public_key;
  gamming_nonce = input.gamming_nonce;
  candidate = input.candidate;
  encrypted_payload = encrypted;
  signature = signature;
  frame = frame;
}

-- The frame of a payload of 228 bytes.
message_lem :
    (input : SubmissionInput) (encrypted signature frame : Bytes)
    → HasSizes input
    → length encrypted ≡ 68
    → length signature ≡ 64
    → serialize_frame broadcast_message 0 (append_bytes (body_of input encrypted) signature)
      ≡ ok frame
    → (parse_frame frame ≡ ok (message_of (made input encrypted signature frame)))
      × (length (message_of (made input encrypted signature frame)).payload ≡ 228)
message_lem input encrypted signature frame (s1, s2, s3, _, _) short signed f =
    let parts = payload_lem input encrypted signature in
    let size =
      length-payload input.source_public_key input.destination_public_key input.gamming_nonce
        encrypted signature s1 s2 s3 short signed in
    let message = message_of (made input encrypted signature frame) in
    let fits : IsFrame message = (omega arith, omega arith, omega (arith, size)) in
    let image : frame ≡ frame_image message =
      ok-inj (sym (rw parts at f) ∙ serialize_frame_lem message fits) in
    (ap parse_frame image ∙ parse_frame_lem message fits, size)

-- The encrypted payload, and the candidate behind it.
cipher_lem :
    (input : SubmissionInput) (gamma encrypted : Bytes)
    → HasSizes input
    → length gamma ≡ 68
    → encrypt input.candidate gamma ≡ ok encrypted
    → (length encrypted ≡ 68) × (xor_bytes encrypted gamma ≡ plain input.candidate)
cipher_lem input gamma encrypted (s1, s2, s3, s4, s5) long c =
    let size = length-plain input (s1, s2, s3, s4, s5) in
    let fits : length (plain input.candidate) ≤ length gamma = omega (arith, size, long) in
    let cipher : encrypted ≡ xor_bytes (plain input.candidate) gamma =
      ok-inj (sym c ∙ encrypt_lem input.candidate gamma s4 s5 long) in
    rw cipher (
      length-xor_bytes (plain input.candidate) gamma fits ∙ size,
      xor_bytes_cancel (plain input.candidate) gamma fits,
    )

not-false : (b : Bool) → not b ≡ false → b ≡ true
not-false b e = ground (arith, e)

-- The signature and the frame of a signed solution.
sign_solution-inv :
    (input : SubmissionInput) (crypto : CryptoProvider) (encrypted : Bytes)
    (solution : DirectNodeSolution)
    → FillsSpans crypto
    → sign_solution input crypto encrypted ≡ ok solution
    → (signature : Bytes) × (frame : Bytes) × (length signature ≡ 64)
      × (serialize_frame broadcast_message 0 (append_bytes (body_of input encrypted) signature)
          ≡ ok frame)
      × (made input encrypted signature frame ≡ solution)
unfolding sign_solution
sign_solution-inv input crypto encrypted solution (_, signs) h =
    let body = body_of input encrypted in
    let (digest, _, h1) = bind-inv (available (crypto.hash body 32)) _ h in
    let (material, _, h2) = bind-inv (material_of input) _ h1 in
    let (signature, w, h3) = bind-inv (available (crypto.sign material digest 64)) _ h2 in
    let (frame, f, h4) =
      bind-inv (serialize_frame broadcast_message 0 (append_bytes body signature)) _ h3 in
    let signed = available-inv (crypto.sign material digest 64) signature w in
    (signature, frame, signs material digest 64 signature signed, f, ok-inj h4)

-- A solution that is built is for an authorized submission; whoever has the gamma that its key
-- hashes to gets the candidate back from the encrypted payload; and its frame is parsed as a
-- broadcast message of 228 bytes: the keys, the nonce, the encrypted payload and the signature.
pub build_solution_lem :
    (input : SubmissionInput) (crypto : CryptoProvider) (solution : DirectNodeSolution)
    → FillsSpans crypto
    → HasSizes input
    → build_solution input crypto ≡ ok solution
    → IsAuthorized input input.candidate_context
      × ((key : Bytes) × (gamma : Bytes) × (gamming_key_of input crypto ≡ ok key)
          × (crypto.hash key 68 ≡ some gamma)
          × (xor_bytes solution.encrypted_payload gamma ≡ plain input.candidate))
      × (parse_frame solution.frame ≡ ok (message_of solution))
      × (length (message_of solution).payload ≡ 228)
unfolding build_solution
build_solution_lem input crypto solution (hashes, signs) sizes h =
    let (allowed, h1) = passed _ _ _ h in
    let (key, k, h2) = bind-inv (gamming_key_of input crypto) _ h1 in
    let (gamma, g, h3) = bind-inv (available (crypto.hash key 68)) _ h2 in
    let (encrypted, c, h4) = bind-inv (encrypt input.candidate gamma) _ h3 in
    let (signature, frame, signed, f, is) =
      sign_solution-inv input crypto encrypted solution (hashes, signs) h4 in
    let gamma_of = available-inv (crypto.hash key 68) gamma g in
    let (short, back) = cipher_lem input gamma encrypted sizes (hashes key 68 gamma gamma_of) c in
    let message = message_lem input encrypted signature frame sizes short signed f in
    (
      (authorize_submission_iff input input.candidate_context).0
          (not-false (authorize_submission input input.candidate_context).authorized allowed),
      (key, gamma, k, gamma_of, ap (λ s. xor_bytes s.encrypted_payload gamma) (sym is) ∙ back),
      subst (λ s. parse_frame s.frame ≡ ok (message_of s)) is message.0,
      subst (λ s. length (message_of s).payload ≡ 228) is message.1,
    )
