-- ===== src/Qubic/Sending.antt =====
-- src/qubic/direct_node.cpp and direct_node.hpp: the submission of a frame by `DirectNodeClient`, and
-- class `DirectNodeAdapter`, which submits a solution.
pub mod Submitted
pub mod Attempts
pub mod Guarded
pub mod Unsent
use xdna_npu_miner.Prelude.{
  ℕ, zero, suc, Bool, true, false, not, ◌&&◌, ◌||◌, ltb, ◌==◌, length, none, some, Outcome, ok, err,
  if◌then◌else◌,
}
use xdna_npu_miner.Bpp9000.Types.{Bytes}
use xdna_npu_miner.Qubic.Types.{
  Thrown, protocol_error, transport_error, resource_limit_error, invalid_endpoint,
  ProtocolErrorCode,
}
use xdna_npu_miner.Qubic.Types as Types
use xdna_npu_miner.Qubic.Frame.{parse_frame, make_exchange_public_peers}
use xdna_npu_miner.Qubic.Work.{WorkContext}
use xdna_npu_miner.Qubic.Submission.{
  SubmissionInput, SubmissionDecision, reject, authorize_submission, SubmissionRejectReason,
  crypto_unavailable, invalid_gamma_nonce, bad_score, live_submission_disabled,
}
use xdna_npu_miner.Qubic.Solution.{CryptoProvider, build_solution}
use xdna_npu_miner.Qubic.Action.{Action, lift, throw_when, try_catch, finally, ◌>>=◌, ◌>>◌}
use xdna_npu_miner.Qubic.Connection.{NodeEndpoint, TransportTimeouts, Network, write_frame}
use xdna_npu_miner.Qubic.Client.{ReconnectPolicy, next_dejavu}

-- Whether there is a text in `transport_error` is what is kept of it.
pub record AdapterSubmitResult : Type 0 where
  pub sent : Bool
  pub decision : SubmissionDecision
  pub has_transport_error : Bool

-- The reason that a protocol error gives.
unfoldable pub error_reason : ProtocolErrorCode → SubmissionRejectReason
error_reason Types.crypto_unavailable = crypto_unavailable
error_reason Types.invalid_gamma_nonce = invalid_gamma_nonce
error_reason _ = bad_score

module _ {W : Type 0} (network : Network W) where
  -- The `try` of one attempt to submit; the stream is released on each way out.
  unfoldable pub attempt_submit : NodeEndpoint → TransportTimeouts → Bytes → Action W (Unit {0})
  attempt_submit endpoint timeouts frame = do
    opened ← network.connect_stream endpoint timeouts
    elim opened [
      | none ↦ lift (err transport_error)
      | some stream ↦
          finally
            (do
              dejavu ← next_dejavu network
              peers ← lift (make_exchange_public_peers dejavu)
              write_frame network stream peers
              write_frame network stream frame
              λ w. (ok tt, network.close stream w))
            (network.release stream)
    ]

  -- The handlers: a transport error lets the loop go on, after a pause.
  unfoldable pub pause_submit : Bool → ℕ → Thrown → Action W Bool
  pause_submit another delay transport_error w =
      (ok false, if another && ltb 0 delay then network.sleep_for delay w else w)
  pause_submit another delay (protocol_error code) w = (err (protocol_error code), w)
  pause_submit another delay resource_limit_error w = (err resource_limit_error, w)

  unfoldable pub submit_all :
      ℕ → NodeEndpoint → TransportTimeouts → ReconnectPolicy → Bytes → Action W Bool
  submit_all zero endpoint timeouts reconnect frame = lift (err transport_error)
  submit_all (suc attempts) endpoint timeouts reconnect frame = do
    done ←
        try_catch (do attempt_submit endpoint timeouts frame; lift (ok true))
          (pause_submit (ltb 0 attempts) reconnect.delay)
    elim done [
      | true ↦ lift (ok true)
      | false ↦ submit_all attempts endpoint timeouts reconnect frame
    ]

  unfoldable pub submit_frame :
      NodeEndpoint → TransportTimeouts → ReconnectPolicy → Bytes → Action W Bool
  submit_frame endpoint timeouts reconnect frame = do
    _ ← lift (parse_frame frame)
    throw_when (length endpoint.host == 0 || endpoint.port == 0) (protocol_error invalid_endpoint)
    submit_all (if reconnect.max_attempts == 0 then 1 else reconnect.max_attempts) endpoint timeouts
        reconnect frame

  -- The handlers of `submit`, which has none for a resource limit.
  unfoldable pub submit_failure : SubmissionDecision → Thrown → Action W AdapterSubmitResult
  submit_failure decision (protocol_error code) = lift (
      ok (record {
        sent = false;
        decision = reject (error_reason code);
        has_transport_error = false;
      }))
  submit_failure decision transport_error =
      lift (ok (record { sent = false; decision = decision; has_transport_error = true }))
  submit_failure decision resource_limit_error = lift (err resource_limit_error)

  -- `DirectNodeAdapter::submit`, with its client's members and its flag.
  unfoldable pub submit :
      NodeEndpoint
      → TransportTimeouts
      → ReconnectPolicy
      → CryptoProvider
      → Bool
      → SubmissionInput
      → WorkContext
      → Action W AdapterSubmitResult
  submit endpoint timeouts reconnect crypto allow_live_submission input current =
      let decision = authorize_submission input current in
      if not decision.authorized
      then lift (ok (record { sent = false; decision = decision; has_transport_error = false }))
      else (if not allow_live_submission
          then lift (
              ok (record {
                sent = false;
                decision = reject live_submission_disabled;
                has_transport_error = false;
              }))
          else try_catch
              (do
                solution ← lift (build_solution input crypto)
                sent ← submit_frame endpoint timeouts reconnect (solution.frame)
                lift
                    (ok (record { sent = sent; decision = decision; has_transport_error = false })))
              (submit_failure decision))
