-- ===== src/Qubic/Sending/Guarded.antt =====
-- Nothing is sent that is not authorized, and nothing while live submission is off.
use xdna_npu_miner.Prelude.{
  ◌≡◌, refl, sym, ap, ◌∙◌, Bool, true, false, ◌&&◌, Outcome, ok, err, fault, ok-inj, Bool-cases,
  inl, inr, if◌then◌else◌,
}
use xdna_npu_miner.Qubic.Types.{Thrown, protocol_error, transport_error, resource_limit_error}
use xdna_npu_miner.Qubic.Work.{WorkContext}
use xdna_npu_miner.Qubic.Work.Equality.{and-true}
use xdna_npu_miner.Qubic.Submission.{
  SubmissionInput, SubmissionDecision, authorize_submission, reject, live_submission_disabled,
}
use xdna_npu_miner.Qubic.Submission.Authorized.{IsAuthorized, authorize_submission_iff}
use xdna_npu_miner.Qubic.Solution.{CryptoProvider, DirectNodeSolution, build_solution}
use xdna_npu_miner.Qubic.Action.{Action, lift, or_else, try_catch}
use xdna_npu_miner.Qubic.Connection.{NodeEndpoint, TransportTimeouts, Network}
use xdna_npu_miner.Qubic.Client.{ReconnectPolicy}
use xdna_npu_miner.Qubic.Sending.{AdapterSubmitResult, submit_failure, submit_frame, submit}
use xdna_npu_miner.Qubic.Sending.Submitted.{then-inv, lift-inv}

module _ {W : Type 0} (network : Network W) (endpoint : NodeEndpoint) (timeouts : TransportTimeouts)
    (reconnect : ReconnectPolicy) (crypto : CryptoProvider) where
  -- A submission that is not authorized, or not allowed to go live, leaves the network as it is and
  -- sends nothing; the decision is then that of the authorization, or that live submission is off.
  submit_blocked_lem :
      (allow : Bool) (input : SubmissionInput) (current : WorkContext) (w : W)
      → ((authorize_submission input current).authorized && allow) ≡ false
      → submit network endpoint timeouts reconnect crypto allow input current w ≡ (
        ok (record {
          sent = false;
          decision =
              if (authorize_submission input current).authorized
              then reject live_submission_disabled
              else authorize_submission input current;
          has_transport_error = false;
        }),
        w,
      )
  unfolding submit lift
  submit_blocked_lem allow input current w h =
      elim (Bool-cases (authorize_submission input current).authorized) [
        | inl granted ↦ let off : allow ≡ false = rw granted at h in rw (granted, off) refl
        | inr refused ↦ rw refused refl
      ]

  failure_sends_nothing :
      (decision : SubmissionDecision) (thrown : Thrown) (u v : W) (r : AdapterSubmitResult)
      → submit_failure network decision thrown u ≡ (ok r, v)
      → r.sent ≡ false
  unfolding submit_failure lift
  failure_sends_nothing decision (protocol_error code) u v r h =
      sym (ap (λ a. a.sent) (ok-inj (ap (λ o. o.0) h)))
  failure_sends_nothing decision transport_error u v r h =
      sym (ap (λ a. a.sent) (ok-inj (ap (λ o. o.0) h)))
  failure_sends_nothing decision resource_limit_error u v r h = cc

  -- What is tried, where it sends.
  tried_lem :
      (decision : SubmissionDecision) (body : Action W AdapterSubmitResult) (w v : W)
      (r : AdapterSubmitResult)
      → try_catch body (submit_failure network decision) w ≡ (ok r, v)
      → r.sent ≡ true
      → body w ≡ (ok r, v)
  unfolding try_catch
  tried_lem decision body w v r h sends = caught (body w) h
    where
      caught :
          (done : Outcome Thrown AdapterSubmitResult × W)
          → or_else done (submit_failure network decision) ≡ (ok r, v)
          → done ≡ (ok r, v)
      caught (ok a, u) h = h
      caught (err thrown, u) h = cc (failure_sends_nothing decision thrown u v r h, sends)
      caught (fault, u) h = h

  moved :
      (solution : DirectNodeSolution) (sent : Bool) (w u t v : W)
      → w ≡ u
      → t ≡ v
      → sent ≡ true
      → submit_frame network endpoint timeouts reconnect solution.frame u ≡ (ok sent, t)
      → submit_frame network endpoint timeouts reconnect solution.frame w ≡ (ok true, v)
  moved solution sent w u t v start end said run = rw (start, ← end, ← said) run

  -- What is reported as sent was authorized, with live submission on; a solution was built for it,
  -- and the client submitted the frame of that solution.
  pub submit_sent_lem :
      (allow : Bool) (input : SubmissionInput) (current : WorkContext) (w v : W)
      (r : AdapterSubmitResult)
      → submit network endpoint timeouts reconnect crypto allow input current w ≡ (ok r, v)
      → r.sent ≡ true
      → IsAuthorized input current
        × (allow ≡ true)
        × ((solution : DirectNodeSolution) × (build_solution input crypto ≡ ok solution)
            × (submit_frame network endpoint timeouts reconnect solution.frame w ≡ (ok true, v)))
  unfolding submit
  submit_sent_lem allow input current w v r h sends =
      elim (Bool-cases ((authorize_submission input current).authorized && allow)) [
        | inr blocked ↦
            let quiet =
              ap (λ o. o.0) (sym (submit_blocked_lem allow input current w blocked) ∙ h) in
            absurd (cc (ap (λ a. a.sent) (ok-inj quiet), sends))
        | inl gate ↦
            let (granted, allowed) =
              and-true (authorize_submission input current).authorized allow gate in
            let body = rw (granted, allowed, submit) at h in
            let (solution, u, built, h1) =
              then-inv (lift (build_solution input crypto)) _ w v r
                (tried_lem _ _ w v r body sends) in
            let (sent, t, submitted, h2) =
              then-inv (submit_frame network endpoint timeouts reconnect solution.frame) _ u v r
                h1 in
            let (made, same) = lift-inv (build_solution input crypto) solution w u built in
            let (result, last) = lift-inv (ok _) r t v h2 in
            let true_sent : sent ≡ true = ap (λ a. a.sent) (ok-inj result) ∙ sends in
            (
              (authorize_submission_iff input current).0 granted,
              allowed,
              (solution, made, moved solution sent w u t v same last true_sent submitted),
            )
      ]
