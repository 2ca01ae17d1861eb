-- ===== src/Qubic/Sending/Unsent.antt =====
-- Why nothing was sent.
use xdna_npu_miner.Prelude.{
  ◌≡◌, ◌↔◌, arith, refl, sym, ap, ◌∙◌, Bool, true, false, ok, err, ok-inj, Bool-cases, inl, inr,
  ◌⊎◌,
}
use xdna_npu_miner.Qubic.Types.{
  Thrown, protocol_error, transport_error, resource_limit_error, ProtocolErrorCode,
}
use xdna_npu_miner.Qubic.Types as Types
use xdna_npu_miner.Qubic.Work.{WorkContext}
use xdna_npu_miner.Qubic.Submission.{
  SubmissionInput, SubmissionDecision, authorize_submission, reject, live_submission_disabled,
  crypto_unavailable, invalid_gamma_nonce,
}
use xdna_npu_miner.Qubic.Submission.Authorized.{IsAuthorized, authorize_submission_iff}
use xdna_npu_miner.Qubic.Submission.Refused.{IsRefused, authorize_submission-IsExplained}
use xdna_npu_miner.Qubic.Solution.{CryptoProvider, DirectNodeSolution, build_solution}
use xdna_npu_miner.Qubic.Action.{Action, lift, try_catch, ◌>>=◌}
use xdna_npu_miner.Qubic.Connection.{NodeEndpoint, TransportTimeouts, Network}
use xdna_npu_miner.Qubic.Client.{ReconnectPolicy}
use xdna_npu_miner.Qubic.Sending.{
  AdapterSubmitResult, error_reason, submit_failure, submit_frame, submit,
}
use xdna_npu_miner.Qubic.Sending.Attempts.{try-inv, throw-from, submit_frame-true}
use xdna_npu_miner.Qubic.Sending.Submitted.{then-inv, lift-inv}

-- What a result says of the error that was caught: a transport error is told as such and leaves the
-- decision, and a protocol error makes it a rejection, whose reason tells the two errors of the
-- cryptography apart from each other and from all else. A resource limit is not caught.
abbrev pub Reports : Thrown → AdapterSubmitResult → Type 0
Reports (protocol_error code) r =
    (r.has_transport_error ≡ false)
    × (r.decision.authorized ≡ false)
    × ((r.decision.reason ≡ crypto_unavailable) ↔ (code ≡ Types.crypto_unavailable))
    × ((r.decision.reason ≡ invalid_gamma_nonce) ↔ (code ≡ Types.invalid_gamma_nonce))
Reports transport_error r = (r.has_transport_error ≡ true) × (r.decision.authorized ≡ true)
Reports resource_limit_error r = ⊥

-- The submission was stopped before anything was tried, for what the reason says.
abbrev pub WasStopped : Bool → SubmissionInput → WorkContext → AdapterSubmitResult → Type 0
WasStopped allow input current r =
    (r.has_transport_error ≡ false)
    × (r.decision.authorized ≡ false)
    × (IsRefused input current r.decision.reason
        ⊎ (IsAuthorized input current
            × (allow ≡ false)
            × (r.decision.reason ≡ live_submission_disabled)))

reason_crypto :
    (code : ProtocolErrorCode)
    → (error_reason code ≡ crypto_unavailable) ↔ (code ≡ Types.crypto_unavailable)
unfolding error_reason
reason_crypto code = ground arith

reason_gamma :
    (code : ProtocolErrorCode)
    → (error_reason code ≡ invalid_gamma_nonce) ↔ (code ≡ Types.invalid_gamma_nonce)
unfolding error_reason
reason_gamma code = ground arith

module _ {W : Type 0} (network : Network W) (endpoint : NodeEndpoint) (timeouts : TransportTimeouts)
    (reconnect : ReconnectPolicy) (crypto : CryptoProvider) where
  -- Building the solution threw, or submitting its frame did.
  abbrev pub HasThrown : SubmissionInput → Thrown → W → W → Type 0
  HasThrown input thrown w v =
      ((build_solution input crypto ≡ err thrown) × (w ≡ v))
      ⊎ ((solution : DirectNodeSolution) × (build_solution input crypto ≡ ok solution)
          × (submit_frame network endpoint timeouts reconnect solution.frame w ≡ (err thrown, v)))

  -- What `submit` tries once it is allowed to.
  abbrev result_of : SubmissionDecision → Bool → Action W AdapterSubmitResult
  result_of decision sent =
      lift (ok (record { sent = sent; decision = decision; has_transport_error = false }))

  abbrev tried : SubmissionInput → SubmissionDecision → Action W AdapterSubmitResult
  tried input decision = lift (build_solution input crypto) >>= λ solution.
      submit_frame network endpoint timeouts reconnect solution.frame >>= result_of decision

  submitted_at :
      (solution : DirectNodeSolution) (thrown : Thrown) (w u v : W)
      → w ≡ u
      → submit_frame network endpoint timeouts reconnect solution.frame u ≡ (err thrown, v)
      → submit_frame network endpoint timeouts reconnect solution.frame w ≡ (err thrown, v)
  submitted_at solution thrown w u v same h = rw same h

  throws_lem :
      (input : SubmissionInput) (decision : SubmissionDecision) (thrown : Thrown) (w v : W)
      → tried input decision w ≡ (err thrown, v)
      → HasThrown input thrown w v
  unfolding lift
  throws_lem input decision thrown w v h =
      elim (throw-from (lift (build_solution input crypto)) _ w v thrown h) [
        | inl building ↦ inl (ap (λ r. r.0) building, ap (λ r. r.1) building)
        | inr (solution, u, built, h1) ↦
            let (made, same) = lift-inv (build_solution input crypto) solution w u built in
            elim (throw-from (submit_frame network endpoint timeouts reconnect solution.frame)
              (result_of decision) u v thrown h1) [
                | inl submitting ↦
                    inr (solution, made, submitted_at solution thrown w u v same submitting)
                | inr (sent, t, _, h2) ↦ cc
              ]
      ]

  returns_lem :
      (input : SubmissionInput) (decision : SubmissionDecision) (r : AdapterSubmitResult) (w v : W)
      → tried input decision w ≡ (ok r, v)
      → r.sent ≡ true
  returns_lem input decision r w v h =
      let (solution, u, built, h1) = then-inv (lift (build_solution input crypto)) _ w v r h in
      let (sent, t, submitted, h2) =
        then-inv (submit_frame network endpoint timeouts reconnect solution.frame)
          (result_of decision) u v r h1 in
      let (result, _) = lift-inv (ok _) r t v h2 in
      sym (ap (λ a. a.sent) (ok-inj result))
      ∙ submit_frame-true network endpoint timeouts reconnect solution.frame u t sent submitted

  handled_lem :
      (decision : SubmissionDecision) (thrown : Thrown) (u v : W) (r : AdapterSubmitResult)
      → decision.authorized ≡ true
      → submit_failure network decision thrown u ≡ (ok r, v)
      → Reports thrown r × (u ≡ v)
  unfolding submit_failure lift reject
  handled_lem decision (protocol_error code) u v r granted h =
      let same = ok-inj (ap (λ o. o.0) h) in
      (rw (← same) (refl, refl, reason_crypto code, reason_gamma code), ap (λ o. o.1) h)
  handled_lem decision transport_error u v r granted h =
      let same = ok-inj (ap (λ o. o.0) h) in (rw (← same) (refl, granted), ap (λ o. o.1) h)
  handled_lem decision resource_limit_error u v r granted h = cc

  caught_lem :
      (input : SubmissionInput) (decision : SubmissionDecision) (w v : W) (r : AdapterSubmitResult)
      → decision.authorized ≡ true
      → try_catch (tried input decision) (submit_failure network decision) w ≡ (ok r, v)
      → r.sent ≡ false
      → (thrown : Thrown) × HasThrown input thrown w v × Reports thrown r
  caught_lem input decision w v r granted h quiet =
      elim (try-inv (tried input decision) (submit_failure network decision) w v r h) [
        | inl returned ↦ absurd (cc (returns_lem input decision r w v returned, quiet))
        | inr (thrown, u, threw, handled) ↦
            let (told, same) = handled_lem decision thrown u v r granted handled in
            (
              thrown,
              throws_lem input decision thrown w v (threw ∙ ap (λ (x : W). (err thrown, x)) same),
              told,
            )
      ]

  -- Where `submit` returns and nothing was sent, either it was stopped with the network as it was,
  -- because of something that is wrong with the submission or because live submission is off, or
  -- the submission is authorized and allowed, building the solution or submitting its frame threw,
  -- and the result reports what was thrown.
  pub submit_unsent_lem :
      (allow : Bool) (input : SubmissionInput) (current : WorkContext) (w v : W)
      (r : AdapterSubmitResult)
      → submit network endpoint timeouts reconnect crypto allow input current w ≡ (ok r, v)
      → r.sent ≡ false
      → (WasStopped allow input current r × (w ≡ v))
        ⊎ (IsAuthorized input current
            × (allow ≡ true)
            × ((thrown : Thrown) × HasThrown input thrown w v × Reports thrown r))
  unfolding submit lift reject
  submit_unsent_lem allow input current w v r h quiet =
      elim (Bool-cases (authorize_submission input current).authorized) [
        | inr refused ↦
            let body = rw (refused, submit) at h in
            let result = ok-inj (ap (λ o. o.0) body) in
            inl (
              rw (← result)
                  (refl, refl, inl (authorize_submission-IsExplained input current refused)),
              ap (λ o. o.1) body,
            )
        | inl granted ↦
            let authorized = (authorize_submission_iff input current).0 granted in
            elim (Bool-cases allow) [
              | inr off ↦
                  let body = rw (granted, off, submit) at h in
                  let result = ok-inj (ap (λ o. o.0) body) in
                  inl (rw (← result) (refl, refl, inr (authorized, off, refl)), ap (λ o. o.1) body)
              | inl on ↦
                  let body = rw (granted, on, submit) at h in
                  inr (authorized, on, caught_lem input _ w v r refl body quiet)
            ]
      ]
