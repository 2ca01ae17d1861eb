-- ===== src/Qubic/Client/Requests.antt =====
-- The attempts of a request, and the request as a whole.
use xdna_npu_miner.Prelude.{
  ℕ, zero, suc, ◌≤◌, ◌≡◌, ◌≢◌, refl, arith, ltb, ◌==◌, ◌||◌, ◌&&◌, Bool, length, Option, some, none,
  min, Outcome, ok, err, fault, put, Bool-cases, inl, inr,
}
use xdna_npu_miner.Bpp9000.Types.{Bytes}
use xdna_npu_miner.Qubic.Types.{
  Thrown, protocol_error, transport_error, resource_limit_error, invalid_endpoint, Frame,
}
use xdna_npu_miner.Qubic.Wire.{write_u32, copy_into}
use xdna_npu_miner.Qubic.Frame.{parse_frame, serialize_frame, make_exchange_public_peers}
use xdna_npu_miner.Qubic.Frame.Total.{parse_frame-defined}
use xdna_npu_miner.Qubic.Action.{Action, lift, finally}
use xdna_npu_miner.Qubic.Action.Triple.{
  Holds, Triple, Triple-bind, Triple-throw_when, Triple-lift, Triple-ok, Triple-catch,
  Triple-finally, Triple-err, Triple-if, Triple-weaken, Holds-state,
}
use xdna_npu_miner.Qubic.Connection.{
  NodeEndpoint, TransportTimeouts, Network, clock, check_deadline, write_frame_until,
  remaining_time,
}
use xdna_npu_miner.Qubic.Connection.Exact.{
  Always, IsNetwork, clock-Triple, check_deadline-Triple, write_frame_until-Triple,
}
use xdna_npu_miner.Qubic.Client.{
  ReadOnlyRequestLimits, ReconnectPolicy, Session, on_world, drop_counts, within_session,
  next_dejavu, exchange, attempt_request, handle_failure, attempt_all, request_read_only,
}
use xdna_npu_miner.Qubic.Client.Accepted.{
  Answers, IsBounded, on_world-Triple, await_response-Triple,
}

peers-defined : (dejavu : ℕ) → make_exchange_public_peers dejavu ≢ fault
unfolding make_exchange_public_peers serialize_frame put write_u32 copy_into
peers-defined dejavu = λ k. cc

module _ {W : Type 0} (network : Network W) (is : IsNetwork network)
    (limits : ReadOnlyRequestLimits) where
  -- An action on the world within a request.
  world-Triple :
      {A : Type 0} (Q : A → Type 0) (action : Action W A)
      → Triple Always action Q
      → Triple {S = Session W} (IsBounded limits) (on_world action) Q
  world-Triple Q action h = on_world-Triple (λ n. n ≤ limits.maximum_ignored_bytes) Q action h

  next_dejavu-Triple : Triple Always (next_dejavu network) Always
  unfolding next_dejavu
  next_dejavu-Triple w i = elim (Bool-cases ((network.fetch_add w).0 == 0)) [
    | inl used ↦ rw (used, Holds) (tt, tt)
    | inr fresh ↦ rw (fresh, Holds) (tt, tt)
  ]

  exchange-Triple :
      (stream deadline : ℕ) (timeouts : TransportTimeouts) (request : Bytes) (frame : Frame)
      (response_type : ℕ)
      → Triple
          (IsBounded limits)
          (exchange network stream deadline timeouts limits request frame response_type)
          (Answers response_type frame)
  unfolding exchange
  exchange-Triple stream deadline timeouts request frame response_type =
      let I = IsBounded limits in
      let R = Answers response_type frame in
      Triple-bind I Always R _ _ (world-Triple Always (next_dejavu network) next_dejavu-Triple)
        (λ dejavu _.
          Triple-bind I (λ p. make_exchange_public_peers dejavu ≡ ok p) R _ _
            (Triple-lift I (make_exchange_public_peers dejavu) (peers-defined dejavu))
            (λ peers _.
              Triple-bind I Always R _ _
                (world-Triple Always
                  (write_frame_until network stream peers deadline timeouts.write)
                  (write_frame_until-Triple network is stream peers deadline timeouts.write))
                (λ _ _.
                  Triple-bind I Always R _ _
                    (world-Triple Always
                      (write_frame_until network stream request deadline timeouts.write)
                      (write_frame_until-Triple network is stream request deadline timeouts.write))
                    (λ _ _ s j.
                      await_response-Triple network is limits (suc limits.maximum_ignored_bytes)
                        stream deadline timeouts.read frame response_type s.ignored_bytes j
                        (omega arith) s refl))))

  opened-Triple :
      (opened : Option ℕ) (deadline : ℕ) (timeouts : TransportTimeouts) (request : Bytes)
      (frame : Frame) (response_type : ℕ)
      → Triple
          (IsBounded limits)
          (elim opened as (λ _. Action (Session W) Frame) [
            | none ↦ lift (err transport_error)
            | some stream ↦
                finally
                  (exchange network stream deadline timeouts limits request frame response_type)
                  (λ session. record session { world = network.release stream session.world })
          ])
          (Answers response_type frame)
  opened-Triple none deadline timeouts request frame response_type =
      Triple-err (IsBounded limits) (Answers response_type frame) transport_error
  opened-Triple (some stream) deadline timeouts request frame response_type =
      Triple-finally (IsBounded limits) (Answers response_type frame)
        (exchange network stream deadline timeouts limits request frame response_type)
        (λ session. record session { world = network.release stream session.world })
        (exchange-Triple stream deadline timeouts request frame response_type) (λ s j. j)

  attempt_request-Triple :
      (endpoint : NodeEndpoint) (deadline : ℕ) (timeouts : TransportTimeouts) (request : Bytes)
      (frame : Frame) (response_type : ℕ)
      → Triple
          (IsBounded limits)
          (attempt_request network endpoint deadline timeouts limits request frame response_type)
          (Answers response_type frame)
  unfolding attempt_request
  attempt_request-Triple endpoint deadline timeouts request frame response_type =
      let I = IsBounded limits in
      let R = Answers response_type frame in
      Triple-bind I Always R _ _ (world-Triple Always (clock network) (clock-Triple network is))
        (λ now _.
          Triple-bind I Always R _ _ (world-Triple Always _ (is.0 endpoint _))
            (λ opened _. opened-Triple opened deadline timeouts request frame response_type))

  -- A failure that does not end the request gives no answer.
  handle_failure-Triple :
      (Q : Option Frame → Type 0) (deadline : ℕ) (another : Bool) (delay : ℕ) (thrown : Thrown)
      → Q none
      → Triple (IsBounded limits) (handle_failure network deadline another delay thrown) Q
  unfolding handle_failure
  handle_failure-Triple Q deadline another delay (protocol_error code) q =
      Triple-err (IsBounded limits) Q (protocol_error code)
  handle_failure-Triple Q deadline another delay resource_limit_error q =
      Triple-err (IsBounded limits) Q transport_error
  handle_failure-Triple Q deadline another delay transport_error q =
      let I = IsBounded limits in
      Triple-bind I Always Q _ _
        (world-Triple Always (check_deadline network deadline)
          (check_deadline-Triple network is deadline))
        (λ _ _.
          Triple-if I Q (another && ltb 0 delay) _ _
            (Triple-bind I Always Q _ _
              (world-Triple Always (clock network) (clock-Triple network is))
              (λ now _.
                Triple-if I Q (ltb 0 (remaining_time deadline now)) _ _
                  (world-Triple Q
                    (λ w. (ok none, network.sleep_for (min delay (remaining_time deadline now)) w))
                    (λ w i. (q, tt)))
                  (Triple-ok I Q none q)))
            (Triple-ok I Q none q))

  -- No answer, or the response to the request.
  abbrev MayAnswer : ℕ → Frame → Option Frame → Type 0
  MayAnswer response_type frame none = Unit
  MayAnswer response_type frame (some response) = Answers response_type frame response

  attempt_all-Triple :
      (attempts : ℕ) (endpoint : NodeEndpoint) (deadline : ℕ) (timeouts : TransportTimeouts)
      (reconnect : ReconnectPolicy) (request : Bytes) (frame : Frame) (response_type : ℕ)
      → Triple
          (IsBounded limits)
          (attempt_all network attempts endpoint deadline timeouts reconnect limits request frame
            response_type)
          (Answers response_type frame)
  unfolding attempt_all
  attempt_all-Triple zero endpoint deadline timeouts reconnect request frame response_type =
      Triple-err (IsBounded limits) (Answers response_type frame) transport_error
  attempt_all-Triple (suc attempts) endpoint deadline timeouts reconnect request frame
        response_type =
      let I = IsBounded limits in
      let R = Answers response_type frame in
      let M = MayAnswer response_type frame in
      Triple-bind I Always R _ _
        (world-Triple Always (check_deadline network deadline)
          (check_deadline-Triple network is deadline))
        (λ _ _.
          Triple-bind I M R _ _
            (Triple-catch I M _ _
              (Triple-bind I R M _ _
                (attempt_request-Triple endpoint deadline timeouts request frame response_type)
                (λ response answers. Triple-ok I M (some response) answers))
              (λ thrown.
                handle_failure-Triple M deadline (ltb 0 attempts) reconnect.delay thrown tt))
            (λ answer may. answered _ answer may (
              attempt_all-Triple attempts endpoint deadline timeouts reconnect request frame
                response_type)))
    where
      answered :
          (rest : Action (Session W) Frame) (answer : Option Frame)
          → MayAnswer response_type frame answer
          → Triple (IsBounded limits) rest (Answers response_type frame)
          → Triple
              (IsBounded limits)
              (elim answer as (λ _. Action (Session W) Frame) [
                | some response ↦ lift (ok response)
                | none ↦ rest
              ])
              (Answers response_type frame)
      answered rest none may h = h
      answered rest (some response) may h =
          Triple-ok (IsBounded limits) (Answers response_type frame) response may

abbrev pub AnswersRequest : ℕ → Bytes → Frame → Type 0
AnswersRequest response_type request response =
    (frame : Frame) × (parse_frame request ≡ ok frame) × Answers response_type frame response

-- A request starts with nothing ignored.
session-Triple :
    {W A : Type 0} (limits : ReadOnlyRequestLimits) (Q : A → Type 0) (action : Action (Session W) A)
    → Triple (IsBounded limits) action Q
    → Triple Always (within_session action) Q
unfolding within_session
session-Triple {W = W} {A = A} limits Q action h w i =
    dropped (action (record { ignored_frames = 0; ignored_bytes = 0; world = w }))
      (h (record { ignored_frames = 0; ignored_bytes = 0; world = w }) (omega arith))
  where
    dropped :
        (done : Outcome Thrown A × Session W)
        → Holds (IsBounded limits) Q done
        → Holds Always Q (drop_counts done)
    dropped (ok a, s) j = (j.0, tt)
    dropped (err thrown, s) j = tt
    dropped (fault, s) j = j

request-Triple :
    {W : Type 0} (network : Network W) (endpoint : NodeEndpoint) (timeouts : TransportTimeouts)
    (reconnect : ReconnectPolicy) (limits : ReadOnlyRequestLimits) (request : Bytes)
    (response_type : ℕ)
    → IsNetwork network
    → Triple Always
        (request_read_only network endpoint timeouts reconnect limits request response_type)
        (AnswersRequest response_type request)
unfolding request_read_only
request-Triple network endpoint timeouts reconnect limits request response_type is =
    let Q = AnswersRequest response_type request in
    Triple-throw_when Always Q (length endpoint.host == 0 || endpoint.port == 0)
      (protocol_error invalid_endpoint) _
      (λ _.
        Triple-throw_when Always Q
          (limits.deadline == 0
            || limits.maximum_ignored_bytes == 0
            || limits.maximum_ignored_frames == 0)
          (protocol_error invalid_endpoint) _
          (λ _.
            Triple-bind Always (λ frame. parse_frame request ≡ ok frame) Q _ _
              (Triple-lift Always (parse_frame request) (parse_frame-defined request))
              (λ frame parsed.
                Triple-bind Always Always Q _ _ (clock-Triple network is) (λ started _.
                  session-Triple limits Q _ (
                    Triple-weaken (IsBounded limits) (Answers response_type frame) Q _
                      (λ response answers. (frame, parsed, answers))
                      (attempt_all-Triple network is limits _ endpoint _ timeouts reconnect request
                        frame response_type))))))

-- Whatever the network does within its contract, a request ends in an error that the code throws, or
-- with a frame of the awaited type that carries the number of the request; no call is undefined, and
-- the bounds on the rounds of its loops are never used up.
pub request_read_only_lem :
    {W : Type 0} (network : Network W) (endpoint : NodeEndpoint) (timeouts : TransportTimeouts)
    (reconnect : ReconnectPolicy) (limits : ReadOnlyRequestLimits) (request : Bytes)
    (response_type : ℕ) (world : W)
    → IsNetwork network
    → Holds Always
        (AnswersRequest response_type request)
        (request_read_only network endpoint timeouts reconnect limits request response_type world)
request_read_only_lem network endpoint timeouts reconnect limits request response_type world is =
    request-Triple network endpoint timeouts reconnect limits request response_type is world tt

-- The attempts of a request, whether they give a response or fail, never ignore more bytes than the
-- limit allows, where no more were ignored before them.
pub ignored_bytes_lem :
    {W : Type 0} (network : Network W) (attempts : ℕ) (endpoint : NodeEndpoint) (deadline : ℕ)
    (timeouts : TransportTimeouts) (reconnect : ReconnectPolicy) (limits : ReadOnlyRequestLimits)
    (request : Bytes) (frame : Frame) (response_type : ℕ) (session : Session W)
    → IsNetwork network
    → IsBounded limits session
    → IsBounded limits (
        (attempt_all network attempts endpoint deadline timeouts reconnect limits request frame
          response_type session).1)
ignored_bytes_lem network attempts endpoint deadline timeouts reconnect limits request frame
      response_type session is bounded =
    Holds-state (IsBounded limits) (Answers response_type frame) _ (
      attempt_all-Triple network is limits attempts endpoint deadline timeouts reconnect request
        frame response_type session bounded)
