-- ===== src/Qubic/Client.antt =====
-- src/qubic/direct_node.cpp and direct_node.hpp: the requests of class `DirectNodeClient`,
-- for a caller that passes no diagnostics.
pub mod Accepted
pub mod Requests
use xdna_npu_miner.Prelude.{
  ℕ, zero, suc, ◌+◌, ◌-◌, ◌*◌, min, List, [], ◌∷◌, Bool, true, false, not, ◌&&◌, ◌||◌, ltb, leb,
  ◌==◌, length, Option, none, some, Outcome, ok, err, fault, if◌then◌else◌,
}
use xdna_npu_miner.Prelude.Words.{add32}
use xdna_npu_miner.Bpp9000.Types.{Bytes, is_zero}
use xdna_npu_miner.Qubic.Types.{
  Thrown, protocol_error, transport_error, resource_limit_error, invalid_endpoint,
  wrong_message_type, Frame, request_response_header_bytes, exchange_public_peers,
  broadcast_message, broadcast_computors, respond_system_info, respond_entity, SystemInfo,
  ComputorList, EntityInfo,
}
use xdna_npu_miner.Qubic.Frame.{
  parse_frame, make_exchange_public_peers, make_system_info_request, make_computors_request,
  make_entity_request,
}
use xdna_npu_miner.Qubic.Messages.{parse_system_info, parse_computors, parse_entity}
use xdna_npu_miner.Qubic.Action.{Action, lift, throw_when, try_catch, finally, ◌>>=◌, ◌>>◌}
use xdna_npu_miner.Qubic.Connection.{
  NodeEndpoint, TransportTimeouts, Network, remaining_time, clock, check_deadline, read_frame_until,
  write_frame_until, write_frame,
}

pub record ReadOnlyRequestLimits : Type 0 where
  pub deadline : ℕ
  pub maximum_ignored_bytes : ℕ
  pub maximum_ignored_frames : ℕ

pub record ReconnectPolicy : Type 0 where
  pub max_attempts : ℕ
  pub delay : ℕ

unfoldable pub is_listed : ℕ → List ℕ → Bool
is_listed message_type [] = false
is_listed message_type (x ∷ xs) = message_type == x || is_listed message_type xs

-- The labels of the switch.
abbrev pub unsolicited_types : List ℕ
unsolicited_types =
    exchange_public_peers ∷ broadcast_message ∷ broadcast_computors ∷ 3 ∷ 8 ∷ 24 ∷ 68 ∷ 69 ∷ 11 ∷ 14
    ∷ 16 ∷ 26 ∷ 27 ∷ 29 ∷ 31 ∷ 33 ∷ 36 ∷ 38 ∷ 40 ∷ 42 ∷ 44 ∷ 46 ∷ 48 ∷ 50 ∷ 52 ∷ 56 ∷ 58 ∷ 64 ∷ 66
    ∷ 70 ∷ 201 ∷ []

unfoldable pub is_unsolicited_network_frame : Frame → Bool
is_unsolicited_network_frame frame = is_listed frame.message_type unsolicited_types

-- What a request has ignored, in all its attempts, and the world.
pub record Session (W : Type 0) : Type 0 where
  pub ignored_frames : ℕ
  pub ignored_bytes : ℕ
  pub world : W

module _ {W : Type 0} where
  abbrev pub keep_counts :
      {A : Type 0} → Session W → Outcome Thrown A × W → Outcome Thrown A × Session W
  keep_counts session done = (done.0, record session { world = done.1 })

  -- An action on the world within a request.
  unfoldable pub on_world : {A : Type 0} → Action W A → Action (Session W) A
  on_world action session = keep_counts session (action session.world)

  unfoldable pub get_session : Action (Session W) (Session W)
  get_session session = (ok session, session)

  -- `++ignored_frames; ignored_bytes += frame_bytes;`
  unfoldable pub count_ignored : ℕ → Action (Session W) (Unit {0})
  count_ignored frame_bytes session = (
    ok tt,
    record session {
      ignored_frames = add32 session.ignored_frames 1;
      ignored_bytes = session.ignored_bytes + frame_bytes;
    },
  )

  abbrev pub drop_counts : {A : Type 0} → Outcome Thrown A × Session W → Outcome Thrown A × W
  drop_counts done = (done.0, (done.1).world)

  -- A request starts with nothing ignored.
  unfoldable pub within_session : {A : Type 0} → Action (Session W) A → Action W A
  within_session action w =
      drop_counts (action (record { ignored_frames = 0; ignored_bytes = 0; world = w }))

module _ {W : Type 0} (network : Network W) where
  unfoldable pub next_dejavu : Action W ℕ
  next_dejavu w =
      let first = network.fetch_add w in
      if not (first.0 == 0)
      then (ok (first.0), first.1)
      else (let second = network.fetch_add (first.1) in (ok (second.0), second.1))

  -- The handling of a frame that is no response: it is ignored, within the limits.
  unfoldable pub ignore_frame : ReadOnlyRequestLimits → Frame → Action (Session W) (Unit {0})
  ignore_frame limits response = do
    throw_when (not (is_unsolicited_network_frame response)) (protocol_error wrong_message_type)
    let frame_bytes = length response.payload + request_response_header_bytes
    session ← get_session
    throw_when (ltb (limits.maximum_ignored_bytes - session.ignored_bytes) frame_bytes)
        resource_limit_error
    count_ignored frame_bytes
    session ← get_session
    throw_when (ltb limits.maximum_ignored_frames session.ignored_frames) resource_limit_error

  -- The loop over the frames that come in. Each ignored one counts for eight bytes at least, so as
  -- many rounds as bytes may be ignored, and one more, are enough.
  unfoldable pub await_response :
      ℕ → ℕ → ℕ → ℕ → ReadOnlyRequestLimits → Frame → ℕ → Action (Session W) Frame
  await_response zero stream deadline read_timeout limits request response_type = lift fault
  await_response (suc fuel) stream deadline read_timeout limits request response_type = do
    on_world (check_deadline network deadline)
    response ← on_world (read_frame_until network stream deadline read_timeout)
    elim (response.message_type == response_type) [
      | true ↦
          if response.dejavu == request.dejavu
          then (do on_world (λ w. (ok tt, network.close stream w)); lift (ok response))
          else lift (err (protocol_error wrong_message_type))
      | false ↦ do
        ignore_frame limits response
        await_response fuel stream deadline read_timeout limits request response_type
    ]

  -- What the `try` does with a stream.
  unfoldable pub exchange :
      ℕ
      → ℕ
      → TransportTimeouts
      → ReadOnlyRequestLimits
      → Bytes
      → Frame
      → ℕ
      → Action (Session W) Frame
  exchange stream deadline timeouts limits request request_frame response_type = do
    dejavu ← on_world next_dejavu
    peers ← lift (make_exchange_public_peers dejavu)
    on_world (write_frame_until network stream peers deadline timeouts.write)
    on_world (write_frame_until network stream request deadline timeouts.write)
    await_response (suc limits.maximum_ignored_bytes) stream deadline timeouts.read limits
        request_frame response_type

  -- The `try` of one attempt; the stream is released on each way out.
  unfoldable pub attempt_request :
      NodeEndpoint
      → ℕ
      → TransportTimeouts
      → ReadOnlyRequestLimits
      → Bytes
      → Frame
      → ℕ
      → Action (Session W) Frame
  attempt_request endpoint deadline timeouts limits request request_frame response_type = do
    now ← on_world (clock network)
    let remaining = remaining_time deadline now
    opened ← on_world (
        network.connect_stream endpoint (record {
          connect = min timeouts.connect remaining;
          read = min timeouts.read remaining;
          write = min timeouts.write remaining;
        }))
    elim opened [
      | none ↦ lift (err transport_error)
      | some stream ↦
          finally (exchange stream deadline timeouts limits request request_frame response_type)
            (λ session. record session { world = network.release stream session.world })
    ]

  -- The handlers: only a transport error before the deadline lets the loop go on, after a pause.
  unfoldable pub handle_failure : ℕ → Bool → ℕ → Thrown → Action (Session W) (Option Frame)
  handle_failure deadline another delay resource_limit_error = lift (err transport_error)
  handle_failure deadline another delay (protocol_error code) = lift (err (protocol_error code))
  handle_failure deadline another delay transport_error = do
    on_world (check_deadline network deadline)
    if another && ltb 0 delay
        then (do
          now ← on_world (clock network)
          let remaining = remaining_time deadline now
          if ltb 0 remaining
              then on_world (λ w. (ok none, network.sleep_for (min delay remaining) w))
              else lift (ok none))
        else lift (ok none)

  -- The loop over the attempts that are left.
  unfoldable pub attempt_all :
      ℕ
      → NodeEndpoint
      → ℕ
      → TransportTimeouts
      → ReconnectPolicy
      → ReadOnlyRequestLimits
      → Bytes
      → Frame
      → ℕ
      → Action (Session W) Frame
  attempt_all zero endpoint deadline timeouts reconnect limits request request_frame response_type =
      lift (err transport_error)
  attempt_all (suc attempts) endpoint deadline timeouts reconnect limits request request_frame
        response_type =
      do
        on_world (check_deadline network deadline)
        answer ←
            try_catch
              (do
                response ←
                    attempt_request endpoint deadline timeouts limits request request_frame
                      response_type
                lift (ok (some response)))
              (handle_failure deadline (ltb 0 attempts) reconnect.delay)
        elim answer [
          | some response ↦ lift (ok response)
          | none ↦
              attempt_all attempts endpoint deadline timeouts reconnect limits request request_frame
                response_type
        ]

  unfoldable pub request_read_only :
      NodeEndpoint
      → TransportTimeouts
      → ReconnectPolicy
      → ReadOnlyRequestLimits
      → Bytes
      → ℕ
      → Action W Frame
  request_read_only endpoint timeouts reconnect limits request response_type = do
    throw_when (length endpoint.host == 0 || endpoint.port == 0) (protocol_error invalid_endpoint)
    throw_when
        (limits.deadline == 0
          || limits.maximum_ignored_bytes == 0
          || limits.maximum_ignored_frames == 0)
        (protocol_error invalid_endpoint)
    request_frame ← lift (parse_frame request)
    started ← clock network
    let deadline = started + limits.deadline * 1000000
    let attempts = if reconnect.max_attempts == 0 then 1 else reconnect.max_attempts
    within_session (
        attempt_all attempts endpoint deadline timeouts reconnect limits request request_frame
          response_type)

  unfoldable pub request_system_info :
      NodeEndpoint
      → TransportTimeouts
      → ReconnectPolicy
      → ReadOnlyRequestLimits
      → Action W SystemInfo
  request_system_info endpoint timeouts reconnect limits = do
    dejavu ← next_dejavu
    request ← lift (make_system_info_request dejavu)
    response ← request_read_only endpoint timeouts reconnect limits request respond_system_info
    lift (parse_system_info response)

  unfoldable pub request_computors :
      NodeEndpoint
      → TransportTimeouts
      → ReconnectPolicy
      → ReadOnlyRequestLimits
      → Action W ComputorList
  request_computors endpoint timeouts reconnect limits = do
    dejavu ← next_dejavu
    request ← lift (make_computors_request dejavu)
    response ← request_read_only endpoint timeouts reconnect limits request broadcast_computors
    lift (parse_computors response)

  unfoldable pub request_entity :
      NodeEndpoint
      → TransportTimeouts
      → ReconnectPolicy
      → ReadOnlyRequestLimits
      → Bytes
      → Action W EntityInfo
  request_entity endpoint timeouts reconnect limits public_key = do
    throw_when (is_zero public_key) (protocol_error invalid_endpoint)
    dejavu ← next_dejavu
    request ← lift (make_entity_request public_key dejavu)
    response ← request_read_only endpoint timeouts reconnect limits request respond_entity
    lift (parse_entity response)
