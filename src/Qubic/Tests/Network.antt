-- ===== src/Qubic/Tests/Network.antt =====
-- A network of concrete functions, and requests and submissions over it.
use xdna_npu_miner.Prelude.{
  ℕ, ◌⊎◌, ◌+◌, ◌≡◌, refl, sym, ap, ok-inj, arith, [], ◌∷◌, ◌++◌, true, false, length, length-take,
  min, take, drop, some, Outcome, ok, err, fault, get, put, for_range,
}
use xdna_npu_miner.Bpp9000.Types.{
  Bytes, bytes_eq, is_zero, is_valid_mining_seed, is_canonical_nonce, shape_eq, production_shape,
}
use xdna_npu_miner.Bpp9000.Fields.{word_at}
use xdna_npu_miner.Qubic.Types.{Thrown, Frame}
use xdna_npu_miner.Qubic.Wire.{read_u32, require_bytes, write_u32, copy_into, append_bytes}
use xdna_npu_miner.Qubic.Frame.{
  declared_size, serialize_frame, parse_frame, make_exchange_public_peers,
}
use xdna_npu_miner.Qubic.Action.{lift, throw_when, ◌>>=◌, try_catch, finally}
use xdna_npu_miner.Qubic.Action.Triple.{Holds}
use xdna_npu_miner.Qubic.Connection.{
  NodeEndpoint, TransportTimeouts, Network, plain_round, write_rest, write_frame,
}
use xdna_npu_miner.Qubic.Connection.Exact.{Always, IsNetwork}
use xdna_npu_miner.Qubic.Client.{
  ReadOnlyRequestLimits, ReconnectPolicy, Session, next_dejavu, request_read_only, attempt_all,
}
use xdna_npu_miner.Qubic.Client.Accepted.{IsBounded}
use xdna_npu_miner.Qubic.Client.Requests.{AnswersRequest, request_read_only_lem, ignored_bytes_lem}
use xdna_npu_miner.Qubic.Submission.{
  authorize_submission, reject, live_submission_disabled, score_equal, lacks_material,
}
use xdna_npu_miner.Qubic.Work.{is_supported_algorithm, identity_eq, same_work_parameters}
use xdna_npu_miner.Qubic.Submission.Authorized.{IsAuthorized}
use xdna_npu_miner.Qubic.Solution.{
  DirectNodeSolution, available, material_of, encrypt_bytes, encrypt_score, encrypt, shared_key_of,
  gamming_key_of, body_of, sign_solution, build_solution, unavailable_crypto_provider,
}
use xdna_npu_miner.Qubic.Sending.{
  AdapterSubmitResult, attempt_submit, submit_all, submit_frame, submit, submit_failure,
  error_reason,
}
use xdna_npu_miner.Qubic.Sending.Submitted.{Logs, write_frame_lem}
use xdna_npu_miner.Qubic.Sending.Guarded.{submit_sent_lem}
use xdna_npu_miner.Qubic.Sending.Unsent.{Reports, HasThrown, WasStopped, submit_unsent_lem}
use xdna_npu_miner.Qubic.Tests.{work, submission}
use xdna_npu_miner.Qubic.Tests.Solutions.{plain_crypto}

-- What comes in, what was sent, the time, and the counter.
record Line : Type 0 where
  incoming : Bytes
  sent : Bytes
  time : ℕ
  counter : ℕ

-- Reads give three bytes at most, and writes take three at most.
abbrev line_network : Network Line
line_network = record {
  now = λ line. (line.time, record line { time = line.time + 1 });
  fetch_add = λ line. (line.counter, record line { counter = line.counter + 1 });
  sleep_for = λ duration line. line;
  connect_stream = λ endpoint timeouts line. (ok (some 0), line);
  set_read_timeout = λ stream timeout line. (ok tt, line);
  set_write_timeout = λ stream timeout line. (ok tt, line);
  read_some = λ stream size line. (
    ok (take (min 3 size) line.incoming),
    record line { incoming = drop (min 3 size) line.incoming },
  );
  write_some = λ stream source line. (
    ok (min 3 (length source)),
    record line { sent = line.sent ++ take (min 3 (length source)) source },
  );
  close = λ stream line. line;
  release = λ stream line. line;
}

line_network-IsNetwork : IsNetwork line_network
line_network-IsNetwork = (
  λ endpoint timeouts line i. (tt, tt),
  λ stream timeout line i. (tt, tt),
  λ stream timeout line i. (tt, tt),
  λ stream size line i. (omega (arith, length-take (min 3 size) line.incoming), tt),
  λ stream source line i. (omega arith, tt),
)

abbrev endpoint : NodeEndpoint
endpoint = record { host = 104 ∷ []; port = 21841 }

abbrev timeouts : TransportTimeouts
timeouts = record { connect = 3000; read = 3000; write = 3000 }

abbrev reconnect : ReconnectPolicy
reconnect = record { max_attempts = 8; delay = 25 }

abbrev limits : ReadOnlyRequestLimits
limits = record { deadline = 15000; maximum_ignored_bytes = 1000; maximum_ignored_frames = 10 }

-- A request of number 7, and on the line a peer exchange and the response to it.
abbrev request : Bytes
request = 8 ∷ 0 ∷ 0 ∷ 46 ∷ 7 ∷ 0 ∷ 0 ∷ 0 ∷ []

abbrev line : Line
line = record {
  incoming = 9 ∷ 0 ∷ 0 ∷ 0 ∷ 1 ∷ 0 ∷ 0 ∷ 0 ∷ 5 ∷ 8 ∷ 0 ∷ 0 ∷ 47 ∷ 7 ∷ 0 ∷ 0 ∷ 0 ∷ [];
  sent = [];
  time = 0;
  counter = 1;
}

request_read_only_lem_example :
    Holds Always
      (AnswersRequest 47 request)
      (request_read_only line_network endpoint timeouts reconnect limits request 47 line)
request_read_only_lem_example =
    request_read_only_lem line_network endpoint timeouts reconnect limits request 47 line
      line_network-IsNetwork

abbrev session : Session Line
session = record { ignored_frames = 0; ignored_bytes = 0; world = line }

ignored_bytes_lem_example : IsBounded limits (
    (attempt_all line_network 8 endpoint 15000000000 timeouts reconnect limits request
      (record { message_type = 46; dejavu = 7; payload = [] })
      47
      session).1)
ignored_bytes_lem_example =
    ignored_bytes_lem line_network 8 endpoint 15000000000 timeouts reconnect limits request
      (record { message_type = 46; dejavu = 7; payload = [] }) 47 session line_network-IsNetwork
      (omega arith)

line_network-Logs : Logs line_network (λ line. line.sent)
line_network-Logs stream source w v count h =
    let taken : min 3 (length source) ≡ count = ok-inj (ap (λ r. r.0) h) in
    let after = ap (λ r. (r.1).sent) h in rw (← taken) (sym after)

abbrev written : Line
written = record line { sent = request }

request-written : write_frame line_network 0 request line ≡ (ok tt, written)
unfolding write_frame write_rest plain_round parse_frame declared_size read_u32 require_bytes
    word_at get lift throw_when ◌>>=◌
request-written = refl

write_frame_lem_example :
    ((f : Frame) × (parse_frame request ≡ ok f)) × (written.sent ≡ line.sent ++ request)
write_frame_lem_example =
    write_frame_lem line_network (λ line. line.sent) line_network-Logs 0 request line written
      request-written

abbrev unsent : AdapterSubmitResult
unsent = record {
  sent = false;
  decision = reject live_submission_disabled;
  has_transport_error = true;
}

abbrev result_or : Outcome Thrown AdapterSubmitResult → AdapterSubmitResult
result_or (ok r) = r
result_or (err thrown) = unsent
result_or fault = unsent

abbrev submitted : Outcome Thrown AdapterSubmitResult × Line
submitted = submit line_network endpoint timeouts reconnect plain_crypto true submission work line

submitted-ok : submitted ≡ (ok (result_or (submitted.0)), submitted.1)
unfolding submit submit_frame submit_all attempt_submit build_solution sign_solution body_of
    gamming_key_of shared_key_of encrypt encrypt_score encrypt_bytes material_of available
    authorize_submission lacks_material score_equal same_work_parameters identity_eq
    is_supported_algorithm serialize_frame append_bytes copy_into write_u32 bytes_eq is_zero
    is_valid_mining_seed is_canonical_nonce shape_eq production_shape for_range get put write_frame
    write_rest plain_round parse_frame declared_size read_u32 require_bytes word_at lift throw_when
    ◌>>=◌ try_catch finally make_exchange_public_peers next_dejavu
submitted-ok = refl

submitted-sent : (result_or (submitted.0)).sent ≡ true
unfolding submit submit_frame submit_all attempt_submit build_solution sign_solution body_of
    gamming_key_of shared_key_of encrypt encrypt_score encrypt_bytes material_of available
    authorize_submission lacks_material score_equal same_work_parameters identity_eq
    is_supported_algorithm serialize_frame append_bytes copy_into write_u32 bytes_eq is_zero
    is_valid_mining_seed is_canonical_nonce shape_eq production_shape for_range get put write_frame
    write_rest plain_round parse_frame declared_size read_u32 require_bytes word_at lift throw_when
    ◌>>=◌ try_catch finally make_exchange_public_peers next_dejavu
submitted-sent = refl

submit_sent_lem_example :
    IsAuthorized submission work
    × (true ≡ true)
    × ((solution : DirectNodeSolution) × (build_solution submission plain_crypto ≡ ok solution)
        × (submit_frame line_network endpoint timeouts reconnect solution.frame line
            ≡ (ok true, submitted.1)))
submit_sent_lem_example =
    submit_sent_lem line_network endpoint timeouts reconnect plain_crypto true submission work line
      (submitted.1) (result_or (submitted.0)) submitted-ok submitted-sent

-- The same submission where there is no cryptography.
abbrev stopped : Outcome Thrown AdapterSubmitResult × Line
stopped =
    submit line_network endpoint timeouts reconnect unavailable_crypto_provider true submission work
      line

stopped-ok : stopped ≡ (ok (result_or (stopped.0)), stopped.1)
unfolding submit submit_failure error_reason build_solution gamming_key_of shared_key_of material_of
    available unavailable_crypto_provider authorize_submission lacks_material score_equal
    same_work_parameters identity_eq is_supported_algorithm copy_into bytes_eq is_zero
    is_valid_mining_seed is_canonical_nonce shape_eq production_shape get put lift throw_when ◌>>=◌
    try_catch
stopped-ok = refl

stopped-unsent : (result_or (stopped.0)).sent ≡ false
unfolding submit submit_failure error_reason build_solution gamming_key_of shared_key_of material_of
    available unavailable_crypto_provider authorize_submission lacks_material score_equal
    same_work_parameters identity_eq is_supported_algorithm copy_into bytes_eq is_zero
    is_valid_mining_seed is_canonical_nonce shape_eq production_shape get put lift throw_when ◌>>=◌
    try_catch
stopped-unsent = refl

submit_unsent_lem_example :
    (WasStopped true submission work (result_or (stopped.0)) × (line ≡ stopped.1))
    ⊎ (IsAuthorized submission work
        × (true ≡ true)
        × ((thrown : Thrown) × HasThrown line_network endpoint timeouts reconnect
              unavailable_crypto_provider submission thrown line
              (stopped.1)
            × Reports thrown (result_or (stopped.0))))
submit_unsent_lem_example =
    submit_unsent_lem line_network endpoint timeouts reconnect unavailable_crypto_provider true
      submission work line (stopped.1) (result_or (stopped.0)) stopped-ok stopped-unsent
