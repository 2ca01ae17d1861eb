-- ===== src/Qubic/Connection.antt =====
-- src/qubic/direct_node.cpp and direct_node.hpp: frames over a stream, class `FramedConnection`. The
-- clock, the streams, the counter and the pause are a `Network` over a world `W`: `ByteStream`,
-- `ConnectionFactory`, `steady_clock::now`, `std::atomic::fetch_add` and `sleep_for`. A stream is
-- named by a number. Times are in nanoseconds and durations in milliseconds, and one that would be
-- negative is 0, which the code treats alike.
pub mod Exact
use xdna_npu_miner.Prelude.{
  ℕ, zero, suc, ◌+◌, ◌-◌, ◌/◌, min, [], ◌++◌, Bool, not, ltb, leb, ◌==◌, length, drop, Option,
  Outcome, ok, fault, true, false, if◌then◌else◌,
}
use xdna_npu_miner.Bpp9000.Types.{Bytes}
use xdna_npu_miner.Qubic.Types.{
  Thrown, protocol_error, transport_error, invalid_frame_size, frame_too_large, Frame,
  maximum_frame_bytes, request_response_header_bytes,
}
use xdna_npu_miner.Qubic.Frame.{declared_size, parse_frame}
use xdna_npu_miner.Qubic.Action.{Action, lift, throw_when, ◌>>=◌, ◌>>◌}

pub record NodeEndpoint : Type 0 where
  pub host : Bytes
  pub port : ℕ

pub record TransportTimeouts : Type 0 where
  pub connect : ℕ
  pub read : ℕ
  pub write : ℕ

-- A null stream is `none`. `read_some` is told how many bytes there is room for and gives those it
-- read; `write_some` gives how many it took. `release` is the destructor.
pub record Network (W : Type 0) : Type 0 where
  pub now : W → ℕ × W
  pub fetch_add : W → ℕ × W
  pub sleep_for : ℕ → W → W
  pub connect_stream : NodeEndpoint → TransportTimeouts → Action W (Option ℕ)
  pub set_read_timeout : ℕ → ℕ → Action W (Unit {0})
  pub set_write_timeout : ℕ → ℕ → Action W (Unit {0})
  pub read_some : ℕ → ℕ → Action W Bytes
  pub write_some : ℕ → Bytes → Action W ℕ
  pub close : ℕ → W → W
  pub release : ℕ → W → W

-- `duration_cast<milliseconds>(deadline - now)`
abbrev pub remaining_time : ℕ → ℕ → ℕ
remaining_time deadline now = (deadline - now) / 1000000

-- `timeout.count() > 0 ? timeout : 1ms`
abbrev pub positive_timeout : ℕ → ℕ
positive_timeout timeout = if ltb 0 timeout then timeout else 1

module _ {W : Type 0} (network : Network W) where
  abbrev pub clock : Action W ℕ
  clock w = (ok ((network.now w).0), (network.now w).1)

  -- `if (steady_clock::now() >= deadline) throw TransportError(...)`
  unfoldable pub check_deadline : ℕ → Action W (Unit {0})
  check_deadline deadline = do now ← clock; throw_when (leb deadline now) transport_error

  -- One round of the loop of `read_exact`, for `missing` bytes.
  unfoldable pub read_round : ℕ → ℕ → ℕ → ℕ → Action W Bytes
  read_round stream deadline maximum_read_timeout missing = do
    now ← clock
    throw_when (leb deadline now) transport_error
    let timeout = min maximum_read_timeout (remaining_time deadline now)
    network.set_read_timeout stream (positive_timeout timeout)
    bytes ← network.read_some stream missing
    check_deadline deadline
    throw_when (length bytes == 0) transport_error
    lift (ok bytes)

  -- The loop of `read_exact` that fills `size` places, after the bytes that it has. Each round
  -- reads a byte at least, so `size` rounds are enough.
  unfoldable pub read_exact : ℕ → ℕ → ℕ → ℕ → ℕ → Bytes → Action W Bytes
  read_exact zero stream deadline maximum_read_timeout size got =
      lift (if ltb (length got) size then fault else ok got)
  read_exact (suc fuel) stream deadline maximum_read_timeout size got =
      elim (ltb (length got) size) [
        | true ↦ do
          bytes ← read_round stream deadline maximum_read_timeout (size - length got)
          read_exact fuel stream deadline maximum_read_timeout size (got ++ bytes)
        | false ↦ lift (ok got)
      ]

  -- The payload is read behind the header, into the bytes of the whole frame.
  unfoldable pub read_frame_until : ℕ → ℕ → ℕ → Action W Frame
  read_frame_until stream deadline maximum_read_timeout = do
    header ←
        read_exact request_response_header_bytes stream deadline maximum_read_timeout
          request_response_header_bytes []
    declared ← lift (declared_size header)
    throw_when (ltb declared request_response_header_bytes) (protocol_error invalid_frame_size)
    throw_when (ltb maximum_frame_bytes declared) (protocol_error frame_too_large)
    encoded ← read_exact declared stream deadline maximum_read_timeout declared header
    lift (parse_frame encoded)

  -- One round of the loop of `write_frame_until`, for what is left of the frame.
  unfoldable pub write_round : ℕ → ℕ → ℕ → Bytes → Action W ℕ
  write_round stream deadline maximum_write_timeout rest = do
    now ← clock
    throw_when (leb deadline now) transport_error
    let timeout = min maximum_write_timeout (remaining_time deadline now)
    network.set_write_timeout stream (positive_timeout timeout)
    count ← network.write_some stream rest
    check_deadline deadline
    throw_when (count == 0) transport_error
    lift (ok count)

  -- One round of the loop of `write_frame`, which has no deadline.
  unfoldable pub plain_round : ℕ → Bytes → Action W ℕ
  plain_round stream rest = do
    count ← network.write_some stream rest
    throw_when (count == 0) transport_error
    lift (ok count)

  -- The loops over a frame, with one of the two rounds, from `offset` on.
  unfoldable pub write_rest : (Bytes → Action W ℕ) → ℕ → Bytes → ℕ → Action W (Unit {0})
  write_rest round zero frame offset = lift (if ltb offset (length frame) then fault else ok tt)
  write_rest round (suc fuel) frame offset = elim (ltb offset (length frame)) [
    | true ↦ do count ← round (drop offset frame); write_rest round fuel frame (offset + count)
    | false ↦ lift (ok tt)
  ]

  unfoldable pub write_frame_until : ℕ → Bytes → ℕ → ℕ → Action W (Unit {0})
  write_frame_until stream frame deadline maximum_write_timeout = do
    _ ← lift (parse_frame frame)
    write_rest (write_round stream deadline maximum_write_timeout) (length frame) frame 0

  unfoldable pub write_frame : ℕ → Bytes → Action W (Unit {0})
  write_frame stream frame = do
    _ ← lift (parse_frame frame)
    write_rest (plain_round stream) (length frame) frame 0
