-- ===== src/Qubic/Connection/Exact.antt =====
-- The loops over a stream end, and read or write what they are asked to.
use xdna_npu_miner.Prelude.{
  ℕ, zero, suc, ◌+◌, ◌-◌, ◌≤◌, ◌<◌, ◌≡◌, arith, [], ◌++◌, length, length-append, drop, leb, ltb,
  ◌==◌, ltb-false, ok,
}
use xdna_npu_miner.Bpp9000.Types.{Bytes}
use xdna_npu_miner.Qubic.Types.{
  protocol_error, transport_error, invalid_frame_size, frame_too_large, maximum_frame_bytes,
}
use xdna_npu_miner.Qubic.Frame.{declared_size, parse_frame}
use xdna_npu_miner.Qubic.Frame.Total.{declared_size-defined, parse_frame-defined}
use xdna_npu_miner.Qubic.Action.{Action, lift, ◌>>=◌}
use xdna_npu_miner.Qubic.Action.Triple.{
  Holds, Triple, Triple-bind, Triple-throw_when, Triple-lift, Triple-ok, Holds-lift, Triple-branch,
  Holds-throw_when,
}
use xdna_npu_miner.Qubic.Connection.{
  NodeEndpoint, TransportTimeouts, Network, clock, check_deadline, read_round, read_exact,
  read_frame_until, write_round, plain_round, write_rest, write_frame_until, write_frame,
}

abbrev pub Always : {A : Type 0} → A → Type 0
Always a = Unit

-- What a network is expected to keep to: its calls are defined, a read gives no more bytes than
-- there is room for, and a write takes no more than it is given.
abbrev pub IsNetwork : {W : Type 0} → Network W → Type 0
IsNetwork {W} network =
    ((endpoint : NodeEndpoint) (timeouts : TransportTimeouts)
      → Triple {S = W} Always (network.connect_stream endpoint timeouts) Always)
    × ((stream timeout : ℕ)
        → Triple {S = W} Always (network.set_read_timeout stream timeout) Always)
    × ((stream timeout : ℕ)
        → Triple {S = W} Always (network.set_write_timeout stream timeout) Always)
    × ((stream size : ℕ)
        → Triple {S = W} Always (network.read_some stream size) (λ bytes. length bytes ≤ size))
    × ((stream : ℕ) (source : Bytes)
        → Triple {S = W} Always (network.write_some stream source) (λ count. count ≤ length source))

-- Some of the bytes that are asked for.
abbrev IsPart : ℕ → Bytes → Type 0
IsPart missing bytes = (0 < length bytes) × (length bytes ≤ missing)

-- A write took a byte at least.
abbrev IsTaken : Bytes → ℕ → Type 0
IsTaken rest count = (0 < count)

module _ {W : Type 0} (network : Network W) (is : IsNetwork network) where
  pub clock-Triple : Triple Always (clock network) Always
  clock-Triple w i = (tt, tt)

  pub check_deadline-Triple :
      (deadline : ℕ) → Triple Always (check_deadline network deadline) Always
  unfolding check_deadline ◌>>=◌
  check_deadline-Triple deadline w i =
      Holds-throw_when Always (leb deadline ((network.now w).0)) transport_error ((network.now w).1)
        tt

  read_round-Triple :
      (stream deadline maximum missing : ℕ)
      → Triple Always (read_round network stream deadline maximum missing) (IsPart missing)
  unfolding read_round
  read_round-Triple stream deadline maximum missing =
      Triple-bind Always Always (IsPart missing) (clock network) _ clock-Triple (λ now _.
        Triple-throw_when Always (IsPart missing) (leb deadline now) transport_error _ (λ _.
          Triple-bind Always Always (IsPart missing) _ _ (is.1 stream _) (λ _ _.
            Triple-bind Always (λ bytes. length bytes ≤ missing) (IsPart missing) _ _
              (is.3 stream missing)
              (λ bytes short.
                Triple-bind Always Always (IsPart missing) _ _ (check_deadline-Triple deadline)
                  (λ _ _.
                    Triple-throw_when Always (IsPart missing) (length bytes == 0) transport_error
                      (lift (ok bytes))
                      (λ some_read.
                        Triple-ok Always (IsPart missing) bytes
                          (ground (arith, some_read), short)))))))

  pub read_exact-Triple :
      (fuel stream deadline maximum size : ℕ) (got : Bytes)
      → length got ≤ size
      → size ≤ fuel + length got
      → Triple Always
          (read_exact network fuel stream deadline maximum size got)
          (λ bytes. length bytes ≡ size)
  unfolding read_exact lift
  read_exact-Triple zero stream deadline maximum size got fits enough =
      λ w i. rw (ltb-false (length got) size (omega arith), Holds) (omega arith, tt)
  read_exact-Triple (suc fuel) stream deadline maximum size got fits enough =
      Triple-branch Always (λ bytes. length bytes ≡ size) (ltb (length got) size) _ _
        (λ more.
          Triple-bind Always (IsPart (size - length got)) _ _ _
            (read_round-Triple stream deadline maximum (size - length got))
            (λ bytes (some_read, short).
              read_exact-Triple fuel stream deadline maximum size (got ++ bytes)
                (ground (arith, length-append got bytes, fits, short, more))
                (omega (arith, length-append got bytes, some_read, enough))))
        (λ full. Triple-ok Always (λ bytes. length bytes ≡ size) got (ground (arith, full, fits)))

  pub read_frame_until-Triple :
      (stream deadline maximum : ℕ)
      → Triple Always (read_frame_until network stream deadline maximum) Always
  unfolding read_frame_until
  read_frame_until-Triple stream deadline maximum =
      Triple-bind Always (λ bytes. length bytes ≡ 8) _ _ _
        (read_exact-Triple 8 stream deadline maximum 8 [] (omega arith) (omega arith))
        (λ header size.
          Triple-bind Always (λ declared. declared_size header ≡ ok declared) _ _ _
            (Triple-lift Always (declared_size header)
              (declared_size-defined header (omega (arith, size))))
            (λ declared _.
              Triple-throw_when Always _ (ltb declared 8) (protocol_error invalid_frame_size) _
                (λ long.
                  Triple-throw_when Always _ (ltb maximum_frame_bytes declared)
                    (protocol_error frame_too_large) _
                    (λ _.
                      Triple-bind Always (λ bytes. length bytes ≡ declared) _ _ _
                        (read_exact-Triple declared stream deadline maximum declared header
                          (ground (arith, size, long)) (omega arith))
                        (λ encoded _ w i.
                          Holds-lift Always (parse_frame encoded) (parse_frame-defined encoded) w
                            i)))))

  write_round-Triple :
      (stream deadline maximum : ℕ) (rest : Bytes)
      → Triple Always (write_round network stream deadline maximum rest) (IsTaken rest)
  unfolding write_round
  write_round-Triple stream deadline maximum rest =
      Triple-bind Always Always (IsTaken rest) (clock network) _ clock-Triple (λ now _.
        Triple-throw_when Always (IsTaken rest) (leb deadline now) transport_error _ (λ _.
          Triple-bind Always Always (IsTaken rest) _ _ (is.2 stream _) (λ _ _.
            Triple-bind Always (λ count. count ≤ length rest) (IsTaken rest) _ _ (is.4 stream rest)
              (λ count fits.
                Triple-bind Always Always (IsTaken rest) _ _ (check_deadline-Triple deadline)
                  (λ _ _.
                    Triple-throw_when Always (IsTaken rest) (count == 0) transport_error
                      (lift (ok count))
                      (λ taken. Triple-ok Always (IsTaken rest) count (ground (arith, taken))))))))

  plain_round-Triple :
      (stream : ℕ) (rest : Bytes) → Triple Always (plain_round network stream rest) (IsTaken rest)
  unfolding plain_round
  plain_round-Triple stream rest =
      Triple-bind Always (λ count. count ≤ length rest) (IsTaken rest) _ _ (is.4 stream rest)
        (λ count fits.
          Triple-throw_when Always (IsTaken rest) (count == 0) transport_error (lift (ok count))
            (λ taken. Triple-ok Always (IsTaken rest) count (ground (arith, taken))))

  write_rest-Triple :
      (round : Bytes → Action W ℕ)
      → ((rest : Bytes) → Triple Always (round rest) (IsTaken rest))
      → (fuel : ℕ) (frame : Bytes) (offset : ℕ) → length frame ≤ fuel + offset
      → Triple Always (write_rest network round fuel frame offset) Always
  unfolding write_rest lift
  write_rest-Triple round keeps zero frame offset enough =
      λ w i. rw (ltb-false offset (length frame) (omega arith), Holds) (tt, tt)
  write_rest-Triple round keeps (suc fuel) frame offset enough =
      Triple-branch Always Always (ltb offset (length frame)) _ _
        (λ more.
          Triple-bind Always (IsTaken (drop offset frame)) Always _ _ (keeps (drop offset frame))
            (λ count taken.
              write_rest-Triple round keeps fuel frame (offset + count)
                (omega (arith, enough, taken))))
        (λ done. Triple-ok Always Always tt tt)

  pub write_frame_until-Triple :
      (stream : ℕ) (frame : Bytes) (deadline maximum : ℕ)
      → Triple Always (write_frame_until network stream frame deadline maximum) Always
  unfolding write_frame_until
  write_frame_until-Triple stream frame deadline maximum =
      Triple-bind Always (λ f. parse_frame frame ≡ ok f) Always _ _
        (Triple-lift Always (parse_frame frame) (parse_frame-defined frame))
        (λ _ _.
          write_rest-Triple (write_round network stream deadline maximum)
            (write_round-Triple stream deadline maximum) (length frame) frame 0 (omega arith))

  pub write_frame-Triple :
      (stream : ℕ) (frame : Bytes) → Triple Always (write_frame network stream frame) Always
  unfolding write_frame
  write_frame-Triple stream frame =
      Triple-bind Always (λ f. parse_frame frame ≡ ok f) Always _ _
        (Triple-lift Always (parse_frame frame) (parse_frame-defined frame))
        (λ _ _.
          write_rest-Triple (plain_round network stream) (plain_round-Triple stream) (length frame)
            frame 0 (omega arith))
