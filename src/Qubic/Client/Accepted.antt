-- ===== src/Qubic/Client/Accepted.antt =====
-- A request ends, and accepts only the response to it; what it ignores stays within its limits.
use xdna_npu_miner.Prelude.{
  ℕ, zero, suc, ◌+◌, ◌-◌, ◌≤◌, ◌<◌, ◌≡◌, refl, arith, length, ltb, ◌==◌, ==_iff, Bool-cases, inl,
  inr, ◌⊎◌, Outcome, ok, err, fault, if◌then◌else◌,
}
use xdna_npu_miner.Prelude.Words.{add32}
use xdna_npu_miner.Qubic.Types.{
  Thrown, protocol_error, resource_limit_error, wrong_message_type, Frame,
}
use xdna_npu_miner.Qubic.Action.{Action, lift, throw_when, ◌>>=◌, ◌>>◌}
use xdna_npu_miner.Qubic.Action.Triple.{Holds, Triple, Holds-seq, Holds-branch, Holds-err, Holds-ok}
use xdna_npu_miner.Qubic.Connection.{Network, check_deadline, read_frame_until}
use xdna_npu_miner.Qubic.Connection.Exact.{
  Always, IsNetwork, check_deadline-Triple, read_frame_until-Triple,
}
use xdna_npu_miner.Qubic.Client.{
  ReadOnlyRequestLimits, is_unsolicited_network_frame, Session, keep_counts, on_world, get_session,
  count_ignored, ignore_frame, await_response,
}

-- The response to a request.
abbrev pub Answers : ℕ → Frame → Frame → Type 0
Answers response_type request response =
    (response.message_type ≡ response_type) × (response.dejavu ≡ request.dejavu)

module _ {W : Type 0} where
  -- As many bytes as `k` were ignored.
  abbrev IgnoredExactly : ℕ → Session W → Type 0
  IgnoredExactly k session = session.ignored_bytes ≡ k

  abbrev pub IsBounded : ReadOnlyRequestLimits → Session W → Type 0
  IsBounded limits session = session.ignored_bytes ≤ limits.maximum_ignored_bytes

  -- Actions on the world count nothing.
  pub on_world-Triple :
      {A : Type 0} (P : ℕ → Type 0) (Q : A → Type 0) (action : Action W A)
      → Triple Always action Q
      → Triple (λ s. P s.ignored_bytes) (on_world action) Q
  unfolding on_world
  on_world-Triple {A = A} P Q action h s p = kept (action s.world) (h s.world tt)
    where
      kept :
          (done : Outcome Thrown A × W)
          → Holds Always Q done
          → Holds (λ s. P s.ignored_bytes) Q (keep_counts s done)
      kept (ok a, w) q = (q.0, p)
      kept (err thrown, w) q = p
      kept (fault, w) q = q

  -- A frame is ignored within the limits, or it ends the request.
  ignored_lem :
      (network : Network W) (limits : ReadOnlyRequestLimits) (response : Frame) (k : ℕ)
      (s : Session W)
      → k ≤ limits.maximum_ignored_bytes
      → s.ignored_bytes ≡ k
      → ((thrown : Thrown) × (t : Session W) × (ignore_frame network limits response s
            ≡ (err thrown, t))
          × IsBounded limits t)
        ⊎ ((t : Session W) × (ignore_frame network limits response s ≡ (ok tt, t))
            × IsBounded limits t
            × (k < t.ignored_bytes))
  unfolding ignore_frame ◌>>=◌ throw_when get_session count_ignored
  ignored_lem network limits response k s bound e =
      let size = length response.payload + 8 in
      elim (Bool-cases (is_unsolicited_network_frame response)) [
        | inr other ↦
            inl (protocol_error wrong_message_type, s, rw other refl, omega (arith, bound, e))
        | inl same ↦ elim (Bool-cases (ltb (limits.maximum_ignored_bytes - s.ignored_bytes) size)) [
          | inl over ↦ inl (resource_limit_error, s, rw (same, over) refl, omega (arith, bound, e))
          | inr room ↦
              let after : Session W = record s {
                ignored_frames = add32 s.ignored_frames 1;
                ignored_bytes = s.ignored_bytes + size;
              } in
              let fits : s.ignored_bytes + size ≤ limits.maximum_ignored_bytes =
                ground (arith, room, bound, e) in
              elim (Bool-cases (ltb limits.maximum_ignored_frames (add32 s.ignored_frames 1))) [
                | inl many ↦ inl (resource_limit_error, after, rw (same, room, many) refl, fits)
                | inr few ↦ inr (after, rw (same, room, few) refl, fits, omega (arith, e))
              ]
        ]
      ]

  -- A response of the right type is accepted or refused by its dejavu.
  accept-Triple :
      (network : Network W) (limits : ReadOnlyRequestLimits) (stream : ℕ) (response request : Frame)
      (response_type : ℕ)
      → response.message_type ≡ response_type
      → Triple
          (IsBounded limits)
          (if response.dejavu == request.dejavu
            then (do on_world (λ w. (ok tt, network.close stream w)); lift (ok response))
            else lift (err (protocol_error wrong_message_type)))
          (Answers response_type request)
  unfolding lift ◌>>=◌ on_world
  accept-Triple network limits stream response request response_type same s j =
      elim (Bool-cases (response.dejavu == request.dejavu)) [
        | inl e ↦ rw (e, Holds) ((same, (==_iff response.dejavu request.dejavu).0 e), j)
        | inr e ↦ rw (e, Holds) j
      ]

  module _ (network : Network W) (is : IsNetwork network) (limits : ReadOnlyRequestLimits) where
    -- The loop ends, since it ignores some bytes in each round.
    pub await_response-Triple :
        (fuel stream deadline read_timeout : ℕ) (request : Frame) (response_type k : ℕ)
        → k ≤ limits.maximum_ignored_bytes
        → limits.maximum_ignored_bytes < k + fuel
        → (s : Session W) → s.ignored_bytes ≡ k
        → Holds (IsBounded limits) (Answers response_type request) (
            await_response network fuel stream deadline read_timeout limits request response_type s)
    unfolding await_response
    await_response-Triple zero stream deadline read_timeout request response_type k bound enough s
          e =
        absurd (omega (arith, bound, enough))
    await_response-Triple (suc fuel) stream deadline read_timeout request response_type k bound
          enough s e =
        let I = IgnoredExactly k in
        let J = IsBounded limits in
        let R = Answers response_type request in
        let rest =
          await_response network fuel stream deadline read_timeout limits request response_type in
        Holds-seq I J Always R (on_world (check_deadline network deadline)) _ s
          (on_world-Triple (λ n. n ≡ k) Always (check_deadline network deadline)
            (check_deadline-Triple network is deadline) s e)
          (λ t h. omega (arith, h, bound))
          (λ _ t _ h.
            Holds-seq I J Always R
              (on_world (read_frame_until network stream deadline read_timeout)) _ t
              (on_world-Triple (λ n. n ≡ k) Always
                (read_frame_until network stream deadline read_timeout)
                (read_frame_until-Triple network is stream deadline read_timeout) t h)
              (λ u g. omega (arith, g, bound))
              (λ response u _ g.
                Holds-branch J R (response.message_type == response_type) _ _ u
                  (λ same.
                    accept-Triple network limits stream response request response_type
                      ((==_iff response.message_type response_type).0 same) u
                      (omega (arith, g, bound)))
                  (λ other. elim (ignored_lem network limits response k u bound g) [
                    | inl (thrown, v, run, j) ↦
                        Holds-err J R (ignore_frame network limits response) (λ _. rest) u v thrown
                          run j
                    | inr (v, run, j, more) ↦
                        Holds-ok J R (ignore_frame network limits response) (λ _. rest) u v tt run
                          (await_response-Triple fuel stream deadline read_timeout request
                            response_type v.ignored_bytes j (omega (arith, enough, more)) v refl)
                  ])))
