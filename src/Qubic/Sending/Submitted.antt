-- ===== src/Qubic/Sending/Submitted.antt =====
-- What is sent, and when nothing is.
use xdna_npu_miner.Prelude.{
  ℕ, zero, suc, ◌+◌, ◌≡◌, refl, sym, ap, ◌∙◌, ◌++◌, Bool, true, false, ◌==◌, ltb, length, take,
  drop, drop_all, drop-drop, take-append-drop, Outcome, ok, err, fault, ok-inj, Bool-cases,
  ge_of_ltb, inl, inr,
}
use mathlib.Core.List.{append_assoc, append-nil}
use xdna_npu_miner.Bpp9000.Types.{Bytes}
use xdna_npu_miner.Qubic.Types.{Thrown, transport_error, Frame}
use xdna_npu_miner.Qubic.Frame.{parse_frame}
use xdna_npu_miner.Qubic.Action.{Action, lift, throw_when, and_then, ◌>>=◌}
use xdna_npu_miner.Qubic.Connection.{Network, plain_round, write_rest, write_frame}

module _ {S A B : Type 0} where
  -- A step and what follows it, where both gave a value.
  pub then-inv :
      (first : Action S A) (rest : A → Action S B) (s t : S) (b : B)
      → (first >>= rest) s ≡ (ok b, t)
      → (a : A) × (u : S) × (first s ≡ (ok a, u)) × (rest a u ≡ (ok b, t))
  unfolding ◌>>=◌
  then-inv first rest s t b h = inverted (first s) h
    where
      inverted :
          (done : Outcome Thrown A × S)
          → and_then done rest ≡ (ok b, t)
          → (a : A) × (u : S) × (done ≡ (ok a, u)) × (rest a u ≡ (ok b, t))
      inverted (ok a, u) h = (a, u, refl, h)
      inverted (err thrown, u) h = cc
      inverted (fault, u) h = cc

module _ {S B : Type 0} where
  throw-inv :
      (c : Bool) (thrown : Thrown) (rest : Action S B) (s t : S) (b : B)
      → (throw_when c thrown >>= λ _. rest) s ≡ (ok b, t)
      → (c ≡ false) × (rest s ≡ (ok b, t))
  unfolding ◌>>=◌ throw_when
  throw-inv true thrown rest s t b h = cc
  throw-inv false thrown rest s t b h = (refl, h)

  pub lift-inv :
      (outcome : Outcome Thrown B) (b : B) (s t : S)
      → lift outcome s ≡ (ok b, t)
      → (outcome ≡ ok b) × (s ≡ t)
  unfolding lift
  lift-inv outcome b s t h = (ap (λ r. r.0) h, ap (λ r. r.1) h)

-- `sent` tells what a stream has taken: each write that takes some bytes adds them to it.
abbrev pub Logs : {W : Type 0} → Network W → (W → Bytes) → Type 0
Logs {W} network sent =
    (stream : ℕ) (source : Bytes) (w v : W) (count : ℕ)
    → network.write_some stream source w ≡ (ok count, v)
    → sent v ≡ sent w ++ take count source

module _ {W : Type 0} (network : Network W) (sent : W → Bytes) (logs : Logs network sent) where
  plain_round_lem :
      (stream : ℕ) (rest : Bytes) (w v : W) (count : ℕ)
      → plain_round network stream rest w ≡ (ok count, v)
      → sent v ≡ sent w ++ take count rest
  unfolding plain_round
  plain_round_lem stream rest w v count h =
      let (taken, u, wrote, h1) = then-inv (network.write_some stream rest) _ w v count h in
      let (_, h2) = throw-inv (taken == 0) transport_error (lift (ok taken)) u v count h1 in
      let (same, last) = lift-inv (ok taken) count u v h2 in
      rw (← ok-inj same, ← last) (logs stream rest w u taken wrote)

  out_of_fuel : (v w : W) → lift {A = Unit {0}} fault w ≡ (ok tt, v) → ⊥
  unfolding lift
  out_of_fuel v w h = cc

  nothing_left :
      (frame : Bytes) (offset : ℕ) (w v : W)
      → ltb offset (length frame) ≡ false
      → w ≡ v
      → sent v ≡ sent w ++ drop offset frame
  nothing_left frame offset w v done same =
      rw (drop_all frame offset (ge_of_ltb offset (length frame) done), append-nil (sent w))
        (ap sent (sym same))

  write_rest_lem :
      (stream fuel : ℕ) (frame : Bytes) (offset : ℕ) (w v : W)
      → write_rest network (plain_round network stream) fuel frame offset w ≡ (ok tt, v)
      → sent v ≡ sent w ++ drop offset frame
  unfolding write_rest
  write_rest_lem stream zero frame offset w v h = elim (Bool-cases (ltb offset (length frame))) [
    | inl more ↦ absurd (out_of_fuel v w (rw (more, write_rest) at h))
    | inr done ↦
        nothing_left frame offset w v done (lift-inv (ok tt) tt w v (rw (done, write_rest) at h)).1
  ]
  write_rest_lem stream (suc fuel) frame offset w v h =
      elim (Bool-cases (ltb offset (length frame))) [
        | inl more ↦
            let (count, u, round, h1) =
              then-inv (plain_round network stream (drop offset frame)) _ w v tt
                (rw (more, write_rest) at h) in
            let added = plain_round_lem stream (drop offset frame) w u count round in
            let rest = write_rest_lem stream fuel frame (offset + count) u v h1 in
            let whole = take-append-drop count (drop offset frame) in
            rest
            ∙ rw
                (
                  added,
                  ← drop-drop offset count frame,
                  append_assoc (sent w) (take count (drop offset frame))
                      (drop count (drop offset frame)),
                )
                (ap (λ xs. sent w ++ xs) whole)
        | inr done ↦
            nothing_left frame offset w v done
              (lift-inv (ok tt) tt w v (rw (done, write_rest) at h)).1
      ]

  -- A frame that is written is taken by the stream whole, byte for byte, in however many writes, and
  -- it was a frame.
  pub write_frame_lem :
      (stream : ℕ) (frame : Bytes) (w v : W)
      → write_frame network stream frame w ≡ (ok tt, v)
      → ((f : Frame) × (parse_frame frame ≡ ok f)) × (sent v ≡ sent w ++ frame)
  unfolding write_frame
  write_frame_lem stream frame w v h =
      let (f, u, parsed, h1) = then-inv (lift (parse_frame frame)) _ w v tt h in
      let (frame_of, same) = lift-inv (parse_frame frame) f w u parsed in
      ((f, frame_of), rw same (write_rest_lem stream (length frame) frame 0 u v h1))
