-- ===== src/Qubic/Sending/Attempts.antt =====
-- How the attempts to submit a frame end, and where code throws.
use xdna_npu_miner.Prelude.{
  ◌≡◌, refl, sym, ap, Bool, true, false, Outcome, ok, err, fault, ok-inj, inl, inr, ◌⊎◌, ℕ, zero,
  suc,
}
use xdna_npu_miner.Bpp9000.Types.{Bytes}
use xdna_npu_miner.Qubic.Types.{Thrown}
use xdna_npu_miner.Qubic.Action.{Action, lift, or_else, try_catch, and_then, ◌>>=◌}
use xdna_npu_miner.Qubic.Connection.{NodeEndpoint, TransportTimeouts, Network}
use xdna_npu_miner.Qubic.Client.{ReconnectPolicy}
use xdna_npu_miner.Qubic.Sending.{submit_frame, submit_all}
use xdna_npu_miner.Qubic.Sending.Submitted.{then-inv}

module _ {S A : Type 0} where
  -- What is tried gives the result, or its handler does.
  pub try-inv :
      (body : Action S A) (handler : Thrown → Action S A) (s t : S) (a : A)
      → try_catch body handler s ≡ (ok a, t)
      → (body s ≡ (ok a, t))
        ⊎ ((thrown : Thrown) × (u : S) × (body s ≡ (err thrown, u))
            × (handler thrown u ≡ (ok a, t)))
  unfolding try_catch
  try-inv body handler s t a h = caught (body s) h
    where
      caught :
          (done : Outcome Thrown A × S)
          → or_else done handler ≡ (ok a, t)
          → (done ≡ (ok a, t))
            ⊎ ((thrown : Thrown) × (u : S) × (done ≡ (err thrown, u))
                × (handler thrown u ≡ (ok a, t)))
      caught (ok b, u) h = inl h
      caught (err thrown, u) h = inr (thrown, u, refl, h)
      caught (fault, u) h = inl h

module _ {S A B : Type 0} where
  -- What throws in a sequence is the first step, or what follows it.
  pub throw-from :
      (first : Action S A) (rest : A → Action S B) (s t : S) (thrown : Thrown)
      → (first >>= rest) s ≡ (err thrown, t)
      → (first s ≡ (err thrown, t))
        ⊎ ((a : A) × (u : S) × (first s ≡ (ok a, u)) × (rest a u ≡ (err thrown, t)))
  unfolding ◌>>=◌
  throw-from first rest s t thrown h = thrown_by (first s) h
    where
      thrown_by :
          (done : Outcome Thrown A × S)
          → and_then done rest ≡ (err thrown, t)
          → (done ≡ (err thrown, t))
            ⊎ ((a : A) × (u : S) × (done ≡ (ok a, u)) × (rest a u ≡ (err thrown, t)))
      thrown_by (ok a, u) h = inr (a, u, refl, h)
      thrown_by (err other, u) h = inl (ap (λ r. (err_of r.0, r.1)) h)
        where
          err_of : Outcome Thrown B → Outcome Thrown A
          err_of (err e) = err e
          err_of _ = fault
      thrown_by (fault, u) h = cc

module _ {W : Type 0} (network : Network W) (endpoint : NodeEndpoint) (timeouts : TransportTimeouts)
    (reconnect : ReconnectPolicy) where
  last_attempt :
      (done sent : Bool) (next : Action W Bool) (w v : W)
      → (next w ≡ (ok sent, v) → sent ≡ true)
      → (elim done as (λ x. Action W Bool) [ true ↦ lift (ok true) | false ↦ next ]) w
        ≡ (ok sent, v)
      → sent ≡ true
  unfolding lift
  last_attempt true sent next w v later h = sym (ok-inj (ap (λ r. r.0) h))
  last_attempt false sent next w v later h = later h

  -- The loop over the attempts ends with a frame that was sent, or throws.
  submit_all-true :
      (attempts : ℕ) (frame : Bytes) (w v : W) (sent : Bool)
      → submit_all network attempts endpoint timeouts reconnect frame w ≡ (ok sent, v)
      → sent ≡ true
  unfolding submit_all lift
  submit_all-true zero frame w v sent h = cc
  submit_all-true (suc attempts) frame w v sent h =
      let (done, u, _, rest) = then-inv _ _ w v sent h in
      last_attempt done sent _ u v (submit_all-true attempts frame u v sent) rest

  pub submit_frame-true :
      (frame : Bytes) (w v : W) (sent : Bool)
      → submit_frame network endpoint timeouts reconnect frame w ≡ (ok sent, v)
      → sent ≡ true
  unfolding submit_frame
  submit_frame-true frame w v sent h =
      let (_, u, _, h1) = then-inv _ _ w v sent h in
      let (_, t, _, h2) = then-inv _ _ u v sent h1 in submit_all-true _ frame t v sent h2
