-- ===== src/Bpp9000/Network/Watching.antt =====
-- The rounds of `watch` as equations, and how far a watched window can come.
use xdna_npu_miner.Prelude.{
  ℕ, zero, suc, ◌+◌, ◌≤◌, ◌<◌, ◌≡◌, inl, inr, true, false, arith, get_or, leb, ◌==◌, Bool-cases,
}
use xdna_npu_miner.Bpp9000.Types.{Task, unknown}
use xdna_npu_miner.Bpp9000.Lut.{Lut}
use xdna_npu_miner.Bpp9000.Network.{Trits, Watch, watch, step, feed, forget}

module _ (task : Task) (lut : Lut) (width start left : ℕ) (now : Trits) (fed ticked : ℕ) where
  pub watch_free :
      (get_or now task.topology.signal_neuron 0 == unknown) ≡ false
      → watch task lut width start (suc left) now fed ticked
        ≡ watch task lut width start left (step task lut (forget task lut now)) fed (ticked + 1)
  unfolding watch
  watch_free known = rw (known, watch)

  pub watch_fed :
      (get_or now task.topology.signal_neuron 0 == unknown) ≡ true
      → leb width fed ≡ false
      → watch task lut width start (suc left) now fed ticked
        ≡ watch task lut width start left
            (step task lut (feed task lut (start + fed) now))
            (fed + 1)
            (ticked + 1)
  unfolding watch
  watch_fed waits free = rw (waits, watch) (rw (free, watch))

  pub watch_settled :
      (get_or now task.topology.signal_neuron 0 == unknown) ≡ true
      → leb width fed ≡ true
      → watch task lut width start (suc left) now fed ticked
        ≡ record { now = now; fed = fed; ticked = ticked; done = true }
  unfolding watch
  watch_settled waits used = rw (waits, watch) (rw (used, watch))

-- A watched window: it never takes more than its rows; it is settled only with all rows taken and
-- the signal unknown, before the ticks ran out; otherwise every tick was made.
pub record IsBounded (task : Task) (width ticks : ℕ) (w : Watch) : Type 0 where
  pub fed_le : w.fed ≤ width
  pub ticked_le : w.ticked ≤ ticks
  pub done_fed : w.done ≡ true → w.fed ≡ width
  pub done_signal : w.done ≡ true → get_or w.now task.topology.signal_neuron 0 ≡ unknown
  pub done_early : w.done ≡ true → w.ticked < ticks
  pub spent : w.done ≡ false → w.ticked ≡ ticks

module _ (task : Task) (lut : Lut) (width start : ℕ) where
  pub watch-IsBounded :
      (left : ℕ) (now : Trits) (fed ticked ticks : ℕ)
      → fed ≤ width
      → ticked + left ≡ ticks
      → IsBounded task width ticks (watch task lut width start left now fed ticked)
  watch-IsBounded zero now fed ticked ticks h e =
      unfold watch in
      record {
        fed_le = h;
        ticked_le = omega arith;
        done_fed = λ d. cc;
        done_signal = λ d. cc;
        done_early = λ d. cc;
        spent = λ d. omega arith;
      }
  watch-IsBounded (suc left) now fed ticked ticks h e =
      elim (Bool-cases (get_or now task.topology.signal_neuron 0 == unknown)) [
        | inl waits ↦ elim (Bool-cases (leb width fed)) [
          | inl used ↦
              rw (watch_settled task lut width start left now fed ticked waits used) (record {
                fed_le = h;
                ticked_le = omega arith;
                done_fed = λ d. ground arith;
                done_signal = λ d. ground arith;
                done_early = λ d. omega arith;
                spent = λ d. cc;
              })
          | inr free ↦
              rw (watch_fed task lut width start left now fed ticked waits free)
                (watch-IsBounded left _ (fed + 1) (ticked + 1) ticks (ground arith) (omega arith))
        ]
        | inr known ↦
            rw (watch_free task lut width start left now fed ticked known)
              (watch-IsBounded left _ fed (ticked + 1) ticks h (omega arith))
      ]
