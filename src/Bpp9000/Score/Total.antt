-- ===== src/Bpp9000/Score/Total.antt =====
-- `score_lut`: the number of mispredicted windows, or the timeout of the first that does not settle.
use xdna_npu_miner.Prelude.{
  ℕ, zero, suc, ◌+◌, ◌-◌, ◌≤◌, ◌<◌, ◌≡◌, refl, ◌⊎◌, ◌↔◌, inl, inr, true, false, arith, ok,
  Bool-cases,
}
use xdna_npu_miner.Prelude.Words.{add32, add64, u32_max}
use xdna_npu_miner.Bpp9000.Types.{
  Task, ReferenceConfig, ScoreResult, settled, timeout, timeout_score, is_valid_score,
}
use xdna_npu_miner.Bpp9000.Lut.{Lut}
use xdna_npu_miner.Bpp9000.Network.Watching.{watch-IsBounded, IsBounded}
use xdna_npu_miner.Bpp9000.State.Inputs.{blank}
use xdna_npu_miner.Bpp9000.Score.{WindowResult, score_windows, score_lut}
use xdna_npu_miner.Bpp9000.Score.Meaning.{
  CanScore, network_window, meaning, score_window_lem, CanScore-IsScorable,
}
use native.Mathlib.Decide.{ℕ_discrete}

module _ (task : Task) (lut : Lut) (config : ReferenceConfig) where
  -- The windows of the task.
  abbrev pub window_count : ℕ
  window_count = task.header.shape.sequence_length - config.window_width

  abbrev pub window_at : ℕ → WindowResult
  window_at i = meaning task i (network_window task lut config i)

  -- Whether the network settles in window `i`.
  abbrev pub Settles : ℕ → Type 0
  Settles i = (network_window task lut config i).done ≡ true

  -- How many of the first `k` windows are mispredicted.
  unfoldable pub misses : ℕ → ℕ
  misses zero = 0
  misses (suc k) = misses k + (window_at k).score.score

  -- All windows settle and the score is the number of mispredictions, or window `k` is the first
  -- that does not settle and the result is its timeout.
  abbrev pub IsVerdict : ScoreResult → Type 0
  IsVerdict r =
      (((i : ℕ) → i < window_count → Settles i)
        × (misses window_count ≤ window_count)
        × (r.score ≡ misses window_count)
        × (r.status ≡ settled)
        × (r.windows_evaluated ≡ window_count))
      ⊎ ((k : ℕ) × (k < window_count)
          × ((i : ℕ) → i < k → Settles i)
          × ((network_window task lut config k).done ≡ false)
          × (r ≡ record {
            score = timeout_score;
            status = timeout;
            windows_evaluated = k + 1;
            ticks = config.max_ticks;
          }))

  module _ (c : CanScore task lut config) where
    window_IsBounded :
        (i : ℕ)
        → IsBounded task config.window_width config.max_ticks (network_window task lut config i)
    window_IsBounded i =
        unfold network_window in
        watch-IsBounded task lut config.window_width i config.max_ticks (blank task) 0 0
          config.max_ticks (omega arith) (omega arith)

    settled_score :
        (i : ℕ)
        → Settles i
        → ((window_at i).score.score ≤ 1) × ((window_at i).score.status ≡ settled)
    unfolding meaning
    settled_score i h = ground (arith, h)

    spent_score :
        (i : ℕ)
        → (network_window task lut config i).done ≡ false
        → ((window_at i).score.status ≡ timeout) × ((window_at i).score.ticks ≡ config.max_ticks)
    unfolding meaning
    spent_score i h = let b = window_IsBounded i in ground (arith, h, b.spent h)

    misses_next : (k : ℕ) → misses (k + 1) ≡ misses k + (window_at k).score.score
    misses_next k = let e : k + 1 ≡ suc k = omega arith in rw e (unfold misses in refl)

    score_windows_lem :
        (left window : ℕ) (total : ScoreResult)
        → window + left ≡ window_count
        → ((i : ℕ) → i < window → Settles i)
        → misses window ≤ window
        → total.score ≡ misses window
        → total.status ≡ settled
        → total.windows_evaluated ≡ window
        → (r : ScoreResult) × (score_windows task lut config left window total ≡ ok r) × IsVerdict r
    unfolding score_windows
    score_windows_lem zero window total e before few score status evaluated =
        let last : window ≡ window_count = omega arith in
        (total, refl, inl (rw (← last) (before, few, score, status, evaluated)))
    score_windows_lem (suc left) window total e before few score status evaluated =
        let s = CanScore-IsScorable c in
        let scored = score_window_lem task lut config window c (omega (arith, s.width_short)) in
        let evaluated' : add32 window 1 ≡ window + 1 = omega (arith, s.windows_fit) in
        let next : add64 window 1 ≡ window + 1 = omega (arith, s.windows_fit) in
        elim (Bool-cases (network_window task lut config window).done) [
          | inl done ↦
              let (small, status') = settled_score window done in
              let sum : add32 total.score (window_at window).score.score ≡ misses (window + 1) =
                rw (misses_next window, score) (omega (arith, s.windows_fit)) in
              rw (scored, status', next)
                (score_windows_lem left (window + 1) _ (omega arith)
                  (λ i p. elim (ℕ_discrete i window) [
                    | yes here ↦ rw here done
                    | no other ↦ before i (omega arith)
                  ])
                  (omega (arith, misses_next window)) sum status evaluated')
          | inr spent ↦
              let (status', ticks) = spent_score window spent in
              (
                _,
                rw (scored, status', evaluated', ticks),
                inr (window, omega arith, before, spent, refl),
              )
        ]

    -- On an accepted task with a table built for it, `score_lut` neither throws nor faults. If
    -- every window settles, its score is the number of windows that the network mispredicts, at
    -- most the number of windows; otherwise it is the timeout of the first window that does not
    -- settle.
    pub score_lut_lem : (r : ScoreResult) × (score_lut task lut config ≡ ok r) × IsVerdict r
    unfolding score_lut
    score_lut_lem =
        let (r, run, verdict) =
          score_windows_lem window_count 0
            (record { score = 0; status = settled; windows_evaluated = 0; ticks = 0 }) (omega arith)
            (λ i p. absurd (omega arith)) (unfold misses in omega arith) (unfold misses in refl)
            refl refl in
        (r, rw c.accepted run, verdict)

    -- On a task with fewer than 2 ^ 32 - 1 windows, a result of `score_lut` passes `is_valid_score`
    -- for the task's number of windows if and only if its status is settled.
    pub is_valid_score_lem :
        (r : ScoreResult)
        → window_count < u32_max
        → score_lut task lut config ≡ ok r
        → (is_valid_score r window_count ≡ true) ↔ (r.status ≡ settled)
    unfolding is_valid_score
    is_valid_score_lem r small run =
        let (r', run', verdict) = score_lut_lem in
        let same : r' ≡ r = cc in
        elim verdict [
          | inl (_, few, score, status, evaluated) ↦ (λ _. cc, λ _. ground arith)
          | inr (k, _, _, _, e) ↦ (λ t. ground arith, λ t. ground arith)
        ]
