-- ===== src/Qubic/Work/Tracker.antt =====
-- The tracker of the current work context as a state machine.
use xdna_npu_miner.Prelude.{
  ◌≤◌, ◌≡◌, ◌⊎◌, inl, inr, refl, ap, ◌∙◌, ◌==◌, arith, some, Bool-cases, All, List, [], ◌∷◌, sym,
  ltb, ◌&&◌,
}
use xdna_npu_miner.Bpp9000.Types.{bytes_eq, bytes_eq_iff}
use xdna_npu_miner.Qubic.Work.{WorkContext, WorkContextTracker, observe, context_eq}
use xdna_npu_miner.Qubic.Work.Equality.{context_eq_iff}

-- `earlier` does not come after `later`: not in the epochs, nor in the ticks of one epoch and seed.
abbrev pub IsNotAfter : WorkContext → WorkContext → Type 0
IsNotAfter earlier later =
    (earlier.epoch ≤ later.epoch)
    × (earlier.epoch ≡ later.epoch
        → earlier.mining_seed ≡ later.mining_seed
        → earlier.tick ≤ later.tick)

-- What an observation of `incoming` makes of the context `current`: it keeps one of the two, and
-- neither comes after it.
abbrev pub Chooses : WorkContext → WorkContext → WorkContext → Type 0
Chooses current incoming chosen =
    ((chosen ≡ incoming) ⊎ (chosen ≡ current))
    × IsNotAfter current chosen
    × IsNotAfter incoming chosen

pub observe-Chooses :
    (current incoming : WorkContext)
    → (chosen : WorkContext) × ((observe (some current) incoming).1 ≡ some chosen)
      × Chooses current incoming chosen
unfolding observe
observe-Chooses current incoming = elim (Bool-cases (ltb incoming.epoch current.epoch)) [
  | inl older ↦ (
    current,
    rw older refl,
    (
      inr refl,
      (omega arith, λ _ _. omega arith),
      (ground (arith, older), λ e _. ground (arith, older, e)),
    ),
  )
  | inr newer ↦
      elim (Bool-cases (
        incoming.epoch == current.epoch
        && bytes_eq incoming.mining_seed current.mining_seed
        && ltb incoming.tick current.tick)) [
          | inl behind ↦ (
            current,
            rw (newer, behind) refl,
            (
              inr refl,
              (omega arith, λ _ _. omega arith),
              (ground (arith, behind), λ e _. ground (arith, behind, e)),
            ),
          )
          | inr ahead ↦ elim (Bool-cases (context_eq incoming current)) [
            | inl same ↦ (
              current,
              rw (newer, ahead, same) refl,
              (
                inr refl,
                (omega arith, λ _ _. omega arith),
                (
                  omega (arith, ap (λ c. c.epoch) ((context_eq_iff incoming current).0 same)),
                  λ _ _. omega (arith, ap (λ c. c.tick) ((context_eq_iff incoming current).0 same)),
                ),
              ),
            )
            | inr other ↦ (
              incoming,
              rw (newer, ahead, other) refl,
              (
                inl refl,
                (
                  ground (arith, newer),
                  λ e f. ground (
                    arith,
                    newer,
                    ahead,
                    e,
                    f,
                    bytes_eq_iff incoming.mining_seed current.mining_seed,
                  ),
                ),
                (omega arith, λ _ _. omega arith),
              ),
            )
          ]
        ]
]

-- The tracker after a sequence of observations.
abbrev pub observe_all : WorkContextTracker → List WorkContext → WorkContextTracker
observe_all tracker [] = tracker
observe_all tracker (incoming ∷ rest) = observe_all ((observe tracker incoming).1) rest

-- `observed` is no later than `current` in the epochs.
abbrev pub IsNotNewer : WorkContext → WorkContext → Type 0
IsNotNewer current observed = observed.epoch ≤ current.epoch

IsNotNewer-trans :
    (a b : WorkContext) (xs : List WorkContext)
    → a.epoch ≤ b.epoch
    → All (IsNotNewer a) xs
    → All (IsNotNewer b) xs
IsNotNewer-trans a b [] h all = tt
IsNotNewer-trans a b (x ∷ xs) h all = (omega (arith, all.0), IsNotNewer-trans a b xs h all.1)

-- Any property that holds of the context of a tracker and of every observed one holds of the one
-- that it ends with, whose epoch is the highest of them all.
pub tracker_lem :
    {P : WorkContext → Type 0} (current : WorkContext) (observed : List WorkContext)
    → P current
    → All P observed
    → (last : WorkContext) × (observe_all (some current) observed ≡ some last)
      × P last
      × (current.epoch ≤ last.epoch)
      × All (IsNotNewer last) observed
tracker_lem current [] p all = (current, refl, p, omega arith, tt)
tracker_lem {P = P} current (incoming ∷ rest) p all =
    let (chosen, step, (which, (before, _), (here, _))) = observe-Chooses current incoming in
    let q : P chosen = elim which [ inl e ↦ rw e (all.0) | inr e ↦ rw e p ] in
    let (last, run, r, up, others) = tracker_lem {P = P} chosen rest q all.1 in
    (last, rw step run, r, omega (arith, before, up), (omega (arith, here, up), others))

-- Within one epoch and seed the tick of the current context never goes back.
pub observe_tick_lem :
    (current incoming chosen : WorkContext)
    → (observe (some current) incoming).1 ≡ some chosen
    → current.epoch ≡ chosen.epoch
    → current.mining_seed ≡ chosen.mining_seed
    → (current.tick ≤ chosen.tick) × ((chosen ≡ incoming) ⊎ (chosen ≡ current))
observe_tick_lem current incoming chosen e epoch seed =
    let (found, step, (which, (_, before), _)) = observe-Chooses current incoming in
    let same : found ≡ chosen = cc (step, e) in
    rw (← same) (
      before (epoch ∙ ap (λ c. c.epoch) (sym same)) (seed ∙ ap (λ c. c.mining_seed) (sym same)),
      which,
    )
