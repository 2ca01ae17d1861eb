-- ===== src/Qubic/Tests/Work.antt =====
-- Work contexts and authorization at concrete values.
use xdna_npu_miner.Prelude.{◌≤◌, ◌≡◌, ◌⊎◌, refl, arith, [], ◌∷◌, true, ok, some, All}
use xdna_npu_miner.Bpp9000.Types.{
  bytes_eq, is_zero, is_valid_mining_seed, is_canonical_nonce, production_shape,
}
use xdna_npu_miner.Qubic.Work.{WorkContext, make_work_context, observe, is_fresh, context_eq}
use xdna_npu_miner.Qubic.Work.Context.{IsWork, make_work_context_iff}
use xdna_npu_miner.Qubic.Work.Tracker.{observe_all, IsNotNewer, tracker_lem, observe_tick_lem}
use xdna_npu_miner.Qubic.Submission.{authorize_submission}
use xdna_npu_miner.Qubic.Submission.Authorized.{
  IsAuthorized, authorize_submission_iff, authorized-fresh,
}
use xdna_npu_miner.Qubic.Tests.{key_of, info, task, work, submission}

work-IsWork : IsWork work
unfolding is_valid_mining_seed is_zero production_shape
work-IsWork = (refl, refl, omega arith, omega arith, omega arith, refl, omega arith, omega arith)

make_work_context_iff_example : make_work_context info task 1 60 1000 ≡ ok work
unfolding production_shape
make_work_context_iff_example =
    (make_work_context_iff info task 1 60 1000 work).1 (work-IsWork, refl)

abbrev next_work : WorkContext
next_work = record work { epoch = 181; tick = 5 }

-- The next epoch, and after it a message of the last one.
tracker_lem_example :
    (last : WorkContext) × (observe_all (some work) (next_work ∷ work ∷ []) ≡ some last)
    × IsWork last
    × (work.epoch ≤ last.epoch)
    × All (IsNotNewer last) (next_work ∷ work ∷ [])
tracker_lem_example =
    tracker_lem {P = IsWork} work (next_work ∷ work ∷ []) work-IsWork
      (work-IsWork, (work-IsWork, tt))

abbrev later : WorkContext
later = record work { tick = 30000009 }

later-chosen : (observe (some work) later).1 ≡ some later
unfolding observe bytes_eq context_eq
later-chosen = refl

observe_tick_lem_example : (work.tick ≤ later.tick) × ((later ≡ later) ⊎ (later ≡ work))
observe_tick_lem_example = observe_tick_lem work later later later-chosen refl refl

submission-IsAuthorized : IsAuthorized submission work
unfolding is_valid_mining_seed is_zero is_canonical_nonce
submission-IsAuthorized = (
  refl,
  refl,
  refl,
  (refl, omega arith),
  refl,
  refl,
  refl,
  refl,
  refl,
  refl,
  refl,
  (λ e. absurd (omega (arith, e))),
  omega arith,
  omega arith,
  refl,
  refl,
  (record { public_key = key_of 3; secret = key_of 8 }, refl, refl),
)

authorize_submission_iff_example : (authorize_submission submission work).authorized ≡ true
authorize_submission_iff_example =
    (authorize_submission_iff submission work).1 submission-IsAuthorized

pub submission-authorized : (authorize_submission submission work).authorized ≡ true
submission-authorized = (authorize_submission_iff submission work).1 submission-IsAuthorized

authorized-fresh_example : is_fresh (some work) work ≡ true
authorized-fresh_example = authorized-fresh submission work submission-authorized
