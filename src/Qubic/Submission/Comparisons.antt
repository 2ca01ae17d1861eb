-- ===== src/Qubic/Submission/Comparisons.antt =====
-- What the comparisons of an authorization decide.
use xdna_npu_miner.Prelude.{◌≤◌, ◌≡◌, ◌↔◌, refl, true, false, arith, Option, some, none}
use xdna_npu_miner.Bpp9000.Types.{Bytes, bytes_eq_iff, ScoreResult, ScoreStatus, status_eq}
use xdna_npu_miner.Qubic.Work.{WorkContext, same_work_parameters, is_fresh}
use xdna_npu_miner.Qubic.Work.Equality.{identity_eq_iff}
use xdna_npu_miner.Qubic.Submission.{SigningMaterial, lacks_material, score_equal}

-- The work of the candidate is the current one, from an earlier tick at most.
abbrev pub IsCurrent : WorkContext → WorkContext → Type 0
IsCurrent candidate current =
    (record candidate { tick = current.tick } ≡ current) × (candidate.tick ≤ current.tick)

pub is_fresh_iff :
    (candidate current : WorkContext)
    → (is_fresh (some current) candidate ≡ true) ↔ IsCurrent candidate current
unfolding is_fresh same_work_parameters
is_fresh_iff candidate current = ground (
  arith,
  bytes_eq_iff candidate.mining_seed current.mining_seed,
  identity_eq_iff candidate.task current.task,
)

pub status_eq_iff : (a b : ScoreStatus) → (status_eq a b ≡ true) ↔ (a ≡ b)
status_eq_iff a b = ground arith

pub score_equal_iff : (a b : ScoreResult) → (score_equal a b ≡ true) ↔ (a ≡ b)
unfolding score_equal
score_equal_iff a b = ground (arith, status_eq_iff a.status b.status)

pub has_material_iff :
    (material : Option SigningMaterial) (source : Bytes)
    → (lacks_material material source ≡ false)
      ↔ ((m : SigningMaterial) × (material ≡ some m) × (m.public_key ≡ source))
unfolding lacks_material
has_material_iff none source = (λ e. cc, λ (m, e, _). cc)
has_material_iff (some m) source = (
  λ e. (m, refl, ground (arith, bytes_eq_iff m.public_key source, e)),
  λ (n, e, f). ground (arith, bytes_eq_iff m.public_key source, e, f),
)
