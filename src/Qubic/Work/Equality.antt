-- ===== src/Qubic/Work/Equality.antt =====
-- The comparisons of work contexts decide equality.
use xdna_npu_miner.Prelude.{◌≡◌, ◌↔◌, refl, Bool, true, false, ◌&&◌, arith}
use xdna_npu_miner.Bpp9000.Types.{bytes_eq_iff, TaskShape, shape_eq}
use xdna_npu_miner.Qubic.Work.{TaskIdentity, identity_eq, WorkContext, context_eq}

pub and-true : (a b : Bool) → (a && b) ≡ true → (a ≡ true) × (b ≡ true)
and-true true b h = (refl, h)
and-true false b h = cc

shape_eq_iff : (a b : TaskShape) → (shape_eq a b ≡ true) ↔ (a ≡ b)
unfolding shape_eq
shape_eq_iff a b = ground arith

pub identity_eq_iff : (a b : TaskIdentity) → (identity_eq a b ≡ true) ↔ (a ≡ b)
unfolding identity_eq
identity_eq_iff a b = ground (
  arith,
  shape_eq_iff a.shape b.shape,
  bytes_eq_iff a.topology_hash b.topology_hash,
  bytes_eq_iff a.data_hash b.data_hash,
)

pub context_eq_iff : (a b : WorkContext) → (context_eq a b ≡ true) ↔ (a ≡ b)
unfolding context_eq
context_eq_iff a b =
    ground (arith, bytes_eq_iff a.mining_seed b.mining_seed, identity_eq_iff a.task b.task)
