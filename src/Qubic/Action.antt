-- ===== src/Qubic/Action.antt =====
-- Code that acts on a state and may throw: the state is kept when it does, for a handler to go on
-- from. It models no code of its own.
pub mod Triple
use xdna_npu_miner.Prelude.{Outcome, ok, err, fault, Bool, true, false}
use xdna_npu_miner.Qubic.Types.{Thrown}

abbrev pub Action : Type 0 → Type 0 → Type 0
Action S A = S → Outcome Thrown A × S

module _ {S : Type 0} where
  -- Code that leaves the state alone.
  unfoldable pub lift : {A : Type 0} → Outcome Thrown A → Action S A
  lift outcome s = (outcome, s)

  unfoldable pub throw_when : Bool → Thrown → Action S (Unit {0})
  throw_when true thrown s = (err thrown, s)
  throw_when false thrown s = (ok tt, s)

  module _ {A B : Type 0} where
    abbrev pub and_then : Outcome Thrown A × S → (A → Action S B) → Outcome Thrown B × S
    and_then (ok a, s) rest = rest a s
    and_then (err thrown, s) rest = (err thrown, s)
    and_then (fault, s) rest = (fault, s)

  infixl 5 ◌>>=◌ ◌>>◌
  unfoldable pub ◌>>=◌ : {A B : Type 0} → Action S A → (A → Action S B) → Action S B
  (first >>= rest) s = and_then (first s) rest

  abbrev pub ◌>>◌ : {A : Type 0} → Action S (Unit {0}) → Action S A → Action S A
  first >> second = first >>= λ _. second

  module _ {A : Type 0} where
    abbrev pub or_else : Outcome Thrown A × S → (Thrown → Action S A) → Outcome Thrown A × S
    or_else (ok a, s) handler = (ok a, s)
    or_else (err thrown, s) handler = handler thrown s
    or_else (fault, s) handler = (fault, s)

    -- `try { ... } catch ...`
    unfoldable pub try_catch : Action S A → (Thrown → Action S A) → Action S A
    try_catch body handler s = or_else (body s) handler

    -- `last` is a destructor that runs on each way out.
    unfoldable pub finally : Action S A → (S → S) → Action S A
    finally body last s = ((body s).0, last ((body s).1))
