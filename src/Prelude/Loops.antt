-- ===== src/Prelude/Loops.antt =====
-- Counted loops whose body may throw or fault, and their invariant rule.
use xdna_npu_miner.Prelude.Results.{Outcome, ok, ◌>>=◌}
use Prim.Native.Nat.{ℕ, zero, suc, ◌+◌, ◌<◌}
use mathlib.Core.Path.{◌≡◌, refl}
use native.Mathlib.Omega.{arith}

module _ {ℓ} {E : Type 0} {S : Type ℓ} where
  -- `for (k = i; k < i + n; ++k) s = body(k, s);`
  unfoldable pub for_range : ℕ → ℕ → (ℕ → S → Outcome E S) → S → Outcome E S
  for_range zero i body s = ok s
  for_range (suc n) i body s = do s' ← body i s; for_range n (i + 1) body s'

  -- Where every round succeeds and keeps the invariant, so does the loop.
  pub for_range_inv {κ} :
      (P : ℕ → S → Type κ) (body : ℕ → S → Outcome E S) (j : ℕ)
      → ((i : ℕ) (s : S) → i < j → P i s → (s' : S) × (body i s ≡ ok s') × P (i + 1) s')
      → (n i : ℕ) (s : S) → i + n ≡ j
      → P i s
      → (s' : S) × (for_range n i body s ≡ ok s') × P j s'
  unfolding for_range
  for_range_inv P body j keep zero i s e h = let e' : i ≡ j = omega arith in (s, refl, rw (← e') h)
  for_range_inv P body j keep (suc n) i s e h =
      let (s', run, h') = keep i s (omega arith) h in
      let (t, rest, q) = for_range_inv P body j keep n (i + 1) s' (omega arith) h' in
      (t, rw run rest, q)
