-- ===== src/Prelude/Bits.antt =====
-- `|` of fields that share no binary digit.
use Prim.Native.Nat.{
  ℕ, zero, suc, ◌+◌, ◌*◌, ◌/◌, ◌^◌, ◌≤◌, ◌<◌, max, digits, bit_or, bit_or-bitwise,
}
use mathlib.Core.Path.{◌≡◌, ap}
use native.Mathlib.Nat.{pow-suc, le_refl}
use native.Mathlib.Omega.{arith}

-- The digits of a field of `k` bits and of one above it, with enough digits for the first.
digits-sum :
    (k fuel q r : ℕ) → r < 2 ^ k → r ≤ fuel → digits (λ y. y) max fuel r (q * 2 ^ k) ≡ r + q * 2 ^ k
digits-sum zero zero q zero fits enough = omega arith
digits-sum zero (suc fuel) q zero fits enough = omega arith
digits-sum zero fuel q (suc r) fits enough = absurd (omega arith)
digits-sum (suc k) zero q zero fits enough = omega arith
digits-sum (suc k) zero q (suc r) fits enough = absurd (omega arith)
digits-sum (suc k) (suc fuel) q zero fits enough = omega arith
digits-sum (suc k) (suc fuel) q (suc r) fits enough =
    let wide : q * 2 ^ suc k ≡ 2 * (q * 2 ^ k) =
      omega (arith, ap (λ (t : ℕ). q * t) (pow-suc 2 k)) in
    let half : q * 2 ^ suc k / 2 ≡ q * 2 ^ k = omega arith in
    let rest = digits-sum k fuel q (suc r / 2) (omega (arith, pow-suc 2 k)) (omega arith) in
    rw half (omega (arith, rest, wide))

-- `r | (q << k)` is a sum when `r` fits `k` bits.
pub bit_or_fields : (k q r : ℕ) → r < 2 ^ k → bit_or r (q * 2 ^ k) ≡ r + q * 2 ^ k
bit_or_fields k q r fits = simp bit_or-bitwise (digits-sum k r q r fits (le_refl r))
