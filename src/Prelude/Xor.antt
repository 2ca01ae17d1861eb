-- ===== src/Prelude/Xor.antt =====
-- `^` of the same number twice.
use Prim.Native.Nat.{
  ℕ, zero, suc, ◌+◌, ◌*◌, ◌/◌, ◌%◌, ◌≤◌, ◌<◌, ◌^◌, digits, differ, bit_xor, bit_xor-bitwise,
}
use mathlib.Core.Path.{◌≡◌, refl, sym, ap, ◌∙◌}
use native.Mathlib.Nat.{le_refl, pow-suc, pow-succ', div-div-eq-div-mul, mul_comm}
use native.Mathlib.Omega.{arith}

-- Digits to go beyond those of the first number change nothing.
digits_enough :
    (n m a b : ℕ) → a ≤ n → a ≤ m → digits (λ y. y) differ n a b ≡ digits (λ y. y) differ m a b
digits_enough zero zero zero b h k = refl
digits_enough zero (suc m) zero b h k = refl
digits_enough (suc n) zero zero b h k = refl
digits_enough (suc n) (suc m) zero b h k = refl
digits_enough zero m (suc a) b h k = absurd (omega arith)
digits_enough (suc n) zero (suc a) b h k = absurd (omega arith)
digits_enough (suc n) (suc m) (suc a) b h k =
    rw (digits_enough n m (suc a / 2) (b / 2) (omega arith) (omega arith)) refl

-- `^` digit by digit.
xor_step : (a b : ℕ) → bit_xor a b ≡ bit_xor (a / 2) (b / 2) * 2 + differ (a % 2) (b % 2)
xor_step zero b = simp bit_xor-bitwise (omega arith)
xor_step (suc a) b = simp bit_xor-bitwise (
    ap (λ (t : ℕ). t * 2 + differ (suc a % 2) (b % 2))
      (digits_enough a (suc a / 2) (suc a / 2) (b / 2) (omega arith) (le_refl (suc a / 2))))

differ_bound : (x y : ℕ) → x < 2 → y < 2 → differ x y < 2
differ_bound zero y h k = k
differ_bound (suc x) zero h k = h
differ_bound (suc x) (suc y) h k = differ_bound x y (omega arith) (omega arith)

differ_cancel : (x y : ℕ) → x < 2 → y < 2 → differ (differ x y) y ≡ x
differ_cancel zero zero h k = refl
differ_cancel (suc x) zero h k = refl
differ_cancel zero (suc y) h k = let e : y ≡ 0 = omega arith in rw e refl
differ_cancel (suc x) (suc y) h k =
    let e : y ≡ 0 = omega arith in let f : x ≡ 0 = omega arith in rw (e, f) refl

cancel_below : (n a b : ℕ) → a ≤ n → b ≤ n → bit_xor (bit_xor a b) b ≡ a
cancel_below zero a b h k =
    let e : a ≡ 0 = omega arith in let f : b ≡ 0 = omega arith in rw (e, f) refl
cancel_below (suc n) a b h k =
    let step = xor_step a b in
    let bit = differ_bound (a % 2) (b % 2) (omega arith) (omega arith) in
    let half : bit_xor a b / 2 ≡ bit_xor (a / 2) (b / 2) = omega (arith, step, bit) in
    let low : bit_xor a b % 2 ≡ differ (a % 2) (b % 2) = omega (arith, step, bit) in
    let rest = cancel_below n (a / 2) (b / 2) (omega arith) (omega arith) in
    xor_step (bit_xor a b) b
    ∙ rw (half, low, rest, differ_cancel (a % 2) (b % 2) (omega arith) (omega arith)) (omega arith)

-- `a ^ b ^ b` is `a`.
pub xor_cancel : (a b : ℕ) → bit_xor (bit_xor a b) b ≡ a
xor_cancel a b = cancel_below (a + b) a b (omega arith) (omega arith)

-- Shifting and bounding digit by digit, and undoing `x ^ (x >> k)`.

half_xor : (a b : ℕ) → bit_xor a b / 2 ≡ bit_xor (a / 2) (b / 2)
half_xor a b = omega (arith, xor_step a b, differ_bound (a % 2) (b % 2) (omega arith) (omega arith))

low_xor : (a b : ℕ) → bit_xor a b % 2 ≡ differ (a % 2) (b % 2)
low_xor a b = omega (arith, xor_step a b, differ_bound (a % 2) (b % 2) (omega arith) (omega arith))

-- `^` stays within the width of its arguments.
pub xor_bound : (w a b : ℕ) → a < 2 ^ w → b < 2 ^ w → bit_xor a b < 2 ^ w
xor_bound zero a b h k =
    let e : a ≡ 0 = omega arith in let f : b ≡ 0 = omega arith in rw (e, f) (omega arith)
xor_bound (suc w) a b h k =
    let p = pow-suc 2 w in
    let rest = xor_bound w (a / 2) (b / 2) (omega (arith, p)) (omega (arith, p)) in
    omega (arith, p, half_xor a b, rest)

half_shift : (k x : ℕ) → x / 2 ^ suc k ≡ x / 2 / 2 ^ k
half_shift k x = rw (pow-succ' 2 k) (sym (div-div-eq-div-mul x 2 (2 ^ k)))

differ_inj : (x y c : ℕ) → x < 2 → y < 2 → c < 2 → differ x c ≡ differ y c → x ≡ y
differ_inj x y c h k l e =
    sym (differ_cancel x c h l) ∙ ap (λ (t : ℕ). differ t c) e ∙ differ_cancel y c k l

xor_shift_below :
    (n k x y : ℕ) → x ≤ n → y ≤ n → bit_xor x (x / 2 ^ suc k) ≡ bit_xor y (y / 2 ^ suc k) → x ≡ y
xor_shift_below zero k x y h l e = omega arith
xor_shift_below (suc n) k x y h l e =
    let halves =
      half_of x
      ∙ sym (half_xor x (x / 2 ^ suc k))
      ∙ ap (λ (t : ℕ). t / 2) e
      ∙ half_xor y (y / 2 ^ suc k)
      ∙ sym (half_of y) in
    let half : x / 2 ≡ y / 2 =
      xor_shift_below n k (x / 2) (y / 2) (omega arith) (omega arith) halves in
    let high : y / 2 ^ suc k ≡ x / 2 ^ suc k = rw (half_shift k x, half_shift k y, half) refl in
    let lows =
      sym (low_xor x (x / 2 ^ suc k))
      ∙ ap (λ (t : ℕ). t % 2) e
      ∙ low_xor y (y / 2 ^ suc k)
      ∙ ap (λ (t : ℕ). differ (y % 2) (t % 2)) high in
    omega (
      arith,
      half,
      differ_inj (x % 2) (y % 2) (x / 2 ^ suc k % 2) (omega arith) (omega arith) (omega arith) lows,
    )
  where
    half_of : (z : ℕ) → bit_xor (z / 2) (z / 2 / 2 ^ suc k) ≡ bit_xor (z / 2) (z / 2 ^ suc k / 2)
    half_of z = ap (bit_xor (z / 2)) (
        div-div-eq-div-mul z 2 (2 ^ suc k)
        ∙ rw (mul_comm 2 (2 ^ suc k)) (sym (div-div-eq-div-mul z (2 ^ suc k) 2)))

-- `x ^ (x >> k)` loses nothing.
pub xor_shift_inj : (k x y : ℕ) → bit_xor x (x / 2 ^ suc k) ≡ bit_xor y (y / 2 ^ suc k) → x ≡ y
xor_shift_inj k x y e = xor_shift_below (x + y) k x y (omega arith) (omega arith) e
