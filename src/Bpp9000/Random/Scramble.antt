-- ===== src/Bpp9000/Random/Scramble.antt =====
-- The last rounds of the generator lose nothing.
use xdna_npu_miner.Prelude.{ℕ, ◌*◌, ◌/◌, ◌^◌, ◌≡◌, bit_xor, arith}
use native.Mathlib.Nat.{div-le_self}
use xdna_npu_miner.Prelude.Xor.{xor_shift_inj, xor_bound}
use xdna_npu_miner.Prelude.Words.{IsU64, mul64, add64}
use xdna_npu_miner.Bpp9000.Random.{scramble}

-- Both factors are odd: the other is the inverse.
first_inj :
    (x y : ℕ) → IsU64 x → IsU64 y → mul64 x 0xbf58476d1ce4e5b9 ≡ mul64 y 0xbf58476d1ce4e5b9 → x ≡ y
first_inj x y h k e = omega (arith, e)

second_inj :
    (x y : ℕ) → IsU64 x → IsU64 y → mul64 x 0x94d049bb133111eb ≡ mul64 y 0x94d049bb133111eb → x ≡ y
second_inj x y h k e = omega (arith, e)

round_bound : (k x : ℕ) → IsU64 x → IsU64 (bit_xor x (x / 2 ^ k))
round_bound k x h = xor_bound 64 x (x / 2 ^ k) h (omega (arith, div-le_self x (2 ^ k)))

pub scramble_inj : (x y : ℕ) → IsU64 x → IsU64 y → scramble x ≡ scramble y → x ≡ y
unfolding scramble
scramble_inj x y h k e =
    let second = xor_shift_inj 30 _ _ e in
    let middle =
      second_inj _ _ (round_bound 27 _ (omega arith)) (round_bound 27 _ (omega arith)) second in
    let first = xor_shift_inj 26 _ _ middle in
    xor_shift_inj 29 x y (first_inj _ _ (round_bound 30 x h) (round_bound 30 y k) first)

-- The states of `next_word` are apart until the increment has been added 2 ^ 64 times.
pub states_apart :
    (start i j : ℕ)
    → IsU64 i
    → IsU64 j
    → add64 start (0x9e3779b97f4a7c15 * i) ≡ add64 start (0x9e3779b97f4a7c15 * j)
    → i ≡ j
states_apart start i j h k e = omega (arith, e)
