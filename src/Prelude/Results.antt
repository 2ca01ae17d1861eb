-- ===== src/Prelude/Results.antt =====
-- What a call gives: a value, a thrown error, or undefined behaviour. C++ leaves an index out of
-- range undefined, and the models keep that apart from the errors that the code throws on purpose.
use Prim.Native.Nat.{ℕ, zero, suc, ◌<◌}
use xdna_npu_miner.Prelude.Tests.{ltb, if◌then◌else◌}
use xdna_npu_miner.Prelude.Lists.{length, get_elem?, get_or, set}
use mathlib.Core.Path.{◌≡◌, refl}
use mathlib.Core.Bool.{Bool, true, false}
use mathlib.Core.List.{List, [], ◌∷◌}
use mathlib.Core.Option.{Option, none, some}
use native.Mathlib.Omega.{arith}

pub data Outcome {ℓ} (E : Type 0) (A : Type ℓ) : Type ℓ where
  ok : A → Outcome E A
  err : E → Outcome E A
  fault : Outcome E A

-- `if (bad) throw e;`
abbrev pub throw_if : {E : Type 0} → Bool → E → Outcome E (Unit {0})
throw_if false e = ok tt
throw_if true e = err e

infixl 5 ◌>>=◌ ◌>>◌
abbrev pub ◌>>=◌ {ℓ κ} :
    {E : Type 0} {A : Type ℓ} {B : Type κ} → Outcome E A → (A → Outcome E B) → Outcome E B
fault >>= next = fault
err thrown >>= next = err thrown
ok value >>= next = next value

abbrev pub ◌>>◌ {ℓ} : {E : Type 0} {B : Type ℓ} → Outcome E (Unit {0}) → Outcome E B → Outcome E B
first >> second = first >>= λ _. second

abbrev pub from_option {ℓ} : {E : Type 0} {A : Type ℓ} → Option A → Outcome E A
from_option none = fault
from_option (some a) = ok a

module _ {ℓ} {E : Type 0} {A : Type ℓ} where
  -- `v[i]`, undefined out of range.
  unfoldable pub get : List A → ℕ → Outcome E A
  get xs i = from_option (get_elem? xs i)

  -- `v[i] = a`, undefined out of range.
  unfoldable pub put : List A → ℕ → A → Outcome E (List A)
  put xs i a = if ltb i (length xs) then ok (set xs i a) else fault

  pub get_in_range : (xs : List A) (i : ℕ) (d : A) → i < length xs → get xs i ≡ ok (get_or xs i d)
  unfolding get
  get_in_range [] i d h = elim h [ ]
  get_in_range (x ∷ xs) zero d h = refl
  get_in_range (x ∷ xs) (suc i) d h = unfold get in get_in_range xs i d (omega arith)

  pub put_in_range : (xs : List A) (i : ℕ) (a : A) → i < length xs → put xs i a ≡ ok (set xs i a)
  unfolding put
  put_in_range xs i a h = ground arith

  -- A read that succeeds was in range.
  pub get-ok :
      (xs : List A) (i : ℕ) (d : A) {a : A}
      → get xs i ≡ ok a
      → (i < length xs) × (a ≡ get_or xs i d)
  unfolding get
  get-ok [] i d e = cc
  get-ok (x ∷ xs) zero d e = (omega arith, cc)
  get-ok (x ∷ xs) (suc i) d e = let r = get-ok xs i d e in (omega arith, r.1)

-- A guard that was passed, and what came after it.
pub passed {ℓ} :
    {E : Type 0} {B : Type ℓ} (b : Bool) (e : E) (k : Outcome E B) {r : B}
    → (throw_if b e >> k) ≡ ok r
    → (b ≡ false) × (k ≡ ok r)
passed true e k h = cc
passed false e k h = (refl, h)

-- Outcomes go on in the same way where the rest does.
pub bind_ext {ℓ κ} :
    {E : Type 0} {A : Type ℓ} {B : Type κ} (m : Outcome E A) (f g : A → Outcome E B)
    → ((a : A) → f a ≡ g a)
    → (m >>= f) ≡ (m >>= g)
bind_ext fault f g h = refl
bind_ext (err e) f g h = refl
bind_ext (ok a) f g h = h a

pub bind-ok {ℓ} : {E : Type 0} {A : Type ℓ} (m : Outcome E A) → (m >>= ok) ≡ m
bind-ok fault = refl
bind-ok (err e) = refl
bind-ok (ok a) = refl

pub bind_assoc {ℓ κ μ} :
    {E : Type 0} {A : Type ℓ} {B : Type κ} {C : Type μ} (m : Outcome E A) (f : A → Outcome E B)
    (g : B → Outcome E C)
    → ((m >>= f) >>= g) ≡ (m >>= λ a. f a >>= g)
bind_assoc fault f g = refl
bind_assoc (err e) f g = refl
bind_assoc (ok a) f g = refl

-- A chain that gives a value went through one.
pub bind-inv {ℓ κ} :
    {E : Type 0} {A : Type ℓ} {B : Type κ} (m : Outcome E A) (f : A → Outcome E B) {b : B}
    → (m >>= f) ≡ ok b
    → (a : A) × (m ≡ ok a) × (f a ≡ ok b)
bind-inv fault f h = cc
bind-inv (err e) f h = cc
bind-inv (ok a) f h = (a, refl, h)

pub ok-inj {ℓ} : {E : Type 0} {A : Type ℓ} {a b : A} → ◌≡◌ {A = Outcome E A} (ok a) (ok b) → a ≡ b
ok-inj e = cc
