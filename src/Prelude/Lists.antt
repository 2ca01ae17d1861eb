-- ===== src/Prelude/Lists.antt =====
-- Lists measured and indexed by native numbers, under the library's names.
use Prim.Native.Nat.{ℕ, zero, suc, ◌+◌, ◌-◌, ◌≤◌, ◌<◌, min}
use mathlib.Core.Path.{◌≡◌, refl, ap, ◌∙◌}
use mathlib.Core.Logic.{◌≢◌}
use mathlib.Core.List.{List, [], ◌∷◌, ◌++◌, map}
use mathlib.Core.Option.{Option, none, some}
use native.Mathlib.Omega.{arith}

module _ {ℓ} {A : Type ℓ} where
  abbrev pub length : List A → ℕ
  length [] = 0
  length (x ∷ xs) = suc (length xs)

  abbrev pub get_elem? : List A → ℕ → Option A
  get_elem? [] i = none
  get_elem? (x ∷ xs) zero = some x
  get_elem? (x ∷ xs) (suc i) = get_elem? xs i

  -- A write out of bounds changes nothing.
  abbrev pub set : List A → ℕ → A → List A
  set [] i v = []
  set (x ∷ xs) zero v = v ∷ xs
  set (x ∷ xs) (suc i) v = x ∷ set xs i v

  pub length-append : (xs ys : List A) → length (xs ++ ys) ≡ length xs + length ys
  length-append [] ys = omega arith
  length-append (x ∷ xs) ys = omega (arith, length-append xs ys)

module _ {ℓ} {A : Type ℓ} where
  pub length-set : (xs : List A) (i : ℕ) (v : A) → length (set xs i v) ≡ length xs
  length-set [] i v = refl
  length-set (x ∷ xs) zero v = refl
  length-set (x ∷ xs) (suc i) v = ap suc (length-set xs i v)

  pub get_elem?-set_self :
      (xs : List A) (i : ℕ) (v : A) → i < length xs → get_elem? (set xs i v) i ≡ some v
  get_elem?-set_self [] i v h = elim h [ ]
  get_elem?-set_self (x ∷ xs) zero v h = refl
  get_elem?-set_self (x ∷ xs) (suc i) v h = get_elem?-set_self xs i v (omega arith)

  pub get_elem?-set_ne :
      (xs : List A) {i j : ℕ} (v : A) → i ≢ j → get_elem? (set xs i v) j ≡ get_elem? xs j
  get_elem?-set_ne [] v h = refl
  get_elem?-set_ne (x ∷ xs) {i = zero} {j = zero} v h = absurd (h refl)
  get_elem?-set_ne (x ∷ xs) {i = zero} {j = suc j} v h = refl
  get_elem?-set_ne (x ∷ xs) {i = suc i} {j = zero} v h = refl
  get_elem?-set_ne (x ∷ xs) {i = suc i} {j = suc j} v h = get_elem?-set_ne xs v (λ e. h (ap suc e))

module _ {ℓ} {A : Type ℓ} where
  abbrev pub get_or : List A → ℕ → A → A
  get_or [] i d = d
  get_or (x ∷ xs) zero d = x
  get_or (x ∷ xs) (suc i) d = get_or xs i d

  abbrev pub take : ℕ → List A → List A
  take zero xs = []
  take (suc n) [] = []
  take (suc n) (x ∷ xs) = x ∷ take n xs

  abbrev pub drop : ℕ → List A → List A
  drop zero xs = xs
  drop (suc n) [] = []
  drop (suc n) (x ∷ xs) = drop n xs

  abbrev pub replicate : ℕ → A → List A
  replicate zero a = []
  replicate (suc n) a = a ∷ replicate n a

  pub take-append-drop : (n : ℕ) (xs : List A) → take n xs ++ drop n xs ≡ xs
  take-append-drop zero xs = refl
  take-append-drop (suc n) [] = refl
  take-append-drop (suc n) (x ∷ xs) = rw (take-append-drop n xs)

  pub length-take : (n : ℕ) (xs : List A) → length (take n xs) ≡ min n (length xs)
  length-take zero xs = omega arith
  length-take (suc n) [] = omega arith
  length-take (suc n) (x ∷ xs) = omega (arith, length-take n xs)

  pub length-drop : (n : ℕ) (xs : List A) → length (drop n xs) ≡ length xs - n
  length-drop zero xs = omega arith
  length-drop (suc n) [] = omega arith
  length-drop (suc n) (x ∷ xs) = omega (arith, length-drop n xs)

  pub length-replicate : (n : ℕ) (a : A) → length (replicate n a) ≡ n
  length-replicate zero a = refl
  length-replicate (suc n) a = ap suc (length-replicate n a)

  pub length-map {κ} : {B : Type κ} (xs : List A) (f : A → B) → length (map f xs) ≡ length xs
  length-map [] f = refl
  length-map (x ∷ xs) f = ap suc (length-map xs f)

  pub get_or-set_self :
      (xs : List A) (i : ℕ) (v d : A) → i < length xs → get_or (set xs i v) i d ≡ v
  get_or-set_self [] i v d h = elim h [ ]
  get_or-set_self (x ∷ xs) zero v d h = refl
  get_or-set_self (x ∷ xs) (suc i) v d h = get_or-set_self xs i v d (omega arith)

  pub get_or-set_ne :
      (xs : List A) (i j : ℕ) (v d : A) → i ≢ j → get_or (set xs i v) j d ≡ get_or xs j d
  get_or-set_ne [] i j v d h = refl
  get_or-set_ne (x ∷ xs) zero zero v d h = absurd (h refl)
  get_or-set_ne (x ∷ xs) zero (suc j) v d h = refl
  get_or-set_ne (x ∷ xs) (suc i) zero v d h = refl
  get_or-set_ne (x ∷ xs) (suc i) (suc j) v d h = get_or-set_ne xs i j v d (λ e. h (ap suc e))

  pub get_or-replicate : (n i : ℕ) (a d : A) → i < n → get_or (replicate n a) i d ≡ a
  get_or-replicate zero i a d h = elim h [ ]
  get_or-replicate (suc n) zero a d h = refl
  get_or-replicate (suc n) (suc i) a d h = get_or-replicate n i a d (omega arith)

  -- Lists of one length that agree at every index are equal.
  pub list_ext :
      (xs ys : List A) (d : A)
      → length xs ≡ length ys
      → ((i : ℕ) → i < length xs → get_or xs i d ≡ get_or ys i d)
      → xs ≡ ys
  list_ext [] [] d e h = refl
  list_ext [] (y ∷ ys) d e h = absurd (omega (arith, e))
  list_ext (x ∷ xs) [] d e h = absurd (omega (arith, e))
  list_ext (x ∷ xs) (y ∷ ys) d e h =
      cc
        (h zero (omega arith), list_ext xs ys d (omega (arith, e)) (λ i p. h (suc i) (omega arith)))

  pub set-set_same : (xs : List A) (i : ℕ) (v w : A) → set (set xs i v) i w ≡ set xs i w
  set-set_same [] i v w = refl
  set-set_same (x ∷ xs) zero v w = refl
  set-set_same (x ∷ xs) (suc i) v w = ap (λ t. x ∷ t) (set-set_same xs i v w)

  -- Writing back what is there changes nothing.
  pub set-get_or : (xs : List A) (i : ℕ) (d : A) → set xs i (get_or xs i d) ≡ xs
  set-get_or [] i d = refl
  set-get_or (x ∷ xs) zero d = refl
  set-get_or (x ∷ xs) (suc i) d = ap (λ t. x ∷ t) (set-get_or xs i d)

  pub get_or-append_left :
      (xs ys : List A) (i : ℕ) (d : A) → i < length xs → get_or (xs ++ ys) i d ≡ get_or xs i d
  get_or-append_left [] ys i d h = elim h [ ]
  get_or-append_left (x ∷ xs) ys zero d h = refl
  get_or-append_left (x ∷ xs) ys (suc i) d h = get_or-append_left xs ys i d (omega arith)

  pub get_or-append_right :
      (xs ys : List A) (i : ℕ) (d : A) → get_or (xs ++ ys) (length xs + i) d ≡ get_or ys i d
  get_or-append_right [] ys i d = let e : 0 + i ≡ i = omega arith in rw e
  get_or-append_right (x ∷ xs) ys i d =
      let e : suc (length xs) + i ≡ suc (length xs + i) = omega arith in
      rw e (get_or-append_right xs ys i d)

  -- A property of every entry, by recursion, and its reading by index.
  abbrev pub All {κ} : (A → Type κ) → List A → Type κ
  All P [] = Unit
  All P (x ∷ xs) = P x × All P xs

  pub All-get_or {κ} :
      (P : A → Type κ) (xs : List A) (i : ℕ) (d : A) → All P xs → i < length xs → P (get_or xs i d)
  All-get_or P [] i d a h = elim h [ ]
  All-get_or P (x ∷ xs) zero d a h = a.0
  All-get_or P (x ∷ xs) (suc i) d a h = All-get_or P xs i d a.1 (omega arith)

  pub All-append {κ} : (P : A → Type κ) (xs ys : List A) → All P xs → All P ys → All P (xs ++ ys)
  All-append P [] ys a b = b
  All-append P (x ∷ xs) ys a b = (a.0, All-append P xs ys a.1 b)

  pub All-of-get_or {κ} :
      (P : A → Type κ) (xs : List A) (d : A)
      → ((i : ℕ) → i < length xs → P (get_or xs i d))
      → All P xs
  All-of-get_or P [] d h = tt
  All-of-get_or P (x ∷ xs) d h =
      (h zero (omega arith), All-of-get_or P xs d (λ i p. h (suc i) (omega arith)))

-- `[k, k + 1, …]`, `n` numbers.
abbrev pub range : ℕ → ℕ → List ℕ
range k zero = []
range k (suc n) = k ∷ range (k + 1) n

pub length-range : (k n : ℕ) → length (range k n) ≡ n
length-range k zero = refl
length-range k (suc n) = ap suc (length-range (k + 1) n)

pub get_or-map-range {ℓ} :
    {A : Type ℓ} (f : ℕ → A) (k n i : ℕ) (d : A)
    → i < n
    → get_or (map f (range k n)) i d ≡ f (k + i)
get_or-map-range f k zero i d h = elim h [ ]
get_or-map-range f k (suc n) zero d h = ap f (omega arith)
get_or-map-range f k (suc n) (suc i) d h =
    get_or-map-range f (k + 1) n i d (omega arith) ∙ ap f (omega arith)

module _ {ℓ} {A : Type ℓ} where
  pub get_or-snoc : (xs : List A) (x d : A) → get_or (xs ++ (x ∷ [])) (length xs) d ≡ x
  get_or-snoc [] x d = refl
  get_or-snoc (y ∷ xs) x d = get_or-snoc xs x d

  pub All-zip {κ μ ν} :
      {P : A → Type κ} {Q : A → Type μ} {R : A → Type ν} (xs : List A)
      → ((a : A) → P a → Q a → R a)
      → All P xs
      → All Q xs
      → All R xs
  All-zip [] f p q = tt
  All-zip (x ∷ xs) f p q = (f x p.0 q.0, All-zip xs f p.1 q.1)

  pub All-every {κ} : {P : A → Type κ} (xs : List A) → ((a : A) → P a) → All P xs
  All-every [] f = tt
  All-every (x ∷ xs) f = (f x, All-every xs f)

  pub map-const {κ} : {B : Type κ} (xs : List B) (a : A) → map (λ _. a) xs ≡ replicate (length xs) a
  map-const [] a = refl
  map-const (x ∷ xs) a = ap (λ t. a ∷ t) (map-const xs a)

  pub All-replicate {κ} : (P : A → Type κ) (n : ℕ) (a : A) → P a → All P (replicate n a)
  All-replicate P zero a p = tt
  All-replicate P (suc n) a p = (p, All-replicate P n a p)

  pub All-set {κ} :
      (P : A → Type κ) (xs : List A) (i : ℕ) (a : A) → All P xs → P a → All P (set xs i a)
  All-set P [] i a h p = tt
  All-set P (x ∷ xs) zero a h p = (p, h.1)
  All-set P (x ∷ xs) (suc i) a h p = (h.0, All-set P xs i a h.1 p)

  pub drop_step :
      (xs : List A) (i : ℕ) (d : A) → i < length xs → drop i xs ≡ get_or xs i d ∷ drop (suc i) xs
  drop_step [] i d h = elim h [ ]
  drop_step (x ∷ xs) zero d h = refl
  drop_step (x ∷ xs) (suc i) d h = drop_step xs i d (omega arith)

  pub drop_all : (xs : List A) (n : ℕ) → length xs ≤ n → drop n xs ≡ []
  drop_all [] zero h = refl
  drop_all [] (suc n) h = refl
  drop_all (x ∷ xs) zero h = absurd (omega arith)
  drop_all (x ∷ xs) (suc n) h = drop_all xs n (omega arith)

  pub drop-append : (xs ys : List A) (n : ℕ) → length xs ≡ n → drop n (xs ++ ys) ≡ ys
  drop-append [] ys zero e = refl
  drop-append [] ys (suc n) e = absurd (omega (arith, e))
  drop-append (x ∷ xs) ys zero e = absurd (omega (arith, e))
  drop-append (x ∷ xs) ys (suc n) e = drop-append xs ys n (omega (arith, e))

  pub take-append : (xs ys : List A) (n : ℕ) → length xs ≡ n → take n (xs ++ ys) ≡ xs
  take-append [] ys zero e = refl
  take-append [] ys (suc n) e = absurd (omega (arith, e))
  take-append (x ∷ xs) ys zero e = absurd (omega (arith, e))
  take-append (x ∷ xs) ys (suc n) e = rw (take-append xs ys n (omega (arith, e))) refl

  pub drop-drop : (m n : ℕ) (xs : List A) → drop n (drop m xs) ≡ drop (m + n) xs
  drop-drop zero n xs = let e : 0 + n ≡ n = omega arith in rw e refl
  drop-drop (suc m) zero [] = let e : suc m + 0 ≡ suc m = omega arith in rw e refl
  drop-drop (suc m) (suc n) [] = let e : suc m + suc n ≡ suc (m + suc n) = omega arith in rw e refl
  drop-drop (suc m) n (x ∷ xs) =
      let e : suc m + n ≡ suc (m + n) = omega arith in rw e (drop-drop m n xs)

  pub take_all : (xs : List A) (n : ℕ) → length xs ≡ n → take n xs ≡ xs
  take_all [] zero e = refl
  take_all [] (suc n) e = refl
  take_all (x ∷ xs) zero e = absurd (omega (arith, e))
  take_all (x ∷ xs) (suc n) e = rw (take_all xs n (omega (arith, e))) refl
