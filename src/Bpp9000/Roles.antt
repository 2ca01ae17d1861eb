-- ===== src/Bpp9000/Roles.antt =====
-- The role checks that src/bpp9000/task.cpp and src/bpp9000/reference.cpp share, and what they
-- establish: indices in range, no index twice.
use xdna_npu_miner.Prelude.{
  ℕ, zero, suc, ◌≤◌, ◌<◌, ◌≡◌, refl, sym, All-zip, ◌∙◌, ◌≢◌, Bool, true, false, ◌||◌, List, [], ◌∷◌,
  Option, none, some, arith, leb, ◌==◌, length, get_or, set, replicate, All, Bool-cases,
  if◌then◌else◌, inl, inr, length-set, get_or-set_self, get_or-set_ne, get_or-replicate,
}

-- The loop `for (neuron : neurons) { if (neuron >= population || seen[neuron]) fail; seen[neuron]
-- = true; }`. `seen` holds `population` flags, so the second test is made in range.
unfoldable pub claim_roles : ℕ → List ℕ → List Bool → Option (List Bool)
claim_roles population [] seen = some seen
claim_roles population (neuron ∷ rest) seen =
    let later = claim_roles population rest (set seen neuron true) in
    if leb population neuron || get_or seen neuron false then none else later

-- `std::find(neurons, neuron) != end`.
unfoldable pub is_member : List ℕ → ℕ → Bool
is_member [] neuron = false
is_member (x ∷ xs) neuron = let rest = is_member xs neuron in if x == neuron then true else rest

-- The loop `for (neighbor : neighbors) if (neighbor >= population) fail;`.
unfoldable pub all_below : ℕ → List ℕ → Bool
all_below bound [] = true
all_below bound (x ∷ xs) = let rest = all_below bound xs in if leb bound x then false else rest

-- The loop over trits that fails at an invalid one.
unfoldable pub all_valid_trits : List ℕ → Bool
all_valid_trits [] = true
all_valid_trits (x ∷ xs) = let rest = all_valid_trits xs in if leb x 2 then rest else false

pub all_below-All : (bound : ℕ) (xs : List ℕ) → all_below bound xs ≡ true → All (λ x. x < bound) xs
unfolding all_below
all_below-All bound [] h = tt
all_below-All bound (x ∷ xs) h = ground (arith, all_below-All bound xs)

pub all_valid_trits-All : (xs : List ℕ) → all_valid_trits xs ≡ true → All (λ x. x ≤ 2) xs
unfolding all_valid_trits
all_valid_trits-All [] h = tt
all_valid_trits-All (x ∷ xs) h = ground (arith, all_valid_trits-All xs)

-- No entry stands twice, and every entry is below the bound.
abbrev pub NotIn : ℕ → List ℕ → Type 0
NotIn n xs = All (λ x. x ≢ n) xs

abbrev pub IsDistinct : List ℕ → Type 0
IsDistinct [] = Unit {0}
IsDistinct (x ∷ xs) = NotIn x xs × IsDistinct xs

pub is_member-NotIn : (xs : List ℕ) (n : ℕ) → NotIn n xs → is_member xs n ≡ false
unfolding is_member
is_member-NotIn [] n h = refl
is_member-NotIn (x ∷ xs) n h = ground (arith, is_member-NotIn xs n h.1)

pub NotIn-is_member : (xs : List ℕ) (n : ℕ) → is_member xs n ≡ false → NotIn n xs
unfolding is_member
NotIn-is_member [] n h = tt
NotIn-is_member (x ∷ xs) n h = ground (arith, NotIn-is_member xs n)

-- Where the loop ends, each neuron was in range and free, and is marked now.
pub record Claimed (population : ℕ) (neurons : List ℕ) (seen seen' : List Bool) : Type 0 where
  pub in_range : All (λ n. n < population) neurons
  pub distinct : IsDistinct neurons
  pub size : length seen' ≡ length seen
  pub kept : (n : ℕ) → get_or seen n false ≡ true → NotIn n neurons × (get_or seen' n false ≡ true)
  pub marked : (n : ℕ) → is_member neurons n ≡ true → get_or seen' n false ≡ true
  pub others : (n : ℕ) → NotIn n neurons → get_or seen' n false ≡ get_or seen n false

pub claim_roles-Claimed :
    (population : ℕ) (neurons : List ℕ) (seen : List Bool) {seen' : List Bool}
    → length seen ≡ population
    → claim_roles population neurons seen ≡ some seen'
    → Claimed population neurons seen seen'
unfolding claim_roles is_member
claim_roles-Claimed population [] seen {seen'} e h = record {
  in_range = tt;
  distinct = tt;
  size = ground arith;
  kept = λ n p. (tt, ground arith);
  marked = λ n p. cc;
  others = λ n p. ground arith;
}
claim_roles-Claimed population (x ∷ xs) seen {seen'} e h =
    let x_free : (x < population)
        × (get_or seen x false ≡ false)
        × (claim_roles population xs (set seen x true) ≡ some seen') =
      ground arith in
    let c =
      claim_roles-Claimed population xs (set seen x true) (length-set seen x true ∙ e) x_free.2 in
    let x_set = get_or-set_self seen x true false (omega (arith, x_free.0, e)) in
    record {
      in_range = (x_free.0, c.in_range);
      distinct = ((c.kept x x_set).0, c.distinct);
      size = c.size ∙ length-set seen x true;
      kept = λ n p.
          let ne : x ≢ n = λ q. ground (arith, x_free.1) in
          let k = c.kept n (get_or-set_ne seen x n true false ne ∙ p) in ((ne, k.0), k.1);
      marked = λ n p. elim (Bool-cases (x == n)) [
        | inl q ↦ let e' : x ≡ n = ground arith in rw (← e') (c.kept x x_set).1
        | inr q ↦ c.marked n (ground arith)
      ];
      others = λ n p. c.others n p.1 ∙ get_or-set_ne seen x n true false p.0;
    }

-- From a clear array, the marks are exactly the members.
pub mask_of_members :
    (population : ℕ) (neurons : List ℕ) (mask : List Bool)
    → Claimed population neurons (replicate population false) mask
    → (n : ℕ) → n < population
    → get_or mask n false ≡ is_member neurons n
mask_of_members population neurons mask c n h = elim (Bool-cases (is_member neurons n)) [
  | inl e ↦ rw e (c.marked n e)
  | inr e ↦
      rw e (c.others n (NotIn-is_member neurons n e) ∙ get_or-replicate population n false false h)
]

-- Distinct neurons in range pass where none is marked yet.
pub claim_roles_total :
    (population : ℕ) (neurons : List ℕ) (seen : List Bool)
    → All (λ n. n < population) neurons
    → IsDistinct neurons
    → All (λ n. get_or seen n false ≡ false) neurons
    → (seen' : List Bool) × (claim_roles population neurons seen ≡ some seen')
unfolding claim_roles
claim_roles_total population [] seen below distinct free = (seen, refl)
claim_roles_total population (x ∷ xs) seen below distinct free =
    let free' =
      All-zip {R = λ n. get_or (set seen x true) n false ≡ false} xs
        (λ n f ne. get_or-set_ne seen x n true false (λ e. ne (sym e)) ∙ f) free.1 distinct.0 in
    let (seen', run) = claim_roles_total population xs (set seen x true) below.1 distinct.1 free' in
    (seen', ground (arith, run, below.0, free.0))

-- Every entry is a member.
pub is_member-get_or : (xs : List ℕ) (i : ℕ) → i < length xs → is_member xs (get_or xs i 0) ≡ true
unfolding is_member
is_member-get_or [] i h = elim h [ ]
is_member-get_or (x ∷ xs) zero h = ground arith
is_member-get_or (x ∷ xs) (suc i) h = ground (arith, is_member-get_or xs i)
