-- ===== src/Bpp9000/Task/Unique.antt =====
-- What the test of the roles of a topology establishes.
use xdna_npu_miner.Prelude.{
  ℕ, ◌<◌, ◌≡◌, ◌∙◌, arith, Bool, true, false, List, [], ◌∷◌, get_or, replicate, length-replicate,
  All, some, Option-cases, inl, inr, Bool-cases,
}
use xdna_npu_miner.Bpp9000.Types.{TaskShape, Topology}
use xdna_npu_miner.Bpp9000.Roles.{
  claim_roles, is_member, NotIn, NotIn-is_member, IsDistinct, Claimed, claim_roles-Claimed,
}
use xdna_npu_miner.Bpp9000.Task.{signal_is_free, claim_outputs, has_unique_roles}

-- The roles of a topology are distinct and lie within the network.
abbrev pub AreUnique : ℕ → Topology → Type 0
AreUnique population topology =
    All (λ n. n < population) topology.input_neurons
    × All (λ n. n < population) topology.output_neurons
    × (topology.signal_neuron < population)
    × IsDistinct topology.input_neurons
    × IsDistinct topology.output_neurons
    × All (λ n. NotIn n topology.output_neurons) topology.input_neurons
    × NotIn topology.signal_neuron topology.input_neurons
    × NotIn topology.signal_neuron topology.output_neurons

members-All : (P : ℕ → Type 0) (xs : List ℕ) → ((n : ℕ) → is_member xs n ≡ true → P n) → All P xs
unfolding is_member
members-All P [] h = tt
members-All P (x ∷ xs) h = (h x (ground arith), members-All P xs (λ n m. h n (ground (arith, m))))

not_member :
    (xs : List ℕ) (n : ℕ) (b : Bool) → b ≡ false → (is_member xs n ≡ true → b ≡ true) → NotIn n xs
not_member xs n b off h = elim (Bool-cases (is_member xs n)) [
  | inl there ↦ absurd (cc (h there, off))
  | inr away ↦ NotIn-is_member xs n away
]

unique_lem :
    (population : ℕ) (topology : Topology) (seen seen' : List Bool)
    → Claimed population topology.input_neurons (replicate population false) seen
    → Claimed population topology.output_neurons seen seen'
    → signal_is_free population topology.signal_neuron (some seen') ≡ true
    → AreUnique population topology
unfolding signal_is_free
unique_lem population topology seen seen' c d free =
    let signal = topology.signal_neuron in
    let fits : (signal < population) × (get_or seen' signal false ≡ false) =
      (ground (arith, free), ground (arith, free)) in
    (
      c.in_range,
      d.in_range,
      fits.0,
      c.distinct,
      d.distinct,
      members-All (λ n. NotIn n topology.output_neurons) topology.input_neurons
          (λ n m. (d.kept n (c.marked n m)).0),
      not_member topology.input_neurons signal (get_or seen' signal false) (fits.1)
          (λ m. (d.kept signal (c.marked signal m)).1),
      not_member topology.output_neurons signal (get_or seen' signal false) (fits.1)
          (λ m. d.marked signal m),
    )

pub has_unique_roles-AreUnique :
    (shape : TaskShape) (topology : Topology)
    → has_unique_roles shape topology ≡ true
    → AreUnique shape.population topology
unfolding has_unique_roles claim_outputs signal_is_free
has_unique_roles-AreUnique shape topology h =
    let population = shape.population in
    elim (Option-cases
      (claim_roles population topology.input_neurons (replicate population false))) [
        | inl e ↦ absurd (cc (rw e at h))
        | inr (seen, e) ↦
            let c =
              claim_roles-Claimed population topology.input_neurons (replicate population false)
                (length-replicate population false) e in
            elim (Option-cases (claim_roles population topology.output_neurons seen)) [
              | inl f ↦ absurd (cc (rw (e, f) at h))
              | inr (seen', f) ↦
                  unique_lem population topology seen seen' c
                    (claim_roles-Claimed population topology.output_neurons seen
                      (c.size ∙ length-replicate population false) f)
                    (rw (e, f) at h)
            ]
      ]
