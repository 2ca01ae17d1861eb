-- ===== src/Bpp9000/State/Inputs.antt =====
-- The operations that build a state and set its inputs compute `feed` and `forget`.
use xdna_npu_miner.Prelude.{
  ℕ, ◌+◌, ◌≤◌, ◌<◌, ◌≡◌, refl, sym, ◌∙◌, ap, inl, inr, false, arith, length, get_or, set, replicate,
  ok, put_in_range, length-set, get_or-set_self, get_or-set_ne, for_range_inv, Bool-cases, All,
  All-get_or, All-of-get_or, All-zip, All-replicate, list_ext, length-range, length-map,
  length-replicate, map-const, get_or-map-range, get_or-replicate, if◌then◌else◌,
}
use xdna_npu_miner.Bpp9000.Types.{Task, Trit, unknown}
use xdna_npu_miner.Bpp9000.Roles.{
  is_member, claim_roles_total, claim_roles-Claimed, mask_of_members, IsDistinct,
}
use xdna_npu_miner.Bpp9000.Lut.{Lut}
use xdna_npu_miner.Bpp9000.Network.{Trits, forget}
use xdna_npu_miner.Bpp9000.State.{
  RecurrentState, make_state, reset_unknown, forget_input, set_all_inputs_unknown,
}
use xdna_npu_miner.Bpp9000.State.Tick.{IsStateFor}
use native.Mathlib.Decide.{ℕ_discrete}

-- All trits unknown.
abbrev pub blank : Task → Trits
blank task = replicate task.header.shape.population unknown

-- If the input neurons are in range and distinct, the constructor succeeds. All its trits are
-- unknown, its mask marks the input neurons and no others, and `reset_unknown` changes nothing in
-- it.
pub make_state_lem :
    (task : Task)
    → All (λ n. n < task.header.shape.population) task.topology.input_neurons
    → IsDistinct task.topology.input_neurons
    → (s : RecurrentState) × (make_state task ≡ ok s)
      × (reset_unknown s ≡ s)
      × (s.current ≡ blank task)
      × IsStateFor task s
unfolding make_state reset_unknown
make_state_lem task below distinct =
    let size = task.header.shape.population in
    let inputs = task.topology.input_neurons in
    let (mask, run) =
      claim_roles_total size inputs (replicate size false) below distinct
        (All-zip inputs (λ n p _. get_or-replicate size n false false p) below below) in
    let claimed =
      claim_roles-Claimed size inputs (replicate size false) (length-replicate size false) run in
    let blanks =
      map-const (blank task) unknown
      ∙ ap (λ n. replicate n unknown) (length-replicate size unknown) in
    (
      record { current = blank task; next = blank task; input_mask = mask },
      rw (run, make_state),
      rw blanks,
      refl,
      record {
        current_size = length-replicate size unknown;
        next_size = length-replicate size unknown;
        mask_size = claimed.size ∙ length-replicate size false;
        mask = mask_of_members size inputs mask claimed;
        trits = All-replicate _ size unknown (omega arith);
      },
    )

module _ (task : Task) (lut : Lut) where
  -- A state with another buffer of trits.
  pub replaced-IsStateFor :
      (s : RecurrentState) (now : Trits)
      → IsStateFor task s
      → length now ≡ task.header.shape.population
      → All (λ t. t ≤ 2) now
      → IsStateFor task (record s { current = now })
  replaced-IsStateFor s now for size trits = record {
    current_size = size;
    next_size = for.next_size;
    mask_size = for.mask_size;
    mask = for.mask;
    trits = trits;
  }

  -- What `forget` puts at a neuron.
  abbrev forgotten : Trits → ℕ → Trit
  forgotten now j = if is_member task.topology.input_neurons j then unknown else get_or now j 0

  pub get_or-forget :
      (now : Trits) (j : ℕ)
      → j < task.header.shape.population
      → get_or (forget task lut now) j 0 ≡ forgotten now j
  unfolding forget
  get_or-forget now j h =
      get_or-map-range (forgotten now) 0 task.header.shape.population j 0 h
      ∙ ap (forgotten now) (omega arith)

  pub length-forget : (now : Trits) → length (forget task lut now) ≡ task.header.shape.population
  unfolding forget
  length-forget now = length-map _ _ ∙ length-range 0 task.header.shape.population

  forgotten-le : (now : Trits) (j : ℕ) → All (λ t. t ≤ 2) now → j < length now → forgotten now j ≤ 2
  forgotten-le now j trits h = ground (arith, All-get_or _ now j 0 trits h)

  abbrev Forgetting : Trits → ℕ → Trits → Type 0
  Forgetting now i current =
      (length current ≡ task.header.shape.population)
      × ((j : ℕ) → j < i → get_or current j 0 ≡ forgotten now j)
      × ((j : ℕ) → i ≤ j → get_or current j 0 ≡ get_or now j 0)

  forget_round :
      (s : RecurrentState) (i : ℕ) (current : Trits)
      → IsStateFor task s
      → i < task.header.shape.population
      → Forgetting s.current i current
      → (current' : Trits) × (forget_input s.input_mask i current ≡ ok current')
        × Forgetting s.current (i + 1) current'
  unfolding forget_input
  forget_round s i current for h (size, before, after) =
      elim (Bool-cases (is_member task.topology.input_neurons i)) [
        | inl member ↦ (
          set current i unknown,
          rw (for.mask i h, member) (put_in_range current i unknown (omega arith)),
          (
            length-set current i unknown ∙ size,
            λ j p. elim (ℕ_discrete i j) [
              | yes same ↦
                  rw (← same) (get_or-set_self current i unknown 0 (omega arith) ∙ rw member)
              | no other ↦ get_or-set_ne current i j unknown 0 other ∙ before j (omega arith)
            ],
            λ j p. get_or-set_ne current i j unknown 0 (omega arith) ∙ after j (omega arith),
          ),
        )
        | inr other ↦ (
          current,
          rw (for.mask i h, other),
          (
            size,
            λ j p. elim (ℕ_discrete i j) [
              | yes same ↦ rw (← same) (after i (omega arith) ∙ rw other)
              | no differs ↦ before j (omega arith)
            ],
            λ j p. after j (omega arith),
          ),
        )
      ]

  -- On a state of the task, `set_all_inputs_unknown` succeeds: the input neurons become unknown,
  -- every other neuron keeps its trit, and the state stays one of the task.
  pub set_all_inputs_unknown_lem :
      (s : RecurrentState)
      → IsStateFor task s
      → (set_all_inputs_unknown s ≡ ok (record s { current = forget task lut s.current }))
        × IsStateFor task (record s { current = forget task lut s.current })
  unfolding set_all_inputs_unknown
  set_all_inputs_unknown_lem s for =
      let (now, run, (size, done, _)) =
        for_range_inv (Forgetting s.current) (forget_input s.input_mask) (length s.input_mask)
          (λ i t p q. forget_round s i t for (omega (arith, for.mask_size)) q) (length s.input_mask)
          0 s.current (omega arith) (for.current_size, λ j p. absurd (omega arith), λ j p. refl) in
      let same : now ≡ forget task lut s.current =
        list_ext now (forget task lut s.current) 0 (size ∙ sym (length-forget s.current)) (λ i p.
          done i (omega (arith, for.mask_size)) ∙ sym (get_or-forget s.current i (omega arith))) in
      (
        ground (arith, run, same),
        replaced-IsStateFor s (forget task lut s.current) for (length-forget s.current) (
            All-of-get_or _ _ 0 (λ i p.
              let q : i < task.header.shape.population = omega (arith, length-forget s.current) in
              rw (get_or-forget s.current i q)
                (forgotten-le s.current i for.trits (omega (arith, for.current_size))))),
      )
