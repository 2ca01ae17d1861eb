-- ===== src/Bpp9000/State/Tick.antt =====
-- `RecurrentState::tick` computes `step`, on every task and table that fit together.
use xdna_npu_miner.Prelude.{
  ℕ, ◌+◌, ◌*◌, ◌≤◌, ◌<◌, ◌≡◌, sym, ◌∙◌, ap, inl, inr, false, arith, length, get_or, set, ok, get,
  get_in_range, put_in_range, length-set, get_or-set_self, get_or-set_ne, for_range, for_range_inv,
  Bool-cases, All, All-get_or, All-of-get_or, list_ext, length-range, length-map, get_or-map-range,
}
use xdna_npu_miner.Prelude.Words.{mul64, add64}
use xdna_npu_miner.Bpp9000.Types.{Task, Exception}
use xdna_npu_miner.Bpp9000.Roles.{is_member}
use xdna_npu_miner.Bpp9000.Lut.{Lut, lut_index, at_neuron}
use xdna_npu_miner.Bpp9000.Lut.Valid.{at_row_lem, entry_at}
use xdna_npu_miner.Bpp9000.Lut.Build.{IsLutFor}
use xdna_npu_miner.Bpp9000.Network.{Trits, neighbor_trit, next_trit, step}
use xdna_npu_miner.Bpp9000.State.{RecurrentState, lookup_next, tick_neuron, tick}
use native.Mathlib.Decide.{ℕ_discrete}

-- A task whose topology is whole, with a table built for it.
pub record IsReady (task : Task) (lut : Lut) : Type 0 where
  pub small : task.header.shape.population < 0x8000_0000
  pub inputs_in_range : All (λ n. n < task.header.shape.population) task.topology.input_neurons
  pub neighbors_count : length task.topology.neighbors ≡ task.header.shape.population * 3
  pub neighbors_in_range : All (λ n. n < task.header.shape.population) task.topology.neighbors
  pub three_neighbors : task.header.shape.neighbors ≡ 3
  pub lut_for : IsLutFor task lut

pub record IsStateFor (task : Task) (state : RecurrentState) : Type 0 where
  pub current_size : length state.current ≡ task.header.shape.population
  pub next_size : length state.next ≡ task.header.shape.population
  pub mask_size : length state.input_mask ≡ task.header.shape.population
  pub mask :
      (neuron : ℕ)
      → neuron < task.header.shape.population
      → get_or state.input_mask neuron false ≡ is_member task.topology.input_neurons neuron
  pub trits : All (λ t. t ≤ 2) state.current

lut_index_lem : (a b c : ℕ) → a ≤ 2 → b ≤ 2 → c ≤ 2 → lut_index a b c ≡ ok (a + 3 * b + 9 * c)
unfolding lut_index
lut_index_lem a b c p q r = ground arith

module _ (task : Task) (lut : Lut) (ready : IsReady task lut) where
  pub neighbor_in_range :
      (neuron i : ℕ)
      → neuron < task.header.shape.population
      → i < 3
      → (neuron * 3 + i < length task.topology.neighbors)
        × (get_or task.topology.neighbors (neuron * 3 + i) 0 < task.header.shape.population)
  neighbor_in_range neuron i h k =
      let inside : neuron * 3 + i < length task.topology.neighbors =
        omega (arith, ready.neighbors_count) in
      (
        inside,
        All-get_or _ task.topology.neighbors (neuron * 3 + i) 0 ready.neighbors_in_range inside,
      )

  pub neighbor_trit-le :
      (now : Trits) (neuron i : ℕ)
      → length now ≡ task.header.shape.population
      → All (λ t. t ≤ 2) now
      → neuron < task.header.shape.population
      → i < 3
      → neighbor_trit task lut now neuron i ≤ 2
  neighbor_trit-le now neuron i size trits h k =
      All-get_or _ now _ 0 trits (omega (arith, size, (neighbor_in_range neuron i h k).1))

  at_neuron_lem :
      (neuron entry : ℕ)
      → neuron < task.header.shape.population
      → is_member task.topology.input_neurons neuron ≡ false
      → entry < 27
      → (at_neuron lut neuron entry ≡ ok (entry_at lut (get_or lut.row_for_neuron neuron 0) entry))
        × (entry_at lut (get_or lut.row_for_neuron neuron 0) entry ≤ 2)
  unfolding at_neuron
  at_neuron_lem neuron entry h other k =
      let row = ready.lut_for.indexed.row_of neuron h other in
      let valid = ready.lut_for.valid in
      (
        ground (
          arith,
          ready.lut_for.indexed.row_for_size,
          row,
          valid.rows_small,
          at_row_lem lut (get_or lut.row_for_neuron neuron 0) entry valid,
        ),
        valid.entries _ entry row.0 k,
      )

  pub reads :
      (now : Trits) (neuron : ℕ)
      → length now ≡ task.header.shape.population
      → neuron < task.header.shape.population
      → (i : ℕ) → i < 3
      → (get {E = Exception} task.topology.neighbors (neuron * 3 + i)
          ≡ ok (get_or task.topology.neighbors (neuron * 3 + i) 0))
        × (get {E = Exception} now (get_or task.topology.neighbors (neuron * 3 + i) 0)
            ≡ ok (neighbor_trit task lut now neuron i))
  reads now neuron size h i k =
      let there = neighbor_in_range neuron i h k in
      (get_in_range _ _ 0 there.0, get_in_range now _ 0 (omega (arith, size, there.1)))

  lookup_next_lem :
      (now : Trits) (neuron : ℕ)
      → length now ≡ task.header.shape.population
      → All (λ t. t ≤ 2) now
      → neuron < task.header.shape.population
      → is_member task.topology.input_neurons neuron ≡ false
      → (lookup_next task lut now neuron ≡ ok (next_trit task lut now neuron))
        × (next_trit task lut now neuron ≤ 2)
  unfolding lookup_next next_trit
  lookup_next_lem now neuron size trits h other =
      let base : mul64 neuron task.header.shape.neighbors ≡ neuron * 3 + 0 =
        omega (arith, ap (mul64 neuron) ready.three_neighbors, ready.small) in
      let second : add64 (neuron * 3 + 0) 1 ≡ neuron * 3 + 1 = omega (arith, ready.small) in
      let third : add64 (neuron * 3 + 0) 2 ≡ neuron * 3 + 2 = omega (arith, ready.small) in
      let le = λ (i : ℕ) (k : i < 3). neighbor_trit-le now neuron i size trits h k in
      let value =
        at_neuron_lem neuron
          (neighbor_trit task lut now neuron 0
            + 3 * neighbor_trit task lut now neuron 1
            + 9 * neighbor_trit task lut now neuron 2)
          h other (omega (arith, le 0 (omega arith), le 1 (omega arith), le 2 (omega arith))) in
      (
        rw
            (
              base,
              second,
              third,
              (reads now neuron size h 0 (omega arith)).0,
              (reads now neuron size h 0 (omega arith)).1,
              (reads now neuron size h 1 (omega arith)).0,
              (reads now neuron size h 1 (omega arith)).1,
              (reads now neuron size h 2 (omega arith)).0,
              (reads now neuron size h 2 (omega arith)).1,
              lut_index_lem _ _ _ (le 0 (omega arith)) (le 1 (omega arith)) (le 2 (omega arith)),
              other,
            )
            value.0,
        rw other value.1,
      )

  tick_neuron_lem :
      (s : RecurrentState) (neuron : ℕ) (next : Trits)
      → IsStateFor task s
      → neuron < task.header.shape.population
      → length next ≡ task.header.shape.population
      → (tick_neuron task lut s neuron next
          ≡ ok (set next neuron (next_trit task lut s.current neuron)))
        × (next_trit task lut s.current neuron ≤ 2)
  unfolding tick_neuron
  tick_neuron_lem s neuron next for h size =
      let e =
        get_in_range {E = Exception} s.input_mask neuron false (omega (arith, for.mask_size)) in
      let w = λ (v : ℕ). put_in_range {E = Exception} next neuron v (omega arith) in
      elim (Bool-cases (is_member task.topology.input_neurons neuron)) [
        | inl member ↦
            let here =
              get_in_range {E = Exception} s.current neuron 0 (omega (arith, for.current_size)) in
            let kept : next_trit task lut s.current neuron ≡ get_or s.current neuron 0 =
              unfold next_trit in rw member in
            (
              rw (e, for.mask neuron h, member, here, kept) (w (get_or s.current neuron 0)),
              rw kept (All-get_or _ s.current neuron 0 for.trits (omega (arith, for.current_size))),
            )
        | inr other ↦
            let (looked, le) =
              lookup_next_lem s.current neuron for.current_size for.trits h other in
            (rw (e, for.mask neuron h, other, looked) (w (next_trit task lut s.current neuron)), le)
      ]

  -- The loop of `tick`: the neurons below `i` are stepped.
  abbrev Stepped : Trits → ℕ → Trits → Type 0
  Stepped now i next =
      (length next ≡ task.header.shape.population)
      × ((j : ℕ) → j < i → get_or next j 0 ≡ next_trit task lut now j)

  tick_loop :
      (s : RecurrentState)
      → IsStateFor task s
      → (next : Trits) × (for_range task.header.shape.population 0 (tick_neuron task lut s) s.next
          ≡ ok next)
        × Stepped s.current task.header.shape.population next
  tick_loop s for =
      for_range_inv (Stepped s.current) (tick_neuron task lut s) task.header.shape.population
        (λ i next p (size, done).
          let new = next_trit task lut s.current i in
          (
            set next i new,
            (tick_neuron_lem s i next for p size).0,
            (
              length-set next i new ∙ size,
              λ j q. elim (ℕ_discrete i j) [
                | yes same ↦ rw (← same) (get_or-set_self next i new 0 (omega arith))
                | no other ↦ get_or-set_ne next i j new 0 other ∙ done j (omega arith)
              ],
            ),
          ))
        task.header.shape.population 0 s.next (omega arith)
        (for.next_size, λ j q. absurd (omega arith))

  pub length-step : (now : Trits) → length (step task lut now) ≡ task.header.shape.population
  unfolding step
  length-step now = length-map _ _ ∙ length-range 0 task.header.shape.population

  pub get_or-step :
      (now : Trits) (j : ℕ)
      → j < task.header.shape.population
      → get_or (step task lut now) j 0 ≡ next_trit task lut now j
  unfolding step
  get_or-step now j h =
      get_or-map-range (next_trit task lut now) 0 task.header.shape.population j 0 h
      ∙ ap (next_trit task lut now) (omega arith)

  next_trit-le :
      (s : RecurrentState) (j : ℕ)
      → IsStateFor task s
      → j < task.header.shape.population
      → next_trit task lut s.current j ≤ 2
  next_trit-le s j for h = (tick_neuron_lem s j s.next for h for.next_size).1

  -- With a whole topology, a table built for the task and a state of the task, `tick` neither
  -- throws nor faults. Every neuron takes at once the value that the network's step gives it from
  -- the old values, the two buffers change places, and the state stays one of the task.
  pub tick_lem :
      (s : RecurrentState)
      → IsStateFor task s
      → (tick s task lut ≡ ok (record s { current = step task lut s.current; next = s.current }))
        × IsStateFor task (record s { current = step task lut s.current; next = s.current })
  unfolding tick
  tick_lem s for =
      let (next, run, (size, done)) = tick_loop s for in
      let same : next ≡ step task lut s.current =
        list_ext next (step task lut s.current) 0 (size ∙ sym (length-step s.current))
          (λ i p. done i (omega arith) ∙ sym (get_or-step s.current i (omega arith))) in
      (
        ground (arith, run, same, for.current_size, ready.lut_for.indexed.row_for_size),
        record {
          current_size = length-step s.current;
          next_size = for.current_size;
          mask_size = for.mask_size;
          mask = for.mask;
          trits = All-of-get_or _ _ 0 (λ i p.
              let q : i < task.header.shape.population = omega (arith, length-step s.current) in
              rw (get_or-step s.current i q) (next_trit-le s i for q));
        },
      )
