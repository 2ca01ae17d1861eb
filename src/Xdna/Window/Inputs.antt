-- ===== src/Xdna/Window/Inputs.antt =====
-- The kernel's input loops do what the network does with its inputs.
use xdna_npu_miner.Prelude.{
  ℕ, zero, suc, ◌+◌, ◌<◌, ◌≤◌, ◌≡◌, refl, sym, ◌∙◌, inl, inr, List, [], ◌∷◌, arith, length, get_or,
  set, length-set, get_or-set_self, get_or-set_ne, drop, drop_step, drop_all, All, All-get_or,
  list_ext, ok, get_in_range, put_in_range, for_range, Bool-cases, if◌then◌else◌,
}
use xdna_npu_miner.Prelude.Words.{add32}
use xdna_npu_miner.Bpp9000.Types.{Task, Bytes, Exception, unknown}
use xdna_npu_miner.Bpp9000.Lut.{Lut}
use xdna_npu_miner.Bpp9000.Roles.{is_member}
use xdna_npu_miner.Bpp9000.Network.{Trits, write_inputs, forget}
use xdna_npu_miner.Bpp9000.State.Inputs.{length-forget, get_or-forget}
use native.Mathlib.Decide.{ℕ_discrete}
use xdna_npu_miner.Xdna.Window.{write_input, forget_role}

-- From role `i` on, the loop writes what `write_inputs` writes, if the row holds the same trits.
pub write_input_lem :
    (task : Task) (lut : Lut) (roles : List ℕ) (sequence : Bytes) (row at left i : ℕ)
    (current : Trits)
    → i + left ≡ length roles
    → All (λ n. n < length current) roles
    → row + length roles ≤ length sequence
    → length sequence < 0x1_0000_0000
    → ((k : ℕ) → k < length roles → get_or sequence (row + k) 0 ≡ get_or task.inputs (at + k) 0)
    → for_range left i (write_input roles sequence row) current
      ≡ ok (write_inputs task lut (drop i roles) (at + i) current)
unfolding for_range write_input write_inputs
write_input_lem task lut roles sequence row at zero i current e below fits small same =
    rw (drop_all roles i (omega arith)) refl
write_input_lem task lut roles sequence row at (suc left) i current e below fits small same =
    let place : add32 row i ≡ row + i = omega arith in
    let role = get_or roles i 0 in
    let there : role < length current = All-get_or _ roles i 0 below (omega arith) in
    let after : suc i ≡ i + 1 = omega arith in
    let next : at + i + 1 ≡ at + (i + 1) = omega arith in
    let value = get_or task.inputs (at + i) 0 in
    rw
      (
        place,
        get_in_range {E = Exception} roles i 0 (omega arith),
        get_in_range {E = Exception} sequence (row + i) 0 (omega arith),
        same i (omega arith),
        put_in_range {E = Exception} current role value there,
        drop_step roles i 0 (omega arith),
        after,
      )
      (rw (← next) at (
        write_input_lem task lut roles sequence row at left (i + 1) (set current role value)
          (omega arith) (rw (length-set current role value) below) fits small same))

-- Every role of a list becomes unknown.
all_unknown : List ℕ → Trits → Trits
all_unknown [] now = now
all_unknown (role ∷ rest) now = all_unknown rest (set now role unknown)

forget_role_lem :
    (roles : List ℕ) (left i : ℕ) (current : Trits)
    → i + left ≡ length roles
    → All (λ n. n < length current) roles
    → for_range left i (forget_role roles) current ≡ ok (all_unknown (drop i roles) current)
unfolding for_range forget_role all_unknown
forget_role_lem roles zero i current e below = rw (drop_all roles i (omega arith)) refl
forget_role_lem roles (suc left) i current e below =
    let role = get_or roles i 0 in
    let there : role < length current = All-get_or _ roles i 0 below (omega arith) in
    let after : suc i ≡ i + 1 = omega arith in
    rw
      (
        get_in_range {E = Exception} roles i 0 (omega arith),
        put_in_range {E = Exception} current role unknown there,
        drop_step roles i 0 (omega arith),
        after,
      )
      (forget_role_lem roles left (i + 1) (set current role unknown) (omega arith)
        (rw (length-set current role unknown) below))

length-all_unknown : (roles : List ℕ) (now : Trits) → length (all_unknown roles now) ≡ length now
unfolding all_unknown
length-all_unknown [] now = refl
length-all_unknown (role ∷ rest) now =
    length-all_unknown rest (set now role unknown) ∙ length-set now role unknown

get_or-all_unknown :
    (roles : List ℕ) (now : Trits) (j : ℕ)
    → j < length now
    → get_or (all_unknown roles now) j 0 ≡ (if is_member roles j then unknown else get_or now j 0)
unfolding all_unknown is_member
get_or-all_unknown [] now j h = refl
get_or-all_unknown (role ∷ rest) now j h =
    let rest' =
      get_or-all_unknown rest (set now role unknown) j
        (omega (arith, length-set now role unknown)) in
    elim (ℕ_discrete role j) [
      | yes here ↦ elim (Bool-cases (is_member rest j)) [
        | inl again ↦ rw rest' (ground (arith, here, again))
        | inr once ↦ rw rest' (rw once (ground (arith, here, get_or-set_self now j unknown 0 h)))
      ]
      | no other ↦ rw rest' (rw (get_or-set_ne now role j unknown 0 other) (ground (arith, other)))
    ]

-- The loop makes the input neurons unknown, and no others.
pub forget_inputs_lem :
    (task : Task) (lut : Lut) (current : Trits)
    → length current ≡ task.header.shape.population
    → All (λ n. n < task.header.shape.population) task.topology.input_neurons
    → for_range
        (length task.topology.input_neurons)
        0
        (forget_role task.topology.input_neurons)
        current
      ≡ ok (forget task lut current)
forget_inputs_lem task lut current size below =
    let roles = task.topology.input_neurons in
    let cleared = all_unknown roles current in
    let start : drop 0 roles ≡ roles = refl in
    let run = forget_role_lem roles (length roles) 0 current (omega arith) (rw size below) in
    let same : cleared ≡ forget task lut current =
      list_ext cleared (forget task lut current) 0
        (length-all_unknown roles current ∙ size ∙ sym (length-forget task lut current))
        (λ j p.
          let q : j < length current = omega (arith, length-all_unknown roles current) in
          get_or-all_unknown roles current j q
          ∙ sym (get_or-forget task lut current j (omega arith))) in
    rw same at run
