-- ===== src/Bpp9000/Mutation/Undo.antt =====
-- A mutation changes one entry, and rolling back in reverse order restores the table.
use xdna_npu_miner.Prelude.{
  ℕ, ◌+◌, ◌*◌, ◌/◌, ◌%◌, ◌≤◌, ◌<◌, ◌≡◌, refl, ◌≢◌, List, [], ◌∷◌, ◌++◌, arith, length, get_or, set,
  set-set_same, set-get_or, length-append, ok, get_in_range, for_range, for_range_inv,
}
use xdna_npu_miner.Prelude.Words.{add64, IsU64}
use xdna_npu_miner.Bpp9000.Types.{Exception, Bytes}
use xdna_npu_miner.Bpp9000.Contract.{checked_size_product_lem}
use xdna_npu_miner.Bpp9000.Lut.{Lut, rows}
use xdna_npu_miner.Bpp9000.Lut.Valid.{
  IsValidLut, entry_at, write_entry, at_row_lem, set_row_lem, write_entry-IsValidLut,
  entry_at-write_same,
}
use xdna_npu_miner.Bpp9000.Mutation.{
  MutationRecord, mutate_lut, rollback_mutation, mutate_once, rollback_all,
}
use mathlib.Core.List.{reverse, reverse-append}

-- The mutation of an entry to another trit.
pub record IsMutation (lut : Lut) (done : MutationRecord) (lut' : Lut) : Type 0 where
  pub row_in : done.row < rows lut
  pub entry_in : done.entry < 27
  pub neuron : done.neuron ≡ get_or lut.updated_neurons done.row 0
  pub old : done.old_value ≡ entry_at lut done.row done.entry
  pub differs : done.new_value ≢ done.old_value
  pub trit : done.new_value ≤ 2
  pub result : lut' ≡ write_entry lut done.row done.entry done.new_value

mod-lt_pos : (a b : ℕ) → 0 < b → a % b < b
mod-lt_pos a b h = grind arith

-- On a valid table with a row, `mutate_lut` succeeds for every seed: it changes one entry to
-- another trit, records that change, and leaves a valid table.
pub mutate_lut_lem :
    (lut : Lut) (seed : ℕ)
    → IsValidLut lut
    → 0 < rows lut
    → (done : MutationRecord) × (lut' : Lut) × (mutate_lut lut seed ≡ ok (done, lut'))
      × IsMutation lut done lut'
      × IsValidLut lut'
unfolding mutate_lut
mutate_lut_lem lut seed valid pos =
    let total = rows lut * 27 in
    let flat = seed / 2 % total in
    let flat_in : flat < total = mod-lt_pos (seed / 2) total (omega arith) in
    let row = flat / 27 in
    let entry = flat % 27 in
    let row_in : row < rows lut = omega (arith, flat_in) in
    let entry_in : entry < 27 = omega arith in
    let old = entry_at lut row entry in
    let new = (old + 1 + seed % 2) % 3 % 256 in
    let old_le = valid.entries row entry row_in entry_in in
    let trit : new ≤ 2 = omega arith in
    (
      record {
        row = row;
        neuron = get_or lut.updated_neurons row 0;
        entry = entry;
        old_value = old;
        new_value = new;
      },
      write_entry lut row entry new,
      ground (
        arith,
        checked_size_product_lem (rows lut) 27,
        valid.rows_small,
        at_row_lem lut row entry valid row_in entry_in,
        set_row_lem lut row entry new valid row_in entry_in trit,
        get_in_range {E = Exception} lut.updated_neurons row 0 row_in,
      ),
      record {
        row_in = row_in;
        entry_in = entry_in;
        neuron = refl;
        old = refl;
        differs = omega (arith, old_le);
        trit = trit;
        result = refl;
      },
      write_entry-IsValidLut lut row entry new valid row_in entry_in trit,
    )

-- If a valid table comes from another one by a recorded mutation, `rollback_mutation` with that
-- record gives the other one back.
pub rollback-mutate :
    (lut lut' : Lut) (done : MutationRecord)
    → IsValidLut lut
    → IsValidLut lut'
    → IsMutation lut done lut'
    → rollback_mutation lut' done ≡ ok lut
unfolding rollback_mutation
rollback-mutate lut lut' done valid valid' m =
    let old_le = valid.entries done.row done.entry m.row_in m.entry_in in
    let written = write_entry lut done.row done.entry done.new_value in
    let back : write_entry written done.row done.entry done.old_value ≡ lut = rw (
      m.old,
      set-set_same lut.storage (done.row * 32 + done.entry) done.new_value
          (entry_at lut done.row done.entry),
      set-get_or lut.storage (done.row * 32 + done.entry) 0,
    ) in
    let valid'' : IsValidLut written = rw m.result at valid' in
    rw m.result (
      ground (
        arith,
        m.neuron,
        m.row_in,
        m.entry_in,
        at_row_lem written done.row done.entry valid'' m.row_in m.entry_in,
        entry_at-write_same lut done.row done.entry done.new_value valid m.row_in m.entry_in,
        set_row_lem written done.row done.entry done.old_value valid'' m.row_in m.entry_in
            (omega (arith, m.old, old_le)),
        back,
      ))

-- After `i` mutations: the table differs from the first in its storage only, and going back through
-- the records restores it.
Undoable : Lut → ℕ → List MutationRecord × Lut → Type 0
Undoable lut i (mutations, now) =
    (s : Bytes) × (now ≡ record lut { storage = s })
    × IsValidLut (record lut { storage = s })
    × (length mutations ≡ i)
    × (rollback_all (reverse mutations) (record lut { storage = s }) ≡ ok lut)

mutate_once_lem :
    (lut : Lut) (words : List ℕ) (base i : ℕ) (st : List MutationRecord × Lut)
    → 0 < rows lut
    → base + i < length words
    → IsU64 (base + i)
    → Undoable lut i st
    → (st' : List MutationRecord × Lut) × (mutate_once words base i st ≡ ok st')
      × Undoable lut (i + 1) st'
unfolding mutate_once Undoable rollback_all
mutate_once_lem lut words base i (mutations, now) pos there small (s, e, valid, count, undo) =
    let current : Lut = record lut { storage = s } in
    let word = get_or words (base + i) 0 in
    let place : add64 base i ≡ base + i = omega arith in
    let (done, lut', ran, m, valid') = mutate_lut_lem current word valid pos in
    let s' = set s (done.row * 32 + done.entry) done.new_value in
    let same : lut' ≡ record lut { storage = s' } = m.result in
    let back = rollback-mutate current lut' done valid valid' m in
    (
      (mutations ++ (done ∷ []), lut'),
      rw (place, get_in_range {E = Exception} words (base + i) 0 there, e, ran),
      (
        s',
        same,
        rw same at valid',
        omega (arith, length-append mutations (done ∷ []), count),
        rw (reverse-append mutations (done ∷ []), ← same, rollback_all) (rw back undo),
      ),
    )

-- On a valid table with a row, a step of mutations whose words are there succeeds. It changes the
-- storage only, leaves a valid table and one record per mutation, and `rollback_all` on the
-- reversed records gives back the table from before the step.
pub mutations_undo :
    (lut : Lut) (words : List ℕ) (base count : ℕ)
    → IsValidLut lut
    → 0 < rows lut
    → base + count ≤ length words
    → IsU64 (base + count)
    → (mutations : List MutationRecord) × (s : Bytes) × (for_range count 0
          (mutate_once words base)
          ([], lut)
        ≡ ok (mutations, record lut { storage = s }))
      × IsValidLut (record lut { storage = s })
      × (length mutations ≡ count)
      × (rollback_all (reverse mutations) (record lut { storage = s }) ≡ ok lut)
unfolding Undoable rollback_all
mutations_undo lut words base count valid pos enough small =
    let ((mutations, now), run, (s, e, valid', length', undo)) =
      for_range_inv (Undoable lut) (mutate_once words base) count
        (λ i st p q. mutate_once_lem lut words base i st pos (omega arith) (omega arith) q) count 0
        ([], lut) (omega arith) (lut.storage, refl, valid, refl, refl) in
    (mutations, s, rw (← e) run, valid', length', undo)
