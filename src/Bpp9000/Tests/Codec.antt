-- ===== src/Bpp9000/Tests/Codec.antt =====
-- Fields, packed trits and the fixture source at small inputs.
use xdna_npu_miner.Prelude.{
  ℕ, ◌+◌, ◌*◌, ◌%◌, ◌^◌, ◌<◌, get, ◌/◌, ◌≤◌, ◌≡◌, List, [], ◌∷◌, ◌++◌, arith, length, All, ok,
}
use xdna_npu_miner.Bpp9000.Types.{Bytes, Exception}
use xdna_npu_miner.Bpp9000.Fields.{read_u32, read_u64, write_u32, write_u64}
use xdna_npu_miner.Bpp9000.Fields.RoundTrip.{read-write_u32, read-write_u64}
use xdna_npu_miner.Bpp9000.Packing.{pack_trits, unpack_trits}
use xdna_npu_miner.Bpp9000.Packing.RoundTrip.{unpack-pack_trits}
use xdna_npu_miner.Bpp9000.Random.{DeterministicFixtureRandom, scramble, fixture_source}
use xdna_npu_miner.Bpp9000.Random.Sources.{fixture_words_lem}

read-write_u32_example :
    read_u32 (write_u32 (7 ∷ 8 ∷ []) 0xdead_beef ++ (9 ∷ [])) 2 ≡ ok 0xdead_beef
read-write_u32_example =
    read-write_u32 0xdead_beef (7 ∷ 8 ∷ []) (9 ∷ []) (omega arith) (omega arith)

read-write_u64_example :
    read_u64 (write_u64 (7 ∷ []) 0x1234_5678_9abc_def0 ++ []) 1 ≡ ok 0x1234_5678_9abc_def0
read-write_u64_example =
    read-write_u64 0x1234_5678_9abc_def0 (7 ∷ []) [] (omega arith) (omega arith)

abbrev six_trits : List ℕ
six_trits = 2 ∷ 0 ∷ 1 ∷ 1 ∷ 2 ∷ 1 ∷ []

six_trits_valid : All (λ t. t ≤ 2) six_trits
six_trits_valid =
    (omega arith, (omega arith, (omega arith, (omega arith, (omega arith, (omega arith, tt))))))

unpack-pack_trits_example :
    (packed : Bytes) × (pack_trits six_trits ≡ ok packed)
    × (length packed ≡ 10 / 5)
    × (unpack_trits packed 6 ≡ ok six_trits)
unpack-pack_trits_example = unpack-pack_trits six_trits six_trits_valid (omega arith)

abbrev fixture : DeterministicFixtureRandom
fixture = record { seed = 42; events = [] }

fixture_words_lem_example :
    (words : List ℕ) × (start : ℕ) × ((fixture_source fixture).fill_mutation_words
        (9 ∷ [])
        []
        (1 ∷ 3 ∷ 0 ∷ 7 ∷ [])
        (0 ∷ 0 ∷ [])
      ≡ ok words)
    × (length words ≡ 2)
    × ((i : ℕ)
        → i < 2
        → get {E = Exception} words i
          ≡ ok (scramble ((start + 0x9e3779b97f4a7c15 * (i + 1)) % 2 ^ 64)))
    × ((i j : ℕ) → i < 2 → j < 2 → get {E = Exception} words i ≡ get words j → i ≡ j)
fixture_words_lem_example =
    fixture_words_lem fixture (9 ∷ []) [] (1 ∷ 3 ∷ 0 ∷ 7 ∷ []) (0 ∷ 0 ∷ []) (omega arith)
