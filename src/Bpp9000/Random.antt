-- ===== src/Bpp9000/Random.antt =====
-- src/bpp9000/random.cpp: the two random sources of the repository, with the draws they record.
pub mod Scramble
pub mod Sources
use xdna_npu_miner.Prelude.{
  ℕ, zero, suc, ◌+◌, ◌*◌, ◌/◌, ◌%◌, ◌^◌, bit_xor, List, [], ◌∷◌, ◌++◌, ltb, length, drop, take, map,
  if◌then◌else◌, Outcome, ok, err, ◌>>=◌, ◌>>◌, throw_if,
}
use xdna_npu_miner.Prelude.Words.{u64_max, mul64, add64}
use xdna_npu_miner.Bpp9000.Types.{Byte, Bytes, Exception, length_error, out_of_range}
use xdna_npu_miner.Bpp9000.Candidate.{CandidateRandomSource}

pub data RandomDrawKind : Type 0 where
  root_lut mutation_words : RandomDrawKind

pub record RandomDrawEvent : Type 0 where
  pub kind : RandomDrawKind
  pub byte_count : ℕ

pub record DeterministicFixtureRandom : Type 0 where
  pub seed : ℕ
  pub events : List RandomDrawEvent

pub record ScriptedRandom : Type 0 where
  pub root_bytes : Bytes
  pub mutation_words : List ℕ
  pub events : List RandomDrawEvent

-- The three rounds of shift and multiplication that both functions below end with.
unfoldable pub scramble : ℕ → ℕ
scramble value =
    let first = mul64 (bit_xor value (value / 2 ^ 30)) 0xbf58476d1ce4e5b9 in
    let second = mul64 (bit_xor first (first / 2 ^ 27)) 0x94d049bb133111eb in
    bit_xor second (second / 2 ^ 31)

-- `mix_key` from `index` on.
unfoldable pub mix_key : ℕ → ℕ → Bytes → ℕ
mix_key index state [] = state
mix_key index state (byte ∷ bytes) =
    mix_key (index + 1) (scramble (bit_xor state (add64 byte (index * 2 ^ 8 % 2 ^ 64)))) bytes

-- The state after `next_word`, of which `scramble` makes its result.
abbrev pub next_state : ℕ → ℕ
next_state state = add64 state 0x9e3779b97f4a7c15

unfoldable pub next_word : ℕ → ℕ × ℕ
next_word state = (next_state state, scramble (next_state state))

-- The words that a loop over `count` places draws.
unfoldable pub draw_words : ℕ → ℕ → List ℕ
draw_words zero state = []
draw_words (suc count) state =
    let (state', value) = next_word state in value ∷ draw_words count state'

unfoldable pub record_event : List RandomDrawEvent → RandomDrawKind → ℕ → List RandomDrawEvent
record_event events kind bytes = events ++ (record { kind = kind; byte_count = bytes } ∷ [])

-- `destination.size() > max / sizeof(std::uint64_t)`, or a throw.
abbrev pub require_words : List ℕ → Outcome Exception (Unit {0})
require_words destination = throw_if (ltb (u64_max / 8) (length destination)) length_error

-- `DeterministicFixtureRandom::fill_root_lut` and `fill_mutation_words`.
unfoldable pub fixture_root_lut :
    DeterministicFixtureRandom
    → Bytes
    → Bytes
    → List Byte
    → Outcome Exception (DeterministicFixtureRandom × List Byte)
fixture_root_lut source mining_seed public_key destination =
    let state = mix_key 0 (bit_xor source.seed 0x524f4f545f4c5554) mining_seed in
    ok (
      record source { events = record_event source.events root_lut (length destination) },
      map (λ word. word % 256) (draw_words (length destination) (mix_key 0 state public_key)),
    )

unfoldable pub fixture_mutation_words :
    DeterministicFixtureRandom
    → Bytes
    → Bytes
    → Bytes
    → List ℕ
    → Outcome Exception (DeterministicFixtureRandom × List ℕ)
fixture_mutation_words source mining_seed public_key nonce destination = do
  require_words destination
  let seeded = mix_key 0 (bit_xor source.seed 0x4d55544154494f4e) mining_seed
  let state = mix_key 0 (mix_key 0 seeded public_key) (drop 3 nonce)
  ok (
    record source {
      events = record_event source.events mutation_words (mul64 (length destination) 8);
    },
    draw_words (length destination) state,
  )

-- `ScriptedRandom::fill_root_lut` and `fill_mutation_words`. The draw is recorded before the throw.
unfoldable pub scripted_root_lut :
    ScriptedRandom → List Byte → ScriptedRandom × Outcome Exception (List Byte)
scripted_root_lut source destination = (
  record source { events = record_event source.events root_lut (length destination) },
  do
    throw_if (ltb (length source.root_bytes) (length destination)) out_of_range
    ok (take (length destination) source.root_bytes),
)

unfoldable pub scripted_mutation_words :
    ScriptedRandom → List ℕ → ScriptedRandom × Outcome Exception (List ℕ)
scripted_mutation_words source destination =
    if ltb (u64_max / 8) (length destination) then (source, err length_error) else (
      record source {
        events = record_event source.events mutation_words (mul64 (length destination) 8);
      },
      do
        throw_if (ltb (length source.mutation_words) (length destination)) out_of_range
        ok (take (length destination) source.mutation_words),
    )

-- The fixture as what the candidate search draws from. Its record of draws does not affect them.
unfoldable pub fixture_source : DeterministicFixtureRandom → CandidateRandomSource
fixture_source source = record {
  fill_root_lut = λ seed key span. fixture_root_lut source seed key span >>= λ drawn. ok drawn.1;
  fill_mutation_words = λ seed key nonce span.
      fixture_mutation_words source seed key nonce span >>= λ drawn. ok drawn.1;
}
