-- ===== src/Bpp9000/Random/Sources.antt =====
-- The fixture source serves the candidate search.
use xdna_npu_miner.Prelude.{
  ℕ, zero, suc, ◌≡◌, refl, sym, ap, ◌∙◌, ◌+◌, ◌*◌, ◌/◌, ◌%◌, ◌^◌, ◌<◌, ◌≤◌, bit_xor, List, map,
  arith, length, length-map, drop, get, ok, ok-inj,
}
use xdna_npu_miner.Prelude.Words.{add64, u64_max}
use xdna_npu_miner.Bpp9000.Random.Scramble.{scramble_inj, states_apart}
use xdna_npu_miner.Bpp9000.Types.{Bytes, Exception}
use xdna_npu_miner.Bpp9000.Candidate.Material.{Serves}
use xdna_npu_miner.Bpp9000.Random.{
  mix_key, scramble, next_state, DeterministicFixtureRandom, draw_words, next_word,
  fixture_root_lut, fixture_mutation_words, fixture_source,
}

length-draw_words : (count state : ℕ) → length (draw_words count state) ≡ count
unfolding draw_words next_word
length-draw_words zero state = refl
length-draw_words (suc count) state = omega (arith, length-draw_words count _)

-- The word at an index, from the start state and the index alone.
draw_words-at :
    (count state i : ℕ)
    → i < count
    → get {E = Exception} (draw_words count state) i
      ≡ ok (scramble (add64 state (0x9e3779b97f4a7c15 * (i + 1))))
unfolding draw_words next_word get
draw_words-at zero state i h = absurd (omega arith)
draw_words-at (suc count) state zero h = refl
draw_words-at (suc count) state (suc i) h =
    draw_words-at count (next_state state) i (omega arith)
    ∙ ap (λ (s : ℕ). ok (scramble s)) (omega arith)

draw_words-apart :
    (count state i j : ℕ)
    → count ≤ 0xffff_ffff_ffff_ffff
    → i < count
    → j < count
    → get {E = Exception} (draw_words count state) i ≡ get (draw_words count state) j
    → i ≡ j
draw_words-apart count state i j small h k e =
    let same =
      scramble_inj _ _ (omega arith) (omega arith)
        (ok-inj (sym (draw_words-at count state i h) ∙ e ∙ draw_words-at count state j k)) in
    omega (arith, states_apart state (i + 1) (j + 1) (omega arith) (omega arith) same)

-- Whatever the seed, the key and the nonce are, the fixture source fills a span of mutation words
-- that is not too large for `std::size_t` bytes. The word at an index is the scrambled sum of a
-- start state and the increment times the index plus one, in 64 bits, and no two words of the span
-- are the same.
pub fixture_words_lem :
    (source : DeterministicFixtureRandom) (seed key nonce : Bytes) (span : List ℕ)
    → length span ≤ u64_max / 8
    → (words : List ℕ) × (start : ℕ) × ((fixture_source source).fill_mutation_words seed key nonce
          span
        ≡ ok words)
      × (length words ≡ length span)
      × ((i : ℕ)
          → i < length span
          → get {E = Exception} words i
            ≡ ok (scramble ((start + 0x9e3779b97f4a7c15 * (i + 1)) % 2 ^ 64)))
      × ((i j : ℕ)
          → i < length span
          → j < length span
          → get {E = Exception} words i ≡ get words j
          → i ≡ j)
unfolding fixture_source fixture_mutation_words
fixture_words_lem source seed key nonce span small =
    let start =
      mix_key 0 (mix_key 0 (mix_key 0 (bit_xor source.seed 0x4d55544154494f4e) seed) key)
        (drop 3 nonce) in
    (
      draw_words (length span) start,
      start,
      ground arith,
      length-draw_words (length span) start,
      draw_words-at (length span) start,
      λ i j. draw_words-apart (length span) start i j (omega arith),
    )

-- The fixture source serves spans of fewer than 2 ^ 40 places.
fixture_source-Serves :
    (source : DeterministicFixtureRandom) (seed key nonce : Bytes)
    → Serves (fixture_source source) seed key nonce
unfolding fixture_source fixture_root_lut fixture_mutation_words
fixture_source-Serves source seed key nonce =
    let root = mix_key 0 (mix_key 0 (bit_xor source.seed 0x524f4f545f4c5554) seed) key in
    let words =
      mix_key 0 (mix_key 0 (mix_key 0 (bit_xor source.seed 0x4d55544154494f4e) seed) key)
        (drop 3 nonce) in
    record {
      serves_root = λ span small. (
        map (λ word. word % 256) (draw_words (length span) root),
        refl,
        omega (
          arith,
          length-map (draw_words (length span) root) (λ (word : ℕ). word % 256),
          length-draw_words (length span) root,
        ),
      );
      serves_words = λ span small.
          (draw_words (length span) words, ground arith, length-draw_words (length span) words);
    }
