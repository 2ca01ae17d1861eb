-- ===== src/Qubic/Solution/Cipher.antt =====
-- The encryption of a candidate: its bytes, each with a byte of the gamma under `^`.
use xdna_npu_miner.Prelude.{
  ℕ, ◌≤◌, ◌≡◌, refl, sym, ap, ◌∙◌, [], ◌∷◌, ◌++◌, map, arith, bit_xor, length, length-map, range,
  length-range, get_or, get_or-map-range, list_ext, for_range, get, put, ok,
}
use mathlib.Core.Path.{subst}
use xdna_npu_miner.Prelude.Xor.{xor_cancel}
use xdna_npu_miner.Bpp9000.Types.{Bytes}
use xdna_npu_miner.Bpp9000.Fields.RoundTrip.{word_bytes}
use xdna_npu_miner.Qubic.Submission.{CandidateSolution}
use xdna_npu_miner.Qubic.Solution.{encrypt, encrypt_bytes, encrypt_score}

-- `^` byte by byte.
abbrev pub xor_bytes : Bytes → Bytes → Bytes
xor_bytes [] ys = []
xor_bytes (x ∷ xs) [] = []
xor_bytes (x ∷ xs) (y ∷ ys) = bit_xor x y ∷ xor_bytes xs ys

-- The bytes of a candidate.
abbrev pub plain : CandidateSolution → Bytes
plain candidate = candidate.mining_seed ++ (candidate.nonce ++ word_bytes 4 0 candidate.score)

-- A list of known length, entry by entry.
listed : (n : ℕ) (xs : Bytes) → length xs ≡ n → xs ≡ map (λ i. get_or xs i 0) (range 0 n)
listed n xs e =
    list_ext xs (map (λ i. get_or xs i 0) (range 0 n)) 0
      (e ∙ sym (length-map (range 0 n) (λ i. get_or xs i 0) ∙ length-range 0 n))
      (λ i h. sym (
        get_or-map-range (λ i. get_or xs i 0) 0 n i 0 (omega (arith, e, h))
        ∙ ap (λ k. get_or xs k 0) (omega arith)))

encrypt_listed :
    (f g h : ℕ → ℕ) (score : ℕ)
    → encrypt
        (record { mining_seed = map f (range 0 32); nonce = map g (range 0 32); score = score })
        (map h (range 0 68))
      ≡ ok (
          xor_bytes
            (map f (range 0 32) ++ (map g (range 0 32) ++ word_bytes 4 0 score))
            (map h (range 0 68)))
unfolding encrypt encrypt_bytes encrypt_score for_range get put word_bytes
encrypt_listed f g h score = refl

-- The encrypted bytes are those of the candidate, each with its byte of the gamma.
pub encrypt_lem :
    (candidate : CandidateSolution) (gamma : Bytes)
    → length candidate.mining_seed ≡ 32
    → length candidate.nonce ≡ 32
    → length gamma ≡ 68
    → encrypt candidate gamma ≡ ok (xor_bytes (plain candidate) gamma)
encrypt_lem candidate gamma e1 e2 e3 =
    let seed = candidate.mining_seed in
    let nonce = candidate.nonce in
    let found =
      encrypt_listed (λ i. get_or seed i 0) (λ i. get_or nonce i 0) (λ i. get_or gamma i 0)
        candidate.score in
    subst
      (λ s.
        encrypt (record { mining_seed = s; nonce = nonce; score = candidate.score }) gamma
        ≡ ok (xor_bytes (s ++ (nonce ++ word_bytes 4 0 candidate.score)) gamma))
      (sym (listed 32 seed e1))
      (subst
        (λ n.
          encrypt
            (record {
              mining_seed = map (λ i. get_or seed i 0) (range 0 32);
              nonce = n;
              score = candidate.score;
            })
            gamma
          ≡ ok (
              xor_bytes
                (map (λ i. get_or seed i 0) (range 0 32) ++ (n ++ word_bytes 4 0 candidate.score))
                gamma))
        (sym (listed 32 nonce e2))
        (subst
          (λ γ.
            encrypt
              (record {
                mining_seed = map (λ i. get_or seed i 0) (range 0 32);
                nonce = map (λ i. get_or nonce i 0) (range 0 32);
                score = candidate.score;
              })
              γ
            ≡ ok (
                xor_bytes
                  (map (λ i. get_or seed i 0) (range 0 32)
                    ++ (map (λ i. get_or nonce i 0) (range 0 32) ++ word_bytes 4 0 candidate.score))
                  γ))
          (sym (listed 68 gamma e3)) found))

pub length-xor_bytes :
    (xs ys : Bytes) → length xs ≤ length ys → length (xor_bytes xs ys) ≡ length xs
length-xor_bytes [] ys h = refl
length-xor_bytes (x ∷ xs) [] h = absurd (omega arith)
length-xor_bytes (x ∷ xs) (y ∷ ys) h = omega (arith, length-xor_bytes xs ys (omega arith))

-- The same bytes under `^` again give back the list.
pub xor_bytes_cancel : (xs ys : Bytes) → length xs ≤ length ys → xor_bytes (xor_bytes xs ys) ys ≡ xs
xor_bytes_cancel [] ys h = refl
xor_bytes_cancel (x ∷ xs) [] h = absurd (omega arith)
xor_bytes_cancel (x ∷ xs) (y ∷ ys) h =
    rw (xor_cancel x y, xor_bytes_cancel xs ys (omega arith)) refl
