-- ===== src/Bpp9000/Types.antt =====
-- src/bpp9000/types.hpp: tasks, configurations and results, and the predicates on them that
-- src/bpp9000/reference.cpp defines. A `Trit` is an enumeration over a byte to which the code
-- casts freely, so it may hold any byte: it is a number here, and the code's checks are tests.
use xdna_npu_miner.Prelude.{
  ℕ, ◌≡◌, ◌↔◌, refl, Bool, true, false, not, ◌&&◌, List, [], ◌∷◌, arith, leb, ◌==◌, get_or,
}
use xdna_npu_miner.Prelude.Words.{u32_max}

abbrev pub Byte : Type 0
Byte = ℕ

abbrev pub Trit : Type 0
Trit = ℕ

abbrev pub zero_trit : Trit
zero_trit = 0

-- `Trit::Unknown`.
abbrev pub unknown : Trit
unknown = 2

abbrev pub task_magic : ℕ
task_magic = 0x5454554c

abbrev pub task_version : ℕ
task_version = 1

abbrev pub task_header_bytes : ℕ
task_header_bytes = 96

abbrev pub hash_bytes : ℕ
hash_bytes = 32

abbrev pub trits_per_packed_byte : ℕ
trits_per_packed_byte = 5

abbrev pub packed_byte_limit : ℕ
packed_byte_limit = 243

abbrev pub lut_entries : ℕ
lut_entries = 27

abbrev pub lut_stride : ℕ
lut_stride = 32

abbrev pub max_mutations_per_step : ℕ
max_mutations_per_step = 10

abbrev pub timeout_score : ℕ
timeout_score = u32_max

abbrev pub is_valid_trit_byte : Byte → Bool
is_valid_trit_byte value = leb value unknown

-- A `FixedBytes<N>` is the list of its bytes; its length is a hypothesis where it matters.
abbrev pub Bytes : Type 0
Bytes = List Byte

unfoldable pub is_zero : Bytes → Bool
is_zero [] = true
is_zero (value ∷ rest) = value == 0 && is_zero rest

-- `operator==` of byte arrays.
unfoldable pub bytes_eq : Bytes → Bytes → Bool
bytes_eq [] [] = true
bytes_eq [] (y ∷ ys) = false
bytes_eq (x ∷ xs) [] = false
bytes_eq (x ∷ xs) (y ∷ ys) = x == y && bytes_eq xs ys

pub bytes_eq_iff : (xs ys : Bytes) → (bytes_eq xs ys ≡ true) ↔ (xs ≡ ys)
unfolding bytes_eq
bytes_eq_iff [] [] = (λ _. refl, λ _. refl)
bytes_eq_iff [] (y ∷ ys) = (λ e. cc, λ e. cc)
bytes_eq_iff (x ∷ xs) [] = (λ e. cc, λ e. cc)
bytes_eq_iff (x ∷ xs) (y ∷ ys) = ground (arith, bytes_eq_iff xs ys)

pub record TaskShape : Type 0 where
  pub input_trits : ℕ
  pub output_trits : ℕ
  pub sequence_length : ℕ
  pub population : ℕ
  pub neighbors : ℕ

unfoldable pub shape_eq : TaskShape → TaskShape → Bool
shape_eq a b =
    a.input_trits == b.input_trits
    && a.output_trits == b.output_trits
    && a.sequence_length == b.sequence_length
    && a.population == b.population
    && a.neighbors == b.neighbors

unfoldable pub production_shape : TaskShape
production_shape = record {
  input_trits = 18;
  output_trits = 1;
  sequence_length = 8760;
  population = 64;
  neighbors = 3;
}

pub record TaskHeader : Type 0 where
  pub magic : ℕ
  pub version : ℕ
  pub shape : TaskShape
  pub topology_hash : Bytes
  pub data_hash : Bytes

pub record Topology : Type 0 where
  pub input_neurons : List ℕ
  pub output_neurons : List ℕ
  pub signal_neuron : ℕ
  pub neighbors : List ℕ

pub record Task : Type 0 where
  pub header : TaskHeader
  pub topology : Topology
  pub inputs : List Trit
  pub outputs : List Trit
  pub packed_topology : Bytes
  pub packed_data : Bytes

pub record ReferenceConfig : Type 0 where
  pub window_width : ℕ
  pub max_ticks : ℕ
  pub mutation_steps : ℕ

pub data ScoreStatus : Type 0 where
  settled timeout : ScoreStatus

abbrev pub status_eq : ScoreStatus → ScoreStatus → Bool
status_eq settled settled = true
status_eq settled timeout = false
status_eq timeout settled = false
status_eq timeout timeout = true

pub record ScoreResult : Type 0 where
  pub score : ℕ
  pub status : ScoreStatus
  pub windows_evaluated : ℕ
  pub ticks : ℕ

abbrev pub timed_out : ScoreResult → Bool
timed_out result = status_eq result.status timeout

-- `TaskErrorCode`.
pub data TaskErrorCode : Type 0 where
  truncated trailing_bytes bad_magic bad_version bad_dimensions bad_length : TaskErrorCode
  missing_digest_provider hash_mismatch invalid_topology invalid_packed_trit : TaskErrorCode
  invalid_domain_value : TaskErrorCode

-- What these files throw: a `TaskError` with its code (the message is left out), or an exception
-- of the standard library.
pub data Exception : Type 0 where
  task_error : TaskErrorCode → Exception
  length_error out_of_range runtime_error : Exception

unfoldable pub is_valid_score : ScoreResult → ℕ → Bool
is_valid_score result window_count =
    status_eq result.status settled
    && not (result.score == timeout_score)
    && result.windows_evaluated == window_count
    && leb result.score window_count

unfoldable pub is_good_score : ScoreResult → ℕ → ℕ → Bool
unfolding is_valid_score
is_good_score result threshold window_count =
    is_valid_score result window_count && leb result.score threshold

-- The bytes of a nonce that are read here lie within its 32, so the default is never taken.
unfoldable pub is_canonical_nonce : Bytes → Bool
is_canonical_nonce nonce =
    get_or nonce 0 0 == 1
    && leb 1 (get_or nonce 1 0)
    && leb (get_or nonce 1 0) max_mutations_per_step
    && get_or nonce 2 0 == 0

unfoldable pub is_valid_mining_seed : Bytes → Bool
is_valid_mining_seed seed = not (is_zero seed)
