-- ===== src/Qubic/Frame/Total.antt =====
-- Parsing and making frames never reads or writes out of range.
use xdna_npu_miner.Prelude.{
  ℕ, ◌≤◌, ◌≢◌, arith, [], ◌∷◌, length, Outcome, fault, get, ◌>>◌, throw_if, Bool, true, false,
}
use xdna_npu_miner.Bpp9000.Types.{Bytes}
use xdna_npu_miner.Bpp9000.Fields.{word_at}
use xdna_npu_miner.Qubic.Types.{Thrown}
use xdna_npu_miner.Qubic.Wire.{require_bytes, read_u32}
use xdna_npu_miner.Qubic.Frame.{declared_size, parse_frame}

throw_if-defined :
    {A : Type 0} (b : Bool) (e : Thrown) (rest : Outcome Thrown A)
    → rest ≢ fault
    → (throw_if b e >> rest) ≢ fault
throw_if-defined true e rest h = λ k. cc
throw_if-defined false e rest h = h

pub declared_size-defined : (encoded : Bytes) → 8 ≤ length encoded → declared_size encoded ≢ fault
unfolding declared_size get
declared_size-defined [] h = absurd (omega arith)
declared_size-defined (a ∷ []) h = absurd (omega arith)
declared_size-defined (a ∷ b ∷ []) h = absurd (omega arith)
declared_size-defined (a ∷ b ∷ c ∷ rest) h = λ k. cc

parse_long :
    (a b c d e f g h : ℕ) (rest : Bytes)
    → parse_frame (a ∷ b ∷ c ∷ d ∷ e ∷ f ∷ g ∷ h ∷ rest) ≢ fault
unfolding parse_frame declared_size get read_u32 require_bytes word_at
parse_long a b c d e f g h rest = λ k. ground arith

-- Every list of bytes is a frame or an error.
pub parse_frame-defined : (encoded : Bytes) → parse_frame encoded ≢ fault
unfolding parse_frame
parse_frame-defined [] = λ k. cc
parse_frame-defined (a ∷ []) = λ k. cc
parse_frame-defined (a ∷ b ∷ []) = λ k. cc
parse_frame-defined (a ∷ b ∷ c ∷ []) = λ k. cc
parse_frame-defined (a ∷ b ∷ c ∷ d ∷ []) = λ k. cc
parse_frame-defined (a ∷ b ∷ c ∷ d ∷ e ∷ []) = λ k. cc
parse_frame-defined (a ∷ b ∷ c ∷ d ∷ e ∷ f ∷ []) = λ k. cc
parse_frame-defined (a ∷ b ∷ c ∷ d ∷ e ∷ f ∷ g ∷ []) = λ k. cc
parse_frame-defined (a ∷ b ∷ c ∷ d ∷ e ∷ f ∷ g ∷ h ∷ rest) = parse_long a b c d e f g h rest
