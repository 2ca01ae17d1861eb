-- ===== src/Qubic/Wire/Layout.antt =====
-- A message as the sequence of its fields, which states what the reads and writes of a message do
-- at running offsets. It models no code of its own.
pub mod Write
pub mod Read
use xdna_npu_miner.Prelude.{
  ℕ, ◌+◌, ◌<◌, ◌≡◌, refl, ◌∙◌, List, [], ◌∷◌, ◌++◌, map, arith, length, length-append, Outcome, ok,
  ◌>>=◌, get, put,
}
use xdna_npu_miner.Prelude.Words.{IsByte, IsU32, IsU64}
use xdna_npu_miner.Bpp9000.Types.{Bytes}
use xdna_npu_miner.Bpp9000.Fields.RoundTrip.{word_bytes, length-word_bytes}
use xdna_npu_miner.Qubic.Types.{Thrown}
use xdna_npu_miner.Qubic.Wire.{
  read_u16, read_u32, read_u64, write_u16, write_u32, write_u64, copy_into, copy_from,
}

pub data Field : Type 0 where
  byte word16 word32 word64 : ℕ → Field
  raw : Bytes → Field

abbrev pub width : Field → ℕ
width (byte v) = 1
width (word16 v) = 2
width (word32 v) = 4
width (word64 v) = 8
width (raw source) = length source

abbrev pub image : Field → Bytes
image (byte v) = v ∷ []
image (word16 v) = word_bytes 2 0 v
image (word32 v) = word_bytes 4 0 v
image (word64 v) = word_bytes 8 0 v
image (raw source) = source

abbrev pub images : List Field → Bytes
images [] = []
images (f ∷ fs) = image f ++ images fs

abbrev pub Fits : Field → Type 0
Fits (byte v) = IsByte v
Fits (word16 v) = v < 0x1_0000
Fits (word32 v) = IsU32 v
Fits (word64 v) = IsU64 v
Fits (raw source) = Unit

-- Reading the field at `offset` gives its value.
abbrev pub Reads : Field → Bytes → ℕ → Type 0
Reads (byte v) bytes offset = get {E = Thrown} bytes offset ≡ ok v
Reads (word16 v) bytes offset = read_u16 bytes offset ≡ ok v
Reads (word32 v) bytes offset = read_u32 bytes offset ≡ ok v
Reads (word64 v) bytes offset = read_u64 bytes offset ≡ ok v
Reads (raw source) bytes offset = copy_from bytes offset (length source) ≡ ok source

abbrev pub Placed : List Field → Bytes → ℕ → Type 0
Placed [] bytes offset = Unit
Placed (f ∷ fs) bytes offset = Reads f bytes offset × Placed fs bytes (offset + width f)

abbrev pub write_field : Field → Bytes → ℕ → Outcome Thrown Bytes
write_field (byte v) bytes offset = put bytes offset v
write_field (word16 v) bytes offset = write_u16 bytes offset v
write_field (word32 v) bytes offset = write_u32 bytes offset v
write_field (word64 v) bytes offset = write_u64 bytes offset v
write_field (raw source) bytes offset = copy_into source bytes offset

abbrev pub write_all : List Field → Bytes → ℕ → Outcome Thrown Bytes
write_all [] bytes offset = ok bytes
write_all (f ∷ fs) bytes offset = do
  bytes ← write_field f bytes offset
  write_all fs bytes (offset + width f)

pub length-image : (f : Field) → length (image f) ≡ width f
length-image (byte v) = refl
length-image (word16 v) = length-word_bytes 2 0 v
length-image (word32 v) = length-word_bytes 4 0 v
length-image (word64 v) = length-word_bytes 8 0 v
length-image (raw source) = refl

-- The offset behind a list of fields.
abbrev pub total : List Field → ℕ
total [] = 0
total (f ∷ fs) = width f + total fs

pub length-images : (fs : List Field) → length (images fs) ≡ total fs
length-images [] = refl
length-images (f ∷ fs) =
    omega (arith, length-append (image f) (images fs), length-image f, length-images fs)
