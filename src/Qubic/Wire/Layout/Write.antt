-- ===== src/Qubic/Wire/Layout/Write.antt =====
-- Writing a sequence of fields at running offsets leaves their bytes one after the other.
use xdna_npu_miner.Prelude.{
  ℕ, zero, suc, ◌+◌, ◌*◌, ◌/◌, ◌%◌, ◌^◌, ◌≡◌, refl, sym, ◌∙◌, List, [], ◌∷◌, ◌++◌, arith, length,
  length-append, length-take, length-drop, take-append-drop, take, drop, set, ok, put, put_in_range,
  for_range, bind_ext, bind-ok,
}
use mathlib.Core.List.{append_assoc}
use xdna_npu_miner.Bpp9000.Types.{Bytes}
use xdna_npu_miner.Bpp9000.Fields.RoundTrip.{word_bytes}
use xdna_npu_miner.Qubic.Types.{Thrown}
use xdna_npu_miner.Qubic.Wire.{write_u16, write_u32, write_u64, copy_into}
use xdna_npu_miner.Qubic.Wire.Layout.{
  Field, byte, word16, word32, word64, raw, width, image, images, write_field, write_all, total,
  length-image,
}

set-append : (xs ys : Bytes) (old v : ℕ) → set (xs ++ (old ∷ ys)) (length xs) v ≡ xs ++ (v ∷ ys)
set-append [] ys old v = refl
set-append (x ∷ xs) ys old v = rw (set-append xs ys old v) refl

put-append :
    (xs ys : Bytes) (old v : ℕ)
    → put {E = Thrown} (xs ++ (old ∷ ys)) (length xs) v ≡ ok (xs ++ (v ∷ ys))
put-append xs ys old v =
    put_in_range {E = Thrown} (xs ++ (old ∷ ys)) (length xs) v
      (omega (arith, length-append xs (old ∷ ys)))
    ∙ rw (set-append xs ys old v) refl

pub copy_into-append :
    (source old front behind : Bytes)
    → length old ≡ length source
    → copy_into source (front ++ (old ++ behind)) (length front) ≡ ok (front ++ (source ++ behind))
unfolding copy_into
copy_into-append [] [] front behind e = refl
copy_into-append [] (x ∷ old) front behind e = absurd (omega (arith, e))
copy_into-append (v ∷ source) [] front behind e = absurd (omega (arith, e))
copy_into-append (v ∷ source) (x ∷ old) front behind e =
    let place : length (front ++ (v ∷ [])) ≡ length front + 1 =
      omega (arith, length-append front (v ∷ [])) in
    let rest = copy_into-append source old (front ++ (v ∷ [])) behind (omega (arith, e)) in
    let l = append_assoc front (v ∷ []) (old ++ behind) in
    let r = append_assoc front (v ∷ []) (source ++ behind) in
    rw (put-append front (old ++ behind) x v) (rw (place, l, r) at rest)

-- A word is written byte by byte.
loop_copies :
    (n i v offset : ℕ) (bytes : Bytes)
    → for_range {E = Thrown} n i (λ k b. put b (offset + k) (v / 2 ^ (8 * k) % 256)) bytes
      ≡ copy_into (word_bytes n i v) bytes (offset + i)
unfolding for_range copy_into word_bytes
loop_copies zero i v offset bytes = refl
loop_copies (suc n) i v offset bytes =
    bind_ext (put {E = Thrown} bytes (offset + i) (v / 2 ^ (8 * i) % 256))
      (λ b. for_range n (i + 1) (λ k b. put b (offset + k) (v / 2 ^ (8 * k) % 256)) b)
      (λ b. copy_into (word_bytes n (i + 1) v) b (offset + i + 1))
      (λ b.
        let e : offset + (i + 1) ≡ offset + i + 1 = omega arith in
        rw e at (loop_copies n (i + 1) v offset b))

write_u16_copies :
    (bytes : Bytes) (offset v : ℕ)
    → write_u16 bytes offset v ≡ copy_into (word_bytes 2 0 v) bytes offset
unfolding write_u16 copy_into word_bytes
write_u16_copies bytes offset v =
    let e : v / 1 ≡ v = omega arith in
    rw e (
      bind_ext (put {E = Thrown} bytes offset (v % 256)) (λ b. put b (offset + 1) (v / 2 ^ 8 % 256))
        (λ b. copy_into (v / 2 ^ 8 % 256 ∷ []) b (offset + 1))
        (λ b. sym (bind-ok (put {E = Thrown} b (offset + 1) (v / 2 ^ 8 % 256)))))

write_u32_copies :
    (bytes : Bytes) (offset v : ℕ)
    → write_u32 bytes offset v ≡ copy_into (word_bytes 4 0 v) bytes offset
unfolding write_u32 copy_into word_bytes
write_u32_copies bytes offset v =
    let e : v / 1 ≡ v = omega arith in
    let e2 : offset + 1 + 1 ≡ offset + 2 = omega arith in
    let e3 : offset + 2 + 1 ≡ offset + 3 = omega arith in
    rw (e, e2, e3)
      (bind_ext (put {E = Thrown} bytes offset (v % 256)) _ _ (λ b.
        bind_ext (put {E = Thrown} b (offset + 1) (v / 2 ^ 8 % 256)) _ _ (λ c.
          bind_ext (put {E = Thrown} c (offset + 2) (v / 2 ^ 16 % 256)) _ _
            (λ d. sym (bind-ok (put {E = Thrown} d (offset + 3) (v / 2 ^ 24 % 256)))))))

write_field_copies :
    (f : Field) (bytes : Bytes) (offset : ℕ)
    → write_field f bytes offset ≡ copy_into (image f) bytes offset
write_field_copies (byte v) bytes offset =
    unfold copy_into in sym (bind-ok (put {E = Thrown} bytes offset v))
write_field_copies (word16 v) bytes offset = write_u16_copies bytes offset v
write_field_copies (word32 v) bytes offset = write_u32_copies bytes offset v
write_field_copies (word64 v) bytes offset =
    unfold write_u64 in
    let e : offset + 0 ≡ offset = omega arith in rw e at (loop_copies 8 0 v offset bytes)
write_field_copies (raw source) bytes offset = refl

write_field-append :
    (f : Field) (front old behind : Bytes)
    → length old ≡ width f
    → write_field f (front ++ (old ++ behind)) (length front) ≡ ok (front ++ (image f ++ behind))
write_field-append f front old behind e =
    write_field_copies f (front ++ (old ++ behind)) (length front)
    ∙ copy_into-append (image f) old front behind (omega (arith, e, length-image f))

-- The fields take the place of as many bytes.
pub write_all-append :
    (fs : List Field) (front old : Bytes)
    → length old ≡ total fs
    → write_all fs (front ++ old) (length front) ≡ ok (front ++ images fs)
write_all-append [] front [] e = refl
write_all-append [] front (x ∷ old) e = absurd (omega (arith, e))
write_all-append (f ∷ fs) front old e =
    let first = take (width f) old in
    let others = drop (width f) old in
    let size : length first ≡ width f = omega (arith, e, length-take (width f) old) in
    let step = write_field-append f front first others size in
    let place : length (front ++ image f) ≡ length front + width f =
      omega (arith, length-append front (image f), length-image f) in
    let rest =
      write_all-append fs (front ++ image f) others (omega (arith, e, length-drop (width f) old)) in
    let whole = rw (take-append-drop (width f) old) at step in
    rw whole (
      rw (place, append_assoc front (image f) others, append_assoc front (image f) (images fs)) at
        rest)

-- A message of the right size holds its fields and nothing else once they are all written.
pub write_all_lem :
    (fs : List Field) (old : Bytes) → length old ≡ total fs → write_all fs old 0 ≡ ok (images fs)
write_all_lem fs old e = write_all-append fs [] old e
