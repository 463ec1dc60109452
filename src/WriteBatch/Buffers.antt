-- ===== src/WriteBatch/Buffers.antt =====
-- src/native_write_batch.cpp: what a builder puts behind the batch: zeros up to a multiple of 16, and
-- sizes.
use native.Mathlib.Nat.{mod-eq_of_lt}
use exasol_gateway_sdk.Base.{
  ℕ, ◌+◌, ◌-◌, ◌*◌, ◌/◌, ◌%◌, ◌^◌, ◌≤◌, ◌<◌, List, [], ◌∷◌, ◌++◌, true, ok, length, replicate, All,
  length-append, length-replicate, take-all, append_assoc, ◌≡◌, refl, sym, ap, ◌∙◌, arith, ◌⊎◌,
  le→ltb_false,
}
use exasol_gateway_sdk.Base.Bits.{bit_and_align}
use exasol_gateway_sdk.Base.Bytes.{big_endian, length-big_endian}
use exasol_gateway_sdk.Base.Stores.{
  byte_of_lem, resize, copy, copy_over, copy-nil, store_u64_loop, write_then, store_u64_loop-copy,
}
use exasol_gateway_sdk.WriteBatch.{
  NativeWriteBatchBuilder, native_write_not_null, native_write_null, size_max, sub_size,
}
use exasol_gateway_sdk.WriteBatch.Builder.{
  write_native_u64, append_native_write_u32, clear_low_bits, align_output, all_null_bytes,
  write_sizes, append_sizes, store_output,
}

-- Zeros up to a multiple of 16.
unfoldable pub aligned : List ℕ → List ℕ
aligned bytes = bytes ++ replicate ((length bytes + 15) / 16 * 16 - length bytes) 0

pub length-aligned : (bytes : List ℕ) → length (aligned bytes) ≡ (length bytes + 15) / 16 * 16
unfolding aligned
length-aligned bytes = omega (
  arith,
  length-append {0} bytes (replicate ((length bytes + 15) / 16 * 16 - length bytes) 0),
  length-replicate {0} {A = ℕ} ((length bytes + 15) / 16 * 16 - length bytes) 0,
)

unfoldable pub sizes_layout : List ℕ → List ℕ
sizes_layout [] = []
sizes_layout (size ∷ sizes) = big_endian 8 size ++ sizes_layout sizes

-- The builder over a vector that holds `before` and then the batch so far.
abbrev pub placed : NativeWriteBatchBuilder → List ℕ → List ℕ → NativeWriteBatchBuilder
placed b before batch = record b { output = before ++ batch; batch_offset = length before }

pub resize-longer :
    (n : ℕ) (out : List ℕ) → length out ≤ n → resize n out ≡ out ++ replicate (n - length out) 0
resize-longer n out h = rw (take-all n out h)

pub align_output-aligned :
    (b : NativeWriteBatchBuilder) (before batch : List ℕ)
    → length before + length batch + 16 ≤ 2 ^ 64
    → align_output (placed b before batch) ≡ (ok tt, placed b before (aligned batch))
unfolding align_output aligned
align_output-aligned b before batch room =
    rw
      (
        relative,
        rounded,
        le→ltb_false (size_max - 15) (length batch) (omega arith),
        le→ltb_false (size_max - up) (length before) (omega arith),
      )
      (ap (λ (t : List ℕ). (ok tt, record b { output = t; batch_offset = length before }))
        (resize-longer (length before + up) (before ++ batch) (omega (arith, sum))
          ∙ append_assoc before batch (replicate (length before + up - length (before ++ batch)) 0)
          ∙ ap (λ (n : ℕ). before ++ (batch ++ replicate n 0)) (omega (arith, sum))))
  where
    up : ℕ
    up = (length batch + 15) / 16 * 16

    sum : length (before ++ batch) ≡ length before + length batch
    sum = length-append before batch

    relative : sub_size (length (before ++ batch)) (length before) ≡ length batch
    relative = omega (arith, sum)

    rounded : clear_low_bits ((length batch + 15) % 2 ^ 64) ≡ up
    rounded =
        bit_and_align ((length batch + 15) % 2 ^ 64) (omega arith)
        ∙ ap (λ (n : ℕ). n / 16 * 16) (mod-eq_of_lt (omega arith))

pub append_native_write_u32-big_endian :
    (out : List ℕ) (v : ℕ) → append_native_write_u32 out v ≡ out ++ big_endian 4 v
unfolding append_native_write_u32 big_endian
append_native_write_u32-big_endian out v = ap (◌++◌ out) (
    four (byte_of_lem v 24 ∙ omega arith) (byte_of_lem v 16 ∙ omega arith)
      (byte_of_lem v 8 ∙ omega arith) (byte_of_lem v 0 ∙ omega arith))
  where
    four :
        {a b c d a' b' c' d' : ℕ}
        → a ≡ a'
        → b ≡ b'
        → c ≡ c'
        → d ≡ d'
        → ◌≡◌ {A = List ℕ} (a ∷ b ∷ c ∷ d ∷ []) (a' ∷ b' ∷ c' ∷ d' ∷ [])
    four p q r s = λ i. p i ∷ q i ∷ r i ∷ s i ∷ []

write_sizes-copy :
    (sizes : List ℕ) (row offset i : ℕ) (out : List ℕ)
    → i ≡ offset + row * 8
    → write_sizes sizes row offset out ≡ copy (sizes_layout sizes) i out
unfolding write_sizes sizes_layout write_native_u64
write_sizes-copy [] row offset i out at_i = copy-nil i out
write_sizes-copy (size ∷ sizes) row offset i out at_i =
    write_then _ _ (big_endian 8 size) (sizes_layout sizes) i (i + 8)
      (λ s. ap (λ (n : ℕ). store_u64_loop 8 0 n size s) (sym at_i) ∙ store_u64_loop-copy i size s)
      (omega (arith, length-big_endian 8 size))
      (λ s. write_sizes-copy sizes (row + 1) offset (i + 8) s (omega arith)) out

pub length-sizes_layout : (sizes : List ℕ) → length (sizes_layout sizes) ≡ length sizes * 8
unfolding sizes_layout
length-sizes_layout [] = refl
length-sizes_layout (size ∷ sizes) = omega (
  arith,
  length-append {0} (big_endian 8 size) (sizes_layout sizes),
  length-big_endian 8 size,
  length-sizes_layout sizes,
)

pub append_sizes-layout :
    (b : NativeWriteBatchBuilder) (before batch sizes : List ℕ)
    → length before + length batch + length sizes * 8 < 2 ^ 64
    → append_sizes sizes (placed b before batch)
      ≡ (ok tt, placed b before (batch ++ sizes_layout sizes))
unfolding append_sizes
append_sizes-layout b before batch sizes room =
    rw (le→ltb_false (sub_size size_max (length out) / 8) (length sizes) (omega (arith, sum))) (
      ap (store_output (placed b before batch)) (
        write_sizes-copy sizes 0 (length out) (length out) _ (omega arith)
        ∙ ap (copy (sizes_layout sizes) (length out)) (resize-longer _ out (omega arith))
        ∙ copy_over (sizes_layout sizes) out _
            (length-replicate _ 0 ∙ omega (arith, length-sizes_layout sizes)))
      ∙ ap (λ (t : List ℕ). (ok tt, record b { output = t; batch_offset = length before }))
          (append_assoc before batch (sizes_layout sizes)))
  where
    out : List ℕ
    out = before ++ batch

    sum : length (before ++ batch) ≡ length before + length batch
    sum = length-append before batch

-- `0x00` for a value, `0xff` for none.
abbrev pub IsNullByte : ℕ → Type 0
IsNullByte b = (b ≡ native_write_not_null) ⊎ (b ≡ native_write_null)

pub all_null_bytes_lem : (nulls : List ℕ) → All IsNullByte nulls → all_null_bytes nulls ≡ true
unfolding all_null_bytes
all_null_bytes_lem [] h = refl
all_null_bytes_lem (b ∷ bs) h = ground (arith, all_null_bytes_lem bs h.1)
