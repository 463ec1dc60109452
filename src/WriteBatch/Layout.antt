-- ===== src/WriteBatch/Layout.antt =====
-- The format of a batch, and that the builder's operations write it behind whatever the vector held.
use native.Mathlib.Nat.{mod-eq_of_lt}
use exasol_gateway_sdk.Base.{
  ℕ, ◌+◌, ◌*◌, ◌%◌, ◌^◌, ◌≤◌, ◌<◌, List, [], ◌∷◌, ◌++◌, Bool, true, ok, length, All, length-append,
  append_assoc, ◌≡◌, refl, ap, ap₂, arith, le→ltb_false, eq→==, lt→leb_false,
}
use exasol_gateway_sdk.Base.Bytes.{big_endian, length-big_endian}
use exasol_gateway_sdk.Base.State.{◌>>◌, require}
use exasol_gateway_sdk.WriteBatch.{NativeWriteBatchBuilder, sub_size}
use exasol_gateway_sdk.WriteBatch.Builder.{
  ensure_started, append_null_vector, append_fixed_column, described, append_variable_column,
  insert, count_column,
}
use exasol_gateway_sdk.WriteBatch.Buffers.{
  aligned, length-aligned, sizes_layout, placed, align_output-aligned,
  append_native_write_u32-big_endian, length-sizes_layout, append_sizes-layout, IsNullByte,
  all_null_bytes_lem,
}

pub data Column : Type 0 where
  fixed : List ℕ → List ℕ → Column
  variable : List ℕ → List ℕ → List ℕ → Column

-- What a column adds to the batch: its buffers, each at a multiple of 16 from the batch's start.
unfoldable pub with_column : List ℕ → Column → List ℕ
with_column batch (fixed nulls values) = aligned (aligned batch ++ nulls) ++ values
with_column batch (variable nulls sizes values) =
    aligned
      ((aligned (aligned batch ++ nulls) ++ sizes_layout sizes) ++ big_endian 4 (length values))
    ++ values

abbrev pub total : List ℕ → ℕ
total [] = 0
total (x ∷ xs) = x + total xs

-- The sizes are accepted if they add up to the extent, which is a number of 64 bits.
described-total :
    (sizes : List ℕ) (extent sum : ℕ)
    → extent < 2 ^ 64
    → sum + total sizes ≡ extent
    → described sizes extent sum ≡ ok extent
unfolding described
described-total [] extent sum small e = ap ok (omega arith)
described-total (size ∷ sizes) extent sum small e =
    rw (le→ltb_false (sub_size extent sum) size (omega arith))
      (described-total sizes extent ((sum + size) % 2 ^ 64) small (omega arith))

-- A column that the builder can take next.
pub record IsColumnFor (b : NativeWriteBatchBuilder) (nulls : List ℕ) : Type 0 where
  pub is_open : b.started ≡ true
  pub expected : b.appended_columns < b.column_count
  pub few_columns : b.column_count < 2 ^ 32
  pub one_each : length nulls ≡ b.row_count
  pub null_bytes : All IsNullByte nulls

pub append_null_vector-layout :
    (b : NativeWriteBatchBuilder) (before batch nulls : List ℕ)
    → IsColumnFor b nulls
    → length before + length batch + 16 ≤ 2 ^ 64
    → append_null_vector nulls (placed b before batch)
      ≡ (ok tt, placed b before (aligned batch ++ nulls))
unfolding append_null_vector
append_null_vector-layout b before batch nulls c room =
    rw
      (
        lt→leb_false b.column_count b.appended_columns c.expected,
        eq→== (length nulls) b.row_count c.one_each,
        all_null_bytes_lem nulls c.null_bytes,
        align_output-aligned b before batch room,
      )
      (ap (λ (t : List ℕ). (ok tt, record b { output = t; batch_offset = length before }))
        (append_assoc before (aligned batch) nulls))

pub ensure_started_lem :
    (b : NativeWriteBatchBuilder) → b.started ≡ true → ensure_started b ≡ (ok tt, b)
unfolding ensure_started
ensure_started_lem b is_open =
    ap (λ (t : Bool). require t "SessionGW native write batch builder is not open" b) is_open

abbrev pub counted : NativeWriteBatchBuilder → NativeWriteBatchBuilder
counted b = record b { appended_columns = b.appended_columns + 1 }

counted_last :
    (b : NativeWriteBatchBuilder) (before batch values : List ℕ)
    → b.appended_columns + 1 < 2 ^ 32
    → (insert values >> count_column) (placed b before batch)
      ≡ (ok tt, placed (counted b) before (batch ++ values))
counted_last b before batch values small =
    ap₂
      (λ (t : List ℕ) (n : ℕ).
        (ok tt, record b { output = t; batch_offset = length before; appended_columns = n }))
      (append_assoc before batch values) (mod-eq_of_lt small)

-- A fixed-width column goes behind the batch in the format of a column: its null vector and its
-- values, each after zeros up to a multiple of 16 from the start of the batch. What the vector held
-- before the batch stays, and one more column is counted.
pub append_fixed_column-layout :
    (b : NativeWriteBatchBuilder) (before batch nulls values : List ℕ)
    → IsColumnFor b nulls
    → length before + length batch + length nulls + 32 ≤ 2 ^ 64
    → append_fixed_column nulls values (placed b before batch)
      ≡ (ok tt, placed (counted b) before (with_column batch (fixed nulls values)))
unfolding append_fixed_column with_column
append_fixed_column-layout b before batch nulls values c room =
    rw
      (
        ensure_started_lem (placed b before batch) c.is_open,
        append_null_vector-layout b before batch nulls c (omega arith),
        align_output-aligned b before (aligned batch ++ nulls)
            (omega (arith, length-append {0} (aligned batch) nulls, length-aligned batch)),
      )
      (counted_last b before (aligned (aligned batch ++ nulls)) values
        (omega (arith, c.expected, c.few_columns)))

-- A variable-width column goes behind the batch in the format of a column: its null vector, its
-- sizes, the extent of its data and the data, if the sizes add up to that extent, each buffer after
-- zeros up to a multiple of 16 from the start of the batch. What the vector held before the batch
-- stays, and one more column is counted.
pub append_variable_column-layout :
    (b : NativeWriteBatchBuilder) (before batch nulls sizes values : List ℕ)
    → IsColumnFor b nulls
    → length sizes ≡ b.row_count
    → total sizes ≡ length values
    → length values < 2 ^ 32
    → length before + length batch + length nulls + length sizes * 8 + 64 ≤ 2 ^ 64
    → append_variable_column nulls sizes values (placed b before batch)
      ≡ (ok tt, placed (counted b) before (with_column batch (variable nulls sizes values)))
unfolding append_variable_column with_column
append_variable_column-layout b before batch nulls sizes values c one_each sum small room =
    let nulled = aligned batch ++ nulls in
    let sized = aligned nulled ++ sizes_layout sizes in
    let l1 = length-append {0} (aligned batch) nulls in
    let l2 = length-append {0} (aligned nulled) (sizes_layout sizes) in
    let l3 = length-append {0} sized (big_endian 4 (length values)) in
    rw
      (
        ensure_started_lem (placed b before batch) c.is_open,
        eq→== (length sizes) b.row_count one_each,
        le→ltb_false 0xffff_ffff (length values) (omega arith),
        described-total sizes (length values) 0 (omega arith) (omega arith),
        eq→== (length values) (length values) refl,
        append_null_vector-layout b before batch nulls c (omega arith),
        align_output-aligned b before nulled (omega (arith, l1, length-aligned batch)),
        append_sizes-layout b before (aligned nulled) sizes
            (omega (arith, l1, length-aligned batch, length-aligned nulled)),
        append_native_write_u32-big_endian (before ++ sized) (length values),
        append_assoc before sized (big_endian 4 (length values)),
        align_output-aligned b before (sized ++ big_endian 4 (length values)) (
            omega (
              arith,
              l1,
              l2,
              l3,
              length-aligned batch,
              length-aligned nulled,
              length-sizes_layout sizes,
              length-big_endian 4 (length values),
            )),
      )
      (counted_last b before (aligned (sized ++ big_endian 4 (length values))) values
        (omega (arith, c.expected, c.few_columns)))
