-- ===== src/WriteBatch/Batch.antt =====
-- Whole batches: what `begin`, one call for each column and `finish` leave in the vector.
use exasol_gateway_sdk.Base.{
  ℕ, ◌+◌, ◌*◌, ◌%◌, ◌^◌, ◌≤◌, ◌<◌, List, [], ◌∷◌, ◌++◌, Bool, true, false, ok, length,
  if◌then◌else◌, All, length-append, append_assoc, drop-append, ◌≡◌, refl, sym, ap, ◌∙◌, arith,
  eq→==,
}
use native.Mathlib.Nat.{add-zero}
use exasol_gateway_sdk.Base.Bytes.{big_endian, length-big_endian}
use exasol_gateway_sdk.Base.State.{pure, ◌>>◌}
use exasol_gateway_sdk.WriteBatch.{
  NativeWriteBatchBuilder, native_write_batch_magic, native_write_batch_version,
  native_write_batch_alignment, native_write_batch_size_width, native_write_batch_scalar_abi,
  native_write_batch_scalar_endianness,
}
use exasol_gateway_sdk.WriteBatch.Builder.{
  Building, begin, append_fixed_column, append_variable_column, finish, bytes,
}
use exasol_gateway_sdk.WriteBatch.Buffers.{
  aligned, length-aligned, placed, sizes_layout, align_output-aligned,
  append_native_write_u32-big_endian, IsNullByte, length-sizes_layout,
}
use exasol_gateway_sdk.WriteBatch.Layout.{
  Column, fixed, variable, with_column, ensure_started_lem, counted, total,
  append_fixed_column-layout, append_variable_column-layout,
}

-- The eight words at the head of a batch.
unfoldable pub header : Bool → ℕ → ℕ → List ℕ
header little rows columns =
    big_endian 4 native_write_batch_magic
    ++ (big_endian 4 native_write_batch_version
        ++ (big_endian 4 rows
            ++ (big_endian 4 columns
                ++ (big_endian 4 native_write_batch_alignment
                    ++ (big_endian 4 native_write_batch_size_width
                        ++ (big_endian 4 (native_write_batch_scalar_endianness little)
                            ++ big_endian 4 native_write_batch_scalar_abi))))))

-- The builder that a batch begins with.
unfoldable pub opened : ℕ → ℕ → NativeWriteBatchBuilder
opened rows columns = record {
  output = [];
  batch_offset = 0;
  row_count = rows;
  column_count = columns;
  appended_columns = 0;
  started = true;
}

-- What of the vector stays.
abbrev pub kept : Bool → List ℕ → List ℕ
kept clear output = if clear then [] else output

begin-header :
    (little : Bool) (rows columns : ℕ) (clear : Bool) (b : NativeWriteBatchBuilder)
    → begin little rows columns clear b
      ≡ (ok tt, placed (opened rows columns) (kept clear b.output) (header little rows columns))
unfolding begin header opened
begin-header little rows columns clear b = simp (append_native_write_u32-big_endian, append_assoc)

-- The builder's call for a column.
unfoldable pub append_column : Column → Building (Unit {0})
append_column (fixed nulls values) = append_fixed_column nulls values
append_column (variable nulls sizes values) = append_variable_column nulls sizes values

unfoldable pub append_columns : List Column → Building (Unit {0})
append_columns [] = pure tt
append_columns (c ∷ cs) = append_column c >> append_columns cs

unfoldable pub with_columns : List ℕ → List Column → List ℕ
with_columns batch [] = batch
with_columns batch (c ∷ cs) = with_columns (with_column batch c) cs

-- A column of so many rows.
abbrev pub IsColumn : ℕ → Column → Type 0
IsColumn rows (fixed nulls values) = (length nulls ≡ rows) × All IsNullByte nulls
IsColumn rows (variable nulls sizes values) =
    (length nulls ≡ rows)
    × All IsNullByte nulls
    × (length sizes ≡ rows)
    × (total sizes ≡ length values)
    × (length values < 2 ^ 32)

-- A bound on the bytes that a column takes.
abbrev pub extent : Column → ℕ
extent (fixed nulls values) = length nulls + length values + 32
extent (variable nulls sizes values) = length nulls + length sizes * 8 + length values + 64

abbrev pub extents : List Column → ℕ
extents [] = 0
extents (c ∷ cs) = extent c + extents cs

length-with_column :
    (batch : List ℕ) (c : Column) → length (with_column batch c) ≤ length batch + extent c
unfolding with_column
length-with_column batch (fixed nulls values) = omega (
  arith,
  length-append {0} (aligned (aligned batch ++ nulls)) values,
  length-append {0} (aligned batch) nulls,
  length-aligned (aligned batch ++ nulls),
  length-aligned batch,
)
length-with_column batch (variable nulls sizes values) =
    let nulled = aligned batch ++ nulls in
    let sized = aligned nulled ++ sizes_layout sizes in
    omega (
      arith,
      length-append {0} (aligned (sized ++ big_endian 4 (length values))) values,
      length-append {0} sized (big_endian 4 (length values)),
      length-append {0} (aligned nulled) (sizes_layout sizes),
      length-append {0} (aligned batch) nulls,
      length-aligned batch,
      length-aligned nulled,
      length-aligned (sized ++ big_endian 4 (length values)),
      length-sizes_layout sizes,
      length-big_endian 4 (length values),
    )

append_column-layout :
    (b : NativeWriteBatchBuilder) (before batch : List ℕ) (c : Column)
    → b.started ≡ true
    → b.appended_columns < b.column_count
    → b.column_count < 2 ^ 32
    → IsColumn b.row_count c
    → length before + length batch + extent c ≤ 2 ^ 64
    → append_column c (placed b before batch)
      ≡ (ok tt, placed (counted b) before (with_column batch c))
unfolding append_column
append_column-layout b before batch (fixed nulls values) is_open expected few h room =
    append_fixed_column-layout b before batch nulls values
      (record {
        is_open = is_open;
        expected = expected;
        few_columns = few;
        one_each = h.0;
        null_bytes = h.1;
      })
      (omega arith)
append_column-layout b before batch (variable nulls sizes values) is_open expected few h room =
    append_variable_column-layout b before batch nulls sizes values
      (record {
        is_open = is_open;
        expected = expected;
        few_columns = few;
        one_each = h.0;
        null_bytes = h.1;
      })
      h.2 h.3 h.4 (omega arith)

-- The builder once so many columns are in.
abbrev pub counted_by : NativeWriteBatchBuilder → ℕ → NativeWriteBatchBuilder
counted_by b n = record b { appended_columns = b.appended_columns + n }

append_columns-layout :
    (cs : List Column) (b : NativeWriteBatchBuilder) (before batch : List ℕ)
    → b.started ≡ true
    → b.appended_columns + length cs ≤ b.column_count
    → b.column_count < 2 ^ 32
    → All (IsColumn b.row_count) cs
    → length before + length batch + extents cs ≤ 2 ^ 64
    → append_columns cs (placed b before batch)
      ≡ (ok tt, placed (counted_by b (length cs)) before (with_columns batch cs))
unfolding append_columns with_columns
append_columns-layout [] b before batch is_open expected few h room =
    ap (λ (n : ℕ). (ok tt, placed (record b { appended_columns = n }) before batch))
      (sym (add-zero b.appended_columns))
append_columns-layout (c ∷ cs) b before batch is_open expected few h room =
    rw (append_column-layout b before batch c is_open (omega arith) few h.0 (omega arith)) (
      append_columns-layout cs (counted b) before (with_column batch c) is_open (omega arith) few
        h.1 (omega (arith, length-with_column batch c))
      ∙ ap
          (λ (n : ℕ). (
            ok tt,
            placed (record b { appended_columns = n }) before
                (with_columns (with_column batch c) cs),
          ))
          (omega arith))

finish-layout :
    (b : NativeWriteBatchBuilder) (before batch : List ℕ)
    → b.started ≡ true
    → b.appended_columns ≡ b.column_count
    → length before + length batch + 16 ≤ 2 ^ 64
    → finish (placed b before batch)
      ≡ (ok tt, record (placed b before (aligned batch)) { started = false })
unfolding finish
finish-layout b before batch is_open all_in room = rw (
  ensure_started_lem (placed b before batch) is_open,
  eq→== b.appended_columns b.column_count all_in,
  align_output-aligned b before batch room,
)

bytes-placed :
    (b : NativeWriteBatchBuilder) (before batch : List ℕ)
    → bytes (record (placed b before batch) { started = false }) ≡ batch
unfolding bytes
bytes-placed b before batch = drop-append before batch

length-with_columns :
    (cs : List Column) (batch : List ℕ) → length (with_columns batch cs) ≤ length batch + extents cs
unfolding with_columns
length-with_columns [] batch = omega arith
length-with_columns (c ∷ cs) batch =
    omega (arith, length-with_columns cs (with_column batch c), length-with_column batch c)

pub length-header : (little : Bool) (rows columns : ℕ) → length (header little rows columns) ≡ 32
unfolding header big_endian
length-header little rows columns = refl

-- The bytes of a batch: the header, the columns, and zeros up to a multiple of 16.
unfoldable pub batch_of : Bool → ℕ → List Column → List ℕ
batch_of little rows cs = aligned (with_columns (header little rows (length cs)) cs)

-- The calls for a batch.
unfoldable pub build : Bool → ℕ → List Column → Bool → Building (Unit {0})
build little rows cs clear = do begin little rows (length cs) clear; append_columns cs; finish

-- `begin`, one call for each column and `finish` return, for columns of the announced number of rows
-- that fit the address space: the vector then holds what it held before, or nothing if it was to be
-- cleared, and behind it exactly the batch in its format, which `bytes` returns; the batch's length
-- is a multiple of 16 and the builder is closed.
pub build-batch_of :
    (little : Bool) (rows : ℕ) (cs : List Column) (clear : Bool) (b : NativeWriteBatchBuilder)
    → length cs < 2 ^ 32
    → All (IsColumn rows) cs
    → length (kept clear b.output) + extents cs + 48 ≤ 2 ^ 64
    → (c : NativeWriteBatchBuilder) × (build little rows cs clear b ≡ (ok tt, c))
      × (c.output ≡ kept clear b.output ++ batch_of little rows cs)
      × (bytes c ≡ batch_of little rows cs)
      × (length (bytes c) % 16 ≡ 0)
      × (c.started ≡ false)
unfolding build batch_of opened
build-batch_of little rows cs clear b few h room = (
  record (placed (counted_by (opened rows (length cs)) (length cs)) before (aligned batch)) {
    started = false;
  },
  rw (
    begin-header little rows (length cs) clear b,
    append_columns-layout cs (opened rows (length cs)) before (header little rows (length cs)) refl
        (omega arith) few h (omega (arith, head)),
    finish-layout (counted_by (opened rows (length cs)) (length cs)) before batch refl (omega arith)
        (omega (arith, head, length-with_columns cs (header little rows (length cs)))),
  ),
  refl,
  bytes-placed (counted_by (opened rows (length cs)) (length cs)) before (aligned batch),
  ap (λ (t : List ℕ). length t % 16)
        (bytes-placed (counted_by (opened rows (length cs)) (length cs)) before (aligned batch))
      ∙ omega (arith, length-aligned batch),
  refl,
)
  where
    before : List ℕ
    before = kept clear b.output

    batch : List ℕ
    batch = with_columns (header little rows (length cs)) cs

    head : length (header little rows (length cs)) ≡ 32
    head = length-header little rows (length cs)
