-- ===== src/WriteBatch/Builder.antt =====
-- src/native_write_batch.cpp: the builder. Running out of memory is not modelled.
use exasol_gateway_sdk.Errors.{protocol_error, resource_limit}
use exasol_gateway_sdk.Base.{
  ℕ, ◌+◌, ◌-◌, ◌*◌, ◌/◌, ◌%◌, ◌^◌, bit_and, List, [], ◌∷◌, ◌++◌, Bool, true, false, ◌&&◌, ◌||◌, not,
  Result, ltb, leb, ◌==◌, length, drop, if◌then◌else◌,
}
use exasol_gateway_sdk.Base.Outcome
use exasol_gateway_sdk.Base.Stores.{Writes, byte_of, store_u64_loop, resize}
use exasol_gateway_sdk.Base.State.{Action, pure, ◌>>=◌, ◌>>◌, get, modify, lift, throw, require}
use exasol_gateway_sdk.WriteBatch.{
  NativeWriteBatchBuilder, native_write_batch_magic, native_write_batch_version,
  native_write_batch_alignment, native_write_batch_size_width, native_write_batch_scalar_abi,
  native_write_batch_scalar_endianness, native_write_not_null, native_write_null, size_max,
  sub_size,
}

abbrev pub Building {ℓ} : Type ℓ → Type ℓ
Building A = Action NativeWriteBatchBuilder A

-- `output[0..7] = value`, at a position.
unfoldable pub write_native_u64 : ℕ → ℕ → Writes
write_native_u64 output v = store_u64_loop 8 0 output v

unfoldable pub append_native_write_u32 : List ℕ → ℕ → List ℕ
append_native_write_u32 output v =
    output ++ (byte_of v 24 ∷ byte_of v 16 ∷ byte_of v 8 ∷ byte_of v 0 ∷ [])

unfoldable pub append_native_write_u64 : ℕ → Writes
append_native_write_u64 v = do
  output ← get
  if ltb (size_max - 8) (length output)
      then throw resource_limit "SessionGW native size word overflows"
      else (modify (resize (length output + 8)) >> write_native_u64 (length output) v)

unfoldable pub append_native_write_bytes : List ℕ → List ℕ → List ℕ
append_native_write_bytes output bytes = output ++ bytes

-- `x & ~(native_write_batch_alignment - 1U)`
abbrev pub clear_low_bits : ℕ → ℕ
clear_low_bits x = bit_and x (2 ^ 64 - 16)

unfoldable pub align_native_write_batch : List ℕ → List ℕ
align_native_write_batch output =
    resize (clear_low_bits ((length output + native_write_batch_alignment - 1) % 2 ^ 64)) output

-- An action on the vector that the builder refers to.
abbrev pub store_output :
    NativeWriteBatchBuilder
    → Result (Unit {0}) × List ℕ
    → Result (Unit {0}) × NativeWriteBatchBuilder
store_output b (r, output) = (r, record b { output = output })

abbrev pub on_output : Writes → Building (Unit {0})
on_output w b = store_output b (w b.output)

abbrev pub insert : List ℕ → Building (Unit {0})
insert xs = modify λ b. record b { output = b.output ++ xs }

unfoldable pub begin : Bool → ℕ → ℕ → Bool → Building (Unit {0})
begin little row_count column_count clear_output b =
    let output = if clear_output then [] else b.output in
    let o1 = append_native_write_u32 output native_write_batch_magic in
    let o2 = append_native_write_u32 o1 native_write_batch_version in
    let o3 = append_native_write_u32 o2 row_count in
    let o4 = append_native_write_u32 o3 column_count in
    let o5 = append_native_write_u32 o4 native_write_batch_alignment in
    let o6 = append_native_write_u32 o5 native_write_batch_size_width in
    let o7 = append_native_write_u32 o6 (native_write_batch_scalar_endianness little) in
    let o8 = append_native_write_u32 o7 native_write_batch_scalar_abi in
    (
      Outcome.Result.ok tt,
      record {
        output = o8;
        batch_offset = length output;
        row_count = row_count;
        column_count = column_count;
        appended_columns = 0;
        started = true;
      },
    )

unfoldable pub ensure_started : Building (Unit {0})
ensure_started b = require b.started "SessionGW native write batch builder is not open" b

unfoldable pub align_output : Building (Unit {0})
align_output b =
    let relative = sub_size (length b.output) b.batch_offset in
    let aligned = clear_low_bits ((relative + (native_write_batch_alignment - 1)) % 2 ^ 64) in
    if ltb (size_max - (native_write_batch_alignment - 1)) relative
    then throw resource_limit "SessionGW native batch alignment overflows" b
    else if ltb (size_max - aligned) b.batch_offset
    then throw resource_limit "SessionGW native batch size overflows" b
    else (Outcome.Result.ok tt, record b { output = resize (b.batch_offset + aligned) b.output })

unfoldable pub all_null_bytes : List ℕ → Bool
all_null_bytes [] = true
all_null_bytes (b ∷ bs) =
    (b == native_write_not_null || b == native_write_null) && all_null_bytes bs

unfoldable pub append_null_vector : List ℕ → Building (Unit {0})
append_null_vector null_vector = do
  b ← get
  require (not (leb b.column_count b.appended_columns || not (length null_vector == b.row_count)))
      "SessionGW native null-vector size or column count is invalid"
  require (all_null_bytes null_vector)
      "SessionGW native write batch null vector must contain only 0x00 or 0xff"
  align_output
  insert null_vector

abbrev pub count_column : Building (Unit {0})
count_column = modify λ b. record b { appended_columns = (b.appended_columns + 1) % 2 ^ 32 }

unfoldable pub append_fixed_column : List ℕ → List ℕ → Building (Unit {0})
append_fixed_column null_vector fixed_data = do
  ensure_started
  append_null_vector null_vector
  align_output
  insert fixed_data
  count_column

-- The loop over the sizes: their sum, if it never exceeds the data.
unfoldable pub described : List ℕ → ℕ → ℕ → Result ℕ
described [] extent total = Outcome.Result.ok total
described (size ∷ sizes) extent total =
    if ltb (sub_size extent total) size
    then Outcome.throw protocol_error "SessionGW native variable sizes exceed the data extent"
    else described sizes extent ((total + size) % 2 ^ 64)

-- The loop that stores the sizes, at row `row`.
unfoldable pub write_sizes : List ℕ → ℕ → ℕ → Writes
write_sizes [] row offset = pure tt
write_sizes (size ∷ sizes) row offset = do
  write_native_u64 (offset + row * 8) size
  write_sizes sizes (row + 1) offset

-- The size vector in one piece: room for it, then the stores.
unfoldable pub append_sizes : List ℕ → Building (Unit {0})
append_sizes sizes = do
  b ← get
  if ltb (sub_size size_max (length b.output) / 8) (length sizes)
      then throw resource_limit "SessionGW native size vector overflows"
      else on_output (
          modify (resize (length b.output + length sizes * 8))
          >> write_sizes sizes 0 (length b.output))

unfoldable pub append_variable_column : List ℕ → List ℕ → List ℕ → Building (Unit {0})
append_variable_column null_vector sizes variable_data = do
  ensure_started
  b ← get
  require (length sizes == b.row_count)
      "SessionGW native variable-size count does not match row count"
  if ltb 0xffff_ffff (length variable_data)
      then throw resource_limit "SessionGW native variable column data is too large"
      else pure tt
  total ← lift (described sizes (length variable_data) 0)
  require (total == length variable_data)
      "SessionGW native variable sizes do not cover the data extent"
  append_null_vector null_vector
  align_output
  append_sizes sizes
  modify (λ c. record c { output = append_native_write_u32 c.output (length variable_data) })
  align_output
  insert variable_data
  count_column

unfoldable pub finish : Building (Unit {0})
finish = do
  ensure_started
  b ← get
  require (b.appended_columns == b.column_count)
      "SessionGW native column count does not match batch header"
  align_output
  modify (λ c. record c { started = false })

unfoldable pub batch_size : NativeWriteBatchBuilder → ℕ
batch_size b = sub_size (length b.output) b.batch_offset

-- The span of the batch within the vector.
unfoldable pub bytes : NativeWriteBatchBuilder → List ℕ
bytes b = drop b.batch_offset b.output
