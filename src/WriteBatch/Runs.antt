-- ===== src/WriteBatch/Runs.antt =====
-- Concrete batches, and the theorems at concrete inputs.
use exasol_gateway_sdk.Base.{
  ◌+◌, ◌*◌, ◌/◌, ◌%◌, ◌<◌, List, [], ◌∷◌, ◌++◌, true, false, ok, err, length, some, none, All, ◌≡◌,
  refl, arith, inl, inr, if◌then◌else◌, leb,
}
use exasol_gateway_sdk.Base.Stores.{store, store_u64_loop}
use exasol_gateway_sdk.WriteBatch.{NativeWriteBatchBuilder}
use exasol_gateway_sdk.WriteBatch.Builder.{
  begin, append_native_write_u32, ensure_started, align_output, all_null_bytes, append_null_vector,
  append_fixed_column, described, write_sizes, write_native_u64, append_sizes,
  append_variable_column, finish, bytes,
}
use exasol_gateway_sdk.WriteBatch.Values.{NativeTimestamp, date_ok, from_ymd, from_components}
use exasol_gateway_sdk.WriteBatch.Columns.{
  in_memory, append_typed_fixed_column, append_string_column,
}
use exasol_gateway_sdk.WriteBatch.Typed.{
  cells_of, append_typed_fixed_column-layout, append_string_column-layout,
}
use exasol_gateway_sdk.WriteBatch.Buffers.{placed}
use exasol_gateway_sdk.WriteBatch.Layout.{
  Column, fixed, variable, with_column, IsColumnFor, counted, append_fixed_column-layout,
  append_variable_column-layout,
}
use exasol_gateway_sdk.WriteBatch.Batch.{
  IsColumn, append_column, append_columns, batch_of, build, build-batch_of,
}
use exasol_gateway_sdk.WriteBatch.Atomic.{
  IsAtomic, IsFinished, append_fixed_column-IsAtomic, append_variable_column-IsAtomic,
  finish-IsFinished,
}
use exasol_gateway_sdk.WriteBatch.Dates.{
  invalid_date, from_ymd_lem, from_ymd_month_wraps, from_components_lem,
}

-- Two rows: a number of two bytes, and a text.
abbrev numbers : Column
numbers = fixed (0 ∷ 0xff ∷ []) (7 ∷ 1 ∷ 0 ∷ 0 ∷ [])

abbrev texts : Column
texts = variable (0 ∷ 0 ∷ []) (2 ∷ 1 ∷ []) (104 ∷ 105 ∷ 33 ∷ [])

abbrev columns : List Column
columns = numbers ∷ texts ∷ []

-- A builder over a vector that holds three bytes, for a batch of two columns and two rows.
abbrev fresh : NativeWriteBatchBuilder
fresh = record {
  output = 1 ∷ 2 ∷ 3 ∷ [];
  batch_offset = 3;
  row_count = 2;
  column_count = 2;
  appended_columns = 0;
  started = true;
}

columns-IsColumn : All (IsColumn 2) columns
columns-IsColumn = (
  (refl, (inl refl, (inr refl, tt))),
  ((refl, (inl refl, (inl refl, tt)), refl, refl, omega arith), tt),
)

numbers-IsColumnFor : IsColumnFor fresh (0 ∷ 0xff ∷ [])
numbers-IsColumnFor = record {
  is_open = refl;
  expected = omega arith;
  few_columns = omega arith;
  one_each = refl;
  null_bytes = (inl refl, (inr refl, tt));
}

-- The second column starts at a multiple of 16, and the batch ends at one.
built :
    (build true 2 columns false fresh).1.output
    ≡ 1 ∷ 2 ∷ 3 ∷ 0x53 ∷ 0x47 ∷ 0x57 ∷ 0x42 ∷ 0 ∷ 0 ∷ 0 ∷ 2 ∷ 0 ∷ 0 ∷ 0 ∷ 2 ∷ 0 ∷ 0 ∷ 0 ∷ 2 ∷ 0 ∷ 0
      ∷ 0 ∷ 16 ∷ 0 ∷ 0 ∷ 0 ∷ 8 ∷ 0 ∷ 0 ∷ 0 ∷ 1 ∷ 0 ∷ 0 ∷ 0 ∷ 1 ∷ 0 ∷ 0xff ∷ 0 ∷ 0 ∷ 0 ∷ 0 ∷ 0 ∷ 0
      ∷ 0 ∷ 0 ∷ 0 ∷ 0 ∷ 0 ∷ 0 ∷ 0 ∷ 0 ∷ 7 ∷ 1 ∷ 0 ∷ 0 ∷ 0 ∷ 0 ∷ 0 ∷ 0 ∷ 0 ∷ 0 ∷ 0 ∷ 0 ∷ 0 ∷ 0 ∷ 0
      ∷ 0 ∷ 0 ∷ 0 ∷ 0 ∷ 0 ∷ 0 ∷ 0 ∷ 0 ∷ 0 ∷ 0 ∷ 0 ∷ 0 ∷ 0 ∷ 0 ∷ 0 ∷ 0 ∷ 0 ∷ 0 ∷ 0 ∷ 0 ∷ 0 ∷ 0 ∷ 0
      ∷ 0 ∷ 2 ∷ 0 ∷ 0 ∷ 0 ∷ 0 ∷ 0 ∷ 0 ∷ 0 ∷ 1 ∷ 0 ∷ 0 ∷ 0 ∷ 3 ∷ 0 ∷ 0 ∷ 0 ∷ 0 ∷ 0 ∷ 0 ∷ 0 ∷ 0 ∷ 0
      ∷ 0 ∷ 0 ∷ 0 ∷ 104 ∷ 105 ∷ 33 ∷ 0 ∷ 0 ∷ 0 ∷ 0 ∷ 0 ∷ 0 ∷ 0 ∷ 0 ∷ 0 ∷ 0 ∷ 0 ∷ 0 ∷ 0 ∷ []
unfolding build begin append_native_write_u32 append_columns append_column append_fixed_column
    append_variable_column ensure_started append_null_vector all_null_bytes align_output described
    append_sizes write_sizes write_native_u64 store_u64_loop store finish
built = refl

leap_day :
    (from_ymd 2024 2 29 ≡ ok (record { packed = 0x07e8_021d }))
    × (from_ymd 2023 2 29 ≡ err invalid_date)
unfolding from_ymd date_ok
leap_day = (refl, refl)

month_257 : from_ymd 2024 257 1 ≡ from_ymd 2025 1 1
unfolding from_ymd date_ok
month_257 = refl

build-batch_of_example :
    (c : NativeWriteBatchBuilder) × (build true 2 columns false fresh ≡ (ok tt, c))
    × (c.output ≡ (1 ∷ 2 ∷ 3 ∷ []) ++ batch_of true 2 columns)
    × (bytes c ≡ batch_of true 2 columns)
    × (length (bytes c) % 16 ≡ 0)
    × (c.started ≡ false)
build-batch_of_example =
    build-batch_of true 2 columns false fresh (omega arith) columns-IsColumn (omega arith)

append_fixed_column-layout_example :
    append_fixed_column (0 ∷ 0xff ∷ []) (7 ∷ 1 ∷ 0 ∷ 0 ∷ []) (placed fresh (1 ∷ []) (9 ∷ []))
    ≡ (ok tt, placed (counted fresh) (1 ∷ []) (with_column (9 ∷ []) numbers))
append_fixed_column-layout_example =
    append_fixed_column-layout fresh (1 ∷ []) (9 ∷ []) (0 ∷ 0xff ∷ []) (7 ∷ 1 ∷ 0 ∷ 0 ∷ [])
      numbers-IsColumnFor (omega arith)

append_variable_column-layout_example :
    append_variable_column (0 ∷ 0xff ∷ []) (2 ∷ 0 ∷ []) (104 ∷ 105 ∷ []) (placed fresh (1 ∷ []) [])
    ≡ (
      ok tt,
      placed
          (counted fresh)
          (1 ∷ [])
          (with_column [] (variable (0 ∷ 0xff ∷ []) (2 ∷ 0 ∷ []) (104 ∷ 105 ∷ []))),
    )
append_variable_column-layout_example =
    append_variable_column-layout fresh (1 ∷ []) [] (0 ∷ 0xff ∷ []) (2 ∷ 0 ∷ []) (104 ∷ 105 ∷ [])
      numbers-IsColumnFor refl refl (omega arith) (omega arith)

append_typed_fixed_column-layout_example :
    append_typed_fixed_column
      (in_memory true 4)
      (in_memory true 4 0)
      (some 5 ∷ none ∷ [])
      (placed fresh [] [])
    ≡ (
      ok tt,
      placed (counted fresh) [] (
          with_column [] (
            fixed
              (0 ∷ 0xff ∷ [])
              (cells_of (in_memory true 4) (in_memory true 4 0) (some 5 ∷ none ∷ [])))),
    )
append_typed_fixed_column-layout_example =
    append_typed_fixed_column-layout (in_memory true 4) (in_memory true 4 0) (some 5 ∷ none ∷ [])
      fresh [] [] refl (omega arith) (omega arith) refl (omega arith)

append_string_column-layout_example :
    append_string_column (some (104 ∷ 105 ∷ []) ∷ none ∷ []) (placed fresh [] []) ≡ (
      ok tt,
      placed
          (counted fresh)
          []
          (with_column [] (variable (0 ∷ 0xff ∷ []) (2 ∷ 0 ∷ []) (104 ∷ 105 ∷ []))),
    )
append_string_column-layout_example =
    append_string_column-layout (some (104 ∷ 105 ∷ []) ∷ none ∷ []) fresh [] [] refl (omega arith)
      (omega arith) refl (omega arith) (omega arith)

append_fixed_column-IsAtomic_example :
    IsAtomic
      (placed fresh [] (9 ∷ []))
      (append_fixed_column (5 ∷ 0 ∷ []) [] (placed fresh [] (9 ∷ [])))
append_fixed_column-IsAtomic_example =
    append_fixed_column-IsAtomic fresh [] (9 ∷ []) (5 ∷ 0 ∷ []) [] (omega arith)

append_variable_column-IsAtomic_example :
    IsAtomic
      (placed fresh [] [])
      (append_variable_column (0 ∷ 0 ∷ []) (1 ∷ 1 ∷ []) (8 ∷ []) (placed fresh [] []))
append_variable_column-IsAtomic_example =
    append_variable_column-IsAtomic fresh [] [] (0 ∷ 0 ∷ []) (1 ∷ 1 ∷ []) (8 ∷ []) (omega arith)

finish-IsFinished_example : IsFinished fresh [] [] (finish (placed fresh [] []))
finish-IsFinished_example = finish-IsFinished fresh [] [] (omega arith)

from_ymd_lem_example : from_ymd 2024 2 30 ≡ (
    if leb 2024 9999
    then (if date_ok 2024 2 30
        then ok (record { packed = (2024 * 256 + 2) * 256 + 30 })
        else err invalid_date)
    else err invalid_date)
from_ymd_lem_example = from_ymd_lem 2024 2 30 (omega arith) (omega arith)

from_ymd_month_wraps_example :
    from_ymd (2 * 1012) (12 + 256) 31 ≡ ok (record { packed = (2025 * 256 + 12) * 256 + 31 })
from_ymd_month_wraps_example =
    from_ymd_month_wraps 1012 12 31 (omega arith) (unfold date_ok in refl)

abbrev noon : NativeTimestamp
noon = record {
  nanosecond = 5;
  seconds_since_midnight = 43261;
  date = record { packed = 0x07e8_021d };
  padding = 0;
}

from_components_lem_example :
    (from_ymd 2024 2 29 ≡ ok noon.date)
    × (43261 < 86400)
    × (noon.seconds_since_midnight / 3600 ≡ 12)
    × (noon.seconds_since_midnight / 60 % 60 ≡ 1)
    × (noon.seconds_since_midnight % 60 ≡ 1)
    × (noon.nanosecond ≡ 5)
    × (5 < 1000000000)
    × (noon.padding ≡ 0)
from_components_lem_example =
    from_components_lem 2024 2 29 12 1 1 5 noon (unfold from_components from_ymd date_ok in refl)
