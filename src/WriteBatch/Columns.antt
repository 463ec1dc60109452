-- ===== src/WriteBatch/Columns.antt =====
-- src/native_write_batch.cpp: the columns of typed values. Values go out in the machine's byte order,
-- `true` for little-endian; a signed or floating-point number is its bit pattern.
use exasol_gateway_sdk.Base.{
  ℕ, zero, suc, ◌/◌, ◌%◌, List, [], ◌∷◌, ◌++◌, Bool, length, Option, none, some, if◌then◌else◌,
}
use exasol_gateway_sdk.Base.Bytes.{big_endian}
use exasol_gateway_sdk.WriteBatch.{native_write_not_null, native_write_null}
use exasol_gateway_sdk.WriteBatch.Values.{NativeDate, NativeDecimal128, NativeTimestamp}
use exasol_gateway_sdk.WriteBatch.Builder.{
  Building, append_native_write_bytes, append_fixed_column, append_variable_column,
}

-- The `k` bytes of `v`, lowest first.
unfoldable pub little_endian : ℕ → ℕ → List ℕ
little_endian zero v = []
little_endian (suc k) v = v % 256 ∷ little_endian k (v / 256)

-- A number of `k` bytes as it lies in memory.
unfoldable pub in_memory : Bool → ℕ → ℕ → List ℕ
unfolding little_endian
in_memory little k v = if little then little_endian k v else big_endian k v

module _ {A : Type 0} where
  abbrev pub null_byte : Option A → ℕ
  null_byte (some a) = native_write_not_null
  null_byte none = native_write_null

  abbrev pub convert_or : (A → List ℕ) → List ℕ → Option A → List ℕ
  convert_or convert empty (some a) = convert a
  convert_or convert empty none = empty

  -- The loop over the values, with the two vectors that it fills.
  unfoldable pub fixed_loop :
      (A → List ℕ) → List ℕ → List (Option A) → List ℕ → List ℕ → List ℕ × List ℕ
  unfolding append_native_write_bytes
  fixed_loop convert empty [] nulls fixed = (nulls, fixed)
  fixed_loop convert empty (v ∷ vs) nulls fixed =
      fixed_loop convert empty vs (nulls ++ null_byte v ∷ [])
        (append_native_write_bytes fixed (convert_or convert empty v))

  -- `convert` gives a value's bytes in memory, and `empty` those of a value-initialised one.
  unfoldable pub append_typed_fixed_column :
      (A → List ℕ) → List ℕ → List (Option A) → Building (Unit {0})
  append_typed_fixed_column convert empty values =
      let (nulls, fixed) = fixed_loop convert empty values [] [] in append_fixed_column nulls fixed

module _ (little : Bool) where
  unfoldable pub append_identity_fixed_column : ℕ → List (Option ℕ) → Building (Unit {0})
  append_identity_fixed_column width values =
      append_typed_fixed_column (in_memory little width) (in_memory little width 0) values

  unfoldable pub append_boolean_column : List (Option Bool) → Building (Unit {0})
  append_boolean_column values =
      append_typed_fixed_column (λ b. in_memory little 1 (if b then 0xff else 0))
        (in_memory little 1 0) values

  unfoldable pub append_decimal32_column : List (Option ℕ) → Building (Unit {0})
  append_decimal32_column values = append_identity_fixed_column 4 values

  unfoldable pub append_decimal64_column : List (Option ℕ) → Building (Unit {0})
  append_decimal64_column values = append_identity_fixed_column 8 values

  unfoldable pub decimal128_bytes : NativeDecimal128 → List ℕ
  decimal128_bytes d =
      if little
      then in_memory little 8 d.low ++ in_memory little 8 d.high
      else in_memory little 8 d.high ++ in_memory little 8 d.low

  unfoldable pub append_decimal128_column : List (Option NativeDecimal128) → Building (Unit {0})
  append_decimal128_column values =
      append_typed_fixed_column decimal128_bytes (decimal128_bytes (record { low = 0; high = 0 }))
        values

  unfoldable pub append_double_column : List (Option ℕ) → Building (Unit {0})
  append_double_column values = append_identity_fixed_column 8 values

  unfoldable pub append_date_column : List (Option NativeDate) → Building (Unit {0})
  append_date_column values =
      append_typed_fixed_column (λ d. in_memory little 4 d.packed) (in_memory little 4 0) values

  -- The four words of the structure, in its order.
  unfoldable pub timestamp_bytes : NativeTimestamp → List ℕ
  timestamp_bytes t =
      in_memory little 4 t.nanosecond
      ++ (in_memory little 4 t.seconds_since_midnight
          ++ (in_memory little 4 t.date.packed ++ in_memory little 4 t.padding))

  unfoldable pub append_timestamp_column : List (Option NativeTimestamp) → Building (Unit {0})
  append_timestamp_column values =
      append_typed_fixed_column timestamp_bytes
        (timestamp_bytes (record {
          nanosecond = 0;
          seconds_since_midnight = 0;
          date = record { packed = 0 };
          padding = 0;
        }))
        values

-- `value.value_or(std::string_view{})`
abbrev pub text_or_empty : Option (List ℕ) → List ℕ
text_or_empty (some t) = t
text_or_empty none = []

unfoldable pub string_loop :
    List (Option (List ℕ)) → List ℕ → List ℕ → List ℕ → List ℕ × List ℕ × List ℕ
string_loop [] nulls sizes variable = (nulls, sizes, variable)
string_loop (v ∷ vs) nulls sizes variable =
    string_loop vs (nulls ++ null_byte v ∷ []) (sizes ++ length (text_or_empty v) ∷ [])
      (variable ++ text_or_empty v)

unfoldable pub append_string_column : List (Option (List ℕ)) → Building (Unit {0})
append_string_column values =
    let (nulls, sizes, variable) = string_loop values [] [] [] in
    append_variable_column nulls sizes variable
