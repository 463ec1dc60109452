-- ===== src/WriteBatch/Typed.antt =====
-- The columns of typed values fit their batch.
use exasol_gateway_sdk.Base.{
  ℕ, suc, ◌+◌, ◌*◌, ◌^◌, ◌≤◌, ◌<◌, List, [], ◌∷◌, ◌++◌, true, ok, length, Option, none, some, All,
  append_assoc, append-nil, length-append, ◌≡◌, refl, sym, ap, ap₂, ◌∙◌, arith, inl, inr,
}
use exasol_gateway_sdk.WriteBatch.{NativeWriteBatchBuilder}
use exasol_gateway_sdk.WriteBatch.Builder.{append_native_write_bytes}
use exasol_gateway_sdk.WriteBatch.Columns.{
  fixed_loop, append_typed_fixed_column, string_loop, append_string_column,
}
use exasol_gateway_sdk.WriteBatch.Buffers.{placed, IsNullByte}
use exasol_gateway_sdk.WriteBatch.Layout.{
  fixed, variable, with_column, counted, total, append_fixed_column-layout,
  append_variable_column-layout,
}

module _ {A : Type 0} where
  -- The format of a null vector: 0x00 for a value, 0xff for none.
  abbrev pub nulls_of : List (Option A) → List ℕ
  nulls_of [] = []
  nulls_of (some a ∷ vs) = 0x00 ∷ nulls_of vs
  nulls_of (none ∷ vs) = 0xff ∷ nulls_of vs

  -- The format of fixed-width data: a value's bytes, or the empty value's.
  abbrev pub cells_of : (A → List ℕ) → List ℕ → List (Option A) → List ℕ
  cells_of convert empty [] = []
  cells_of convert empty (some a ∷ vs) = convert a ++ cells_of convert empty vs
  cells_of convert empty (none ∷ vs) = empty ++ cells_of convert empty vs

  nulls_of-null_bytes : (vs : List (Option A)) → All IsNullByte (nulls_of vs)
  nulls_of-null_bytes [] = tt
  nulls_of-null_bytes (some a ∷ vs) = (inl refl, nulls_of-null_bytes vs)
  nulls_of-null_bytes (none ∷ vs) = (inr refl, nulls_of-null_bytes vs)

  length-nulls_of : (vs : List (Option A)) → length (nulls_of vs) ≡ length vs
  length-nulls_of [] = refl
  length-nulls_of (some a ∷ vs) = ap suc (length-nulls_of vs)
  length-nulls_of (none ∷ vs) = ap suc (length-nulls_of vs)

  fixed_loop-values :
      (convert : A → List ℕ) (empty : List ℕ) (vs : List (Option A)) (nulls done : List ℕ)
      → fixed_loop convert empty vs nulls done
        ≡ (nulls ++ nulls_of vs, done ++ cells_of convert empty vs)
  unfolding fixed_loop append_native_write_bytes
  fixed_loop-values convert empty [] nulls done =
      ap₂ (λ (x y : List ℕ). (x, y)) (sym (append-nil nulls)) (sym (append-nil done))
  fixed_loop-values convert empty (some a ∷ vs) nulls done =
      fixed_loop-values convert empty vs _ _
      ∙ ap₂ (λ (x y : List ℕ). (x, y)) (append_assoc nulls (0x00 ∷ []) (nulls_of vs))
          (append_assoc done (convert a) (cells_of convert empty vs))
  fixed_loop-values convert empty (none ∷ vs) nulls done =
      fixed_loop-values convert empty vs _ _
      ∙ ap₂ (λ (x y : List ℕ). (x, y)) (append_assoc nulls (0xff ∷ []) (nulls_of vs))
          (append_assoc done (empty) (cells_of convert empty vs))

-- Any values of a fixed-width type, one for each row, make a column that an open builder with a column
-- to come takes: null bytes that say which rows have a value, and the values' bytes, with the empty
-- value's in the rows that have none.
pub append_typed_fixed_column-layout :
    {A : Type 0} (convert : A → List ℕ) (empty : List ℕ) (vs : List (Option A))
    (b : NativeWriteBatchBuilder) (before batch : List ℕ)
    → b.started ≡ true
    → b.appended_columns < b.column_count
    → b.column_count < 2 ^ 32
    → length vs ≡ b.row_count
    → length before + length batch + length vs + 32 ≤ 2 ^ 64
    → append_typed_fixed_column convert empty vs (placed b before batch) ≡ (
      ok tt,
      placed
          (counted b)
          before
          (with_column batch (fixed (nulls_of vs) (cells_of convert empty vs))),
    )
unfolding append_typed_fixed_column
append_typed_fixed_column-layout convert empty vs b before batch is_open expected few rows room =
    rw (fixed_loop-values convert empty vs [] []) (
      append_fixed_column-layout b before batch (nulls_of vs) (cells_of convert empty vs)
        (record {
          is_open = is_open;
          expected = expected;
          few_columns = few;
          one_each = length-nulls_of vs ∙ rows;
          null_bytes = nulls_of-null_bytes vs;
        })
        (omega (arith, length-nulls_of vs)))

-- The format of variable-width data: the strings one behind the other, and the length of each.
abbrev pub texts_of : List (Option (List ℕ)) → List ℕ
texts_of [] = []
texts_of (some t ∷ vs) = t ++ texts_of vs
texts_of (none ∷ vs) = texts_of vs

abbrev pub sizes_of : List (Option (List ℕ)) → List ℕ
sizes_of [] = []
sizes_of (some t ∷ vs) = length t ∷ sizes_of vs
sizes_of (none ∷ vs) = 0 ∷ sizes_of vs

length-sizes_of : (vs : List (Option (List ℕ))) → length (sizes_of vs) ≡ length vs
length-sizes_of [] = refl
length-sizes_of (some t ∷ vs) = ap suc (length-sizes_of vs)
length-sizes_of (none ∷ vs) = ap suc (length-sizes_of vs)

total-sizes_of : (vs : List (Option (List ℕ))) → total (sizes_of vs) ≡ length (texts_of vs)
total-sizes_of [] = refl
total-sizes_of (some t ∷ vs) =
    ap (◌+◌ (length t)) (total-sizes_of vs) ∙ sym (length-append t (texts_of vs))
total-sizes_of (none ∷ vs) = omega (arith, total-sizes_of vs)

string_loop-values :
    (vs : List (Option (List ℕ))) (nulls sizes done : List ℕ)
    → string_loop vs nulls sizes done
      ≡ (nulls ++ nulls_of vs, sizes ++ sizes_of vs, done ++ texts_of vs)
unfolding string_loop
string_loop-values [] nulls sizes done =
    λ i. (sym (append-nil nulls) i, sym (append-nil sizes) i, sym (append-nil done) i)
string_loop-values (some t ∷ vs) nulls sizes done = string_loop-values vs _ _ _ ∙ λ i. (
  append_assoc nulls (0x00 ∷ []) (nulls_of vs) i,
  append_assoc sizes (length t ∷ []) (sizes_of vs) i,
  append_assoc done t (texts_of vs) i,
)
string_loop-values (none ∷ vs) nulls sizes done = string_loop-values vs _ _ _ ∙ λ i. (
  append_assoc nulls (0xff ∷ []) (nulls_of vs) i,
  append_assoc sizes (0 ∷ []) (sizes_of vs) i,
  append_assoc done [] (texts_of vs) i,
)

-- Any strings, one or none for each row, with less than 2 ^ 32 bytes in all, make a column that an
-- open builder with a column to come takes: the sizes are the strings' lengths, zero in the rows that
-- have none, and the data is the strings one behind the other.
pub append_string_column-layout :
    (vs : List (Option (List ℕ))) (b : NativeWriteBatchBuilder) (before batch : List ℕ)
    → b.started ≡ true
    → b.appended_columns < b.column_count
    → b.column_count < 2 ^ 32
    → length vs ≡ b.row_count
    → length (texts_of vs) < 2 ^ 32
    → length before + length batch + length vs * 9 + 64 ≤ 2 ^ 64
    → append_string_column vs (placed b before batch) ≡ (
      ok tt,
      placed
          (counted b)
          before
          (with_column batch (variable (nulls_of vs) (sizes_of vs) (texts_of vs))),
    )
unfolding append_string_column
append_string_column-layout vs b before batch is_open expected few rows small room =
    rw (string_loop-values vs [] [] []) (
      append_variable_column-layout b before batch (nulls_of vs) (sizes_of vs) (texts_of vs)
        (record {
          is_open = is_open;
          expected = expected;
          few_columns = few;
          one_each = length-nulls_of vs ∙ rows;
          null_bytes = nulls_of-null_bytes vs;
        })
        (length-sizes_of vs ∙ rows) (total-sizes_of vs) small
        (omega (arith, length-nulls_of vs, length-sizes_of vs)))
