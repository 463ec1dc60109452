-- ===== src/CApi/Reads.antt =====
-- src/c_api.cpp: the index of a native read batch and the arguments are read within their bounds.
use Prim.Native.String.{String}
use exasol_gateway_sdk.Base.{
  ℕ, zero, suc, ◌^◌, ◌-◌, List, [], ◌∷◌, Option, none, some, Bool, true, false, leb, not, ◌==◌,
  ◌||◌, length, ◌≡◌, ◌≤◌, refl, arith, IsSafe, le→leb,
}
use exasol_gateway_sdk.Base.Outcome.{Result, ok, err, fault, >>=-IsSafe, require, followed_by}
use exasol_gateway_sdk.Session.{Arrow}
use exasol_gateway_sdk.CApi.{text_of}
use exasol_gateway_sdk.CApi.Arguments.{
  is_null, table_name, names_at, column_names, locations_at, locations,
}
use exasol_gateway_sdk.CApi.Handles.{
  span_of, Fields, schema_read, column_index, decode_schema, projected_fields, project_schema,
  columns_of,
}
use exasol_gateway_sdk.CApi.Names.{IsColumnNames, column_names-IsColumnNames}

-- An array of as many elements as are wanted, or a null pointer.
abbrev pub IsReadable {ℓ} : {A : Type ℓ} → Option (List A) → ℕ → Type 0
IsReadable none count = Unit {0}
IsReadable (some values) count = count ≤ length values

pub text_of-IsSafe : (value : Option (List ℕ)) (message : String) → IsSafe (text_of value message)
unfolding text_of
text_of-IsSafe none message = tt
text_of-IsSafe (some []) message = tt
text_of-IsSafe (some (c ∷ cs)) message = tt

pub table_name-IsSafe : (schema table : Option (List ℕ)) → IsSafe (table_name schema table)
unfolding table_name
table_name-IsSafe schema table =
    >>=-IsSafe (text_of schema _) _ (text_of-IsSafe schema _)
      λ _ _. >>=-IsSafe (text_of table _) _ (text_of-IsSafe table _) λ _ _. tt

-- After a test that is not needed here, and after one that is.
test_first {ℓ} :
    {A : Type ℓ} (b : Bool) (message : String) (r : Result A)
    → (b ≡ true → IsSafe r)
    → IsSafe (followed_by (λ _. r) (require b message))
test_first true message r h = h refl
test_first false message r h = tt

suc_nonzero : (n : ℕ) → (suc n == 0) ≡ false
suc_nonzero n = ground arith

pub column_names-IsSafe :
    (columns : Option (List (Option (List ℕ)))) (count : ℕ)
    → IsReadable columns count
    → IsSafe (column_names columns count)
unfolding column_names names_at
column_names-IsSafe none zero h = tt
column_names-IsSafe none (suc count) h =
    test_first (leb (suc count) 0xffffffff) "too many SessionGW columns" _
      λ _. rw (suc_nonzero count) tt
column_names-IsSafe (some columns) count h =
    named (column_names (some columns) count) (column_names-IsColumnNames columns count h)
  where
    named : (r : Result (List (List ℕ))) → IsColumnNames columns count r → IsSafe r
    named (ok names) k = tt
    named (err thrown) k = tt
    named fault k = k

locations_at-IsSafe :
    (rows : List ℕ) (count : ℕ) → count ≤ length rows → IsSafe (locations_at rows count)
unfolding locations_at
locations_at-IsSafe rows zero h = tt
locations_at-IsSafe [] (suc count) h = absurd (omega (arith, h))
locations_at-IsSafe (row ∷ rows) (suc count) h =
    >>=-IsSafe (locations_at rows count) _ (locations_at-IsSafe rows count (omega (arith, h)))
      λ _ _. tt

pub locations-IsSafe :
    (rows : Option (List ℕ)) (count : ℕ) → IsReadable rows count → IsSafe (locations rows count)
unfolding locations locations_at
locations-IsSafe none zero h = tt
locations-IsSafe none (suc count) h =
    test_first (leb (suc count) 0xffffffff) "too many SessionGW row locations" _
      λ _. rw (suc_nonzero count) tt
locations-IsSafe (some rows) count h =
    test_first (leb count 0xffffffff) "too many SessionGW row locations" _ λ _.
      test_first (count == 0 || true) "SessionGW row locations are required" _
        λ _. locations_at-IsSafe rows count h

pub span_of-IsSafe :
    (bytes : Option (List ℕ)) (size : ℕ)
    → (size == 0 || not (is_null bytes)) ≡ true
    → IsReadable bytes size
    → IsSafe (span_of bytes size)
unfolding span_of
span_of-IsSafe none zero given h = tt
span_of-IsSafe none (suc size) given h = absurd (ground (arith, given))
span_of-IsSafe (some bytes) size given h = rw (le→leb size (length bytes) h) tt

module _ {Schema RecordBatch Field : Type 0} (arrow : Arrow Schema RecordBatch)
    (fields : Fields Schema Field) where
  decode_schema-IsSafe :
      (bytes : Option (List ℕ)) (size : ℕ)
      → IsReadable bytes size
      → IsSafe (decode_schema arrow fields bytes size)
  unfolding decode_schema
  decode_schema-IsSafe none size h = tt
  decode_schema-IsSafe (some bytes) size h =
      test_first (not (size == 0)) "SessionGW Arrow schema is required" _ λ _.
        test_first (leb size (2 ^ 63 - 1)) "SessionGW Arrow schema is too large" _ λ _.
          >>=-IsSafe (span_of (some bytes) size) _
            (span_of-IsSafe (some bytes) size (or_true (size == 0)) h)
            λ copy _. read (arrow.read_schema copy)
    where
      or_true : (b : Bool) → (b || true) ≡ true
      or_true true = refl
      or_true false = refl

      read : (found : Option Schema) → IsSafe (schema_read found)
      read none = tt
      read (some schema) = tt

  projected_fields-IsSafe :
      (schema : Schema) (columns : List (List ℕ))
      → IsSafe (projected_fields arrow fields schema columns)
  unfolding projected_fields
  projected_fields-IsSafe schema [] = tt
  projected_fields-IsSafe schema (column ∷ columns) =
      >>=-IsSafe (column_index (fields.get_field_index schema column)) _
        (indexed (fields.get_field_index schema column))
        λ _ _.
          >>=-IsSafe (projected_fields arrow fields schema columns) _
            (projected_fields-IsSafe schema columns) λ _ _. tt
    where
      indexed : (found : Option ℕ) → IsSafe (column_index found)
      indexed none = tt
      indexed (some index) = tt

  pub columns_of-IsSafe :
      (columns : Option (List (Option (List ℕ)))) (count : ℕ) (ipc : Option (List ℕ)) (size : ℕ)
      → IsReadable columns count
      → IsReadable ipc size
      → IsSafe (columns_of arrow fields columns count ipc size)
  unfolding columns_of project_schema
  columns_of-IsSafe columns count ipc size h k =
      >>=-IsSafe (column_names columns count) _ (column_names-IsSafe columns count h) λ names _.
        >>=-IsSafe (decode_schema arrow fields ipc size) _ (decode_schema-IsSafe ipc size k)
          λ decoded _.
            >>=-IsSafe (project_schema arrow fields decoded names) _
              (>>=-IsSafe (projected_fields arrow fields decoded names) _
                (projected_fields-IsSafe decoded names) λ _ _. tt)
              λ _ _. tt
