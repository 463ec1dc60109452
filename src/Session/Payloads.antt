-- ===== src/Session/Payloads.antt =====
-- The payloads of the requests are written, and those of the responses are read, without an access
-- out of range: the code returns or throws an error of a category of the protocol.
use Prim.Native.String.{String}
use exasol_gateway_sdk.Base.{
  ℕ, ◌^◌, ◌-◌, List, [], ◌∷◌, Option, none, some, Bool, ◌&&◌, leb, ltb, ◌==◌, length, refl,
  Bool-cases, Option-cases, inl, inr, if◌then◌else◌, Result,
}
use exasol_gateway_sdk.Base.Outcome.{ok, err, fault, followed_by}
use exasol_gateway_sdk.Base.Judged.{IsJudged, and_then-IsJudged, lifted-IsJudged, checked-IsJudged}
use exasol_gateway_sdk.Base.State.{lift, pure}
use exasol_gateway_sdk.Session.{Arrow, RowLocation, TableName, Cursor}
use exasol_gateway_sdk.Session.Codec.{
  append_u8, Writing, append_u32, append_u64, append_string16, append_string32, append_bytes32,
  append_u16, append_all, append_locations, table_payload, native_payload, nonempty,
}
use exasol_gateway_sdk.Session.Reads.{
  read_u8-IsJudged, read_u32-IsJudged, read_u64-IsJudged, read_string16-IsJudged,
  read_bytes32-IsJudged, read_all-IsJudged, read_location-IsJudged, ensure_consumed-IsJudged,
}
use exasol_gateway_sdk.Session.Schema.{
  digits_from, all_parsed, from_chars, table_row_count, owned_buffer, decode_schema, encode_schema,
  decode_batch,
}
use exasol_gateway_sdk.Session.ReadBatch.{validate_native_read_batch}
use exasol_gateway_sdk.Session.ReadBatch.Extent.{validate_native_read_batch-IsJudged}
use exasol_gateway_sdk.Session.Request.{Connection}
use exasol_gateway_sdk.Session.Cursors.{
  table_metadata, table_version, opened_cursor, fetched, decode_native_fetch_result, scan_payload,
}
use exasol_gateway_sdk.Session.Writes.{
  opened_operation, affected_rows, column_payload, column_operation_payload,
}

pub append_string16-IsJudged : (v out : List ℕ) → IsJudged (append_string16 v out).0
unfolding append_string16 append_u16
append_string16-IsJudged v out =
    checked-IsJudged (nonempty v && leb (length v) 0xffff) _ out _ λ _. tt

pub append_string32-IsJudged : (v out : List ℕ) → IsJudged (append_string32 v out).0
unfolding append_string32 append_u32
append_string32-IsJudged v out =
    checked-IsJudged (nonempty v && leb (length v) 0xffff_ffff) _ out _ λ _. tt

pub append_bytes32-IsJudged : (v out : List ℕ) → IsJudged (append_bytes32 v out).0
unfolding append_bytes32 append_u32
append_bytes32-IsJudged v out = checked-IsJudged (leb (length v) 0xffff_ffff) _ out _ λ _. tt

pub append_all-IsJudged {ℓ} :
    {A : Type ℓ} (write : A → Writing) (xs : List A)
    → ((x : A) (out : List ℕ) → IsJudged (write x out).0)
    → (out : List ℕ) → IsJudged (append_all write xs out).0
unfolding append_all
append_all-IsJudged write [] h out = tt
append_all-IsJudged write (x ∷ xs) h out =
    and_then-IsJudged (write x out) _ (h x out) λ _ s _. append_all-IsJudged write xs h s

pub append_locations-IsJudged :
    (locations : List RowLocation) (out : List ℕ) → IsJudged (append_locations locations out).0
unfolding append_locations append_u32 append_u64
append_locations-IsJudged locations out =
    checked-IsJudged (leb (length locations) 0xffff_ffff) _ out _
      λ _. append_all-IsJudged _ locations (λ x s. tt) _

pub table_payload-IsJudged :
    (table : TableName) (out : List ℕ) → IsJudged (table_payload table out).0
unfolding table_payload
table_payload-IsJudged table out =
    and_then-IsJudged (append_string16 table.schema out) _
      (append_string16-IsJudged table.schema out) λ _ s _. append_string16-IsJudged table.table s

pub native_payload-IsJudged :
    (id : ℕ) (batch out : List ℕ) → IsJudged (native_payload id batch out).0
unfolding native_payload append_u64 append_u32
native_payload-IsJudged id batch out =
    checked-IsJudged (nonempty batch && leb (length batch) 0xffff_ffff) _ out _ λ _. tt

all_parsed-IsJudged : (r : Option ℕ × List ℕ) → IsJudged (all_parsed r)
all_parsed-IsJudged (none, cs) = refl
all_parsed-IsJudged (some v, c ∷ cs) = refl
all_parsed-IsJudged (some v, []) = elim (Bool-cases (ltb v (2 ^ 64))) [
  | inl small ↦ rw small tt
  | inr large ↦ rw large refl
]

module _ {Schema RecordBatch : Type 0} (arrow : Arrow Schema RecordBatch) where
  decode_schema-IsJudged : (bytes : List ℕ) → IsJudged (decode_schema arrow bytes)
  unfolding decode_schema owned_buffer
  decode_schema-IsJudged bytes = elim (Bool-cases (leb (length bytes) (2 ^ 63 - 1))) [
    | inl small ↦ elim (Option-cases (arrow.read_schema bytes)) [
      | inl failed ↦ rw (small, failed) refl
      | inr (schema, read) ↦ rw (small, read) tt
    ]
    | inr large ↦ rw large refl
  ]

  pub encode_schema-IsJudged : (schema : Option Schema) → IsJudged (encode_schema arrow schema)
  unfolding encode_schema
  encode_schema-IsJudged none = refl
  encode_schema-IsJudged (some schema) = elim (Option-cases (arrow.serialize_schema schema)) [
    | inl failed ↦ rw (failed, IsJudged) refl
    | inr (bytes, written) ↦ rw (written, IsJudged) tt
  ]

  pub decode_batch-IsJudged :
      (schema : Option Schema) (bytes : List ℕ) → IsJudged (decode_batch arrow schema bytes)
  unfolding decode_batch owned_buffer
  decode_batch-IsJudged schema [] = tt
  decode_batch-IsJudged none (b ∷ bs) = refl
  decode_batch-IsJudged (some schema) (b ∷ bs) =
      elim (Bool-cases (leb (length (b ∷ bs)) (2 ^ 63 - 1))) [
        | inl small ↦ elim (Option-cases (arrow.read_record_batch schema (b ∷ bs))) [
          | inl failed ↦ rw (small, failed) refl
          | inr (batch, read) ↦ rw (small, read) tt
        ]
        | inr large ↦ rw large refl
      ]

  counted-IsJudged : (r : Result ℕ) → IsJudged r → IsJudged (followed_by (λ (v : ℕ). ok (some v)) r)
  counted-IsJudged (ok v) h = tt
  counted-IsJudged (err e) h = h
  counted-IsJudged fault h = h

  table_row_count-IsJudged : (schema : Option Schema) → IsJudged (table_row_count arrow schema)
  unfolding table_row_count from_chars
  table_row_count-IsJudged none = tt
  table_row_count-IsJudged (some schema) = elim (Option-cases (arrow.row_count_metadata schema)) [
    | inl absent ↦ rw (absent, IsJudged) tt
    | inr (encoded, present) ↦
        rw (present, IsJudged) (counted-IsJudged _ (all_parsed-IsJudged (digits_from none encoded)))
  ]

module _ {C Schema RecordBatch : Type 0} (net : Connection C)
    (arrow : Arrow Schema RecordBatch) where
  pub table_metadata-IsJudged :
      (payload : List ℕ) (o : ℕ) → IsJudged (table_metadata net arrow payload o).0
  unfolding table_metadata
  table_metadata-IsJudged payload o =
      and_then-IsJudged _ _ (read_string16-IsJudged payload o) λ schema_name a _.
        and_then-IsJudged _ _ (read_string16-IsJudged payload a) λ table_name b _.
          and_then-IsJudged _ _ (read_string16-IsJudged payload b) λ version c _.
            and_then-IsJudged _ _ (read_bytes32-IsJudged payload c) λ encoded d _.
              lifted-IsJudged _ d _ (decode_schema-IsJudged arrow encoded) λ schema _.
                lifted-IsJudged _ d _ (table_row_count-IsJudged arrow (some schema))
                  λ rows _. and_then-IsJudged _ _ (ensure_consumed-IsJudged payload d) λ _ e _. tt

  pub table_version-IsJudged :
      (payload : List ℕ) (o : ℕ) → IsJudged (table_version net arrow payload o).0
  unfolding table_version
  table_version-IsJudged payload o =
      and_then-IsJudged _ _ (read_string16-IsJudged payload o) λ schema_name a _.
        and_then-IsJudged _ _ (read_string16-IsJudged payload a) λ table_name b _.
          and_then-IsJudged _ _ (read_string16-IsJudged payload b)
            λ version c _. and_then-IsJudged _ _ (ensure_consumed-IsJudged payload c) λ _ d _. tt

  pub opened_cursor-IsJudged :
      (payload : List ℕ) (o : ℕ) → IsJudged (opened_cursor net arrow payload o).0
  unfolding opened_cursor
  opened_cursor-IsJudged payload o = and_then-IsJudged _ _ (read_u64-IsJudged payload o) λ id a _.
      and_then-IsJudged _ _ (read_bytes32-IsJudged payload a) λ encoded b _.
        lifted-IsJudged _ b _ (decode_schema-IsJudged arrow encoded)
          λ schema _. and_then-IsJudged _ _ (ensure_consumed-IsJudged payload b) λ _ c _. tt

  pub opened_operation-IsJudged :
      (payload : List ℕ) (o : ℕ) → IsJudged (opened_operation net arrow payload o).0
  unfolding opened_operation
  opened_operation-IsJudged payload o =
      and_then-IsJudged _ _ (read_u64-IsJudged payload o) λ id a _.
        and_then-IsJudged _ _ (read_bytes32-IsJudged payload a) λ encoded b _.
          lifted-IsJudged _ b _ (decode_schema-IsJudged arrow encoded)
            λ schema _. and_then-IsJudged _ _ (ensure_consumed-IsJudged payload b) λ _ c _. tt

  pub affected_rows-IsJudged :
      (payload : List ℕ) (o : ℕ) → IsJudged (affected_rows net arrow payload o).0
  unfolding affected_rows
  affected_rows-IsJudged payload o =
      and_then-IsJudged _ _ (read_u64-IsJudged payload o)
        λ id a _. and_then-IsJudged _ _ (ensure_consumed-IsJudged payload a) λ _ c _. tt

  pub fetched-IsJudged :
      (mismatch : String) (cursor : Cursor Schema) (payload : List ℕ) (o : ℕ)
      → IsJudged (fetched net arrow mismatch cursor payload o).0
  unfolding fetched
  fetched-IsJudged mismatch cursor payload o =
      and_then-IsJudged _ _ (read_u64-IsJudged payload o) λ id a _.
        and_then-IsJudged _ _ (read_u8-IsJudged payload a) λ end b _.
          and_then-IsJudged _ _ (read_bytes32-IsJudged payload b) λ rows c _.
            and_then-IsJudged _ _ (read_u32-IsJudged payload c) λ count d _.
              and_then-IsJudged _ _ (read_all-IsJudged count _ (read_location-IsJudged payload) d)
                λ locations e _.
                  and_then-IsJudged _ _ (ensure_consumed-IsJudged payload e)
                    λ _ f _. checked-IsJudged (id == cursor.id) _ f _ λ _. tt

  pub decode_native_fetch_result-IsJudged :
      (payload : List ℕ) (cursor : Cursor Schema) (o : ℕ)
      → IsJudged (decode_native_fetch_result net arrow payload cursor o).0
  unfolding decode_native_fetch_result
  decode_native_fetch_result-IsJudged payload cursor o =
      and_then-IsJudged _ _ (read_u64-IsJudged payload o) λ id a _.
        and_then-IsJudged _ _ (read_u8-IsJudged payload a) λ end b _.
          and_then-IsJudged _ _ (read_bytes32-IsJudged payload b) λ rows c _.
            and_then-IsJudged _ _ (validated rows c) λ _ d _.
              and_then-IsJudged _ _ (read_u32-IsJudged payload d) λ count e _.
                and_then-IsJudged _ _ (read_all-IsJudged count _ (read_location-IsJudged payload) e)
                  λ locations f _.
                    and_then-IsJudged _ _ (ensure_consumed-IsJudged payload f)
                      λ _ g _. checked-IsJudged (id == cursor.id) _ g _ λ _. tt
    where
      validated :
          (rows : List ℕ) (s : ℕ)
          → IsJudged
              ((if nonempty rows
                  then lift (validate_native_read_batch arrow rows cursor.schema)
                  else pure tt)
                s).0
      validated rows s = elim (Bool-cases (nonempty rows)) [
        | inl some_rows ↦
            rw some_rows (validate_native_read_batch-IsJudged arrow rows cursor.schema)
        | inr no_rows ↦ rw no_rows tt
      ]

  pub scan_payload-IsJudged :
      (table : TableName) (columns : List (List ℕ)) (locations : Bool) (out : List ℕ)
      → IsJudged (scan_payload net arrow table columns locations out).0
  unfolding scan_payload append_u32 append_u8
  scan_payload-IsJudged table columns locations out =
      and_then-IsJudged _ _ (append_string32-IsJudged table.schema out) λ _ a _.
        and_then-IsJudged _ _ (append_string32-IsJudged table.table a) λ _ b _.
          and_then-IsJudged _ _
            (append_all-IsJudged append_string32 columns append_string32-IsJudged _) λ _ c _. tt

  pub column_operation_payload-IsJudged :
      (table : TableName) (columns : List (List ℕ)) (rows : ℕ) (schema : Option Schema)
      (out : List ℕ)
      → IsJudged (column_operation_payload net arrow table columns rows schema out).0
  unfolding column_operation_payload append_u32
  column_operation_payload-IsJudged table columns rows schema out =
      and_then-IsJudged _ _ (columns-IsJudged out) λ _ a _.
        lifted-IsJudged _ a _ (encode_schema-IsJudged arrow schema)
          λ encoded _. append_bytes32-IsJudged encoded a
    where
      columns-IsJudged :
          (out : List ℕ) → IsJudged (column_payload net arrow table columns rows out).0
      columns-IsJudged out =
          and_then-IsJudged _ _ (append_string32-IsJudged table.schema out) λ _ a _.
            and_then-IsJudged _ _ (append_string32-IsJudged table.table a) λ _ b _.
              and_then-IsJudged _ _
                (append_all-IsJudged append_string32 columns append_string32-IsJudged _) λ _ c _. tt
