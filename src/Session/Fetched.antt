-- ===== src/Session/Fetched.antt =====
-- What a session makes of the payload of a fetch response.
use Prim.Native.String.{String}
use exasol_gateway_sdk.Errors.{protocol_error, text}
use exasol_gateway_sdk.Base.{
  ℕ, ◌+◌, ◌*◌, ◌<◌, ◌^◌, List, [], ◌∷◌, ◌++◌, not, ◌==◌, length, All, none, ◌≡◌, refl, arith,
  if◌then◌else◌, length-append, eq→==, Bool-cases, inl, inr,
}
use exasol_gateway_sdk.Base.Outcome.{ok, err}
use exasol_gateway_sdk.Base.Bytes.{big_endian, length-big_endian}
use exasol_gateway_sdk.Session.{Arrow, RowLocation, Cursor}
use exasol_gateway_sdk.Session.Codec.{ensure_consumed}
use exasol_gateway_sdk.Session.Request.{Connection}
use exasol_gateway_sdk.Session.Cursors.{fetched}
use exasol_gateway_sdk.Session.Fields.{
  locations_layout, IsLocation, read_u8-ahead, read_u32-ahead, read_u64-ahead, read_bytes32-ahead,
  read_all-locations,
}

-- The payload: the cursor, a flag, the rows behind their length, and the locations behind their
-- number.
unfoldable pub fetch_response : ℕ → ℕ → List ℕ → List RowLocation → List ℕ
fetch_response id flag rows locations =
    big_endian 8 id
    ++ (flag
        ∷ (big_endian 4 (length rows)
            ++ (rows ++ (big_endian 4 (length locations) ++ (locations_layout locations ++ [])))))

length-locations_layout :
    (locations : List RowLocation) → length (locations_layout locations) ≡ 8 * length locations
unfolding locations_layout
length-locations_layout [] = refl
length-locations_layout (location ∷ locations) = omega (
  arith,
  length-append {0} (big_endian 8 location.row_number) (locations_layout locations),
  length-big_endian 8 location.row_number,
  length-locations_layout locations,
)

length-fetch_response :
    (id flag : ℕ) (rows : List ℕ) (locations : List RowLocation)
    → 0 + 8 + 1 + 4 + length rows + 4 + 8 * length locations
      ≡ length (fetch_response id flag rows locations)
unfolding fetch_response
length-fetch_response id flag rows locations =
    let tail = locations_layout locations ++ [] in
    let counted = big_endian 4 (length locations) ++ tail in
    omega (
      arith,
      length-append {0} (big_endian 8 id)
          (flag ∷ (big_endian 4 (length rows) ++ (rows ++ counted))),
      length-append {0} (big_endian 4 (length rows)) (rows ++ counted),
      length-append {0} rows counted,
      length-append {0} (big_endian 4 (length locations)) tail,
      length-append {0} (locations_layout locations) [],
      length-big_endian 8 id,
      length-big_endian 4 (length rows),
      length-big_endian 4 (length locations),
      length-locations_layout locations,
    )

module _ {C Schema RecordBatch : Type 0} (net : Connection C)
    (arrow : Arrow Schema RecordBatch) where
  -- The payload of a fetch response, in its format and with lengths and numbers that fit their
  -- fields, is read as its parts if it is for the cursor that was asked for; if it is for another
  -- one, it is refused.
  pub fetched-fetch_response :
      (mismatch : String) (cursor : Cursor Schema) (id flag : ℕ) (rows : List ℕ)
      (locations : List RowLocation)
      → id < 2 ^ 64
      → length rows < 2 ^ 32
      → length locations < 2 ^ 32
      → All IsLocation locations
      → (fetched net arrow mismatch cursor (fetch_response id flag rows locations) 0).0 ≡ (
          if id == cursor.id
          then ok (record {
            cursor_id = id;
            end_of_cursor = not (flag == 0);
            rows = none;
            rows_ipc = rows;
            row_locations = locations;
          })
          else err (record { category = protocol_error; message = text mismatch }))
  unfolding fetched ensure_consumed
  fetched-fetch_response mismatch cursor id flag rows locations hid hrows hlocations fit =
      let payload = fetch_response id flag rows locations in
      let (e1, r1) = read_u64-ahead payload 0 id _ (laid_out id flag rows locations) hid in
      let (e2, r2) = read_u8-ahead payload (0 + 8) flag _ r1 in
      let (e3, r3) = read_bytes32-ahead payload (0 + 8 + 1) rows _ r2 hrows in
      let (e4, r4) =
        read_u32-ahead payload (0 + 8 + 1 + 4 + length rows) (length locations) _ r3 hlocations in
      let (e5, r5) =
        read_all-locations payload (0 + 8 + 1 + 4 + length rows + 4) locations [] r4 fit in
      let consumed = eq→== _ _ (length-fetch_response id flag rows locations) in
      elim (Bool-cases (id == cursor.id)) [
        | inl same ↦ rw (e1, e2, e3, e4, e5, consumed, same) refl
        | inr other ↦ rw (e1, e2, e3, e4, e5, consumed, other) refl
      ]
    where
      laid_out :
          (id flag : ℕ) (rows : List ℕ) (locations : List RowLocation)
          → fetch_response id flag rows locations
            ≡ big_endian 8 id
              ++ (flag
                  ∷ (big_endian 4 (length rows)
                      ++ (rows
                          ++ (big_endian 4 (length locations)
                              ++ (locations_layout locations ++ [])))))
      laid_out id flag rows locations = unfold fetch_response in refl
