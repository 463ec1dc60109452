-- ===== src/Session/Traverse/Fetching.antt =====
-- The operations on tables and cursors keep what requests keep, and tell their errors.
use exasol_gateway_sdk.Errors.{Error}
use exasol_gateway_sdk.Base.{ℕ, List, [], Bool, false, not, leb, ◌==◌, length}
use exasol_gateway_sdk.Base.Judged.{IsJudged}
use exasol_gateway_sdk.Capabilities.{supports, native_table_read_batch_v1}
use exasol_gateway_sdk.Session.{Arrow, TableName, RowLocation, Cursor, FetchBatch}
use exasol_gateway_sdk.Session.Codec.{append_u64, append_u32}
use exasol_gateway_sdk.Session.Request.{Connection, Impl}
use exasol_gateway_sdk.Session.Cursors
use exasol_gateway_sdk.Session.Schema.{decode_batch}
use exasol_gateway_sdk.Session.Payloads.{
  append_string32-IsJudged, append_locations-IsJudged, table_payload-IsJudged,
  decode_batch-IsJudged, table_metadata-IsJudged, table_version-IsJudged, opened_cursor-IsJudged,
  fetched-IsJudged, decode_native_fetch_result-IsJudged, scan_payload-IsJudged,
}
use exasol_gateway_sdk.Session.Traverse.{
  Contract, Ends, and_then-Ends, own-Ends, tested-Ends, asking-Ends,
}

module _ {C : Type 0} (P : Impl C → Type 0) (E : Bool → Error → Type 0) (F : Type 0)
    {Schema RecordBatch : Type 0} (net : Connection C) (arrow : Arrow Schema RecordBatch)
    (c : Contract P E F net) where
  pub describe_table-Ends :
      (table : TableName) (s : Impl C)
      → P s
      → Ends P E F false (Cursors.describe_table net arrow table s)
  unfolding Cursors.describe_table
  describe_table-Ends table s p =
      asking-Ends P E F net arrow c false _ s _ _ _ (table_payload-IsJudged table []) p λ frame t q.
        own-Ends P E F c.own false _ t (table_metadata-IsJudged net arrow frame.payload 0) q

  pub get_table_version-Ends :
      (table : TableName) (s : Impl C)
      → P s
      → Ends P E F false (Cursors.get_table_version net arrow table s)
  unfolding Cursors.get_table_version
  get_table_version-Ends table s p =
      asking-Ends P E F net arrow c false _ s _ _ _ (table_payload-IsJudged table []) p λ frame t q.
        own-Ends P E F c.own false _ t (table_version-IsJudged net arrow frame.payload 0) q

  pub open_pushed_query-Ends :
      (sql : List ℕ) (s : Impl C)
      → P s
      → Ends P E F false (Cursors.open_pushed_query net arrow sql s)
  unfolding Cursors.open_pushed_query
  open_pushed_query-Ends sql s p =
      asking-Ends P E F net arrow c false _ s _ _ _ (append_string32-IsJudged sql []) p λ frame t q.
        own-Ends P E F c.own false _ t (opened_cursor-IsJudged net arrow frame.payload 0) q

  pub open_table_scan-Ends :
      (table : TableName) (columns : List (List ℕ)) (locations : Bool) (s : Impl C)
      → P s
      → Ends P E F false (Cursors.open_table_scan net arrow table columns locations s)
  unfolding Cursors.open_table_scan
  open_table_scan-Ends table columns locations s p =
      tested-Ends P E F c.own false (leb (length columns) 0xffff_ffff) _ s _ p (
        asking-Ends P E F net arrow c false _ s _ _ _
          (scan_payload-IsJudged net arrow table columns locations []) p
          λ frame t q.
            own-Ends P E F c.own false _ t (opened_cursor-IsJudged net arrow frame.payload 0) q)

  pub fetch_ipc-Ends :
      (cursor : Cursor Schema) (rows bytes : ℕ) (s : Impl C)
      → P s
      → Ends P E F false (Cursors.fetch_ipc net arrow cursor rows bytes s)
  unfolding Cursors.fetch_ipc append_u64 append_u32
  fetch_ipc-Ends cursor rows bytes s p =
      asking-Ends P E F net arrow c false (Cursors.fetch_payload net arrow cursor rows bytes []) s _
        _ _ tt p
        λ frame t q.
          own-Ends P E F c.own false _ t (fetched-IsJudged net arrow _ cursor frame.payload 0) q

  positioned_payload-IsJudged :
      (cursor : Cursor Schema) (locations : List RowLocation) (bytes : ℕ)
      → IsJudged (Cursors.positioned_payload net arrow cursor locations bytes []).0
  unfolding append_u64 append_u32
  positioned_payload-IsJudged cursor locations bytes = append_locations-IsJudged locations _

  pub fetch_positioned_ipc-Ends :
      (cursor : Cursor Schema) (locations : List RowLocation) (bytes : ℕ) (s : Impl C)
      → P s
      → Ends P E F false (Cursors.fetch_positioned_ipc net arrow cursor locations bytes s)
  unfolding Cursors.fetch_positioned_ipc
  fetch_positioned_ipc-Ends cursor locations bytes s p =
      tested-Ends P E F c.own false (Cursors.is_nonempty net arrow locations) _ s _ p (
        asking-Ends P E F net arrow c false _ s _ _ _
          (positioned_payload-IsJudged cursor locations bytes) p
          λ frame t q.
            own-Ends P E F c.own false _ t (fetched-IsJudged net arrow _ cursor frame.payload 0) q)

  pub decoded-Ends :
      (cursor : Cursor Schema) (result : FetchBatch RecordBatch) (s : Impl C)
      → P s
      → Ends P E F false (Cursors.decoded net arrow cursor result s)
  decoded-Ends cursor result s p =
      and_then-Ends P E F false (decode_batch arrow cursor.schema result.rows_ipc, s) _
        (own-Ends P E F c.own false _ s (decode_batch-IsJudged arrow cursor.schema result.rows_ipc)
          p)
        λ rows t q. (q, tt)

  pub fetch-Ends :
      (cursor : Cursor Schema) (rows bytes : ℕ) (s : Impl C)
      → P s
      → Ends P E F false (Cursors.fetch net arrow cursor rows bytes s)
  unfolding Cursors.fetch
  fetch-Ends cursor rows bytes s p =
      and_then-Ends P E F false (Cursors.fetch_ipc net arrow cursor rows bytes s) _
        (fetch_ipc-Ends cursor rows bytes s p) λ result t q. decoded-Ends cursor result t q

  pub fetch_positioned-Ends :
      (cursor : Cursor Schema) (locations : List RowLocation) (bytes : ℕ) (s : Impl C)
      → P s
      → Ends P E F false (Cursors.fetch_positioned net arrow cursor locations bytes s)
  unfolding Cursors.fetch_positioned
  fetch_positioned-Ends cursor locations bytes s p =
      and_then-Ends P E F false (Cursors.fetch_positioned_ipc net arrow cursor locations bytes s) _
        (fetch_positioned_ipc-Ends cursor locations bytes s p)
        λ result t q. decoded-Ends cursor result t q

  pub fetch_native-Ends :
      (cursor : Cursor Schema) (rows bytes : ℕ) (s : Impl C)
      → P s
      → Ends P E F false (Cursors.fetch_native net arrow cursor rows bytes s)
  unfolding Cursors.fetch_native append_u64 append_u32
  fetch_native-Ends cursor rows bytes s p =
      tested-Ends P E F c.own false (supports s.capabilities native_table_read_batch_v1) _ s _ p (
        asking-Ends P E F net arrow c false (Cursors.fetch_payload net arrow cursor rows bytes []) s
          _ _ _ tt p
          λ frame t q.
            own-Ends P E F c.own false _ t
              (decode_native_fetch_result-IsJudged net arrow frame.payload cursor 0) q)

  pub fetch_positioned_native-Ends :
      (cursor : Cursor Schema) (locations : List RowLocation) (bytes : ℕ) (s : Impl C)
      → P s
      → Ends P E F false (Cursors.fetch_positioned_native net arrow cursor locations bytes s)
  unfolding Cursors.fetch_positioned_native
  fetch_positioned_native-Ends cursor locations bytes s p =
      tested-Ends P E F c.own false (supports s.capabilities native_table_read_batch_v1) _ s _ p (
        tested-Ends P E F c.own false (Cursors.is_nonempty net arrow locations) _ s _ p (
          asking-Ends P E F net arrow c false _ s _ _ _
            (positioned_payload-IsJudged cursor locations bytes) p
            λ frame t q.
              own-Ends P E F c.own false _ t
                (decode_native_fetch_result-IsJudged net arrow frame.payload cursor 0) q))

  pub close_cursor-Ends :
      (cursor : Cursor Schema) (s : Impl C)
      → P s
      → Ends P E F false (Cursors.close_cursor net arrow cursor s)
  unfolding Cursors.close_cursor append_u64
  close_cursor-Ends cursor s p = tested-Ends P E F c.own false (not (cursor.id == 0)) _ s _ p (
      asking-Ends P E F net arrow c false (append_u64 cursor.id []) s _ _ _ tt p
        λ frame t q. (q, tt))
