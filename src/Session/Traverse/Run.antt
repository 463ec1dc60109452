-- ===== src/Session/Traverse/Run.antt =====
-- Every call keeps what requests and `close` keep, and tells its errors.
use exasol_gateway_sdk.Errors.{Error}
use exasol_gateway_sdk.Base.{[], ◌∷◌, Bool, true, false, if◌then◌else◌}
use exasol_gateway_sdk.Frame.Message.{MessageType}
use exasol_gateway_sdk.Frame.Message
use exasol_gateway_sdk.Session.{Arrow}
use exasol_gateway_sdk.Session.Request.{Connection, Impl, request}
use exasol_gateway_sdk.Session.Writes
use exasol_gateway_sdk.Session.Calls.{
  Call, describe_table, get_table_version, open_pushed_query, open_table_scan, fetch,
  fetch_positioned, fetch_ipc, fetch_positioned_ipc, fetch_native, fetch_positioned_native,
  close_cursor, open_table_insert, open_table_update, open_table_delete, insert_rows, update_rows,
  delete_rows, close_operation, set_autocommit, commit, rollback, close, run,
}
use exasol_gateway_sdk.Session.Traverse.{
  Contract, Ends, is_completion, and_then-Ends, unvalued-Ends,
}
use exasol_gateway_sdk.Session.Traverse.Fetching.{
  describe_table-Ends, get_table_version-Ends, open_pushed_query-Ends, open_table_scan-Ends,
  fetch_ipc-Ends, fetch_positioned_ipc-Ends, fetch-Ends, fetch_positioned-Ends, fetch_native-Ends,
  fetch_positioned_native-Ends, close_cursor-Ends,
}
use exasol_gateway_sdk.Session.Traverse.Writing.{
  open_column_operation-Ends, open_table_delete-Ends, insert_rows-Ends, update_rows-Ends,
  delete_rows-Ends, close_operation-Ends,
}

module _ {C : Type 0} (P : Impl C → Type 0) (E : Bool → Error → Type 0) (F : Type 0)
    {Schema RecordBatch : Type 0} (net : Connection C) (arrow : Arrow Schema RecordBatch)
    (c : Contract P E F net) where
  -- Every operation keeps the property, and tells its errors.
  pub run-Ends :
      (call : Call Schema) (s : Impl C)
      → P s
      → Ends P E F (is_completion call) (run net arrow call s)
  unfolding run Writes.open_table_insert Writes.open_table_update Writes.set_autocommit
      Writes.commit Writes.rollback
  run-Ends (describe_table table) s p =
      unvalued-Ends P E F false _ (describe_table-Ends P E F net arrow c table s p)
  run-Ends (get_table_version table) s p =
      unvalued-Ends P E F false _ (get_table_version-Ends P E F net arrow c table s p)
  run-Ends (open_pushed_query sql) s p =
      unvalued-Ends P E F false _ (open_pushed_query-Ends P E F net arrow c sql s p)
  run-Ends (open_table_scan table columns locations) s p =
      unvalued-Ends P E F false _
        (open_table_scan-Ends P E F net arrow c table columns locations s p)
  run-Ends (fetch cursor rows bytes) s p =
      unvalued-Ends P E F false _ (fetch-Ends P E F net arrow c cursor rows bytes s p)
  run-Ends (fetch_positioned cursor locations bytes) s p =
      unvalued-Ends P E F false _
        (fetch_positioned-Ends P E F net arrow c cursor locations bytes s p)
  run-Ends (fetch_ipc cursor rows bytes) s p =
      unvalued-Ends P E F false _ (fetch_ipc-Ends P E F net arrow c cursor rows bytes s p)
  run-Ends (fetch_positioned_ipc cursor locations bytes) s p =
      unvalued-Ends P E F false _
        (fetch_positioned_ipc-Ends P E F net arrow c cursor locations bytes s p)
  run-Ends (fetch_native cursor rows bytes) s p =
      unvalued-Ends P E F false _ (fetch_native-Ends P E F net arrow c cursor rows bytes s p)
  run-Ends (fetch_positioned_native cursor locations bytes) s p =
      unvalued-Ends P E F false _
        (fetch_positioned_native-Ends P E F net arrow c cursor locations bytes s p)
  run-Ends (close_cursor cursor) s p =
      unvalued-Ends P E F false _ (close_cursor-Ends P E F net arrow c cursor s p)
  run-Ends (open_table_insert table columns rows schema) s p =
      unvalued-Ends P E F false _
        (open_column_operation-Ends P E F net arrow c _ table columns rows schema s p)
  run-Ends (open_table_update table columns rows schema) s p =
      unvalued-Ends P E F false _
        (open_column_operation-Ends P E F net arrow c _ table columns rows schema s p)
  run-Ends (open_table_delete table rows) s p =
      unvalued-Ends P E F false _ (open_table_delete-Ends P E F net arrow c table rows s p)
  run-Ends (insert_rows operation batch) s p =
      unvalued-Ends P E F false _ (insert_rows-Ends P E F net arrow c operation batch s p)
  run-Ends (update_rows operation locations batch) s p =
      unvalued-Ends P E F false _ (update_rows-Ends P E F net arrow c operation locations batch s p)
  run-Ends (delete_rows operation locations) s p =
      unvalued-Ends P E F false _ (delete_rows-Ends P E F net arrow c operation locations s p)
  run-Ends (close_operation operation) s p =
      unvalued-Ends P E F true _ (close_operation-Ends P E F net arrow c operation s p)
  run-Ends (set_autocommit enabled) s p =
      and_then-Ends P E F false
        (request net Message.set_autocommit ((if enabled then 1 else 0) ∷ []) Message.ok false s) _
        (c.asked _ _ _ false s p) λ frame t q. (q, tt)
  run-Ends commit s p =
      and_then-Ends P E F true (request net Message.commit [] Message.ok true s) _
        (c.asked _ _ _ true s p) λ frame t q. (q, tt)
  run-Ends rollback s p =
      and_then-Ends P E F false (request net Message.rollback [] Message.ok false s) _
        (c.asked _ _ _ false s p) λ frame t q. (q, tt)
  run-Ends close s p = c.closing s p
