-- ===== src/Session/Calls.antt =====
-- src/session.cpp: the public operations of a session, as values, so that sequences of calls can be
-- spoken of. What an operation returns is forgotten here.
use exasol_gateway_sdk.Base.{ℕ, List, [], ◌∷◌, Bool, Option}
use exasol_gateway_sdk.Base.Outcome.{Result, ok, err, fault}
use exasol_gateway_sdk.Session.{Arrow, TableName, RowLocation, Cursor, TableOperation}
use exasol_gateway_sdk.Session.Request.{Connection, Impl, Requesting, close_session}
use exasol_gateway_sdk.Session.Cursors
use exasol_gateway_sdk.Session.Writes

pub data Call (Schema : Type 0) : Type 0 where
  describe_table : TableName → Call Schema
  get_table_version : TableName → Call Schema
  open_pushed_query : List ℕ → Call Schema
  open_table_scan : TableName → List (List ℕ) → Bool → Call Schema
  fetch : Cursor Schema → ℕ → ℕ → Call Schema
  fetch_positioned : Cursor Schema → List RowLocation → ℕ → Call Schema
  fetch_ipc : Cursor Schema → ℕ → ℕ → Call Schema
  fetch_positioned_ipc : Cursor Schema → List RowLocation → ℕ → Call Schema
  fetch_native : Cursor Schema → ℕ → ℕ → Call Schema
  fetch_positioned_native : Cursor Schema → List RowLocation → ℕ → Call Schema
  close_cursor : Cursor Schema → Call Schema
  open_table_insert : TableName → List (List ℕ) → ℕ → Option Schema → Call Schema
  open_table_update : TableName → List (List ℕ) → ℕ → Option Schema → Call Schema
  open_table_delete : TableName → ℕ → Call Schema
  insert_rows : TableOperation Schema → List ℕ → Call Schema
  update_rows : TableOperation Schema → List RowLocation → List ℕ → Call Schema
  delete_rows : TableOperation Schema → List RowLocation → Call Schema
  close_operation : TableOperation Schema → Call Schema
  set_autocommit : Bool → Call Schema
  commit : Call Schema
  rollback : Call Schema
  close : Call Schema

-- The outcome without the value.
abbrev pub forget {ℓ} : {A : Type ℓ} → Result A → Result (Unit {0})
forget (ok a) = ok tt
forget (err e) = err e
forget fault = fault

abbrev pub unvalued {ℓ} : {S : Type 0} {A : Type ℓ} → Result A × S → Result (Unit {0}) × S
unvalued (r, s) = (forget r, s)

module _ {C Schema RecordBatch : Type 0} (net : Connection C)
    (arrow : Arrow Schema RecordBatch) where
  unfoldable pub run : Call Schema → Requesting C (Unit {0})
  run (describe_table table) s = unvalued (Cursors.describe_table net arrow table s)
  run (get_table_version table) s = unvalued (Cursors.get_table_version net arrow table s)
  run (open_pushed_query sql) s = unvalued (Cursors.open_pushed_query net arrow sql s)
  run (open_table_scan table columns locations) s =
      unvalued (Cursors.open_table_scan net arrow table columns locations s)
  run (fetch cursor rows bytes) s = unvalued (Cursors.fetch net arrow cursor rows bytes s)
  run (fetch_positioned cursor locations bytes) s =
      unvalued (Cursors.fetch_positioned net arrow cursor locations bytes s)
  run (fetch_ipc cursor rows bytes) s = unvalued (Cursors.fetch_ipc net arrow cursor rows bytes s)
  run (fetch_positioned_ipc cursor locations bytes) s =
      unvalued (Cursors.fetch_positioned_ipc net arrow cursor locations bytes s)
  run (fetch_native cursor rows bytes) s =
      unvalued (Cursors.fetch_native net arrow cursor rows bytes s)
  run (fetch_positioned_native cursor locations bytes) s =
      unvalued (Cursors.fetch_positioned_native net arrow cursor locations bytes s)
  run (close_cursor cursor) s = unvalued (Cursors.close_cursor net arrow cursor s)
  run (open_table_insert table columns rows schema) s =
      unvalued (Writes.open_table_insert net arrow table columns rows schema s)
  run (open_table_update table columns rows schema) s =
      unvalued (Writes.open_table_update net arrow table columns rows schema s)
  run (open_table_delete table rows) s = unvalued (Writes.open_table_delete net arrow table rows s)
  run (insert_rows operation batch) s = unvalued (Writes.insert_rows net arrow operation batch s)
  run (update_rows operation locations batch) s =
      unvalued (Writes.update_rows net arrow operation locations batch s)
  run (delete_rows operation locations) s =
      unvalued (Writes.delete_rows net arrow operation locations s)
  run (close_operation operation) s = unvalued (Writes.close_operation net arrow operation s)
  run (set_autocommit enabled) s = Writes.set_autocommit net arrow enabled s
  run commit s = Writes.commit net arrow s
  run rollback s = Writes.rollback net arrow s
  run close s = close_session net s

  -- The state after a sequence of calls, whatever each of them returned or threw.
  unfoldable pub run_all : List (Call Schema) → Impl C → Impl C
  run_all [] s = s
  run_all (call ∷ calls) s = run_all calls (run call s).1
