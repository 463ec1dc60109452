-- ===== src/CApi/Returned.antt =====
-- src/c_api.cpp: every exported function that works on a session returns, and notes what was thrown.
use exasol_gateway_sdk.Base.{
  some, Bool, true, false, not, ◌&&◌, ◌||◌, ◌==◌, ◌≡◌, refl, arith, Result, ok, err, fault,
}
use exasol_gateway_sdk.Session.{Arrow}
use exasol_gateway_sdk.Session.Request.{Connection}
use exasol_gateway_sdk.Session.Cursors
use exasol_gateway_sdk.Session.Calls
use exasol_gateway_sdk.Session.Calls.{run}
use exasol_gateway_sdk.Session.Outcomes.{IsTransport, run-IsSafe}
use exasol_gateway_sdk.Errors.{Error, underlying, text}
use exasol_gateway_sdk.CApi.{LastError, protected, protect, text_of}
use exasol_gateway_sdk.CApi.Arguments.{is_null, table_name, column_names, locations}
use exasol_gateway_sdk.CApi.Boundary.{
  IsDone, lifted-IsDone, on_session-IsDone, store-IsDone, arguments-IsDone, session_argument-IsDone,
  asked-IsDone, session_last-IsDone, pointee-IsSafe, forget-IsSafe,
}
use exasol_gateway_sdk.CApi.Functions.{
  handle, c_close, c_describe_table, c_get_table_version, c_open_pushed_query, c_open_table_scan,
  c_fetch_rows, c_fetch_positioned, c_fetch_native, c_fetch_positioned_native, c_close_cursor,
  c_open_table_insert, c_open_table_update, c_open_table_delete, c_insert_rows, c_update_rows,
  c_delete_rows, c_close_operation, c_set_autocommit, c_commit, c_rollback,
}
use exasol_gateway_sdk.CApi.Exports.{
  Export, Out, body, call, close, describe_table, get_table_version, open_pushed_query,
  open_table_scan, fetch_rows, fetch_positioned, fetch_native, fetch_positioned_native,
  close_cursor, open_table_insert, open_table_update, open_table_delete, insert_rows, update_rows,
  delete_rows, close_operation, set_autocommit, commit, rollback,
}
use exasol_gateway_sdk.CApi.Handles.{Objects, pointee, span_of, native_handle, Fields, columns_of}
use exasol_gateway_sdk.CApi.Indexed.{native_handle-IsSafe}
use exasol_gateway_sdk.CApi.Reads.{
  IsReadable, text_of-IsSafe, table_name-IsSafe, column_names-IsSafe, locations-IsSafe,
  span_of-IsSafe, columns_of-IsSafe,
}

-- The arrays have as many elements as the caller says, where they are not null.
abbrev pub IsReadableCall : {Schema : Type 0} → Export Schema → Type 0
IsReadableCall (open_table_scan schema table columns count include) = IsReadable columns count
IsReadableCall (fetch_positioned cursor rows count bytes) = IsReadable rows count
IsReadableCall (fetch_positioned_native cursor rows count bytes) = IsReadable rows count
IsReadableCall (open_table_insert s t columns count max ipc size) =
    IsReadable columns count × IsReadable ipc size
IsReadableCall (open_table_update s t columns count max ipc size) =
    IsReadable columns count × IsReadable ipc size
IsReadableCall (insert_rows operation batch size) = IsReadable batch size
IsReadableCall (update_rows operation rows count batch size) =
    IsReadable rows count × IsReadable batch size
IsReadableCall (delete_rows operation rows count) = IsReadable rows count
IsReadableCall _ = Unit {0}

-- The function returns 0, there was a session and the message is cleared; or it returns -1, what
-- stands at `out` is as it was, and the last error is the error that was thrown.
abbrev pub IsReturned :
    {C O : Type 0}
    → Objects C O
    → Result (Unit {0})
    → Result Bool × (Objects C O × LastError)
    → Type 0
IsReturned o thrown (ok true, (s, last)) =
    (thrown ≡ ok tt) × (is_null o.session ≡ false) × (last.message ≡ text "")
IsReturned o thrown (ok false, (s, last)) =
    (s.out ≡ o.out)
    × ((e : Error) × (thrown ≡ err e)
        × (last.category ≡ underlying e.category)
        × (last.message ≡ e.message))
IsReturned o thrown (err e, s) = ⊥
IsReturned o thrown (fault, s) = ⊥

protected-IsReturned :
    {C O : Type 0} (o : Objects C O) (last : LastError) (r : Result (Unit {0}) × Objects C O)
    → IsDone o r
    → IsReturned o r.0 (protected last r)
protected-IsReturned o last (ok u, s) h = (refl, h, refl)
protected-IsReturned o last (err e, s) h = (h, (e, refl, refl, refl))
protected-IsReturned o last (fault, s) h = h

and_left : (a b : Bool) → a && b ≡ true → a ≡ true
and_left a b h = ground arith

and_right : (a b : Bool) → a && b ≡ true → b ≡ true
and_right a b h = ground arith

opposite : (a : Bool) → not a ≡ true → a ≡ false
opposite a h = ground arith

module _ {C Schema RecordBatch Field : Type 0} (net : Connection C) (transport : IsTransport net)
    (arrow : Arrow Schema RecordBatch) (fields : Fields Schema Field) where
  body-IsDone :
      (e : Export Schema) (o : Objects C (Out RecordBatch e))
      → IsReadableCall e
      → IsDone o (body net arrow fields e o)
  unfolding body run handle c_close c_describe_table c_get_table_version c_open_pushed_query
      c_open_table_scan c_fetch_rows c_fetch_positioned c_fetch_native c_fetch_positioned_native
      c_close_cursor c_open_table_insert c_open_table_update c_open_table_delete c_insert_rows
      c_update_rows c_delete_rows c_close_operation c_set_autocommit c_commit c_rollback
  body-IsDone close o h =
      session_argument-IsDone o _ _
        λ ready. session_last-IsDone o _ ready (run-IsSafe net transport arrow Calls.close)
  body-IsDone (describe_table schema table) o h = arguments-IsDone o true _ _ λ ready there _.
      lifted-IsDone o (table_name schema table) o _ ready (table_name-IsSafe schema table) λ name.
        asked-IsDone o _ _ ready there (run-IsSafe net transport arrow (Calls.describe_table name))
  body-IsDone (get_table_version schema table) o h = arguments-IsDone o true _ _ λ ready there _.
      lifted-IsDone o (table_name schema table) o _ ready (table_name-IsSafe schema table) λ name.
        asked-IsDone o _ _ ready there
          (run-IsSafe net transport arrow (Calls.get_table_version name))
  body-IsDone (open_pushed_query sql) o h = arguments-IsDone o true _ _ λ ready there _.
      lifted-IsDone o (text_of sql _) o _ ready (text_of-IsSafe sql _) λ statement.
        asked-IsDone o _ _ ready there
          (run-IsSafe net transport arrow (Calls.open_pushed_query statement))
  body-IsDone (open_table_scan schema table columns count include) o h =
      arguments-IsDone o true _ _ λ ready there _.
        lifted-IsDone o (table_name schema table) o _ ready (table_name-IsSafe schema table) λ name.
          lifted-IsDone o (column_names columns count) o _ ready
            (column_names-IsSafe columns count h)
            λ names. asked-IsDone o _ _ ready there (
              run-IsSafe net transport arrow
                (Calls.open_table_scan name names (not (include == 0))))
  body-IsDone (fetch_rows cursor rows bytes) o h =
      arguments-IsDone o (not (is_null cursor)) _ _ λ ready there given.
        lifted-IsDone o (pointee cursor) o _ ready (pointee-IsSafe cursor (opposite _ given))
          λ opened.
            asked-IsDone o _ _ ready there
              (run-IsSafe net transport arrow (Calls.fetch_ipc opened rows bytes))
  body-IsDone (fetch_positioned cursor rows count bytes) o h =
      arguments-IsDone o (not (is_null cursor)) _ _ λ ready there given.
        lifted-IsDone o (locations rows count) o _ ready (locations-IsSafe rows count h)
          λ requested.
            lifted-IsDone o (pointee cursor) o _ ready (pointee-IsSafe cursor (opposite _ given))
              λ opened.
                asked-IsDone o _ _ ready there (
                  run-IsSafe net transport arrow
                    (Calls.fetch_positioned_ipc opened requested bytes))
  body-IsDone (fetch_native cursor rows bytes) o h =
      arguments-IsDone o (not (is_null cursor)) _ _ λ ready there given.
        lifted-IsDone o (pointee cursor) o _ ready (pointee-IsSafe cursor (opposite _ given))
          λ opened.
            on_session-IsDone o (Cursors.fetch_native net arrow opened rows bytes) o _ ready
              (λ t.
                forget-IsSafe _
                  (run-IsSafe net transport arrow (Calls.fetch_native opened rows bytes) t))
              λ value s ready.
                lifted-IsDone o (native_handle value) s _ ready (native_handle-IsSafe value)
                  λ made. store-IsDone o _ s ready there
  body-IsDone (fetch_positioned_native cursor rows count bytes) o h =
      arguments-IsDone o (not (is_null cursor)) _ _ λ ready there given.
        lifted-IsDone o (locations rows count) o _ ready (locations-IsSafe rows count h)
          λ requested.
            lifted-IsDone o (pointee cursor) o _ ready (pointee-IsSafe cursor (opposite _ given))
              λ opened.
                on_session-IsDone o
                  (Cursors.fetch_positioned_native net arrow opened requested bytes) o _ ready
                  (λ t. forget-IsSafe _ (
                    run-IsSafe net transport arrow
                      (Calls.fetch_positioned_native opened requested bytes) t))
                  λ value s ready.
                    lifted-IsDone o (native_handle value) s _ ready (native_handle-IsSafe value)
                      λ made. store-IsDone o _ s ready there
  body-IsDone close_cursor o h = arguments-IsDone o true _ _ λ ready there _.
      lifted-IsDone o (pointee o.out) o _ ready (pointee-IsSafe o.out there) λ cursor.
        asked-IsDone o _ _ ready there (run-IsSafe net transport arrow (Calls.close_cursor cursor))
  body-IsDone (open_table_insert schema table columns count max ipc size) o h =
      arguments-IsDone o true _ _ λ ready there _.
        lifted-IsDone o (columns_of arrow fields columns count ipc size) o _ ready
          (columns_of-IsSafe arrow fields columns count ipc size h.0 h.1)
          λ named.
            lifted-IsDone o (table_name schema table) o _ ready (table_name-IsSafe schema table)
              λ name. asked-IsDone o _ _ ready there (
                run-IsSafe net transport arrow
                  (Calls.open_table_insert name named.0 max (some named.1)))
  body-IsDone (open_table_update schema table columns count max ipc size) o h =
      arguments-IsDone o true _ _ λ ready there _.
        lifted-IsDone o (columns_of arrow fields columns count ipc size) o _ ready
          (columns_of-IsSafe arrow fields columns count ipc size h.0 h.1)
          λ named.
            lifted-IsDone o (table_name schema table) o _ ready (table_name-IsSafe schema table)
              λ name. asked-IsDone o _ _ ready there (
                run-IsSafe net transport arrow
                  (Calls.open_table_update name named.0 max (some named.1)))
  body-IsDone (open_table_delete schema table max) o h =
      arguments-IsDone o true _ _ λ ready there _.
        lifted-IsDone o (table_name schema table) o _ ready (table_name-IsSafe schema table) λ name.
          asked-IsDone o _ _ ready there
            (run-IsSafe net transport arrow (Calls.open_table_delete name max))
  body-IsDone (insert_rows operation batch size) o h =
      arguments-IsDone o (not (is_null operation) && (size == 0 || not (is_null batch))) _ _
        λ ready there given.
          lifted-IsDone o (pointee operation) o _ ready
            (pointee-IsSafe operation (opposite _ (and_left _ _ given)))
            λ opened.
              lifted-IsDone o (span_of batch size) o _ ready
                (span_of-IsSafe batch size (and_right _ _ given) h)
                λ span.
                  asked-IsDone o _ _ ready there
                    (run-IsSafe net transport arrow (Calls.insert_rows opened span))
  body-IsDone (update_rows operation rows count batch size) o h =
      arguments-IsDone o (not (is_null operation) && (size == 0 || not (is_null batch))) _ _
        λ ready there given.
          lifted-IsDone o (locations rows count) o _ ready (locations-IsSafe rows count h.0)
            λ requested.
              lifted-IsDone o (pointee operation) o _ ready
                (pointee-IsSafe operation (opposite _ (and_left _ _ given)))
                λ opened.
                  lifted-IsDone o (span_of batch size) o _ ready
                    (span_of-IsSafe batch size (and_right _ _ given) h.1)
                    λ span.
                      asked-IsDone o _ _ ready there
                        (run-IsSafe net transport arrow (Calls.update_rows opened requested span))
  body-IsDone (delete_rows operation rows count) o h =
      arguments-IsDone o (not (is_null operation)) _ _ λ ready there given.
        lifted-IsDone o (locations rows count) o _ ready (locations-IsSafe rows count h)
          λ requested.
            lifted-IsDone o (pointee operation) o _ ready
              (pointee-IsSafe operation (opposite _ given))
              λ opened.
                asked-IsDone o _ _ ready there
                  (run-IsSafe net transport arrow (Calls.delete_rows opened requested))
  body-IsDone close_operation o h = arguments-IsDone o true _ _ λ ready there _.
      lifted-IsDone o (pointee o.out) o _ ready (pointee-IsSafe o.out there) λ operation.
        asked-IsDone o _ _ ready there
          (run-IsSafe net transport arrow (Calls.close_operation operation))
  body-IsDone (set_autocommit enabled) o h = session_argument-IsDone o _ _ λ ready.
      session_last-IsDone o _ ready
        (run-IsSafe net transport arrow (Calls.set_autocommit (not (enabled == 0))))
  body-IsDone commit o h =
      session_argument-IsDone o _ _
        λ ready. session_last-IsDone o _ ready (run-IsSafe net transport arrow Calls.commit)
  body-IsDone rollback o h =
      session_argument-IsDone o _ _
        λ ready. session_last-IsDone o _ ready (run-IsSafe net transport arrow Calls.rollback)

  -- Where the operations of the connection return or throw errors of the protocol, an exported
  -- function, called with null pointers or any others that are as long as it is told, returns: 0,
  -- and then there is a session, its body has returned and the message of the last error is empty;
  -- or -1, and then its body has thrown, what it is to store into is as it was, and the category and
  -- the message of the last error are those of the error thrown. It follows no null pointer.
  pub call-IsReturned :
      (e : Export Schema) (o : Objects C (Out RecordBatch e)) (last : LastError)
      → IsReadableCall e
      → IsReturned o (body net arrow fields e o).0 (call net arrow fields e (o, last))
  unfolding call protect
  call-IsReturned e o last h = protected-IsReturned o last _ (body-IsDone e o h)
