-- ===== src/Session/Traverse.antt =====
-- What every operation of a session has in common: it is made of requests, and of code that touches
-- neither the session nor the connection. A property of the session that requests and `close` keep
-- is kept by every operation, and the errors of an operation are those of its request or its own.
pub mod Fetching
pub mod Writing
pub mod Run
use Prim.Native.String.{String}
use exasol_gateway_sdk.Errors.{Error}
use exasol_gateway_sdk.Base.{
  ℕ, List, [], ◌∷◌, Option, Bool, true, false, ◌&&◌, not, leb, ◌==◌, length, ◌≡◌, refl, Result,
  if◌then◌else◌,
}
use exasol_gateway_sdk.Base.Outcome.{ok, err, fault}
use exasol_gateway_sdk.Base.Outcome
use exasol_gateway_sdk.Base.Judged.{IsJudged, is_wire, and_then-IsJudged}
use exasol_gateway_sdk.Base.State.{Action, and_then}
use exasol_gateway_sdk.Capabilities.{supports, native_table_read_batch_v1}
use exasol_gateway_sdk.Frame.{Frame}
use exasol_gateway_sdk.Frame.Message.{MessageType}
use exasol_gateway_sdk.Frame.Message
use exasol_gateway_sdk.Session.{Arrow, TableName, RowLocation, Cursor, TableOperation, FetchBatch}
use exasol_gateway_sdk.Session.Codec.{append_u64, append_u32, nonempty}
use exasol_gateway_sdk.Session.Request.{Connection, Impl, written, request, close_session}
use exasol_gateway_sdk.Session.Cursors
use exasol_gateway_sdk.Session.Writes
use exasol_gateway_sdk.Session.Schema.{decode_batch}
use exasol_gateway_sdk.Session.Payloads.{
  append_string32-IsJudged, append_locations-IsJudged, table_payload-IsJudged,
  native_payload-IsJudged, decode_batch-IsJudged, table_metadata-IsJudged, table_version-IsJudged,
  opened_cursor-IsJudged, opened_operation-IsJudged, affected_rows-IsJudged, fetched-IsJudged,
  decode_native_fetch_result-IsJudged, scan_payload-IsJudged, column_operation_payload-IsJudged,
}
use exasol_gateway_sdk.Session.Calls.{
  Call, describe_table, get_table_version, open_pushed_query, open_table_scan, fetch,
  fetch_positioned, fetch_ipc, fetch_positioned_ipc, fetch_native, fetch_positioned_native,
  close_cursor, open_table_insert, open_table_update, open_table_delete, insert_rows, update_rows,
  delete_rows, close_operation, set_autocommit, commit, rollback, close, unvalued, run,
}

-- The requests whose outcome can be unknown.
abbrev pub is_completion : {Schema : Type 0} → Call Schema → Bool
is_completion (close_operation operation) = true
is_completion commit = true
is_completion _ = false

module _ {C : Type 0} (P : Impl C → Type 0) (E : Bool → Error → Type 0) (F : Type 0) where
  abbrev pub Told {ℓ} : {A : Type ℓ} → Bool → Result A → Type 0
  Told u (ok a) = Unit {0}
  Told u (err e) = E u e
  Told u fault = F

  -- The session is left with `P`, and an error is told with `E`.
  abbrev pub Ends {ℓ} : {A : Type ℓ} → Bool → Result A × Impl C → Type 0
  Ends u r = P r.1 × Told u r.0

  pub record Contract (net : Connection C) : Type 0 where
    pub own : (u : Bool) (e : Error) → is_wire e.category ≡ true → E u e
    pub asked :
        (type : MessageType) (payload : List ℕ) (expected : MessageType) (u : Bool) (s : Impl C)
        → P s
        → Ends u (request net type payload expected u s)
    pub closing : (s : Impl C) → P s → Ends false (close_session net s)

  pub and_then-Ends {ℓ κ} :
      {A : Type ℓ} {B : Type κ} (u : Bool) (r : Result A × Impl C) (f : A → Action (Impl C) B)
      → Ends u r
      → ((a : A) (s : Impl C) → P s → Ends u (f a s))
      → Ends u (and_then r f)
  and_then-Ends u (ok a, s) f h k = k a s h.0
  and_then-Ends u (err e, s) f h k = h
  and_then-Ends u (fault, s) f h k = h

  pub unvalued-Ends {ℓ} :
      {A : Type ℓ} (u : Bool) (r : Result A × Impl C) → Ends u r → Ends u (unvalued r)
  unvalued-Ends u (ok a, s) h = h
  unvalued-Ends u (err e, s) h = h
  unvalued-Ends u (fault, s) h = h

  module _ (own : (u : Bool) (e : Error) → is_wire e.category ≡ true → E u e) where
    pub own-Ends {ℓ} :
        {A : Type ℓ} (u : Bool) (r : Result A) (s : Impl C) → IsJudged r → P s → Ends u (r, s)
    own-Ends u (ok a) s h p = (p, tt)
    own-Ends u (err e) s h p = (p, own u e h)
    own-Ends u fault s h p = absurd h

    pub tested-Ends {κ} :
        {B : Type κ} (u : Bool) (b : Bool) (t : String) (s : Impl C)
        (f : Unit {0} → Action (Impl C) B)
        → P s
        → Ends u (f tt s)
        → Ends u (and_then (Outcome.require b t, s) f)
    tested-Ends u true t s f p k = k
    tested-Ends u false t s f p k = (p, own u _ refl)

    pub written-Ends {κ} :
        {B : Type κ} (u : Bool) (w : Result (Unit {0}) × List ℕ) (s : Impl C)
        (f : List ℕ → Action (Impl C) B)
        → IsJudged w.0
        → P s
        → ((payload : List ℕ) → Ends u (f payload s))
        → Ends u (and_then (written w, s) f)
    written-Ends u (ok a, out) s f h p k = k out
    written-Ends u (err e, out) s f h p k = (p, own u e h)
    written-Ends u (fault, out) s f h p k = absurd h

  module _ {Schema RecordBatch : Type 0} (net : Connection C) (arrow : Arrow Schema RecordBatch)
      (c : Contract net) where
    -- A payload, a request, and what is made of the response.
    pub asking-Ends {κ} :
        {B : Type κ} (u : Bool) (w : Result (Unit {0}) × List ℕ) (s : Impl C)
        (type expected : MessageType) (f : Frame → Action (Impl C) B)
        → IsJudged w.0
        → P s
        → ((frame : Frame) (t : Impl C) → P t → Ends u (f frame t))
        → Ends u (
            and_then (written w, s) λ payload t. and_then (request net type payload expected u t) f)
    asking-Ends u w s type expected f h p k = written-Ends c.own u w s _ h p λ payload.
        and_then-Ends u (request net type payload expected u s) f
          (c.asked type payload expected u s p) k
