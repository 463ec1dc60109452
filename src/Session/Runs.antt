-- ===== src/Session/Runs.antt =====
-- A session with a scripted peer, and the theorems at concrete inputs.
use exasol_gateway_sdk.Base.{
  ℕ, ◌+◌, ◌%◌, ◌^◌, List, [], ◌∷◌, true, false, Bool, none, some, ◌≡◌, refl, Result, IsSafe, ◌==◌,
  if◌then◌else◌, arith,
}
use exasol_gateway_sdk.Base.Outcome.{ok, err}
use exasol_gateway_sdk.Base.Judged.{IsJudged}
use exasol_gateway_sdk.Errors.{Error, transport_error, protocol_error, text, underlying}
use exasol_gateway_sdk.Frame.{Frame}
use exasol_gateway_sdk.Frame.Message.{MessageType}
use exasol_gateway_sdk.Frame.Message
use exasol_gateway_sdk.Capabilities.{empty}
use exasol_gateway_sdk.Session.{Arrow, int64, Cursor}
use exasol_gateway_sdk.Session.Request.{
  Connection, Impl, uncertain_outcome, exchange, request, close_session, check_response, connect,
  add_read, greet, hello_capabilities,
}
use exasol_gateway_sdk.Session.Codec.{read_u16, ensure_consumed}
use exasol_gateway_sdk.Base.Bytes.{at}
use exasol_gateway_sdk.Session.ReadBatch.{validate_native_read_batch}
use exasol_gateway_sdk.Session.ReadBatch.Extent.{validate_native_read_batch-IsJudged}
use exasol_gateway_sdk.Session.Calls.{Call, run, run_all, commit, rollback, close}
use exasol_gateway_sdk.Session.Cursors.{fetched}
use exasol_gateway_sdk.Session.Fetched.{fetch_response, fetched-fetch_response}
use exasol_gateway_sdk.Session.Writes
use exasol_gateway_sdk.Session.Traverse.{is_completion}
use exasol_gateway_sdk.Session.Closed.{run_all-closed}
use exasol_gateway_sdk.Session.Ids.{logged, ids, run_all-ids}
use exasol_gateway_sdk.Session.Outcomes.{IsTransport, run-IsSafe, run_unknown}
use exasol_gateway_sdk.Session.Completion.{is_transport, unknown_outcome, commit_definite}

abbrev lost_connection : Error
lost_connection = record { category = transport_error; message = text "lost" }

-- The response that an empty frame of a type is.
abbrev answer : MessageType → ℕ → Frame
answer type id = record {
  header = record {
    magic = 0;
    version = 1;
    message_type = type;
    flags = 0;
    request_id = id;
    payload_length = 0;
  };
  payload = [];
}

-- The peer answers with the frames of a script, and is gone when they are at an end.
abbrev next_of : ℕ → List MessageType → Result Frame × List MessageType
next_of id [] = (err lost_connection, [])
next_of id (type ∷ types) = (ok (answer type id), types)

abbrev scripted : Connection (List MessageType)
scripted = record {
  enter_session_gateway = λ script. (ok tt, script);
  send_frame = λ type id payload script. (ok tt, script);
  receive_frame = next_of;
  close = λ script. (ok tt, script);
}

next_of-IsJudged : (id : ℕ) (script : List MessageType) → IsJudged (next_of id script).0
next_of-IsJudged id [] = refl
next_of-IsJudged id (type ∷ types) = tt

scripted-IsTransport : IsTransport scripted
scripted-IsTransport = record {
  sends = λ type id payload c. tt;
  receives = next_of-IsJudged;
  disconnects = λ c. tt;
}

-- Schemas with one column of 64-bit integers.
abbrev numbers : Arrow (Unit {0}) (Unit {0})
numbers = record {
  read_schema = λ bytes. some tt;
  serialize_schema = λ schema. some (1 ∷ []);
  read_record_batch = λ schema bytes. none;
  num_fields = λ schema. 1;
  type_id = λ schema field. int64;
  scale = λ schema field. 0;
  row_count_metadata = λ schema. none;
}

abbrev fresh : List MessageType → Bool → Impl (List MessageType)
fresh script closed = record {
  connection = script;
  capabilities = empty;
  next_request_id = 1;
  closed = closed;
}

abbrev observed : List MessageType → Impl (List MessageType × List ℕ)
observed script = record {
  connection = (script, []);
  capabilities = empty;
  next_request_id = 1;
  closed = false;
}

abbrev calls : List (Call (Unit {0}))
calls = rollback ∷ commit ∷ close ∷ rollback ∷ []

-- The third request closes the session, so that the fourth is not sent.
three_requests :
    (run_all
      (logged scripted)
      numbers
      calls
      (observed (Message.ok ∷ Message.ok ∷ Message.ok ∷ []))).connection.1
    ≡ 1 ∷ 2 ∷ 3 ∷ []
unfolding run_all run logged Writes.rollback Writes.commit close_session request exchange
    check_response uncertain_outcome
three_requests = refl

run_all-closed_example : run_all scripted numbers calls (fresh [] true) ≡ fresh [] true
run_all-closed_example = run_all-closed scripted numbers calls (fresh [] true) refl

-- The answer to HELLO: the version, and no capability.
abbrev greeted : Frame
greeted = record {
  header = record {
    magic = 0;
    version = 1;
    message_type = Message.hello_ok;
    flags = 0;
    request_id = 1;
    payload_length = 4;
  };
  payload = 0 ∷ 1 ∷ 0 ∷ 0 ∷ [];
}

-- A peer that answers every request so.
abbrev greeting : Connection (Unit {0})
greeting = record {
  enter_session_gateway = λ s. (ok tt, s);
  send_frame = λ type id payload s. (ok tt, s);
  receive_frame = λ id s. (ok greeted, s);
  close = λ s. (ok tt, s);
}

abbrev after_hello : Impl (Unit {0} × List ℕ)
after_hello = record {
  connection = (tt, 1 ∷ []);
  capabilities = empty;
  next_request_id = 2;
  closed = false;
}

connected_once : connect (logged greeting) (ok (tt, [])) ≡ ok after_hello
unfolding connect greet logged request exchange check_response hello_capabilities read_u16
    ensure_consumed uncertain_outcome at add_read
connected_once = refl

run_all-ids_example :
    (count : ℕ) × ((run_all (logged greeting) numbers calls after_hello).connection.1 ≡ ids count)
    × ((run_all (logged greeting) numbers calls after_hello).next_request_id ≡ (count + 1) % 2 ^ 64)
run_all-ids_example = run_all-ids greeting numbers calls tt after_hello connected_once

run-IsSafe_example : IsSafe (run scripted numbers commit (fresh [] false)).0
run-IsSafe_example = run-IsSafe scripted scripted-IsTransport numbers commit (fresh [] false)

commit_throws : (run scripted numbers commit (fresh [] false)).0 ≡ err (unknown_outcome 1)
unfolding run Writes.commit request exchange check_response uncertain_outcome underlying
commit_throws = refl

run_unknown_example : is_completion {Schema = Unit {0}} commit ≡ true
run_unknown_example =
    run_unknown scripted scripted-IsTransport numbers commit (fresh [] false) (unknown_outcome 1)
      commit_throws refl

commit_definite_example : is_transport (unknown_outcome 1) ≡ false
commit_definite_example =
    commit_definite scripted numbers (fresh [] false) (unknown_outcome 1)
      (unfold Writes.commit request exchange uncertain_outcome underlying in refl)

validate_native_read_batch-IsJudged_example :
    IsJudged (validate_native_read_batch numbers (0x53 ∷ 0x47 ∷ 0x52 ∷ 0x42 ∷ []) (some tt))
validate_native_read_batch-IsJudged_example =
    validate_native_read_batch-IsJudged numbers (0x53 ∷ 0x47 ∷ 0x52 ∷ 0x42 ∷ []) (some tt)

abbrev cursor : Cursor (Unit {0})
cursor = record { id = 9; schema = none; schema_ipc = [] }

fetched-fetch_response_example :
    (fetched scripted numbers "mismatch" cursor
      (fetch_response 9 1 (5 ∷ 6 ∷ []) (record { row_number = 300 } ∷ []))
      0).0
    ≡ (if 9 == 9
        then ok (record {
          cursor_id = 9;
          end_of_cursor = true;
          rows = none;
          rows_ipc = 5 ∷ 6 ∷ [];
          row_locations = record { row_number = 300 } ∷ [];
        })
        else err (record { category = protocol_error; message = text "mismatch" }))
fetched-fetch_response_example =
    fetched-fetch_response scripted numbers "mismatch" cursor 9 1 (5 ∷ 6 ∷ [])
      (record { row_number = 300 } ∷ []) (omega arith) (omega arith) (omega arith) (omega arith, tt)
