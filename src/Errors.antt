-- ===== src/Errors.antt =====
-- include/sessiongw/errors.hpp and src/errors.cpp: the error categories and the thrown error.
use Prim.Native.Nat.{ℕ}
use Prim.Native.String.{String}
use mathlib.Core.List.{List}

pub data ErrorCategory : Type 0 where
  protocol_error authentication_failed not_authorized object_not_found : ErrorCategory
  unsupported_type unsupported_operation transaction_conflict : ErrorCategory
  constraint_violation resource_limit cursor_not_found internal_error : ErrorCategory
  transport_error outcome_unknown : ErrorCategory

-- The underlying values of the enumeration.
unfoldable pub underlying : ErrorCategory → ℕ
underlying protocol_error = 1
underlying authentication_failed = 2
underlying not_authorized = 3
underlying object_not_found = 4
underlying unsupported_type = 5
underlying unsupported_operation = 6
underlying transaction_conflict = 7
underlying constraint_violation = 8
underlying resource_limit = 9
underlying cursor_not_found = 10
underlying internal_error = 11
underlying transport_error = 12
underlying outcome_unknown = 13

unfoldable pub to_string : ErrorCategory → String
to_string protocol_error = "PROTOCOL_ERROR"
to_string authentication_failed = "AUTHENTICATION_FAILED"
to_string not_authorized = "NOT_AUTHORIZED"
to_string object_not_found = "OBJECT_NOT_FOUND"
to_string unsupported_type = "UNSUPPORTED_TYPE"
to_string unsupported_operation = "UNSUPPORTED_OPERATION"
to_string transaction_conflict = "TRANSACTION_CONFLICT"
to_string constraint_violation = "CONSTRAINT_VIOLATION"
to_string resource_limit = "RESOURCE_LIMIT"
to_string cursor_not_found = "CURSOR_NOT_FOUND"
to_string internal_error = "INTERNAL_ERROR"
to_string transport_error = "TRANSPORT_ERROR"
to_string outcome_unknown = "OUTCOME_UNKNOWN"

-- The text of an error: a literal of the source, bytes that the server sent, a text that is built
-- from request ids, or a literal and the bytes behind it.
pub data Message : Type 0 where
  text : String → Message
  received : List ℕ → Message
  ids_differ : ℕ → ℕ → Message
  outcome_of_request : ℕ → Message
  followed : String → List ℕ → Message

pub record Error : Type 0 where
  pub category : ErrorCategory
  pub message : Message
