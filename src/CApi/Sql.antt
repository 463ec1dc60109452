-- ===== src/CApi/Sql.antt =====
-- src/c_api.cpp: the text of a statement, escaped by `jsonEscape` there, against `jsonEscape` of
-- src/websocket.cpp.
use exasol_gateway_sdk.Errors.{protocol_error}
use exasol_gateway_sdk.Base.{
  ℕ, List, [], ◌∷◌, ◌++◌, Bool, true, false, leb, not, ◌==◌, ◌||◌, ◌&&◌, ◌≡◌, refl, arith,
}
use exasol_gateway_sdk.Base.Outcome.{Result, ok, err, fault, followed_by}
use exasol_gateway_sdk.CApi.{json_escape, json_escape_byte}
use exasol_gateway_sdk.WebSocket.Json
use exasol_gateway_sdk.WebSocket.Json.{escape_byte, escape_loop}

-- A control byte for which there is no escape.
abbrev pub is_control : ℕ → Bool
is_control byte = not (leb 32 byte) && (not (byte == 10) && (not (byte == 13) && not (byte == 9)))

abbrev pub has_control : List ℕ → Bool
has_control [] = false
has_control (byte ∷ bytes) = is_control byte || has_control bytes

-- The escaped text, for a statement without such a byte, or else a protocol error.
abbrev pub IsEscape : Bool → List ℕ → Result (List ℕ) → Type 0
IsEscape control escaped (ok text) = (control ≡ false) × (text ≡ escaped)
IsEscape control escaped (err thrown) = (control ≡ true) × (thrown.category ≡ protocol_error)
IsEscape control escaped fault = ⊥

json_escape_byte-IsEscape :
    (byte : ℕ) → IsEscape (is_control byte) (escape_byte byte) (json_escape_byte byte)
unfolding json_escape_byte escape_byte
json_escape_byte-IsEscape byte = ground arith

byte_first :
    (c d : Bool) (escaped all : List ℕ) (r : Result (List ℕ)) (next : List ℕ → Result (List ℕ))
    → IsEscape c escaped r
    → IsEscape d all (next escaped)
    → IsEscape (c || d) all (followed_by next r)
byte_first c d escaped all (ok text) next h k = rw (h.0, h.1) k
byte_first c d escaped all (err thrown) next h k = rw h.0 (refl, h.1)
byte_first c d escaped all fault next h k = absurd h

json_escape_loop-IsEscape :
    (sql out : List ℕ) → IsEscape (has_control sql) (escape_loop sql out) (json_escape sql out)
unfolding json_escape escape_loop
json_escape_loop-IsEscape [] out = (refl, refl)
json_escape_loop-IsEscape (byte ∷ sql) out =
    byte_first (is_control byte) (has_control sql) (escape_byte byte)
      (escape_loop sql (out ++ escape_byte byte)) (json_escape_byte byte)
      (λ escaped. json_escape sql (out ++ escaped)) (json_escape_byte-IsEscape byte)
      (json_escape_loop-IsEscape sql (out ++ escape_byte byte))

-- `jsonEscape` of the C interface returns what `jsonEscape` of the web socket returns if the text has
-- no control byte but line feeds, carriage returns and tabs; it throws a protocol error if the text
-- has another one.
pub json_escape-json_escape :
    (sql : List ℕ) → IsEscape (has_control sql) (Json.json_escape sql) (json_escape sql [])
unfolding Json.json_escape
json_escape-json_escape sql = json_escape_loop-IsEscape sql []
