-- ===== src/WebSocket/Json.antt =====
-- src/websocket.cpp: the JSON of the log-in commands. A `std::string` is its bytes, and a place in
-- it is what follows from there on.
use Prim.Native.String.{String}
use exasol_gateway_sdk.Errors.{ErrorCategory, protocol_error, followed}
use exasol_gateway_sdk.Base.{
  ℕ, ◌+◌, List, [], ◌∷◌, ◌++◌, Bool, true, false, Option, none, some, ◌==◌, ◌&&◌, Result,
  if◌then◌else◌, length, drop,
}
use exasol_gateway_sdk.Base.Outcome.{ok, err, ◌>>=◌}
use exasol_gateway_sdk.Base.Texts.{codes, same}

abbrev pub throw_followed {ℓ} : {A : Type ℓ} → ErrorCategory → String → List ℕ → Result A
throw_followed c s bytes = err (record { category = c; message = followed s bytes })

abbrev pub backslash : ℕ
backslash = b'\\'

abbrev pub quote : ℕ
quote = b'"'

unfoldable pub escape_byte : ℕ → List ℕ
escape_byte ch =
    if ch == backslash
    then backslash ∷ backslash ∷ []
    else if ch == quote
    then backslash ∷ quote ∷ []
    else if ch == 10
    then backslash ∷ b'n' ∷ []
    else if ch == 13
    then backslash ∷ b'r' ∷ []
    else if ch == 9
    then backslash ∷ b't' ∷ []
    else ch ∷ []

unfoldable pub escape_loop : List ℕ → List ℕ → List ℕ
escape_loop [] out = out
escape_loop (ch ∷ s) out = escape_loop s (out ++ escape_byte ch)

-- `jsonEscape`.
unfoldable pub json_escape : List ℕ → List ℕ
json_escape s = escape_loop s []

unfoldable pub starts_with : List ℕ → List ℕ → Bool
starts_with [] s = true
starts_with (n ∷ needle) [] = false
starts_with (n ∷ needle) (c ∷ s) = n == c && starts_with needle s

-- `std::string::find`.
unfoldable pub find : List ℕ → List ℕ → Option (List ℕ)
find needle [] = if starts_with needle [] then some [] else none
find needle (c ∷ s) = if starts_with needle (c ∷ s) then some (c ∷ s) else find needle s

-- The byte that stands behind a backslash.
unfoldable pub unescape_byte : ℕ → ℕ
unescape_byte ch =
    if ch == b'n' then 10 else if ch == b'r' then 13 else if ch == b't' then 9 else ch

-- The loop over the bytes of the string, with `escaped`.
unfoldable pub string_loop : List ℕ → List ℕ → Bool → List ℕ → Result (List ℕ)
string_loop key [] escaped s =
    throw_followed protocol_error "WebSocket JSON response has unterminated string: " key
string_loop key (ch ∷ json) true s = string_loop key json false (s ++ unescape_byte ch ∷ [])
string_loop key (ch ∷ json) false s =
    let behind = string_loop key json true s in
    let copied = string_loop key json false (s ++ ch ∷ []) in
    if ch == backslash then behind else if ch == quote then ok s else copied

-- What is found, or the error.
abbrev pub found : Option (List ℕ) → String → List ℕ → Result (List ℕ)
found (some place) message key = ok place
found none message key = throw_followed protocol_error message key

-- `jsonStringValue`.
unfoldable pub json_string_value : List ℕ → List ℕ → Result (List ℕ)
json_string_value json key = do
  at_key ←
      found (find (quote ∷ (key ++ quote ∷ [])) json)
        "WebSocket JSON response does not contain key: " key
  at_colon ←
      found (find (b':' ∷ []) (drop (length key + 2) at_key))
        "WebSocket JSON response has malformed key: " key
  at_quote ←
      found (find (quote ∷ []) (drop 1 at_colon)) "WebSocket JSON response value is not a string: "
        key
  string_loop key (drop 1 at_quote) false []

-- `requireStatusOk`.
unfoldable pub require_status_ok : List ℕ → Result (Unit {0})
require_status_ok json = do
  status ← json_string_value json (codes "status")
  if same status (codes "ok")
      then ok tt
      else throw_followed protocol_error "WebSocket command returned non-ok status: " json
