-- ===== src/WebSocket/Login/Answers.antt =====
-- The JSON of a server's answer is read as a string or refused, whatever its bytes.
use exasol_gateway_sdk.Errors.{protocol_error}
use Prim.Native.String.{String}
use exasol_gateway_sdk.Base.{
  ℕ, ◌+◌, List, [], ◌∷◌, ◌++◌, Bool, true, false, Option, none, some, drop, length, if◌then◌else◌,
  refl, arith,
}
use exasol_gateway_sdk.Base.Outcome.{ok}
use exasol_gateway_sdk.Base.Texts.{codes, same}
use exasol_gateway_sdk.Base.Judged.{IsJudged, followed_by-IsJudged}
use exasol_gateway_sdk.WebSocket.Json.{
  quote, throw_followed, string_loop, found, find, json_string_value, require_status_ok,
}

-- JSON text ends in a string or an error.
string_loop-IsJudged :
    (key json s : List ℕ) (escaped : Bool) → IsJudged (string_loop key json escaped s)
unfolding string_loop
string_loop-IsJudged key [] s escaped = refl
string_loop-IsJudged key (ch ∷ json) s true = string_loop-IsJudged key json _ false
string_loop-IsJudged key (ch ∷ json) s false = ground (
  arith,
  string_loop-IsJudged key json s true,
  string_loop-IsJudged key json (s ++ ch ∷ []) false,
)

found-IsJudged :
    (place : Option (List ℕ)) (message : String) (key : List ℕ) → IsJudged (found place message key)
found-IsJudged none message key = refl
found-IsJudged (some p) message key = tt

pub json_string_value-IsJudged : (json key : List ℕ) → IsJudged (json_string_value json key)
unfolding json_string_value
json_string_value-IsJudged json key =
    followed_by-IsJudged
      (found (find (quote ∷ (key ++ quote ∷ [])) json)
        "WebSocket JSON response does not contain key: " key)
      _
      (found-IsJudged (find (quote ∷ (key ++ quote ∷ [])) json)
        "WebSocket JSON response does not contain key: " key)
      λ at_key.
        followed_by-IsJudged
          (found (find (b':' ∷ []) (drop (length key + 2) at_key))
            "WebSocket JSON response has malformed key: " key)
          _
          (found-IsJudged (find (b':' ∷ []) (drop (length key + 2) at_key))
            "WebSocket JSON response has malformed key: " key)
          λ at_colon.
            followed_by-IsJudged
              (found (find (quote ∷ []) (drop 1 at_colon))
                "WebSocket JSON response value is not a string: " key)
              _
              (found-IsJudged (find (quote ∷ []) (drop 1 at_colon))
                "WebSocket JSON response value is not a string: " key)
              λ at_quote. string_loop-IsJudged key (drop 1 at_quote) [] false

pub require_status_ok-IsJudged : (json : List ℕ) → IsJudged (require_status_ok json)
unfolding require_status_ok
require_status_ok-IsJudged json =
    followed_by-IsJudged (json_string_value json (codes "status")) _
      (json_string_value-IsJudged json (codes "status")) λ status. tested (same status (codes "ok"))
  where
    tested :
        (b : Bool)
        → IsJudged (
            if b
            then ok tt
            else throw_followed {A = Unit {0}} protocol_error
                "WebSocket command returned non-ok status: " json)
    tested true = tt
    tested false = refl
