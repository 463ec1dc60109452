-- ===== src/WebSocket/Escapes.antt =====
-- What `jsonStringValue` reads is what `jsonEscape` wrote.
use mathlib.Core.List.{flat_map}
use exasol_gateway_sdk.Base.{
  ℕ, suc, ap, ◌∙◌, ◌+◌, List, [], ◌∷◌, ◌++◌, true, false, some, ◌≡◌, refl, sym, arith, length, drop,
  append_assoc, append-nil,
}
use exasol_gateway_sdk.Base.Outcome.{ok}
use exasol_gateway_sdk.WebSocket.Json.{
  quote, escape_byte, escape_loop, json_escape, starts_with, find, unescape_byte, string_loop,
  json_string_value,
}

escape_loop-flat_map : (s out : List ℕ) → escape_loop s out ≡ out ++ flat_map escape_byte s
unfolding escape_loop flat_map
escape_loop-flat_map [] out = sym (append-nil out)
escape_loop-flat_map (ch ∷ s) out = simp (escape_loop-flat_map s, append_assoc)

string_loop-escape_byte :
    (key : List ℕ) (ch : ℕ) (rest s : List ℕ)
    → string_loop key (escape_byte ch ++ rest) false s ≡ string_loop key rest false (s ++ ch ∷ [])
unfolding string_loop escape_byte unescape_byte
string_loop-escape_byte key ch rest s = ground arith

string_loop-flat_map :
    (key v rest s : List ℕ)
    → string_loop key (flat_map escape_byte v ++ quote ∷ rest) false s ≡ ok (s ++ v)
unfolding flat_map
string_loop-flat_map key [] rest s = unfold string_loop in rw append-nil
string_loop-flat_map key (ch ∷ v) rest s =
    simp (string_loop-escape_byte, string_loop-flat_map key v, append_assoc)

pub starts_with_self : (needle rest : List ℕ) → starts_with needle (needle ++ rest) ≡ true
unfolding starts_with
starts_with_self [] rest = refl
starts_with_self (n ∷ needle) rest = ground (arith, starts_with_self needle rest)

pub find_here :
    (n : ℕ) (needle rest : List ℕ)
    → find (n ∷ needle) ((n ∷ needle) ++ rest) ≡ some ((n ∷ needle) ++ rest)
unfolding find
find_here n needle rest = rw (starts_with_self (n ∷ needle) rest)

-- The text `{"key":"value` as far as the value goes, with what follows it.
abbrev pub first_field : List ℕ → List ℕ → List ℕ → List ℕ
first_field key v rest =
    b'{' ∷ (quote ∷ (key ++ quote ∷ (b':' ∷ (quote ∷ (json_escape v ++ quote ∷ rest)))))

find_key :
    (key rest : List ℕ)
    → find (quote ∷ (key ++ quote ∷ [])) (b'{' ∷ (quote ∷ (key ++ quote ∷ rest)))
      ≡ some (quote ∷ (key ++ quote ∷ rest))
unfolding find starts_with
find_key key rest =
    let split : key ++ quote ∷ rest ≡ (key ++ quote ∷ []) ++ rest = sym (append_assoc key _ _) in
    rw (split, starts_with_self (key ++ quote ∷ []) rest) refl

find_byte : (c : ℕ) (rest : List ℕ) → find (c ∷ []) (c ∷ rest) ≡ some (c ∷ rest)
find_byte c rest = find_here c [] rest

drop_behind : (key rest : List ℕ) → drop (suc (length key)) (key ++ quote ∷ rest) ≡ rest
drop_behind [] rest = refl
drop_behind (c ∷ key) rest = drop_behind key rest

drop_key : (key rest : List ℕ) → drop (length key + 2) (quote ∷ (key ++ quote ∷ rest)) ≡ rest
drop_key key rest =
    ap (λ (t : ℕ). drop t (quote ∷ (key ++ quote ∷ rest))) twice ∙ drop_behind key rest
  where
    twice : length key + 2 ≡ suc (suc (length key))
    twice = omega arith

-- Whatever bytes a value has, escaped in the first field of an object it is read back.
pub json_string_value-json_escape :
    (key v rest : List ℕ) → json_string_value (first_field key v rest) key ≡ ok v
unfolding json_string_value json_escape
json_string_value-json_escape key v rest =
    rw
      (
        find_key key (b':' ∷ (quote ∷ (escape_loop v [] ++ quote ∷ rest))),
        drop_key key (b':' ∷ (quote ∷ (escape_loop v [] ++ quote ∷ rest))),
        find_byte b':' (quote ∷ (escape_loop v [] ++ quote ∷ rest)),
        find_byte quote (escape_loop v [] ++ quote ∷ rest),
        escape_loop-flat_map v [],
      )
      (string_loop-flat_map key v rest [])
