-- ===== src/WebSocket/Script.antt =====
-- RFC 6455 as the client needs it: the bytes of a server's frame, and a message in fragments among
-- which control frames stand.
use exasol_gateway_sdk.Base.{
  ℕ, zero, suc, Bool-cases, inl, inr, ==_iff, ◌+◌, ◌<◌, ◌≤◌, bit_and, List, [], ◌∷◌, ◌++◌, Bool,
  true, false, length, leb, ◌==◌, not, ◌&&◌, ◌≡◌, refl, arith, if◌then◌else◌,
}
use exasol_gateway_sdk.Base.Bytes.{big_endian}
use exasol_gateway_sdk.WebSocket.Masks.{masked}

unfoldable pub first_byte : Bool → ℕ → ℕ
first_byte fin opcode = (if fin then 128 else 0) + opcode

-- The length in the second byte, or what says that it follows; and what follows.
unfoldable pub second_byte : ℕ → ℕ
second_byte n = if leb n 125 then n else if leb n 0xffff then 126 else 127

unfoldable pub extended : ℕ → List ℕ
extended n = if leb n 125 then [] else if leb n 0xffff then big_endian 2 n else big_endian 8 n

unfoldable pub server_frame : Bool → ℕ → List ℕ → List ℕ
server_frame fin opcode payload =
    (first_byte fin opcode ∷ second_byte (length payload) ∷ [])
    ++ (extended (length payload) ++ payload)

-- What stands before the last fragment of a message.
pub data Item : Type 0 where
  ping : List ℕ → Item
  pong : List ℕ → Item
  fragment : List ℕ → Item

-- The frames of a message, the next data frame of which has this opcode.
unfoldable pub render : ℕ → List Item → List ℕ → List ℕ
render opcode [] last = server_frame true opcode last
render opcode (ping p ∷ items) last = server_frame true 9 p ++ render opcode items last
render opcode (pong p ∷ items) last = server_frame true 10 p ++ render opcode items last
render opcode (fragment p ∷ items) last = server_frame false opcode p ++ render 0 items last

-- The data of the message.
unfoldable pub joined : List Item → List ℕ → List ℕ
joined [] last = last
joined (ping p ∷ items) last = joined items last
joined (pong p ∷ items) last = joined items last
joined (fragment p ∷ items) last = p ++ joined items last

-- Control frames are short.
abbrev pub AreShort : List Item → Type 0
AreShort [] = Unit {0}
AreShort (ping p ∷ items) = (length p ≤ 125) × AreShort items
AreShort (pong p ∷ items) = (length p ≤ 125) × AreShort items
AreShort (fragment p ∷ items) = AreShort items

-- The bytes that a client sends meanwhile: for each ping a masked pong with the same data.
abbrev pub AreAnswers : List Item → List ℕ → Type 0
AreAnswers [] put = put ≡ []
AreAnswers (ping p ∷ items) put =
    (mask : List ℕ) × (rest : List ℕ) × (length mask ≡ 4)
    × (put ≡ (0x8a ∷ (0x80 + length p) ∷ []) ++ (mask ++ masked mask 0 p) ++ rest)
    × AreAnswers items rest
AreAnswers (pong p ∷ items) put = AreAnswers items put
AreAnswers (fragment p ∷ items) put = AreAnswers items put

-- How the header's bits are read back: a test at `count` numbers from `start` on.
holds_from : ℕ → ℕ → (ℕ → Bool) → Bool
holds_from start zero test = true
holds_from start (suc count) test =
    let others = holds_from (start + 1) count test in if test start then others else false

holds_from_at :
    (start count : ℕ) (test : ℕ → Bool) (k : ℕ)
    → start ≤ k
    → k < start + count
    → holds_from start count test ≡ true
    → test k ≡ true
unfolding holds_from
holds_from_at start zero test k low high all = absurd (omega arith)
holds_from_at start (suc count) test k low high all = elim (Bool-cases (k == start)) [
  | inl here ↦ let e : k ≡ start = (==_iff k start).0 here in rw e (first (test start) _ all)
  | inr later ↦
      holds_from_at (start + 1) count test k (above k start low later) (omega arith)
        (rest (test start) _ all)
]
  where
    first : (b c : Bool) → (if b then c else false) ≡ true → b ≡ true
    first b c h = ground arith

    rest : (b c : Bool) → (if b then c else false) ≡ true → c ≡ true
    rest b c h = ground arith

    above : (k start : ℕ) → start ≤ k → (k == start) ≡ false → start + 1 ≤ k
    above k start low h = ground arith

abbrev fields_read : Bool → ℕ → Bool
fields_read true opcode =
    not (bit_and (128 + opcode) 0x80 == 0)
    && (bit_and (128 + opcode) 0x70 == 0 && bit_and (128 + opcode) 0x0f == opcode)
fields_read false opcode =
    bit_and (0 + opcode) 0x80 == 0
    && (bit_and (0 + opcode) 0x70 == 0 && bit_and (0 + opcode) 0x0f == opcode)

first_byte_table : (fin : Bool) → holds_from 0 16 (fields_read fin) ≡ true
unfolding holds_from
first_byte_table true = refl
first_byte_table false = refl

pub first_byte_fields :
    (fin : Bool) (opcode : ℕ)
    → opcode < 16
    → (not (bit_and (first_byte fin opcode) 0x80 == 0) ≡ fin)
      × ((bit_and (first_byte fin opcode) 0x70 == 0) ≡ true)
      × (bit_and (first_byte fin opcode) 0x0f ≡ opcode)
unfolding first_byte
first_byte_fields true opcode small =
    let h =
      holds_from_at 0 16 (fields_read true) opcode (omega arith) (omega (arith, small))
        (first_byte_table true) in
    ground (arith, h)
first_byte_fields false opcode small =
    let h =
      holds_from_at 0 16 (fields_read false) opcode (omega arith) (omega (arith, small))
        (first_byte_table false) in
    ground (arith, h)

second_byte_table : holds_from 0 128 (λ n. bit_and n 0x80 == 0 && bit_and n 0x7f == n) ≡ true
unfolding holds_from
second_byte_table = refl

pub second_byte_fields :
    (n : ℕ)
    → ((bit_and (second_byte n) 0x80 == 0) ≡ true) × (bit_and (second_byte n) 0x7f ≡ second_byte n)
second_byte_fields n =
    let h =
      holds_from_at 0 128 _ (second_byte n) (omega arith) (omega (arith, small n))
        second_byte_table in
    ground (arith, h)
  where
    small : (n : ℕ) → second_byte n < 128
    small n = unfold second_byte in ground arith
