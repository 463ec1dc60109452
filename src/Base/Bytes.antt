-- ===== src/Base/Bytes.antt =====
-- Byte sequences: big-endian numbers, slices, and reads that are in range or a fault.
use exasol_gateway_sdk.Base.Tests.{if◌then◌else◌, leb, le→leb}
use Prim.Native.Nat.{ℕ, zero, suc, ◌+◌, ◌*◌, ◌/◌, ◌%◌, ◌^◌, ◌≤◌, ◌<◌, bit_or}
use Prim.Native.Nat.add
use mathlib.Core.Path.{◌≡◌, refl, sym, ap, ◌∙◌}
use mathlib.Core.List.{List, [], ◌∷◌, ◌++◌}
use mathlib.Core.Option.{none, some}
use native.Mathlib.Nat.{pow-suc, one-le-pow, mod-eq_of_lt}
use native.Mathlib.Omega.{arith}
use exasol_gateway_sdk.Base.Lists.{
  length, get_elem?, get_or, take, drop, All, length-append, length-drop, drop-append, All-append,
  get_elem?-eq-get_or,
}
use exasol_gateway_sdk.Base.Bits.{bit_or_sum}
use exasol_gateway_sdk.Base.Outcome.{Result, ok, fault, ◌>>=◌}

abbrev pub IsByte : ℕ → Type 0
IsByte b = b < 256

abbrev pub IsBytes : List ℕ → Type 0
IsBytes = All IsByte

-- The `k` bytes of `v`, highest first.
unfoldable pub big_endian : ℕ → ℕ → List ℕ
big_endian zero v = []
big_endian (suc k) v = big_endian k (v / 256) ++ v % 256 ∷ []

-- The number that bytes stand for after `acc`, highest first.
unfoldable pub value_from : ℕ → List ℕ → ℕ
value_from acc [] = acc
value_from acc (b ∷ bs) = value_from (acc * 256 + b) bs

abbrev pub value : List ℕ → ℕ
value bs = value_from 0 bs

pub length-big_endian : (k v : ℕ) → length (big_endian k v) ≡ k
unfolding big_endian
length-big_endian zero v = refl
length-big_endian (suc k) v = omega (
  arith,
  length-append {0} (big_endian k (v / 256)) (v % 256 ∷ []),
  length-big_endian k (v / 256),
)

pub big_endian-IsBytes : (k v : ℕ) → IsBytes (big_endian k v)
unfolding big_endian
big_endian-IsBytes zero v = tt
big_endian-IsBytes (suc k) v =
    All-append IsByte (big_endian k (v / 256)) _ (big_endian-IsBytes k (v / 256)) (omega arith)

value_from-snoc :
    (acc : ℕ) (bs : List ℕ) (b : ℕ) → value_from acc (bs ++ b ∷ []) ≡ value_from acc bs * 256 + b
unfolding value_from
value_from-snoc acc [] b = refl
value_from-snoc acc (x ∷ bs) b = value_from-snoc (acc * 256 + x) bs b

pub value-big_endian : (k v : ℕ) → v < 256 ^ k → value (big_endian k v) ≡ v
unfolding big_endian
value-big_endian zero v h = unfold value_from in omega arith
value-big_endian (suc k) v h = omega (
  arith,
  value_from-snoc 0 (big_endian k (v / 256)) (v % 256),
  value-big_endian k (v / 256) (omega (arith, pow-suc 256 k)),
)

value_from-split : (acc : ℕ) (bs : List ℕ) → value_from acc bs ≡ acc * 256 ^ length bs + value bs
unfolding value_from
value_from-split acc [] = omega arith
value_from-split acc (b ∷ bs) = omega (
  arith,
  value_from-split (acc * 256 + b) bs,
  value_from-split (0 * 256 + b) bs,
  ap (λ (t : ℕ). acc * t) (pow-suc 256 (length bs)),
)

value-cons : (b : ℕ) (bs : List ℕ) → value (b ∷ bs) ≡ b * 256 ^ length bs + value bs
unfolding value_from
value-cons b bs = omega (arith, value_from-split (0 * 256 + b) bs)

pub value-lt : (bs : List ℕ) → IsBytes bs → value bs < 256 ^ length bs
unfolding value_from
value-lt [] h = omega arith
value-lt (b ∷ bs) h = grind (arith, value-cons b bs, value-lt bs h.1, pow-suc 256 (length bs))

-- A byte on top of `k` others.
big_endian-cons :
    (k b r : ℕ) → b < 256 → r < 256 ^ k → big_endian (suc k) (b * 256 ^ k + r) ≡ b ∷ big_endian k r
unfolding big_endian
big_endian-cons zero b r hb hr = ap (λ (t : ℕ). t ∷ []) (omega arith)
big_endian-cons (suc k) b r hb hr =
    ap (λ (t : ℕ). big_endian (suc k) t ++ (b * 256 ^ suc k + r) % 256 ∷ []) upper
    ∙ ap (λ (t : ℕ). big_endian (suc k) (b * 256 ^ k + r / 256) ++ t ∷ []) lower
    ∙ ap (λ (t : List ℕ). t ++ r % 256 ∷ [])
        (big_endian-cons k b (r / 256) hb (omega (arith, pow-suc 256 k)))
  where
    scaled : b * 256 ^ suc k ≡ 256 * (b * 256 ^ k)
    scaled = omega (arith, ap (λ (t : ℕ). b * t) (pow-suc 256 k))

    upper : (b * 256 ^ suc k + r) / 256 ≡ b * 256 ^ k + r / 256
    upper = omega (arith, scaled)

    lower : (b * 256 ^ suc k + r) % 256 ≡ r % 256
    lower = omega (arith, scaled)

pub big_endian-value : (bs : List ℕ) → IsBytes bs → big_endian (length bs) (value bs) ≡ bs
big_endian-value [] h = unfold big_endian in refl
big_endian-value (b ∷ bs) h =
    ap (big_endian (suc (length bs))) (value-cons b bs)
    ∙ big_endian-cons (length bs) b (value bs) h.0 (value-lt bs h.1)
    ∙ ap (◌∷◌ b) (big_endian-value bs h.1)

-- `n` bytes from position `i` on.
abbrev pub slice : List ℕ → ℕ → ℕ → List ℕ
slice bytes i n = take n (drop i bytes)

-- `(bytes.begin() + i, bytes.begin() + i + n)`: a fault unless it lies within the bytes.
unfoldable pub range : List ℕ → ℕ → ℕ → Result (List ℕ)
range bytes i n = if leb (i + n) (length bytes) then ok (slice bytes i n) else fault

pub range-le :
    (bytes : List ℕ) (i n : ℕ) → i + n ≤ length bytes → range bytes i n ≡ ok (slice bytes i n)
unfolding range
range-le bytes i n h = rw (le→leb (i + n) (length bytes) h) refl

-- `bytes[i]`.
unfoldable pub at : List ℕ → ℕ → Result ℕ
at bytes i = elim (get_elem? bytes i) [ none ↦ fault | some b ↦ ok b ]

-- `(acc << 8) | b` on `w` bits.
abbrev pub shift_in : ℕ → ℕ → ℕ → ℕ
shift_in w acc b = bit_or (acc * 2 ^ 8 % 2 ^ w) b

-- `for (n rounds) acc = (acc << 8) | bytes[i++];` on `w` bits.
unfoldable pub read_big_endian : ℕ → ℕ → List ℕ → ℕ → ℕ → Result ℕ
unfolding at
read_big_endian w zero bytes i acc = ok acc
read_big_endian w (suc n) bytes i acc = do
  b ← at bytes i
  read_big_endian w n bytes (i + 1) (shift_in w acc b)

pub at-lt : (bytes : List ℕ) (i : ℕ) → i < length bytes → at bytes i ≡ ok (get_or bytes i 0)
unfolding at
at-lt bytes i h = ground (arith, get_elem?-eq-get_or bytes i 0)

pub drop-lt :
    (bytes : List ℕ) (i : ℕ)
    → i < length bytes
    → drop i bytes ≡ get_or bytes i 0 ∷ drop (i + 1) bytes
drop-lt [] i h = absurd (omega arith)
drop-lt (x ∷ xs) zero h = refl
drop-lt (x ∷ xs) (suc i) h = ground (arith, drop-lt xs i)

pub drop-cons :
    (bytes : List ℕ) (i b : ℕ) (rest : List ℕ)
    → drop i bytes ≡ b ∷ rest
    → (at bytes i ≡ ok b) × (drop (i + 1) bytes ≡ rest) × (i < length bytes)
unfolding at
drop-cons [] zero b rest h = cc
drop-cons [] (suc i) b rest h = cc
drop-cons (x ∷ xs) zero b rest h = ground arith
drop-cons (x ∷ xs) (suc i) b rest h = ground (arith, drop-cons xs i b rest)

pub shift_in_lem : (w acc b : ℕ) → b < 256 → acc * 256 < 2 ^ w → shift_in w acc b ≡ acc * 256 + b
shift_in_lem w acc b hb h =
    ap (λ (t : ℕ). bit_or t b) (mod-eq_of_lt (omega arith)) ∙ bit_or_sum 8 acc b hb

-- Bytes that lie ahead are read as their value, if it fits the width.
pub read_big_endian-value :
    (w : ℕ) (xs bytes rest : List ℕ) (i acc : ℕ)
    → drop i bytes ≡ xs ++ rest
    → IsBytes xs
    → (acc + 1) * 256 ^ length xs ≤ 2 ^ w
    → read_big_endian w (length xs) bytes i acc ≡ ok (value_from acc xs)
unfolding read_big_endian value_from
read_big_endian-value w [] bytes rest i acc h hb fits = refl
read_big_endian-value w (x ∷ xs) bytes rest i acc h hb fits =
    let (here, ahead, _) = drop-cons bytes i x (xs ++ rest) h in
    rw (here, shift_in_lem w acc x hb.0 small)
      (read_big_endian-value w xs bytes rest (i + 1) (acc * 256 + x) ahead hb.1 room)
  where
    power : 1 ≤ 256 ^ length xs
    power = one-le-pow (length xs) 256 (omega arith)

    product : (acc * 256 + 256) * 256 ^ length xs ≤ 2 ^ w
    product = omega (arith, fits, ap (λ (t : ℕ). (acc + 1) * t) (pow-suc 256 (length xs)))

    small : acc * 256 < 2 ^ w
    small = grind (arith, power, product)

    room : (acc * 256 + x + 1) * 256 ^ length xs ≤ 2 ^ w
    room = grind (arith, product, hb.0)

-- A read within the bytes returns.
pub read_big_endian_total :
    (w n : ℕ) (bytes : List ℕ) (i acc : ℕ)
    → i + n ≤ length bytes
    → (v : ℕ) × (read_big_endian w n bytes i acc ≡ ok v)
unfolding read_big_endian
read_big_endian_total w zero bytes i acc h = (acc, refl)
read_big_endian_total w (suc n) bytes i acc h =
    rw (at-lt bytes i (omega arith)) (read_big_endian_total w n bytes (i + 1) _ (omega arith))

drop-nil : (n : ℕ) → ◌≡◌ {A = List ℕ} (drop n []) []
drop-nil zero = refl
drop-nil (suc n) = refl

drop-drop : (m n : ℕ) (bytes : List ℕ) → drop (n + m) bytes ≡ drop m (drop n bytes)
drop-drop m zero bytes = rw add.zero
drop-drop m (suc n) [] = drop-nil (suc n + m) ∙ sym (drop-nil m)
drop-drop m (suc n) (x ∷ xs) = rw add.suc (drop-drop m n xs)

-- Behind `xs`, what lies ahead is what follows them.
pub drop-ahead :
    (bytes xs rest : List ℕ) (i : ℕ) → drop i bytes ≡ xs ++ rest → drop (i + length xs) bytes ≡ rest
drop-ahead bytes xs rest i h =
    drop-drop (length xs) i bytes ∙ ap (drop (length xs)) h ∙ drop-append xs rest

pub length-drop-ahead :
    (bytes xs : List ℕ) (i : ℕ)
    → drop i bytes ≡ xs
    → i ≤ length bytes
    → length bytes ≡ i + length xs
length-drop-ahead bytes xs i h within = omega (arith, length-drop {0} i bytes, ap length h)

pub IsBytes-drop : (i : ℕ) (bytes : List ℕ) → IsBytes bytes → IsBytes (drop i bytes)
IsBytes-drop zero bytes h = h
IsBytes-drop (suc i) [] h = h
IsBytes-drop (suc i) (x ∷ xs) h = IsBytes-drop i xs h.1

pub IsBytes-take : (i : ℕ) (bytes : List ℕ) → IsBytes bytes → IsBytes (take i bytes)
IsBytes-take zero bytes h = tt
IsBytes-take (suc i) [] h = h
IsBytes-take (suc i) (x ∷ xs) h = (h.0, IsBytes-take i xs h.1)
