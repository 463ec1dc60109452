-- ===== src/Base/Stores.antt =====
-- Stores into a vector, which is the state of an action; one out of range is a fault. A run of
-- stores is a copy of bytes.
use mathlib.Core.Path.{◌≡◌, refl, sym, ap, ap₂, ◌∙◌}
use mathlib.Core.List.{List, [], ◌∷◌, ◌++◌, append_assoc}
use Prim.Native.Nat.{ℕ, zero, suc, ◌+◌, ◌-◌, ◌*◌, ◌/◌, ◌%◌, ◌^◌, ◌<◌, bit_and}
use native.Mathlib.Omega.{arith}
use exasol_gateway_sdk.Base.Tests.{ltb, lt→ltb, if◌then◌else◌}
use exasol_gateway_sdk.Base.Lists.{length, set, take, replicate, length-append}
use exasol_gateway_sdk.Base.Outcome.{ok, fault}
use exasol_gateway_sdk.Base.Bits.{bit_and_byte}
use exasol_gateway_sdk.Base.Bytes.{big_endian}
use exasol_gateway_sdk.Base.State.{
  Action, pure, ◌>>◌, and_then, and_then_ext, and_then_assoc, and_then-pure,
}

abbrev pub Writes : Type 0
Writes = Action (List ℕ) (Unit {0})

-- `out[i] = b;`
unfoldable pub store : ℕ → ℕ → Writes
store i b out = if ltb i (length out) then (ok tt, set out i b) else (fault, out)

-- `static_cast<std::uint8_t>((value >> shift) & 0xffU)`
abbrev pub byte_of : ℕ → ℕ → ℕ
byte_of v shift = bit_and (v / 2 ^ shift) 0xff % 256

-- The eight bytes of a number, highest first, with `left` rounds to go.
unfoldable pub store_u64_loop : ℕ → ℕ → ℕ → ℕ → Writes
store_u64_loop zero index offset v = pure tt
store_u64_loop (suc left) index offset v = do
  store (offset + index) (byte_of v (56 - index * 8))
  store_u64_loop left (index + 1) offset v

-- `std::copy(bytes.begin(), bytes.end(), out.begin() + i)`
unfoldable pub copy : List ℕ → ℕ → Writes
copy [] i = pure tt
copy (b ∷ bs) i = do store i b; copy bs (i + 1)

abbrev pub resize : ℕ → List ℕ → List ℕ
resize n out = take n out ++ replicate (n - length out) 0

pub copy-append :
    (xs ys : List ℕ) (i : ℕ) (out : List ℕ)
    → copy (xs ++ ys) i out ≡ (copy xs i >> copy ys (i + length xs)) out
unfolding copy
copy-append [] ys i out = ap (λ (t : ℕ). copy ys t out) (omega arith)
copy-append (x ∷ xs) ys i out =
    and_then_ext (store i x out)
      (λ _ s. copy-append xs ys (i + 1) s ∙ ap (λ (t : ℕ). (copy xs (i + 1) >> copy ys t) s) moved)
    ∙ sym
        (and_then_assoc (store i x out) (λ _. copy xs (i + 1)) (λ _. copy ys (i + suc (length xs))))
  where
    moved : i + 1 + length xs ≡ i + suc (length xs)
    moved = omega arith

store-here :
    (before old : List ℕ) (x y : ℕ)
    → store (length before) x (before ++ y ∷ old) ≡ (ok tt, before ++ x ∷ old)
unfolding store
store-here before old x y =
    rw (lt→ltb (length before) _ in_range) (ap (λ (t : List ℕ). (ok tt, t)) (set_here before))
  where
    in_range : length before < length (before ++ y ∷ old)
    in_range = omega (arith, length-append {0} before (y ∷ old))

    set_here : (bs : List ℕ) → set (bs ++ y ∷ old) (length bs) x ≡ bs ++ x ∷ old
    set_here [] = refl
    set_here (b ∷ bs) = ap (◌∷◌ b) (set_here bs)

-- A copy of the vector's own length replaces what is behind the position.
pub copy_over :
    (xs before old : List ℕ)
    → length old ≡ length xs
    → copy xs (length before) (before ++ old) ≡ (ok tt, before ++ xs)
unfolding copy
copy_over [] before [] h = refl
copy_over [] before (y ∷ old) h = absurd (omega arith)
copy_over (x ∷ xs) before [] h = absurd (omega arith)
copy_over (x ∷ xs) before (y ∷ old) h = rw (store-here before old x y) (
    ap₂ (λ (n : ℕ) (t : List ℕ). copy xs n t) one_more regroup
    ∙ copy_over xs (before ++ x ∷ []) old (omega arith)
    ∙ ap (λ (t : List ℕ). (ok tt, t)) (append_assoc before (x ∷ []) xs))
  where
    one_more : length before + 1 ≡ length (before ++ x ∷ [])
    one_more = omega (arith, length-append {0} before (x ∷ []))

    regroup : before ++ x ∷ old ≡ (before ++ x ∷ []) ++ old
    regroup = sym (append_assoc before (x ∷ []) old)

pub byte_of_lem : (v shift : ℕ) → byte_of v shift ≡ v / 2 ^ shift % 256
byte_of_lem v shift = rw (bit_and_byte (v / 2 ^ shift)) (omega arith)

pub copy-nil : (i : ℕ) (s : List ℕ) → pure tt s ≡ copy [] i s
unfolding copy
copy-nil i s = refl

-- A store and what is written behind it, as one copy.
pub store_then :
    (i j v shift b : ℕ) (k : Writes) (bs : List ℕ)
    → j ≡ i
    → v / 2 ^ shift % 256 ≡ b
    → ((s : List ℕ) → k s ≡ copy bs (i + 1) s)
    → (s : List ℕ) → (store j (byte_of v shift) >> k) s ≡ copy (b ∷ bs) i s
unfolding copy
store_then i j v shift b k bs at_i is_b rest s =
    ap₂ (λ (n c : ℕ). (store n c >> k) s) at_i (byte_of_lem v shift ∙ is_b)
    ∙ and_then_ext (store i b s) (λ _. rest)

pub store_last :
    (i j v shift b : ℕ)
    → j ≡ i
    → v / 2 ^ shift % 256 ≡ b
    → (s : List ℕ) → store j (byte_of v shift) s ≡ copy (b ∷ []) i s
unfolding copy
store_last i j v shift b at_i is_b s =
    ap₂ (λ (n c : ℕ). store n c s) at_i (byte_of_lem v shift ∙ is_b)
    ∙ sym (and_then-pure (store i b s))

pub store_u64_loop-copy :
    (i v : ℕ) (out : List ℕ) → store_u64_loop 8 0 i v out ≡ copy (big_endian 8 v) i out
unfolding store_u64_loop big_endian
store_u64_loop-copy i v = store_then (i) (i + 0) v 56 _ _ _ (omega arith) (omega arith) (
    store_then (i + 1) (i + 1) v 48 _ _ _ (omega arith) (omega arith) (
      store_then (i + 1 + 1) (i + 2) v 40 _ _ _ (omega arith) (omega arith) (
        store_then (i + 1 + 1 + 1) (i + 3) v 32 _ _ _ (omega arith) (omega arith) (
          store_then (i + 1 + 1 + 1 + 1) (i + 4) v 24 _ _ _ (omega arith) (omega arith) (
            store_then (i + 1 + 1 + 1 + 1 + 1) (i + 5) v 16 _ _ _ (omega arith) (omega arith) (
              store_then (i + 1 + 1 + 1 + 1 + 1 + 1) (i + 6) v 8 _ _ _ (omega arith) (omega arith) (
                store_then (i + 1 + 1 + 1 + 1 + 1 + 1 + 1) (i + 7) v 0 _ _ _ (omega arith)
                  (omega arith) (copy-nil _))))))))

-- A write and what follows it, as one copy.
pub write_then :
    (w k : Writes) (xs ys : List ℕ) (i j : ℕ)
    → ((s : List ℕ) → w s ≡ copy xs i s)
    → j ≡ i + length xs
    → ((s : List ℕ) → k s ≡ copy ys j s)
    → (s : List ℕ) → (w >> k) s ≡ copy (xs ++ ys) i s
write_then w k xs ys i j first behind rest s =
    ap (λ r. and_then r (λ _. k)) (first s)
    ∙ and_then_ext (copy xs i s) (λ _ t. rest t ∙ ap (λ (n : ℕ). copy ys n t) behind)
    ∙ sym (copy-append xs ys i s)
