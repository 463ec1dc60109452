-- ===== src/CApi/Names.antt =====
-- src/c_api.cpp: what `columnNames` returns and when it throws.
use exasol_gateway_sdk.Errors.{protocol_error}
use exasol_gateway_sdk.Base.{
  ℕ, zero, suc, List, [], ◌∷◌, Option, none, some, Bool, Bool-cases, leb, ◌==◌, ◌||◌, length, map,
  take, All, ◌≡◌, ◌≤◌, ◌<◌, ◌⊎◌, inl, inr, false, true, refl, arith, ap,
}
use exasol_gateway_sdk.Base.Outcome.{Result, ok, err, fault, ◌>>=◌}
use exasol_gateway_sdk.CApi.{text_of}
use exasol_gateway_sdk.CApi.Arguments.{names_at, column_names}

abbrev pub IsNamed : List ℕ → Type 0
IsNamed [] = ⊥
IsNamed (c ∷ cs) = Unit {0}

-- One of the pointers is null or points to an empty name.
abbrev pub HasUnnamed : List (Option (List ℕ)) → Type 0
HasUnnamed [] = ⊥
HasUnnamed (none ∷ columns) = Unit {0}
HasUnnamed (some [] ∷ columns) = Unit {0}
HasUnnamed (some (c ∷ cs) ∷ columns) = HasUnnamed columns

abbrev IsNames : List (Option (List ℕ)) → ℕ → Result (List (List ℕ)) → Type 0
IsNames columns count (ok names) =
    (take count columns ≡ map some names) × (length names ≡ count) × All IsNamed names
IsNames columns count (err thrown) =
    (thrown.category ≡ protocol_error) × HasUnnamed (take count columns)
IsNames columns count fault = ⊥

one_more :
    (c : ℕ) (cs : List ℕ) (columns : List (Option (List ℕ))) (count : ℕ)
    (others : Result (List (List ℕ)))
    → IsNames columns count others
    → IsNames (some (c ∷ cs) ∷ columns) (suc count) (others >>= (λ names. ok ((c ∷ cs) ∷ names)))
one_more c cs columns count (ok names) h =
    (ap (λ rest. some (c ∷ cs) ∷ rest) h.0, ap suc h.1, (tt, h.2))
one_more c cs columns count (err thrown) h = h
one_more c cs columns count fault h = absurd h

names_at-IsNames :
    (columns : List (Option (List ℕ))) (count : ℕ)
    → count ≤ length columns
    → IsNames columns count (names_at columns count)
unfolding names_at text_of
names_at-IsNames columns zero enough = (refl, refl, tt)
names_at-IsNames [] (suc count) enough = absurd (omega arith)
names_at-IsNames (none ∷ columns) (suc count) enough = (refl, tt)
names_at-IsNames (some [] ∷ columns) (suc count) enough = (refl, tt)
names_at-IsNames (some (c ∷ cs) ∷ columns) (suc count) enough =
    one_more c cs columns count (names_at columns count)
      (names_at-IsNames columns count (omega arith))

-- The names of the first `count` columns, a number that 32 bits hold and none of them empty; or a
-- protocol error, for more columns than that or a name that is missing.
abbrev pub IsColumnNames : List (Option (List ℕ)) → ℕ → Result (List (List ℕ)) → Type 0
IsColumnNames columns count (ok names) =
    (count ≤ 0xffffffff)
    × (take count columns ≡ map some names)
    × (length names ≡ count)
    × All IsNamed names
IsColumnNames columns count (err thrown) =
    (thrown.category ≡ protocol_error) × ((0xffffffff < count) ⊎ HasUnnamed (take count columns))
IsColumnNames columns count fault = ⊥

few_enough :
    (columns : List (Option (List ℕ))) (count : ℕ) (result : Result (List (List ℕ)))
    → count ≤ 0xffffffff
    → IsNames columns count result
    → IsColumnNames columns count result
few_enough columns count (ok names) few h = (few, h.0, h.1, h.2)
few_enough columns count (err thrown) few h = (h.0, inr h.1)
few_enough columns count fault few h = absurd h

or_true : (b : Bool) → (b || true) ≡ true
or_true true = refl
or_true false = refl

-- For `count` columns, at least as many of which are readable at the pointer, `column_names` returns
-- their names, of which there are `count`, a number that 32 bits hold, and none of which is empty;
-- or it throws a protocol error, and then there are more columns than 32 bits count, or one of
-- their pointers is null or points to an empty name. It reads no other pointer.
pub column_names-IsColumnNames :
    (columns : List (Option (List ℕ))) (count : ℕ)
    → count ≤ length columns
    → IsColumnNames columns count (column_names (some columns) count)
unfolding column_names
column_names-IsColumnNames columns count enough = elim (Bool-cases (leb count 0xffffffff)) [
  | inl few ↦ rw few (
      rw (or_true (count == 0)) (
        few_enough columns count (names_at columns count) (below count few)
          (names_at-IsNames columns count enough)))
  | inr many ↦ rw many (refl, inl (above count many))
]
  where
    below : (count : ℕ) → leb count 0xffffffff ≡ true → count ≤ 0xffffffff
    below count few = ground arith

    above : (count : ℕ) → leb count 0xffffffff ≡ false → 0xffffffff < count
    above count many = ground arith
