-- ===== src/Session/ReadBatch/Extent.antt =====
-- The validation of a native read batch stays within the bytes.
use Prim.Native.String.{String}
use exasol_gateway_sdk.Base.{
  ℕ, zero, suc, ◌+◌, ◌-◌, ◌*◌, ◌≤◌, ◌<◌, ◌^◌, ◌%◌, List, Option, none, some, Bool, true, ◌&&◌, ◌||◌,
  not, leb, ◌==◌, ==_iff, lt→ltb, length, ◌≡◌, refl, ap, arith, Bool-cases, inl, inr, if◌then◌else◌,
  Result,
}
use exasol_gateway_sdk.Base.Outcome.{ok}
use exasol_gateway_sdk.Base.Bytes.{at, at-lt}
use exasol_gateway_sdk.Base.Judged.{
  IsJudged, and_then-IsJudged, lifted-IsJudged, checked-IsJudged, checked-eq-ok, and_then-eq-ok,
}
use exasol_gateway_sdk.Base.State.{and_then}
use exasol_gateway_sdk.Session.{
  Arrow, TypeId, boolean, int64, double, decimal128, date32, timestamp, string, other,
}
use exasol_gateway_sdk.Session.Codec.{Reading, read_u8, read_u32, read_u64, has_room}
use exasol_gateway_sdk.Session.Reads.{
  read_u8-IsJudged, read_u32-IsJudged, read_u64-IsJudged, ensure_consumed-IsJudged,
}
use exasol_gateway_sdk.Session.ReadBatch.{
  expected_native_kind, zero_bytes, check_bytes, string_sizes, string_column, fixed_column,
  null_vector, column_header, read_column, field_at, read_columns, validate_native_batch,
  validate_native_read_batch, size_limit, is_boolean, is_string, is_decimal, value_width,
}

at-IsJudged : (bytes : List ℕ) (i : ℕ) → i < length bytes → IsJudged (at bytes i)
at-IsJudged bytes i h = rw (at-lt bytes i h) tt

expected_native_kind-IsJudged : (type : TypeId) → IsJudged (expected_native_kind type)
unfolding expected_native_kind
expected_native_kind-IsJudged boolean = tt
expected_native_kind-IsJudged int64 = tt
expected_native_kind-IsJudged double = tt
expected_native_kind-IsJudged decimal128 = tt
expected_native_kind-IsJudged date32 = tt
expected_native_kind-IsJudged timestamp = tt
expected_native_kind-IsJudged string = tt
expected_native_kind-IsJudged other = refl

zero_bytes-IsJudged : (n : ℕ) (bytes : List ℕ) (o : ℕ) → IsJudged (zero_bytes n bytes o).0
unfolding zero_bytes
zero_bytes-IsJudged zero bytes o = tt
zero_bytes-IsJudged (suc n) bytes o =
    and_then-IsJudged (read_u8 bytes o) _ (read_u8-IsJudged bytes o) λ byte s _.
      elim (Bool-cases (byte == 0)) [
        | inl is_so ↦ rw is_so (zero_bytes-IsJudged n bytes s)
        | inr not_so ↦ rw not_so tt
      ]

check_bytes-IsJudged :
    (p : ℕ → Bool) (reason : String) (bytes : List ℕ) (position rows o : ℕ)
    → position + rows ≤ length bytes
    → IsJudged (check_bytes p reason bytes position rows o).0
unfolding check_bytes
check_bytes-IsJudged p reason bytes position zero o h = tt
check_bytes-IsJudged p reason bytes position (suc rows) o h =
    lifted-IsJudged (at bytes position) o _ (at-IsJudged bytes position (omega arith)) λ byte _.
      checked-IsJudged (p byte) reason o _
        λ _. check_bytes-IsJudged p reason bytes (position + 1) rows o (omega arith)

string_sizes-IsJudged :
    (bytes : List ℕ) (null_position rows total o : ℕ)
    → null_position + rows ≤ length bytes
    → IsJudged (string_sizes bytes null_position rows total o).0
unfolding string_sizes
string_sizes-IsJudged bytes null_position zero total o h = tt
string_sizes-IsJudged bytes null_position (suc rows) total o h =
    and_then-IsJudged (read_u64 bytes o) _ (read_u64-IsJudged bytes o) λ size s _.
      lifted-IsJudged (at bytes null_position) s _ (at-IsJudged bytes null_position (omega arith))
        λ byte _. checked-IsJudged (not (byte == 0xff) || size == 0) _ s _ λ _.
          checked-IsJudged (leb size (size_limit - total)) _ s _
            λ _. string_sizes-IsJudged bytes (null_position + 1) rows (total + size) s (omega arith)

null_vector-IsJudged : (bytes : List ℕ) (rows o : ℕ) → IsJudged (null_vector bytes rows o).0
unfolding null_vector
null_vector-IsJudged bytes rows o =
    and_then-IsJudged (read_u32 bytes o) _ (read_u32-IsJudged bytes o) λ size s _.
      checked-IsJudged ((size == rows) && has_room bytes s size) _ s _ λ h.
        and_then-IsJudged _ _ (check_bytes-IsJudged _ _ bytes s rows s (extent size s h))
          λ _ t _. tt
  where
    extent :
        (size s : ℕ) → ((size == rows) && has_room bytes s size) ≡ true → s + rows ≤ length bytes
    extent size s h = ground arith

-- The null vector lies within the bytes where it is said to lie.
null_vector-extent :
    (bytes : List ℕ) (rows o position t : ℕ)
    → null_vector bytes rows o ≡ (ok position, t)
    → position + rows ≤ length bytes
unfolding null_vector
null_vector-extent bytes rows o position t h =
    let (size, s, _, later) = and_then-eq-ok (read_u32 bytes o) _ h in
    let (tested, checked) = checked-eq-ok ((size == rows) && has_room bytes s size) _ s _ later in
    let (_, u, _, returned) =
      and_then-eq-ok
        (check_bytes (λ byte. byte == 0 || byte == 0xff)
          "native read NULL vector contains an invalid value" bytes s rows s)
        _ checked in
    within size s tested (ap (λ (r : Result ℕ × ℕ). r.0) returned)
  where
    within :
        (size s : ℕ)
        → ((size == rows) && has_room bytes s size) ≡ true
        → ok s ≡ ok position
        → position + rows ≤ length bytes
    within size s tested same = ground arith

string_column-IsJudged :
    (bytes : List ℕ) (rows null_offset o : ℕ)
    → null_offset + rows ≤ length bytes
    → IsJudged (string_column bytes rows null_offset o).0
unfolding string_column
string_column-IsJudged bytes rows null_offset o h =
    and_then-IsJudged (read_u32 bytes o) _ (read_u32-IsJudged bytes o) λ size s _.
      checked-IsJudged ((size == rows * 8) && has_room bytes s size) _ s _ λ _.
        and_then-IsJudged _ _ (string_sizes-IsJudged bytes null_offset rows 0 s h) λ total t _.
          and_then-IsJudged (read_u32 bytes t) _ (read_u32-IsJudged bytes t) λ data_size u _.
            checked-IsJudged ((total == data_size) && has_room bytes u data_size) _ u _ λ _. tt

value_width-one : (type : TypeId) (kind : ℕ) → is_boolean type ≡ true → value_width type kind ≡ 1
unfolding value_width
value_width-one boolean kind h = refl
value_width-one int64 kind h = cc
value_width-one double kind h = cc
value_width-one decimal128 kind h = cc
value_width-one date32 kind h = cc
value_width-one timestamp kind h = cc
value_width-one string kind h = cc
value_width-one other kind h = cc

fixed_column-IsJudged :
    (bytes : List ℕ) (rows : ℕ) (type : TypeId) (kind o : ℕ)
    → IsJudged (fixed_column bytes rows type kind o).0
unfolding fixed_column
fixed_column-IsJudged bytes rows type kind o =
    and_then-IsJudged (read_u32 bytes o) _ (read_u32-IsJudged bytes o) λ size s _.
      checked-IsJudged ((size == rows * value_width type kind) && has_room bytes s size) _ s _ λ h.
        elim (Bool-cases (is_boolean type)) [
          | inl is_so ↦ rw is_so (
              and_then-IsJudged _ _
                (check_bytes-IsJudged _ _ bytes s rows s
                  (extent size s (value_width type kind) (value_width-one type kind is_so) h))
                λ _ t _. tt)
          | inr not_so ↦ rw not_so tt
        ]
  where
    extent :
        (size s width : ℕ)
        → width ≡ 1
        → ((size == rows * width) && has_room bytes s size) ≡ true
        → s + rows ≤ length bytes
    extent size s width one h = ground arith

column_header-IsJudged :
    (bytes : List ℕ) (type : TypeId) (scale o : ℕ) → IsJudged (column_header bytes type scale o).0
unfolding column_header
column_header-IsJudged bytes type scale o =
    and_then-IsJudged (read_u8 bytes o) _ (read_u8-IsJudged bytes o) λ kind s _.
      lifted-IsJudged (expected_native_kind type) s _ (expected_native_kind-IsJudged type)
        λ expected _.
          checked-IsJudged
            (kind == expected || (is_decimal type && (kind == 4 || kind == 8 || kind == 9))) _ s _
            λ _.
              and_then-IsJudged (zero_bytes 3 bytes s) _ (zero_bytes-IsJudged 3 bytes s)
                λ reserved t _. checked-IsJudged reserved _ t _ λ _.
                  and_then-IsJudged (read_u32 bytes t) _ (read_u32-IsJudged bytes t) λ found u _.
                    and_then-IsJudged (read_u32 bytes u) _ (read_u32-IsJudged bytes u)
                      λ buffers v _.
                        checked-IsJudged (buffers == (if is_string type then 3 else 2)) _ v _ λ _.
                          checked-IsJudged (found == (if is_decimal type then scale else 0)) _ v _
                            λ _. tt

read_column-IsJudged :
    (bytes : List ℕ) (rows : ℕ) (type : TypeId) (scale o : ℕ)
    → IsJudged (read_column bytes rows type scale o).0
unfolding read_column
read_column-IsJudged bytes rows type scale o =
    and_then-IsJudged _ _ (column_header-IsJudged bytes type scale o) λ kind s _.
      and_then-IsJudged (null_vector bytes rows s) _ (null_vector-IsJudged bytes rows s)
        λ position t e. elim (Bool-cases (is_string type)) [
          | inl is_so ↦ rw is_so (
              string_column-IsJudged bytes rows position t
                (null_vector-extent bytes rows s position t e))
          | inr not_so ↦ rw not_so (fixed_column-IsJudged bytes rows type kind t)
        ]

module _ {Schema RecordBatch : Type 0} (arrow : Arrow Schema RecordBatch) where
  read_columns-IsJudged :
      (bytes : List ℕ) (rows : ℕ) (schema : Schema) (column columns o : ℕ)
      → column + columns ≤ arrow.num_fields schema
      → IsJudged (read_columns arrow bytes rows schema column columns o).0
  unfolding read_columns field_at
  read_columns-IsJudged bytes rows schema column zero o h = tt
  read_columns-IsJudged bytes rows schema column (suc more) o h =
      rw (lt→ltb column (arrow.num_fields schema) (omega (arith, h))) (
        and_then-IsJudged _ _
          (read_column-IsJudged bytes rows (arrow.type_id schema column) (arrow.scale schema column)
            o)
          λ _ s _. read_columns-IsJudged bytes rows schema (column + 1) more s (omega (arith, h)))

  validate_native_batch-IsJudged :
      (bytes : List ℕ) (schema : Schema) (o : ℕ)
      → IsJudged (validate_native_batch arrow bytes schema o).0
  unfolding validate_native_batch
  validate_native_batch-IsJudged bytes schema o = word o _ λ magic a.
      checked-IsJudged (magic == 0x53475242) _ a _ λ _. word a _ λ version b.
        checked-IsJudged (version == 1) _ b _ λ _. word b _ λ rows c. word c _ λ columns d.
          checked-IsJudged (columns == arrow.num_fields schema % 2 ^ 32) _ d _ λ all_in.
            word d _ λ order e. checked-IsJudged (order == 1) _ e _ λ _. word e _ λ abi f.
              checked-IsJudged (abi == 1) _ f _ λ _.
                and_then-IsJudged _ _
                  (read_columns-IsJudged bytes rows schema 0 columns f (counted columns all_in))
                  λ _ g _. ensure_consumed-IsJudged bytes g
    where
      counted :
          (columns : ℕ)
          → (columns == arrow.num_fields schema % 2 ^ 32) ≡ true
          → 0 + columns ≤ arrow.num_fields schema
      counted columns h =
          let e : columns ≡ arrow.num_fields schema % 2 ^ 32 = (==_iff _ _).0 h in omega (arith, e)

      word :
          (o : ℕ) (f : ℕ → Reading (Unit {0}))
          → ((v s : ℕ) → IsJudged (f v s).0)
          → IsJudged (and_then (read_u32 bytes o) f).0
      word o f h = and_then-IsJudged (read_u32 bytes o) f (read_u32-IsJudged bytes o) λ v s _. h v s

  -- The validation of a native read batch reads nothing out of range, whatever the bytes and the
  -- schema: it returns, or throws an error of a category of the protocol.
  pub validate_native_read_batch-IsJudged :
      (bytes : List ℕ) (schema : Option Schema)
      → IsJudged (validate_native_read_batch arrow bytes schema)
  unfolding validate_native_read_batch
  validate_native_read_batch-IsJudged bytes none = refl
  validate_native_read_batch-IsJudged bytes (some schema) =
      validate_native_batch-IsJudged bytes schema 0
