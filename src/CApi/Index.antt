-- ===== src/CApi/Index.antt =====
-- The index of a native read batch: every view lies within the bytes.
use exasol_gateway_sdk.Base.{
  ℕ, zero, suc, ◌+◌, ◌≤◌, List, [], ◌∷◌, Bool, true, ◌==◌, length, All, ◌≡◌, ap, sym, ◌∙◌, arith,
  Bool-cases, inl, inr, Result, if◌then◌else◌,
}
use mathlib.Core.Path.{subst}
use exasol_gateway_sdk.Base.Outcome.{ok}
use exasol_gateway_sdk.Base.Bytes.{at}
use exasol_gateway_sdk.Base.Judged.{and_then-eq-ok, checked-eq-ok}
use exasol_gateway_sdk.Base.State.{and_then, pure}
use exasol_gateway_sdk.Session.Codec.{Reading, has_room}
use exasol_gateway_sdk.Session.Reads.{has_room-le}
use exasol_gateway_sdk.CApi.{
  NativeColumnView, native_u32, native_skip, buffer, sizes_buffer, column_view, column_views,
  two_words, index_columns, index_native_batch,
}

pub ok-injective {ℓ} : {A : Type ℓ} {a b : A} → ◌≡◌ {A = Result A} (ok a) (ok b) → a ≡ b
ok-injective same = cc

-- The three buffers of a view lie within the bytes.
pub record IsWithin (bytes : List ℕ) (view : NativeColumnView) : Type 0 where
  pub nulls : view.null_offset + view.null_size ≤ length bytes
  pub sizes : view.sizes_offset + view.sizes_size ≤ length bytes
  pub values : view.data_offset + view.data_size ≤ length bytes

buffer-within :
    (bytes : List ℕ) (o t : ℕ) (b : ℕ × ℕ) → buffer bytes o ≡ (ok b, t) → b.0 + b.1 ≤ length bytes
unfolding buffer native_skip
buffer-within bytes o t b h =
    let (size, s, _, later) = and_then-eq-ok (native_u32 bytes o) _ h in
    let (_, u, skipped, returned) = and_then-eq-ok (native_skip bytes size s) _ later in
    let (room, _) = checked-eq-ok (has_room bytes s size) _ s _ skipped in
    within size s room (ap (λ (r : Result (ℕ × ℕ) × ℕ). r.0) returned)
  where
    within :
        (size s : ℕ) → has_room bytes s size ≡ true → ok (s, size) ≡ ok b → b.0 + b.1 ≤ length bytes
    within size s room same = ground (arith, has_room-le bytes s size room)

buffer-eq-ok :
    {B : Type 0} (bytes : List ℕ) (o t : ℕ) (f : ℕ × ℕ → Reading B) (v : B)
    → and_then (buffer bytes o) f ≡ (ok v, t)
    → (b : ℕ × ℕ) × (b.0 + b.1 ≤ length bytes) × (s : ℕ) × (f b s ≡ (ok v, t))
buffer-eq-ok bytes o t f v h =
    let (b, s, found, later) = and_then-eq-ok (buffer bytes o) f h in
    (b, buffer-within bytes o s b found, s, later)

sizes_buffer-within :
    (bytes : List ℕ) (kind o t : ℕ) (b : ℕ × ℕ)
    → sizes_buffer bytes kind o ≡ (ok b, t)
    → b.0 + b.1 ≤ length bytes
unfolding sizes_buffer
sizes_buffer-within bytes kind o t b h = elim (Bool-cases (kind == 7)) [
  | inl string ↦
      buffer-within bytes o t b
        (sym (ap (λ (c : Bool). (if c then buffer bytes else pure (0, 0)) o) string) ∙ h)
  | inr other ↦ none_is (
      ap (λ (r : Result (ℕ × ℕ) × ℕ). r.0)
        (sym (ap (λ (c : Bool). (if c then buffer bytes else pure (0, 0)) o) other) ∙ h))
]
  where
    none_is : ok (0, 0) ≡ ok b → b.0 + b.1 ≤ length bytes
    none_is same = ground arith

column_view-IsWithin :
    (bytes : List ℕ) (o t : ℕ) (view : NativeColumnView)
    → column_view bytes o ≡ (ok view, t)
    → IsWithin bytes view
unfolding column_view
column_view-IsWithin bytes o t view h =
    let (_, a) = checked-eq-ok (has_room bytes o 4) _ o _ h in
    let (kind, s, _, b) = and_then-eq-ok (at bytes o, o) _ a in
    let (scale, s1, _, c) = and_then-eq-ok (native_u32 bytes (o + 4)) _ b in
    let (buffers, s2, _, d) = and_then-eq-ok (native_u32 bytes s1) _ c in
    let (_, e) = checked-eq-ok (buffers == (if kind == 7 then 3 else 2)) _ s2 _ d in
    let (nulls, nulls_in, s3, g) = buffer-eq-ok bytes s2 t _ view e in
    let (sizes, s4, sized, k) = and_then-eq-ok (sizes_buffer bytes kind s3) _ g in
    let (values, values_in, s5, r) = buffer-eq-ok bytes s4 t _ view k in
    made nulls sizes values nulls_in (sizes_buffer-within bytes kind s3 s4 sizes sized) values_in
      (ap (λ (x : Result NativeColumnView × ℕ). x.0) r)
  where
    made :
        {kind scale : ℕ} (nulls sizes values : ℕ × ℕ)
        → nulls.0 + nulls.1 ≤ length bytes
        → sizes.0 + sizes.1 ≤ length bytes
        → values.0 + values.1 ≤ length bytes
        → ◌≡◌ {A = Result NativeColumnView}
            (ok (record {
              kind = kind;
              scale = scale;
              null_offset = nulls.0;
              null_size = nulls.1;
              sizes_offset = sizes.0;
              sizes_size = sizes.1;
              data_offset = values.0;
              data_size = values.1;
            }))
            (ok view)
        → IsWithin bytes view
    made nulls sizes values h k l same =
        subst (IsWithin bytes) (ok-injective same) (record { nulls = h; sizes = k; values = l })

column_views-IsWithin :
    (bytes : List ℕ) (columns o t : ℕ) (views : List NativeColumnView)
    → column_views bytes columns o ≡ (ok views, t)
    → All (IsWithin bytes) views
unfolding column_views
column_views-IsWithin bytes zero o t views h =
    subst (All (IsWithin bytes))
      (ok-injective (ap (λ (r : Result (List NativeColumnView) × ℕ). r.0) h)) tt
column_views-IsWithin bytes (suc columns) o t views h =
    let (view, s, first, later) = and_then-eq-ok (column_view bytes o) _ h in
    let (others, u, rest, returned) = and_then-eq-ok (column_views bytes columns s) _ later in
    subst (All (IsWithin bytes))
      (ok-injective (ap (λ (r : Result (List NativeColumnView) × ℕ). r.0) returned))
      (
        column_view-IsWithin bytes o s view first,
        column_views-IsWithin bytes columns s u others rest,
      )

index_columns-IsWithin :
    (bytes : List ℕ) (o t rows : ℕ) (views : List NativeColumnView)
    → index_columns bytes o ≡ (ok (rows, views), t)
    → All (IsWithin bytes) views
unfolding index_columns
index_columns-IsWithin bytes o t rows views h =
    let (known, s, _, a) = and_then-eq-ok (two_words bytes 0x53475242 o) _ h in
    let (_, b) = checked-eq-ok known _ s _ a in
    let (row_count, s1, _, c) = and_then-eq-ok (native_u32 bytes s) _ b in
    let (column_count, s2, _, d) = and_then-eq-ok (native_u32 bytes s1) _ c in
    let (supported, s3, _, e) = and_then-eq-ok (two_words bytes 1 s2) _ d in
    let (_, g) = checked-eq-ok supported _ s3 _ e in
    let (found, s4, viewed, k) = and_then-eq-ok (column_views bytes column_count s3) _ g in
    let (_, l) = checked-eq-ok (s4 == length bytes) _ s4 _ k in
    subst (All (IsWithin bytes))
      (ap (λ (r : ℕ × List NativeColumnView). r.1)
        (ok-injective (ap (λ (r : Result (ℕ × List NativeColumnView) × ℕ). r.0) l)))
      (column_views-IsWithin bytes column_count s3 s4 found viewed)

-- If a native read batch is indexed, all buffers of all views lie within its bytes, so that the
-- pointers that the C interface makes of them are in range.
pub index_native_batch-IsWithin :
    (bytes : List ℕ) (rows : ℕ) (views : List NativeColumnView)
    → index_native_batch bytes ≡ ok (rows, views)
    → All (IsWithin bytes) views
unfolding index_native_batch
index_native_batch-IsWithin [] rows views h =
    subst (All (IsWithin [])) (ap (λ (r : ℕ × List NativeColumnView). r.1) (ok-injective h)) tt
index_native_batch-IsWithin (b ∷ bs) rows views h =
    index_columns-IsWithin (b ∷ bs) 0 (index_columns (b ∷ bs) 0).1 rows views
      (ap (λ (r : Result (ℕ × List NativeColumnView)). (r, (index_columns (b ∷ bs) 0).1)) h)
