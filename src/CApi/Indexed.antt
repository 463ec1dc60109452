-- ===== src/CApi/Indexed.antt =====
-- src/c_api.cpp: the index of a native read batch is made within its bounds.
use exasol_gateway_sdk.Base.{
  ℕ, zero, suc, ◌+◌, List, [], ◌∷◌, Bool-cases, inl, inr, ◌==◌, length, arith, if◌then◌else◌,
  IsSafe,
}
use exasol_gateway_sdk.Base.Bytes.{at, at-lt, read_big_endian_total}
use exasol_gateway_sdk.Base.Judged.{IsJudged, and_then-IsJudged, checked-IsJudged, lifted-IsJudged}
use exasol_gateway_sdk.Base.Outcome.{Result, ok, err, fault, >>=-IsSafe}
use exasol_gateway_sdk.Session.{NativeFetchBatch}
use exasol_gateway_sdk.Session.Codec.{has_room}
use exasol_gateway_sdk.Session.Reads.{has_room-le}
use exasol_gateway_sdk.CApi.{
  native_u32, native_skip, buffer, sizes_buffer, column_view, column_views, two_words,
  index_columns, index_native_batch,
}
use exasol_gateway_sdk.CApi.Handles.{native_handle}

native_u32-IsJudged : (bytes : List ℕ) (o : ℕ) → IsJudged (native_u32 bytes o).0
unfolding native_u32
native_u32-IsJudged bytes o =
    checked-IsJudged (has_room bytes o 4) _ o _
      λ h. let (v, e) = read_big_endian_total 32 4 bytes o 0 (has_room-le bytes o 4 h) in rw e tt

native_skip-IsJudged : (bytes : List ℕ) (size o : ℕ) → IsJudged (native_skip bytes size o).0
unfolding native_skip
native_skip-IsJudged bytes size o = checked-IsJudged (has_room bytes o size) _ o _ λ _. tt

buffer-IsJudged : (bytes : List ℕ) (o : ℕ) → IsJudged (buffer bytes o).0
unfolding buffer
buffer-IsJudged bytes o =
    and_then-IsJudged (native_u32 bytes o) _ (native_u32-IsJudged bytes o) λ size s _.
      and_then-IsJudged (native_skip bytes size s) _ (native_skip-IsJudged bytes size s) λ _ _ _. tt

sizes_buffer-IsJudged : (bytes : List ℕ) (kind o : ℕ) → IsJudged (sizes_buffer bytes kind o).0
unfolding sizes_buffer
sizes_buffer-IsJudged bytes kind o = elim (Bool-cases (kind == 7)) [
  | inl strings ↦ rw strings (buffer-IsJudged bytes o)
  | inr fixed ↦ rw fixed tt
]

two_words-IsJudged : (bytes : List ℕ) (expected o : ℕ) → IsJudged (two_words bytes expected o).0
unfolding two_words
two_words-IsJudged bytes expected o =
    and_then-IsJudged (native_u32 bytes o) _ (native_u32-IsJudged bytes o) λ first s _.
      elim (Bool-cases (first == expected)) [
        | inl same ↦
            rw same
              (and_then-IsJudged (native_u32 bytes s) _ (native_u32-IsJudged bytes s) λ _ _ _. tt)
        | inr other ↦ rw other tt
      ]

column_view-IsJudged : (bytes : List ℕ) (o : ℕ) → IsJudged (column_view bytes o).0
unfolding column_view
column_view-IsJudged bytes o = checked-IsJudged (has_room bytes o 4) _ o _ λ h.
    lifted-IsJudged (at bytes o) o _
      (rw (at-lt bytes o (omega (arith, has_room-le bytes o 4 h))) tt)
      λ kind _.
        and_then-IsJudged (native_u32 bytes (o + 4)) _ (native_u32-IsJudged bytes (o + 4))
          λ scale a _.
            and_then-IsJudged (native_u32 bytes a) _ (native_u32-IsJudged bytes a) λ buffers b _.
              checked-IsJudged (buffers == (if kind == 7 then 3 else 2)) _ b _ λ _.
                and_then-IsJudged (buffer bytes b) _ (buffer-IsJudged bytes b) λ nulls c _.
                  and_then-IsJudged (sizes_buffer bytes kind c) _
                    (sizes_buffer-IsJudged bytes kind c)
                    λ sizes d _.
                      and_then-IsJudged (buffer bytes d) _ (buffer-IsJudged bytes d) λ _ _ _. tt

column_views-IsJudged : (bytes : List ℕ) (columns o : ℕ) → IsJudged (column_views bytes columns o).0
unfolding column_views
column_views-IsJudged bytes zero o = tt
column_views-IsJudged bytes (suc columns) o =
    and_then-IsJudged (column_view bytes o) _ (column_view-IsJudged bytes o) λ view s _.
      and_then-IsJudged (column_views bytes columns s) _ (column_views-IsJudged bytes columns s)
        λ _ _ _. tt

index_columns-IsJudged : (bytes : List ℕ) (o : ℕ) → IsJudged (index_columns bytes o).0
unfolding index_columns
index_columns-IsJudged bytes o =
    and_then-IsJudged (two_words bytes 0x53475242 o) _ (two_words-IsJudged bytes 0x53475242 o)
      λ known a _. checked-IsJudged known _ a _ λ _.
        and_then-IsJudged (native_u32 bytes a) _ (native_u32-IsJudged bytes a) λ rows b _.
          and_then-IsJudged (native_u32 bytes b) _ (native_u32-IsJudged bytes b) λ columns c _.
            and_then-IsJudged (two_words bytes 1 c) _ (two_words-IsJudged bytes 1 c)
              λ supported d _. checked-IsJudged supported _ d _ λ _.
                and_then-IsJudged (column_views bytes columns d) _
                  (column_views-IsJudged bytes columns d)
                  λ views e _. checked-IsJudged (e == length bytes) _ e _ λ _. tt

judged-IsSafe {ℓ} : {A : Type ℓ} (r : Result A) → IsJudged r → IsSafe r
judged-IsSafe (ok a) h = tt
judged-IsSafe (err e) h = tt
judged-IsSafe fault h = h

index_native_batch-IsSafe : (bytes : List ℕ) → IsSafe (index_native_batch bytes)
unfolding index_native_batch
index_native_batch-IsSafe [] = tt
index_native_batch-IsSafe (b ∷ bs) = judged-IsSafe _ (index_columns-IsJudged (b ∷ bs) 0)

pub native_handle-IsSafe : (value : NativeFetchBatch) → IsSafe (native_handle value)
unfolding native_handle
native_handle-IsSafe value =
    >>=-IsSafe (index_native_batch value.native_rows) _
      (index_native_batch-IsSafe value.native_rows) λ _ _. tt
