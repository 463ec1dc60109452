-- ===== src/CApi/Borrowed.antt =====
-- src/c_api.cpp: the views that are borrowed from the handle of a native fetch lie in its batch.
use exasol_gateway_sdk.Base.{
  ℕ, zero, suc, ◌+◌, ◌≤◌, List, [], ◌∷◌, Option, none, some, Bool, true, false, ◌==◌, length, All,
  get_elem?, ◌≡◌, refl, arith, if◌then◌else◌, ok,
}
use mathlib.Core.Path.{subst}
use exasol_gateway_sdk.Base.Outcome.{>>=-eq-ok}
use exasol_gateway_sdk.Session.{NativeFetchBatch}
use exasol_gateway_sdk.CApi.{NativeColumnView, index_native_batch}
use exasol_gateway_sdk.CApi.Handles.{CNativeFetch, native_handle}
use exasol_gateway_sdk.CApi.Index.{ok-injective, IsWithin, index_native_batch-IsWithin}
use exasol_gateway_sdk.CApi.Views.{
  View, buffer_view, nulls_of, fixed_of, variable_of, sizes_of, column_at,
  native_fetch_column_nulls, native_fetch_column_fixed_data, native_fetch_column_variable_data,
  native_fetch_column_sizes,
}

-- A pointer to some bytes of the vector, or none to none.
abbrev pub IsIn : List ℕ → View → Type 0
IsIn bytes (none, size) = size ≡ 0
IsIn bytes (some position, size) = position + size ≤ length bytes

-- The four views of a column.
pub record IsBorrowed (bytes : List ℕ) (view : Option NativeColumnView) : Type 0 where
  pub nulls : IsIn bytes (nulls_of view)
  pub fixed : IsIn bytes (fixed_of view)
  pub variable : IsIn bytes (variable_of view)
  pub sizes : IsIn bytes (sizes_of view)

buffer_view-IsIn :
    (bytes : List ℕ) (offset size : ℕ)
    → offset + size ≤ length bytes
    → IsIn bytes (buffer_view offset size)
buffer_view-IsIn bytes offset zero h = refl
buffer_view-IsIn bytes offset (suc size) h = rw (suc_nonzero size) h
  where
    suc_nonzero : (n : ℕ) → (suc n == 0) ≡ false
    suc_nonzero n = ground arith

either-IsIn :
    (bytes : List ℕ) (b : Bool) (u v : View)
    → IsIn bytes u
    → IsIn bytes v
    → IsIn bytes (if b then u else v)
either-IsIn bytes true u v h k = h
either-IsIn bytes false u v h k = k

view-IsBorrowed :
    (bytes : List ℕ) (view : NativeColumnView) → IsWithin bytes view → IsBorrowed bytes (some view)
view-IsBorrowed bytes view h =
    let values = buffer_view-IsIn bytes view.data_offset view.data_size h.values in
    record {
      nulls = buffer_view-IsIn bytes view.null_offset view.null_size h.nulls;
      fixed = either-IsIn bytes (view.kind == 7) (none, 0) _ refl values;
      variable = either-IsIn bytes (view.kind == 7) _ (none, 0) values refl;
      sizes =
          either-IsIn bytes (view.kind == 7) _ (none, 0)
            (buffer_view-IsIn bytes view.sizes_offset view.sizes_size h.sizes) refl;
    }

elem-IsBorrowed :
    (bytes : List ℕ) (views : List NativeColumnView) (column : ℕ)
    → All (IsWithin bytes) views
    → IsBorrowed bytes (get_elem? views column)
elem-IsBorrowed bytes [] column h = record {
  nulls = refl;
  fixed = refl;
  variable = refl;
  sizes = refl;
}
elem-IsBorrowed bytes (view ∷ views) zero h = view-IsBorrowed bytes view h.0
elem-IsBorrowed bytes (view ∷ views) (suc column) h = elem-IsBorrowed bytes views column h.1

-- The views of a column of a handle, as the interface gives them.
abbrev pub IsLent : CNativeFetch → ℕ → Type 0
IsLent handle column =
    let rows = handle.value.native_rows in
    IsIn rows (native_fetch_column_nulls (some handle) column)
    × IsIn rows (native_fetch_column_fixed_data (some handle) column)
    × IsIn rows (native_fetch_column_variable_data (some handle) column)
    × IsIn rows (native_fetch_column_sizes (some handle) column)

-- Of the handle that a native fetch stores, for any number of a column, whatever the server sent:
-- the null bytes, the fixed-width data, the variable-width data and the sizes that the interface
-- points to lie within the batch that the handle keeps, and where it has no pointer the size is 0.
pub native_handle-IsLent :
    (value : NativeFetchBatch) (handle : CNativeFetch)
    → native_handle value ≡ ok handle
    → (column : ℕ) → IsLent handle column
unfolding native_handle column_at native_fetch_column_nulls native_fetch_column_fixed_data
    native_fetch_column_variable_data native_fetch_column_sizes
native_handle-IsLent value handle made column =
    let (indexed, found, same) = >>=-eq-ok (index_native_batch value.native_rows) _ made in
    let b =
      elem-IsBorrowed value.native_rows indexed.1 column
        (index_native_batch-IsWithin value.native_rows indexed.0 indexed.1 found) in
    subst (λ (h : CNativeFetch). IsLent h column) (ok-injective same)
      (b.nulls, b.fixed, b.variable, b.sizes)
