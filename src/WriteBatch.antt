-- ===== src/WriteBatch.antt =====
-- include/sessiongw/native_write_batch.hpp and src/native_write_batch.cpp: the builder of native
-- write batches, and the scalar values that it takes. `size_t` has 64 bits.
pub mod Values
pub mod Builder
pub mod Columns
pub mod Typed
pub mod Layout
pub mod Buffers
pub mod Batch
pub mod Atomic
pub mod Dates
mod Runs
use exasol_gateway_sdk.Base.{ℕ, ◌+◌, ◌-◌, ◌%◌, ◌^◌, List, Bool, true, false}

abbrev pub native_write_batch_magic : ℕ
native_write_batch_magic = 0x53475742

abbrev pub native_write_batch_version : ℕ
native_write_batch_version = 2

abbrev pub native_write_batch_alignment : ℕ
native_write_batch_alignment = 16

abbrev pub native_write_batch_size_width : ℕ
native_write_batch_size_width = 8

abbrev pub native_write_batch_scalar_abi : ℕ
native_write_batch_scalar_abi = 1

-- The byte order of the machine is an argument: `true` is little-endian.
abbrev pub native_write_batch_scalar_endianness : Bool → ℕ
native_write_batch_scalar_endianness true = 1
native_write_batch_scalar_endianness false = 2

abbrev pub native_write_not_null : ℕ
native_write_not_null = 0

abbrev pub native_write_null : ℕ
native_write_null = 0xff

-- `output` is the caller's vector, which the builder refers to.
pub record NativeWriteBatchBuilder : Type 0 where
  pub output : List ℕ
  pub batch_offset : ℕ
  pub row_count : ℕ
  pub column_count : ℕ
  pub appended_columns : ℕ
  pub started : Bool

-- `std::numeric_limits<std::size_t>::max()`
abbrev pub size_max : ℕ
size_max = 2 ^ 64 - 1

-- `a - b` on `size_t`.
abbrev pub sub_size : ℕ → ℕ → ℕ
sub_size a b = (a + 2 ^ 64 - b) % 2 ^ 64
