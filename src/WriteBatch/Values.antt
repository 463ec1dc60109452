-- ===== src/WriteBatch/Values.antt =====
-- src/native_write_batch.cpp: dates, timestamps and 128-bit decimals. A signed number is its bit
-- pattern.
use exasol_gateway_sdk.Errors.{protocol_error}
use exasol_gateway_sdk.Base.{
  ℕ, ◌+◌, ◌-◌, ◌*◌, ◌%◌, ◌^◌, bit_or, Bool, ◌&&◌, ◌||◌, not, Result, ok, ltb, leb, ◌==◌,
  if◌then◌else◌,
}
use exasol_gateway_sdk.Base.Outcome.{◌>>=◌, throw}

-- `std::chrono::year::is_leap`
abbrev pub is_leap : ℕ → Bool
is_leap y = y % 4 == 0 && (not (y % 100 == 0) || y % 400 == 0)

-- The last day of a month.
abbrev pub last_day : ℕ → ℕ → ℕ
last_day y m =
    if m == 2
    then (if is_leap y then 29 else 28)
    else if m == 4 || (m == 6 || (m == 9 || m == 11))
    then 30
    else 31

-- `std::chrono::year_month_day::ok`, for the years that `from_ymd` lets pass.
unfoldable pub date_ok : ℕ → ℕ → ℕ → Bool
date_ok y m d = leb 1 m && (leb m 12 && (leb 1 d && leb d (last_day y m)))

pub record NativeDate : Type 0 where
  pub packed : ℕ

-- `std::chrono::month` and `std::chrono::day` keep eight bits of what they are given, as the common
-- standard libraries implement them; the value that is packed keeps all.
unfoldable pub from_ymd : ℕ → ℕ → ℕ → Result NativeDate
from_ymd year month day =
    if ltb 9999 year || not (date_ok year (month % 2 ^ 8) (day % 2 ^ 8))
    then throw protocol_error "SessionGW native date is invalid"
    else ok
        (record { packed = bit_or (bit_or (year * 2 ^ 16 % 2 ^ 32) (month * 2 ^ 8 % 2 ^ 32)) day })

pub record NativeDecimal128 : Type 0 where
  pub low : ℕ
  pub high : ℕ

unfoldable pub from_int64 : ℕ → NativeDecimal128
from_int64 v = record { low = v; high = if leb (2 ^ 63) v then 2 ^ 64 - 1 else 0 }

pub record NativeTimestamp : Type 0 where
  pub nanosecond : ℕ
  pub seconds_since_midnight : ℕ
  pub date : NativeDate
  pub padding : ℕ

unfoldable pub from_components : ℕ → ℕ → ℕ → ℕ → ℕ → ℕ → ℕ → Result NativeTimestamp
from_components year month day hour minute second nanosecond =
    if leb 24 hour || (leb 60 minute || (leb 60 second || leb 1000000000 nanosecond))
    then throw protocol_error "SessionGW native timestamp is invalid"
    else do
      date ← from_ymd year month day
      ok (record {
        nanosecond = nanosecond;
        seconds_since_midnight = (hour * 3600 + minute * 60 + second) % 2 ^ 32;
        date = date;
        padding = 0;
      })
