-- ===== src/WriteBatch/Dates.antt =====
-- What the packed values stand for.
use native.Mathlib.Nat.{mod-eq_of_lt}
use exasol_gateway_sdk.Errors.{protocol_error, text, Error}
use exasol_gateway_sdk.Base.{
  ℕ, ◌+◌, ◌-◌, ◌*◌, ◌/◌, ◌%◌, ◌^◌, ◌≤◌, ◌<◌, bit_or, true, ok, err, leb, le→ltb_false,
  if◌then◌else◌, ◌≡◌, ap, ap₂, ◌∙◌, arith,
}
use exasol_gateway_sdk.Base.Bits.{bit_or_sum}
use exasol_gateway_sdk.WriteBatch.Values.{
  NativeTimestamp, date_ok, from_ymd, from_int64, from_components,
}

abbrev pub invalid_date : Error
invalid_date = record {
  category = protocol_error;
  message = text "SessionGW native date is invalid";
}

fields_joined :
    (year month day : ℕ)
    → year < 65536
    → month < 256
    → day < 256
    → bit_or (bit_or (year * 2 ^ 16 % 2 ^ 32) (month * 2 ^ 8 % 2 ^ 32)) day
      ≡ (year * 256 + month) * 256 + day
fields_joined year month day hy hm hd =
    ap₂ (λ (x y : ℕ). bit_or (bit_or x y) day) (mod-eq_of_lt (omega arith))
      (mod-eq_of_lt (omega arith))
    ∙ ap (λ (x : ℕ). bit_or x day) (bit_or_sum 16 year (month * 2 ^ 8) (omega arith) ∙ regrouped)
    ∙ bit_or_sum 8 (year * 256 + month) day hd
  where
    regrouped : year * 2 ^ 16 + month * 2 ^ 8 ≡ (year * 256 + month) * 2 ^ 8
    regrouped = omega arith

date_ok_bounds : (year month day : ℕ) → date_ok year month day ≡ true → (month ≤ 12) × (day ≤ 31)
unfolding date_ok
date_ok_bounds year month day h = ground arith

-- For a month and a day of eight bits, `NativeDate::fromYmd` throws unless the year is at most 9999
-- and the date is one of the calendar; otherwise it returns year, month and day in 16, 8 and 8 bits.
pub from_ymd_lem :
    (year month day : ℕ)
    → month < 256
    → day < 256
    → from_ymd year month day ≡ (
        if leb year 9999
        then (if date_ok year month day
            then ok (record { packed = (year * 256 + month) * 256 + day })
            else err invalid_date)
        else err invalid_date)
unfolding from_ymd
from_ymd_lem year month day hm hd =
    rw (mod-eq_of_lt {n = month} {m = 2 ^ 8} hm, mod-eq_of_lt {n = day} {m = 2 ^ 8} hd)
      (ground (arith, fields_joined year month day))

-- A month that is 256 too large is taken for the month, and spoils the year: for each date of the
-- calendar in an even year up to 9998, adding 256 to the month gives what the same month and day of
-- the next year are packed into, and nothing is thrown.
pub from_ymd_month_wraps :
    (half month day : ℕ)
    → 2 * half ≤ 9998
    → date_ok (2 * half) month day ≡ true
    → from_ymd (2 * half) (month + 256) day
      ≡ ok (record { packed = ((2 * half + 1) * 256 + month) * 256 + day })
unfolding from_ymd
from_ymd_month_wraps half month day small valid =
    rw (month_back, day_back, valid, le→ltb_false 9999 (2 * half) (omega arith))
      (ap (λ (n : ℕ). ok (record { packed = n })) joined)
  where
    bounds : (month ≤ 12) × (day ≤ 31)
    bounds = date_ok_bounds (2 * half) month day valid

    month_back : (month + 256) % 2 ^ 8 ≡ month
    month_back = omega (arith, bounds)

    day_back : day % 2 ^ 8 ≡ day
    day_back = omega (arith, bounds)

    joined :
        bit_or (bit_or (2 * half * 2 ^ 16 % 2 ^ 32) ((month + 256) * 2 ^ 8 % 2 ^ 32)) day
        ≡ ((2 * half + 1) * 256 + month) * 256 + day
    joined =
        ap₂ (λ (x y : ℕ). bit_or (bit_or x y) day) year_shifted month_shifted
        ∙ ap (λ (x : ℕ). bit_or x day) (bit_or_sum 17 half ((month + 256) * 2 ^ 8) fits ∙ regrouped)
        ∙ bit_or_sum 8 ((2 * half + 1) * 256 + month) day (omega (arith, bounds))
      where
        fits : (month + 256) * 2 ^ 8 < 2 ^ 17
        fits = omega (arith, bounds)

        year_shifted : 2 * half * 2 ^ 16 % 2 ^ 32 ≡ half * 2 ^ 17
        year_shifted = omega arith

        month_shifted : (month + 256) * 2 ^ 8 % 2 ^ 32 ≡ (month + 256) * 2 ^ 8
        month_shifted = omega (arith, bounds)

        regrouped : half * 2 ^ 17 + (month + 256) * 2 ^ 8 ≡ ((2 * half + 1) * 256 + month) * 2 ^ 8
        regrouped = omega arith

-- If `fromComponents` returns a timestamp, `fromYmd` returned its date, its seconds are below 86400,
-- hour, minute and second can be had back from them, the nanosecond is the given one and below
-- 10 ^ 9, and the padding is zero.
pub from_components_lem :
    (year month day hour minute second nanosecond : ℕ) (t : NativeTimestamp)
    → from_components year month day hour minute second nanosecond ≡ ok t
    → (from_ymd year month day ≡ ok t.date)
      × (t.seconds_since_midnight < 86400)
      × (t.seconds_since_midnight / 3600 ≡ hour)
      × (t.seconds_since_midnight / 60 % 60 ≡ minute)
      × (t.seconds_since_midnight % 60 ≡ second)
      × (t.nanosecond ≡ nanosecond)
      × (nanosecond < 1000000000)
      × (t.padding ≡ 0)
unfolding from_components
from_components_lem year month day hour minute second nanosecond t e = ground arith

-- `NativeDecimal128::fromInt64` extends the sign: the two words are the 128-bit pattern of the number
-- whose 64-bit pattern is given, modulo 2 ^ 128.
pub from_int64_lem :
    (v : ℕ)
    → v < 2 ^ 64
    → (from_int64 v).low + 2 ^ 64 * (from_int64 v).high
      ≡ (if leb (2 ^ 63) v then v + 2 ^ 128 - 2 ^ 64 else v)
unfolding from_int64
from_int64_lem v h = ground arith
