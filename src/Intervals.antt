-- ===== src/Intervals.antt =====
-- Interval values: the cases of bindParameter that store a SQL_INTERVAL_STRUCT, and those of
-- fillOutput that fill one (src/driver/cpp/SnappyStatement.cpp). The native types have no intervals, so
-- one number of the smallest unit is stored, an INTEGER or a BIGINT.
pub mod RoundTrip
use snappy_odbc.Common.{
  ℕ, zero, suc, ◌+◌, ◌*◌, ◌/◌, ◌%◌, Bool, true, false, ◌&&◌, if◌then◌else◌, ℤ, pos, negsuc, ltb_ℤ,
  ◌==ℤ◌,
}
use snappy_odbc.Fetch.{to_int32}

pub data IntervalKind : Type 0 where
  year month day hour minute second : IntervalKind
  year_to_month day_to_hour day_to_minute day_to_second : IntervalKind
  hour_to_minute hour_to_second minute_to_second : IntervalKind

-- SQL_INTERVAL_STRUCT; its union holds a year and a month, or a day, an hour, a minute, a second and a
-- fraction, so the first two cells are shared. Each is a SQLUINTEGER.
pub record Interval : Type 0 where
  pub kind : IntervalKind
  pub negative : Bool
  pub year_or_day : ℕ
  pub month_or_hour : ℕ
  pub minutes : ℕ
  pub seconds : ℕ
  pub fraction : ℕ

abbrev pub negate : ℤ → ℤ
negate (pos zero) = pos zero
negate (pos (suc n)) = negsuc n
negate (negsuc n) = pos (suc n)

-- `(interval->interval_sign == SQL_FALSE) ? v : -v`
abbrev pub with_sign : Bool → ℤ → ℤ
with_sign negative v = if negative then negate v else v

-- `const int v = ...`, from a SQLUINTEGER expression.
abbrev pub as_int : ℕ → ℤ
as_int n = to_int32 (n % 4294967296)

-- The number that bindParameter stores; the fields that a BIGINT is computed from are widened first.
unfoldable pub encode : IntervalKind → Interval → ℤ
encode year i = with_sign i.negative (as_int i.year_or_day)
encode month i = with_sign i.negative (as_int i.month_or_hour)
encode day i = with_sign i.negative (as_int i.year_or_day)
encode hour i = with_sign i.negative (as_int i.month_or_hour)
encode minute i = with_sign i.negative (as_int i.minutes)
encode second i = with_sign i.negative (as_int i.seconds)
encode year_to_month i = with_sign i.negative (as_int (i.year_or_day * 12 + i.month_or_hour))
encode day_to_hour i = with_sign i.negative (pos (i.year_or_day * 24 + i.month_or_hour))
encode day_to_minute i =
    with_sign i.negative (pos ((i.year_or_day * 24 + i.month_or_hour) * 60 + i.minutes))
encode day_to_second i =
    with_sign i.negative
      (pos (((i.year_or_day * 24 + i.month_or_hour) * 60 + i.minutes) * 60 + i.seconds))
encode hour_to_minute i = with_sign i.negative (pos (i.month_or_hour * 60 + i.minutes))
encode hour_to_second i =
    with_sign i.negative (pos ((i.month_or_hour * 60 + i.minutes) * 60 + i.seconds))
encode minute_to_second i = with_sign i.negative (pos (i.minutes * 60 + i.seconds))

abbrev pub magnitude : ℤ → ℕ
magnitude (pos n) = n
magnitude (negsuc n) = suc n

-- The kind and the sign, and the memset of the day and time fields.
abbrev pub sign_and_kind : IntervalKind → ℤ → Interval → Interval
sign_and_kind k z i = record i { kind = k; negative = ltb_ℤ z (pos 0) }

abbrev pub cleared : IntervalKind → ℤ → Interval
cleared k z = record {
  kind = k;
  negative = ltb_ℤ z (pos 0);
  year_or_day = 0;
  month_or_hour = 0;
  minutes = 0;
  seconds = 0;
  fraction = 0;
}

abbrev pub as_uint : ℕ → ℕ
as_uint n = n % 4294967296

-- What fillOutput makes of the number n, the magnitude of z, in the application's structure.
unfoldable pub fill_interval : IntervalKind → ℤ → ℕ → Interval → Interval
fill_interval year z n i = record (sign_and_kind year z i) { year_or_day = n; month_or_hour = 0 }
fill_interval month z n i = record (sign_and_kind month z i) { month_or_hour = n; year_or_day = 0 }
fill_interval day z n i = record (cleared day z) { year_or_day = n }
fill_interval hour z n i = record (cleared hour z) { month_or_hour = n }
fill_interval minute z n i = record (cleared minute z) { minutes = n }
fill_interval second z n i = record (cleared second z) { seconds = n }
fill_interval year_to_month z n i = record (sign_and_kind year_to_month z i) {
  year_or_day = n / 12;
  month_or_hour = n % 12;
}
fill_interval day_to_hour z n i = record (cleared day_to_hour z) {
  year_or_day = n / 24;
  month_or_hour = n % 24;
}
fill_interval day_to_minute z n i = record (cleared day_to_minute z) {
  year_or_day = as_uint (n / 60 / 24);
  month_or_hour = as_uint (n / 60 % 24);
  minutes = as_uint (n % 60);
}
fill_interval day_to_second z n i = record (cleared day_to_second z) {
  year_or_day = as_uint (n / 60 / 60 / 24);
  month_or_hour = as_uint (n / 60 / 60 % 24);
  minutes = as_uint (n / 60 % 60);
  seconds = as_uint (n % 60);
}
fill_interval hour_to_minute z n i = record (cleared hour_to_minute z) {
  month_or_hour = as_uint (n / 60);
  minutes = as_uint (n % 60);
}
fill_interval hour_to_second z n i = record (cleared hour_to_second z) {
  month_or_hour = as_uint (n / 60 / 60);
  minutes = as_uint (n / 60 % 60);
  seconds = as_uint (n % 60);
}
fill_interval minute_to_second z n i = record (cleared minute_to_second z) {
  minutes = as_uint (n / 60);
  seconds = as_uint (n % 60);
}

-- The kinds that are read with getInt64; the others are read with getInt.
abbrev pub is_wide : IntervalKind → Bool
is_wide day_to_minute = true
is_wide day_to_second = true
is_wide hour_to_minute = true
is_wide hour_to_second = true
is_wide minute_to_second = true
is_wide _ = false

-- `get_int` and `get_int64` are the client library's readings of the stored number; the flag that
-- comes with the interval says whether SQL_NULL_DATA is reported.
unfoldable pub decode : (ℤ → ℤ) → (ℤ → ℤ) → Bool → IntervalKind → ℤ → Interval → Interval × Bool
decode get_int get_int64 is_null k stored i =
    let z = if is_wide k then get_int64 stored else get_int stored in
    (fill_interval k z (magnitude z) i, (z ==ℤ pos 0) && is_null)
