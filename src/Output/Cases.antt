-- ===== src/Output/Cases.antt =====
-- The structures that fillOutput of src/driver/cpp/SnappyStatement.cpp fills, and its switch over the
-- C types.
use snappy_odbc.Common.{
  ℕ, suc, ◌&&◌, ◌||◌, not, Option, none, some, List, leb, if◌then◌else◌, ℤ, pos, leb_ℤ, ◌==ℤ◌, ◌+ℤ◌,
  length,
}
use snappy_odbc.Strings.{sql_null_data}
use snappy_odbc.Types.{CType, convert_sql_type_to_c_type}
use snappy_odbc.Driver.{
  success_with_info, error, invalid_ctype, numeric_truncated, outside_range_for_numeric,
}
use snappy_odbc.Intervals.{IntervalKind, fill_interval, magnitude, is_wide}
use snappy_odbc.Parameters.{is_default}
use snappy_odbc.Output.{
  Calendar, TDecimal, Column, Stored, untouched, zeroed, date_struct, time_struct, timestamp_struct,
  numeric_struct, interval_struct, guid_struct, Filled, filled, Target, or_null, signed_number,
  unsigned_number, floating, narrow_string, wide_string, binary,
}

-- A date or time is there where its epoch time is not 0 or the column is not null; else the
-- structure is cleared.
unfoldable pub calendar : Column → Calendar → ℕ → Stored → Filled
calendar c t size x =
    if t.has_epoch || not c.is_null then filled x (pos size) else filled (zeroed size) sql_null_data

-- tm_year counts from 1900, tm_mon from 0.
abbrev pub date_of_tm : Calendar → Stored
date_of_tm t = date_struct (t.tm_year +ℤ pos 1900) (suc t.tm_mon) t.tm_mday

abbrev pub time_of_tm : Calendar → Stored
time_of_tm t = time_struct t.tm_hour t.tm_min t.tm_sec

abbrev pub timestamp_of_tm : Calendar → Stored
timestamp_of_tm t =
    timestamp_struct (t.tm_year +ℤ pos 1900) (suc t.tm_mon) t.tm_mday t.tm_hour t.tm_min t.tm_sec
      t.nanos

-- SQL_C_NUMERIC; where wholeDigits fails, what it left in the bytes of the value is not kept. By at most sixteen bytes; precision, scale, sign and the bytes that are copied.
unfoldable pub numeric_of : TDecimal → Filled
numeric_of d =
    let size = pos (length d.mag) in
    if leb (length d.mag) 16 && leb_ℤ d.scale (pos 16)
    then filled (numeric_struct (length d.mag) d.scale d.signum d.mag) size
    else elim d.whole_digits [
      | some w ↦ record {
        stored = numeric_struct 16 (pos 0) d.signum w.0;
        indicator = size;
        code = success_with_info;
        raised = some numeric_truncated;
      }
      | none ↦ record {
        stored = untouched;
        indicator = size;
        code = error;
        raised = some outside_range_for_numeric;
      }
    ]

-- The number is read with getInt or getInt64, by the kind; sizeof(SQL_INTERVAL_STRUCT) is 28.
unfoldable pub interval_of : IntervalKind → Column → Target → Filled
interval_of k c t =
    let z = c.sint_of (if is_wide k then 8 else 4) in
    filled (interval_struct (fill_interval k z (magnitude z) t.interval))
      (or_null c (z ==ℤ pos 0) 28)

-- A type that is not known: nothing is stored; the indicator stays as it was, 0 here.
abbrev pub unknown_type : Filled
unknown_type = record {
  stored = untouched;
  indicator = pos 0;
  code = error;
  raised = some invalid_ctype;
}

-- The switch; SQL_C_LONG reports sizeof(SQLLEN).
unfoldable pub fill_case : (List ℕ → ℤ → List ℕ) → CType → Column → Target → Option Filled
fill_case convert CType.char c t = narrow_string c t
fill_case convert CType.wchar c t = wide_string convert c t
fill_case convert CType.binary c t = binary c t
fill_case convert CType.sshort c t = some (signed_number c 2 2)
fill_case convert CType.short c t = some (signed_number c 2 2)
fill_case convert CType.ushort c t = some (unsigned_number c 2)
fill_case convert CType.slong c t = some (signed_number c 4 4)
fill_case convert CType.ulong c t = some (unsigned_number c 4)
fill_case convert CType.long c t = some (signed_number c 4 8)
fill_case convert CType.float c t = some (floating c 4)
fill_case convert CType.double c t = some (floating c 8)
fill_case convert CType.bit c t = some (signed_number c 1 1)
fill_case convert CType.utinyint c t = some (unsigned_number c 1)
fill_case convert CType.tinyint c t = some (unsigned_number c 1)
fill_case convert CType.stinyint c t = some (signed_number c 1 1)
fill_case convert CType.sbigint c t = some (signed_number c 8 8)
fill_case convert CType.ubigint c t = some (unsigned_number c 8)
fill_case convert CType.date c t = some (calendar c c.date_of 6 (date_of_tm c.date_of))
fill_case convert CType.type_date c t = some (calendar c c.date_of 6 (date_of_tm c.date_of))
fill_case convert CType.time c t = some (calendar c c.time_of 6 (time_of_tm c.time_of))
fill_case convert CType.type_time c t = some (calendar c c.time_of 6 (time_of_tm c.time_of))
fill_case convert CType.timestamp c t =
    some (calendar c c.timestamp_of 16 (timestamp_of_tm c.timestamp_of))
fill_case convert CType.type_timestamp c t =
    some (calendar c c.timestamp_of 16 (timestamp_of_tm c.timestamp_of))
fill_case convert CType.numeric c t = elim c.decimal_of [
  | none ↦ some (filled (zeroed 19) sql_null_data)
  | some d ↦ some (numeric_of d)
]
fill_case convert CType.interval_year c t = some (interval_of IntervalKind.year c t)
fill_case convert CType.interval_month c t = some (interval_of IntervalKind.month c t)
fill_case convert CType.interval_day c t = some (interval_of IntervalKind.day c t)
fill_case convert CType.interval_hour c t = some (interval_of IntervalKind.hour c t)
fill_case convert CType.interval_minute c t = some (interval_of IntervalKind.minute c t)
fill_case convert CType.interval_second c t = some (interval_of IntervalKind.second c t)
fill_case convert CType.interval_year_to_month c t =
    some (interval_of IntervalKind.year_to_month c t)
fill_case convert CType.interval_day_to_hour c t = some (interval_of IntervalKind.day_to_hour c t)
fill_case convert CType.interval_day_to_minute c t =
    some (interval_of IntervalKind.day_to_minute c t)
fill_case convert CType.interval_day_to_second c t =
    some (interval_of IntervalKind.day_to_second c t)
fill_case convert CType.interval_hour_to_minute c t =
    some (interval_of IntervalKind.hour_to_minute c t)
fill_case convert CType.interval_hour_to_second c t =
    some (interval_of IntervalKind.hour_to_second c t)
fill_case convert CType.interval_minute_to_second c t =
    some (interval_of IntervalKind.minute_to_second c t)
fill_case convert CType.guid c t = elim c.guid_of [
  | none ↦ some (filled (zeroed 16) sql_null_data)
  | some g ↦ some (filled (guid_struct g) (pos 16))
]
fill_case convert CType.default c t = some unknown_type
fill_case convert (CType.other n) c t = some unknown_type

-- fillOutput: SQL_C_DEFAULT stands for the C type of the column.
unfoldable pub fill_output : (List ℕ → ℤ → List ℕ) → CType → Column → Target → Option Filled
fill_output convert ctype c t =
    fill_case convert (if is_default ctype then convert_sql_type_to_c_type c.sql_type else ctype) c
      t
