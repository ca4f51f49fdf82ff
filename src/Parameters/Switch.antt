-- ===== src/Parameters/Switch.antt =====
-- The switch of bindParameter over the C types (src/driver/cpp/SnappyStatement.cpp).
pub mod Known
use snappy_odbc.Common.{
  ℕ, Bool, true, false, ◌&&◌, Option, none, some, List, [], ◌∷◌, ◌++◌, if◌then◌else◌, ℤ, pos, ltb_ℤ,
  leb_ℤ, ◌==ℤ◌, pos_part, ◌+ℤ◌,
}
use snappy_odbc.Strings.{sql_nts, to_size}
use snappy_odbc.Types.{CType, SqlType}
use snappy_odbc.Intervals.{Interval, IntervalKind, encode}
use snappy_odbc.Parameters.{Piece, Conversion}
use snappy_odbc.Parameters.Values.{
  Memory, Content, null_content, text, bytes, byte, short, int, int64, unsigned_byte,
  unsigned_short, unsigned_int, unsigned_int64, float_bits, double_bits, time_of, date_only,
  timestamp, numeric_content, guid_text,
}

-- `*(m_o_lenOrIndp + lenOffset)`, or SQL_NTS without a pointer.
abbrev pub length_given : Option ℤ → ℤ
length_given none = sql_nts
length_given (some len) = len

-- setString and appendString, setBinary and appendBinary.
abbrev pub put_content : Bool → Content → List Content → List Content
put_content true x old = old ++ x ∷ []
put_content false x old = x ∷ []

-- SQL_DATE_STRUCT and SQL_TIMESTAMP_STRUCT: the year of two bytes is signed, the other fields of
-- two bytes are not, and the fraction has four. A time has the date 1970-01-01.
unfoldable pub date_content : Memory → ℤ → Content
date_content m a = date_only (m.sint_at 2 a) (m.uint_at 2 (a +ℤ pos 2)) (m.uint_at 2 (a +ℤ pos 4))

unfoldable pub time_content : Memory → ℤ → Content
time_content m a =
    time_of (pos 1970) 1 1 (m.uint_at 2 a) (m.uint_at 2 (a +ℤ pos 2)) (m.uint_at 2 (a +ℤ pos 4))

unfoldable pub timestamp_content : Memory → ℤ → Content
timestamp_content m a =
    timestamp (m.sint_at 2 a) (m.uint_at 2 (a +ℤ pos 2)) (m.uint_at 2 (a +ℤ pos 4))
      (m.uint_at 2 (a +ℤ pos 6)) (m.uint_at 2 (a +ℤ pos 8)) (m.uint_at 2 (a +ℤ pos 10))
      (m.uint_at 4 (a +ℤ pos 12))

-- An interval is set as an INTEGER up to YEAR TO MONTH, and as a BIGINT from DAY TO HOUR on.
unfoldable pub interval_content : IntervalKind → Interval → Content
interval_content IntervalKind.year i = int (encode IntervalKind.year i)
interval_content IntervalKind.month i = int (encode IntervalKind.month i)
interval_content IntervalKind.day i = int (encode IntervalKind.day i)
interval_content IntervalKind.hour i = int (encode IntervalKind.hour i)
interval_content IntervalKind.minute i = int (encode IntervalKind.minute i)
interval_content IntervalKind.second i = int (encode IntervalKind.second i)
interval_content IntervalKind.year_to_month i = int (encode IntervalKind.year_to_month i)
interval_content IntervalKind.day_to_hour i = int64 (encode IntervalKind.day_to_hour i)
interval_content IntervalKind.day_to_minute i = int64 (encode IntervalKind.day_to_minute i)
interval_content IntervalKind.day_to_second i = int64 (encode IntervalKind.day_to_second i)
interval_content IntervalKind.hour_to_minute i = int64 (encode IntervalKind.hour_to_minute i)
interval_content IntervalKind.hour_to_second i = int64 (encode IntervalKind.hour_to_second i)
interval_content IntervalKind.minute_to_second i = int64 (encode IntervalKind.minute_to_second i)

-- The content of a value at an address, with its length, and whether it can be appended; `none`
-- for a type that is not known.
unfoldable pub content_of : Memory → CType → ℤ → ℤ → Option (Bool × Content)
content_of m CType.char a len =
    some (true, text (if ltb_ℤ len (pos 0) then m.c_text a else m.counted a (pos_part len)))
content_of m CType.wchar a len = some (true, text (m.wide_text a len))
content_of m CType.binary a len =
    some (true, bytes (if len ==ℤ sql_nts then m.c_text a else m.counted a (to_size len)))
content_of m CType.sshort a len = some (false, short (m.sint_at 2 a))
content_of m CType.short a len = some (false, short (m.sint_at 2 a))
content_of m CType.ushort a len = some (false, unsigned_short (m.uint_at 2 a))
content_of m CType.slong a len = some (false, int (m.sint_at 4 a))
content_of m CType.ulong a len = some (false, unsigned_int (m.uint_at 4 a))
content_of m CType.long a len = some (false, int (m.sint_at 4 a))
content_of m CType.float a len = some (false, float_bits (m.uint_at 4 a))
content_of m CType.double a len = some (false, double_bits (m.uint_at 8 a))
content_of m CType.bit a len = some (false, unsigned_byte (m.uint_at 1 a))
content_of m CType.utinyint a len = some (false, unsigned_byte (m.uint_at 1 a))
content_of m CType.tinyint a len = some (false, unsigned_byte (m.uint_at 1 a))
content_of m CType.stinyint a len = some (false, byte (m.sint_at 1 a))
content_of m CType.sbigint a len = some (false, int64 (m.sint_at 8 a))
content_of m CType.ubigint a len = some (false, unsigned_int64 (m.uint_at 8 a))
content_of m CType.date a len = some (false, date_content m a)
content_of m CType.type_date a len = some (false, date_content m a)
content_of m CType.time a len = some (false, time_content m a)
content_of m CType.type_time a len = some (false, time_content m a)
content_of m CType.timestamp a len = some (false, timestamp_content m a)
content_of m CType.type_timestamp a len = some (false, timestamp_content m a)
content_of m CType.numeric a len = some (false, numeric_content (m.numeric_at a))
content_of m CType.guid a len = some (false, text (guid_text (m.guid_at a)))
content_of m CType.interval_year a len =
    some (false, interval_content IntervalKind.year (m.interval_at a))
content_of m CType.interval_month a len =
    some (false, interval_content IntervalKind.month (m.interval_at a))
content_of m CType.interval_day a len =
    some (false, interval_content IntervalKind.day (m.interval_at a))
content_of m CType.interval_hour a len =
    some (false, interval_content IntervalKind.hour (m.interval_at a))
content_of m CType.interval_minute a len =
    some (false, interval_content IntervalKind.minute (m.interval_at a))
content_of m CType.interval_second a len =
    some (false, interval_content IntervalKind.second (m.interval_at a))
content_of m CType.interval_year_to_month a len =
    some (false, interval_content IntervalKind.year_to_month (m.interval_at a))
content_of m CType.interval_day_to_hour a len =
    some (false, interval_content IntervalKind.day_to_hour (m.interval_at a))
content_of m CType.interval_day_to_minute a len =
    some (false, interval_content IntervalKind.day_to_minute (m.interval_at a))
content_of m CType.interval_day_to_second a len =
    some (false, interval_content IntervalKind.day_to_second (m.interval_at a))
content_of m CType.interval_hour_to_minute a len =
    some (false, interval_content IntervalKind.hour_to_minute (m.interval_at a))
content_of m CType.interval_hour_to_second a len =
    some (false, interval_content IntervalKind.hour_to_second (m.interval_at a))
content_of m CType.interval_minute_to_second a len =
    some (false, interval_content IntervalKind.minute_to_second (m.interval_at a))
content_of m CType.default a len = none
content_of m (CType.other n) a len = none

-- m_o_valueSize after the case: the size of the C type, where none was given.
abbrev pub when_unset : ℕ → ℤ → ℤ
when_unset size n = if leb_ℤ n (pos 0) then pos size else n

unfoldable pub size_after : CType → ℤ → ℤ
size_after CType.sshort n = when_unset 2 n
size_after CType.short n = when_unset 2 n
size_after CType.ushort n = when_unset 2 n
size_after CType.slong n = when_unset 4 n
size_after CType.ulong n = when_unset 4 n
size_after CType.long n = when_unset 4 n
size_after CType.float n = when_unset 4 n
size_after CType.double n = when_unset 8 n
size_after CType.bit n = when_unset 1 n
size_after CType.utinyint n = when_unset 1 n
size_after CType.tinyint n = when_unset 1 n
size_after CType.stinyint n = when_unset 1 n
size_after CType.sbigint n = when_unset 8 n
size_after CType.ubigint n = when_unset 8 n
size_after CType.date n = when_unset 6 n
size_after CType.type_date n = when_unset 6 n
size_after CType.time n = when_unset 6 n
size_after CType.type_time n = when_unset 6 n
size_after CType.timestamp n = when_unset 16 n
size_after CType.type_timestamp n = when_unset 16 n
size_after CType.numeric n = when_unset 19 n
size_after CType.guid n = when_unset 16 n
size_after CType.interval_year n = when_unset 28 n
size_after CType.interval_month n = when_unset 28 n
size_after CType.interval_day n = when_unset 28 n
size_after CType.interval_hour n = when_unset 28 n
size_after CType.interval_minute n = when_unset 28 n
size_after CType.interval_second n = when_unset 28 n
size_after CType.interval_year_to_month n = when_unset 28 n
size_after CType.interval_day_to_hour n = when_unset 28 n
size_after CType.interval_day_to_minute n = when_unset 28 n
size_after CType.interval_day_to_second n = when_unset 28 n
size_after CType.interval_hour_to_minute n = when_unset 28 n
size_after CType.interval_hour_to_second n = when_unset 28 n
size_after CType.interval_minute_to_second n = when_unset 28 n
size_after CType.char n = n
size_after CType.wchar n = n
size_after CType.binary n = n
size_after CType.default n = n
size_after (CType.other k) n = n

-- m_paramType after the case.
unfoldable pub sql_type_after : CType → Option SqlType
sql_type_after CType.char = some SqlType.varchar
sql_type_after CType.wchar = some SqlType.varchar
sql_type_after CType.binary = some SqlType.varbinary
sql_type_after CType.sshort = some SqlType.smallint
sql_type_after CType.short = some SqlType.smallint
sql_type_after CType.ushort = some SqlType.smallint
sql_type_after CType.slong = some SqlType.integer
sql_type_after CType.ulong = some SqlType.integer
sql_type_after CType.long = some SqlType.integer
sql_type_after CType.float = some SqlType.float
sql_type_after CType.double = some SqlType.double
sql_type_after CType.bit = some SqlType.tinyint
sql_type_after CType.utinyint = some SqlType.tinyint
sql_type_after CType.tinyint = some SqlType.tinyint
sql_type_after CType.stinyint = some SqlType.tinyint
sql_type_after CType.sbigint = some SqlType.bigint
sql_type_after CType.ubigint = some SqlType.bigint
sql_type_after CType.date = some SqlType.date
sql_type_after CType.type_date = some SqlType.date
sql_type_after CType.time = some SqlType.time
sql_type_after CType.type_time = some SqlType.time
sql_type_after CType.timestamp = some SqlType.timestamp
sql_type_after CType.type_timestamp = some SqlType.timestamp
sql_type_after CType.numeric = some SqlType.decimal
sql_type_after CType.guid = some SqlType.varchar
sql_type_after CType.interval_year = some SqlType.integer
sql_type_after CType.interval_month = some SqlType.integer
sql_type_after CType.interval_day = some SqlType.integer
sql_type_after CType.interval_hour = some SqlType.integer
sql_type_after CType.interval_minute = some SqlType.integer
sql_type_after CType.interval_second = some SqlType.integer
sql_type_after CType.interval_year_to_month = some SqlType.integer
sql_type_after CType.interval_day_to_hour = some SqlType.bigint
sql_type_after CType.interval_day_to_minute = some SqlType.bigint
sql_type_after CType.interval_day_to_second = some SqlType.bigint
sql_type_after CType.interval_hour_to_minute = some SqlType.bigint
sql_type_after CType.interval_hour_to_second = some SqlType.bigint
sql_type_after CType.interval_minute_to_second = some SqlType.bigint
sql_type_after CType.default = none
sql_type_after (CType.other n) = none

-- A slot after the switch: a text and bytes are appended where the value is put.
unfoldable pub switch_slot : Memory → CType → Bool → Piece → List Content → Option (List Content)
switch_slot m c append piece old = elim (content_of m c piece.address (length_given piece.len)) [
  | none ↦ none
  | some x ↦ some (put_content (append && x.0) x.1 old)
]

-- The switch, for bindParameter.
abbrev pub switch_conversion : Memory → Conversion Content
switch_conversion m = record {
  convert = switch_slot m;
  null_value = null_content;
  noted_size = size_after;
}
