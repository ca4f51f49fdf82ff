-- ===== src/Types.antt =====
-- Conversions between the type codes of the ODBC API (SQL types and C types) and the SQLType of the
-- client library: src/driver/cpp/SnappyStatement.cpp. Codes are constructors, named as in the ODBC
-- headers and in thrift; `other` is any code that the driver does not name. A conversion that throws
-- INVALID_PARAMETER_TYPE is `none`.
pub mod Agree
use snappy_odbc.Common.{ℕ, Bool, true, false, not, Option, none, some}

pub data OdbcType : Type 0 where
  char varchar longvarchar wchar wvarchar wlongvarchar : OdbcType
  decimal numeric smallint integer real float double bit tinyint bigint : OdbcType
  binary varbinary longvarbinary : OdbcType
  date time timestamp type_date type_time type_timestamp : OdbcType
  interval_month interval_year interval_year_to_month interval_day interval_hour : OdbcType
  interval_minute interval_second interval_day_to_hour interval_day_to_minute : OdbcType
  interval_day_to_second interval_hour_to_minute interval_hour_to_second : OdbcType
  interval_minute_to_second guid unknown_type : OdbcType
  other : ℕ → OdbcType

pub data CType : Type 0 where
  char wchar sshort short ushort slong ulong long float double : CType
  bit utinyint tinyint stinyint sbigint ubigint binary numeric : CType
  date time timestamp type_date type_time type_timestamp : CType
  interval_month interval_year interval_year_to_month interval_day interval_hour : CType
  interval_minute interval_second interval_day_to_hour interval_day_to_minute : CType
  interval_day_to_second interval_hour_to_minute interval_hour_to_second : CType
  interval_minute_to_second guid default : CType
  other : ℕ → CType

-- The C types that the switches of bindParameter and fillOutput know.
abbrev pub is_known_ctype : CType → Bool
is_known_ctype CType.default = false
is_known_ctype (CType.other n) = false
is_known_ctype _ = true

pub data SqlType : Type 0 where
  bigint binary blob longvarbinary varbinary boolean char clob longvarchar varchar : SqlType
  date decimal double float integer smallint time timestamp tinyint : SqlType
  other : ℕ → SqlType

unfoldable pub convert_type_to_sql_type : OdbcType → Option SqlType
convert_type_to_sql_type OdbcType.char = some SqlType.char
convert_type_to_sql_type OdbcType.varchar = some SqlType.varchar
convert_type_to_sql_type OdbcType.longvarchar = some SqlType.longvarchar
convert_type_to_sql_type OdbcType.wchar = some SqlType.char
convert_type_to_sql_type OdbcType.wvarchar = some SqlType.varchar
convert_type_to_sql_type OdbcType.wlongvarchar = some SqlType.longvarchar
convert_type_to_sql_type OdbcType.decimal = some SqlType.decimal
convert_type_to_sql_type OdbcType.numeric = some SqlType.decimal
convert_type_to_sql_type OdbcType.smallint = some SqlType.smallint
convert_type_to_sql_type OdbcType.integer = some SqlType.integer
convert_type_to_sql_type OdbcType.real = some SqlType.float
convert_type_to_sql_type OdbcType.double = some SqlType.double
convert_type_to_sql_type OdbcType.float = some SqlType.double
convert_type_to_sql_type OdbcType.bit = some SqlType.boolean
convert_type_to_sql_type OdbcType.tinyint = some SqlType.tinyint
convert_type_to_sql_type OdbcType.bigint = some SqlType.bigint
convert_type_to_sql_type OdbcType.binary = some SqlType.binary
convert_type_to_sql_type OdbcType.varbinary = some SqlType.varbinary
convert_type_to_sql_type OdbcType.longvarbinary = some SqlType.longvarbinary
convert_type_to_sql_type OdbcType.type_date = some SqlType.date
convert_type_to_sql_type OdbcType.date = some SqlType.date
convert_type_to_sql_type OdbcType.type_time = some SqlType.time
convert_type_to_sql_type OdbcType.time = some SqlType.time
convert_type_to_sql_type OdbcType.type_timestamp = some SqlType.timestamp
convert_type_to_sql_type OdbcType.timestamp = some SqlType.timestamp
convert_type_to_sql_type OdbcType.interval_month = some SqlType.integer
convert_type_to_sql_type OdbcType.interval_year = some SqlType.integer
convert_type_to_sql_type OdbcType.interval_year_to_month = some SqlType.date
convert_type_to_sql_type OdbcType.interval_day = some SqlType.integer
convert_type_to_sql_type OdbcType.interval_hour = some SqlType.integer
convert_type_to_sql_type OdbcType.interval_minute = some SqlType.integer
convert_type_to_sql_type OdbcType.interval_second = some SqlType.integer
convert_type_to_sql_type OdbcType.interval_day_to_hour = some SqlType.timestamp
convert_type_to_sql_type OdbcType.interval_day_to_minute = some SqlType.timestamp
convert_type_to_sql_type OdbcType.interval_day_to_second = some SqlType.timestamp
convert_type_to_sql_type OdbcType.interval_hour_to_minute = some SqlType.time
convert_type_to_sql_type OdbcType.interval_hour_to_second = some SqlType.time
convert_type_to_sql_type OdbcType.interval_minute_to_second = some SqlType.time
convert_type_to_sql_type OdbcType.guid = some SqlType.varchar
convert_type_to_sql_type OdbcType.unknown_type = none
convert_type_to_sql_type (OdbcType.other n) = none

unfoldable pub convert_type_to_c_type : OdbcType → Option CType
convert_type_to_c_type OdbcType.char = some CType.char
convert_type_to_c_type OdbcType.varchar = some CType.char
convert_type_to_c_type OdbcType.longvarchar = some CType.char
convert_type_to_c_type OdbcType.wchar = some CType.wchar
convert_type_to_c_type OdbcType.wvarchar = some CType.wchar
convert_type_to_c_type OdbcType.wlongvarchar = some CType.wchar
convert_type_to_c_type OdbcType.decimal = some CType.numeric
convert_type_to_c_type OdbcType.numeric = some CType.numeric
convert_type_to_c_type OdbcType.smallint = some CType.sshort
convert_type_to_c_type OdbcType.integer = some CType.slong
convert_type_to_c_type OdbcType.real = some CType.float
convert_type_to_c_type OdbcType.float = some CType.double
convert_type_to_c_type OdbcType.double = some CType.double
convert_type_to_c_type OdbcType.bit = some CType.bit
convert_type_to_c_type OdbcType.tinyint = some CType.tinyint
convert_type_to_c_type OdbcType.bigint = some CType.sbigint
convert_type_to_c_type OdbcType.binary = some CType.binary
convert_type_to_c_type OdbcType.varbinary = some CType.binary
convert_type_to_c_type OdbcType.longvarbinary = some CType.binary
convert_type_to_c_type OdbcType.date = some CType.type_date
convert_type_to_c_type OdbcType.type_date = some CType.type_date
convert_type_to_c_type OdbcType.time = some CType.type_time
convert_type_to_c_type OdbcType.type_time = some CType.type_time
convert_type_to_c_type OdbcType.timestamp = some CType.type_timestamp
convert_type_to_c_type OdbcType.type_timestamp = some CType.type_timestamp
convert_type_to_c_type OdbcType.interval_month = some CType.interval_month
convert_type_to_c_type OdbcType.interval_year = some CType.interval_year
convert_type_to_c_type OdbcType.interval_year_to_month = some CType.interval_year_to_month
convert_type_to_c_type OdbcType.interval_day = some CType.interval_day
convert_type_to_c_type OdbcType.interval_hour = some CType.interval_hour
convert_type_to_c_type OdbcType.interval_minute = some CType.interval_minute
convert_type_to_c_type OdbcType.interval_second = some CType.interval_second
convert_type_to_c_type OdbcType.interval_day_to_hour = some CType.interval_day_to_hour
convert_type_to_c_type OdbcType.interval_day_to_minute = some CType.interval_day_to_minute
convert_type_to_c_type OdbcType.interval_day_to_second = some CType.interval_day_to_second
convert_type_to_c_type OdbcType.interval_hour_to_minute = some CType.interval_hour_to_minute
convert_type_to_c_type OdbcType.interval_hour_to_second = some CType.interval_hour_to_second
convert_type_to_c_type OdbcType.interval_minute_to_second = some CType.interval_minute_to_second
convert_type_to_c_type OdbcType.guid = some CType.guid
convert_type_to_c_type OdbcType.unknown_type = none
convert_type_to_c_type (OdbcType.other n) = none

unfoldable pub convert_sql_type_to_c_type : SqlType → CType
convert_sql_type_to_c_type SqlType.bigint = CType.sbigint
convert_sql_type_to_c_type SqlType.binary = CType.binary
convert_sql_type_to_c_type SqlType.blob = CType.binary
convert_sql_type_to_c_type SqlType.longvarbinary = CType.binary
convert_sql_type_to_c_type SqlType.varbinary = CType.binary
convert_sql_type_to_c_type SqlType.boolean = CType.bit
convert_sql_type_to_c_type SqlType.char = CType.char
convert_sql_type_to_c_type SqlType.clob = CType.char
convert_sql_type_to_c_type SqlType.longvarchar = CType.char
convert_sql_type_to_c_type SqlType.varchar = CType.char
convert_sql_type_to_c_type SqlType.date = CType.type_date
convert_sql_type_to_c_type SqlType.decimal = CType.numeric
convert_sql_type_to_c_type SqlType.double = CType.double
convert_sql_type_to_c_type SqlType.float = CType.float
convert_sql_type_to_c_type SqlType.integer = CType.long
convert_sql_type_to_c_type SqlType.smallint = CType.short
convert_sql_type_to_c_type SqlType.time = CType.type_time
convert_sql_type_to_c_type SqlType.timestamp = CType.type_timestamp
convert_sql_type_to_c_type SqlType.tinyint = CType.tinyint
convert_sql_type_to_c_type (SqlType.other n) = CType.char

-- `isASCII ? a : b` over two codes.
choose : Bool → OdbcType → OdbcType → OdbcType
choose true a b = a
choose false a b = b

unfoldable pub convert_sql_type_to_type : SqlType → Bool → OdbcType
unfolding choose
convert_sql_type_to_type SqlType.bigint is_ascii = OdbcType.bigint
convert_sql_type_to_type SqlType.binary is_ascii = OdbcType.binary
convert_sql_type_to_type SqlType.blob is_ascii = OdbcType.longvarbinary
convert_sql_type_to_type SqlType.longvarbinary is_ascii = OdbcType.longvarbinary
convert_sql_type_to_type SqlType.varbinary is_ascii = OdbcType.varbinary
convert_sql_type_to_type SqlType.boolean is_ascii = OdbcType.bit
convert_sql_type_to_type SqlType.char is_ascii = choose is_ascii OdbcType.char OdbcType.wchar
convert_sql_type_to_type SqlType.clob is_ascii =
    choose is_ascii OdbcType.longvarchar OdbcType.wlongvarchar
convert_sql_type_to_type SqlType.longvarchar is_ascii =
    choose is_ascii OdbcType.longvarchar OdbcType.wlongvarchar
convert_sql_type_to_type SqlType.varchar is_ascii =
    choose is_ascii OdbcType.varchar OdbcType.wvarchar
convert_sql_type_to_type SqlType.date is_ascii = OdbcType.type_date
convert_sql_type_to_type SqlType.decimal is_ascii = OdbcType.decimal
convert_sql_type_to_type SqlType.double is_ascii = OdbcType.double
convert_sql_type_to_type SqlType.float is_ascii = OdbcType.real
convert_sql_type_to_type SqlType.integer is_ascii = OdbcType.integer
convert_sql_type_to_type SqlType.smallint is_ascii = OdbcType.smallint
convert_sql_type_to_type SqlType.time is_ascii = OdbcType.type_time
convert_sql_type_to_type SqlType.timestamp is_ascii = OdbcType.type_timestamp
convert_sql_type_to_type SqlType.tinyint is_ascii = OdbcType.tinyint
convert_sql_type_to_type (SqlType.other n) is_ascii = OdbcType.unknown_type

is_number_mismatch : OdbcType → Bool
is_number_mismatch OdbcType.binary = true
is_number_mismatch OdbcType.varbinary = true
is_number_mismatch OdbcType.longvarbinary = true
is_number_mismatch OdbcType.date = true
is_number_mismatch OdbcType.time = true
is_number_mismatch OdbcType.timestamp = true
is_number_mismatch OdbcType.type_date = true
is_number_mismatch OdbcType.type_time = true
is_number_mismatch OdbcType.type_timestamp = true
is_number_mismatch OdbcType.guid = true
is_number_mismatch _ = false

is_float_mismatch : OdbcType → Bool
is_float_mismatch OdbcType.binary = true
is_float_mismatch OdbcType.varbinary = true
is_float_mismatch OdbcType.longvarbinary = true
is_float_mismatch OdbcType.type_date = true
is_float_mismatch OdbcType.type_time = true
is_float_mismatch OdbcType.type_timestamp = true
is_float_mismatch OdbcType.guid = true
is_float_mismatch _ = false

is_text : OdbcType → Bool
is_text OdbcType.char = true
is_text OdbcType.varchar = true
is_text OdbcType.longvarchar = true
is_text OdbcType.wchar = true
is_text OdbcType.wvarchar = true
is_text OdbcType.wlongvarchar = true
is_text _ = false

is_date_match : OdbcType → Bool
unfolding is_text
is_date_match OdbcType.type_date = true
is_date_match OdbcType.type_timestamp = true
is_date_match t = is_text t

is_time_match : OdbcType → Bool
unfolding is_text
is_time_match OdbcType.type_time = true
is_time_match t = is_text t

is_timestamp_match : OdbcType → Bool
unfolding is_text
is_timestamp_match OdbcType.type_date = true
is_timestamp_match OdbcType.type_time = true
is_timestamp_match OdbcType.type_timestamp = true
is_timestamp_match t = is_text t

is_guid : OdbcType → Bool
is_guid OdbcType.guid = true
is_guid _ = false

-- checkSupportedCtypeToSQLTypeConversion
unfoldable pub check_supported_conversion : CType → OdbcType → Bool
unfolding is_number_mismatch is_float_mismatch is_date_match is_time_match is_timestamp_match
    is_guid
check_supported_conversion CType.sshort t = not (is_number_mismatch t)
check_supported_conversion CType.short t = not (is_number_mismatch t)
check_supported_conversion CType.ushort t = not (is_number_mismatch t)
check_supported_conversion CType.slong t = not (is_number_mismatch t)
check_supported_conversion CType.ulong t = not (is_number_mismatch t)
check_supported_conversion CType.long t = not (is_number_mismatch t)
check_supported_conversion CType.bit t = not (is_number_mismatch t)
check_supported_conversion CType.utinyint t = not (is_number_mismatch t)
check_supported_conversion CType.tinyint t = not (is_number_mismatch t)
check_supported_conversion CType.stinyint t = not (is_number_mismatch t)
check_supported_conversion CType.sbigint t = not (is_number_mismatch t)
check_supported_conversion CType.ubigint t = not (is_number_mismatch t)
check_supported_conversion CType.numeric t = not (is_number_mismatch t)
check_supported_conversion CType.float t = not (is_float_mismatch t)
check_supported_conversion CType.double t = not (is_float_mismatch t)
check_supported_conversion CType.date t = is_date_match t
check_supported_conversion CType.type_date t = is_date_match t
check_supported_conversion CType.time t = is_time_match t
check_supported_conversion CType.type_time t = is_time_match t
check_supported_conversion CType.timestamp t = is_timestamp_match t
check_supported_conversion CType.type_timestamp t = is_timestamp_match t
check_supported_conversion CType.guid t = is_guid t
check_supported_conversion _ t = true
