-- ===== src/Types/Agree.antt =====
-- The type tables of src/driver/cpp/SnappyStatement.cpp agree with one another.

use snappy_odbc.Common.{
  ℕ, ◌≡◌, refl, ◌≢◌, Bool, true, false, not, Option, none, some, arith, is_some,
}
use snappy_odbc.Types.{
  OdbcType, CType, SqlType, convert_type_to_sql_type, convert_type_to_c_type,
  convert_sql_type_to_c_type, convert_sql_type_to_type, check_supported_conversion,
}

-- The SQLType that stands for another one without a code of its own.
abbrev pub stored_as : SqlType → Option SqlType
stored_as SqlType.blob = some SqlType.longvarbinary
stored_as SqlType.clob = some SqlType.longvarchar
stored_as (SqlType.other n) = none
stored_as t = some t

-- The code that the driver reports for a column type, for an ANSI or a Unicode caller, converts
-- back to that type when the application binds a parameter with it, but for BLOB and CLOB, which
-- come back as LONGVARBINARY and LONGVARCHAR; the code of a type that the driver does not name is
-- refused.
pub sql_type_round_trip :
    (t : SqlType) (is_ascii : Bool)
    → convert_type_to_sql_type (convert_sql_type_to_type t is_ascii) ≡ stored_as t
unfolding convert_type_to_sql_type convert_sql_type_to_type
sql_type_round_trip t is_ascii = ground arith

-- One name for each pair of C types that ODBC makes synonyms.
abbrev pub signed_name : CType → CType
signed_name CType.short = CType.sshort
signed_name CType.long = CType.slong
signed_name t = t

-- The C type that SQL_C_DEFAULT means for a column that is read, and the one that it means for a
-- parameter bound with the code that the driver reports for that column to an ANSI caller, are the
-- same up to ODBC's synonyms, for every type that the driver names.
pub default_c_types_agree :
    (t : SqlType)
    → ((n : ℕ) → t ≢ SqlType.other n)
    → convert_type_to_c_type (convert_sql_type_to_type t true)
      ≡ some (signed_name (convert_sql_type_to_c_type t))
unfolding convert_type_to_c_type convert_sql_type_to_type convert_sql_type_to_c_type
default_c_types_agree (SqlType.other n) h = absurd (h n refl)
default_c_types_agree SqlType.bigint h = refl
default_c_types_agree _ h = refl

abbrev pub is_odbc2_date : OdbcType → Bool
is_odbc2_date OdbcType.date = true
is_odbc2_date OdbcType.time = true
is_odbc2_date OdbcType.timestamp = true
is_odbc2_date _ = false

-- The conversion check accepts each SQL type with the C type that SQL_C_DEFAULT means for it, but
-- for the ODBC 2 codes SQL_DATE, SQL_TIME and SQL_TIMESTAMP, which it refuses; and each SQL type
-- with such a C type has a native type.
pub default_c_type_supported :
    (t : OdbcType) (c : CType)
    → convert_type_to_c_type t ≡ some c
    → (check_supported_conversion c t ≡ not (is_odbc2_date t))
      × (is_some (convert_type_to_sql_type t) ≡ true)
unfolding convert_type_to_c_type convert_type_to_sql_type check_supported_conversion
default_c_type_supported t c h = (ground (arith, h), ground (arith, h))
