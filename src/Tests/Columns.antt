-- ===== src/Tests/Columns.antt =====
-- Concrete columns.
use snappy_odbc.Common.{◌≡◌, refl, true, false, none, some, [], ◌∷◌, pos, arith}
use snappy_odbc.Strings.{sql_null_data}
use snappy_odbc.Types.{CType, SqlType}
use snappy_odbc.Driver.{success}
use snappy_odbc.Intervals.{IntervalKind}
use snappy_odbc.Output.{Calendar, Column, Filled, Target}
use snappy_odbc.Output.Cases.{fill_case}
use snappy_odbc.Output.Nulls.{IsNull, fill_case-null}

abbrev epoch : Calendar
epoch = record {
  has_epoch = false;
  tm_year = pos 70;
  tm_mon = 0;
  tm_mday = 1;
  tm_hour = 0;
  tm_min = 0;
  tm_sec = 0;
  nanos = 0;
}

abbrev null_column : Column
null_column = record {
  sql_type = SqlType.varchar;
  string_of = none;
  sint_of = λ size. pos 0;
  uint_of = λ size. 0;
  real_of = λ size. record { bits = 0; is_zero = true };
  binary_of = none;
  date_of = epoch;
  time_of = epoch;
  timestamp_of = epoch;
  decimal_of = none;
  guid_of = none;
  is_null = true;
}

null_column-IsNull : IsNull null_column
null_column-IsNull = record {
  null = refl;
  no_string = refl;
  no_binary = refl;
  no_decimal = refl;
  no_guid = refl;
  zero_sint = λ size. refl;
  zero_uint = λ size. refl;
  zero_real = λ size. refl;
  no_date = refl;
  no_time = refl;
  no_timestamp = refl;
}

abbrev two_cells : Target
two_cells = record {
  value_size = pos 2;
  memory = 7 ∷ 7 ∷ [];
  wide_memory = 7 ∷ [];
  interval = record {
    kind = IntervalKind.year;
    negative = false;
    year_or_day = 0;
    month_or_hour = 0;
    minutes = 0;
    seconds = 0;
    fraction = 0;
  };
}

fill_case-null_example :
    (f : Filled) × (fill_case (λ s n. s) CType.char null_column two_cells ≡ some f)
    × (f.indicator ≡ sql_null_data)
    × (f.code ≡ success)
fill_case-null_example =
    fill_case-null null_column null_column-IsNull (λ s n. s) CType.char two_cells refl (omega arith)
      (omega arith)
