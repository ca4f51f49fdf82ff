-- ===== src/Output/Nulls.antt =====
-- fillOutput of src/driver/cpp/SnappyStatement.cpp marks null columns as SQL_NULL_DATA.
use snappy_odbc.Common.{
  ℕ, ◌<◌, [], ◌∷◌, not, ◌||◌, ◌>>=◌, ltb_ℤ, length, if◌then◌else◌, if_no, ◌≡◌, refl, Bool, true,
  false, Option, none, some, List, ◌==◌, ℤ, pos, ◌==ℤ◌, ap, arith,
}
use snappy_odbc.Strings.{sql_null_data, store}
use snappy_odbc.Types.{CType, is_known_ctype}
use snappy_odbc.Driver.{success}
use snappy_odbc.Intervals.{IntervalKind, is_wide}
use snappy_odbc.Output.{
  Column, Calendar, Filled, filled, untouched, buffer, wide_buffer, zeroed, Stored, Target, or_null,
  signed_number, unsigned_number, floating, narrow_string, wide_string, binary,
}
use snappy_odbc.Output.Cases.{
  calendar, interval_of, fill_case, date_of_tm, time_of_tm, timestamp_of_tm,
}

-- What the getters give for a null column.
pub record IsNull (c : Column) : Type 0 where
  pub null : c.is_null ≡ true
  pub no_string : c.string_of ≡ none
  pub no_binary : c.binary_of ≡ none
  pub no_decimal : c.decimal_of ≡ none
  pub no_guid : c.guid_of ≡ none
  pub zero_sint : (size : ℕ) → c.sint_of size ≡ pos 0
  pub zero_uint : (size : ℕ) → c.uint_of size ≡ 0
  pub zero_real : (size : ℕ) → (c.real_of size).is_zero ≡ true
  pub no_date : c.date_of.has_epoch ≡ false
  pub no_time : c.time_of.has_epoch ≡ false
  pub no_timestamp : c.timestamp_of.has_epoch ≡ false

-- SQL_SUCCESS with the indicator SQL_NULL_DATA.
abbrev pub IsMarkedNull : Option Filled → Type 0
IsMarkedNull o = (f : Filled) × (o ≡ some f) × (f.indicator ≡ sql_null_data) × (f.code ≡ success)

store_first :
    (v : ℕ) (out : List ℕ) → 0 < length out → (out' : List ℕ) × (store 0 v out ≡ some out')
unfolding store
store_first v [] h = absurd (omega arith)
store_first v (o ∷ out) h = (v ∷ out, refl)

module _ (c : Column) (h : IsNull c) where
  or_null-null : (zero : Bool) (size : ℕ) → zero ≡ true → or_null c zero size ≡ sql_null_data
  or_null-null zero size e = rw (e, h.null) refl

  signed_number-null : (size reported : ℕ) → IsMarkedNull (some (signed_number c size reported))
  unfolding signed_number
  signed_number-null size reported =
      (_, refl, or_null-null (c.sint_of size ==ℤ pos 0) reported (rw (h.zero_sint size) refl), refl)

  unsigned_number-null : (size : ℕ) → IsMarkedNull (some (unsigned_number c size))
  unfolding unsigned_number
  unsigned_number-null size =
      (_, refl, or_null-null (c.uint_of size == 0) size (rw (h.zero_uint size) refl), refl)

  floating-null : (size : ℕ) → IsMarkedNull (some (floating c size))
  unfolding floating
  floating-null size =
      (_, refl, or_null-null (c.real_of size).is_zero size (h.zero_real size), refl)

  calendar-null :
      (d : Calendar) (size : ℕ) (x : Stored)
      → d.has_epoch ≡ false
      → IsMarkedNull (some (calendar c d size x))
  unfolding calendar
  calendar-null d size x e = (
    filled (zeroed size) sql_null_data,
    ap some (if_no (d.has_epoch || not c.is_null) (filled x (pos size)) _ (rw (e, h.null) refl)),
    refl,
    refl,
  )

  interval_of-null : (k : IntervalKind) (t : Target) → IsMarkedNull (some (interval_of k c t))
  unfolding interval_of
  interval_of-null k t = (
    _,
    refl,
    or_null-null (c.sint_of (if is_wide k then 8 else 4) ==ℤ pos 0) 28
        (rw (h.zero_sint (if is_wide k then 8 else 4)) refl),
    refl,
  )

  terminated_null :
      (first : Bool) (out : List ℕ) (x : List ℕ → Stored)
      → 0 < length out
      → IsMarkedNull (
          if first
          then (store 0 0 out >>= (λ out'. some (filled (x out') sql_null_data)))
          else some (filled untouched sql_null_data))
  terminated_null true out x n =
      let (out', e) = store_first 0 out n in
      (_, ap (λ o. o >>= (λ r. some (filled (x r) sql_null_data))) e, refl, refl)
  terminated_null false out x n = (_, refl, refl, refl)

  narrow_string-null : (t : Target) → 0 < length t.memory → IsMarkedNull (narrow_string c t)
  unfolding narrow_string
  narrow_string-null t n =
      rw (narrow_string, h.no_string)
        (terminated_null (ltb_ℤ (pos 0) t.value_size) t.memory buffer n)

  wide_string-null :
      (convert : List ℕ → ℤ → List ℕ) (t : Target)
      → 0 < length t.wide_memory
      → IsMarkedNull (wide_string convert c t)
  unfolding wide_string
  wide_string-null convert t n =
      rw (wide_string, h.no_string)
        (terminated_null (ltb_ℤ (pos 0) t.value_size) t.wide_memory wide_buffer n)

  binary-null : (t : Target) → IsMarkedNull (binary c t)
  unfolding binary
  binary-null t = rw (binary, h.no_binary) (_, refl, refl, refl)

  -- A null column is answered with SQL_SUCCESS and the indicator SQL_NULL_DATA, for every C type
  -- that fillOutput knows, if the buffer has room for a terminator, narrow and wide, and the
  -- getters give nothing, 0 or no epoch time for the null.
  pub fill_case-null :
      (convert : List ℕ → ℤ → List ℕ) (k : CType) (t : Target)
      → is_known_ctype k ≡ true
      → 0 < length t.memory
      → 0 < length t.wide_memory
      → IsMarkedNull (fill_case convert k c t)
  unfolding fill_case
  fill_case-null convert CType.char t known n w = narrow_string-null t n
  fill_case-null convert CType.wchar t known n w = wide_string-null convert t w
  fill_case-null convert CType.binary t known n w = binary-null t
  fill_case-null convert CType.sshort t known n w = signed_number-null 2 2
  fill_case-null convert CType.short t known n w = signed_number-null 2 2
  fill_case-null convert CType.ushort t known n w = unsigned_number-null 2
  fill_case-null convert CType.slong t known n w = signed_number-null 4 4
  fill_case-null convert CType.ulong t known n w = unsigned_number-null 4
  fill_case-null convert CType.long t known n w = signed_number-null 4 8
  fill_case-null convert CType.float t known n w = floating-null 4
  fill_case-null convert CType.double t known n w = floating-null 8
  fill_case-null convert CType.bit t known n w = signed_number-null 1 1
  fill_case-null convert CType.utinyint t known n w = unsigned_number-null 1
  fill_case-null convert CType.tinyint t known n w = unsigned_number-null 1
  fill_case-null convert CType.stinyint t known n w = signed_number-null 1 1
  fill_case-null convert CType.sbigint t known n w = signed_number-null 8 8
  fill_case-null convert CType.ubigint t known n w = unsigned_number-null 8
  fill_case-null convert CType.date t known n w =
      calendar-null c.date_of 6 (date_of_tm c.date_of) h.no_date
  fill_case-null convert CType.type_date t known n w =
      calendar-null c.date_of 6 (date_of_tm c.date_of) h.no_date
  fill_case-null convert CType.time t known n w =
      calendar-null c.time_of 6 (time_of_tm c.time_of) h.no_time
  fill_case-null convert CType.type_time t known n w =
      calendar-null c.time_of 6 (time_of_tm c.time_of) h.no_time
  fill_case-null convert CType.timestamp t known n w =
      calendar-null c.timestamp_of 16 (timestamp_of_tm c.timestamp_of) h.no_timestamp
  fill_case-null convert CType.type_timestamp t known n w =
      calendar-null c.timestamp_of 16 (timestamp_of_tm c.timestamp_of) h.no_timestamp
  fill_case-null convert CType.numeric t known n w = rw h.no_decimal (_, refl, refl, refl)
  fill_case-null convert CType.interval_year t known n w = interval_of-null IntervalKind.year t
  fill_case-null convert CType.interval_month t known n w = interval_of-null IntervalKind.month t
  fill_case-null convert CType.interval_day t known n w = interval_of-null IntervalKind.day t
  fill_case-null convert CType.interval_hour t known n w = interval_of-null IntervalKind.hour t
  fill_case-null convert CType.interval_minute t known n w = interval_of-null IntervalKind.minute t
  fill_case-null convert CType.interval_second t known n w = interval_of-null IntervalKind.second t
  fill_case-null convert CType.interval_year_to_month t known n w =
      interval_of-null IntervalKind.year_to_month t
  fill_case-null convert CType.interval_day_to_hour t known n w =
      interval_of-null IntervalKind.day_to_hour t
  fill_case-null convert CType.interval_day_to_minute t known n w =
      interval_of-null IntervalKind.day_to_minute t
  fill_case-null convert CType.interval_day_to_second t known n w =
      interval_of-null IntervalKind.day_to_second t
  fill_case-null convert CType.interval_hour_to_minute t known n w =
      interval_of-null IntervalKind.hour_to_minute t
  fill_case-null convert CType.interval_hour_to_second t known n w =
      interval_of-null IntervalKind.hour_to_second t
  fill_case-null convert CType.interval_minute_to_second t known n w =
      interval_of-null IntervalKind.minute_to_second t
  fill_case-null convert CType.guid t known n w = rw h.no_guid (_, refl, refl, refl)
  fill_case-null convert CType.default t known n w = absurd (cc)
  fill_case-null convert (CType.other m) t known n w = absurd (cc)
