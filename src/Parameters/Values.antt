-- ===== src/Parameters/Values.antt =====
-- The values that bindParameter of src/driver/cpp/SnappyStatement.cpp reads in the memory of the
-- application, and what it sets in the client library's parameters; SQL_C_NUMERIC and SQL_C_GUID.
pub mod Trim
use snappy_odbc.Common.{
  ℕ, zero, suc, ◌/◌, ◌%◌, ◌+◌, ◌-◌, Bool, true, false, Option, none, some, List, [], ◌∷◌, ◌++◌, ltb,
  ◌==◌, if◌then◌else◌, ℤ, pos, negsuc, ltb_ℤ, leb_ℤ, ◌==ℤ◌, pos_part, ◌+ℤ◌, take, drop, ◌&&◌,
}
use snappy_odbc.Intervals.{Interval}

-- SQL_NUMERIC_STRUCT: precision, scale and sign come before the sixteen bytes of the value.
pub record Numeric : Type 0 where
  pub precision : ℕ
  pub scale : ℕ
  pub sign : ℕ
  pub val : List ℕ

pub record Guid : Type 0 where
  pub data1 : ℕ
  pub data2 : ℕ
  pub data3 : ℕ
  pub data4 : List ℕ

-- Reads at an address: a terminated and a counted text of bytes, a text of SQLWCHAR as
-- StringFunctions::toString gives it for a length, integers of a size in bytes, reals by their
-- bits, and the structures.
pub record Memory : Type 0 where
  pub c_text : ℤ → List ℕ
  pub counted : ℤ → ℕ → List ℕ
  pub wide_text : ℤ → ℤ → List ℕ
  pub sint_at : ℕ → ℤ → ℤ
  pub uint_at : ℕ → ℤ → ℕ
  pub interval_at : ℤ → Interval
  pub numeric_at : ℤ → Numeric
  pub guid_at : ℤ → Guid

-- What is set in client::Parameters. A date, time or timestamp has the fields that are handed to
-- DateTime and Timestamp; a decimal its sign, its scale, the sixteen bytes and how many of them.
pub data Content : Type 0 where
  null_content : Content
  text : List ℕ → Content
  bytes : List ℕ → Content
  byte short int int64 : ℤ → Content
  unsigned_byte unsigned_short unsigned_int unsigned_int64 : ℕ → Content
  float_bits double_bits : ℕ → Content
  time_of : ℤ → ℕ → ℕ → ℕ → ℕ → ℕ → Content
  date_only : ℤ → ℕ → ℕ → Content
  timestamp : ℤ → ℕ → ℕ → ℕ → ℕ → ℕ → ℕ → Content
  zero_decimal : Content
  decimal : Bool → ℕ → List ℕ → ℤ → Content

-- `while (*magp == 0)`, over the bytes from the last to the first; maglen is kept as an integer,
-- for a size_t that wraps below 0. The first byte of all is the precision, which is not 0.
unfoldable pub trim : List ℕ → ℤ → ℤ
trim [] maglen = maglen
trim (b ∷ bs) maglen = let rest = trim bs (pred maglen) in if b == 0 then rest else maglen
  where
    pred : ℤ → ℤ
    pred (pos zero) = negsuc 0
    pred (pos (suc n)) = pos n
    pred (negsuc n) = negsuc (suc n)

abbrev pub reverse_onto : List ℕ → List ℕ → List ℕ
reverse_onto [] ys = ys
reverse_onto (x ∷ xs) ys = reverse_onto xs (x ∷ ys)

-- The bytes of the structure, from the last of the value back to the precision.
abbrev pub bytes_backwards : Numeric → List ℕ
bytes_backwards n = reverse_onto n.val (n.sign ∷ n.scale ∷ n.precision ∷ [])

-- SQL_MAX_NUMERIC_LEN is 16.
unfoldable pub numeric_content : Numeric → Content
numeric_content n =
    if n.precision == 0
    then zero_decimal
    else decimal (n.sign == 1) n.scale n.val (trim (bytes_backwards n) (pos 16))

abbrev pub hex_digit : ℕ → ℕ
hex_digit n = if ltb n 10 then b'0' + n else b'a' + (n - 10)

-- %0wx, for a number that has at most w digits.
unfoldable pub hex : ℕ → ℕ → List ℕ
hex zero n = []
hex (suc w) n = hex w (n / 16) ++ hex_digit (n % 16) ∷ []

abbrev pub hex_bytes : List ℕ → List ℕ
hex_bytes [] = []
hex_bytes (b ∷ bs) = hex 2 b ++ hex_bytes bs

-- s_GUID_FORMAT: the first two bytes of Data4 stand before the last hyphen.
unfoldable pub guid_text : Guid → List ℕ
guid_text g =
    hex 8 g.data1
    ++ b'-' ∷ hex 4 g.data2
    ++ b'-' ∷ hex 4 g.data3
    ++ b'-' ∷ hex_bytes (take 2 g.data4)
    ++ b'-' ∷ hex_bytes (drop 2 g.data4)
