-- ===== src/Intervals/RoundTrip.antt =====
-- Intervals come back from the number that stands for them (src/driver/cpp/SnappyStatement.cpp).
use snappy_odbc.Common.{
  ℕ, zero, suc, ◌+◌, ◌*◌, ◌/◌, ◌%◌, ◌<◌, ◌≡◌, refl, sym, ap, Bool, true, false, ◌&&◌, Bool-cases,
  inl, inr, ◌==ℤ◌, if◌then◌else◌, ℤ, pos, ltb_ℤ, arith,
}
use snappy_odbc.Fetch.{to_int32}
use snappy_odbc.Intervals.{
  IntervalKind, year, month, day, hour, minute, second, year_to_month, day_to_hour, day_to_minute,
  day_to_second, hour_to_minute, hour_to_second, minute_to_second, Interval, encode, with_sign,
  as_int, magnitude, is_wide, decode, fill_interval, cleared,
}

-- The number of the smallest unit.
unfoldable pub units : IntervalKind → Interval → ℕ
units year i = i.year_or_day
units month i = i.month_or_hour
units day i = i.year_or_day
units hour i = i.month_or_hour
units minute i = i.minutes
units second i = i.seconds
units year_to_month i = i.year_or_day * 12 + i.month_or_hour
units day_to_hour i = i.year_or_day * 24 + i.month_or_hour
units day_to_minute i = (i.year_or_day * 24 + i.month_or_hour) * 60 + i.minutes
units day_to_second i = ((i.year_or_day * 24 + i.month_or_hour) * 60 + i.minutes) * 60 + i.seconds
units hour_to_minute i = i.month_or_hour * 60 + i.minutes
units hour_to_second i = (i.month_or_hour * 60 + i.minutes) * 60 + i.seconds
units minute_to_second i = i.minutes * 60 + i.seconds

as_int-small : (n : ℕ) → n < 2147483648 → as_int n ≡ pos n
unfolding to_int32
as_int-small n h = ground arith

-- The stored number is the number of units with the sign.
encode-units :
    (k : IntervalKind) (i : Interval)
    → (is_wide k ≡ false → units k i < 2147483648)
    → encode k i ≡ with_sign i.negative (pos (units k i))
unfolding encode units
encode-units year i h = ap (with_sign i.negative) (as_int-small _ (h refl))
encode-units month i h = ap (with_sign i.negative) (as_int-small _ (h refl))
encode-units day i h = ap (with_sign i.negative) (as_int-small _ (h refl))
encode-units hour i h = ap (with_sign i.negative) (as_int-small _ (h refl))
encode-units minute i h = ap (with_sign i.negative) (as_int-small _ (h refl))
encode-units second i h = ap (with_sign i.negative) (as_int-small _ (h refl))
encode-units year_to_month i h = ap (with_sign i.negative) (as_int-small _ (h refl))
encode-units day_to_hour i h = refl
encode-units day_to_minute i h = refl
encode-units day_to_second i h = refl
encode-units hour_to_minute i h = refl
encode-units hour_to_second i h = refl
encode-units minute_to_second i h = refl

-- The fields of a number of units.
year_month_parts : (y m : ℕ) → m < 12 → ((y * 12 + m) / 12 ≡ y) × ((y * 12 + m) % 12 ≡ m)
year_month_parts y m h0 = (omega arith, omega arith)

day_hour_parts : (d h : ℕ) → h < 24 → ((d * 24 + h) / 24 ≡ d) × ((d * 24 + h) % 24 ≡ h)
day_hour_parts d h h0 = (omega arith, omega arith)

day_minute_parts :
    (d h m : ℕ)
    → d < 4294967296
    → h < 24
    → m < 60
    → (((d * 24 + h) * 60 + m) / 60 / 24 % 4294967296 ≡ d)
      × (((d * 24 + h) * 60 + m) / 60 % 24 % 4294967296 ≡ h)
      × (((d * 24 + h) * 60 + m) % 60 % 4294967296 ≡ m)
day_minute_parts d h m h0 h1 h2 = (omega arith, omega arith, omega arith)

day_second_parts :
    (d h m s : ℕ)
    → d < 4294967296
    → h < 24
    → m < 60
    → s < 60
    → ((((d * 24 + h) * 60 + m) * 60 + s) / 60 / 60 / 24 % 4294967296 ≡ d)
      × ((((d * 24 + h) * 60 + m) * 60 + s) / 60 / 60 % 24 % 4294967296 ≡ h)
      × ((((d * 24 + h) * 60 + m) * 60 + s) / 60 % 60 % 4294967296 ≡ m)
      × ((((d * 24 + h) * 60 + m) * 60 + s) % 60 % 4294967296 ≡ s)
day_second_parts d h m s h0 h1 h2 h3 = (omega arith, omega arith, omega arith, omega arith)

hour_minute_parts :
    (h m : ℕ)
    → h < 4294967296
    → m < 60
    → ((h * 60 + m) / 60 % 4294967296 ≡ h) × ((h * 60 + m) % 60 % 4294967296 ≡ m)
hour_minute_parts h m h0 h1 = (omega arith, omega arith)

hour_second_parts :
    (h m s : ℕ)
    → h < 4294967296
    → m < 60
    → s < 60
    → (((h * 60 + m) * 60 + s) / 60 / 60 % 4294967296 ≡ h)
      × (((h * 60 + m) * 60 + s) / 60 % 60 % 4294967296 ≡ m)
      × (((h * 60 + m) * 60 + s) % 60 % 4294967296 ≡ s)
hour_second_parts h m s h0 h1 h2 = (omega arith, omega arith, omega arith)

-- No minutes, seconds or fraction.
abbrev NoTime : Interval → Type 0
NoTime i = (i.minutes ≡ 0) × (i.seconds ≡ 0) × (i.fraction ≡ 0)

-- The fields of a kind are in their ranges, the leading one excepted, and the others are 0.
abbrev pub FieldsFit : IntervalKind → Interval → Type 0
FieldsFit year i = (i.month_or_hour ≡ 0) × NoTime i
FieldsFit month i = (i.year_or_day ≡ 0) × NoTime i
FieldsFit day i = (i.month_or_hour ≡ 0) × NoTime i
FieldsFit hour i = (i.year_or_day ≡ 0) × NoTime i
FieldsFit minute i =
    (i.year_or_day ≡ 0) × (i.month_or_hour ≡ 0) × (i.seconds ≡ 0) × (i.fraction ≡ 0)
FieldsFit second i =
    (i.year_or_day ≡ 0) × (i.month_or_hour ≡ 0) × (i.minutes ≡ 0) × (i.fraction ≡ 0)
FieldsFit year_to_month i = (i.month_or_hour < 12) × NoTime i
FieldsFit day_to_hour i = (i.month_or_hour < 24) × NoTime i
FieldsFit day_to_minute i =
    (i.year_or_day < 4294967296)
    × (i.month_or_hour < 24)
    × (i.minutes < 60)
    × (i.seconds ≡ 0)
    × (i.fraction ≡ 0)
FieldsFit day_to_second i =
    (i.year_or_day < 4294967296)
    × (i.month_or_hour < 24)
    × (i.minutes < 60)
    × (i.seconds < 60)
    × (i.fraction ≡ 0)
FieldsFit hour_to_minute i =
    (i.year_or_day ≡ 0)
    × (i.month_or_hour < 4294967296)
    × (i.minutes < 60)
    × (i.seconds ≡ 0)
    × (i.fraction ≡ 0)
FieldsFit hour_to_second i =
    (i.year_or_day ≡ 0)
    × (i.month_or_hour < 4294967296)
    × (i.minutes < 60)
    × (i.seconds < 60)
    × (i.fraction ≡ 0)
FieldsFit minute_to_second i =
    (i.year_or_day ≡ 0)
    × (i.month_or_hour ≡ 0)
    × (i.minutes < 4294967296)
    × (i.seconds < 60)
    × (i.fraction ≡ 0)

-- An interval of the kind in its normal form; what is read as an int is below 2^31.
pub record IsCanonical (k : IntervalKind) (i : Interval) : Type 0 where
  pub kind_is : i.kind ≡ k
  pub signed : units k i ≡ 0 → i.negative ≡ false
  pub narrow : is_wide k ≡ false → units k i < 2147483648
  pub fields : FieldsFit k i

-- A structure of zeros.
abbrev pub blank : Interval
blank = cleared year (pos 0)

fill_interval-units :
    (k : IntervalKind) (i : Interval) (z : ℤ)
    → IsCanonical k i
    → ltb_ℤ z (pos 0) ≡ i.negative
    → fill_interval k z (units k i) blank ≡ i
unfolding fill_interval units
fill_interval-units year i z c h = let (a, (b, d, e)) = c.fields in rw (h, c.kind_is, a, b, d, e)
fill_interval-units month i z c h = let (a, (b, d, e)) = c.fields in rw (h, c.kind_is, a, b, d, e)
fill_interval-units day i z c h = let (a, (b, d, e)) = c.fields in rw (h, c.kind_is, a, b, d, e)
fill_interval-units hour i z c h = let (a, (b, d, e)) = c.fields in rw (h, c.kind_is, a, b, d, e)
fill_interval-units minute i z c h = let (a, b, d, e) = c.fields in rw (h, c.kind_is, a, b, d, e)
fill_interval-units second i z c h = let (a, b, d, e) = c.fields in rw (h, c.kind_is, a, b, d, e)
fill_interval-units year_to_month i z c h =
    let (a, (b, d, e)) = c.fields in
    let (p, q) = year_month_parts i.year_or_day i.month_or_hour a in
    rw (h, c.kind_is, p, q, b, d, e)
fill_interval-units day_to_hour i z c h =
    let (a, (b, d, e)) = c.fields in
    let (p, q) = day_hour_parts i.year_or_day i.month_or_hour a in rw (h, c.kind_is, p, q, b, d, e)
fill_interval-units day_to_minute i z c h =
    let (a, b, d, e, f) = c.fields in
    let (p, q, r) = day_minute_parts i.year_or_day i.month_or_hour i.minutes a b d in
    rw (h, c.kind_is, p, q, r, e, f)
fill_interval-units day_to_second i z c h =
    let (a, b, d, e, f) = c.fields in
    let (p, q, r, t) = day_second_parts i.year_or_day i.month_or_hour i.minutes i.seconds a b d e in
    rw (h, c.kind_is, p, q, r, t, f)
fill_interval-units hour_to_minute i z c h =
    let (a, b, d, e, f) = c.fields in
    let (p, q) = hour_minute_parts i.month_or_hour i.minutes b d in rw (h, c.kind_is, p, q, a, e, f)
fill_interval-units hour_to_second i z c h =
    let (a, b, d, e, f) = c.fields in
    let (p, q, r) = hour_second_parts i.month_or_hour i.minutes i.seconds b d e in
    rw (h, c.kind_is, p, q, r, a, f)
fill_interval-units minute_to_second i z c h =
    let (a, b, d, e, f) = c.fields in
    let (p, q) = hour_minute_parts i.minutes i.seconds d e in rw (h, c.kind_is, p, q, a, b, f)

-- The number that is stored fits the native type, has the units for its magnitude, and the sign.
with_sign-magnitude : (b : Bool) (n : ℕ) → magnitude (with_sign b (pos n)) ≡ n
with_sign-magnitude b n = ground arith

with_sign-sign : (b : Bool) (n : ℕ) → (n ≡ 0 → b ≡ false) → ltb_ℤ (with_sign b (pos n)) (pos 0) ≡ b
with_sign-sign true zero h = sym (h refl)
with_sign-sign true (suc n) h = ground arith
with_sign-sign false n h = ground arith

and_false : (b : Bool) → (b && false) ≡ false
and_false b = ground arith

units_bound : (k : IntervalKind) (i : Interval) → IsCanonical k i → units k i < 9223372036854775808
unfolding units
units_bound year i c = omega (arith, c.narrow refl)
units_bound month i c = omega (arith, c.narrow refl)
units_bound day i c = omega (arith, c.narrow refl)
units_bound hour i c = omega (arith, c.narrow refl)
units_bound minute i c = omega (arith, c.narrow refl)
units_bound second i c = omega (arith, c.narrow refl)
units_bound year_to_month i c = omega (arith, c.narrow refl)
units_bound day_to_hour i c = omega (arith, c.narrow refl)
units_bound day_to_minute i c = let (a, b, d, e, f) = c.fields in omega arith
units_bound day_to_second i c = let (a, b, d, e, f) = c.fields in omega arith
units_bound hour_to_minute i c = let (a, b, d, e, f) = c.fields in omega arith
units_bound hour_to_second i c = let (a, b, d, e, f) = c.fields in omega arith
units_bound minute_to_second i c = let (a, b, d, e, f) = c.fields in omega arith

module _ (get_int get_int64 : ℤ → ℤ)
    (reads_int : (b : Bool) (n : ℕ)
      → n < 2147483648
      → get_int (with_sign b (pos n)) ≡ with_sign b (pos n))
    (reads_int64 : (b : Bool) (n : ℕ)
      → n < 9223372036854775808
      → get_int64 (with_sign b (pos n)) ≡ with_sign b (pos n)) where
  read_back :
      (k : IntervalKind) (i : Interval)
      → IsCanonical k i
      → units k i < 9223372036854775808
      → (if is_wide k
          then get_int64 (with_sign i.negative (pos (units k i)))
          else get_int (with_sign i.negative (pos (units k i))))
        ≡ with_sign i.negative (pos (units k i))
  read_back k i c m = elim (Bool-cases (is_wide k)) [
    | inl e ↦ rw e (reads_int64 i.negative (units k i) m)
    | inr e ↦ rw e (reads_int i.negative (units k i) (c.narrow e))
  ]

  -- An interval in its normal form, of any of the 13 kinds, without a fraction, and below 2^31
  -- units where fillOutput reads an int, comes back from the number that bindParameter stores for
  -- it, kind, sign and fields, and is not reported as NULL: for a client library that reads a
  -- stored number in range as it is, and an application structure of zeros.
  pub decode-encode :
      (k : IntervalKind) (i : Interval)
      → IsCanonical k i
      → decode get_int get_int64 false k (encode k i) blank ≡ (i, false)
  unfolding decode
  decode-encode k i c = rw (
    encode-units k i c.narrow,
    read_back k i c (units_bound k i c),
    with_sign-magnitude i.negative (units k i),
    fill_interval-units k i (with_sign i.negative (pos (units k i))) c
        (with_sign-sign i.negative (units k i) c.signed),
    and_false (with_sign i.negative (pos (units k i)) ==ℤ pos 0),
  )
