-- ===== src/Tests/Spans.antt =====
-- Concrete intervals.
use snappy_odbc.Common.{◌≡◌, refl, true, false, negsuc, arith}
use snappy_odbc.Intervals.{day_to_second, Interval, encode, decode}
use snappy_odbc.Intervals.RoundTrip.{units, IsCanonical, blank, decode-encode}

-- Minus 2 days, 3 hours, 4 minutes and 5 seconds.
abbrev span : Interval
span = record {
  kind = day_to_second;
  negative = true;
  year_or_day = 2;
  month_or_hour = 3;
  minutes = 4;
  seconds = 5;
  fraction = 0;
}

span_is_counted : units day_to_second span ≡ 183845
unfolding units
span_is_counted = refl

span-IsCanonical : IsCanonical day_to_second span
span-IsCanonical = record {
  kind_is = refl;
  signed = λ h. absurd (omega (arith, h, span_is_counted));
  narrow = λ h. absurd (ground (arith, h));
  fields = (omega arith, omega arith, omega arith, omega arith, refl);
}

span_number : encode day_to_second span ≡ negsuc 183844
unfolding encode
span_number = refl

decode-encode_example :
    decode (λ z. z) (λ z. z) false day_to_second (encode day_to_second span) blank ≡ (span, false)
decode-encode_example =
    decode-encode (λ z. z) (λ z. z) (λ b n h. refl) (λ b n h. refl) day_to_second span
      span-IsCanonical
