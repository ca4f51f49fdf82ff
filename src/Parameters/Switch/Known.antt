-- ===== src/Parameters/Switch/Known.antt =====
-- The switch of bindParameter over the C types (src/driver/cpp/SnappyStatement.cpp) is a conversion
-- that knows all but SQL_C_DEFAULT and the codes without a name.
use snappy_odbc.Common.{
  ◌≡◌, refl, ap, Bool, false, ◌&&◌, Option, none, some, is_some, List, ℤ, if◌then◌else◌,
}
use snappy_odbc.Types.{CType, is_known_ctype}
use snappy_odbc.Parameters.{Piece}
use snappy_odbc.Parameters.Values.{Memory, Content, null_content}
use snappy_odbc.Parameters.Contents.{partial_conversion}
use snappy_odbc.Parameters.Switch.{
  length_given, put_content, content_of, size_after, switch_slot, switch_conversion,
}

abbrev content_or : Option (Bool × Content) → Bool × Content
content_or none = (false, null_content)
content_or (some x) = x

-- The contents of a slot after the switch, for a C type that it knows.
unfoldable pub switch_contents : Memory → CType → Bool → Piece → List Content → List Content
switch_contents m c append piece old =
    let x = content_or (content_of m c piece.address (length_given piece.len)) in
    put_content (append && x.0) x.1 old

content_of-known :
    (m : Memory) (c : CType) (a len : ℤ) → is_some (content_of m c a len) ≡ is_known_ctype c
unfolding content_of
content_of-known m CType.char a len = refl
content_of-known m CType.wchar a len = refl
content_of-known m CType.binary a len = refl
content_of-known m CType.sshort a len = refl
content_of-known m CType.short a len = refl
content_of-known m CType.ushort a len = refl
content_of-known m CType.slong a len = refl
content_of-known m CType.ulong a len = refl
content_of-known m CType.long a len = refl
content_of-known m CType.float a len = refl
content_of-known m CType.double a len = refl
content_of-known m CType.bit a len = refl
content_of-known m CType.utinyint a len = refl
content_of-known m CType.tinyint a len = refl
content_of-known m CType.stinyint a len = refl
content_of-known m CType.sbigint a len = refl
content_of-known m CType.ubigint a len = refl
content_of-known m CType.date a len = refl
content_of-known m CType.type_date a len = refl
content_of-known m CType.time a len = refl
content_of-known m CType.type_time a len = refl
content_of-known m CType.timestamp a len = refl
content_of-known m CType.type_timestamp a len = refl
content_of-known m CType.numeric a len = refl
content_of-known m CType.guid a len = refl
content_of-known m CType.interval_year a len = refl
content_of-known m CType.interval_month a len = refl
content_of-known m CType.interval_day a len = refl
content_of-known m CType.interval_hour a len = refl
content_of-known m CType.interval_minute a len = refl
content_of-known m CType.interval_second a len = refl
content_of-known m CType.interval_year_to_month a len = refl
content_of-known m CType.interval_day_to_hour a len = refl
content_of-known m CType.interval_day_to_minute a len = refl
content_of-known m CType.interval_day_to_second a len = refl
content_of-known m CType.interval_hour_to_minute a len = refl
content_of-known m CType.interval_hour_to_second a len = refl
content_of-known m CType.interval_minute_to_second a len = refl
content_of-known m CType.default a len = refl
content_of-known m (CType.other n) a len = refl

by_content :
    (append : Bool) (old : List Content) (o : Option (Bool × Content)) (k : Bool)
    → is_some o ≡ k
    → (elim o as (λ _. Option (List Content)) [
      | none ↦ none
      | some x ↦ some (put_content (append && x.0) x.1 old)
    ])
      ≡ (if k then some (put_content (append && (content_or o).0) (content_or o).1 old) else none)
by_content append old none k h =
    ap (λ b. if b then some (put_content (append && false) null_content old) else none) h
by_content append old (some x) k h =
    ap (λ b. if b then some (put_content (append && x.0) x.1 old) else none) h

switch_slot-known :
    (m : Memory) (c : CType) (append : Bool) (piece : Piece) (old : List Content)
    → switch_slot m c append piece old
      ≡ (if is_known_ctype c then some (switch_contents m c append piece old) else none)
unfolding switch_slot switch_contents
switch_slot-known m c append piece old =
    by_content append old (content_of m c piece.address (length_given piece.len)) (is_known_ctype c)
      (content_of-known m c piece.address (length_given piece.len))

-- The conversion of the source is the partial conversion of these contents.
pub switch_conversion_is_partial :
    (m : Memory)
    → switch_conversion m
      ≡ partial_conversion is_known_ctype (switch_contents m) null_content size_after
switch_conversion_is_partial m =
    ap (λ f. record { convert = f; null_value = null_content; noted_size = size_after })
      (λ i. λ c append piece old. switch_slot-known m c append piece old i)
