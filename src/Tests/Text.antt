-- ===== src/Tests/Text.antt =====
-- Text buffers, split, and type codes.
use snappy_odbc.Common.{
  is_some, ℕ, ◌≡◌, refl, ◌≢◌, true, false, Option, none, some, List, [], ◌∷◌, ◌++◌, arith, pos,
  negsuc, ◌≤ℤ◌, All,
}
use snappy_odbc.Strings.{
  sqlsmallint, restrict_length, copy_string, Copied, sql_nts, split, split_wide, strncmp,
  copy_units, copy_terminated, overwrite, store,
}
use snappy_odbc.Strings.Copy.{restrict_length_clamps, copy_string-bounded_copy, bounded_copy}
use snappy_odbc.Strings.Split.{split-split_wide, split_round_trip, split_overread, join}
use snappy_odbc.Strings.Compare.{strncmp-ne-zero}
use snappy_odbc.Types.{
  OdbcType, CType, check_supported_conversion, SqlType, convert_type_to_sql_type,
  convert_type_to_c_type, convert_sql_type_to_c_type, convert_sql_type_to_type,
}
use snappy_odbc.Types.Agree.{
  sql_type_round_trip, stored_as, default_c_types_agree, default_c_type_supported, signed_name,
}

abbrev hello : List ℕ
hello = 104 ∷ 101 ∷ 108 ∷ 108 ∷ 111 ∷ []

abbrev buffer : List ℕ
buffer = 9 ∷ 9 ∷ 9 ∷ 9 ∷ []

copies_cut :
    copy_string (some hello) (pos 5) buffer (pos 4)
    ≡ some (record { out = 104 ∷ 101 ∷ 108 ∷ 0 ∷ []; truncated = true; total_len = pos 5 })
unfolding copy_string copy_units copy_terminated restrict_length overwrite store
copies_cut = refl

restrict_length_clamps_example :
    (negsuc 32767 ≤ℤ restrict_length sqlsmallint false (pos 70000))
    × (restrict_length sqlsmallint false (pos 70000) ≤ℤ pos 32767)
    × (negsuc 32767 ≤ℤ pos 70000
        → pos 70000 ≤ℤ pos 32767
        → restrict_length sqlsmallint false (pos 70000) ≡ pos 70000)
    × (pos 32767 ≤ℤ pos 70000 → restrict_length sqlsmallint false (pos 70000) ≡ pos 32767)
    × (pos 70000 ≤ℤ negsuc 32767 → restrict_length sqlsmallint false (pos 70000) ≡ negsuc 32767)
restrict_length_clamps_example =
    restrict_length_clamps sqlsmallint (pos 70000) (omega arith) (omega arith)

copy_string-bounded_copy_example :
    let promised : Option Copied = some (bounded_copy hello 5 buffer (pos 4)) in
    (copy_string (some (hello ++ 7 ∷ [])) (pos 5) buffer (pos 4) ≡ promised)
    × (copy_string (some (hello ++ 0 ∷ 7 ∷ [])) sql_nts buffer (pos 4) ≡ promised)
copy_string-bounded_copy_example =
    copy_string-bounded_copy hello (7 ∷ []) buffer (pos 4) (omega arith) (omega arith) (omega arith)

-- "a,,b"
abbrev list_text : List ℕ
list_text = 97 ∷ 44 ∷ 44 ∷ 98 ∷ []

splits : split (some (list_text ++ 0 ∷ [])) sql_nts 44 ≡ some ((97 ∷ []) ∷ [] ∷ (98 ∷ []) ∷ [])
unfolding split
splits = refl

split-split_wide_example :
    split (some (list_text ++ 0 ∷ [])) (pos 3) 44
    ≡ split_wide (some (list_text ++ 0 ∷ [])) (pos 3) 44
split-split_wide_example =
    split-split_wide (list_text ++ 0 ∷ []) (pos 3) 44 (omega arith) (omega arith)

split_round_trip_example :
    (ps : List (List ℕ)) × (split (some (list_text ++ 0 ∷ [])) sql_nts 44 ≡ some ps)
    × (split_wide (some (list_text ++ 0 ∷ [])) sql_nts 44 ≡ some ps)
    × All (All (λ u. u ≢ 44)) ps
    × (join 44 ps ≡ list_text)
split_round_trip_example =
    split_round_trip list_text [] 0 sql_nts 44 (omega arith) (omega arith) (omega arith) refl

split_overread_example :
    (split (some list_text) (pos 4) 44 ≡ none) × (split_wide (some list_text) (pos 4) 44 ≡ none)
split_overread_example = split_overread list_text 44 (omega arith) (omega arith)

-- "%" compared with "%".
strncmp-ne-zero_example : strncmp (37 ∷ 0 ∷ []) (37 ∷ 0 ∷ []) 1 ≢ some (pos 0)
strncmp-ne-zero_example = strncmp-ne-zero (37 ∷ 0 ∷ []) (37 ∷ 0 ∷ []) 1

sql_type_round_trip_example :
    convert_type_to_sql_type (convert_sql_type_to_type SqlType.varchar false)
    ≡ stored_as SqlType.varchar
sql_type_round_trip_example = sql_type_round_trip SqlType.varchar false

default_c_types_agree_example :
    convert_type_to_c_type (convert_sql_type_to_type SqlType.integer true)
    ≡ some (signed_name (convert_sql_type_to_c_type SqlType.integer))
default_c_types_agree_example = default_c_types_agree SqlType.integer (λ n e. cc)

odbc2_date : convert_type_to_c_type OdbcType.date ≡ some CType.type_date
unfolding convert_type_to_c_type
odbc2_date = refl

default_c_type_supported_example :
    (check_supported_conversion CType.type_date OdbcType.date ≡ false)
    × (is_some (convert_type_to_sql_type OdbcType.date) ≡ true)
default_c_type_supported_example = default_c_type_supported OdbcType.date CType.type_date odbc2_date
