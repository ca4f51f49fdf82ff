-- ===== src/Strings.antt =====
-- Character buffers and string helpers: src/driver/cpp/StringFunctions.h and StringFunctions.cpp.
-- Memory that a pointer designates is the list of the units from there on, so an access past its
-- end is visible: it is the fault `none`. A null output pointer is the empty list.
pub mod Copy
pub mod Split
pub mod Compare
use mathlib.Core.Option
use snappy_odbc.Common.{
  ℕ, zero, suc, ◌+◌, ◌-◌, ◌%◌, ◌≤◌, Bool, true, false, ◌&&◌, ◌||◌, not, Option, none, some, List,
  [], ◌∷◌, ◌++◌, ltb, leb, ◌==◌, if◌then◌else◌, ◌>>=◌, ℤ, pos, negsuc, pos_part, neg_part, ◌-ℤ◌,
  ltb_ℤ, leb_ℤ, ◌==ℤ◌, take, drop, get_elem?,
}

-- The range of a C integer type, for std::numeric_limits.
pub record IntType : Type 0 where
  pub lo : ℤ
  pub hi : ℤ

abbrev pub sqllen : IntType
sqllen = record { lo = negsuc 9223372036854775807; hi = pos 9223372036854775807 }

abbrev pub sqlinteger : IntType
sqlinteger = record { lo = negsuc 2147483647; hi = pos 2147483647 }

abbrev pub sqluinteger : IntType
sqluinteger = record { lo = pos 0; hi = pos 4294967295 }

abbrev pub sqlsmallint : IntType
sqlsmallint = record { lo = negsuc 32767; hi = pos 32767 }

-- SQL_NTS and SQL_NULL_DATA of the ODBC headers.
abbrev pub sql_nts : ℤ
sql_nts = negsuc 2

abbrev pub sql_null_data : ℤ
sql_null_data = negsuc 0

abbrev pub min_ℤ : ℤ → ℤ → ℤ
min_ℤ a b = if ltb_ℤ b a then b else a

abbrev pub max_ℤ : ℤ → ℤ → ℤ
max_ℤ a b = if ltb_ℤ a b then b else a

-- `same` is std::is_same<TLEN, TIN>.
unfoldable pub restrict_length : IntType → Bool → ℤ → ℤ
restrict_length t same len =
    if same then len else if leb_ℤ (pos 0) len then min_ℤ t.hi len else max_ℤ t.lo len

-- memcpy of n units.
unfoldable pub overwrite : ℕ → List ℕ → List ℕ → Option (List ℕ)
overwrite zero src out = some out
overwrite (suc n) [] out = none
overwrite (suc n) (c ∷ src) [] = none
overwrite (suc n) (c ∷ src) (o ∷ out) = Option.map (λ r. c ∷ r) (overwrite n src out)

-- memset of the terminator, one unit.
unfoldable pub store : ℕ → ℕ → List ℕ → Option (List ℕ)
store i v [] = none
store zero v (o ∷ out) = some (v ∷ out)
store (suc i) v (o ∷ out) = Option.map (λ r. o ∷ r) (store i v out)

-- What a copy leaves: the buffer, the returned flag, and *totalLen.
pub record Copied : Type 0 where
  pub out : List ℕ
  pub truncated : Bool
  pub total_len : ℤ

unfoldable pub copy_terminated : List ℕ → ℕ → List ℕ → Bool → ℤ → Option Copied
copy_terminated chars n out truncated total = do
  copied ← overwrite n chars out
  closed ← store n 0 copied
  some (record { out = closed; truncated = truncated; total_len = total })

-- _snappy_impl::copyString; lengths count units of charSize bytes.
unfoldable pub copy_units : List ℕ → ℕ → List ℕ → ℤ → Option Copied
copy_units chars len out out_max_len =
    let max_len = restrict_length sqllen false (pos len) in
    let room = out_max_len -ℤ pos 1 in
    if leb_ℤ max_len room
    then copy_terminated chars (pos_part max_len) out false max_len
    else if leb_ℤ (pos 0) room
    then copy_terminated chars (pos_part room) out true max_len
    else some (record { out = out; truncated = true; total_len = max_len })

-- Units before the terminator; a text with none faults.
unfoldable pub strlen : List ℕ → Option ℕ
strlen [] = none
strlen (c ∷ cs) = if c == 0 then some 0 else Option.map suc (strlen cs)

-- A length handed over as SQLLEN and read as size_t.
abbrev pub to_size : ℤ → ℕ
to_size (pos n) = n
to_size (negsuc n) = 18446744073709551616 - suc n

-- copyString for characters of one width; `none` for the text is a null pointer.
unfoldable pub copy_string : Option (List ℕ) → ℤ → List ℕ → ℤ → Option Copied
copy_string none len out out_max_len =
    some (record { out = out; truncated = false; total_len = sql_null_data })
copy_string (some chars) len out out_max_len =
    if len ==ℤ sql_nts
    then (do
      n ← strlen chars
      copy_units chars (to_size (restrict_length sqllen false (pos n))) out out_max_len)
    else copy_units chars (to_size len) out out_max_len

-- copyString with a conversion between UTF-8 and UTF-16, which client::Utils provides; the result
-- is a C string, so its memory ends in a terminator.
unfoldable pub copy_converted :
    (List ℕ → ℤ → List ℕ) → Option (List ℕ) → ℤ → List ℕ → ℤ → Option Copied
copy_converted convert none len out out_max_len =
    some (record { out = out; truncated = false; total_len = sql_null_data })
copy_converted convert (some chars) len out out_max_len =
    let result = convert chars len in copy_units (result ++ 0 ∷ []) (size result) out out_max_len
  where
    size : List ℕ → ℕ
    size [] = 0
    size (c ∷ cs) = suc (size cs)

-- strcmp over two counted strings: the sign says which is greater.
unfoldable pub strcmp : List ℕ → List ℕ → ℤ
strcmp [] [] = pos 0
strcmp [] (d ∷ ds) = negsuc 0
strcmp (c ∷ cs) [] = pos 1
strcmp (c ∷ cs) (d ∷ ds) = if c == d then strcmp cs ds else pos c -ℤ pos d

-- The result after the loop of strncmp, where strLen has been decremented once more.
strncmp_end : ℤ → ℤ
strncmp_end str_len = if str_len ==ℤ pos 0 then pos 0 else negsuc 0

unfoldable pub strncmp : List ℕ → List ℕ → ℕ → Option ℤ
unfolding strncmp_end
strncmp str1 str2 zero = some (strncmp_end (pos 0 -ℤ pos 1))
strncmp str1 [] (suc n) = none
strncmp [] (d ∷ ds) (suc n) = if d == 0 then some (pos 1) else none
strncmp (c ∷ cs) (d ∷ ds) (suc n) =
    let rest = strncmp cs ds n in
    if d == 0 then some (pos 1) else if c == d then rest else some (pos c -ℤ pos d)

-- strchr: how far the first `c` is, or the terminator's place where `c` is 0.
unfoldable pub strchr : List ℕ → ℕ → Option (Option ℕ)
strchr [] c = none
strchr (ch ∷ s) c =
    let rest = Option.map (Option.map suc) (strchr s c) in
    if ch == 0
    then some (if ch == c then some 0 else none)
    else if ch == c
    then some (some 0)
    else rest

unfoldable pub is_blank : ℕ → Bool
is_blank ch = ch == b' ' || ch == 9

-- ltrim: how many leading blanks and tabs are skipped.
unfoldable pub ltrim : List ℕ → Option ℕ
unfolding is_blank
ltrim [] = none
ltrim (ch ∷ s) = let rest = Option.map suc (ltrim s) in if is_blank ch then rest else some 0

-- rtrim: the pointer is an offset into the text; it moves back while the unit there is a blank.
unfoldable pub rtrim : List ℕ → ℕ → Option ℕ
unfolding is_blank
rtrim s zero = elim (get_elem? s 0) [ none ↦ none | some ch ↦ if is_blank ch then none else some 0 ]
rtrim s (suc i) =
    let before = rtrim s i in
    elim (get_elem? s (suc i)) [
      | none ↦ none
      | some ch ↦ if is_blank ch then before else some (suc i)
    ]

-- `if (len > 0) len--;`
abbrev pub count_down : ℤ → ℤ
count_down (pos zero) = pos zero
count_down (pos (suc n)) = pos n
count_down (negsuc n) = negsuc n

split_end : List ℕ → ℕ → List (List ℕ) → List (List ℕ)
split_end start size result =
    if ltb 0 size then result ++ take size start ∷ [] else result ++ [] ∷ []

-- `c == delimiter` of a SQLCHAR and a char, of which `delimiter` is the byte. A char is signed, so
-- one from 128 on is negative, and equals no SQLCHAR.
abbrev pub equals_char : ℕ → ℕ → Bool
equals_char c delimiter = ltb delimiter 128 && c == delimiter

-- The loop of split for SQLCHAR: pieces are cut out of the text by the start and the size.
unfoldable pub split_loop : List ℕ → ℤ → ℕ → List ℕ → ℕ → List (List ℕ) → Option (List (List ℕ))
unfolding split_end
split_loop [] len delimiter start size result = none
split_loop (c ∷ str) len delimiter start size result =
    let hit = equals_char c delimiter in
    let rest =
      split_loop str (count_down len) delimiter (if hit then drop (suc size) start else start)
        (if hit then 0 else suc size) (if hit then result ++ take size start ∷ [] else result) in
    if len ==ℤ pos 0 || c == 0 then some (split_end start size result) else rest

unfoldable pub split : Option (List ℕ) → ℤ → ℕ → Option (List (List ℕ))
unfolding split_loop
split none len delimiter = some []
split (some str) len delimiter = split_loop str len delimiter str 0 []

-- The loop of split for SQLWCHAR: pieces are collected in a buffer of chars.
unfoldable pub split_wide_loop : List ℕ → ℤ → ℕ → List ℕ → List (List ℕ) → Option (List (List ℕ))
split_wide_loop [] len delimiter buffer result = none
split_wide_loop (c ∷ str) len delimiter buffer result =
    let hit = c == delimiter in
    let rest =
      split_wide_loop str (count_down len) delimiter (if hit then [] else buffer ++ (c % 256) ∷ [])
        (if hit then result ++ buffer ∷ [] else result) in
    if len ==ℤ pos 0 || c == 0 then some (result ++ buffer ∷ []) else rest

unfoldable pub split_wide : Option (List ℕ) → ℤ → ℕ → Option (List (List ℕ))
unfolding split_wide_loop
split_wide none len delimiter = some []
split_wide (some str) len delimiter = split_wide_loop str len delimiter [] []
