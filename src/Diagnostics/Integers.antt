-- ===== src/Diagnostics/Integers.antt =====
-- Where SQLGetDiagField puts a number (src/driver/cpp/SnappyEnvironment.cpp, handleDiagFieldT).
use snappy_odbc.Common.{
  ap, ℕ, ◌≡◌, ◌∙◌, refl, Bool, true, false, ◌&&◌, ◌||◌, Option, none, some, ℤ, pos, negsuc, ◌≤ℤ◌,
  ltb_ℤ, leb_ℤ, ◌==ℤ◌, if◌then◌else◌, if_yes, arith,
}
use snappy_odbc.Strings.{sqllen, sqlinteger, sqluinteger, sqlsmallint, IntType, restrict_length}
use snappy_odbc.Driver.{SqlReturn, success, error}
use snappy_odbc.Diagnostics.{is_given}
use snappy_odbc.Diagnostics.Field.{
  DiagField, store_number, store_sized, store_kind, store_integer, sqlusmallint,
}

-- The size and the type that a buffer length, or SQL_IS_INTEGER and the like, asks for.
abbrev pub integer_type : ℤ → Option (ℕ × IntType)
integer_type len =
    if len ==ℤ pos 8
    then some (8, sqllen)
    else if len ==ℤ pos 4 || len ==ℤ negsuc 5 || len ==ℤ pos 0 || leb_ℤ (pos 9) len
    then some (4, sqlinteger)
    else if len ==ℤ negsuc 4
    then some (4, sqluinteger)
    else if len ==ℤ pos 2 || len ==ℤ negsuc 7
    then some (2, sqlsmallint)
    else if len ==ℤ negsuc 6
    then some (2, sqlusmallint)
    else none

-- The nearest value of a type.
abbrev pub nearest : IntType → ℤ → ℤ
nearest t n = if leb_ℤ t.hi n then t.hi else if leb_ℤ n t.lo then t.lo else n

abbrev pub stored_as : Option (ℕ × IntType) → ℤ → DiagField → DiagField × SqlReturn
stored_as none n r = (r, error)
stored_as (some (size, t)) n r = (record r { stored_number = some (size, nearest t n) }, success)

restrict_length-nearest :
    (t : IntType) (n : ℤ) → t.lo ≤ℤ pos 0 → pos 0 ≤ℤ t.hi → restrict_length t false n ≡ nearest t n
unfolding restrict_length
restrict_length-nearest t n l h = ground arith

nearest-same : (n : ℤ) → sqllen.lo ≤ℤ n → n ≤ℤ sqllen.hi → n ≡ nearest sqllen n
nearest-same n l h = ground arith

-- The two trees of tests, for any results.
same_tests :
    {A : Type 0} (len : ℤ) (a b c d e f : A)
    → (if ltb_ℤ (pos 0) len && leb_ℤ len (pos 8)
        then (if len ==ℤ pos 8
            then a
            else if len ==ℤ pos 4
            then b
            else if len ==ℤ pos 2
            then c
            else f)
        else (let kind = if ltb_ℤ len (pos 0) then len else negsuc 5 in
            if kind ==ℤ negsuc 5
            then b
            else if kind ==ℤ negsuc 4
            then d
            else if kind ==ℤ negsuc 7
            then c
            else if kind ==ℤ negsuc 6
            then e
            else f))
      ≡ (if len ==ℤ pos 8
          then a
          else if len ==ℤ pos 4 || len ==ℤ negsuc 5 || len ==ℤ pos 0 || leb_ℤ (pos 9) len
          then b
          else if len ==ℤ negsuc 4
          then d
          else if len ==ℤ pos 2 || len ==ℤ negsuc 7
          then c
          else if len ==ℤ negsuc 6
          then e
          else f)
same_tests (pos n) a b c d e f = ground arith
same_tests (negsuc n) a b c d e f = ground arith

under_tests :
    {A B : Type 0} (g : A → B) (c₁ c₂ c₃ c₄ c₅ : Bool) (x₁ x₂ x₃ x₄ x₅ y : A) (first : B)
    → first ≡ g x₁
    → (if c₁
        then first
        else if c₂
        then g x₂
        else if c₃
        then g x₃
        else if c₄
        then g x₄
        else if c₅
        then g x₅
        else g y)
      ≡ g (
          if c₁
          then x₁
          else if c₂
          then x₂
          else if c₃
          then x₃
          else if c₄
          then x₄
          else if c₅
          then x₅
          else y)
under_tests g true c₂ c₃ c₄ c₅ x₁ x₂ x₃ x₄ x₅ y first h = h
under_tests g false true c₃ c₄ c₅ x₁ x₂ x₃ x₄ x₅ y first h = refl
under_tests g false false true c₄ c₅ x₁ x₂ x₃ x₄ x₅ y first h = refl
under_tests g false false false true c₅ x₁ x₂ x₃ x₄ x₅ y first h = refl
under_tests g false false false false true x₁ x₂ x₃ x₄ x₅ y first h = refl
under_tests g false false false false false x₁ x₂ x₃ x₄ x₅ y first h = refl

-- A number of 64 bits is stored as the type that is asked for, clamped to its range.
store_integer-typed :
    (len n : ℤ) (r : DiagField)
    → is_given r.info ≡ true
    → sqllen.lo ≤ℤ n
    → n ≤ℤ sqllen.hi
    → store_integer len n r ≡ stored_as (integer_type len) n r
unfolding store_integer store_sized store_kind
store_integer-typed len n r g l h =
    let as_type : IntType → (size : ℕ) → DiagField × SqlReturn =
      λ t size. store_number size (nearest t n) r in
    if_yes _ _ _ g
    ∙ (rw
        (
          restrict_length-nearest sqlinteger n (omega arith) (omega arith),
          restrict_length-nearest sqluinteger n (omega arith) (omega arith),
          restrict_length-nearest sqlsmallint n (omega arith) (omega arith),
          restrict_length-nearest sqlusmallint n (omega arith) (omega arith),
        )
        (same_tests len (store_number 8 n r) (as_type sqlinteger 4) (as_type sqlsmallint 2)
            (as_type sqluinteger 4) (as_type sqlusmallint 2) (r, error)
          ∙ under_tests (λ t. stored_as t n r) (len ==ℤ pos 8)
              (len ==ℤ pos 4 || len ==ℤ negsuc 5 || len ==ℤ pos 0 || leb_ℤ (pos 9) len)
              (len ==ℤ negsuc 4) (len ==ℤ pos 2 || len ==ℤ negsuc 7) (len ==ℤ negsuc 6)
              (some (8, sqllen)) (some (4, sqlinteger)) (some (4, sqluinteger))
              (some (2, sqlsmallint)) (some (2, sqlusmallint)) none (store_number 8 n r)
              (ap (λ m. store_number 8 m r) (nearest-same n l h))))
