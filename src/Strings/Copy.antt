-- ===== src/Strings/Copy.antt =====
-- copyString keeps within the buffer that the caller declared (src/driver/cpp/StringFunctions.cpp).
use snappy_odbc.Common.{
  All, ℕ, zero, suc, ◌≤◌, ◌<◌, ◌≡◌, ◌≢◌, length-append, refl, ap, Bool, true, false, Option, some,
  List, [], ◌∷◌, ◌++◌, arith, Bool-cases, inl, inr, ltb, ℤ, pos, negsuc, length, take, drop, min,
  ◌≤ℤ◌, ◌==ℤ◌,
}
use snappy_odbc.Strings.{
  IntType, restrict_length, overwrite, store, Copied, copy_terminated, copy_units, copy_string,
  sqllen, strlen, sql_nts,
}

-- restrictLength stays within the range of its target type, keeps a value that fits, and clamps
-- the others to the nearer end.
pub restrict_length_clamps :
    (t : IntType) (len : ℤ)
    → t.lo ≤ℤ pos 0
    → pos 0 ≤ℤ t.hi
    → (t.lo ≤ℤ restrict_length t false len)
      × (restrict_length t false len ≤ℤ t.hi)
      × (t.lo ≤ℤ len → len ≤ℤ t.hi → restrict_length t false len ≡ len)
      × (t.hi ≤ℤ len → restrict_length t false len ≡ t.hi)
      × (len ≤ℤ t.lo → restrict_length t false len ≡ t.lo)
unfolding restrict_length
restrict_length_clamps t len l h = ground arith

overwrite_lem :
    (n : ℕ) (src out : List ℕ)
    → n ≤ length src
    → n ≤ length out
    → overwrite n src out ≡ some (take n src ++ drop n out)
unfolding overwrite
overwrite_lem zero src out h k = refl
overwrite_lem (suc n) [] out h k = absurd (omega arith)
overwrite_lem (suc n) (c ∷ src) [] h k = absurd (omega arith)
overwrite_lem (suc n) (c ∷ src) (o ∷ out) h k =
    rw (overwrite_lem n src out (omega arith) (omega arith))

store_lem :
    (n v : ℕ) (src out : List ℕ)
    → n ≤ length src
    → n < length out
    → store n v (take n src ++ drop n out) ≡ some (take n src ++ v ∷ drop (suc n) out)
unfolding store
store_lem zero v src [] h k = absurd (omega arith)
store_lem zero v src (o ∷ out) h k = refl
store_lem (suc n) v [] out h k = absurd (omega arith)
store_lem (suc n) v (c ∷ src) [] h k = absurd (omega arith)
store_lem (suc n) v (c ∷ src) (o ∷ out) h k = rw (store_lem n v src out (omega arith) (omega arith))

copy_terminated_lem :
    (chars out : List ℕ) (n : ℕ) (t : Bool) (l : ℤ)
    → n ≤ length chars
    → n < length out
    → copy_terminated chars n out t l
      ≡ some (record { out = take n chars ++ 0 ∷ drop (suc n) out; truncated = t; total_len = l })
unfolding copy_terminated
copy_terminated_lem chars out n t l h k =
    rw (overwrite_lem n chars out h (omega arith), store_lem n 0 chars out h k)

-- What copyString promises: the text cut to the room, then a terminator, the rest of the buffer as
-- it was; nothing is written where there is no room for a terminator.
abbrev pub bounded_copy : List ℕ → ℕ → List ℕ → ℤ → Copied
bounded_copy chars len out (pos zero) = record { out = out; truncated = true; total_len = pos len }
bounded_copy chars len out (negsuc n) = record { out = out; truncated = true; total_len = pos len }
bounded_copy chars len out (pos (suc room)) = record {
  out = take (min len room) chars ++ 0 ∷ drop (suc (min len room)) out;
  truncated = ltb room len;
  total_len = pos len;
}

restrict_sqllen :
    (len : ℕ) → len ≤ 9223372036854775807 → restrict_length sqllen false (pos len) ≡ pos len
unfolding restrict_length
restrict_sqllen len h = ground arith

pub copy_units-bounded_copy :
    (chars out : List ℕ) (len : ℕ) (out_max_len : ℤ)
    → len ≤ length chars
    → len ≤ 9223372036854775807
    → out_max_len ≤ℤ pos (length out)
    → copy_units chars len out out_max_len ≡ some (bounded_copy chars len out out_max_len)
unfolding copy_units
copy_units-bounded_copy chars out len (pos zero) h s k = ground (arith, restrict_sqllen len s)
copy_units-bounded_copy chars out len (negsuc n) h s k = ground (arith, restrict_sqllen len s)
copy_units-bounded_copy chars out len (pos (suc room)) h s k = elim (Bool-cases (ltb room len)) [
  | inl cut ↦
      let m : min len room ≡ room = ground arith in
      rw (m)
        (ground (arith, restrict_sqllen len s, copy_terminated_lem chars out room true (pos len)))
  | inr fits ↦
      let m : min len room ≡ len = ground arith in
      rw (m)
        (ground (arith, restrict_sqllen len s, copy_terminated_lem chars out len false (pos len)))
]

strlen_lem :
    (text tail : List ℕ) → All (λ c. c ≢ 0) text → strlen (text ++ 0 ∷ tail) ≡ some (length text)
unfolding strlen
strlen_lem [] tail h = refl
strlen_lem (c ∷ text) tail h = ground (arith, strlen_lem text tail h.1)

take-append_le : (n : ℕ) (xs ys : List ℕ) → n ≤ length xs → take n (xs ++ ys) ≡ take n xs
take-append_le zero xs ys h = refl
take-append_le (suc n) [] ys h = absurd (omega arith)
take-append_le (suc n) (x ∷ xs) ys h = ap (◌∷◌ x) (take-append_le n xs ys (omega arith))

bounded_copy-append :
    (text tail out : List ℕ) (m : ℤ)
    → bounded_copy (text ++ tail) (length text) out m ≡ bounded_copy text (length text) out m
bounded_copy-append text tail out (pos zero) = refl
bounded_copy-append text tail out (negsuc n) = refl
bounded_copy-append text tail out (pos (suc room)) =
    rw (take-append_le (min (length text) room) text tail (omega arith))

counted_is_no_nts : (n : ℕ) → (pos n ==ℤ sql_nts) ≡ false
counted_is_no_nts n = ground arith

pub copy_string_counted :
    (text tail out : List ℕ) (m : ℤ)
    → length text ≤ 9223372036854775807
    → m ≤ℤ pos (length out)
    → copy_string (some (text ++ tail)) (pos (length text)) out m
      ≡ some (bounded_copy text (length text) out m)
unfolding copy_string
copy_string_counted text tail out m s k = rw (
  counted_is_no_nts (length text),
  copy_units-bounded_copy (text ++ tail) out (length text) m
      (omega (arith, length-append text tail)) s k,
  bounded_copy-append text tail out m,
)

-- For an output buffer at least as long as its declared size, copyString neither writes past it
-- nor reads past the text: it stores the text cut to the declared size less one, then a
-- terminator, leaves the rest of the buffer, says that the text was cut exactly where it did not
-- fit, and reports the length of the whole text, be the text counted or terminated.
pub copy_string-bounded_copy :
    (text tail out : List ℕ) (out_max_len : ℤ)
    → length text ≤ 9223372036854775807
    → out_max_len ≤ℤ pos (length out)
    → All (λ c. c ≢ 0) text
    → let promised : Option Copied = some (bounded_copy text (length text) out out_max_len) in
      (copy_string (some (text ++ tail)) (pos (length text)) out out_max_len ≡ promised)
      × (copy_string (some (text ++ 0 ∷ tail)) sql_nts out out_max_len ≡ promised)
unfolding copy_string
copy_string-bounded_copy text tail out m s k h = (
  copy_string_counted text tail out m s k,
  rw (
    strlen_lem text tail h,
    restrict_sqllen (length text) s,
    copy_units-bounded_copy (text ++ 0 ∷ tail) out (length text) m
        (omega (arith, length-append text (0 ∷ tail))) s k,
    bounded_copy-append text (0 ∷ tail) out m,
  ),
)
