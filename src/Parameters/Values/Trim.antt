-- ===== src/Parameters/Values/Trim.antt =====
-- How many bytes of a SQL_NUMERIC_STRUCT bindParameter of src/driver/cpp/SnappyStatement.cpp takes.
use snappy_odbc.Common.{
  ℕ, suc, ◌+◌, ◌≡◌, ◌≢◌, ◌∙◌, ap, refl, if_no, false, List, [], ◌∷◌, ◌==◌, ltb, if◌then◌else◌, ℤ,
  pos, negsuc, length, arith,
}
use snappy_odbc.Parameters.Values.{
  Numeric, decimal, trim, reverse_onto, bytes_backwards, numeric_content,
}

-- The bytes up to the last that is not 0.
abbrev pub significant : List ℕ → ℕ
significant [] = 0
significant (b ∷ bs) =
    let rest = significant bs in if ltb 0 rest then suc rest else if b == 0 then 0 else 1

trim_step :
    (b : ℕ) (bs : List ℕ) (k : ℕ)
    → trim (b ∷ bs) (pos (suc k)) ≡ (if b == 0 then trim bs (pos k) else pos (suc k))
unfolding trim
trim_step b bs k = refl

merge_tests :
    (rest b k : ℕ) (t : ℤ)
    → (if ltb 0 rest then pos (suc k + rest) else if b == 0 then t else pos (suc k)) ≡ (
        let r = if ltb 0 rest then suc rest else if b == 0 then 0 else 1 in
        if ltb 0 r then pos (k + r) else t)
merge_tests rest b k t = ground arith

move_suc : (k n : ℕ) → k + suc n ≡ suc k + n
move_suc k n = omega arith

add_zero : (k : ℕ) → k + 0 ≡ k
add_zero k = omega arith

trim_reversed :
    (xs ys : List ℕ) (k : ℕ)
    → trim (reverse_onto xs ys) (pos (k + length xs))
      ≡ (if ltb 0 (significant xs) then pos (k + significant xs) else trim ys (pos k))
trim_reversed [] ys k = ap (λ n. trim ys (pos n)) (add_zero k)
trim_reversed (b ∷ bs) ys k =
    ap (λ n. trim (reverse_onto bs (b ∷ ys)) (pos n)) (move_suc k (length bs))
    ∙ (trim_reversed bs (b ∷ ys) (suc k)
        ∙ (ap (λ z. if ltb 0 (significant bs) then pos (suc k + significant bs) else z)
              (trim_step b ys k)
            ∙ merge_tests (significant bs) b k (trim ys (pos k))))

-- The value is followed backwards by the sign, the scale and the precision.
trim_fields :
    (sign scale precision : ℕ)
    → precision ≢ 0
    → trim (sign ∷ scale ∷ precision ∷ []) (pos 0)
      ≡ (if sign == 0 then if scale == 0 then negsuc 1 else negsuc 0 else pos 0)
unfolding trim
trim_fields sign scale precision h = ground arith

-- For a SQL_NUMERIC_STRUCT whose precision is not 0, bindParameter hands over the sixteen bytes of
-- the value with their number up to the last that is not 0; where all are 0 the number is 0 if the
-- sign is not 0, else -1, or -2 where the scale is 0 too (as a size_t, 2^64 - 1 or 2^64 - 2).
pub numeric_content-length :
    (n : Numeric)
    → n.precision ≢ 0
    → length n.val ≡ 16
    → numeric_content n
      ≡ decimal (n.sign == 1) n.scale n.val (
          if ltb 0 (significant n.val)
          then pos (significant n.val)
          else if n.sign == 0
          then (if n.scale == 0 then negsuc 1 else negsuc 0)
          else pos 0)
unfolding numeric_content
numeric_content-length n p l =
    if_no _ _ _ (not_zero n.precision p)
    ∙ ap (decimal (n.sign == 1) n.scale n.val) (
        ap (λ k. trim (bytes_backwards n) (pos k)) (sixteen (length n.val) l)
        ∙ (trim_reversed n.val (n.sign ∷ n.scale ∷ n.precision ∷ []) 0
            ∙ (ap (λ z. if ltb 0 (significant n.val) then pos (0 + significant n.val) else z)
                  (trim_fields n.sign n.scale n.precision p)
                ∙ ap (λ m. if ltb 0 (significant n.val) then pos m else before_value)
                    (zero_add (significant n.val)))))
  where
    before_value : ℤ
    before_value = if n.sign == 0 then if n.scale == 0 then negsuc 1 else negsuc 0 else pos 0

    sixteen : (m : ℕ) → m ≡ 16 → 16 ≡ 0 + m
    sixteen m h = omega arith

    zero_add : (m : ℕ) → 0 + m ≡ m
    zero_add m = omega arith

    not_zero : (k : ℕ) → k ≢ 0 → (k == 0) ≡ false
    not_zero k h = ground arith
