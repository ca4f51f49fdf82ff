-- ===== src/Properties/Decimal.antt =====
-- A port as connect prints it (std::to_string) and as readProperties reads it (strtol).
use snappy_odbc.Common.{
  ℕ, zero, suc, ◌+◌, ◌-◌, ◌*◌, ◌/◌, ◌%◌, ◌<◌, ◌≡◌, refl, ap, ◌∙◌, inl, inr, true, false, List, [],
  ◌∷◌, ◌++◌, arith, ltb, ltb→lt, if_yes, Bool-cases, pos, All, All-append, length, length-append,
}
use snappy_odbc.Attributes.{to_sqlinteger}
use snappy_odbc.Connecting.Attach.{digits, to_string}
use snappy_odbc.Properties.Collect.{is_digit, digits_value, number, signed, skip_space, strtol}

power : ℕ → ℕ
power zero = 1
power (suc f) = 10 * power f

value_of_digits : ℕ → List ℕ → ℕ
value_of_digits acc [] = acc
value_of_digits acc (c ∷ cs) = value_of_digits (acc * 10 + (c - 48)) cs

digits_value-digits :
    (acc : ℕ) (xs : List ℕ)
    → All (λ c. is_digit c ≡ true) xs
    → digits_value acc xs ≡ (value_of_digits acc xs, true)
unfolding digits_value value_of_digits
digits_value-digits acc [] h = refl
digits_value-digits acc (c ∷ cs) h =
    if_yes (is_digit c) _ _ h.0 ∙ digits_value-digits (acc * 10 + (c - 48)) cs h.1

value_of_digits-append :
    (acc : ℕ) (xs : List ℕ) (d : ℕ)
    → value_of_digits acc (xs ++ (48 + d) ∷ []) ≡ value_of_digits acc xs * 10 + d
unfolding value_of_digits
value_of_digits-append acc [] d = omega arith
value_of_digits-append acc (c ∷ cs) d = value_of_digits-append (acc * 10 + (c - 48)) cs d

digit-is_digit : (d : ℕ) → d < 10 → is_digit (48 + d) ≡ true
unfolding is_digit
digit-is_digit d h = ground arith

digits-digits : (f n : ℕ) → All (λ c. is_digit c ≡ true) (digits f n)
unfolding digits
digits-digits zero n = tt
digits-digits (suc f) n = elim (Bool-cases (ltb n 10)) [
  | inl e ↦ rw e (digit-is_digit n (ltb→lt n 10 e), tt)
  | inr e ↦ rw e (
      All-append (λ c. is_digit c ≡ true) (digits f (n / 10)) ((48 + n % 10) ∷ [])
        (digits-digits f (n / 10)) (digit-is_digit (n % 10) (omega arith), tt))
]

digits-value : (f n : ℕ) → n < power f → value_of_digits 0 (digits f n) ≡ n
unfolding digits power value_of_digits
digits-value zero n h = omega arith
digits-value (suc f) n h = elim (Bool-cases (ltb n 10)) [
  | inl e ↦ rw e (omega arith)
  | inr e ↦ rw e (
      value_of_digits-append 0 (digits f (n / 10)) (n % 10)
      ∙ omega (arith, digits-value f (n / 10) (omega arith)))
]

-- A number that starts with a digit is read as it is.
module _ (c : ℕ) (cs : List ℕ) (first : is_digit c ≡ true) where
  skip_space-digit : skip_space (c ∷ cs) ≡ c ∷ cs
  unfolding skip_space is_digit
  skip_space-digit = ground arith

  signed-digit : (whole : List ℕ) → signed whole (c ∷ cs) ≡ number false whole (c ∷ cs)
  unfolding signed is_digit
  signed-digit whole = ground arith

  number-digit :
      (whole : List ℕ) (n : ℕ)
      → n < 9223372036854775808
      → digits_value 0 (c ∷ cs) ≡ (n, true)
      → number false whole (c ∷ cs) ≡ (pos n, true)
  unfolding number
  number-digit whole n l h = if_yes (is_digit c) _ _ first ∙ rw h (ground arith)

  strtol-digits :
      (n : ℕ)
      → n < 9223372036854775808
      → digits_value 0 (c ∷ cs) ≡ (n, true)
      → strtol (c ∷ cs) ≡ (pos n, true)
  unfolding strtol
  strtol-digits n l h =
      ap (signed (c ∷ cs)) skip_space-digit ∙ signed-digit (c ∷ cs) ∙ number-digit (c ∷ cs) n l h

strtol-list :
    (xs : List ℕ) (n : ℕ)
    → 0 < length xs
    → n < 9223372036854775808
    → All (λ c. is_digit c ≡ true) xs
    → digits_value 0 xs ≡ (n, true)
    → strtol xs ≡ (pos n, true)
strtol-list [] n p l h e = absurd (omega arith)
strtol-list (c ∷ cs) n p l h e = strtol-digits c cs h.0 n l e

length-digits : (f n : ℕ) → 0 < length (digits (suc f) n)
unfolding digits
length-digits f n = elim (Bool-cases (ltb n 10)) [
  | inl e ↦ rw e (omega arith)
  | inr e ↦ rw e (omega (arith, length-append (digits f (n / 10)) ((48 + n % 10) ∷ [])))
]

-- Ten digits are enough for an int.
ten_digits : power 10 ≡ 10000000000
unfolding power
ten_digits = refl

pub strtol-to_string : (n : ℕ) → n < 2147483648 → strtol (to_string (pos n)) ≡ (pos n, true)
unfolding to_string
strtol-to_string n h =
    strtol-list (digits 10 n) n (length-digits 9 n) (omega arith) (digits-digits 10 n) (
      digits_value-digits 0 (digits 10 n) (digits-digits 10 n)
      ∙ ap (λ v. (v, true)) (digits-value 10 n (omega (arith, ten_digits))))

unwrapped : (n : ℕ) → n < 2147483648 → n % 4294967296 ≡ n
unwrapped n h = omega arith

pub to_sqlinteger-small : (n : ℕ) → n < 2147483648 → to_sqlinteger (pos n) ≡ pos n
unfolding to_sqlinteger
to_sqlinteger-small n h = ground (arith, unwrapped n h)
