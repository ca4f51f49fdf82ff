-- ===== src/Properties/Plain.antt =====
-- An entry of a connection string whose name and value stand in it as they are
-- (src/driver/cpp/ConnStringPropertyReader.h).

use snappy_odbc.Common.{
  ℕ, suc, ◌+◌, ◌-◌, ◌≡◌, refl, ap, false, Option, none, some, List, [], ◌∷◌, ◌++◌, arith, ◌==◌,
  ==_iff, ℤ, pos, ◌-ℤ◌, All, All-append, All-map, length, get_elem?, take, drop,
}
use snappy_odbc.Strings.{strlen, strchr, ltrim, is_blank}
use snappy_odbc.Properties.Cut.{rtrim-stays}
use snappy_odbc.Properties.Reader.{
  value_end, cut_entry, entry, split_at_equal, next_entry, names_dsn,
}

-- A char that is neither `a` nor `b` nor the terminator.
abbrev pub Avoids : ℕ → ℕ → ℕ → Type 0
Avoids a b c = ((c == a) ≡ false) × ((c == b) ≡ false) × ((c == 0) ≡ false)

pub strchr-first :
    (xs : List ℕ) (c : ℕ) (ys : List ℕ)
    → All (λ x. ((x == c) ≡ false) × ((x == 0) ≡ false)) xs
    → (c == 0) ≡ false
    → strchr (xs ++ c ∷ ys) c ≡ some (some (length xs))
unfolding strchr
strchr-first [] c ys h z = rw (z, (==_iff c c).1 refl) refl
strchr-first (x ∷ xs) c ys h z = rw (h.0.0, h.0.1, strchr-first xs c ys h.1 z) refl

pub strchr-absent :
    (xs : List ℕ) (c : ℕ)
    → All (λ x. ((x == c) ≡ false) × ((x == 0) ≡ false)) xs
    → (c == 0) ≡ false
    → strchr (xs ++ 0 ∷ []) c ≡ some none
unfolding strchr
strchr-absent [] c h z = ground (arith, z)
strchr-absent (x ∷ xs) c h z = rw (h.0.0, h.0.1, strchr-absent xs c h.1 z) refl

pub strlen-closed :
    (xs : List ℕ) → All (λ x. (x == 0) ≡ false) xs → strlen (xs ++ 0 ∷ []) ≡ some (length xs)
unfolding strlen
strlen-closed [] h = refl
strlen-closed (x ∷ xs) h = rw (h.0, strlen-closed xs h.1) refl

pub get_elem?-middle :
    (xs : List ℕ) (c : ℕ) (ys : List ℕ) → get_elem? (xs ++ c ∷ ys) (length xs) ≡ some c
get_elem?-middle [] c ys = refl
get_elem?-middle (x ∷ xs) c ys = get_elem?-middle xs c ys

pub take-front : (xs ys : List ℕ) → take (length xs) (xs ++ ys) ≡ xs
take-front [] ys = refl
take-front (x ∷ xs) ys = ap (◌∷◌ x) (take-front xs ys)

pub drop-front : (xs : List ℕ) (c : ℕ) (ys : List ℕ) → drop (suc (length xs)) (xs ++ c ∷ ys) ≡ ys
drop-front [] c ys = refl
drop-front (x ∷ xs) c ys = drop-front xs c ys

pub minus_zero : (n : ℕ) → n - 0 ≡ n
minus_zero n = omega arith

pub suc_not_zero : (n : ℕ) → (suc n == 0) ≡ false
suc_not_zero n = ground arith

pub gap : (a b : ℕ) → pos (suc (a + b)) -ℤ pos (suc a) ≡ pos b
gap a b = ground arith

-- Names that are cut out as they are: no '=', no ';', no terminator, and no blank in front.
abbrev pub StartsPlain : List ℕ → Type 0
StartsPlain [] = Unit {0}
StartsPlain (c ∷ cs) = is_blank c ≡ false

pub record IsEntry (k v : List ℕ) : Type 0 where
  pub name_plain : All (Avoids b'=' b';') k
  pub name_starts : StartsPlain k
  pub value_plain : All (λ x. ((x == b';') ≡ false) × ((x == 0) ≡ false)) v
  pub no_dsn : names_dsn k v ≡ false

pub ltrim-plain : (k : List ℕ) (ys : List ℕ) → StartsPlain k → ltrim (k ++ b'=' ∷ ys) ≡ some 0
unfolding ltrim
ltrim-plain [] ys h = refl
ltrim-plain (c ∷ k) ys h = rw h refl

module _ (k v : List ℕ) (e : IsEntry k v) where
  pub name_no_equal : All (λ x. ((x == b'=') ≡ false) × ((x == 0) ≡ false)) k
  name_no_equal = All-map (Avoids b'=' b';') _ k (λ x h. (h.0, h.2)) e.name_plain

  pub name_no_semicolon : All (λ x. ((x == b';') ≡ false) × ((x == 0) ≡ false)) k
  name_no_semicolon = All-map (Avoids b'=' b';') _ k (λ x h. (h.1, h.2)) e.name_plain

  pub entry_no_semicolon : All (λ x. ((x == b';') ≡ false) × ((x == 0) ≡ false)) (k ++ b'=' ∷ v)
  entry_no_semicolon =
      All-append (λ x. ((x == b';') ≡ false) × ((x == 0) ≡ false)) k (b'=' ∷ v) name_no_semicolon
        ((refl, refl), e.value_plain)

  -- The start of an entry, whatever its value is followed by.
  cut_entry-plain :
      (ys : List ℕ) (semicolon : Option ℕ) (len : ℤ) (after : Option (List ℕ))
      → value_end (k ++ b'=' ∷ ys) (suc (length k)) semicolon ≡ some (len, after)
      → cut_entry (k ++ b'=' ∷ ys) (length k) semicolon
        ≡ some (record { name = k; value_at = ys; value_length = len; after = after })
  unfolding cut_entry
  cut_entry-plain ys semicolon len after h =
      rw
        (
          ltrim-plain k ys e.name_starts,
          rtrim-stays (k ++ b'=' ∷ ys) (length k) (get_elem?-middle k b'=' ys),
          h,
          minus_zero (length k),
          take-front k (b'=' ∷ ys),
          drop-front k b'=' ys,
        )
        refl

  pub next_entry-plain :
      (ys : List ℕ) (n : ℕ) (semicolon : Option ℕ) (len : ℤ) (after : Option (List ℕ))
      → strlen (k ++ b'=' ∷ ys) ≡ some (suc n)
      → strchr (k ++ b'=' ∷ ys) b';' ≡ some semicolon
      → value_end (k ++ b'=' ∷ ys) (suc (length k)) semicolon ≡ some (len, after)
      → next_entry (some (k ++ b'=' ∷ ys))
        ≡ some (entry (record { name = k; value_at = ys; value_length = len; after = after }))
  unfolding next_entry split_at_equal
  next_entry-plain ys n semicolon len after h g v =
      rw
        (
          h,
          g,
          strchr-first k b'=' ys name_no_equal refl,
          cut_entry-plain ys semicolon len after v,
          suc_not_zero n,
        )
        refl
