-- ===== src/Properties/Misplaced.antt =====
-- An entry of a connection string that has no '=', with an entry behind it that has one
-- (src/driver/cpp/ConnStringPropertyReader.h).
use snappy_odbc.Common.{
  ℕ, suc, ◌+◌, ◌-◌, ◌≡◌, ◌≢◌, refl, sym, ap, ◌∙◌, false, some, List, ◌∷◌, ◌++◌, arith, ◌==◌, pos,
  negsuc, ◌-ℤ◌, ◌==ℤ◌, All, All-append, All-map, get_elem?, length, length-append, take, drop,
}
use mathlib.Core.List.{append_assoc}
use snappy_odbc.Driver.{other_exception}
use snappy_odbc.Strings.{sql_nts, strlen, strchr, ltrim}
use snappy_odbc.Properties.{Setup}
use snappy_odbc.Properties.Cut.{rtrim-stays, ltrim-total, some-is_some}
use snappy_odbc.Properties.Plain.{strchr-first, get_elem?-middle, Avoids, drop-front, suc_not_zero}
use snappy_odbc.Properties.Printed.{strlen-prefix}
use snappy_odbc.Properties.Reader.{
  Reader, raised, to_text, Entry, value_end, cut_entry, entry, split_at_equal, next_entry,
  with_value, take_next, read_string, read,
}

-- The value's length is the distance from behind the '=' back to the semicolon.
backwards : (n m : ℕ) → pos n -ℤ pos (suc (suc (n + m))) ≡ negsuc (suc m)
backwards n m = ground arith

no_nts : (m : ℕ) → m ≢ 1 → (negsuc (suc m) ==ℤ sql_nts) ≡ false
no_nts m h = ground (arith, h)

module _ (setup : Setup) (a b ys : List ℕ) {n : ℕ} (first : All (Avoids b'=' b';') a)
    (second : All (λ x. ((x == b'=') ≡ false) × ((x == 0) ≡ false)) b)
    (ends : strlen ys ≡ some n) where
  text : List ℕ
  text = a ++ b';' ∷ (b ++ b'=' ∷ ys)

  front : List ℕ
  front = a ++ b';' ∷ b

  text-front : text ≡ front ++ b'=' ∷ ys
  unfolding text front
  text-front = sym (append_assoc a (b';' ∷ b) (b'=' ∷ ys))

  length-front : length front ≡ suc (length a + length b)
  unfolding front
  length-front = omega (arith, length-append a (b';' ∷ b))

  front-plain : All (λ x. ((x == b'=') ≡ false) × ((x == 0) ≡ false)) front
  unfolding front
  front-plain =
      All-append (λ x. ((x == b'=') ≡ false) × ((x == 0) ≡ false)) a (b';' ∷ b)
        (All-map (Avoids b'=' b';') _ a (λ x h. (h.0, h.2)) first) ((refl, refl), second)

  equal_at : strchr text b'=' ≡ some (some (length front))
  equal_at = ap (λ s. strchr s b'=') text-front ∙ strchr-first front b'=' ys front-plain refl

  semicolon_at : strchr text b';' ≡ some (some (length a))
  unfolding text
  semicolon_at =
      strchr-first a b';' (b ++ b'=' ∷ ys)
        (All-map (Avoids b'=' b';') _ a (λ x h. (h.1, h.2)) first) refl

  strlen-equal : strlen (b'=' ∷ ys) ≡ some (suc n)
  unfolding strlen
  strlen-equal = rw ends refl

  strlen-text : strlen text ≡ some (suc (length front + n))
  strlen-text =
      ap strlen text-front
      ∙ strlen-prefix front (b'=' ∷ ys) (All-map _ _ front (λ x h. h.1) front-plain) strlen-equal
      ∙ ap some (omega arith)

  value_ends :
      value_end text (suc (length front)) (some (length a))
      ≡ some (negsuc (suc (length b)), some (drop (suc (length a)) text))
  unfolding value_end
  value_ends =
      ap (λ k. some (k, some (drop (suc (length a)) text)))
        (ap (λ m. pos (length a) -ℤ pos (suc m)) length-front ∙ backwards (length a) (length b))

  equal_there : get_elem? text (length front) ≡ some b'='
  equal_there = ap (λ s. get_elem? s (length front)) text-front ∙ get_elem?-middle front b'=' ys

  found :
      (x : Entry) × (next_entry (some text) ≡ some (entry x))
      × (x.value_length ≡ negsuc (suc (length b)))
      × (x.after ≡ some (drop (suc (length a)) text))
  unfolding next_entry split_at_equal cut_entry
  found =
      let (start, m) = some-is_some (ltrim text) (ltrim-total text (rw strlen-text refl)) in
      let e : Entry = record {
        name = take (length front - start) (drop start text);
        value_at = drop (suc (length front)) text;
        value_length = negsuc (suc (length b));
        after = some (drop (suc (length a)) text);
      } in
      (
        e,
        rw
            (
              strlen-text,
              semicolon_at,
              equal_at,
              m,
              rtrim-stays text (length front) equal_there,
              value_ends,
              suc_not_zero (length front + n),
            )
            refl,
        refl,
        refl,
      )

  raises :
      (depth : ℕ) (r : Reader)
      → length b ≢ 1
      → read setup (suc depth) (record r { rest = some text; reading_dsn = false })
        ≡ some (
          record r { rest = some (drop (suc (length a)) text); reading_dsn = false },
          raised other_exception,
        )
  unfolding read read_string take_next to_text with_value
  raises depth r h = let (x, e, l, t) = found in rw (e, l, no_nts (length b) h, t) refl

-- An entry of a terminated connection string that has no equals sign, with one further on, makes
-- read throw a C++ exception, if there is not exactly one char between the semicolon behind the
-- entry and that equals sign.
pub entry_without_equal_raises :
    (setup : Setup) (a b ys : List ℕ) (n depth : ℕ) (r : Reader)
    → All (Avoids b'=' b';') a
    → All (λ x. ((x == b'=') ≡ false) × ((x == 0) ≡ false)) b
    → strlen ys ≡ some n
    → length b ≢ 1
    → read setup
        (suc depth)
        (record r { rest = some (a ++ b';' ∷ (b ++ b'=' ∷ ys)); reading_dsn = false })
      ≡ some
          (record r { rest = some (b ++ b'=' ∷ ys); reading_dsn = false }, raised other_exception)
unfolding text
entry_without_equal_raises setup a b ys n depth r first second ends h =
    raises setup a b ys {n = n} first second ends depth r h
    ∙ ap (λ s. some (record r { rest = some s; reading_dsn = false }, raised other_exception))
        (drop-front a b';' (b ++ b'=' ∷ ys))
