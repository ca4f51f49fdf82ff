-- ===== src/Properties/Cut.antt =====
-- Cutting an entry out of a terminated connection string stays inside the text
-- (src/driver/cpp/ConnStringPropertyReader.h and StringFunctions.h).
use mathlib.Core.Option
use snappy_odbc.Common.{
  ℕ, zero, suc, ◌-◌, ◌<◌, ◌≡◌, refl, sym, ap, ◌∙◌, inl, inr, true, false, Option, none, some, List,
  [], ◌∷◌, arith, ◌==◌, ==_iff, Bool-cases, Option-cases, is_some, ℤ, pos, negsuc, ◌-ℤ◌, ◌==ℤ◌,
  length, get_elem?, take, drop, length-drop, leb_ℤ,
}
use snappy_odbc.Strings.{sql_nts, strlen, strchr, ltrim, rtrim}
use snappy_odbc.Properties.Reader.{
  to_text, Entry, value_end, cut_entry, Next, at_end, entry, no_equal, split_at_equal, next_entry,
}

-- A terminator lies in the text.
abbrev pub IsTerminated : List ℕ → Type 0
IsTerminated s = is_some (strlen s) ≡ true

pub some-is_some {ℓ} : {A : Type ℓ} (o : Option A) → is_some o ≡ true → (a : A) × (o ≡ some a)
some-is_some none h = cc
some-is_some (some a) h = (a, refl)

pub map-is_some {ℓ κ} :
    {A : Type ℓ} {B : Type κ} (f : A → B) (o : Option A) → is_some (Option.map f o) ≡ is_some o
map-is_some f none = refl
map-is_some f (some a) = refl

tail-IsTerminated : (c : ℕ) (s : List ℕ) → (c == 0) ≡ false → IsTerminated (c ∷ s) → IsTerminated s
unfolding strlen
tail-IsTerminated c s e h = sym (map-is_some suc (strlen s)) ∙ (rw e at h)

strlen-le : (s : List ℕ) {n : ℕ} → strlen s ≡ some n → n < length s
unfolding strlen
strlen-le [] h = cc
strlen-le (c ∷ s) {n} h = elim (Bool-cases (c == 0)) [
  | inl e ↦ ground (arith, h, e)
  | inr e ↦ elim (Option-cases (strlen s)) [
    | inl m ↦ absurd (ground (arith, h, e, m))
    | inr (k, m) ↦ ground (arith, h, e, m, strlen-le s m)
  ]
]

pub ltrim-total : (s : List ℕ) → IsTerminated s → is_some (ltrim s) ≡ true
unfolding ltrim strlen
ltrim-total [] h = cc
ltrim-total (c ∷ s) h = elim (Bool-cases (c == 0)) [
  | inl e ↦ ground (arith, e)
  | inr e ↦ ground (arith, map-is_some suc (ltrim s), ltrim-total s (tail-IsTerminated c s e h))
]

-- What strchr finds in a terminated text, for a char that is not the terminator.
record Found (s : List ℕ) (c : ℕ) (k : ℕ) : Type 0 where
  there : get_elem? s k ≡ some c
  inside : k < length s
  goes_on : IsTerminated (drop (suc k) s)

strchr-total : (s : List ℕ) (c : ℕ) → IsTerminated s → is_some (strchr s c) ≡ true
unfolding strchr strlen
strchr-total [] c h = cc
strchr-total (d ∷ s) c h = elim (Bool-cases (d == 0)) [
  | inl e ↦ rw e refl
  | inr e ↦ ground (
    arith,
    e,
    map-is_some (Option.map suc) (strchr s c),
    strchr-total s c (tail-IsTerminated d s e h),
  )
]

Found-suc :
    (d : ℕ) (s : List ℕ) (c : ℕ) (o : Option (Option ℕ)) {k : ℕ}
    → ((j : ℕ) → o ≡ some (some j) → Found s c j)
    → Option.map (Option.map suc) o ≡ some (some k)
    → Found (d ∷ s) c k
Found-suc d s c none h e = cc
Found-suc d s c (some none) h e = cc
Found-suc d s c (some (some j)) {k} h e =
    let f = h j refl in
    let next : suc j ≡ k = cc in
    rw (← next) (record { there = f.there; inside = omega (arith, f.inside); goes_on = f.goes_on })

strchr-Found :
    (s : List ℕ) (c : ℕ) {k : ℕ}
    → (c == 0) ≡ false
    → IsTerminated s
    → strchr s c ≡ some (some k)
    → Found s c k
unfolding strchr
strchr-Found [] c z t h = cc
strchr-Found (d ∷ s) c {k} z t h = elim (Bool-cases (d == 0)) [
  | inl e ↦ ground (arith, e, h, z)
  | inr e ↦ elim (Bool-cases (d == c)) [
    | inl f ↦
        let first : zero ≡ k = cc (e, f, h) in
        rw (← first) (record {
          there = ap some ((==_iff d c).0 f);
          inside = omega arith;
          goes_on = tail-IsTerminated d s e t;
        })
    | inr f ↦
        Found-suc d s c (strchr s c) (λ j m. strchr-Found s c z (tail-IsTerminated d s e t) m)
          (rw (e, f) at h)
  ]
]

pub rtrim-stays : (s : List ℕ) (k : ℕ) → get_elem? s k ≡ some b'=' → rtrim s k ≡ some k
unfolding rtrim
rtrim-stays s zero h = rw (rtrim, h) refl
rtrim-stays s (suc k) h = rw (rtrim, h) refl

-- What is left of the text, and that it is terminated.
abbrev pub size : Option (List ℕ) → ℕ
size none = 0
size (some s) = length s

abbrev pub IsFine : Option (List ℕ) → Type 0
IsFine none = Unit {0}
IsFine (some s) = IsTerminated s

to_text-total :
    (s : List ℕ) (len : ℤ)
    → IsTerminated s
    → leb_ℤ len (pos (length s)) ≡ true
    → is_some (to_text s len) ≡ true
unfolding to_text
to_text-total s (pos n) t h = ground (arith, h)
to_text-total s (negsuc n) t h = elim (Bool-cases (negsuc n ==ℤ sql_nts)) [
  | inl e ↦ let (k, m) = some-is_some (strlen s) t in rw (e, m) refl
  | inr e ↦ rw e refl
]

-- How the value of an entry ends, behind the '=' at `e`.
record Ends (s : List ℕ) (e : ℕ) (len : ℤ) (after : Option (List ℕ)) : Type 0 where
  fits : leb_ℤ len (pos (length (drop (suc e) s))) ≡ true
  fine : IsFine after
  less : size after < length s

value_end-Ends :
    (s : List ℕ) (e : ℕ) (semicolon : Option ℕ)
    → Found s b'=' e
    → ((k : ℕ) → semicolon ≡ some k → Found s b';' k)
    → (len : ℤ) × (after : Option (List ℕ)) × (value_end s (suc e) semicolon ≡ some (len, after))
      × Ends s e len after
unfolding value_end
value_end-Ends s e none f g =
    let (n, m) = some-is_some (strlen (drop (suc e) s)) f.goes_on in
    (
      pos n,
      none,
      rw m refl,
      record {
        fits = ground (arith, strlen-le (drop (suc e) s) m);
        fine = tt;
        less = omega (arith, f.inside);
      },
    )
value_end-Ends s e (some k) f g =
    let h = g k refl in
    (
      pos k -ℤ pos (suc e),
      some (drop (suc k) s),
      refl,
      record {
        fits = ground (arith, h.inside, length-drop (suc e) s);
        fine = h.goes_on;
        less = omega (arith, length-drop (suc k) s, h.inside);
      },
    )

-- An entry that was cut out can be read, and what follows it is shorter than `n`.
abbrev pub IsReady : ℕ → Next → Type 0
IsReady n at_end = Unit {0}
IsReady n no_equal = Unit {0}
IsReady n (entry x) =
    (is_some (to_text x.value_at x.value_length) ≡ true) × IsFine x.after × (size x.after < n)

cut_entry-IsReady :
    (s : List ℕ) (e : ℕ) (semicolon : Option ℕ)
    → IsTerminated s
    → Found s b'=' e
    → ((k : ℕ) → semicolon ≡ some k → Found s b';' k)
    → (x : Entry) × (cut_entry s e semicolon ≡ some x) × IsReady (length s) (entry x)
unfolding cut_entry
cut_entry-IsReady s e semicolon t f g =
    let (start, m) = some-is_some (ltrim s) (ltrim-total s t) in
    let (len, after, v, w) = value_end-Ends s e semicolon f g in
    (
      record {
        name = take (e - start) (drop start s);
        value_at = drop (suc e) s;
        value_length = len;
        after = after;
      },
      rw (m, rtrim-stays s e f.there, v) refl,
      (to_text-total (drop (suc e) s) len f.goes_on w.fits, w.fine, w.less),
    )

split_at_equal-IsReady :
    (s : List ℕ) (equal semicolon : Option ℕ)
    → IsTerminated s
    → ((k : ℕ) → equal ≡ some k → Found s b'=' k)
    → ((k : ℕ) → semicolon ≡ some k → Found s b';' k)
    → (x : Next) × (split_at_equal s equal semicolon ≡ some x) × IsReady (length s) x
unfolding split_at_equal
split_at_equal-IsReady s none semicolon t f g = (no_equal, refl, tt)
split_at_equal-IsReady s (some e) semicolon t f g =
    let (x, m, w) = cut_entry-IsReady s e semicolon t (f e refl) g in (entry x, rw m refl, w)

pub next_entry-IsReady :
    (o : Option (List ℕ)) → IsFine o → (x : Next) × (next_entry o ≡ some x) × IsReady (size o) x
unfolding next_entry
next_entry-IsReady none h = (at_end, refl, tt)
next_entry-IsReady (some s) h =
    let (n, l) = some-is_some (strlen s) h in
    let (semicolon, m) = some-is_some (strchr s b';') (strchr-total s b';' h) in
    let (equal, e) = some-is_some (strchr s b'=') (strchr-total s b'=' h) in
    elim (Bool-cases (n == 0)) [
      | inl z ↦ (at_end, rw (l, m, e, z) refl, tt)
      | inr z ↦
          let (x, q, w) =
            split_at_equal-IsReady s equal semicolon h
              (λ k p. strchr-Found s b'=' refl h (e ∙ ap some p))
              (λ k p. strchr-Found s b';' refl h (m ∙ ap some p)) in
          (x, rw (l, m, e, z) q, w)
    ]
