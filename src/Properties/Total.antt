-- ===== src/Properties/Total.antt =====
-- Reading a connection string comes to an end and stays inside the text
-- (src/driver/cpp/ConnStringPropertyReader.h), where the text is terminated.

use snappy_odbc.Common.{
  ℕ, zero, suc, ◌⊎◌, ◌+◌, ◌≤◌, ◌<◌, ◌≡◌, refl, ap, ◌∙◌, inl, inr, true, false, Option, none, some,
  List, [], ◌∷◌, ◌++◌, arith, ◌==◌, ==_iff, if◌then◌else◌, Bool-cases, if_yes, if_no, is_some, ℤ,
  pos, negsuc, length, get_elem?, take, length-append, length-take,
}
use snappy_odbc.Driver.{invalid_connection_property_value, other_exception}
use snappy_odbc.Strings.{strlen}
use snappy_odbc.Properties.{Setup}
use snappy_odbc.Properties.Reader.{
  Reader, Answer, property, finished, failure, raised, next_name, read_ini, Text, chars, no_length,
  to_text, Next, at_end, entry, no_equal, names_dsn, with_value, take_next, read_string, after_ini,
  read, init_reader,
}
use snappy_odbc.Driver.{error, SqlError}
use snappy_odbc.Properties.Collect.{
  Collected, Step, go, stop, take_property, Ending, returns, next_round, read_loop, read_properties,
  read_credentials, with_credentials,
}
use snappy_odbc.Properties.Cut.{
  some-is_some, map-is_some, size, IsFine, IsTerminated, IsReady, next_entry-IsReady,
}

-- What is left to read.
abbrev pub left : Reader → ℕ
left r = size r.rest + length r.names

-- After a property less is left than `n`, and the text is still terminated.
abbrev pub IsProgress : ℕ → Reader × Answer → Type 0
IsProgress n (r, property name value) = IsFine r.rest × (left r < n)
IsProgress n (r, finished) = Unit {0}
IsProgress n (r, failure e) = Unit {0}
IsProgress n (r, raised t) = Unit {0}

IsProgress-mono : (n m : ℕ) (p : Reader × Answer) → n ≤ m → IsProgress n p → IsProgress m p
IsProgress-mono n m (r, property name value) h q = (q.0, omega (arith, q.1))
IsProgress-mono n m (r, finished) h q = tt
IsProgress-mono n m (r, failure e) h q = tt
IsProgress-mono n m (r, raised t) h q = tt

abbrev Answers : (Reader → Option (Reader × Answer)) → Reader → Type 0
Answers reads r = (p : Reader × Answer) × (reads r ≡ some p) × IsProgress (left r) p

module _ (setup : Setup) (again : Reader → Option (Reader × Answer)) (bound : ℕ)
    (recurs : (r : Reader) → IsFine r.rest → size r.rest < bound → Answers again r) where
  with_value-total :
      (r : Reader) (name : List ℕ) (t : Text) (n : ℕ)
      → IsFine r.rest
      → size r.rest < bound
      → left r < n
      → (p : Reader × Answer) × (with_value setup again r name t ≡ some p) × IsProgress n p
  unfolding with_value
  with_value-total r name no_length n f b h = ((r, raised other_exception), refl, tt)
  with_value-total r name (chars value) n f b h = elim (Bool-cases (names_dsn name value)) [
    | inl e ↦
        let r' : Reader = record r { dsn = value; reading_dsn = true } in
        let (p, m, q) = recurs r' f b in (p, rw e m, IsProgress-mono (left r') n p (omega arith) q)
    | inr e ↦ ((r, property name value), rw e refl, (f, h))
  ]

  take_next-total :
      (r : Reader) (x : Next)
      → IsFine r.rest
      → size r.rest ≤ bound
      → IsReady (size r.rest) x
      → (p : Reader × Answer) × (take_next setup again r x ≡ some p) × IsProgress (left r) p
  unfolding take_next
  take_next-total r at_end f b w = ((r, finished), refl, tt)
  take_next-total r no_equal f b w = ((r, failure invalid_connection_property_value), refl, tt)
  take_next-total r (entry x) f b (readable, fine, less) =
      let (t, m) = some-is_some (to_text x.value_at x.value_length) readable in
      let (p, e, q) =
        with_value-total (record r { rest = x.after }) x.name t (left r) fine (omega arith)
          (omega arith) in
      (p, rw m e, q)

  read_string-total :
      (r : Reader) → IsFine r.rest → size r.rest ≤ bound → Answers (read_string setup again) r
  unfolding read_string
  read_string-total r f b =
      let (x, m, w) = next_entry-IsReady r.rest f in
      let (p, e, q) = take_next-total r x f b w in (p, rw m e, q)

List-cases {ℓ} : {A : Type ℓ} (xs : List A) → (xs ≡ []) ⊎ ((x : A) × (ys : List A) × (xs ≡ x ∷ ys))
List-cases [] = inl refl
List-cases (x ∷ ys) = inr (x, ys, refl)

-- The names that are read from the ini file are taken off the list.
next_name-less :
    (profile : List ℕ → List ℕ) (ns : List (List ℕ))
    → (next_name profile ns ≡ ([], finished))
      ⊎ ((name value : List ℕ) × (rest : List (List ℕ)) × (next_name profile ns
            ≡ (rest, property name value))
          × (length rest < length ns))
unfolding next_name
next_name-less profile [] = inl refl
next_name-less profile (n ∷ ns) = elim (List-cases (profile n)) [
  | inl e ↦ elim (next_name-less profile ns) [
    | inl q ↦ inl (rw (next_name, e) q)
    | inr (name, value, rest, q, l) ↦ inr (name, value, rest, rw (next_name, e) q, omega arith)
  ]
  | inr (c, cs, e) ↦ inr (n, c ∷ cs, ns, rw (next_name, e) refl, omega arith)
]

module _ (setup : Setup) where
  after_ini-total :
      (again : Reader → Option (Reader × Answer)) (r : Reader)
      → ((r' : Reader) → IsFine r'.rest → size r'.rest < size r.rest → Answers again r')
      → IsFine r.rest
      → (p : Reader × Answer) × (after_ini setup again (read_ini setup r) ≡ some p)
        × IsProgress (left r) p
  unfolding read_ini after_ini
  after_ini-total again r h f = elim (next_name-less (setup.profile r.dsn) r.names) [
    | inl q ↦
        let r' : Reader = record r { names = []; reading_dsn = false } in
        let (p, e, w) = read_string-total setup again (size r.rest) h r' f (omega arith) in
        (p, rw q e, IsProgress-mono (left r') (left r) p (omega arith) w)
    | inr (name, value, rest, q, l) ↦
        ((record r { names = rest }, property name value), rw q refl, (f, omega arith))
  ]

  -- Fuel above the length of the text is enough for one call, which faults nowhere.
  pub read-total : (f : ℕ) (r : Reader) → IsFine r.rest → size r.rest < f → Answers (read setup f) r
  unfolding read
  read-total zero r fine h = absurd (omega arith)
  read-total (suc f) r fine h =
      let again : (r' : Reader)
          → IsFine r'.rest
          → size r'.rest < size r.rest
          → Answers (read setup f) r' =
        λ r' g l. read-total f r' g (omega arith) in
      elim (Bool-cases r.reading_dsn) [
        | inl e ↦
            let (p, q, w) = after_ini-total (read setup f) r again fine in
            (p, if_yes _ _ _ e ∙ q, w)
        | inr e ↦
            let (p, q, w) =
              read_string-total setup (read setup f) (size r.rest) again r fine (omega arith) in
            (p, if_no _ _ _ e ∙ q, w)
      ]

module _ (setup : Setup) where
  next_round-total :
      (rest : Reader → Collected → Option (Reader × Collected × Ending)) (c : Collected)
      (p : Reader × Answer) (n : ℕ)
      → IsProgress n p
      → ((r : Reader) (c : Collected) → IsFine r.rest → left r < n → is_some (rest r c) ≡ true)
      → is_some (next_round setup rest c p) ≡ true
  unfolding next_round
  next_round-total rest c (r, finished) n q h = refl
  next_round-total rest c (r, failure e) n q h = refl
  next_round-total rest c (r, raised t) n q h = refl
  next_round-total rest c (r, property name value) n q h = after (take_property setup name value c)
    where
      after :
          (s : Step)
          → is_some (elim s as (λ _. Option (Reader × Collected × Ending)) [
            | go c' ↦ rest r c'
            | stop c' ↦ some (r, c', returns error)
          ])
            ≡ true
      after (go c') = h r c' q.0 q.1
      after (stop c') = refl

  read_loop-total :
      (depth fuel : ℕ) (r : Reader) (c : Collected)
      → IsFine r.rest
      → left r < depth
      → left r < fuel
      → is_some (read_loop setup (read setup depth) fuel r c) ≡ true
  unfolding read_loop
  read_loop-total depth zero r c f d h = absurd (omega arith)
  read_loop-total depth (suc fuel) r c f d h =
      let (p, e, q) = read-total setup depth r f (omega arith) in
      rw e (
        next_round-total (read_loop setup (read setup depth) fuel) c p (left r) q
          (λ r' c' g l. read_loop-total depth fuel r' c' g (omega arith) (omega arith)))

-- A counted text of which the next unit can be read, or a terminated one with SQL_NTS.
abbrev pub IsText : List ℕ → ℤ → Type 0
IsText text (pos n) = n < length text
IsText text (negsuc n) = (n ≡ 2) × IsTerminated text

terminated : (text : List ℕ) (n : ℕ) → IsTerminated (take n text ++ 0 ∷ [])
unfolding strlen
terminated text zero = refl
terminated [] (suc n) = refl
terminated (c ∷ text) (suc n) = elim (Bool-cases (c == 0)) [
  | inl e ↦ rw e refl
  | inr e ↦ rw e (map-is_some suc (strlen (take n text ++ 0 ∷ [])) ∙ terminated text n)
]

zero-IsTerminated : (text : List ℕ) (n : ℕ) → get_elem? text n ≡ some 0 → IsTerminated text
unfolding strlen
zero-IsTerminated [] n h = cc
zero-IsTerminated (c ∷ text) zero h = ground (arith, h)
zero-IsTerminated (c ∷ text) (suc n) h = elim (Bool-cases (c == 0)) [
  | inl e ↦ rw e refl
  | inr e ↦ rw e (map-is_some suc (strlen text) ∙ zero-IsTerminated text n h)
]

get_elem?-lt {ℓ} :
    {A : Type ℓ} (xs : List A) (n : ℕ) → n < length xs → (x : A) × (get_elem? xs n ≡ some x)
get_elem?-lt [] n h = absurd (omega arith)
get_elem?-lt (x ∷ xs) zero h = (x, refl)
get_elem?-lt (x ∷ xs) (suc n) h = get_elem?-lt xs n (omega arith)

length-closed : (text : List ℕ) (n : ℕ) → length (take n text ++ 0 ∷ []) ≤ length text + 1
length-closed text n = omega (arith, length-append (take n text) (0 ∷ []), length-take n text)

init_reader-IsFine :
    (text : List ℕ) (len : ℤ) (names : List (List ℕ))
    → IsText text len
    → (r : Reader) × (init_reader text len names ≡ some r)
      × IsFine r.rest
      × (left r ≤ length text + 1 + length names)
unfolding init_reader
init_reader-IsFine text (pos n) names h =
    let (c, e) = get_elem?-lt text n h in
    let whole : Reader = record {
      rest = some (if c == 0 then text else take n text ++ 0 ∷ []);
      names = names;
      dsn = [];
      reading_dsn = false;
    } in
    (whole, rw e refl, (closed c e).0, (closed c e).1)
  where
    closed :
        (c : ℕ)
        → get_elem? text n ≡ some c
        → IsTerminated (if c == 0 then text else take n text ++ 0 ∷ [])
          × (length (if c == 0 then text else take n text ++ 0 ∷ []) + length names
              ≤ length text + 1 + length names)
    closed c e = elim (Bool-cases (c == 0)) [
      | inl z ↦ rw z (zero-IsTerminated text n (e ∙ ap some ((==_iff c 0).0 z)), omega arith)
      | inr z ↦ rw z (terminated text n, omega (arith, length-closed text n))
    ]
init_reader-IsFine text (negsuc n) names (e, t) =
    let whole : Reader = record {
      rest = some text;
      names = names;
      dsn = [];
      reading_dsn = false;
    } in
    (whole, rw e refl, t, omega arith)

module _ (setup : Setup) where
  -- Reading a connection string comes to an end, with no access outside of the string, for a
  -- terminated text with SQL_NTS and for a counted text with a readable unit behind it: as many
  -- rounds and nested calls of read as the text and the list of property names are long, and two
  -- more, are enough, whatever the ini file and the key table hold.
  pub read_properties_ends :
      (text : List ℕ) (len : ℤ) (names : List (List ℕ)) (fuel : ℕ) (before : Option SqlError)
      → IsText text len
      → length text + 1 + length names < fuel
      → (r : Reader) × (init_reader text len names ≡ some r)
        × (is_some (read_properties setup (read setup fuel) fuel r none none before) ≡ true)
  unfolding read_properties read_credentials with_credentials
  read_properties_ends text len names fuel before h enough =
      let (r, e, f, l) = init_reader-IsFine text len names h in
      (r, e, read_loop-total setup fuel fuel r _ f (omega arith) (omega arith))
