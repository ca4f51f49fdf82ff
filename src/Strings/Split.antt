-- ===== src/Strings/Split.antt =====
-- split (src/driver/cpp/StringFunctions.cpp): both versions cut a text at every delimiter.
use mathlib.Core.List.{append-nil, append_assoc}
use native.Mathlib.Nat.{mod-eq_of_lt}
use snappy_odbc.Common.{
  All, ℕ, zero, suc, ◌≤◌, ◌<◌, ◌≡◌, refl, sym, ap, ◌∙◌, ◌≢◌, inl, inr, true, false, ◌||◌, none,
  some, List, [], ◌∷◌, ◌++◌, arith, ◌==◌, ==_iff, if◌then◌else◌, Bool-cases, lt→ltb, ℤ, pos, negsuc,
  ◌==ℤ◌, length, length-append, take, drop,
}
use snappy_odbc.Strings.{split, split_loop, split_end, split_wide, split_wide_loop, count_down}

-- The pieces of a text between delimiters.
pub cons_head : ℕ → List (List ℕ) → List (List ℕ)
cons_head c [] = (c ∷ []) ∷ []
cons_head c (p ∷ ps) = (c ∷ p) ∷ ps

unfoldable pub pieces : ℕ → List ℕ → List (List ℕ)
unfolding cons_head
pieces d [] = [] ∷ []
pieces d (c ∷ cs) = if c == d then [] ∷ pieces d cs else cons_head c (pieces d cs)

take-append : (xs ys : List ℕ) → take (length xs) (xs ++ ys) ≡ xs
take-append [] ys = refl
take-append (x ∷ xs) ys = ap (◌∷◌ x) (take-append xs ys)

drop-append : (xs : List ℕ) (y : ℕ) (ys : List ℕ) → drop (suc (length xs)) (xs ++ y ∷ ys) ≡ ys
drop-append [] y ys = refl
drop-append (x ∷ xs) y ys = drop-append xs y ys

append_shift : (xs : List ℕ) (y : ℕ) (ys : List ℕ) → xs ++ y ∷ ys ≡ (xs ++ y ∷ []) ++ ys
append_shift [] y ys = refl
append_shift (x ∷ xs) y ys = ap (◌∷◌ x) (append_shift xs y ys)

length-snoc : (xs : List ℕ) (y : ℕ) → suc (length xs) ≡ length (xs ++ y ∷ [])
length-snoc xs y = omega (arith, length-append xs (y ∷ []))

split_end_lem :
    (buffer str : List ℕ) (result : List (List ℕ))
    → split_end (buffer ++ str) (length buffer) result ≡ result ++ buffer ∷ []
unfolding split_end
split_end_lem [] str result = refl
split_end_lem (b ∷ buffer) str result =
    rw (take-append (b ∷ buffer) str, lt→ltb 0 (length (b ∷ buffer)) (omega arith))

-- The invariant that joins the two loops: the buffer is the text from the start on.
split_loop-wide :
    (str : List ℕ) (len : ℤ) (d : ℕ) (buffer : List ℕ) (result : List (List ℕ))
    → d < 128
    → All (λ c. c < 256) str
    → split_loop str len d (buffer ++ str) (length buffer) result
      ≡ split_wide_loop str len d buffer result
unfolding split_loop split_wide_loop
split_loop-wide [] len d buffer result k h = refl
split_loop-wide (c ∷ str) len d buffer result k h = elim (Bool-cases (len ==ℤ pos 0 || c == 0)) [
  | inl stop ↦ rw (stop, split_end_lem buffer (c ∷ str) result)
  | inr go ↦ elim (Bool-cases (c == d)) [
    | inl hit ↦
        rw (go, lt→ltb d 128 k, hit, drop-append buffer c str, take-append buffer (c ∷ str))
          (split_loop-wide str (count_down len) d [] (result ++ buffer ∷ []) k h.1)
    | inr miss ↦
        rw
          (
            go,
            lt→ltb d 128 k,
            miss,
            mod-eq_of_lt h.0,
            append_shift buffer c str,
            length-snoc buffer c,
          )
          (split_loop-wide str (count_down len) d (buffer ++ c ∷ []) result k h.1)
  ]
]

-- The SQLCHAR and the SQLWCHAR version of split return the same pieces, and fault on the same
-- inputs, for every text whose units fit a byte, every length and every delimiter below 128.
pub split-split_wide :
    (str : List ℕ) (len : ℤ) (d : ℕ)
    → d < 128
    → All (λ c. c < 256) str
    → split (some str) len d ≡ split_wide (some str) len d
unfolding split split_wide
split-split_wide str len d k h = split_loop-wide str len d [] [] k h

abbrev prepend : List ℕ → List (List ℕ) → List (List ℕ)
prepend buffer [] = buffer ∷ []
prepend buffer (p ∷ ps) = (buffer ++ p) ∷ ps

prepend-pieces : (d : ℕ) (cs : List ℕ) → prepend [] (pieces d cs) ≡ pieces d cs
unfolding pieces cons_head
prepend-pieces d [] = refl
prepend-pieces d (c ∷ cs) = ground (arith, prepend-pieces d cs)

prepend-cons_head :
    (buffer : List ℕ) (c : ℕ) (ps : List (List ℕ))
    → prepend (buffer ++ c ∷ []) ps ≡ prepend buffer (cons_head c ps)
unfolding cons_head
prepend-cons_head buffer c [] = refl
prepend-cons_head buffer c (p ∷ ps) = rw (← append_shift buffer c p)

-- A text ends before the unit `x` of its memory: by the count, or by a terminator under SQL_NTS.
abbrev pub Ends : ℤ → List ℕ → ℕ → Type 0
Ends (pos n) text x = n ≡ length text
Ends (negsuc n) text x = x ≡ 0

Ends-stop : (len : ℤ) (x : ℕ) → Ends len [] x → (len ==ℤ pos 0 || x == 0) ≡ true
Ends-stop (pos n) x e = rw e
Ends-stop (negsuc n) x e = ground arith

Ends-tail :
    (len : ℤ) (c x : ℕ) (text : List ℕ)
    → Ends len (c ∷ text) x
    → c ≢ 0
    → ((len ==ℤ pos 0 || c == 0) ≡ false) × Ends (count_down len) text x
Ends-tail (pos zero) c x text e h = absurd (omega arith)
Ends-tail (pos (suc n)) c x text e h = (ground arith, omega arith)
Ends-tail (negsuc n) c x text e h = (ground arith, e)

split_wide_loop-pieces :
    (text tail : List ℕ) (x : ℕ) (len : ℤ) (d : ℕ) (buffer : List ℕ) (result : List (List ℕ))
    → All (λ c. (c ≢ 0) × (c < 256)) text
    → Ends len text x
    → split_wide_loop (text ++ x ∷ tail) len d buffer result
      ≡ some (result ++ prepend buffer (pieces d text))
unfolding split_wide_loop pieces
split_wide_loop-pieces [] tail x len d buffer result h e = rw (Ends-stop len x e, append-nil buffer)
split_wide_loop-pieces (c ∷ text) tail x len d buffer result h e =
    let (go, e') = Ends-tail len c x text e h.0.0 in
    elim (Bool-cases (c == d)) [
      | inl hit ↦ rw (
        go,
        hit,
        split_wide_loop-pieces text tail x (count_down len) d [] (result ++ buffer ∷ []) h.1 e',
        prepend-pieces d text,
        append-nil buffer,
        append_assoc result (buffer ∷ []),
      )
      | inr miss ↦ rw (
        go,
        miss,
        mod-eq_of_lt h.0.1,
        split_wide_loop-pieces text tail x (count_down len) d (buffer ++ c ∷ []) result h.1 e',
        prepend-cons_head buffer c (pieces d text),
      )
    ]

-- Joining pieces by the delimiter.
unfoldable pub join : ℕ → List (List ℕ) → List ℕ
join d [] = []
join d (p ∷ []) = p
join d (p ∷ q ∷ ps) = p ++ d ∷ join d (q ∷ ps)

join-cons_head : (d c : ℕ) (ps : List (List ℕ)) → join d (cons_head c ps) ≡ c ∷ join d ps
unfolding join cons_head
join-cons_head d c [] = refl
join-cons_head d c (p ∷ []) = refl
join-cons_head d c (p ∷ q ∷ ps) = refl

join-nil_head : (d : ℕ) (t : List ℕ) → join d ([] ∷ pieces d t) ≡ d ∷ join d (pieces d t)
unfolding join pieces cons_head
join-nil_head d [] = refl
join-nil_head d (c ∷ cs) = elim (Bool-cases (c == d)) [
  | inl hit ↦ rw hit
  | inr miss ↦ rw miss (step (pieces d cs))
]
  where
    step : (ps : List (List ℕ)) → join d ([] ∷ cons_head c ps) ≡ d ∷ join d (cons_head c ps)
    step [] = refl
    step (p ∷ ps) = refl

join-pieces : (d : ℕ) (text : List ℕ) → join d (pieces d text) ≡ text
unfolding pieces
join-pieces d [] = unfold join in refl
join-pieces d (c ∷ cs) = elim (Bool-cases (c == d)) [
  | inl hit ↦
      rw (hit, join-nil_head d cs, join-pieces d cs) (ap (λ e. e ∷ cs) (sym ((==_iff c d).0 hit)))
  | inr miss ↦ rw (miss, join-cons_head d c (pieces d cs), join-pieces d cs)
]

cons_head-free :
    (d c : ℕ) (ps : List (List ℕ))
    → c ≢ d
    → All (All (λ u. u ≢ d)) ps
    → All (All (λ u. u ≢ d)) (cons_head c ps)
unfolding cons_head
cons_head-free d c [] h a = ((h, tt), tt)
cons_head-free d c (p ∷ ps) h a = ((h, a.0), a.1)

pieces-free : (d : ℕ) (text : List ℕ) → All (All (λ u. u ≢ d)) (pieces d text)
unfolding pieces
pieces-free d [] = (tt, tt)
pieces-free d (c ∷ cs) = elim (Bool-cases (c == d)) [
  | inl hit ↦ rw hit (tt, pieces-free d cs)
  | inr miss ↦ rw miss (cons_head-free d c (pieces d cs) (ground arith) (pieces-free d cs))
]

-- For a text of bytes with no terminator inside, ended by its count or by a terminator, in memory
-- that goes on for one unit more, and a delimiter below 128, both versions of split return the
-- same list, its parts hold no delimiter, and joining them by the delimiter gives the text back.
pub split_round_trip :
    (text tail : List ℕ) (x : ℕ) (len : ℤ) (d : ℕ)
    → d < 128
    → All (λ c. (c ≢ 0) × (c < 256)) text
    → All (λ c. c < 256) (text ++ x ∷ tail)
    → Ends len text x
    → (ps : List (List ℕ)) × (split (some (text ++ x ∷ tail)) len d ≡ some ps)
      × (split_wide (some (text ++ x ∷ tail)) len d ≡ some ps)
      × All (All (λ u. u ≢ d)) ps
      × (join d ps ≡ text)
unfolding split_wide
split_round_trip text tail x len d k h bytes e = (
  pieces d text,
  split-split_wide (text ++ x ∷ tail) len d k bytes ∙ cut,
  cut,
  pieces-free d text,
  join-pieces d text,
)
  where
    cut : split_wide_loop (text ++ x ∷ tail) len d [] [] ≡ some (pieces d text)
    cut = rw (split_wide_loop-pieces text tail x len d [] [] h e, prepend-pieces d text)

count_goes_on : (len c : ℕ) → c ≢ 0 → (pos (suc len) ==ℤ pos 0 || c == 0) ≡ false
count_goes_on len c h = ground arith

split_wide_loop_overread :
    (text : List ℕ) (len d : ℕ) (buffer : List ℕ) (result : List (List ℕ))
    → All (λ c. c ≢ 0) text
    → length text ≤ len
    → split_wide_loop text (pos len) d buffer result ≡ none
unfolding split_wide_loop
split_wide_loop_overread [] len d buffer result h e = refl
split_wide_loop_overread (c ∷ text) zero d buffer result h e = absurd (omega arith)
split_wide_loop_overread (c ∷ text) (suc len) d buffer result h e =
    rw (count_goes_on len c h.0) (split_wide_loop_overread text len d _ _ h.1 (omega arith))

split_loop_overread :
    (text : List ℕ) (len d : ℕ) (start : List ℕ) (size : ℕ) (result : List (List ℕ))
    → All (λ c. c ≢ 0) text
    → length text ≤ len
    → split_loop text (pos len) d start size result ≡ none
unfolding split_loop
split_loop_overread [] len d start size result h e = refl
split_loop_overread (c ∷ text) zero d start size result h e = absurd (omega arith)
split_loop_overread (c ∷ text) (suc len) d start size result h e =
    rw (count_goes_on len c h.0) (split_loop_overread text len d _ _ _ h.1 (omega arith))

-- Given a count, both versions of split read the unit behind the counted text: on memory that
-- holds just the counted text, and no terminator in it, they access memory out of bounds.
pub split_overread :
    (text : List ℕ) (d : ℕ)
    → All (λ c. c < 256) text
    → All (λ c. c ≢ 0) text
    → (split (some text) (pos (length text)) d ≡ none)
      × (split_wide (some text) (pos (length text)) d ≡ none)
unfolding split split_wide
split_overread text d bytes h = (
  split_loop_overread text (length text) d text 0 [] h (omega arith),
  split_wide_loop_overread text (length text) d [] [] h (omega arith),
)
