-- ===== src/Properties/Printed.antt =====
-- The connection string that connect prints, read again (src/driver/cpp/SnappyConnection.cpp and
-- ConnStringPropertyReader.h).
use mathlib.Core.List.{append_assoc}
use snappy_odbc.Common.{
  ℕ, zero, suc, ◌+◌, ◌<◌, ◌≡◌, refl, sym, ap, ◌∙◌, true, false, Option, none, some, List, [], ◌∷◌,
  ◌++◌, arith, ◌==◌, leb, if_yes, ℤ, pos, All, All-map, length, length-append,
}
use snappy_odbc.Driver.{error, SqlError}
use snappy_odbc.Strings.{sql_nts, strlen, strchr}
use snappy_odbc.Connecting.Attach.{connection_string, append_properties, to_string}
use snappy_odbc.Properties.{Setup, codes}
use snappy_odbc.Properties.Collect.{
  Collected, nothing_collected, Step, go, stop, take_property, finish_properties, Ending, returns,
  next_round, read_loop, read_properties, read_credentials, with_credentials,
}
use snappy_odbc.Properties.Reader.{
  Reader, property, finished, chars, to_text, value_end, entry, split_at_equal, next_entry,
  names_dsn, with_value, take_next, read_string, read, init_reader,
}
use snappy_odbc.Properties.Plain.{
  strchr-first, strchr-absent, strlen-closed, take-front, drop-front, gap, entry_no_semicolon,
  next_entry-plain, IsEntry,
}

-- Entries as connect prints them, with the terminator.
unfoldable pub printed : List (List ℕ × List ℕ) → List ℕ
printed [] = 0 ∷ []
printed ((k, v) ∷ []) = k ++ b'=' ∷ (v ++ 0 ∷ [])
printed ((k, v) ∷ e ∷ es) = k ++ b'=' ∷ (v ++ b';' ∷ printed (e ∷ es))

abbrev pub AreEntries : List (List ℕ × List ℕ) → Type 0
AreEntries [] = Unit {0}
AreEntries ((k, v) ∷ es) = IsEntry k v × AreEntries es

pub strlen-prefix :
    (xs ys : List ℕ) {n : ℕ}
    → All (λ x. (x == 0) ≡ false) xs
    → strlen ys ≡ some n
    → strlen (xs ++ ys) ≡ some (length xs + n)
unfolding strlen
strlen-prefix [] ys {n} h e = e ∙ ap some (omega arith)
strlen-prefix (x ∷ xs) ys {n} h e = rw (h.0, strlen-prefix xs ys h.1 e) (ap some (omega arith))

module _ (k v : List ℕ) (e : IsEntry k v) where
  no_terminator : All (λ x. (x == 0) ≡ false) (k ++ b'=' ∷ v)
  no_terminator =
      All-map (λ x. ((x == b';') ≡ false) × ((x == 0) ≡ false)) _ (k ++ b'=' ∷ v) (λ x h. h.1)
        (entry_no_semicolon k v e)

  regroup : (ys : List ℕ) → k ++ b'=' ∷ (v ++ ys) ≡ (k ++ b'=' ∷ v) ++ ys
  regroup ys = sym (append_assoc k (b'=' ∷ v) ys)

  length_entry : length (k ++ b'=' ∷ v) ≡ suc (length k + length v)
  length_entry = omega (arith, length-append k (b'=' ∷ v))

  strlen-entry :
      (ys : List ℕ) {n : ℕ}
      → strlen ys ≡ some n
      → strlen (k ++ b'=' ∷ (v ++ ys)) ≡ some (suc (length k + length v + n))
  strlen-entry ys {n} h =
      ap strlen (regroup ys)
      ∙ strlen-prefix (k ++ b'=' ∷ v) ys no_terminator h
      ∙ ap some (omega (arith, length_entry))

  strlen-semicolon :
      (tail : List ℕ) {n : ℕ} → strlen tail ≡ some n → strlen (b';' ∷ tail) ≡ some (suc n)
  unfolding strlen
  strlen-semicolon tail h = rw h refl

  -- An entry with others behind it.
  middle_entry :
      (tail : List ℕ) {n : ℕ}
      → strlen tail ≡ some n
      → next_entry (some (k ++ b'=' ∷ (v ++ b';' ∷ tail)))
        ≡ some (
            entry (record {
              name = k;
              value_at = v ++ b';' ∷ tail;
              value_length = pos (length v);
              after = some tail;
            }))
  unfolding value_end
  middle_entry tail {n} t =
      next_entry-plain k v e (v ++ b';' ∷ tail) (length k + length v + suc n)
        (some (length (k ++ b'=' ∷ v))) (pos (length v)) (some tail)
        (strlen-entry (b';' ∷ tail) (strlen-semicolon tail t))
        (ap (λ s. strchr s b';') (regroup (b';' ∷ tail))
          ∙ strchr-first (k ++ b'=' ∷ v) b';' tail (entry_no_semicolon k v e) refl)
        ends
    where
      ends :
          value_end
            (k ++ b'=' ∷ (v ++ b';' ∷ tail))
            (suc (length k))
            (some (length (k ++ b'=' ∷ v)))
          ≡ some (pos (length v), some tail)
      ends =
          rw (regroup (b';' ∷ tail), drop-front (k ++ b'=' ∷ v) b';' tail, length_entry)
            (ap (λ n. some (n, some tail)) (gap (length k) (length v)))

  last_entry :
      next_entry (some (k ++ b'=' ∷ (v ++ 0 ∷ [])))
      ≡ some (
          entry (record {
            name = k;
            value_at = v ++ 0 ∷ [];
            value_length = pos (length v);
            after = none;
          }))
  unfolding value_end
  last_entry =
      next_entry-plain k v e (v ++ 0 ∷ []) (length k + length v + 0) none (pos (length v)) none
        (strlen-entry (0 ∷ []) (strlen-closed [] tt))
        (ap (λ s. strchr s b';') (regroup (0 ∷ []))
          ∙ strchr-absent (k ++ b'=' ∷ v) b';' (entry_no_semicolon k v e) refl)
        ends
    where
      ends :
          value_end (k ++ b'=' ∷ (v ++ 0 ∷ [])) (suc (length k)) none ≡ some (pos (length v), none)
      ends =
          rw
            (
              drop-front k b'=' (v ++ 0 ∷ []),
              strlen-closed v (All-map _ _ v (λ x h. h.1) e.value_plain),
            )
            refl

fits : (v ys : List ℕ) → leb (length v) (length (v ++ ys)) ≡ true
fits v ys = ground (arith, length-append v ys)

to_text-front : (v ys : List ℕ) → to_text (v ++ ys) (pos (length v)) ≡ some (chars v)
unfolding to_text
to_text-front v ys =
    rw (take-front v ys) (if_yes (leb (length v) (length (v ++ ys))) _ _ (fits v ys))

-- What readProperties makes of properties that are handed to it one by one.
unfoldable pub sort_all : Setup → List (List ℕ × List ℕ) → Collected → Collected × Ending
sort_all setup [] c = (finish_properties setup c, returns (finish_properties setup c).result)
sort_all setup ((k, v) ∷ es) c = elim (take_property setup k v c) [
  | go c' ↦ sort_all setup es c'
  | stop c' ↦ (c', returns error)
]

strlen-printed :
    (es : List (List ℕ × List ℕ)) → AreEntries es → (n : ℕ) × (strlen (printed es) ≡ some n)
unfolding printed
strlen-printed [] h = (0, strlen-closed [] tt)
strlen-printed ((k, v) ∷ []) h =
    (suc (length k + length v + 0), strlen-entry k v h.0 (0 ∷ []) (strlen-closed [] tt))
strlen-printed ((k, v) ∷ e ∷ es) h =
    let (n, q) = strlen-printed (e ∷ es) h.1 in
    (
      suc (length k + length v + suc n),
      strlen-entry k v h.0 (b';' ∷ printed (e ∷ es))
          (strlen-semicolon k v h.0 (printed (e ∷ es)) q),
    )

abbrev at_text : Reader → List ℕ → Reader
at_text r s = record r { rest = some s; reading_dsn = false }

module _ (setup : Setup) (depth : ℕ) where
  read-entry :
      (r : Reader) (s k v ys : List ℕ) (after : Option (List ℕ))
      → next_entry (some s)
        ≡ some (
            entry (record {
              name = k;
              value_at = v ++ ys;
              value_length = pos (length v);
              after = after;
            }))
      → names_dsn k v ≡ false
      → read setup (suc depth) (at_text r s)
        ≡ some (record r { rest = after; reading_dsn = false }, property k v)
  unfolding read read_string take_next with_value
  read-entry r s k v ys after h d = rw (h, to_text-front v ys, d) refl

  read-end :
      (r : Reader)
      → read setup (suc depth) (record r { rest = none; reading_dsn = false })
        ≡ some (record r { rest = none; reading_dsn = false }, finished)
  unfolding read read_string take_next next_entry
  read-end r = refl

  -- The loop and the sorting take one step together.
  after_property :
      (rest : Reader → Collected → Option (Reader × Collected × Ending)) (r : Reader) (k v : List ℕ)
      (es : List (List ℕ × List ℕ)) (c : Collected)
      → ((c' : Collected)
          → (r' : Reader) × (rest r c'
              ≡ some (r', (sort_all setup es c').0, (sort_all setup es c').1))
            × (r'.dsn ≡ r.dsn))
      → (r' : Reader) × (next_round setup rest c (r, property k v)
          ≡ some (r', (sort_all setup ((k, v) ∷ es) c).0, (sort_all setup ((k, v) ∷ es) c).1))
        × (r'.dsn ≡ r.dsn)
  unfolding next_round sort_all
  after_property rest r k v es c h = after (take_property setup k v c)
    where
      sorted : Step → Collected × Ending
      sorted s = elim s [ go c' ↦ sort_all setup es c' | stop c' ↦ (c', returns error) ]

      after :
          (s : Step)
          → (r' : Reader) × (elim s as (λ _. Option (Reader × Collected × Ending)) [
            | go c' ↦ rest r c'
            | stop c' ↦ some (r, c', returns error)
          ]
              ≡ some (r', (sorted s).0, (sorted s).1))
            × (r'.dsn ≡ r.dsn)
      after (go c') = h c'
      after (stop c') = (r, refl, refl)

  loop_end :
      (fuel : ℕ) (r : Reader) (c : Collected)
      → 0 < fuel
      → read_loop setup
          (read setup (suc depth))
          fuel
          (record r { rest = none; reading_dsn = false })
          c
        ≡ some (
          record r { rest = none; reading_dsn = false },
          (sort_all setup [] c).0,
          (sort_all setup [] c).1,
        )
  unfolding read_loop next_round sort_all
  loop_end zero r c h = absurd (omega arith)
  loop_end (suc f) r c h = rw (read-end r) refl

  next_round-end :
      (r : Reader) (c : Collected)
      (rest : Reader → Collected → Option (Reader × Collected × Ending))
      → next_round setup rest c (r, finished)
        ≡ some (r, (sort_all setup [] c).0, (sort_all setup [] c).1)
  unfolding next_round sort_all
  next_round-end r c rest = refl

  read-empty :
      (r : Reader)
      → read setup (suc depth) (at_text r (printed [])) ≡ some (at_text r (printed []), finished)
  unfolding read read_string take_next next_entry printed strlen strchr split_at_equal
  read-empty r = refl

  loop_printed :
      (fuel : ℕ) (es : List (List ℕ × List ℕ)) (r : Reader) (c : Collected)
      → AreEntries es
      → length es < fuel
      → (r' : Reader) × (read_loop setup (read setup (suc depth)) fuel (at_text r (printed es)) c
          ≡ some (r', (sort_all setup es c).0, (sort_all setup es c).1))
        × (r'.dsn ≡ r.dsn)
  unfolding read_loop printed
  loop_printed zero es r c h l = absurd (omega arith)
  loop_printed (suc f) [] r c h l = (
    at_text r (printed []),
    rw (read-empty r)
        (next_round-end (at_text r (printed [])) c (read_loop setup (read setup (suc depth)) f)),
    refl,
  )
  loop_printed (suc f) ((k, v) ∷ []) r c h l =
      let r₁ : Reader = record r { rest = none; reading_dsn = false } in
      let e =
        read-entry r (printed ((k, v) ∷ [])) k v (0 ∷ []) none (last_entry k v h.0) h.0.no_dsn in
      let (r', q, d) =
        after_property (read_loop setup (read setup (suc depth)) f) r₁ k v [] c
          (λ c'. (r₁, loop_end f r c' (omega arith), refl)) in
      (r', rw e q, d)
  loop_printed (suc f) ((k, v) ∷ x ∷ es) r c h l =
      let (n, t) = strlen-printed (x ∷ es) h.1 in
      let e =
        read-entry r (printed ((k, v) ∷ x ∷ es)) k v (b';' ∷ printed (x ∷ es))
          (some (printed (x ∷ es))) (middle_entry k v h.0 (printed (x ∷ es)) t) h.0.no_dsn in
      let (r', q, d) =
        after_property (read_loop setup (read setup (suc depth)) f) (at_text r (printed (x ∷ es))) k
          v (x ∷ es) c (λ c'. loop_printed f (x ∷ es) r c' h.1 (omega arith)) in
      (r', rw e q, d)

after_entry : List (List ℕ × List ℕ) → List ℕ
after_entry [] = 0 ∷ []
after_entry (e ∷ es) = b';' ∷ printed (e ∷ es)

printed-cons :
    (k v : List ℕ) (es : List (List ℕ × List ℕ))
    → printed ((k, v) ∷ es) ≡ k ++ b'=' ∷ (v ++ after_entry es)
unfolding printed after_entry
printed-cons k v [] = refl
printed-cons k v (e ∷ es) = refl

append_properties-after :
    (es : List (List ℕ × List ℕ)) → append_properties es ++ 0 ∷ [] ≡ after_entry es
unfolding append_properties after_entry
append_properties-after [] = refl
append_properties-after ((k, v) ∷ es) = ap (◌∷◌ b';') (
    append_assoc k (b'=' ∷ (v ++ append_properties es)) (0 ∷ [])
    ∙ ap (λ t. k ++ b'=' ∷ t)
        (append_assoc v (append_properties es) (0 ∷ [])
          ∙ ap (λ t. v ++ t) (append_properties-after es))
    ∙ sym (printed-cons k v es))

-- The entries that connect prints.
abbrev pub printed_entries : List ℕ → ℤ → List (List ℕ × List ℕ) → List (List ℕ × List ℕ)
printed_entries server port props =
    (codes "server", server) ∷ (codes "port", to_string port) ∷ props

connection_string-printed :
    (server : List ℕ) (port : ℤ) (props : List (List ℕ × List ℕ))
    → connection_string server port props ++ 0 ∷ [] ≡ printed (printed_entries server port props)
unfolding connection_string printed
connection_string-printed server port props =
    ap (λ t. codes "server" ++ b'=' ∷ t)
      (append_assoc server _ (0 ∷ [])
        ∙ ap (λ t. server ++ b';' ∷ (codes "port" ++ b'=' ∷ t))
            (append_assoc (to_string port) (append_properties props) (0 ∷ [])
              ∙ ap (λ t. to_string port ++ t) (append_properties-after props))
        ∙ ap (λ t. server ++ b';' ∷ t) (sym (printed-cons (codes "port") (to_string port) props)))

module _ (setup : Setup) where
  -- Reading the printed connection string collects its entries.
  pub printed_string_read_back :
      (server : List ℕ) (port : ℤ) (props : List (List ℕ × List ℕ)) (names : List (List ℕ))
      (depth fuel : ℕ) (before : Option SqlError)
      → AreEntries (printed_entries server port props)
      → length props + 2 < fuel
      → (r r' : Reader) × (init_reader (connection_string server port props ++ 0 ∷ []) sql_nts names
          ≡ some r)
        × (read_properties setup (read setup (suc depth)) fuel r none none before
            ≡ some (
              r',
              (sort_all setup (printed_entries server port props) (nothing_collected before)).0,
              (sort_all setup (printed_entries server port props) (nothing_collected before)).1,
            ))
        × (r'.dsn ≡ [])
  unfolding init_reader read_properties read_credentials with_credentials
  printed_string_read_back server port props names depth fuel before h l =
      let es = printed_entries server port props in
      let start : Reader = record {
        rest = some (printed es);
        names = names;
        dsn = [];
        reading_dsn = false;
      } in
      let (r', q, d) =
        loop_printed setup depth fuel es start (nothing_collected before) h (omega arith) in
      (start, r', rw (connection_string-printed server port props) refl, q, d)
