-- ===== src/Diagnostics/Records.antt =====
-- Reading the diagnostic records of a handle one after another with SQLGetDiagRec, as
-- handleErrorT of src/driver/cpp/SnappyEnvironment.cpp answers.
use mathlib.Core.List.{append_assoc, append-nil}
use mathlib.Core.Path.{subst}
use snappy_odbc.Common.{
  ℕ, zero, suc, ◌-◌, ◌≤◌, ◌≡◌, refl, ap, sym, ◌∙◌, if_yes, if_no, Bool, true, false, Option, none,
  some, List, [], ◌∷◌, ◌++◌, ◌>>=◌, ltb_ℤ, leb_ℤ, if◌then◌else◌, ℤ, pos, negsuc, ◌-ℤ◌, ◌≤ℤ◌, length,
  get_elem?, All, map, arith,
}
use snappy_odbc.Strings.{max_ℤ, restrict_length, sqlsmallint, copy_string}
use snappy_odbc.Strings.Copy.{bounded_copy, copy_string_counted}
use snappy_odbc.Driver.{
  SqlReturn, success, success_with_info, no_data, invalid_handle, is_succeeded, HandleType,
}
use snappy_odbc.Parameters.Ready.{length-snoc}
use snappy_odbc.Parameters.Contents.{get_elem?-append}
use snappy_odbc.Diagnostics.{
  Exceptions, Errors, FoundRecord, found, refused, max_message_length, is_known, record_of,
  get_exception_record, DiagRec, Asked, copy_state, copy_message, store_text, handle_error,
}

-- The error of which a handle tells: the global one, else its own.
abbrev pub current_error : {E : Type 0} → Errors E → Option E
current_error s = elim s.global [ some e ↦ some e | none ↦ if s.given then s.last else none ]

abbrev pub every_argument : Asked
every_argument = record { wants_native = true; wants_length = true }

-- The arguments of a call: a buffer of six for the state, and one for the message.
abbrev pub arguments : List ℕ → List ℕ → DiagRec
arguments state_buffer text_buffer = record {
  sql_state = some state_buffer;
  native_error = none;
  message_text = some text_buffer;
  text_length = none;
}

abbrev of_element : {E : Type 0} → Option (E × List ℕ) → FoundRecord E
of_element none = refused no_data
of_element (some r) = found r.0 r.1

-- The record of a call that succeeds, before those of the calls after it; else the code.
abbrev pub next_record :
    Option (List DiagRec × SqlReturn) → DiagRec × SqlReturn → Option (List DiagRec × SqlReturn)
next_record more o =
    if is_succeeded o.1 then more >>= (λ rest. some (o.0 ∷ rest.0, rest.1)) else some ([], o.1)

pred_suc : (n : ℕ) → suc n - 1 ≡ n
pred_suc n = omega arith

module _ {E : Type 0} (ex : Exceptions E) (t : HandleType) where
  -- SQLGetDiagRec for the records from number i + 1 on, until it does not succeed.
  unfoldable pub read_records : ℕ → ℕ → ℤ → Errors E → DiagRec → Option (List DiagRec × SqlReturn)
  read_records zero i len s r = none
  read_records (suc n) i len s r =
      let more = read_records n (suc i) len s r in
      handle_error ex t (pos (suc i)) len every_argument s r >>= next_record more

read_records_step :
    {E : Type 0} (ex : Exceptions E) (t : HandleType) (n i : ℕ) (len : ℤ) (s : Errors E)
    (r : DiagRec)
    → read_records ex t (suc n) i len s r ≡ (
        handle_error ex t (pos (suc i)) len every_argument s r
        >>= next_record (read_records ex t n (suc i) len s r))
unfolding read_records
read_records_step ex t n i len s r = refl

get_elem?-end : {A : Type 0} (xs : List A) → get_elem? (xs ++ []) (length xs) ≡ none
get_elem?-end [] = refl
get_elem?-end (x ∷ xs) = get_elem?-end xs

module _ {E : Type 0} (ex : Exceptions E) (t : HandleType) (known : is_known t ≡ true) where
  record_of-element :
      (i : ℕ) (size : ℤ) (e : E)
      → record_of ex (pos (suc i)) size true (some e)
        ≡ of_element (get_elem? (ex.fill_records size e) i)
  unfolding record_of
  record_of-element i size e = rw (pred_suc i) refl

  chosen :
      (e : E) (rec size : ℤ) (lock given : Bool) (last g : Option E)
      → (elim g as (λ _. Option E) [ some e' ↦ some e' | none ↦ if given then last else none ])
        ≡ some e
      → (elim g as (λ _. FoundRecord E) [
        | some e' ↦ record_of ex rec size lock (some e')
        | none ↦
            if given
            then (if is_known t then record_of ex rec size lock last else refused invalid_handle)
            else refused invalid_handle
      ])
        ≡ record_of ex rec size lock (some e)
  chosen e rec size lock given last (some e') h = ap (record_of ex rec size lock) h
  chosen e rec size lock false last none h = absurd (cc)
  chosen e rec size lock true last none h = if_yes _ _ _ known ∙ ap (record_of ex rec size lock) h

  is_positive : (i : ℕ) → leb_ℤ (pos (suc i)) (pos 0) ≡ false
  is_positive i = ground arith

  get_exception_record-element :
      (i : ℕ) (size : ℤ) (s : Errors E) (e : E)
      → current_error s ≡ some e
      → s.lockable ≡ true
      → get_exception_record ex t (pos (suc i)) size s
        ≡ of_element (get_elem? (ex.fill_records size e) i)
  unfolding get_exception_record
  get_exception_record-element i size s e h k =
      if_no _ _ _ (is_positive i)
      ∙ (chosen e (pos (suc i)) size s.lockable s.given s.last s.global h
          ∙ (ap (λ lock. record_of ex (pos (suc i)) size lock (some e)) k
              ∙ record_of-element i size e))

-- What one call stores for a record, with a message buffer of the given length.
abbrev pub stored_record : {E : Type 0} → Exceptions E → ℕ → List ℕ → List ℕ → E × List ℕ → DiagRec
stored_record ex len state_buffer text_buffer (e, message) = record {
  sql_state = some (bounded_copy (ex.state_of e) (length (ex.state_of e)) state_buffer (pos 6)).out;
  native_error = some (ex.severity_of e);
  message_text = some (bounded_copy message (length message) text_buffer (pos len)).out;
  text_length = some (restrict_length sqlsmallint false (pos (length message)));
}

-- Texts that a machine can hold.
abbrev pub IsShort : List ℕ → Type 0
IsShort text = length text ≤ 9223372036854775807

copy_string-whole :
    (text out : List ℕ) (m : ℤ)
    → IsShort text
    → m ≤ℤ pos (length out)
    → copy_string (some text) (pos (length text)) out m
      ≡ some (bounded_copy text (length text) out m)
copy_string-whole text out m s k =
    subst
      (λ x.
        copy_string (some x) (pos (length text)) out m
        ≡ some (bounded_copy text (length text) out m))
      (append-nil text) (copy_string_counted text [] out m s k)

bounded_copy-length :
    (text out : List ℕ) (n : ℕ) (m : ℤ) → (bounded_copy text n out m).total_len ≡ pos n
bounded_copy-length text out n (pos zero) = refl
bounded_copy-length text out n (pos (suc m)) = refl
bounded_copy-length text out n (negsuc m) = refl

module _ {E : Type 0} (ex : Exceptions E) (len : ℕ) (state_buffer text_buffer : List ℕ)
    (six : 6 ≤ length state_buffer) (room : len ≤ length text_buffer) where
  state_copied :
      (state : List ℕ)
      → IsShort state
      → copy_state state (arguments state_buffer text_buffer)
        ≡ some (record (arguments state_buffer text_buffer) {
          sql_state = some (bounded_copy state (length state) state_buffer (pos 6)).out;
        })
  unfolding copy_state
  state_copied state p = rw (copy_string-whole state state_buffer (pos 6) p (omega arith)) refl

  abbrev answer_of : List ℕ → SqlReturn
  answer_of message =
      if (bounded_copy message (length message) text_buffer (pos len)).truncated
      then success_with_info
      else success

  answer_of-succeeds : (message : List ℕ) → is_succeeded (answer_of message) ≡ true
  answer_of-succeeds message =
      either (bounded_copy message (length message) text_buffer (pos len)).truncated
    where
      either : (b : Bool) → is_succeeded (if b then success_with_info else success) ≡ true
      either true = refl
      either false = refl

  not_negative : ltb_ℤ (pos len) (pos 0) ≡ false
  not_negative = ground arith

  text_stored :
      (message : List ℕ) (state : Option (List ℕ)) (native : Option ℤ)
      → IsShort message
      → store_text message (pos len) every_argument (record {
        sql_state = state;
        native_error = native;
        message_text = some text_buffer;
        text_length = none;
      })
        ≡ some (
          record {
            sql_state = state;
            native_error = native;
            message_text = some (bounded_copy message (length message) text_buffer (pos len)).out;
            text_length = some (restrict_length sqlsmallint false (pos (length message)));
          },
          answer_of message,
        )
  unfolding store_text copy_message
  text_stored message state native q =
      if_no _ _ _ not_negative
      ∙ rw
          (
            copy_string-whole message text_buffer (pos len) q (omega arith),
            bounded_copy-length message text_buffer (length message) (pos len),
          )
          refl

  handle_error-found :
      (t : HandleType) (i : ℕ) (s : Errors E) (e : E) (message : List ℕ)
      → IsShort (ex.state_of e)
      → IsShort message
      → get_exception_record ex t (pos (suc i)) (max_ℤ max_message_length (pos len -ℤ pos 1)) s
        ≡ found e message
      → (c : SqlReturn) × (handle_error ex t
            (pos (suc i))
            (pos len)
            every_argument
            s
            (arguments state_buffer text_buffer)
          ≡ some (stored_record ex len state_buffer text_buffer (e, message), c))
        × (is_succeeded c ≡ true)
  unfolding handle_error
  handle_error-found t i s e message p q h = (
    answer_of message,
    rw
        (
          handle_error,
          h,
          state_copied (ex.state_of e) p,
          text_stored message
              (some
                (bounded_copy (ex.state_of e) (length (ex.state_of e)) state_buffer (pos 6)).out)
              (some (ex.severity_of e)) q,
        )
        refl,
    answer_of-succeeds message,
  )

  abbrev call : DiagRec
  call = arguments state_buffer text_buffer

  abbrev size : ℤ
  size = max_ℤ max_message_length (pos len -ℤ pos 1)

  handle_error-none :
      (t : HandleType) (i : ℕ) (s : Errors E)
      → get_exception_record ex t (pos (suc i)) size s ≡ refused no_data
      → handle_error ex t (pos (suc i)) (pos len) every_argument s call
        ≡ some (record call { text_length = some (pos 0) }, no_data)
  unfolding handle_error
  handle_error-none t i s h = rw (handle_error, h) refl

  -- The records from xs on are read, and then there is none.
  read_records_all :
      (t : HandleType)
      → is_known t ≡ true
      → (s : Errors E) (e : E) → current_error s ≡ some e
      → s.lockable ≡ true
      → (xs ys : List (E × List ℕ))
      → ex.fill_records (max_ℤ max_message_length (pos len -ℤ pos 1)) e ≡ xs ++ ys
      → All (λ r. IsShort (ex.state_of r.0) × IsShort r.1) ys
      → read_records ex t
          (suc (length ys))
          (length xs)
          (pos len)
          s
          (arguments state_buffer text_buffer)
        ≡ some (map (stored_record ex len state_buffer text_buffer) ys, no_data)
  read_records_all t known s e h k xs [] f p =
      read_records_step ex t zero (length xs) (pos len) s call
      ∙ ap (λ o. o >>= next_record (read_records ex t zero (suc (length xs)) (pos len) s call))
          (handle_error-none t (length xs) s (
            get_exception_record-element ex t known (length xs) size s e h k
            ∙ ap of_element (ap (λ l. get_elem? l (length xs)) f ∙ get_elem?-end xs)))
  read_records_all t known s e h k xs (r ∷ ys) f p =
      let more = read_records ex t (suc (length ys)) (suc (length xs)) (pos len) s call in
      let (c, stored, ok) = handle_error-found t (length xs) s r.0 r.1 p.0.0 p.0.1 (
        get_exception_record-element ex t known (length xs) size s e h k
        ∙ ap of_element (ap (λ l. get_elem? l (length xs)) f ∙ get_elem?-append xs r ys)) in
      let rest =
        read_records_all t known s e h k (xs ++ r ∷ []) ys (f ∙ sym (append_assoc xs (r ∷ []) ys))
          p.1 in
      read_records_step ex t (suc (length ys)) (length xs) (pos len) s call
      ∙ (ap (λ o. o >>= next_record more) stored
          ∙ (if_yes _ _ _ ok
              ∙ ap
                  (λ m. m >>= (λ tail.
                    some (stored_record ex len state_buffer text_buffer r ∷ tail.0, tail.1)))
                  (ap (λ i. read_records ex t (suc (length ys)) i (pos len) s call)
                      (sym (length-snoc xs r))
                    ∙ rest)))

  -- An application that calls SQLGetDiagRec on a handle of a known type with the record numbers 1,
  -- 2 and so on, with every argument given, a state buffer of at least six characters and a
  -- message buffer as long as it says, gets every record of the current error (the global one,
  -- else that of the handle) in its order, states and messages cut to their buffers and
  -- terminated, lengths clamped to 32767, and then SQL_NO_DATA; if there is a current error, its
  -- lock is free and the states and messages are shorter than 2^63.
  pub read_records_complete :
      (t : HandleType)
      → is_known t ≡ true
      → (s : Errors E) (e : E) → current_error s ≡ some e
      → s.lockable ≡ true
      → let records = ex.fill_records (max_ℤ max_message_length (pos len -ℤ pos 1)) e in
        All (λ r. IsShort (ex.state_of r.0) × IsShort r.1) records
        → read_records ex t
            (suc (length records))
            0
            (pos len)
            s
            (arguments state_buffer text_buffer)
          ≡ some (map (stored_record ex len state_buffer text_buffer) records, no_data)
  read_records_complete t known s e h k p =
      read_records_all t known s e h k [] (ex.fill_records size e) refl p
