-- ===== src/Lifecycle/Histories.antt =====
-- Histories of calls on one statement (src/driver/cpp/SnappyStatement.cpp).
use mathlib.Core.Path.{subst}
use snappy_odbc.Common.{
  ℕ, ◌≡◌, refl, Bool, not, true, false, Option, none, some, is_some, if◌then◌else◌, ◌||◌, ◌&&◌,
  arith,
}
use snappy_odbc.Driver.{SqlReturn, is_succeeded, Outcome, returned, threw}
use snappy_odbc.Lifecycle.{
  Life, new_life, Native, Initialize, initialized, not_initialized, Warnings, clear, Run, ◌>>=◌,
  caught, set_result_set, warned, handle_warnings, prepare, Binding, one_set, many_sets, Execution,
  run_prepared, bind_and_run, execute, take_results, get_more_results, close_result_set, FreeOption,
  close_cursor, unbind, reset_params, other_option, free_statement,
}

-- A call with the answers of the client library.
pub data Call : Type 0 where
  prepares : Outcome Native → Warnings → Call
  executes : Binding → Execution → Call
  asks_more : Outcome Native → Initialize → Bool → Warnings → Call
  closes : Bool → Outcome (Unit {0}) → Call
  frees : FreeOption → Outcome (Unit {0}) → Call

unfoldable pub call : Call → Life → Option (Life × SqlReturn)
call (prepares o w) s = prepare o w s
call (executes b x) s = execute b x s
call (asks_more o i is_open w) s = get_more_results o i is_open w s
call (closes if_present closing) s = some (close_result_set if_present closing s)
call (frees opt closing) s = some (free_statement opt closing s)

abbrev pub is_initialized : Initialize → Bool
is_initialized initialized = true
is_initialized (not_initialized left t) = false

-- Calls where m_cursor.initialize does not throw.
abbrev pub initializes : Call → Bool
initializes (executes b x) = is_initialized x.cursor_set
initializes (asks_more o i is_open w) = is_initialized i
initializes _ = true

-- The states that a new statement comes to, by calls that do not fault and where initialize does
-- not throw.
pub data Reach : Life → Type 0 where
  here : Reach new_life
  next :
      {s s' : Life} {r : SqlReturn} (c : Call)
      → Reach s
      → initializes c ≡ true
      → call c s ≡ some (s', r)
      → Reach s'

-- The cursor runs over the statement's result set, or is cleared.
abbrev pub IsSynced : Life → Type 0
IsSynced s = s.cursor ≡ s.result_set

-- A property of the state that a call or a run leaves, where it leaves one.
abbrev Leaves {ℓ} : {A : Type ℓ} → Option (Life × A) → Type 0
Leaves none = Unit
Leaves (some r) = IsSynced r.0

either {ℓ} :
    {A : Type ℓ} (b : Bool) (x y : Option (Life × A))
    → Leaves x
    → Leaves y
    → Leaves (if b then x else y)
either true x y h k = h
either false x y h k = k

either_pair :
    (b : Bool) (x y : Life × SqlReturn)
    → IsSynced x.0
    → IsSynced y.0
    → IsSynced (if b then x else y).0
either_pair true x y h k = h
either_pair false x y h k = k

>>=-Leaves {ℓ κ} :
    {A : Type ℓ} {B : Type κ} (m : Run A) (k : A → Life → Run B)
    → Leaves m
    → ((a : A) (s : Life) → IsSynced s → Leaves (k a s))
    → Leaves (m >>= k)
>>=-Leaves none k h g = tt
>>=-Leaves (some (s, threw t)) k h g = h
>>=-Leaves (some (s, returned a)) k h g = g a s h

caught-Leaves : (m : Run SqlReturn) → Leaves m → Leaves (caught m)
caught-Leaves none h = tt
caught-Leaves (some (s, threw t)) h = h
caught-Leaves (some (s, returned r)) h = h

warned-Leaves : (w : Warnings) (s : Life) → IsSynced s → Leaves (warned w s)
warned-Leaves (threw t) s h = h
warned-Leaves (returned none) s h = h
warned-Leaves (returned (some w)) s h = h

handle_warnings-Leaves :
    (n : Native) (w : Warnings) (s : Life) → IsSynced s → Leaves (handle_warnings n w s)
unfolding handle_warnings
handle_warnings-Leaves n w s h =
    either (is_some n.object && not n.has_warnings) _ _ h
      (either s.result _ _ (warned-Leaves w s h) tt)

prepare-Leaves :
    (o : Outcome Native) (w : Warnings) (s : Life) → IsSynced s → Leaves (prepare o w s)
unfolding prepare
prepare-Leaves (threw t) w s h = h
prepare-Leaves (returned n) w s h =
    caught-Leaves _ (handle_warnings-Leaves n w (record (clear s) { pstmt = n.object }) h)

set_result_set-Leaves :
    (rs : Option ℕ) (i : Initialize) (s : Life)
    → is_initialized i ≡ true
    → Leaves (set_result_set rs i s)
unfolding set_result_set
set_result_set-Leaves none i s h = refl
set_result_set-Leaves (some r) initialized s h = refl
set_result_set-Leaves (some r) (not_initialized left t) s h = absurd (ground arith)

run_prepared-Leaves :
    (x : Execution) (s : Life)
    → is_initialized x.cursor_set ≡ true
    → IsSynced s
    → Leaves (run_prepared x s)
unfolding run_prepared
run_prepared-Leaves x s i h = >>=-Leaves (some (s, x.ran)) _ h (λ u s h.
    >>=-Leaves (some (record s { result = true }, x.results)) _ h (λ rs s h.
      >>=-Leaves _ _ (set_result_set-Leaves rs x.cursor_set s i) (λ u s h.
        >>=-Leaves (some (s, x.filled)) _ h (λ u s h. handle_warnings-Leaves _ x.warnings s h))))

bind_and_run-Leaves :
    (b : Binding) (x : Execution) (s : Life)
    → is_initialized x.cursor_set ≡ true
    → IsSynced s
    → Leaves (bind_and_run b x s)
unfolding bind_and_run
bind_and_run-Leaves (many_sets noted o) x s i h = h
bind_and_run-Leaves (one_set noted o) x s i h =
    >>=-Leaves (some (record s { diag = noted s.diag }, o)) _ h
      (λ r s h. either (is_succeeded r) _ _ (run_prepared-Leaves x s i h) h)

execute-Leaves :
    (b : Binding) (x : Execution) (s : Life)
    → is_initialized x.cursor_set ≡ true
    → IsSynced s
    → Leaves (execute b x s)
unfolding execute
execute-Leaves b x s i h = either (is_some s.result_set) _ _ h (
    either (is_some s.pstmt) _ _
      (caught-Leaves _ (bind_and_run-Leaves b x (record (clear s) { result = false }) i h)) h)

get_more_results-Leaves :
    (o : Outcome Native) (i : Initialize) (is_open : Bool) (w : Warnings) (s : Life)
    → is_initialized i ≡ true
    → IsSynced s
    → Leaves (get_more_results o i is_open w s)
unfolding get_more_results take_results
get_more_results-Leaves o i is_open w s k h =
    either (is_some s.pstmt || is_some s.result_set) _ _
      (caught-Leaves _ (
        >>=-Leaves (some (clear s, o)) _ h (λ n s h.
          >>=-Leaves _ _ (set_result_set-Leaves n.object i s k) (λ u s h.
            either (is_some n.object && is_open) _ _ (handle_warnings-Leaves n w s h) h))))
      h

close_result_set-IsSynced :
    (if_present : Bool) (closing : Outcome (Unit {0})) (s : Life)
    → IsSynced s
    → IsSynced (close_result_set if_present closing s).0
unfolding close_result_set
close_result_set-IsSynced if_present (threw t) s h =
    either_pair (is_some s.result_set) _ _ h (either_pair if_present _ _ h h)
close_result_set-IsSynced if_present (returned u) s h =
    either_pair (is_some s.result_set) _ _ refl (either_pair if_present _ _ h h)

free_statement-IsSynced :
    (opt : FreeOption) (closing : Outcome (Unit {0})) (s : Life)
    → IsSynced s
    → IsSynced (free_statement opt closing s).0
unfolding free_statement
free_statement-IsSynced close_cursor closing s h = close_result_set-IsSynced true closing s h
free_statement-IsSynced unbind closing s h = h
free_statement-IsSynced reset_params closing s h = h
free_statement-IsSynced (other_option n) closing s h = h

call-Leaves : (c : Call) (s : Life) → initializes c ≡ true → IsSynced s → Leaves (call c s)
unfolding call
call-Leaves (prepares o w) s i h = prepare-Leaves o w s h
call-Leaves (executes b x) s i h = execute-Leaves b x s i h
call-Leaves (asks_more o k is_open w) s i h = get_more_results-Leaves o k is_open w s i h
call-Leaves (closes if_present closing) s i h = close_result_set-IsSynced if_present closing s h
call-Leaves (frees opt closing) s i h = free_statement-IsSynced opt closing s h

-- After any history of prepare, execute, getMoreResults, closing the cursor and SQLFreeStmt
-- without SQL_DROP on a new statement in which no call faults and m_cursor.initialize does not
-- throw, the cursor runs over the result set that the statement holds, or is cleared where there
-- is none; the other calls of the client library may answer anything, and all but isOpen,
-- hasWarnings and the clear of the cursor may throw.
pub Reach-IsSynced : (s : Life) → Reach s → IsSynced s
Reach-IsSynced s here = refl
Reach-IsSynced s (next {s = before} {s' = s'} c reached i e) =
    subst Leaves e (call-Leaves c before i (Reach-IsSynced before reached))
