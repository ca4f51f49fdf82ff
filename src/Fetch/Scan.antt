-- ===== src/Fetch/Scan.antt =====
-- SQLFetch with a row array (next of src/driver/cpp/SnappyStatement.cpp): one call, and the calls
-- that an application makes until the rows are used up.
use mathlib.Core.List.{append_assoc, append-nil}
use snappy_odbc.Common.{
  ℕ, zero, suc, ◌+◌, ◌≤◌, ◌<◌, ◌≡◌, refl, ◌∙◌, ap, Bool, true, false, Option, none, some, List, [],
  ◌∷◌, ◌++◌, ◌==◌, leb, if◌then◌else◌, ◌>>=◌, arith, pos, length, length-drop, take, drop,
}
use snappy_odbc.Driver.{SqlReturn, success, no_data, is_succeeded, Outcome, returned}
use snappy_odbc.Fetch.{CursorApi, init_next_batch, Fill, Binding}
use snappy_odbc.Fetch.Rows.{
  Cursor, next_row, next_open, fill_current, fill_batch, report_next, report_fill, after_move,
  handle_warnings, first_failure, clear_error,
}
use snappy_odbc.Fetch.Batch.{CursorLaws, slot_fills, batch_fills, last_code, last_code-succeeds}
use snappy_odbc.Fetch.Loop.{BatchRan, fill_batch_run}

module _ {ℓ κ} {S : Type ℓ} {R : Type κ} (api : CursorApi S R)
    (fill : Fill R → Outcome SqlReturn) where
  -- An application's loop: SQLFetch, until it does not succeed.
  unfoldable pub fetch_all : ℕ → Cursor S R → Option (Cursor S R × SqlReturn)
  fetch_all zero c = none
  fetch_all (suc fuel) c = do
    fetched ← next_row api fill c
    if is_succeeded fetched.1 then fetch_all fuel fetched.0 else some fetched

  first_failure-success : (result : SqlReturn) → first_failure result success ≡ result
  first_failure-success result = ground arith

  report_next-returned :
      (c : Cursor S R) (result : SqlReturn)
      → c.has_warnings ≡ false
      → report_next api fill (c, returned result) ≡ some (c, result)
  unfolding report_next report_fill handle_warnings
  report_next-returned c result h = rw (h, first_failure-success result)

  after_move-row :
      (c : Cursor S R) (moved : S × Outcome Bool)
      → moved.1 ≡ returned true
      → after_move api fill c moved
        ≡ fill_current api fill (record c { bulk = record c.bulk { cursor = moved.0 } })
  unfolding after_move
  after_move-row c (s, o) h = rw h

  fill_current-batch :
      (c : Cursor S R)
      → 1 < c.bulk.batch_size
      → fill_current api fill c
        ≡ fill_batch api fill c.bulk.batch_size 0 success
            (record c { bulk = init_next_batch c.bulk })
  unfolding fill_current
  fill_current-batch c h = rw (not_leb c.bulk.batch_size h)
    where
      not_leb : (n : ℕ) → 1 < n → leb n 1 ≡ false
      not_leb n k = ground arith

-- Rows from slot p on, in batches of n slots.
unfoldable pub scan_fills {ℓ} : {R : Type ℓ} → Binding → ℕ → ℕ → List R → List (Fill R)
scan_fills b n p [] = []
scan_fills b n p (r ∷ rs) =
    slot_fills b r (pos p) 1 b.output_fields ++ scan_fills b n (if suc p == n then 0 else suc p) rs

last_slot : (p n : ℕ) → suc p ≡ n → (suc p == n) ≡ true
last_slot p n h = ground arith

inner_slot : (p n : ℕ) → suc p < n → (suc p == n) ≡ false
inner_slot p n h = ground arith

scan_fills-batch {ℓ} :
    {R : Type ℓ} (b : Binding) (k n p : ℕ) (rs : List R)
    → p + suc k ≡ n
    → scan_fills b n p rs ≡ batch_fills b p (take (suc k) rs) ++ scan_fills b n 0 (drop (suc k) rs)
unfolding scan_fills batch_fills
scan_fills-batch b k n p [] h = refl
scan_fills-batch b zero n p (r ∷ rs) h =
    rw (last_slot p n (omega arith), append-nil (slot_fills b r (pos p) 1 b.output_fields))
scan_fills-batch b (suc k) n p (r ∷ rs) h = rw (
  inner_slot p n (omega arith),
  scan_fills-batch b k n (suc p) rs (omega arith),
  append_assoc (slot_fills b r (pos p) 1 b.output_fields) (batch_fills b (suc p) (take (suc k) rs))
      (scan_fills b n 0 (drop (suc k) rs)),
)

module _ {ℓ κ} {S : Type ℓ} {R : Type κ} (api : CursorApi S R) (left : S → List R)
    (laws : CursorLaws api left) (code : Fill R → SqlReturn)
    (ok : (w : Fill R) → is_succeeded (code w) ≡ true) where
  -- The statement once SQLFetch has moved to the row.
  abbrev at_row : Cursor S R → Cursor S R
  at_row c = record (clear_error c) {
    bulk = init_next_batch (record c.bulk { cursor = (api.cursor_next c.bulk.cursor).0 });
  }

  next_row-open :
      (c : Cursor S R)
      → c.is_open ≡ true
      → next_row api (λ w. returned (code w)) c ≡ next_open api (λ w. returned (code w)) c
  unfolding next_row
  next_row-open c o = rw o

  next_row-batch :
      (c : Cursor S R)
      → c.is_open ≡ true
      → 1 < c.bulk.batch_size
      → (api.cursor_next c.bulk.cursor).1 ≡ returned true
      → next_row api (λ w. returned (code w)) c ≡ (do
        filled ← fill_batch api (λ w. returned (code w)) c.bulk.batch_size 0 success (at_row c)
        report_next api (λ w. returned (code w)) filled)
  unfolding next_open
  next_row-batch c o n m =
      next_row-open c o
      ∙ rw (
        next_open,
        m,
        after_move-row api (λ w. returned (code w)) (clear_error c) (api.cursor_next c.bulk.cursor)
            m,
        fill_current-batch api (λ w. returned (code w))
            (record (clear_error c) {
              bulk = record c.bulk { cursor = (api.cursor_next c.bulk.cursor).0 };
            })
            n,
      )

  at_row-BatchRan :
      (c c' : Cursor S R) (ts : List R)
      → BatchRan 0 0 ts (at_row c) c'
      → BatchRan 0 0 ts (clear_error c) c'
  at_row-BatchRan c c' ts ran = record {
    setup = record {
      same_open = ran.setup.same_open;
      same_binding = ran.setup.same_binding;
      same_size = ran.setup.same_size;
      same_has_warnings = ran.setup.same_has_warnings;
      same_diag = ran.setup.same_diag;
    };
    ran_fills = ran.ran_fills;
    ran_statuses = ran.ran_statuses;
    ran_count = ran.ran_count;
  }

  -- Under the conditions of fetch_all_run, SQLFetch with rows left takes as many of them as the
  -- array holds, and no more, fills and marks their slots in order, stores their number where a
  -- counter is bound, and changes nothing else but the last error and the cursor; its result is
  -- that of the last fill, so an SQL_SUCCESS_WITH_INFO of an earlier column or row is not
  -- reported.
  pub next_batch :
      (c : Cursor S R) (k : ℕ) (r : R) (rs : List R)
      → c.is_open ≡ true
      → c.has_warnings ≡ false
      → c.bulk.batch_size ≡ suc (suc k)
      → suc (suc k) ≤ 2147483647
      → left c.bulk.cursor ≡ r ∷ rs
      → (c' : Cursor S R) × (next_row api (λ w. returned (code w)) c
          ≡ some (c', last_code code success (batch_fills c.binding 0 (r ∷ take (suc k) rs))))
        × BatchRan 0 0 (r ∷ take (suc k) rs) (clear_error c) c'
        × (left c'.bulk.cursor ≡ drop (suc k) rs)
  next_batch c k r rs o w size m l =
      let ran =
        fill_batch_run api left laws code ok (suc k) c.bulk.batch_size 0 0 success (at_row c) r rs
          refl refl (omega arith) (omega arith) (omega arith) (laws.comes_to c.bulk.cursor r rs l)
          (laws.leaves c.bulk.cursor r rs l) in
      (
        ran.0,
        rw (
          next_row-batch c o (omega arith) (laws.moves c.bulk.cursor r rs l),
          ran.1,
          report_next-returned api (λ v. returned (code v)) ran.0
              (last_code code success (batch_fills c.binding 0 (r ∷ take (suc k) rs)))
              (ran.2.setup.same_has_warnings ∙ w),
        ),
        at_row-BatchRan c ran.0 (r ∷ take (suc k) rs) ran.2,
        ran.3,
      )

  next_end :
      (c : Cursor S R)
      → c.is_open ≡ true
      → left c.bulk.cursor ≡ []
      → (c' : Cursor S R) × (next_row api (λ w. returned (code w)) c ≡ some (c', no_data))
        × (c'.written ≡ c.written)
  unfolding next_open
  next_end c o l = (
    record (clear_error c) { bulk = record c.bulk { cursor = (api.cursor_next c.bulk.cursor).0 } },
    next_row-open c o ∙ rw (next_open, laws.at_end c.bulk.cursor l),
    refl,
  )

  -- For a cursor that runs through a list of rows without warnings, bound buffers whose fills
  -- succeed, and a row array size from 2 to 2^31 - 1: calling SQLFetch until it does not succeed
  -- ends with SQL_NO_DATA, within one call more than there are rows, and has filled the bound
  -- columns of every row exactly once, in the order of the rows, each row in the array slot after
  -- that of the row before it, the slots starting again at 0 where the array ends.
  pub fetch_all_run :
      (fuel k : ℕ) (c : Cursor S R) (rs : List R)
      → c.is_open ≡ true
      → c.has_warnings ≡ false
      → c.bulk.batch_size ≡ suc (suc k)
      → suc (suc k) ≤ 2147483647
      → left c.bulk.cursor ≡ rs
      → length rs < fuel
      → (c' : Cursor S R) × (fetch_all api (λ w. returned (code w)) fuel c ≡ some (c', no_data))
        × (c'.written.fills ≡ c.written.fills ++ scan_fills c.binding c.bulk.batch_size 0 rs)
  unfolding fetch_all scan_fills
  fetch_all_run zero k c rs o w size m l f = absurd (omega arith)
  fetch_all_run (suc fuel) k c [] o w size m l f =
      let last = next_end c o l in
      (last.0, rw last.1, ap (λ v. v.fills) last.2 ∙ rw (scan_fills, append-nil c.written.fills))
  fetch_all_run (suc fuel) k c (r ∷ rs) o w size m l f =
      let first = next_batch c k r rs o w size m l in
      let rest =
        fetch_all_run fuel k first.0 (drop (suc k) rs) (first.2.setup.same_open ∙ o)
          (first.2.setup.same_has_warnings ∙ w) (first.2.setup.same_size ∙ size) m first.3
          (omega (arith, length-drop (suc k) rs)) in
      (
        rest.0,
        rw (
          first.1,
          last_code-succeeds code ok success (batch_fills c.binding 0 (r ∷ take (suc k) rs)) refl,
          rest.1,
        ),
        rest.2
            ∙ rw (
              first.2.ran_fills,
              first.2.setup.same_binding,
              first.2.setup.same_size,
              scan_fills-batch c.binding (suc k) c.bulk.batch_size 0 (r ∷ rs) (omega arith),
              append_assoc c.written.fills (batch_fills c.binding 0 (r ∷ take (suc k) rs))
                  (scan_fills c.binding c.bulk.batch_size 0 (drop (suc k) rs)),
            ),
      )
