-- ===== src/Fetch/Rows.antt =====
-- SQLFetch and SQLFetchScroll: fillOutputFields, fillOutputFieldsWithArrays, setRowStatus, next and
-- fetchScroll of src/driver/cpp/SnappyStatement.cpp, and handleWarnings of SnappyStatement.h.
use snappy_odbc.Common.{
  ℕ, zero, suc, Bool, true, false, ◌&&◌, Option, none, some, [], ◌∷◌, ◌++◌, leb, ◌==◌,
  if◌then◌else◌, ◌>>=◌, ℤ, pos, negsuc, ◌-ℤ◌, ltb_ℤ, ◌==ℤ◌,
}
use snappy_odbc.Strings.{restrict_length}
use snappy_odbc.Driver.{
  SqlReturn, success, success_with_info, error, no_data, SqlError, feature_not_implemented,
  invalid_cursor_state2, server_warning, server_exception, Outcome, returned, threw, sql_exception,
  error_of, Diag, set_exception, clear_last_error,
}
use snappy_odbc.Fetch.{
  CursorApi, BatchIterator, init_next_batch, batch_next, Fill, RowStatus, row_success, row_deleted,
  row_updated, row_added, Written, Binding, fill_fields, fill_slot, is_success, int32,
}

-- What fetching sees of a statement. `is_open` says whether m_resultSet is there, `has_warnings`
-- what it answers, and `warnings` what m_result answers, where m_result is there.
pub record Cursor {ℓ κ} (S : Type ℓ) (R : Type κ) : Type (ℓ ⊔ κ) where
  pub is_open : Bool
  pub bulk : BatchIterator S
  pub binding : Binding
  pub has_warnings : Bool
  pub warnings : Option (Option ℕ)
  pub written : Written R
  pub diag : Diag

module _ {ℓ κ} {S : Type ℓ} {R : Type κ} where
  abbrev pub fail : SqlError → Cursor S R → Cursor S R × SqlReturn
  fail e c = (record c { diag = set_exception e c.diag }, error)

  abbrev pub clear_error : Cursor S R → Cursor S R
  clear_error c = record c { diag = clear_last_error c.diag }

  unfoldable pub handle_warnings : Cursor S R → Option (Cursor S R × SqlReturn)
  handle_warnings c =
      if c.has_warnings
      then (do
        w ← c.warnings
        elim w [
          | none ↦ some (c, success)
          | some n ↦
              some (record c { diag = set_exception (server_warning n) c.diag }, success_with_info)
        ])
      else some (c, success)

  -- The row is filled: it is counted, and its status is set.
  unfoldable pub mark_row : Cursor S R → Cursor S R
  mark_row c = record c {
    written = record c.written {
      statuses =
          if c.binding.has_row_status
          then c.written.statuses ++ (c.bulk.position, row_success) ∷ []
          else c.written.statuses;
    };
  }

  -- What is left once the loop ends without an exception.
  unfoldable pub end_batch : ℕ → SqlReturn → Cursor S R → Cursor S R × Outcome SqlReturn
  end_batch rows result c = (
    record c {
      written = record c.written {
        fetched_rows = if c.binding.has_fetched_rows then some rows else c.written.fetched_rows;
      };
    },
    returned (if is_success result && (rows == 0) then no_data else result),
  )

-- `result == SQL_SUCCESS ? result2 : result`
abbrev pub first_failure : SqlReturn → SqlReturn → SqlReturn
first_failure result result2 = if is_success result then result2 else result

module _ {ℓ κ} {S : Type ℓ} {R : Type κ} (api : CursorApi S R) where
  -- The status that setRowStatus gives the row under the cursor.
  unfoldable pub row_status_of : S → RowStatus
  row_status_of s =
      if api.row_deleted s
      then row_deleted
      else if api.row_updated s
      then row_updated
      else if api.row_inserted s
      then row_added
      else row_success

  unfoldable pub set_row_status : Cursor S R → Cursor S R
  set_row_status c =
      if c.is_open
      then record c {
        written = record c.written {
          fetched_rows = if c.binding.has_fetched_rows then some 1 else c.written.fetched_rows;
          statuses =
              if c.binding.has_row_status
              then c.written.statuses ++ (pos 0, row_status_of c.bulk.cursor) ∷ []
              else c.written.statuses;
        };
      }
      else c

module _ {ℓ κ} {S : Type ℓ} {R : Type κ} (api : CursorApi S R)
    (fill : Fill R → Outcome SqlReturn) where
  unfoldable pub fill_output_fields : Cursor S R → Cursor S R × Outcome SqlReturn
  fill_output_fields c = elim (api.current c.bulk.cursor) [
    | none ↦ (record c { diag = set_exception invalid_cursor_state2 c.diag }, returned error)
    | some r ↦
        let filled = fill_fields fill r 1 c.binding.output_fields success success c.written in
        (record c { written = filled.0 }, filled.1)
  ]

  -- The columns of one row, in the slot that the position names.
  unfoldable pub fill_row : SqlReturn → Cursor S R → R → Cursor S R × Outcome SqlReturn
  fill_row result c r =
      let filled =
        fill_slot fill c.binding r c.bulk.position 1 c.binding.output_fields result c.written in
      (record c { written = filled.0 }, filled.1)

  -- `continue` is the next round of the loop, entered where the batch has one more row.
  unfoldable pub after_batch_next :
      (ℕ → SqlReturn → Cursor S R → Option (Cursor S R × Outcome SqlReturn))
      → ℕ
      → SqlReturn
      → Cursor S R
      → BatchIterator S × Outcome Bool
      → Option (Cursor S R × Outcome SqlReturn)
  after_batch_next continue rows result c (b, returned true) =
      continue rows result (record c { bulk = b })
  after_batch_next continue rows result c (b, returned false) =
      some (end_batch rows result (record c { bulk = b }))
  after_batch_next continue rows result c (b, threw t) = some (record c { bulk = b }, threw t)

  unfoldable pub after_row :
      (ℕ → SqlReturn → Cursor S R → Option (Cursor S R × Outcome SqlReturn))
      → ℕ
      → Cursor S R × Outcome SqlReturn
      → Option (Cursor S R × Outcome SqlReturn)
  after_row continue rows (c, returned error) = some (end_batch rows error c)
  after_row continue rows (c, returned result) =
      after_batch_next continue (suc rows) result (mark_row c) (batch_next api c.bulk)
  after_row continue rows (c, threw t) = some (c, threw t)

  -- The do-while loop of fillOutputFieldsWithArrays, on fuel; out of fuel is `none`.
  unfoldable pub fill_batch :
      ℕ → ℕ → SqlReturn → Cursor S R → Option (Cursor S R × Outcome SqlReturn)
  fill_batch zero rows result c = none
  fill_batch (suc fuel) rows result c = do
    r ← api.current c.bulk.cursor
    after_row (fill_batch fuel) rows (fill_row result c r)

  -- One row or a batch is filled, and the warnings of the result set are reported.
  unfoldable pub fill_current : Cursor S R → Option (Cursor S R × Outcome SqlReturn)
  fill_current c =
      if leb c.bulk.batch_size 1
      then some (fill_output_fields (set_row_status api c))
      else fill_batch c.bulk.batch_size 0 success (record c { bulk = init_next_batch c.bulk })

  -- The handlers of fetchScroll.
  unfoldable pub report_fill : Cursor S R × Outcome SqlReturn → Option (Cursor S R × SqlReturn)
  report_fill (c, returned result) = do
    (c', result2) ← handle_warnings c
    some (c', first_failure result result2)
  report_fill (c, threw t) = some (fail (error_of t) c)

  -- The handlers of next, for which the exception of a missing current row is the end of the data.
  unfoldable pub report_next : Cursor S R × Outcome SqlReturn → Option (Cursor S R × SqlReturn)
  report_next (c, threw (sql_exception n)) =
      if api.is_no_current_row n then some (c, no_data) else some (fail (server_exception n) c)
  report_next (c, other) = report_fill (c, other)

  -- A move of the cursor, and what follows where it is on a row.
  unfoldable pub after_move :
      Cursor S R → S × Outcome Bool → Option (Cursor S R × Outcome SqlReturn)
  after_move c (s, returned true) = fill_current (record c { bulk = record c.bulk { cursor = s } })
  after_move c (s, returned false) =
      some (record c { bulk = record c.bulk { cursor = s } }, returned no_data)
  after_move c (s, threw t) = some (record c { bulk = record c.bulk { cursor = s } }, threw t)

  -- SQLFetch with a result set. Unlike fetchScroll it does not look for warnings where there is
  -- no row.
  unfoldable pub next_open : Cursor S R → Option (Cursor S R × SqlReturn)
  next_open c =
      let moved = api.cursor_next c.bulk.cursor in
      elim moved.1 [
        | returned false ↦
            some (record (clear_error c) { bulk = record c.bulk { cursor = moved.0 } }, no_data)
        | other ↦ do filled ← after_move (clear_error c) moved; report_next filled
      ]

  unfoldable pub next_row : Cursor S R → Option (Cursor S R × SqlReturn)
  next_row c = if c.is_open then next_open c else some (fail invalid_cursor_state2 (clear_error c))

pub data FetchOrientation : Type 0 where
  fetch_next fetch_prior fetch_relative fetch_absolute fetch_first fetch_last : FetchOrientation
  fetch_other : ℕ → FetchOrientation

module _ {ℓ κ} {S : Type ℓ} {R : Type κ} (api : CursorApi S R)
    (fill : Fill R → Outcome SqlReturn) where
  -- SQL_FETCH_ABSOLUTE: row 0 is before the first row.
  unfoldable pub move_absolute : ℤ → S → S × Outcome Bool
  move_absolute offset s =
      let first = api.begin (if ltb_ℤ (pos 0) offset then offset -ℤ pos 1 else offset) s in
      if offset ==ℤ pos 0
      then elim first.1 [ returned b ↦ api.cursor_previous first.0 | threw t ↦ first ]
      else first

  unfoldable pub move_cursor : FetchOrientation → ℤ → S → Option (S × Outcome Bool)
  move_cursor fetch_next offset s = some (api.cursor_next s)
  move_cursor fetch_prior offset s = some (api.cursor_previous s)
  move_cursor fetch_relative offset s = some (api.advance offset s)
  move_cursor fetch_absolute offset s = some (move_absolute offset s)
  move_cursor fetch_first offset s = some (api.begin (pos 0) s)
  move_cursor fetch_last offset s = some (api.begin (negsuc 0) s)
  move_cursor (fetch_other n) offset s = none

  -- SQLFetchScroll
  unfoldable pub fetch_scroll : FetchOrientation → ℤ → Cursor S R → Option (Cursor S R × SqlReturn)
  fetch_scroll orientation offset c =
      if c.is_open
      then elim (move_cursor orientation (restrict_length int32 false offset) c.bulk.cursor) [
        | none ↦ some (fail feature_not_implemented (clear_error c))
        | some moved ↦ do
          filled ← after_move api fill (clear_error c) moved
          report_fill api fill filled
      ]
      else some (fail invalid_cursor_state2 (clear_error c))
