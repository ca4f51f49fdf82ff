-- ===== src/Parameters/Arrays/Running.antt =====
-- Executing an array of parameters, and a text: getRowStatus, executeWithArrayOfParams and
-- execute(sqlText) of src/driver/cpp/SnappyStatement.cpp.
use snappy_odbc.Common.{
  ℕ, zero, suc, Bool, true, false, Option, none, some, List, [], ◌∷◌, ◌++◌, ltb, ltb_ℤ,
  if◌then◌else◌, ◌>>=◌, ℤ, pos, length,
}
use snappy_odbc.Driver.{
  SqlReturn, error, unknown_exception, invalid_cursor_state1, is_succeeded, statement_not_prepared,
  Outcome, returned, threw, error_of, clear_last_error,
}
use snappy_odbc.Parameters.{Conversion, bind_parameters}
use snappy_odbc.Parameters.Execute.{Stmt, Answer, with_diag, fail, take_answer}
use snappy_odbc.Parameters.Arrays.{ParamStatus, Filling, bind_array_of_parameters}

pub data StatementType : Type 0 where
  insert update delete other_statement : StatementType

pub data BatchRowStatus : Type 0 where
  row_added row_updated row_deleted row_success row_norow : BatchRowStatus

unfoldable pub get_row_status : StatementType → BatchRowStatus
get_row_status insert = row_added
get_row_status update = row_updated
get_row_status delete = row_deleted
get_row_status other_statement = row_success

-- The rows that are written to m_rowStatusPtr, and whether all were: `updateCounts.at` throws out
-- of range.
unfoldable pub row_statuses : StatementType → ℕ → List ℤ → List BatchRowStatus × Bool
row_statuses kind zero counts = ([], true)
row_statuses kind (suc n) [] = ([], false)
row_statuses kind (suc n) (count ∷ counts) =
    let rest = row_statuses kind n counts in
    ((if ltb_ℤ (pos 0) count then get_row_status kind else row_norow) ∷ rest.0, rest.1)

-- What the client library gives for a prepared statement: its parameter count, its type, and
-- executeBatch, which gives the update counts.
pub record Prepared {ℓ} (V : Type ℓ) : Type ℓ where
  pub num_params : ℕ
  pub kind : StatementType
  pub execute_batch : List (List (List V)) → Outcome (List ℤ)

-- The attributes of a parameter array: m_paramSetSize, m_paramBindOffsetPtr and
-- m_paramBindingOrientation, and whether m_rowStatusPtr is there.
pub record ArrayAttributes : Type 0 where
  pub set_size : ℕ
  pub bind_offset_ptr : Option ℤ
  pub orientation : ℕ
  pub has_row_status : Bool

-- What a call writes to m_paramStatusArr, where there is one, and to m_rowStatusPtr.
pub record ArraysWritten : Type 0 where
  pub param_statuses : Option (List ParamStatus)
  pub row_status_array : Option (List BatchRowStatus)

abbrev pub nothing_written : ArraysWritten
nothing_written = record { param_statuses = none; row_status_array = none }

module _ {ℓ} {V : Type ℓ} where
  -- m_params.clear() and m_execParams.clear().
  abbrev pub forget_parameters : Stmt V → Stmt V
  forget_parameters s = record s { params = []; bound = record s.bound { exec = [] } }

  -- executeBatch and the row statuses. `updateCounts.at` throws std::out_of_range.
  unfoldable pub finish_batch :
      ArrayAttributes
      → Prepared V
      → Filling V
      → Outcome (List ℤ)
      → Stmt V
      → Stmt V × SqlReturn × ArraysWritten
  finish_batch attrs q f (threw t) s =
      let (s', r) = fail (error_of t) s in
      (s', r, record { param_statuses = some f.statuses; row_status_array = none })
  finish_batch attrs q f (returned counts) s =
      let s' = record s { sent = s.sent ++ f.batch } in
      if attrs.has_row_status
      then (let (rows, all_there) = row_statuses q.kind attrs.set_size counts in
          let w : ArraysWritten = record {
            param_statuses = some f.statuses;
            row_status_array = some rows;
          } in
          if all_there
          then (s', f.result, w)
          else (let (s'', r) = fail unknown_exception s' in (s'', r, w)))
      else (s', f.result, record { param_statuses = some f.statuses; row_status_array = none })

module _ {ℓ} {V : Type ℓ} where
  abbrev pub unwritten : Stmt V × SqlReturn → Stmt V × SqlReturn × ArraysWritten
  unwritten (s, r) = (s, r, nothing_written)

  -- The result of prepareAndExecute, whose prepared statement is kept.
  unfoldable pub take_prepared : Outcome Answer → Stmt V → Stmt V × SqlReturn
  take_prepared (threw t) s = take_answer (threw t) s
  take_prepared (returned a) s = take_answer (returned a) (record s { prepared = true })

  -- The result of an execution without parameters, which drops the prepared statement.
  unfoldable pub take_plain : Outcome Answer → Stmt V → Stmt V × SqlReturn
  take_plain (threw t) s = fail (error_of t) s
  take_plain (returned a) s =
      let (s', r) =
        take_answer (returned a)
          (record s { prepared = false; bound = record s.bound { exec = [] } }) in
      (record s' { bound = record s'.bound { exec = s.bound.exec } }, r)

module _ {ℓ} {V : Type ℓ} (cv : Conversion V) (at : ℤ → ℤ) (attrs : ArrayAttributes) where
  -- From the batch on. An exception while the sets are bound is the last error already.
  unfoldable pub execute_array : Prepared V → Stmt V → Option (Stmt V × SqlReturn × ArraysWritten)
  execute_array q s = do
    f ←
        bind_array_of_parameters cv at q.num_params attrs.set_size attrs.orientation
          attrs.bind_offset_ptr s.params s.bound
    let s' = record s { params = f.fields; bound = f.slots }
    some (
        if f.raised
        then (s', error, record { param_statuses = some f.statuses; row_status_array = none })
        else finish_batch attrs q f (q.execute_batch f.batch) s')

  -- executeWithArrayOfParams: `preparing` is prepareStatement of the text.
  unfoldable pub execute_with_array_of_params :
      Outcome (Prepared V) → Prepared V → Stmt V → Option (Stmt V × SqlReturn × ArraysWritten)
  execute_with_array_of_params preparing q s =
      if s.prepared
      then execute_array q s
      else elim preparing as (λ _. Option (Stmt V × SqlReturn × ArraysWritten)) [
        | threw t ↦
            let (s', r) = fail (error_of t) (forget_parameters s) in some (s', r, nothing_written)
        | returned q' ↦ execute_array q' (record (forget_parameters s) { prepared = true })
      ]

  -- execute(sqlText): `preparing` is prepareStatement of the text, `run` prepareAndExecute of it
  -- with the parameters, and `run_plain` execute of it without.
  unfoldable pub execute_direct :
      Outcome (Prepared V)
      → Prepared V
      → (List (List V) → Outcome Answer)
      → Outcome Answer
      → Stmt V
      → Option (Stmt V × SqlReturn × ArraysWritten)
  execute_direct preparing q run run_plain s =
      let s₀ = with_diag clear_last_error s in
      if s.has_result_set
      then some (unwritten (fail invalid_cursor_state1 s₀))
      else if ltb 1 attrs.set_size
      then execute_with_array_of_params preparing q (record s₀ { has_result = false })
      else if ltb 0 (length s.params)
      then (do
        bound ← bind_parameters cv at s.params s₀.bound
        let s' = record s₀ { has_result = false; params = bound.0; bound = bound.1 }
        some (
            unwritten (
              if is_succeeded bound.2
              then take_prepared (run s'.bound.exec) s'
              else (s', bound.2))))
      else some (unwritten (take_plain run_plain (record s₀ { has_result = false })))

  -- execute() with an array of parameters.
  unfoldable pub execute_sets : Prepared V → Stmt V → Option (Stmt V × SqlReturn × ArraysWritten)
  execute_sets q s =
      let s₀ = with_diag clear_last_error s in
      if s.has_result_set
      then some (unwritten (fail invalid_cursor_state1 s₀))
      else if s.prepared
      then execute_array q (record s₀ { has_result = false })
      else some (unwritten (fail statement_not_prepared (record s₀ { has_result = false })))
