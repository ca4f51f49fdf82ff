-- ===== src/Parameters/Arrays.antt =====
-- Arrays of parameters: updateStatus and bindArrayOfParameters of src/driver/cpp/SnappyStatement.cpp.
-- The client library's ParametersBatch is the list of the sets that were moved into it.
pub mod Running
pub mod Severity
pub mod Columns
pub mod Direct
use snappy_odbc.Common.{
  ℕ, zero, suc, Bool, true, false, Option, none, some, List, [], ◌∷◌, ◌++◌, ltb, ltb_ℤ, leb, ◌==◌,
  ◌||◌, if◌then◌else◌, ◌>>=◌, ℤ, pos, ◌+ℤ◌, ◌*ℤ◌, length, get_elem?,
}
use snappy_odbc.Driver.{
  SqlReturn, success, success_with_info, error, SqlError, unknown_exception, invalid_cursor_state1,
  is_succeeded, statement_not_prepared, Outcome, returned, threw, error_of, Diag, set_exception,
  clear_last_error,
}
use snappy_odbc.Parameters.{
  throws, Parameter, Conversion, Bound, bind_parameter, bind_parameters, resize,
}
use snappy_odbc.Parameters.Execute.{
  Stmt, Answer, with_diag, fail, take_answer, execute, execute_bound,
}

-- SQL_PARAM_SUCCESS, SQL_PARAM_SUCCESS_WITH_INFO and SQL_PARAM_ERROR.
pub data ParamStatus : Type 0 where
  param_success param_success_with_info param_error : ParamStatus

abbrev pub is_sql_error : SqlReturn → Bool
is_sql_error error = true
is_sql_error _ = false

-- updateStatus: the status of the set.
unfoldable pub status_after : ParamStatus → SqlReturn → ParamStatus
status_after status success = status
status_after param_error ret = param_error
status_after status success_with_info = param_success_with_info
status_after status ret = param_error

-- updateStatus: the result of the whole.
unfoldable pub result_after : SqlReturn → SqlReturn → SqlReturn
result_after result success = result
result_after result ret = if is_succeeded result || is_sql_error ret then ret else result

-- What the loop over the sets carries along: m_params, m_execParams with the last error, the
-- batch, the statuses written so far, the result, and whether an
-- exception was thrown.
pub record Filling {ℓ} (V : Type ℓ) : Type ℓ where
  pub fields : List Parameter
  pub slots : Bound V
  pub batch : List (List (List V))
  pub statuses : List ParamStatus
  pub result : SqlReturn
  pub raised : Bool

-- SQL_BIND_BY_COLUMN is 0.
abbrev pub by_column : ℕ → Bool
by_column orientation = orientation == 0

-- Where the value of a parameter is read, from its address on.
unfoldable pub value_offset_of : ℕ → ℕ → ℤ → ℤ → Parameter → ℤ
value_offset_of orientation i bind_offset offset p =
    if by_column orientation then (pos i *ℤ p.value_size) +ℤ bind_offset else offset

unfoldable pub next_offset : ℕ → ℤ → ℤ
next_offset orientation offset =
    if by_column orientation then offset +ℤ pos 1 else offset +ℤ pos orientation

-- `*bindOffsetPtr`, or 0 without a pointer.
abbrev pub given_offset : Option ℤ → ℤ
given_offset none = pos 0
given_offset (some offset) = offset

module _ {ℓ} {V : Type ℓ} (cv : Conversion V) (at : ℤ → ℤ) where
  -- The inner loops, for given offsets. The flag says that an exception of bindParameter left them,
  -- and the parameters behind it as they were.
  unfoldable pub bind_set :
      (Parameter → ℤ)
      → ℤ
      → List Parameter
      → Bound V
      → ParamStatus
      → SqlReturn
      → Option (List Parameter × Bound V × ParamStatus × SqlReturn × Bool)
  bind_set value_offset len_offset [] b status result = some ([], b, status, result, false)
  bind_set value_offset len_offset (p ∷ ps) b status result = do
    bound ← bind_parameter cv at false (value_offset p) len_offset p b
    elim (throws at p) [
      | true ↦ some (bound.0 ∷ ps, bound.1, status, result, true)
      | false ↦ (do
        rest ←
            bind_set value_offset len_offset ps bound.1 (status_after status bound.2)
              (result_after result bound.2)
        some (bound.0 ∷ rest.0, rest.1, rest.2, rest.3, rest.4))
    ]

  -- The loop over the sets: how many are left, the number of the next and its offset. An exception
  -- ends it.
  unfoldable pub bind_sets : ℕ → ℕ → ℤ → ℕ → ℕ → ℤ → Filling V → Option (Filling V)
  bind_sets num_params orientation bind_offset zero i offset f = some f
  bind_sets num_params orientation bind_offset (suc n) i offset f = do
    bound ←
        bind_set (value_offset_of orientation i bind_offset offset) offset f.fields
          (record f.slots { exec = resize [] num_params f.slots.exec }) param_success f.result
    elim bound.4 [
      | true ↦ some (record f { fields = bound.0; slots = bound.1; raised = true })
      | false ↦
          bind_sets num_params orientation bind_offset n (suc i) (next_offset orientation offset)
            (record {
              fields = bound.0;
              slots = record bound.1 { exec = [] };
              batch = f.batch ++ bound.1.exec ∷ [];
              statuses = f.statuses ++ bound.2 ∷ [];
              result = bound.3;
              raised = false;
            })
    ]

  -- bindArrayOfParameters, for a batch that is empty; the number of sets processed is that of
  -- the statuses. From 2^32 sets on there is no result: the loop counts with a uint32_t, which wraps
  -- before it reaches the set size, and does not end.
  unfoldable pub bind_array_of_parameters :
      ℕ → ℕ → ℕ → Option ℤ → List Parameter → Bound V → Option (Filling V)
  bind_array_of_parameters num_params set_size orientation bind_offset_ptr params b =
      let start : Filling V = record {
        fields = params;
        slots = b;
        batch = [];
        statuses = [];
        result = success;
        raised = false;
      } in
      let offset = given_offset bind_offset_ptr in
      if ltb set_size 4294967296
      then bind_sets num_params orientation offset set_size 0 offset start
      else none
