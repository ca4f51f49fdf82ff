-- ===== src/Parameters/Execute.antt =====
-- Executing a prepared statement with parameters: execute, getParamData, putData and
-- resetParameters of src/driver/cpp/SnappyStatement.cpp, for one set of parameters (the size of
-- the parameter set is 1). Output parameters are not filled in.
use snappy_odbc.Common.{
  ℕ, suc, Bool, true, false, Option, none, some, List, [], ◌∷◌, ◌++◌, if◌then◌else◌, ◌>>=◌, ℤ, pos,
  ◌==ℤ◌, drop, set, get_elem?,
}
use snappy_odbc.Strings.{sql_null_data}
use snappy_odbc.Driver.{
  SqlReturn, success, success_with_info, error, need_data, SqlError, function_sequence_error,
  invalid_cursor_state1, statement_not_prepared, server_warning, is_succeeded, Outcome, returned,
  threw, error_of, Diag, set_exception, clear_last_error,
}
use snappy_odbc.Parameters.{
  Parameter, Conversion, Bound, bind_parameter, bind_parameters, needs_data,
}

-- `sent` are the parameter sets that were executed.
pub record Stmt {ℓ} (V : Type ℓ) : Type ℓ where
  pub params : List Parameter
  pub bound : Bound V
  pub current : ℕ
  pub prepared : Bool
  pub has_result : Bool
  pub has_result_set : Bool
  pub sent : List (List (List V))

-- PreparedStatement::execute: whether the result has a result set, and the warning it has.
pub record Answer : Type 0 where
  pub with_result_set : Bool
  pub warning : Option ℕ

module _ {ℓ} {V : Type ℓ} where
  abbrev pub with_diag : (Diag → Diag) → Stmt V → Stmt V
  with_diag f s = record s { bound = record s.bound { diag = f s.bound.diag } }

  abbrev pub fail : SqlError → Stmt V → Stmt V × SqlReturn
  fail e s = (with_diag (set_exception e) s, error)

  -- The result of an execution, and its warning.
  unfoldable pub take_answer : Outcome Answer → Stmt V → Stmt V × SqlReturn
  take_answer (threw t) s = fail (error_of t) s
  take_answer (returned a) s =
      let s' = record s {
        has_result = true;
        has_result_set = a.with_result_set;
        sent = s.sent ++ s.bound.exec ∷ [];
        bound = record s.bound { exec = [] };
      } in
      elim a.warning [
        | none ↦ (s', success)
        | some w ↦ (with_diag (set_exception (server_warning w)) s', success_with_info)
      ]

-- The parameter while SQLPutData binds it, and after.
unfoldable pub switched : Option ℤ → ℤ → Parameter → Parameter
switched value_ptr data_len p = record p {
  is_data_at_exec = false;
  value = if data_len ==ℤ sql_null_data then none else value_ptr;
  len_or_ind = some (pos 0);
}

unfoldable pub put_back : Parameter → SqlReturn → Parameter → Parameter
put_back p success p' = record p' { len_or_ind = p.len_or_ind; is_bound = true }
put_back p result p' = record p' { len_or_ind = p.len_or_ind }

-- What SQLParamData makes of a parameter whose data it asks for.
abbrev pub asked : Parameter → Parameter
asked p = record p {
  value = none;
  value_size = pos 0;
  len_or_ind = none;
  is_bound = false;
  is_data_at_exec = false;
}

-- The first parameter, from an index on, whose data is asked for.
unfoldable pub next_asked : (ℤ → ℤ) → List Parameter → ℕ → Option (ℕ × Parameter)
next_asked at [] i = none
next_asked at (p ∷ ps) i = if needs_data at p then some (i, p) else next_asked at ps (suc i)

module _ {ℓ} {V : Type ℓ} (cv : Conversion V) where
  -- SQLPutData. The length pointer of the parameter points to the given length for the time of the
  -- call, and is put back.
  unfoldable pub put_data : Option ℤ → ℤ → Stmt V → Option (Stmt V × SqlReturn)
  put_data value_ptr data_len s =
      let s₀ = with_diag clear_last_error s in
      elim (get_elem? s.params s.current) [
        | none ↦ some (fail function_sequence_error s₀)
        | some p ↦ do
          bound ←
              bind_parameter cv (λ a. data_len) true (pos 0) (pos 0) (switched value_ptr data_len p)
                s₀.bound
          some (
            record s₀ {
              params = set s.params s.current (put_back p bound.2 bound.0);
              bound = bound.1;
            },
            bound.2,
          )
      ]

module _ {ℓ} {V : Type ℓ} where
  unfoldable pub reset_parameters : Stmt V → Stmt V × SqlReturn
  reset_parameters s =
      let s₀ = with_diag clear_last_error s in
      (record s₀ { params = []; bound = record s₀.bound { exec = [] } }, success)

module _ {ℓ} {V : Type ℓ} (cv : Conversion V) (at : ℤ → ℤ)
    (run : List (List V) → Outcome Answer) where
  unfoldable pub execute_bound : Stmt V → Option (Stmt V × SqlReturn)
  execute_bound s = do
    bound ← bind_parameters cv at s.params s.bound
    let s' = record s { params = bound.0; bound = bound.1 }
    some (if is_succeeded bound.2 then take_answer (run s'.bound.exec) s' else (s', bound.2))

  unfoldable pub execute : Stmt V → Option (Stmt V × SqlReturn)
  execute s =
      let s₀ = with_diag clear_last_error s in
      if s.has_result_set
      then some (fail invalid_cursor_state1 s₀)
      else if s.prepared
      then execute_bound (record s₀ { has_result = false })
      else some (fail statement_not_prepared (record s₀ { has_result = false }))

  -- SQLParamData; nothing is stored through its argument.
  unfoldable pub get_param_data : Stmt V → Option (Stmt V × SqlReturn)
  get_param_data s =
      let s₀ = with_diag clear_last_error s in
      elim (next_asked at (drop s.current s.params) s.current) [
        | none ↦ execute s₀
        | some q ↦
            some (record s₀ { current = q.0; params = set s.params q.0 (asked q.1) }, need_data)
      ]
