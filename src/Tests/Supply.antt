-- ===== src/Tests/Supply.antt =====
-- Concrete parameters.
use snappy_odbc.Common.{
  ℕ, suc, ◌≡◌, refl, Bool, true, false, Option, none, some, List, [], ◌∷◌, ◌++◌, ℤ, pos, negsuc,
  ◌==ℤ◌, if◌then◌else◌,
}
use snappy_odbc.Types.{is_known_ctype, OdbcType, CType, convert_type_to_sql_type}
use snappy_odbc.Driver.{success, need_data, Outcome, returned}
use snappy_odbc.Parameters.{
  Parameter, new_parameter, input, Given, Piece, set_parameter, set_fields, bind_parameter,
  needs_data, asks_data_at_exec,
}
use snappy_odbc.Parameters.Execute.{Stmt, Answer, execute, get_param_data}
use snappy_odbc.Parameters.Contents.{partial_conversion, IsInput, AreInputs}
use snappy_odbc.Parameters.Asks.{
  asks_any, rebound_value_is_dropped, execute-asks, asked_before_current,
}

-- The contents are the addresses that were read.
abbrev join_address : CType → Bool → Piece → List ℤ → List ℤ
join_address c true piece old = old ++ piece.address ∷ []
join_address c false piece old = piece.address ∷ []

abbrev noted : CType → ℤ → ℤ
noted c n = n

-- Address 50 holds SQL_DATA_AT_EXEC, the others 4.
abbrev memory : ℤ → ℤ
memory a = if a ==ℤ pos 50 then negsuc 1 else pos 4

abbrev run : List (List ℤ) → Outcome Answer
run sets = returned (record { with_result_set = false; warning = none })

abbrev text_parameter : ℕ → Option ℤ → Parameter
text_parameter n at = record new_parameter {
  param_num = n;
  direction = input;
  is_data_at_exec = false;
  value_type = some CType.char;
  param_type = some OdbcType.varchar;
  value = some (pos 1000);
  len_or_ind = at;
}

-- The second of two parameters is supplied at execution.
abbrev asking : Stmt ℤ
asking = record {
  params = text_parameter 1 (some (pos 40)) ∷ text_parameter 2 (some (pos 50)) ∷ [];
  bound = record {
    exec = [] ∷ [] ∷ [];
    outs = [];
    diag = record { last_error = none; global_error = none };
  };
  current = 0;
  prepared = true;
  has_result = false;
  has_result_set = false;
  sent = [];
}

text_parameter-IsInput :
    (i : ℕ) (at : Option ℤ) → IsInput is_known_ctype i (text_parameter (suc i) at)
unfolding convert_type_to_sql_type
text_parameter-IsInput i at = record {
  numbered = refl;
  is_input = refl;
  ctype = CType.char;
  typed = refl;
  known = refl;
  sql_typed = refl;
}

asking-AreInputs : AreInputs is_known_ctype 0 asking.params
asking-AreInputs =
    (text_parameter-IsInput 0 (some (pos 40)), (text_parameter-IsInput 1 (some (pos 50)), tt))

asking_asks : asks_any is_known_ctype join_address (pos 0) noted memory asking.params ≡ true
unfolding needs_data asks_data_at_exec
asking_asks = refl

execute-asks_example :
    (s' : Stmt ℤ) × (execute
        (partial_conversion is_known_ctype join_address (pos 0) noted)
        memory
        run
        asking
      ≡ some (s', need_data))
    × (s'.sent ≡ [])
    × (s'.current ≡ 0)
execute-asks_example =
    execute-asks is_known_ctype join_address (pos 0) noted memory run asking asking-AreInputs
      asking_asks refl refl

-- The current index is behind the parameter that asks.
abbrev behind : Stmt ℤ
behind = record asking { current = 2 }

asked_before_current_example :
    (s' : Stmt ℤ) × (get_param_data
        (partial_conversion is_known_ctype join_address (pos 0) noted)
        memory
        run
        behind
      ≡ some (s', need_data))
    × (s'.sent ≡ [])
    × (s'.current ≡ 2)
asked_before_current_example =
    asked_before_current is_known_ctype join_address (pos 0) noted memory run behind
      asking-AreInputs asking_asks tt refl refl

abbrev again : Given
again = record {
  given_num = 2;
  given_direction = input;
  given_value_type = CType.char;
  given_param_type = OdbcType.varchar;
  given_precision = pos 0;
  given_scale = pos 0;
  given_value = some (pos 4000);
  given_size = pos 4;
  given_len = none;
}

abbrev supplied_before : Parameter
supplied_before = record (text_parameter 2 none) { is_bound = true }

again_ready : needs_data memory (set_parameter (pos 38) again supplied_before).0 ≡ false
unfolding needs_data set_parameter set_fields asks_data_at_exec
again_ready = refl

rebound_value_is_dropped_example :
    bind_parameter
      (partial_conversion is_known_ctype join_address (pos 0) noted)
      memory
      false
      (pos 0)
      (pos 0)
      (set_parameter (pos 38) again supplied_before).0
      asking.bound
    ≡ some ((set_parameter (pos 38) again supplied_before).0, asking.bound, success)
rebound_value_is_dropped_example =
    rebound_value_is_dropped is_known_ctype join_address (pos 0) noted memory (pos 38) again
      supplied_before asking.bound refl again_ready
