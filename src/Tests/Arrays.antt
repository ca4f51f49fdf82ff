-- ===== src/Tests/Arrays.antt =====
-- Concrete arrays of parameters.
use snappy_odbc.Common.{
  ℕ, suc, ◌≡◌, refl, Bool, true, false, none, some, List, [], ◌∷◌, ◌||◌, ℤ, pos, negsuc, replicate,
  All, arith,
}
use snappy_odbc.Types.{is_known_ctype, OdbcType, CType, convert_type_to_sql_type}
use snappy_odbc.Driver.{SqlReturn, success, need_data, returned}
use snappy_odbc.Parameters.{
  Parameter, new_parameter, input, Piece, Bound, bind_parameter, needs_data, asks_data_at_exec,
  register_out, store_value, throws, piece_at, bind_slot, bind_value, input_value,
}
use snappy_odbc.Parameters.Execute.{Stmt, Answer}
use snappy_odbc.Parameters.Contents.{partial_conversion, AreInputs, contents_with, parameter_with}
use snappy_odbc.Parameters.Values.{Numeric, numeric_content, decimal}
use snappy_odbc.Parameters.Values.Trim.{numeric_content-length}
use snappy_odbc.Parameters.Arrays.{
  ParamStatus, param_success, param_error, Filling, value_offset_of, bind_set, status_after,
  result_after, is_sql_error, bind_array_of_parameters,
}
use snappy_odbc.Parameters.Arrays.Running.{
  insert, Prepared, ArrayAttributes, finish_batch, execute_direct,
}
use snappy_odbc.Parameters.Arrays.Columns.{IsPlainInput, bind_array-sets}
use snappy_odbc.Parameters.Arrays.Severity.{is_failure, any_of, Answers, bind_set-severity}
use snappy_odbc.Parameters.Arrays.Direct.{direct_array_forgets_parameters}

-- The contents are the addresses that were read.
abbrev read_address : CType → Bool → Piece → List ℤ → List ℤ
read_address c append piece old = piece.address ∷ []

abbrev same_size : CType → ℤ → ℤ
same_size c n = n

abbrev fours : ℤ → ℤ
fours a = pos 4

-- Integers of four bytes, from an address on.
abbrev numbers_at : ℕ → ℕ → Parameter
numbers_at i a = record new_parameter {
  param_num = suc i;
  direction = input;
  is_data_at_exec = false;
  value_type = some CType.slong;
  param_type = some OdbcType.integer;
  value = some (pos a);
  value_size = pos 4;
  len_or_ind = none;
}

abbrev two : List Parameter
two = numbers_at 0 1000 ∷ numbers_at 1 2000 ∷ []

abbrev no_slots : Bound ℤ
no_slots = record { exec = []; outs = []; diag = record { last_error = none; global_error = none } }

two-AreInputs : AreInputs is_known_ctype 0 two
unfolding convert_type_to_sql_type
two-AreInputs = (
  record {
    numbered = refl;
    is_input = refl;
    ctype = CType.slong;
    typed = refl;
    known = refl;
    sql_typed = refl;
  },
  (
    record {
      numbered = refl;
      is_input = refl;
      ctype = CType.slong;
      typed = refl;
      known = refl;
      sql_typed = refl;
    },
    tt,
  ),
)

two-IsPlainInput : All (IsPlainInput is_known_ctype read_address (pos 0) same_size fours) two
unfolding needs_data asks_data_at_exec parameter_with
two-IsPlainInput = (
  record { present = refl; unbound = refl; sized = refl },
  (record { present = refl; unbound = refl; sized = refl }, tt),
)

-- Two sets by column, eight bytes on.
bind_array-sets_example :
    bind_array_of_parameters
      (partial_conversion is_known_ctype read_address (pos 0) same_size)
      fours
      2
      2
      0
      (some (pos 8))
      two
      no_slots
    ≡ some (record {
      fields = two;
      slots = no_slots;
      batch =
          ((pos 1008 ∷ []) ∷ (pos 2008 ∷ []) ∷ []) ∷ ((pos 1012 ∷ []) ∷ (pos 2012 ∷ []) ∷ []) ∷ [];
      statuses = param_success ∷ param_success ∷ [];
      result = success;
      raised = false;
    })
unfolding contents_with piece_at value_offset_of
bind_array-sets_example =
    bind_array-sets is_known_ctype read_address (pos 0) same_size fours 0 2 (some (pos 8)) two
      no_slots two-AreInputs two-IsPlainInput refl (omega arith)

-- Data at execution for the second parameter.
abbrev second_asks : List Parameter
second_asks = numbers_at 0 1000 ∷ (record (numbers_at 1 2000) { is_data_at_exec = true }) ∷ []

abbrev after_second_asks : List Parameter × Bound ℤ × ParamStatus × SqlReturn × Bool
after_second_asks = (
  second_asks,
  record no_slots { exec = (pos 1000 ∷ []) ∷ [] ∷ [] },
  param_error,
  need_data,
  false,
)

bind_set-severity_example :
    (rets : List SqlReturn) × Answers
      (partial_conversion is_known_ctype read_address (pos 0) same_size)
      fours
      (λ p. pos 0)
      (pos 0)
      second_asks
      (record no_slots { exec = [] ∷ [] ∷ [] })
      rets
    × (true ≡ any_of is_failure rets)
    × (false ≡ (false || any_of is_sql_error rets))
unfolding bind_set throws status_after result_after bind_parameter needs_data bind_value bind_slot
    input_value store_value register_out asks_data_at_exec piece_at
bind_set-severity_example =
    bind_set-severity (partial_conversion is_known_ctype read_address (pos 0) same_size) fours
      (λ p. pos 0) (pos 0) second_asks (record no_slots { exec = [] ∷ [] ∷ [] }) success
      after_second_asks refl refl

abbrev direct : Stmt ℤ
direct = record {
  params = two;
  bound = no_slots;
  current = 0;
  prepared = false;
  has_result = false;
  has_result_set = false;
  sent = [];
}

abbrev three_sets : ArrayAttributes
three_sets = record {
  set_size = 3;
  bind_offset_ptr = none;
  orientation = 0;
  has_row_status = false;
}

abbrev inserting : Prepared ℤ
inserting = record {
  num_params = 2;
  kind = insert;
  execute_batch = λ batch. returned (pos 1 ∷ pos 1 ∷ pos 1 ∷ []);
}

abbrev plain_answer : Answer
plain_answer = record { with_result_set = false; warning = none }

direct_array_forgets_parameters_example :
    (f : Filling ℤ) × (s' : Stmt ℤ) × (execute_direct
        (partial_conversion is_known_ctype read_address (pos 0) same_size)
        fours
        three_sets
        (returned inserting)
        inserting
        (λ sets. returned plain_answer)
        (returned plain_answer)
        direct
      ≡ some (finish_batch three_sets inserting f (inserting.execute_batch f.batch) s'))
    × (f.batch ≡ replicate 3 ([] ∷ [] ∷ []))
    × (s'.params ≡ [])
    × (s'.prepared ≡ true)
direct_array_forgets_parameters_example =
    direct_array_forgets_parameters
      (partial_conversion is_known_ctype read_address (pos 0) same_size) fours three_sets inserting
      inserting (λ sets. returned plain_answer) (returned plain_answer) direct refl refl
      (omega arith) (omega arith)

-- A negative zero with two digits behind the point: the length is one less than 0.
abbrev negative_zero : Numeric
negative_zero = record { precision = 5; scale = 2; sign = 0; val = replicate 16 0 }

numeric_content-length_example :
    numeric_content negative_zero ≡ decimal false 2 (replicate 16 0) (negsuc 0)
numeric_content-length_example = numeric_content-length negative_zero (λ e. omega (arith, e)) refl
