-- ===== src/Parameters.antt =====
-- Bound parameters: Parameter of src/driver/cpp/SnappyStatement.h, and addParameter, bindParameter
-- and bindParameters of SnappyStatement.cpp. The switch of bindParameter over the C types is taken
-- as a function, `convert`; addresses and lengths are integers, and `at` reads the SQLLEN at an
-- address. A read of a field that was never set, or of memory out of bounds, is the fault `none`.
pub mod Execute
pub mod Contents
pub mod Ready
pub mod Puts
pub mod Protocol
pub mod Supply
pub mod Rounds
pub mod Answered
pub mod Asks
pub mod Arrays
pub mod Values
pub mod Switch
use snappy_odbc.Common.{
  ℕ, suc, ◌-◌, Bool, true, false, ◌&&◌, ◌||◌, not, Option, none, some, is_some, List, [], ◌∷◌, ◌++◌,
  ltb, ◌==◌, if◌then◌else◌, ◌>>=◌, ℤ, pos, negsuc, ◌+ℤ◌, ◌*ℤ◌, leb_ℤ, ◌==ℤ◌, length, take,
  replicate, set, get_elem?,
}
use snappy_odbc.Strings.{restrict_length, sqluinteger, sql_null_data}
use snappy_odbc.Types.{
  OdbcType, CType, convert_type_to_c_type, convert_type_to_sql_type, check_supported_conversion,
}
use snappy_odbc.Driver.{
  SqlReturn, success, error, need_data, SqlError, invalid_ctype, invalid_parameter_type,
  type_attribute_violation, Outcome, returned, threw, Thrown, Diag, set_exception,
}

pub data Direction : Type 0 where
  input input_output output unset : Direction

pub record Parameter : Type 0 where
  pub param_num : ℕ
  pub direction : Direction
  pub is_data_at_exec : Bool
  pub is_bound : Bool
  pub value_type : Option CType
  pub param_type : Option OdbcType
  pub precision : ℤ
  pub scale : ℤ
  pub value : Option ℤ
  pub value_size : ℤ
  pub len_or_ind : Option ℤ

-- Parameter's initial values; a field that is left uninitialised is `none` or 0.
abbrev pub new_parameter : Parameter
new_parameter = record {
  param_num = 0;
  direction = unset;
  is_data_at_exec = true;
  is_bound = false;
  value_type = none;
  param_type = none;
  precision = pos 0;
  scale = pos 0;
  value = none;
  value_size = pos 0;
  len_or_ind = none;
}

-- What SQLBindParameter is given.
pub record Given : Type 0 where
  pub given_num : ℕ
  pub given_direction : Direction
  pub given_value_type : CType
  pub given_param_type : OdbcType
  pub given_precision : ℤ
  pub given_scale : ℤ
  pub given_value : Option ℤ
  pub given_size : ℤ
  pub given_len : Option ℤ

abbrev pub is_default : CType → Bool
is_default CType.default = true
is_default _ = false

-- Parameter::set up to the C type; m_isBound stays as it was. `default_precision` is the client
-- library's DEFAULT_REAL_PRECISION.
unfoldable pub set_fields : ℤ → Given → Parameter → Parameter
set_fields default_precision g p = record p {
  param_num = g.given_num;
  direction = g.given_direction;
  value_type = some g.given_value_type;
  param_type = some g.given_param_type;
  precision = if leb_ℤ g.given_precision (pos 0) then default_precision else g.given_precision;
  scale = g.given_scale;
  is_data_at_exec = false;
  len_or_ind = g.given_len;
  value = g.given_value;
  value_size = g.given_size;
}

-- Parameter::set; SQL_C_DEFAULT with a type that has no C type is an exception.
unfoldable pub set_parameter : ℤ → Given → Parameter → Parameter × Bool
unfolding set_fields
set_parameter default_precision g p =
    if is_default g.given_value_type
    then elim (convert_type_to_c_type g.given_param_type) [
      | none ↦ (set_fields default_precision g p, false)
      | some c ↦ (record (set_fields default_precision g p) { value_type = some c }, true)
    ]
    else (set_fields default_precision g p, true)

unfoldable pub resize {ℓ} : {A : Type ℓ} → A → ℕ → List A → List A
resize d n xs = take n xs ++ replicate (n - length xs) d

-- The SQL type of the parameter converts, by convertTypeToSQLType.
abbrev pub has_sql_type : Parameter → Bool
has_sql_type p = elim p.param_type [ none ↦ false | some t ↦ is_some (convert_type_to_sql_type t) ]

-- `paramValue && lenOrIndPtr && *lenOrIndPtr == SQL_NULL_DATA`
abbrev pub is_null_given : (ℤ → ℤ) → Given → Bool
is_null_given at g = elim g.given_len [ none ↦ false | some a ↦ at a ==ℤ sql_null_data ]

-- The outcome `none` is the exception that leaves SQLBindParameter.
unfoldable pub add_parameter :
    (ℤ → ℤ) → ℤ → Given → List Parameter → Diag → Option (List Parameter × Diag × Option SqlReturn)
unfolding set_parameter resize
add_parameter at default_precision g params d =
    let sized =
      if ltb (length params) g.given_num then resize new_parameter g.given_num params else params in
    let value = if is_null_given at g then none else g.given_value in
    let g' = record g {
      given_value = value;
      given_precision = restrict_length sqluinteger false g.given_precision;
    } in
    if g.given_num == 0 then none else (do
      p ← get_elem? sized (g.given_num - 1)
      let (p', ok) = set_parameter default_precision g' p
      let params' = set sized (g.given_num - 1) p'
      some (
          if ok
          then (if check_supported_conversion g.given_value_type g.given_param_type
              then (params', d, some success)
              else (params', set_exception type_attribute_violation d, some error))
          else (params', d, none)))

-- IS_DATA_AT_EXEC: SQL_DATA_AT_EXEC is -2, SQL_LEN_DATA_AT_EXEC_OFFSET is -100.
unfoldable pub asks_data_at_exec : (ℤ → ℤ) → Option ℤ → Bool
asks_data_at_exec at none = false
asks_data_at_exec at (some a) = at a ==ℤ negsuc 1 || leb_ℤ (at a) (negsuc 99)

-- A value of the application: where it is, and the length that goes with it, if any.
pub record Piece : Type 0 where
  pub address : ℤ
  pub len : Option ℤ

-- The switch over the C types: the new contents of the parameter's slot, appended to where the
-- flag says so (`none` for a type it does not know), and the size that it notes.
pub record Conversion {ℓ} (V : Type ℓ) : Type ℓ where
  pub convert : CType → Bool → Piece → List V → Option (List V)
  pub null_value : V
  pub noted_size : CType → ℤ → ℤ

-- m_execParams by parameter number, the registered output parameters, and the last error.
pub record Bound {ℓ} (V : Type ℓ) : Type ℓ where
  pub exec : List (List V)
  pub outs : List ℕ
  pub diag : Diag

-- A value that is there, of a parameter that is not output only.
unfoldable pub input_value : Parameter → Option ℤ
input_value p = elim p.direction [ output ↦ none | other ↦ p.value ]

unfoldable pub piece_at : (ℤ → ℤ) → Parameter → ℤ → ℤ → ℤ → Piece
piece_at at p v value_offset len_offset = record {
  address = v +ℤ value_offset;
  len = elim p.len_or_ind [ none ↦ none | some a ↦ some (at (a +ℤ len_offset *ℤ pos 8)) ];
}

unfoldable pub needs_data : (ℤ → ℤ) → Parameter → Bool
needs_data at p = p.is_data_at_exec || asks_data_at_exec at p.len_or_ind

-- bindParameter is left by the exception of convertTypeToSQLType.
unfoldable pub throws : (ℤ → ℤ) → Parameter → Bool
throws at p =
    if needs_data at p || p.is_bound
    then false
    else elim (input_value p) [ none ↦ not (has_sql_type p) | some v ↦ false ]

module _ {ℓ} {V : Type ℓ} where
  unfoldable pub register_out : Parameter → Bound V → Bound V
  register_out p b = elim p.direction [
    | output ↦ record b { outs = b.outs ++ p.param_num ∷ [] }
    | input_output ↦ record b { outs = b.outs ++ p.param_num ∷ [] }
    | other ↦ b
  ]

  unfoldable pub store_value : Parameter → List V → Bound V → Bound V
  store_value p new b = register_out p (record b { exec = set b.exec (p.param_num - 1) new })

module _ {ℓ} {V : Type ℓ} (cv : Conversion V) (at : ℤ → ℤ) where
  -- setNull, and convertTypeToSQLType. Its exception, for an SQL type that it does not know, leaves
  -- bindParameter; here it is what the callers that catch it make of it.
  unfoldable pub bind_null : Parameter → Bound V → Parameter × Bound V × SqlReturn
  bind_null p b = if has_sql_type p then (p, store_value p (cv.null_value ∷ []) b, success) else (
    p,
    record b {
      exec = set b.exec (p.param_num - 1) (cv.null_value ∷ []);
      diag = set_exception invalid_parameter_type b.diag;
    },
    error,
  )

  -- The switch, for a slot with the given contents, a value and a C type.
  unfoldable pub bind_slot :
      Bool
      → ℤ
      → ℤ
      → Parameter
      → Bound V
      → List V
      → Option ℤ
      → Option CType
      → Option (Parameter × Bound V × SqlReturn)
  bind_slot append value_offset len_offset p b old none c = some (bind_null p b)
  bind_slot append value_offset len_offset p b old (some v) none = none
  bind_slot append value_offset len_offset p b old (some v) (some c) =
      elim (cv.convert c append (piece_at at p v value_offset len_offset) old) [
        | none ↦ some (p, record b { diag = set_exception invalid_ctype b.diag }, error)
        | some new ↦
            some
              (record p { value_size = cv.noted_size c p.value_size }, store_value p new b, success)
      ]

  -- bindParameter behind its first checks.
  unfoldable pub bind_value :
      Bool → ℤ → ℤ → Parameter → Bound V → Option (Parameter × Bound V × SqlReturn)
  bind_value append value_offset len_offset p b = do
    old ← get_elem? b.exec (p.param_num - 1)
    bind_slot append value_offset len_offset p b old (input_value p) p.value_type

  unfoldable pub bind_parameter :
      Bool → ℤ → ℤ → Parameter → Bound V → Option (Parameter × Bound V × SqlReturn)
  bind_parameter true value_offset len_offset p b = bind_value true value_offset len_offset p b
  bind_parameter false value_offset len_offset p b =
      if needs_data at p
      then some (record p { is_data_at_exec = true; len_or_ind = none }, b, need_data)
      else if p.is_bound
      then some (p, b, success)
      else bind_value false value_offset len_offset p b

  -- The loop of bindParameters; it stops at a parameter that was not bound.
  unfoldable pub bind_each :
      List Parameter → Bound V → Option (List Parameter × Bound V × SqlReturn)
  bind_each [] b = some ([], b, success)
  bind_each (p ∷ ps) b = do
    bound ← bind_parameter false (pos 0) (pos 0) p b
    elim bound.2 [
      | success ↦ (do rest ← bind_each ps bound.1; some (bound.0 ∷ rest.0, rest.1, rest.2))
      | other ↦ some (bound.0 ∷ ps, bound.1, other)
    ]

  unfoldable pub bind_parameters :
      List Parameter → Bound V → Option (List Parameter × Bound V × SqlReturn)
  bind_parameters ps b = bind_each ps (record b { exec = resize [] (length ps) b.exec })
