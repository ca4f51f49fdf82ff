-- ===== src/Environments.antt =====
-- Attributes of an environment: setAttribute and getAttribute of src/driver/cpp/SnappyEnvironment.cpp.
-- A value is the pointer that is handed over, of 64 bits, of which the low 32 are read.
use snappy_odbc.Common.{
  ℕ, ◌%◌, ◌≡◌, Bool, true, false, Option, none, some, ◌==◌, if◌then◌else◌, arith,
}
use snappy_odbc.Driver.{
  SqlReturn, success, error, SqlError, feature_not_implemented, unknown_attribute, Diag,
  set_exception, clear_last_error,
}

pub data EnvAttribute : Type 0 where
  odbc_version output_nts connection_pooling cp_match : EnvAttribute
  unknown : EnvAttribute

-- m_appIsVersion2x and the last error.
pub record Environment : Type 0 where
  pub app_is_version2x : Bool
  pub diag : Diag

-- `(SQLINTEGER)(SQLBIGINT)value`; the values below are not negative.
abbrev pub int_value : ℕ → ℕ
int_value value = value % 4294967296

abbrev pub refuse : SqlError → Environment → Environment × SqlReturn
refuse e s = (record s { diag = set_exception e s.diag }, error)

-- The one value that is implemented.
abbrev pub only : ℕ → ℕ → Environment → Environment × SqlReturn
only supported value s =
    if int_value value == supported then (s, success) else refuse feature_not_implemented s

-- SQL_OV_ODBC2 and SQL_OV_ODBC3 are 2 and 3; SQL_TRUE is 1, SQL_CP_OFF and SQL_CP_STRICT_MATCH
-- are 0.
unfoldable pub change_attribute : EnvAttribute → ℕ → Environment → Environment × SqlReturn
change_attribute odbc_version value s =
    if int_value value == 3
    then (record s { app_is_version2x = false }, success)
    else if int_value value == 2
    then (record s { app_is_version2x = true }, success)
    else refuse feature_not_implemented s
change_attribute output_nts value s = only 1 value s
change_attribute connection_pooling value s = only 0 value s
change_attribute cp_match value s = only 0 value s
change_attribute unknown value s = refuse unknown_attribute s

unfoldable pub set_env_attribute : EnvAttribute → ℕ → Environment → Environment × SqlReturn
set_env_attribute a value s = change_attribute a value (record s { diag = clear_last_error s.diag })

-- The value of an attribute, and nothing for one that is not known.
unfoldable pub env_value : EnvAttribute → Environment → Option ℕ
env_value odbc_version s = some (if s.app_is_version2x then 2 else 3)
env_value output_nts s = some 1
env_value connection_pooling s = some 0
env_value cp_match s = some 0
env_value unknown s = none

-- getAttribute; the value is stored where a pointer is given.
unfoldable pub get_env_attribute : EnvAttribute → Environment → Environment × SqlReturn × Option ℕ
get_env_attribute a s =
    let s₀ = record s { diag = clear_last_error s.diag } in
    elim (env_value a s₀) [
      | none ↦ (record s₀ { diag = set_exception feature_not_implemented s₀.diag }, error, none)
      | some v ↦ (s₀, success, some v)
    ]

-- A value is accepted exactly if it is read back.
change_attribute-succeeds :
    (a : EnvAttribute) (value : ℕ) (s : Environment)
    → (change_attribute a value s).1 ≡ success
    → env_value a (change_attribute a value s).0 ≡ some (int_value value)
unfolding change_attribute env_value
change_attribute-succeeds odbc_version value s h = ground arith
change_attribute-succeeds output_nts value s h = ground arith
change_attribute-succeeds connection_pooling value s h = ground arith
change_attribute-succeeds cp_match value s h = ground arith
change_attribute-succeeds unknown value s h = absurd (ground arith)
