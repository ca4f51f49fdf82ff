-- ===== src/Attributes.antt =====
-- Statement attributes: setAttributeT and getAttributeT of src/driver/cpp/SnappyStatement.cpp.
-- client::StatementAttributes belongs to the client library and is a parameter; pointers of the
-- application are numbers, 0 is null, and attribute values are SQLULEN, below 2^64.
pub mod Access
pub mod RoundTrip
pub mod Refused
use snappy_odbc.Common.{
  ℕ, ◌-◌, ◌%◌, Bool, true, false, ◌&&◌, ◌||◌, ◌==◌, ltb, if◌then◌else◌, ℤ, pos, negsuc,
}
use snappy_odbc.Driver.{
  SqlReturn, success, success_with_info, error, SqlError, invalid_attribute_value,
  option_value_changed, option_cannot_be_set, Diag, set_exception,
}

pub data ResultSetType : Type 0 where
  forward_only insensitive sensitive unknown_type : ResultSetType

-- client::StatementAttributes
pub record StatementAttributes {ℓ} (A : Type ℓ) : Type ℓ where
  pub is_updatable : A → Bool
  pub set_updatable : Bool → A → A
  pub result_set_type : A → ResultSetType
  pub set_result_set_type : ResultSetType → A → A
  pub max_field_size : A → ℕ
  pub set_max_field_size : ℕ → A → A
  pub max_rows : A → ℕ
  pub set_max_rows : ℕ → A → A
  pub timeout : A → ℕ
  pub set_timeout : ℕ → A → A
  pub has_escape_processing : A → Bool
  pub set_escape_processing : Bool → A → A

-- SQL_ATTR_*
pub data Attribute : Type 0 where
  concurrency cursor_scrollable cursor_sensitivity cursor_type enable_auto_ipd : Attribute
  fetch_bookmark_ptr max_length max_rows_attr metadata_id row_array_size row_bind_type : Attribute
  row_status_ptr rows_fetched_ptr row_bind_offset_ptr noscan param_bind_type : Attribute
  paramset_size param_status_ptr params_processed_ptr query_timeout keyset_size : Attribute
  param_bind_offset_ptr param_operation_ptr row_operation_ptr async_enable : Attribute
  retrieve_data app_row_desc imp_row_desc app_param_desc imp_param_desc : Attribute
  other_attribute : ℕ → Attribute

pub record Stmt {ℓ} (A : Type ℓ) : Type ℓ where
  pub attrs : A
  pub prepared : Bool
  pub has_result_set : Bool
  pub bookmark : ℤ
  pub batch_size : ℕ
  pub binding_orientation : ℕ
  pub row_status_at : ℕ
  pub fetched_rows_at : ℕ
  pub bind_offset_at : ℕ
  pub args_as_identifiers : Bool
  pub param_binding_orientation : ℕ
  pub param_set_size : ℕ
  pub param_status_at : ℕ
  pub params_processed_at : ℕ
  pub key_set_size : ℕ
  pub param_bind_offset_at : ℕ
  pub param_operation_at : ℕ
  pub row_operation_at : ℕ
  pub diag : Diag

-- What is stored through valueBuffer: a SQLULEN, a SQLLEN, a pointer, or a descriptor. The length
-- that is stored with it is the size of that type.
pub data AttributeValue : Type 0 where
  ulen : ℕ → AttributeValue
  len : ℤ → AttributeValue
  pointer : ℕ → AttributeValue
  ard ird apd ipd : AttributeValue

-- The values of the ODBC headers that the switches name.
abbrev pub concur_read_only : ℕ
concur_read_only = 1

abbrev pub concur_lock : ℕ
concur_lock = 2

abbrev pub concur_rowver : ℕ
concur_rowver = 3

abbrev pub concur_values : ℕ
concur_values = 4

abbrev pub nonscrollable : ℕ
nonscrollable = 0

abbrev pub scrollable : ℕ
scrollable = 1

abbrev pub unspecified : ℕ
unspecified = 0

abbrev pub insensitive_cursor : ℕ
insensitive_cursor = 1

abbrev pub sensitive_cursor : ℕ
sensitive_cursor = 2

abbrev pub cursor_forward_only : ℕ
cursor_forward_only = 0

abbrev pub cursor_keyset_driven : ℕ
cursor_keyset_driven = 1

abbrev pub cursor_dynamic : ℕ
cursor_dynamic = 2

abbrev pub cursor_static : ℕ
cursor_static = 3

-- The conversions to uint32_t, and from SQLLEN to SQLINTEGER.
abbrev pub to_uint32 : ℕ → ℕ
to_uint32 n = n % 4294967296

unfoldable pub to_sqlinteger : ℤ → ℤ
to_sqlinteger (pos n) =
    if ltb (n % 4294967296) 2147483648
    then pos (n % 4294967296)
    else negsuc (4294967295 - n % 4294967296)
to_sqlinteger (negsuc n) =
    if ltb (n % 4294967296) 2147483648
    then negsuc (n % 4294967296)
    else pos (4294967295 - n % 4294967296)

abbrev pub is_forward_only : ResultSetType → Bool
is_forward_only forward_only = true
is_forward_only _ = false

module _ {ℓ} {A : Type ℓ} where
  abbrev pub fail : SqlError → Stmt A → Stmt A × SqlReturn
  fail e s = (record s { diag = set_exception e s.diag }, error)

  abbrev pub with_info : SqlError → Stmt A → Stmt A × SqlReturn
  with_info e s = (record s { diag = set_exception e s.diag }, success_with_info)

  -- The attributes that are refused once the statement is prepared.
  abbrev pub if_unprepared : Stmt A → Stmt A × SqlReturn → Stmt A × SqlReturn
  if_unprepared s set = if s.prepared then fail option_cannot_be_set s else set

module _ {ℓ} {A : Type ℓ} (api : StatementAttributes A) where
  abbrev with_type : ResultSetType → Stmt A → Stmt A
  with_type t s = record s { attrs = api.set_result_set_type t s.attrs }

  unfoldable pub set_concurrency : ℕ → Stmt A → Stmt A × SqlReturn
  set_concurrency v s =
      if v == concur_read_only
      then (record s { attrs = api.set_updatable false s.attrs }, success)
      else if v == concur_lock
      then (record s { attrs = api.set_updatable true s.attrs }, success)
      else if v == concur_rowver || v == concur_values
      then with_info option_value_changed (record s { attrs = api.set_updatable true s.attrs })
      else fail invalid_attribute_value s

  unfoldable pub set_cursor_scrollable : ℕ → Stmt A → Stmt A × SqlReturn
  set_cursor_scrollable v s =
      if v == nonscrollable
      then (with_type forward_only s, success)
      else if v == scrollable
      then (
        if is_forward_only (api.result_set_type s.attrs) then with_type insensitive s else s,
        success,
      )
      else fail invalid_attribute_value s

  unfoldable pub set_cursor_sensitivity : ℕ → Stmt A → Stmt A × SqlReturn
  set_cursor_sensitivity v s =
      if v == unspecified
      then (s, success)
      else if v == insensitive_cursor
      then (with_type insensitive s, success)
      else if v == sensitive_cursor
      then (
        if is_forward_only (api.result_set_type s.attrs) then s else with_type sensitive s,
        success,
      )
      else fail invalid_attribute_value s

  unfoldable pub set_cursor_type : ℕ → Stmt A → Stmt A × SqlReturn
  set_cursor_type v s =
      if v == cursor_forward_only
      then (with_type forward_only s, success)
      else if v == cursor_static
      then (with_type insensitive s, success)
      else if v == cursor_dynamic
      then (with_type sensitive s, success)
      else if v == cursor_keyset_driven
      then with_info option_value_changed (with_type insensitive s)
      else fail invalid_attribute_value s

  unfoldable pub set_enable_auto_ipd : ℕ → Stmt A → Stmt A × SqlReturn
  set_enable_auto_ipd v s =
      if v == 1 || v == 0 then (s, success) else fail invalid_attribute_value s

  -- SQL_ATTR_MAX_LENGTH and SQL_ATTR_MAX_ROWS: too late once the prepared statement has a result.
  unfoldable pub set_limit : (ℕ → A → A) → ℕ → Stmt A → Stmt A × SqlReturn
  set_limit set v s =
      if s.prepared && s.has_result_set
      then with_info option_value_changed s
      else (record s { attrs = set (to_uint32 v) s.attrs }, success)
