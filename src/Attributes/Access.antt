-- ===== src/Attributes/Access.antt =====
-- SQLSetStmtAttr and SQLGetStmtAttr: the switches of setAttributeT and getAttributeT
-- (src/driver/cpp/SnappyStatement.cpp).
use snappy_odbc.Common.{ℕ, not, Option, none, some, ◌==◌, if◌then◌else◌, ℤ, negsuc}
use snappy_odbc.Driver.{
  SqlReturn, success, error, invalid_attribute_value, feature_not_implemented, clear_last_error,
}
use snappy_odbc.Attributes.{
  StatementAttributes, Attribute, Stmt, AttributeValue, ResultSetType, forward_only, insensitive,
  sensitive, unknown_type, concurrency, cursor_scrollable, cursor_sensitivity, cursor_type,
  enable_auto_ipd, fetch_bookmark_ptr, max_length, max_rows_attr, metadata_id, row_array_size,
  row_bind_type, row_status_ptr, rows_fetched_ptr, row_bind_offset_ptr, noscan, param_bind_type,
  paramset_size, param_status_ptr, params_processed_ptr, query_timeout, keyset_size,
  param_bind_offset_ptr, param_operation_ptr, row_operation_ptr, async_enable, retrieve_data,
  app_row_desc, imp_row_desc, app_param_desc, imp_param_desc, other_attribute, ulen, len, pointer,
  ard, ird, apd, ipd, concur_read_only, concur_lock, nonscrollable, scrollable, unspecified,
  insensitive_cursor, sensitive_cursor, cursor_forward_only, cursor_static, cursor_dynamic,
  to_uint32, to_sqlinteger, fail, if_unprepared, set_concurrency, set_cursor_scrollable,
  set_cursor_sensitivity, set_cursor_type, set_enable_auto_ipd, set_limit,
}

abbrev pub clear {ℓ} : {A : Type ℓ} → Stmt A → Stmt A
clear s = record s { diag = clear_last_error s.diag }

abbrev scrollable_of : ResultSetType → ℕ
scrollable_of forward_only = nonscrollable
scrollable_of insensitive = scrollable
scrollable_of sensitive = scrollable
scrollable_of unknown_type = nonscrollable

abbrev sensitivity_of : ResultSetType → ℕ
sensitivity_of forward_only = sensitive_cursor
sensitivity_of insensitive = insensitive_cursor
sensitivity_of sensitive = sensitive_cursor
sensitivity_of unknown_type = unspecified

abbrev cursor_type_of : ResultSetType → ℕ
cursor_type_of forward_only = cursor_forward_only
cursor_type_of insensitive = cursor_static
cursor_type_of sensitive = cursor_dynamic
cursor_type_of unknown_type = cursor_forward_only

module _ {ℓ} {A : Type ℓ} (api : StatementAttributes A) where
  -- `at` reads the SQLLEN at an address.
  unfoldable pub set_value : (ℕ → ℤ) → Attribute → ℕ → Stmt A → Stmt A × SqlReturn
  set_value at concurrency v s = if_unprepared s (set_concurrency api v s)
  set_value at cursor_scrollable v s = if_unprepared s (set_cursor_scrollable api v s)
  set_value at cursor_sensitivity v s = if_unprepared s (set_cursor_sensitivity api v s)
  set_value at cursor_type v s = if_unprepared s (set_cursor_type api v s)
  set_value at enable_auto_ipd v s = set_enable_auto_ipd api v s
  set_value at fetch_bookmark_ptr v s =
      (record s { bookmark = if v == 0 then negsuc 0 else to_sqlinteger (at v) }, success)
  set_value at max_length v s = set_limit api api.set_max_field_size v s
  set_value at max_rows_attr v s = set_limit api api.set_max_rows v s
  set_value at metadata_id v s = (record s { args_as_identifiers = not (v == 0) }, success)
  set_value at row_array_size v s = (record s { batch_size = to_uint32 v }, success)
  set_value at row_bind_type v s = (record s { binding_orientation = v }, success)
  set_value at row_status_ptr v s = (record s { row_status_at = v }, success)
  set_value at rows_fetched_ptr v s = (record s { fetched_rows_at = v }, success)
  set_value at row_bind_offset_ptr v s = (record s { bind_offset_at = v }, success)
  set_value at noscan v s =
      (record s { attrs = api.set_escape_processing (v == 0) s.attrs }, success)
  set_value at param_bind_type v s = (record s { param_binding_orientation = v }, success)
  set_value at paramset_size v s = (record s { param_set_size = v }, success)
  set_value at param_status_ptr v s = (record s { param_status_at = v }, success)
  set_value at params_processed_ptr v s = (record s { params_processed_at = v }, success)
  set_value at query_timeout v s =
      (record s { attrs = api.set_timeout (to_uint32 v) s.attrs }, success)
  set_value at keyset_size v s = (record s { key_set_size = v }, success)
  set_value at param_bind_offset_ptr v s = (record s { param_bind_offset_at = v }, success)
  set_value at param_operation_ptr v s = (record s { param_operation_at = v }, success)
  set_value at row_operation_ptr v s = (record s { row_operation_at = v }, success)
  set_value at async_enable v s = fail feature_not_implemented s
  set_value at retrieve_data v s = fail feature_not_implemented s
  set_value at app_row_desc v s = fail feature_not_implemented s
  set_value at app_param_desc v s = fail feature_not_implemented s
  set_value at imp_row_desc v s = fail invalid_attribute_value s
  set_value at imp_param_desc v s = fail invalid_attribute_value s
  set_value at (other_attribute n) v s = fail invalid_attribute_value s

  unfoldable pub set_attribute : (ℕ → ℤ) → Attribute → ℕ → Stmt A → Stmt A × SqlReturn
  set_attribute at a v s = set_value at a v (clear s)

  -- What getAttributeT stores, where it knows the attribute.
  unfoldable pub value_of : Attribute → Stmt A → Option AttributeValue
  value_of app_row_desc s = some ard
  value_of imp_row_desc s = some ird
  value_of app_param_desc s = some apd
  value_of imp_param_desc s = some ipd
  value_of concurrency s =
      some (ulen (if api.is_updatable s.attrs then concur_lock else concur_read_only))
  value_of cursor_scrollable s = some (ulen (scrollable_of (api.result_set_type s.attrs)))
  value_of cursor_sensitivity s = some (ulen (sensitivity_of (api.result_set_type s.attrs)))
  value_of cursor_type s = some (ulen (cursor_type_of (api.result_set_type s.attrs)))
  value_of enable_auto_ipd s = some (ulen 0)
  value_of fetch_bookmark_ptr s = some (len s.bookmark)
  value_of max_length s = some (ulen (api.max_field_size s.attrs))
  value_of max_rows_attr s = some (ulen (api.max_rows s.attrs))
  value_of row_array_size s = some (ulen s.batch_size)
  value_of row_bind_type s = some (ulen s.binding_orientation)
  value_of row_status_ptr s = some (pointer s.row_status_at)
  value_of rows_fetched_ptr s = some (pointer s.fetched_rows_at)
  value_of row_bind_offset_ptr s = some (pointer s.bind_offset_at)
  value_of metadata_id s = some (ulen (if s.args_as_identifiers then 1 else 0))
  value_of noscan s = some (ulen (if api.has_escape_processing s.attrs then 0 else 1))
  value_of param_bind_type s = some (ulen s.param_binding_orientation)
  value_of paramset_size s = some (ulen s.param_set_size)
  value_of param_status_ptr s = some (pointer s.param_status_at)
  value_of params_processed_ptr s = some (pointer s.params_processed_at)
  value_of query_timeout s = some (ulen (api.timeout s.attrs))
  value_of keyset_size s = some (ulen s.key_set_size)
  value_of param_bind_offset_ptr s = some (pointer s.param_bind_offset_at)
  value_of param_operation_ptr s = some (pointer s.param_operation_at)
  value_of row_operation_ptr s = some (pointer s.row_operation_at)
  value_of async_enable s = some (ulen 0)
  value_of retrieve_data s = some (ulen 1)
  value_of (other_attribute n) s = none

  -- The statement, the result, and the value that is stored.
  unfoldable pub get_attribute : Attribute → Stmt A → Stmt A × SqlReturn × Option AttributeValue
  get_attribute a s = elim (value_of a (clear s)) [
    | none ↦ ((fail feature_not_implemented (clear s)).0, error, none)
    | some v ↦ (clear s, success, some v)
  ]
