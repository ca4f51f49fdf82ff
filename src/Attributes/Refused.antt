-- ===== src/Attributes/Refused.antt =====
-- A refused SQLSetStmtAttr (src/driver/cpp/SnappyStatement.cpp) changes nothing.
use snappy_odbc.Common.{ℕ, ◌≡◌, refl, ℤ, arith}
use snappy_odbc.Driver.{SqlReturn, error}
use snappy_odbc.Attributes.{
  StatementAttributes, Attribute, Stmt, concurrency, cursor_scrollable, cursor_sensitivity,
  cursor_type, enable_auto_ipd, fetch_bookmark_ptr, max_length, max_rows_attr, metadata_id,
  row_array_size, row_bind_type, row_status_ptr, rows_fetched_ptr, row_bind_offset_ptr, noscan,
  param_bind_type, paramset_size, param_status_ptr, params_processed_ptr, query_timeout,
  keyset_size, param_bind_offset_ptr, param_operation_ptr, row_operation_ptr, async_enable,
  retrieve_data, app_row_desc, imp_row_desc, app_param_desc, imp_param_desc, other_attribute,
  if_unprepared, set_concurrency, set_cursor_scrollable, set_cursor_sensitivity, set_cursor_type,
  set_enable_auto_ipd, set_limit,
}
use snappy_odbc.Attributes.Access.{set_value, set_attribute, clear}

module _ {ℓ} {A : Type ℓ} (api : StatementAttributes A) where
  if_unprepared-error :
      (s : Stmt A) (set : Stmt A × SqlReturn)
      → (set.1 ≡ error → clear set.0 ≡ clear s)
      → (if_unprepared s set).1 ≡ error
      → clear (if_unprepared s set).0 ≡ clear s
  if_unprepared-error s set refused h = ground (arith, refused, h)

  concurrency_refused :
      (v : ℕ) (s : Stmt A)
      → (set_concurrency api v s).1 ≡ error
      → clear (set_concurrency api v s).0 ≡ clear s
  unfolding set_concurrency
  concurrency_refused v s h = ground (arith, h)

  scrollable_refused :
      (v : ℕ) (s : Stmt A)
      → (set_cursor_scrollable api v s).1 ≡ error
      → clear (set_cursor_scrollable api v s).0 ≡ clear s
  unfolding set_cursor_scrollable
  scrollable_refused v s h = ground (arith, h)

  sensitivity_refused :
      (v : ℕ) (s : Stmt A)
      → (set_cursor_sensitivity api v s).1 ≡ error
      → clear (set_cursor_sensitivity api v s).0 ≡ clear s
  unfolding set_cursor_sensitivity
  sensitivity_refused v s h = ground (arith, h)

  type_refused :
      (v : ℕ) (s : Stmt A)
      → (set_cursor_type api v s).1 ≡ error
      → clear (set_cursor_type api v s).0 ≡ clear s
  unfolding set_cursor_type
  type_refused v s h = ground (arith, h)

  limit_refused :
      (set : ℕ → A → A) (v : ℕ) (s : Stmt A)
      → (set_limit api set v s).1 ≡ error
      → clear (set_limit api set v s).0 ≡ clear s
  unfolding set_limit
  limit_refused set v s h = ground (arith, h)

  auto_ipd_refused :
      (v : ℕ) (s : Stmt A)
      → (set_enable_auto_ipd api v s).1 ≡ error
      → clear (set_enable_auto_ipd api v s).0 ≡ clear s
  unfolding set_enable_auto_ipd
  auto_ipd_refused v s h = ground (arith, h)

  set_value-refused :
      (at : ℕ → ℤ) (a : Attribute) (v : ℕ) (s : Stmt A)
      → (set_value api at a v s).1 ≡ error
      → clear (set_value api at a v s).0 ≡ clear s
  unfolding set_value
  set_value-refused at concurrency v s h =
      if_unprepared-error s (set_concurrency api v s) (concurrency_refused v s) h
  set_value-refused at cursor_scrollable v s h =
      if_unprepared-error s (set_cursor_scrollable api v s) (scrollable_refused v s) h
  set_value-refused at cursor_sensitivity v s h =
      if_unprepared-error s (set_cursor_sensitivity api v s) (sensitivity_refused v s) h
  set_value-refused at cursor_type v s h =
      if_unprepared-error s (set_cursor_type api v s) (type_refused v s) h
  set_value-refused at enable_auto_ipd v s h = auto_ipd_refused v s h
  set_value-refused at max_length v s h = limit_refused api.set_max_field_size v s h
  set_value-refused at max_rows_attr v s h = limit_refused api.set_max_rows v s h
  set_value-refused at fetch_bookmark_ptr v s h = absurd (ground (arith, h))
  set_value-refused at metadata_id v s h = absurd (ground (arith, h))
  set_value-refused at row_array_size v s h = absurd (ground (arith, h))
  set_value-refused at row_bind_type v s h = absurd (ground (arith, h))
  set_value-refused at row_status_ptr v s h = absurd (ground (arith, h))
  set_value-refused at rows_fetched_ptr v s h = absurd (ground (arith, h))
  set_value-refused at row_bind_offset_ptr v s h = absurd (ground (arith, h))
  set_value-refused at noscan v s h = absurd (ground (arith, h))
  set_value-refused at param_bind_type v s h = absurd (ground (arith, h))
  set_value-refused at paramset_size v s h = absurd (ground (arith, h))
  set_value-refused at param_status_ptr v s h = absurd (ground (arith, h))
  set_value-refused at params_processed_ptr v s h = absurd (ground (arith, h))
  set_value-refused at query_timeout v s h = absurd (ground (arith, h))
  set_value-refused at keyset_size v s h = absurd (ground (arith, h))
  set_value-refused at param_bind_offset_ptr v s h = absurd (ground (arith, h))
  set_value-refused at param_operation_ptr v s h = absurd (ground (arith, h))
  set_value-refused at row_operation_ptr v s h = absurd (ground (arith, h))
  set_value-refused at async_enable v s h = refl
  set_value-refused at retrieve_data v s h = refl
  set_value-refused at app_row_desc v s h = refl
  set_value-refused at imp_row_desc v s h = refl
  set_value-refused at app_param_desc v s h = refl
  set_value-refused at imp_param_desc v s h = refl
  set_value-refused at (other_attribute n) v s h = refl

  -- A call of SQLSetStmtAttr that answers SQL_ERROR leaves every attribute of the statement as it
  -- was, whatever the attribute and the value: it changes nothing but the last error.
  pub set_attribute-refused :
      (at : ℕ → ℤ) (a : Attribute) (v : ℕ) (s : Stmt A)
      → (set_attribute api at a v s).1 ≡ error
      → clear (set_attribute api at a v s).0 ≡ clear s
  unfolding set_attribute
  set_attribute-refused at a v s h = set_value-refused at a v (clear s) h
