-- ===== src/Attributes/RoundTrip.antt =====
-- What SQLSetStmtAttr set, SQLGetStmtAttr reads (src/driver/cpp/SnappyStatement.cpp).
use native.Mathlib.Nat.{mod-eq_of_lt}
use snappy_odbc.Common.{
  ℕ, ◌≡◌, ◌≢◌, refl, sym, ap, ◌∙◌, ltb→lt, inl, inr, Bool, true, false, not, some, ◌==◌, leb, ltb,
  if◌then◌else◌, ℤ, arith, Bool-cases,
}
use snappy_odbc.Driver.{SqlReturn, success}
use snappy_odbc.Attributes.{
  StatementAttributes, Attribute, Stmt, AttributeValue, ResultSetType, forward_only, insensitive,
  sensitive, unknown_type, concurrency, cursor_scrollable, cursor_sensitivity, cursor_type,
  enable_auto_ipd, fetch_bookmark_ptr, max_length, max_rows_attr, metadata_id, row_array_size,
  row_bind_type, row_status_ptr, rows_fetched_ptr, row_bind_offset_ptr, noscan, param_bind_type,
  paramset_size, param_status_ptr, params_processed_ptr, query_timeout, keyset_size,
  param_bind_offset_ptr, param_operation_ptr, row_operation_ptr, async_enable, retrieve_data,
  app_row_desc, imp_row_desc, app_param_desc, imp_param_desc, other_attribute, ulen, pointer,
  unspecified, to_uint32, if_unprepared, set_concurrency, set_cursor_scrollable,
  set_cursor_sensitivity, set_cursor_type, set_limit,
}
use snappy_odbc.Attributes.Access.{set_value, set_attribute, value_of, get_attribute, clear}

-- What is relied on of client::StatementAttributes: a getter answers what its setter stored.
pub record AttributesLaws {ℓ} {A : Type ℓ} (api : StatementAttributes A) : Type ℓ where
  pub updatable : (b : Bool) (a : A) → api.is_updatable (api.set_updatable b a) ≡ b
  pub result_set :
      (t : ResultSetType) (a : A) → api.result_set_type (api.set_result_set_type t a) ≡ t
  pub field_size : (n : ℕ) (a : A) → api.max_field_size (api.set_max_field_size n a) ≡ n
  pub rows : (n : ℕ) (a : A) → api.max_rows (api.set_max_rows n a) ≡ n
  pub time : (n : ℕ) (a : A) → api.timeout (api.set_timeout n a) ≡ n
  pub escapes : (b : Bool) (a : A) → api.has_escape_processing (api.set_escape_processing b a) ≡ b

-- The values that an attribute keeps as they are.
unfoldable pub is_kept : Attribute → ℕ → Bool
is_kept cursor_sensitivity v = not (v == unspecified)
is_kept enable_auto_ipd v = v == 0
is_kept fetch_bookmark_ptr v = false
is_kept max_length v = ltb v 4294967296
is_kept max_rows_attr v = ltb v 4294967296
is_kept row_array_size v = ltb v 4294967296
is_kept query_timeout v = ltb v 4294967296
is_kept metadata_id v = leb v 1
is_kept noscan v = leb v 1
is_kept _ v = true

-- The attributes whose value is a pointer.
unfoldable pub read_as : Attribute → ℕ → AttributeValue
read_as row_status_ptr v = pointer v
read_as rows_fetched_ptr v = pointer v
read_as row_bind_offset_ptr v = pointer v
read_as param_status_ptr v = pointer v
read_as params_processed_ptr v = pointer v
read_as param_bind_offset_ptr v = pointer v
read_as param_operation_ptr v = pointer v
read_as row_operation_ptr v = pointer v
read_as _ v = ulen v

flag_kept : (v : ℕ) → leb v 1 ≡ true → (if not (v == 0) then 1 else 0) ≡ v
flag_kept v h = ground arith

noscan_kept : (v : ℕ) → leb v 1 ≡ true → (if v == 0 then 0 else 1) ≡ v
noscan_kept v h = ground arith

to_uint32_kept : (v : ℕ) → ltb v 4294967296 ≡ true → to_uint32 v ≡ v
to_uint32_kept v h = mod-eq_of_lt (ltb→lt v 4294967296 h)

zero_kept : (v : ℕ) → (v == 0) ≡ true → 0 ≡ v
zero_kept v h = ground arith

if_unprepared-success {ℓ} :
    {A : Type ℓ} (s : Stmt A) (set : Stmt A × SqlReturn)
    → (if_unprepared s set).1 ≡ success
    → if_unprepared s set ≡ set
if_unprepared-success s set h = elim (Bool-cases s.prepared) [
  | inl e ↦ absurd (ground (arith, h, e))
  | inr e ↦ rw e
]

inner-success {ℓ} :
    {A : Type ℓ} (s : Stmt A) (set : Stmt A × SqlReturn)
    → (if_unprepared s set).1 ≡ success
    → set.1 ≡ success
inner-success s set h = ap (λ r. r.1) (sym (if_unprepared-success s set h)) ∙ h

module _ {ℓ} {A : Type ℓ} (api : StatementAttributes A) (laws : AttributesLaws api) where
  concurrency_kept :
      (v : ℕ) (s : Stmt A)
      → (set_concurrency api v s).1 ≡ success
      → value_of api concurrency (set_concurrency api v s).0 ≡ some (ulen v)
  unfolding set_concurrency value_of
  concurrency_kept v s h =
      ground (arith, h, laws.updatable true s.attrs, laws.updatable false s.attrs)

  scrollable_kept :
      (v : ℕ) (s : Stmt A)
      → (set_cursor_scrollable api v s).1 ≡ success
      → api.result_set_type s.attrs ≢ unknown_type
      → value_of api cursor_scrollable (set_cursor_scrollable api v s).0 ≡ some (ulen v)
  unfolding set_cursor_scrollable value_of
  scrollable_kept v s h u =
      ground (arith, h, laws.result_set forward_only s.attrs, laws.result_set insensitive s.attrs)

  sensitivity_kept :
      (v : ℕ) (s : Stmt A)
      → (set_cursor_sensitivity api v s).1 ≡ success
      → not (v == unspecified) ≡ true
      → value_of api cursor_sensitivity (set_cursor_sensitivity api v s).0 ≡ some (ulen v)
  unfolding set_cursor_sensitivity value_of
  sensitivity_kept v s h k =
      ground (arith, h, k, laws.result_set sensitive s.attrs, laws.result_set insensitive s.attrs)

  type_kept :
      (v : ℕ) (s : Stmt A)
      → (set_cursor_type api v s).1 ≡ success
      → value_of api cursor_type (set_cursor_type api v s).0 ≡ some (ulen v)
  unfolding set_cursor_type value_of
  type_kept v s h = ground (
    arith,
    h,
    laws.result_set sensitive s.attrs,
    laws.result_set insensitive s.attrs,
    laws.result_set forward_only s.attrs,
  )

  set_limit-stored :
      (set : ℕ → A → A) (v : ℕ) (s : Stmt A)
      → (set_limit api set v s).1 ≡ success
      → (set_limit api set v s).0.attrs ≡ set (to_uint32 v) s.attrs
  unfolding set_limit
  set_limit-stored set v s h = ground (arith, h)

  set_value-value_of :
      (at : ℕ → ℤ) (a : Attribute) (v : ℕ) (s : Stmt A)
      → (set_value api at a v s).1 ≡ success
      → is_kept a v ≡ true
      → api.result_set_type s.attrs ≢ unknown_type
      → value_of api a (set_value api at a v s).0 ≡ some (read_as a v)
  unfolding set_value value_of is_kept read_as
  set_value-value_of at concurrency v s h k u =
      let set = set_concurrency api v s in
      rw (if_unprepared-success s set h) (concurrency_kept v s (inner-success s set h))
  set_value-value_of at cursor_scrollable v s h k u =
      let set = set_cursor_scrollable api v s in
      rw (if_unprepared-success s set h) (scrollable_kept v s (inner-success s set h) u)
  set_value-value_of at cursor_sensitivity v s h k u =
      let set = set_cursor_sensitivity api v s in
      rw (if_unprepared-success s set h) (sensitivity_kept v s (inner-success s set h) k)
  set_value-value_of at cursor_type v s h k u =
      let set = set_cursor_type api v s in
      rw (if_unprepared-success s set h) (type_kept v s (inner-success s set h))
  set_value-value_of at enable_auto_ipd v s h k u = ap (λ n. some (ulen n)) (zero_kept v k)
  set_value-value_of at fetch_bookmark_ptr v s h k u = absurd (ground (arith, k))
  set_value-value_of at max_length v s h k u =
      rw (set_limit-stored api.set_max_field_size v s h, laws.field_size (to_uint32 v) s.attrs)
        (ap (λ n. some (ulen n)) (to_uint32_kept v k))
  set_value-value_of at max_rows_attr v s h k u =
      rw (set_limit-stored api.set_max_rows v s h, laws.rows (to_uint32 v) s.attrs)
        (ap (λ n. some (ulen n)) (to_uint32_kept v k))
  set_value-value_of at metadata_id v s h k u = ap (λ n. some (ulen n)) (flag_kept v k)
  set_value-value_of at row_array_size v s h k u = ap (λ n. some (ulen n)) (to_uint32_kept v k)
  set_value-value_of at noscan v s h k u =
      rw (laws.escapes (v == 0) s.attrs) (ap (λ n. some (ulen n)) (noscan_kept v k))
  set_value-value_of at query_timeout v s h k u =
      rw (laws.time (to_uint32 v) s.attrs) (ap (λ n. some (ulen n)) (to_uint32_kept v k))
  set_value-value_of at row_bind_type v s h k u = refl
  set_value-value_of at row_status_ptr v s h k u = refl
  set_value-value_of at rows_fetched_ptr v s h k u = refl
  set_value-value_of at row_bind_offset_ptr v s h k u = refl
  set_value-value_of at param_bind_type v s h k u = refl
  set_value-value_of at paramset_size v s h k u = refl
  set_value-value_of at param_status_ptr v s h k u = refl
  set_value-value_of at params_processed_ptr v s h k u = refl
  set_value-value_of at keyset_size v s h k u = refl
  set_value-value_of at param_bind_offset_ptr v s h k u = refl
  set_value-value_of at param_operation_ptr v s h k u = refl
  set_value-value_of at row_operation_ptr v s h k u = refl
  set_value-value_of at async_enable v s h k u = absurd (ground (arith, h))
  set_value-value_of at retrieve_data v s h k u = absurd (ground (arith, h))
  set_value-value_of at app_row_desc v s h k u = absurd (ground (arith, h))
  set_value-value_of at imp_row_desc v s h k u = absurd (ground (arith, h))
  set_value-value_of at app_param_desc v s h k u = absurd (ground (arith, h))
  set_value-value_of at imp_param_desc v s h k u = absurd (ground (arith, h))
  set_value-value_of at (other_attribute n) v s h k u = absurd (ground (arith, h))

  -- The value of an attribute does not depend on the last error.
  value_of-clear : (a : Attribute) (s : Stmt A) → value_of api a (clear s) ≡ value_of api a s
  unfolding value_of
  value_of-clear concurrency s = refl
  value_of-clear cursor_scrollable s = refl
  value_of-clear cursor_sensitivity s = refl
  value_of-clear cursor_type s = refl
  value_of-clear enable_auto_ipd s = refl
  value_of-clear fetch_bookmark_ptr s = refl
  value_of-clear max_length s = refl
  value_of-clear max_rows_attr s = refl
  value_of-clear metadata_id s = refl
  value_of-clear row_array_size s = refl
  value_of-clear row_bind_type s = refl
  value_of-clear row_status_ptr s = refl
  value_of-clear rows_fetched_ptr s = refl
  value_of-clear row_bind_offset_ptr s = refl
  value_of-clear noscan s = refl
  value_of-clear param_bind_type s = refl
  value_of-clear paramset_size s = refl
  value_of-clear param_status_ptr s = refl
  value_of-clear params_processed_ptr s = refl
  value_of-clear query_timeout s = refl
  value_of-clear keyset_size s = refl
  value_of-clear param_bind_offset_ptr s = refl
  value_of-clear param_operation_ptr s = refl
  value_of-clear row_operation_ptr s = refl
  value_of-clear async_enable s = refl
  value_of-clear retrieve_data s = refl
  value_of-clear app_row_desc s = refl
  value_of-clear imp_row_desc s = refl
  value_of-clear app_param_desc s = refl
  value_of-clear imp_param_desc s = refl
  value_of-clear (other_attribute n) s = refl

  -- An attribute that SQLSetStmtAttr sets with SQL_SUCCESS is read back by SQLGetStmtAttr as it
  -- was set, for every attribute and value but these: SQL_UNSPECIFIED for the sensitivity,
  -- SQL_TRUE for the automatic IPD, the bookmark pointer, 32-bit limits, timeouts and array sizes
  -- from 2^32 on, and Boolean attributes above 1; the result set type is taken to be a known one.
  pub set_attribute-get_attribute :
      (at : ℕ → ℤ) (a : Attribute) (v : ℕ) (s : Stmt A)
      → (set_attribute api at a v s).1 ≡ success
      → is_kept a v ≡ true
      → api.result_set_type s.attrs ≢ unknown_type
      → get_attribute api a (set_attribute api at a v s).0
        ≡ (clear (set_attribute api at a v s).0, success, some (read_as a v))
  unfolding set_attribute get_attribute
  set_attribute-get_attribute at a v s h k u = rw (
    get_attribute,
    set_attribute,
    value_of-clear a (set_value api at a v (clear s)).0,
    set_value-value_of at a v (clear s) h k u,
  )
