-- ===== src/Tests/Settings.antt =====
-- Concrete statement attributes.
use snappy_odbc.Common.{ℕ, ◌≡◌, ◌≢◌, refl, Bool, true, false, none, some, pos, negsuc, arith}
use snappy_odbc.Driver.{success, error}
use snappy_odbc.Attributes.{
  StatementAttributes, ResultSetType, forward_only, unknown_type, Stmt, cursor_type,
  set_cursor_type, set_concurrency, cursor_static, concurrency, ulen,
}
use snappy_odbc.Attributes.Access.{set_value, set_attribute, get_attribute, clear}
use snappy_odbc.Attributes.RoundTrip.{AttributesLaws, is_kept, read_as, set_attribute-get_attribute}
use snappy_odbc.Attributes.Refused.{set_attribute-refused}

abbrev Plain : Type 0
Plain = Bool × ResultSetType × ℕ × ℕ × ℕ × Bool

abbrev plain_api : StatementAttributes Plain
plain_api = record {
  is_updatable = λ a. a.0;
  set_updatable = λ b a. (b, a.1, a.2, a.3, a.4, a.5);
  result_set_type = λ a. a.1;
  set_result_set_type = λ t a. (a.0, t, a.2, a.3, a.4, a.5);
  max_field_size = λ a. a.2;
  set_max_field_size = λ n a. (a.0, a.1, n, a.3, a.4, a.5);
  max_rows = λ a. a.3;
  set_max_rows = λ n a. (a.0, a.1, a.2, n, a.4, a.5);
  timeout = λ a. a.4;
  set_timeout = λ n a. (a.0, a.1, a.2, a.3, n, a.5);
  has_escape_processing = λ a. a.5;
  set_escape_processing = λ b a. (a.0, a.1, a.2, a.3, a.4, b);
}

plain_laws : AttributesLaws plain_api
plain_laws = record {
  updatable = λ b a. refl;
  result_set = λ t a. refl;
  field_size = λ n a. refl;
  rows = λ n a. refl;
  time = λ n a. refl;
  escapes = λ b a. refl;
}

abbrev fresh : Stmt Plain
fresh = record {
  attrs = (false, forward_only, 0, 0, 0, true);
  prepared = false;
  has_result_set = false;
  bookmark = negsuc 0;
  batch_size = 1;
  binding_orientation = 0;
  row_status_at = 0;
  fetched_rows_at = 0;
  bind_offset_at = 0;
  args_as_identifiers = false;
  param_binding_orientation = 0;
  param_set_size = 1;
  param_status_at = 0;
  params_processed_at = 0;
  key_set_size = 0;
  param_bind_offset_at = 0;
  param_operation_at = 0;
  row_operation_at = 0;
  diag = record { last_error = none; global_error = none };
}

forward-ne-unknown : forward_only ≢ unknown_type
forward-ne-unknown h = ground (arith, h)

set_static : (set_attribute plain_api (λ n. pos 0) cursor_type cursor_static fresh).1 ≡ success
unfolding set_attribute set_value set_cursor_type
set_static = refl

kept : is_kept cursor_type cursor_static ≡ true
unfolding is_kept
kept = refl

set_attribute-get_attribute_example :
    get_attribute plain_api cursor_type
      (set_attribute plain_api (λ n. pos 0) cursor_type cursor_static fresh).0
    ≡ (
      clear (set_attribute plain_api (λ n. pos 0) cursor_type cursor_static fresh).0,
      success,
      some (ulen 3),
    )
unfolding read_as
set_attribute-get_attribute_example =
    set_attribute-get_attribute plain_api plain_laws (λ n. pos 0) cursor_type cursor_static fresh
      set_static kept forward-ne-unknown

-- 9 is no concurrency.
set_bad : (set_attribute plain_api (λ n. pos 0) concurrency 9 fresh).1 ≡ error
unfolding set_attribute set_value set_concurrency
set_bad = refl

set_attribute-refused_example :
    clear (set_attribute plain_api (λ n. pos 0) concurrency 9 fresh).0 ≡ clear fresh
set_attribute-refused_example =
    set_attribute-refused plain_api (λ n. pos 0) concurrency 9 fresh set_bad
