-- ===== src/Tests/Links.antt =====
-- Concrete connections.
use snappy_odbc.Common.{ℕ, ◌≡◌, refl, Bool, true, false, none, some, List, [], ◌∷◌, pos, negsuc}
use snappy_odbc.Driver.{
  SqlReturn, success, success_with_info, error, connection_in_use, invalid_attribute_value, Outcome,
  returned,
}
use snappy_odbc.Connecting.{
  Platform, none_level, access_mode, autocommit, packet_size, Connection, cleared, refuse, assign,
  caught,
}
use snappy_odbc.Connecting.Apply.{
  apply, set_connection_attribute, set_commit, set_mode, flag_value, answer,
}
use snappy_odbc.Connecting.Attach.{
  connect, connect_t, opened, fill_string, finish_attributes, set_attributes, is_login_timeout,
  go_on, named, connection_string, get_string_value, copied, note_truncation,
}
use snappy_odbc.Strings.{
  copy_string, copy_units, copy_terminated, restrict_length, overwrite, store,
}
use snappy_odbc.Connecting.Settings.{set_attribute, choose, follow, tell}
use snappy_odbc.Connecting.Queries.{get_attribute, give, Target}
use snappy_odbc.Connecting.Laws.{StaysOpen, is_refused}
use snappy_odbc.Connecting.Attempts.{with_setting, refused_setting_blocks}
use snappy_odbc.Connecting.Applied.{
  apply_all, has_settings, connect_applies_all, truncation_unreported,
}
use snappy_odbc.Connecting.ReadBack.{closed_settings_read_back, is_number, read_back}

-- A native connection that is open or not, with its receive timeout; every call returns.
abbrev pub Wire : Type 0
Wire = Bool × ℕ

abbrev pub wire : Platform Wire
wire = record {
  is_open = λ n. n.0;
  open_at = λ server port props n. ((true, n.1), returned tt);
  close = λ n. ((false, n.1), returned tt);
  set_transaction_attribute = λ a b n. (n, returned tt);
  set_receive_timeout = λ t n. ((n.0, t), returned tt);
  set_send_buffer_size = λ t n. (n, returned tt);
  set_connect_timeout = λ t n. (n, returned tt);
  check_and_get_service = λ n. (n, returned tt);
  begin_transaction = λ l n. (n, returned tt);
  get_transaction_attribute = λ a n. returned true;
  get_receive_timeout = λ n. returned n.1;
  get_send_buffer_size = λ n. returned 0;
  get_connect_timeout = λ n. returned 0;
  get_current_isolation_level = λ n. returned none_level;
  default_autocommit = false;
  load_library = λ s. returned 1;
  get_function = λ h b. returned 2;
  to_utf8 = λ s. s;
}

wire-StaysOpen : StaysOpen wire
wire-StaysOpen = record {
  opens = λ server port props n h. refl;
  transaction = λ a b n. refl;
  receive = λ t n. refl;
  send = λ t n. refl;
  login = λ t n. refl;
  service = λ n. refl;
  begin = λ l n. refl;
}

abbrev pub fresh : Connection Wire
fresh = record {
  native = (false, 0);
  dsn = [];
  attributes = [];
  args_as_identifiers = false;
  window = 0;
  translate_flags = 0;
  library = none;
  driver_to_source = 0;
  source_to_driver = 0;
  diag = record { last_error = none; global_error = none };
}

abbrev host : List ℕ
host = b'h' ∷ []

abbrev dsn_name : List ℕ
dsn_name = b'd' ∷ []

-- SQL_ATTR_ACCESS_MODE as 7.
abbrev poisoned : Connection Wire
poisoned = with_setting access_mode 7 true fresh

setting_seven : set_attribute wire access_mode 7 [] (pos 0) true fresh ≡ some (poisoned, success)
unfolding set_attribute choose follow tell assign
setting_seven = refl

-- Opened, and refused by the value.
abbrev half_open : Connection Wire
half_open = record poisoned {
  native = (true, 0);
  diag = record { last_error = some invalid_attribute_value; global_error = none };
}

attempt_fails :
    connect wire none host (pos 1527) [] dsn_name none (negsuc 0) poisoned
    ≡ some (half_open, error, [], none)
unfolding connect connect_t opened fill_string finish_attributes set_attributes is_login_timeout
    go_on named apply set_connection_attribute set_mode flag_value caught assign
attempt_fails = refl

refused_setting_blocks_example :
    ◌≡◌ {A = SqlReturn} success success
    × (◌≡◌ {A = SqlReturn} error error)
    × (◌≡◌ {A = Bool} true true)
    × (connect wire none host (pos 1527) [] dsn_name none (negsuc 0) half_open
        ≡ some (
          record ((refuse connection_in_use (cleared half_open)).0) { dsn = [] },
          error,
          [],
          none,
        ))
unfolding is_refused flag_value
refused_setting_blocks_example =
    refused_setting_blocks wire wire-StaysOpen none host (pos 1527) [] dsn_name none (negsuc 0)
      access_mode 7 [] (pos 0) true fresh poisoned half_open refl refl refl setting_seven
      attempt_fails

-- SQL_ATTR_AUTOCOMMIT as 1, kept before the connection is made.
abbrev prepared_link : Connection Wire
prepared_link = with_setting autocommit 1 true fresh

abbrev linked : Connection Wire
linked = record prepared_link { native = (true, 0); dsn = dsn_name }

attempt_succeeds :
    connect wire none host (pos 1527) [] dsn_name none (negsuc 0) prepared_link
    ≡ some (linked, success, [], none)
unfolding connect connect_t opened fill_string finish_attributes set_attributes is_login_timeout
    go_on named apply set_connection_attribute set_commit flag_value caught assign answer
attempt_succeeds = refl

connect_applies_all_example :
    (◌≡◌ {A = Outcome (Unit {0})} (returned tt) (returned tt))
    × (◌≡◌ {A = SqlReturn} success success)
    × (linked
        ≡ record (apply_all wire prepared_link.attributes
            (record (cleared prepared_link) { native = (true, 0) })) { dsn = dsn_name })
    × (◌≡◌ {A = Bool} true true)
connect_applies_all_example =
    connect_applies_all wire wire-StaysOpen none host (pos 1527) [] dsn_name (negsuc 0)
      prepared_link linked refl attempt_succeeds (λ e. cc)

-- "server=h;port=1527" in a buffer of four.
attempt_truncates :
    connect wire none host (pos 1527) [] dsn_name (some (9 ∷ 9 ∷ 9 ∷ 9 ∷ [])) (pos 4) prepared_link
    ≡ some (linked, success_with_info, b's' ∷ b'e' ∷ b'r' ∷ 0 ∷ [], some (pos 18))
unfolding connect connect_t opened fill_string finish_attributes set_attributes is_login_timeout
    go_on named apply set_connection_attribute set_commit flag_value caught assign answer
    get_string_value copied connection_string copy_string copy_units copy_terminated restrict_length
    overwrite store note_truncation
attempt_truncates = refl

truncation_unreported_example : linked.diag.last_error ≡ none
unfolding has_settings assign is_login_timeout
truncation_unreported_example =
    truncation_unreported wire none host (pos 1527) [] dsn_name (9 ∷ 9 ∷ 9 ∷ 9 ∷ []) (pos 4)
      prepared_link linked refl refl attempt_truncates

abbrev asking : Target
asking = record { given = true; length_given = true; buffer = []; buffer_length = pos 0 }

packets_set :
    set_attribute wire packet_size 512 [] (pos 0) true fresh
    ≡ some (with_setting packet_size 512 true fresh, success)
unfolding set_attribute choose follow tell assign
packets_set = refl

closed_settings_read_back_example :
    (◌≡◌ {A = SqlReturn} success success)
    × (get_attribute wire (λ b. none) packet_size asking (with_setting packet_size 512 true fresh)
        ≡ some (
            give asking
              (with_setting packet_size 512 true fresh)
              (read_back packet_size 512 false)))
unfolding is_number
closed_settings_read_back_example =
    closed_settings_read_back wire (λ b. none) packet_size 512 [] (pos 0) true asking fresh
      (with_setting packet_size 512 true fresh) refl refl refl packets_set
