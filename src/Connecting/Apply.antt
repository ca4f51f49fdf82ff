-- ===== src/Connecting/Apply.antt =====
-- setConnectionAttribute of src/driver/cpp/SnappyConnection.cpp: an attribute is handed to the
-- native connection, or kept in the connection itself.
use snappy_odbc.Common.{ℕ, ◌*◌, ◌%◌, Bool, true, false, Option, none, some, ◌==◌, if◌then◌else◌}
use snappy_odbc.Driver.{
  SqlReturn, success, error, invalid_attribute_value, unknown_attribute, Outcome, returned, threw,
}
use snappy_odbc.Connecting.{
  Platform, IsolationLevel, none_level, read_uncommitted, read_committed, repeatable_read,
  serializable, read_only_connection, autocommit_attribute, ConnectionAttribute, access_mode,
  autocommit, connection_timeout, login_timeout, current_catalog, metadata_id, packet_size,
  quiet_mode, translate_lib, translate_option, txn_isolation, odbc_cursors, async_enable, auto_ipd,
  enlist_in_dtc, connection_dead, ansi_app, other_attribute, AttributeValue, intv, Connection,
  cleared, refuse,
}

-- The tests of an attribute whose values are two numbers.
unfoldable pub flag_value : ℕ → Option Bool
flag_value v = if v == 1 then some true else if v == 0 then some false else none

-- SQL_TXN_*
unfoldable pub isolation_of : ℕ → Option IsolationLevel
isolation_of v =
    if v == 2
    then some read_committed
    else if v == 4
    then some repeatable_read
    else if v == 0
    then some none_level
    else if v == 1
    then some read_uncommitted
    else if v == 8
    then some serializable
    else none

module _ {N : Type 0} where
  -- A call of the native connection that is the last thing done.
  unfoldable pub answer : Connection N → N × Outcome (Unit {0}) → Connection N × Outcome SqlReturn
  answer c (n, returned _) = (record c { native = n }, returned success)
  answer c (n, threw t) = (record c { native = n }, threw t)

  abbrev pub kept : Connection N → Connection N × Outcome SqlReturn
  kept c = (c, returned success)

  abbrev pub bad_value : Connection N → Connection N × Outcome SqlReturn
  bad_value c = ((refuse invalid_attribute_value c).0, returned error)

module _ {N : Type 0} (api : Platform N) where
  unfoldable pub set_mode : Option Bool → Connection N → Connection N × Outcome SqlReturn
  set_mode none c = bad_value c
  set_mode (some b) c = answer c (api.set_transaction_attribute read_only_connection b c.native)

  unfoldable pub set_commit : Option Bool → Connection N → Connection N × Outcome SqlReturn
  set_commit none c = bad_value c
  set_commit (some b) c = answer c (api.set_transaction_attribute autocommit_attribute b c.native)

  unfoldable pub set_identifiers : Option Bool → Connection N → Connection N × Outcome SqlReturn
  set_identifiers none c = bad_value c
  set_identifiers (some b) c = kept (record c { args_as_identifiers = b })

  unfoldable pub set_isolation :
      Option IsolationLevel → Connection N → Connection N × Outcome SqlReturn
  set_isolation none c = bad_value c
  set_isolation (some l) c = answer c (api.begin_transaction l c.native)

  -- SQL_ATTR_TRANSLATE_LIB: the old library is deleted before the new one is loaded, and each
  -- function is stored before the next is looked up.
  unfoldable pub from_source : Connection N → Outcome ℕ → Connection N × Outcome SqlReturn
  from_source c (threw t) = (c, threw t)
  from_source c (returned f) = kept (record c { source_to_driver = f })

  unfoldable pub to_source : ℕ → Connection N → Outcome ℕ → Connection N × Outcome SqlReturn
  unfolding from_source
  to_source handle c (threw t) = (c, threw t)
  to_source handle c (returned f) =
      from_source (record c { driver_to_source = f }) (api.get_function handle true)

  unfoldable pub loaded : Connection N → Outcome ℕ → Connection N × Outcome SqlReturn
  unfolding to_source
  loaded c (threw t) = (c, threw t)
  loaded c (returned handle) =
      to_source handle (record c { library = some handle }) (api.get_function handle false)

  unfoldable pub set_library : AttributeValue → Connection N → Connection N × Outcome SqlReturn
  unfolding loaded
  set_library v c =
      loaded (record c { library = none })
        (api.load_library (if v.ascii then v.chars else api.to_utf8 v.chars))

  unfoldable pub apply :
      ConnectionAttribute → AttributeValue → Connection N → Connection N × Outcome SqlReturn
  apply access_mode v c = set_mode (flag_value (intv v)) c
  apply autocommit v c = set_commit (flag_value (intv v)) c
  apply connection_timeout v c =
      answer c (api.set_receive_timeout (intv v * 1000 % 4294967296) c.native)
  apply login_timeout v c = answer c (api.set_connect_timeout (intv v * 1000 % 4294967296) c.native)
  apply current_catalog v c = answer c (api.check_and_get_service c.native)
  apply metadata_id v c = set_identifiers (flag_value (intv v)) c
  apply packet_size v c = answer c (api.set_send_buffer_size (intv v) c.native)
  apply quiet_mode v c = kept (record c { window = v.word })
  apply translate_lib v c = set_library v c
  apply translate_option v c = kept (record c { translate_flags = intv v })
  apply txn_isolation v c = set_isolation (isolation_of (intv v)) c
  apply ansi_app v c = (c, returned error)
  apply odbc_cursors v c = ((refuse unknown_attribute c).0, returned error)
  apply async_enable v c = ((refuse unknown_attribute c).0, returned error)
  apply auto_ipd v c = ((refuse unknown_attribute c).0, returned error)
  apply enlist_in_dtc v c = ((refuse unknown_attribute c).0, returned error)
  apply connection_dead v c = ((refuse unknown_attribute c).0, returned error)
  apply (other_attribute n) v c = ((refuse unknown_attribute c).0, returned error)

  unfoldable pub set_connection_attribute :
      ConnectionAttribute → AttributeValue → Connection N → Connection N × Outcome SqlReturn
  set_connection_attribute a v c = apply a v (cleared c)
