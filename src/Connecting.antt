-- ===== src/Connecting.antt =====
-- Connections to a server and their attributes: src/driver/cpp/SnappyConnection.cpp, with the
-- values of src/driver/cpp/SnappyDefaults.h. client::Connection, the dynamic loader and the
-- conversion to UTF-8 are parameters (Platform). An int32_t that is handed over is its bit pattern.
pub mod Apply
pub mod Attach
pub mod Settings
pub mod Queries
pub mod Laws
pub mod Attempts
pub mod Applied
pub mod ReadBack
pub mod Entry
pub mod Reconnect
use snappy_odbc.Common.{
  ℕ, Bool, true, false, Option, none, some, List, [], ◌∷◌, ◌==◌, if◌then◌else◌, ◌%◌, ℤ,
}
use snappy_odbc.Driver.{
  SqlReturn, success, error, SqlError, Thrown, Outcome, returned, threw, error_of, Diag,
  set_exception, clear_last_error,
}

pub data IsolationLevel : Type 0 where
  none_level read_uncommitted read_committed repeatable_read serializable : IsolationLevel
  other_level : ℕ → IsolationLevel

pub data TransactionAttribute : Type 0 where
  read_only_connection autocommit_attribute : TransactionAttribute

-- client::Connection as `N`: a call returns the connection after it, also when it throws.
pub record Platform (N : Type 0) : Type 0 where
  pub is_open : N → Bool
  pub open_at : List ℕ → ℤ → List (List ℕ × List ℕ) → N → N × Outcome (Unit {0})
  pub close : N → N × Outcome (Unit {0})
  pub set_transaction_attribute : TransactionAttribute → Bool → N → N × Outcome (Unit {0})
  pub set_receive_timeout : ℕ → N → N × Outcome (Unit {0})
  pub set_send_buffer_size : ℕ → N → N × Outcome (Unit {0})
  pub set_connect_timeout : ℕ → N → N × Outcome (Unit {0})
  pub check_and_get_service : N → N × Outcome (Unit {0})
  pub begin_transaction : IsolationLevel → N → N × Outcome (Unit {0})
  pub get_transaction_attribute : TransactionAttribute → N → Outcome Bool
  pub get_receive_timeout : N → Outcome ℕ
  pub get_send_buffer_size : N → Outcome ℕ
  pub get_connect_timeout : N → Outcome ℕ
  pub get_current_isolation_level : N → Outcome IsolationLevel
  pub default_autocommit : Bool
  pub load_library : List ℕ → Outcome ℕ
  pub get_function : ℕ → Bool → Outcome ℕ
  pub to_utf8 : List ℕ → List ℕ

-- SQL_ATTR_*
pub data ConnectionAttribute : Type 0 where
  access_mode autocommit connection_timeout login_timeout current_catalog : ConnectionAttribute
  metadata_id packet_size quiet_mode translate_lib translate_option : ConnectionAttribute
  txn_isolation odbc_cursors async_enable auto_ipd enlist_in_dtc : ConnectionAttribute
  connection_dead ansi_app : ConnectionAttribute
  other_attribute : ℕ → ConnectionAttribute

-- The values of the ODBC headers; those of other attributes are handed over as they are.
unfoldable pub attribute_code : ConnectionAttribute → ℕ
attribute_code access_mode = 101
attribute_code autocommit = 102
attribute_code login_timeout = 103
attribute_code translate_lib = 106
attribute_code translate_option = 107
attribute_code txn_isolation = 108
attribute_code current_catalog = 109
attribute_code odbc_cursors = 110
attribute_code quiet_mode = 111
attribute_code packet_size = 112
attribute_code connection_timeout = 113
attribute_code ansi_app = 115
attribute_code async_enable = 4
attribute_code enlist_in_dtc = 1207
attribute_code connection_dead = 1209
attribute_code auto_ipd = 10001
attribute_code metadata_id = 10014
attribute_code (other_attribute n) = n

-- The union's eight bytes, and the units that it refers to where it is a string.
pub record AttributeValue : Type 0 where
  pub ascii : Bool
  pub word : ℕ
  pub chars : List ℕ

-- m_val.m_intv, the low four bytes.
abbrev pub intv : AttributeValue → ℕ
intv v = v.word % 4294967296

-- m_attributes, in the order in which it is iterated.
abbrev pub AttributeMap : Type 0
AttributeMap = List (ConnectionAttribute × AttributeValue)

unfoldable pub find : ConnectionAttribute → AttributeMap → Option AttributeValue
find a [] = none
find a ((b, v) ∷ m) = if attribute_code b == attribute_code a then some v else find a m

unfoldable pub assign : ConnectionAttribute → AttributeValue → AttributeMap → AttributeMap
assign a v [] = (a, v) ∷ []
assign a v ((b, w) ∷ m) =
    if attribute_code b == attribute_code a then (a, v) ∷ m else (b, w) ∷ assign a v m

-- SnappyConnection; `library` is m_translationLibrary, 0 is a null pointer.
pub record Connection (N : Type 0) : Type 0 where
  pub native : N
  pub dsn : List ℕ
  pub attributes : AttributeMap
  pub args_as_identifiers : Bool
  pub window : ℕ
  pub translate_flags : ℕ
  pub library : Option ℕ
  pub driver_to_source : ℕ
  pub source_to_driver : ℕ
  pub diag : Diag

module _ {N : Type 0} where
  abbrev pub cleared : Connection N → Connection N
  cleared c = record c { diag = clear_last_error c.diag }

  abbrev pub refuse : SqlError → Connection N → Connection N × SqlReturn
  refuse e c = (record c { diag = set_exception e c.diag }, error)

  -- The two catch clauses that most operations end with.
  unfoldable pub caught : Connection N × Outcome SqlReturn → Connection N × SqlReturn
  caught (c, returned r) = (c, r)
  caught (c, threw t) = refuse (error_of t) c
