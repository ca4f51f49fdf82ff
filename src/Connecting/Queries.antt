-- ===== src/Connecting/Queries.antt =====
-- getAttributeT of src/driver/cpp/SnappyConnection.cpp, with getIntValue and
-- translateTransactionIsolation.
use snappy_odbc.Common.{ℕ, Bool, true, Option, none, some, List, ltb, if◌then◌else◌, ◌>>=◌, ℤ, pos}
use snappy_odbc.Driver.{
  SqlReturn, success, error, no_data, SqlError, invalid_attribute_value, feature_not_implemented,
  unknown_attribute, no_current_connection, Thrown, Outcome, returned, threw, error_of,
}
use snappy_odbc.Strings.{sql_nts}
use snappy_odbc.Connecting.{
  Platform, IsolationLevel, none_level, read_uncommitted, read_committed, repeatable_read,
  serializable, other_level, read_only_connection, autocommit_attribute, ConnectionAttribute,
  access_mode, autocommit, connection_timeout, login_timeout, current_catalog, metadata_id,
  packet_size, quiet_mode, translate_lib, translate_option, txn_isolation, odbc_cursors,
  async_enable, auto_ipd, enlist_in_dtc, connection_dead, ansi_app, other_attribute, AttributeValue,
  intv, find, Connection, cleared, refuse,
}
use snappy_odbc.Connecting.Attach.{get_string_value}

-- What is stored through the value pointer, and in *stringLengthPtr.
pub data Item : Type 0 where
  uinteger : ℕ → Item
  ulen : ℕ → Item
  pointer : ℕ → Item
  text : List ℕ → Item

pub record Stored : Type 0 where
  pub item : Option Item
  pub size : Option ℤ

-- The two pointers of the application: whether each is given, and the buffer for a string.
pub record Target : Type 0 where
  pub given : Bool
  pub length_given : Bool
  pub buffer : List ℕ
  pub buffer_length : ℤ

abbrev pub nothing : Stored
nothing = record { item = none; size = none }

abbrev only_if {ℓ} : {A : Type ℓ} → Bool → A → Option A
only_if b a = if b then some a else none

-- The length is stored whether or not the value is.
abbrev pub both : Target → Item → ℤ → Stored
both t i n = record { item = only_if t.given i; size = only_if t.length_given n }

-- The length is stored only where the value is.
abbrev pub nested : Target → Item → ℤ → Stored
nested t i n = if t.given then both t i n else nothing

unfoldable pub translate_transaction_isolation : IsolationLevel → Option ℕ
translate_transaction_isolation read_committed = some 2
translate_transaction_isolation repeatable_read = some 4
translate_transaction_isolation none_level = some 0
translate_transaction_isolation read_uncommitted = some 1
translate_transaction_isolation serializable = some 8
translate_transaction_isolation (other_level n) = none

abbrev flag : Bool → ℕ
flag b = if b then 1 else 0

-- What is known of an attribute whose value is an integer: the value, an exception of the native
-- connection, or an error.
pub data Answer : Type 0 where
  value : ℕ → Answer
  exception : Thrown → Answer
  failure : SqlError → Answer

abbrev from_outcome {ℓ} : {A : Type ℓ} → (A → Answer) → Outcome A → Answer
from_outcome f (returned a) = f a
from_outcome f (threw t) = exception t

abbrev from_level : Option ℕ → Answer
from_level none = failure invalid_attribute_value
from_level (some v) = value v

module _ {N : Type 0} where
  abbrev pub deny : SqlError → Connection N → Connection N × SqlReturn × Stored
  deny e c = ((refuse e c).0, error, nothing)

  unfoldable pub give : Target → Connection N → Answer → Connection N × SqlReturn × Stored
  give t c (value v) = (c, success, nested t (uinteger v) (pos 4))
  give t c (exception x) = deny (error_of x) c
  give t c (failure e) = deny e c

  -- The result of getStringValue as it is stored.
  text_of : Target → Connection N × SqlReturn × List ℕ × ℤ → Connection N × SqlReturn × Stored
  text_of t (c, r, out, n) =
      (c, r, record { item = only_if t.given (text out); size = only_if t.length_given n })

  -- SQL_ATTR_TRANSLATE_LIB; `convert` is what turns a string of the other width into one of this.
  unfoldable pub library_name :
      (Bool → Option (List ℕ → ℤ → List ℕ))
      → Target
      → Option AttributeValue
      → Connection N
      → Option (Connection N × SqlReturn × Stored)
  unfolding text_of
  library_name convert t none c = some (c, no_data, nothing)
  library_name convert t (some v) c = do
    r ←
        get_string_value (convert v.ascii) v.chars sql_nts (only_if t.given t.buffer)
          t.buffer_length c
    some (text_of t r)

  -- SQL_ATTR_QUIET_MODE of an open connection.
  window_of : Target → Connection N → Connection N × SqlReturn × Stored
  window_of t c =
      if ltb 0 c.window
      then (c, success, nested t (pointer c.window) (pos 8))
      else (c, no_data, nothing)

module _ {N : Type 0} (api : Platform N) where
  unfoldable pub autocommit_answer : Outcome Bool → Answer
  autocommit_answer (returned on) = value (flag (if on then true else api.default_autocommit))
  autocommit_answer (threw t) = exception t

  -- getAttributeT while the native connection is open.
  unfoldable pub ask :
      (Bool → Option (List ℕ → ℤ → List ℕ))
      → ConnectionAttribute
      → Target
      → Connection N
      → Option (Connection N × SqlReturn × Stored)
  unfolding window_of
  ask convert connection_dead t c = some (give t c (value (if api.is_open c.native then 0 else 1)))
  ask convert access_mode t c = some (
      give t c (
        from_outcome (λ b. value (flag b))
          (api.get_transaction_attribute read_only_connection c.native)))
  ask convert autocommit t c =
      some
        (give t c (autocommit_answer (api.get_transaction_attribute autocommit_attribute c.native)))
  ask convert connection_timeout t c =
      some (give t c (from_outcome value (api.get_receive_timeout c.native)))
  ask convert metadata_id t c = some (give t c (value (flag c.args_as_identifiers)))
  ask convert packet_size t c =
      some (give t c (from_outcome value (api.get_send_buffer_size c.native)))
  ask convert translate_option t c = some (give t c (value c.translate_flags))
  ask convert login_timeout t c =
      some (give t c (from_outcome value (api.get_connect_timeout c.native)))
  ask convert txn_isolation t c = some (
      give t c (
        from_outcome (λ l. from_level (translate_transaction_isolation l))
          (api.get_current_isolation_level c.native)))
  ask convert current_catalog t c = some (c, no_data, nothing)
  ask convert translate_lib t c = library_name convert t (find translate_lib c.attributes) c
  ask convert quiet_mode t c = some (window_of t c)
  ask convert async_enable t c = some (c, success, both t (ulen 0) (pos 8))
  ask convert odbc_cursors t c = some (c, success, both t (ulen 2) (pos 8))
  ask convert auto_ipd t c = some (deny unknown_attribute c)
  ask convert enlist_in_dtc t c = some (deny unknown_attribute c)
  ask convert ansi_app t c = some (deny unknown_attribute c)
  ask convert (other_attribute n) t c = some (deny unknown_attribute c)

  -- What a closed connection has for an integer attribute that was never set, if anything.
  unfoldable pub unset_value : ConnectionAttribute → Option ℕ
  unset_value access_mode = some 0
  unset_value autocommit = some (flag api.default_autocommit)
  unset_value login_timeout = some 0
  unset_value _ = none

  -- The value is read back as an SQLINTEGER, and a negative one counts as none.
  unfoldable pub recorded : Option AttributeValue → Option ℕ → Answer
  recorded (some v) unset =
      if ltb (intv v) 2147483648 then value (intv v) else failure no_current_connection
  recorded none (some n) = value n
  recorded none none = failure no_current_connection

  unfoldable pub remembered :
      ConnectionAttribute → Target → Connection N → Connection N × SqlReturn × Stored
  remembered a t c = give t c (recorded (find a c.attributes) (unset_value a))

  -- SQL_ATTR_QUIET_MODE of a closed connection.
  window_set : Target → Option AttributeValue → Connection N → Connection N × SqlReturn × Stored
  window_set t none c = deny no_current_connection c
  window_set t (some v) c = (c, success, both t (pointer v.word) (pos 8))

  -- getAttributeT while it is closed. Only SQL_ATTR_METADATA_ID is stored with no look at the pointer.
  unfoldable pub recall :
      ConnectionAttribute → Target → Connection N → Option (Connection N × SqlReturn × Stored)
  unfolding window_set
  recall metadata_id t c =
      if t.given
      then some (c, success, both t (uinteger (flag c.args_as_identifiers)) (pos 4))
      else none
  recall access_mode t c = some (remembered access_mode t c)
  recall autocommit t c = some (remembered autocommit t c)
  recall connection_timeout t c = some (remembered connection_timeout t c)
  recall login_timeout t c = some (remembered login_timeout t c)
  recall packet_size t c = some (remembered packet_size t c)
  recall txn_isolation t c = some (remembered txn_isolation t c)
  recall current_catalog t c = some (deny no_current_connection c)
  recall translate_lib t c = some (deny no_current_connection c)
  recall translate_option t c = some (deny no_current_connection c)
  recall async_enable t c = some (deny no_current_connection c)
  recall quiet_mode t c = some (window_set t (find quiet_mode c.attributes) c)
  recall auto_ipd t c = some (deny feature_not_implemented c)
  recall enlist_in_dtc t c = some (deny feature_not_implemented c)
  recall odbc_cursors t c = some (c, success, nested t (ulen 2) (pos 8))
  recall connection_dead t c = some (deny unknown_attribute c)
  recall ansi_app t c = some (deny unknown_attribute c)
  recall (other_attribute n) t c = some (deny unknown_attribute c)

  unfoldable pub get_attribute :
      (Bool → Option (List ℕ → ℤ → List ℕ))
      → ConnectionAttribute
      → Target
      → Connection N
      → Option (Connection N × SqlReturn × Stored)
  get_attribute convert a t c =
      if api.is_open c.native then ask convert a t (cleared c) else recall a t (cleared c)
