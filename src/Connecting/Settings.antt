-- ===== src/Connecting/Settings.antt =====
-- setAttribute of src/driver/cpp/SnappyConnection.cpp.
use snappy_odbc.Common.{
  ℕ, suc, ◌%◌, Bool, Option, none, some, List, [], ◌==◌, leb, if◌then◌else◌, ◌>>=◌, ℤ, pos, negsuc,
  length, take,
}
use snappy_odbc.Driver.{
  SqlReturn, success, SqlError, invalid_attribute_value, attribute_cannot_be_set_now,
  feature_not_implemented, unknown_attribute,
}
use snappy_odbc.Strings.{strlen}
use snappy_odbc.Connecting.{
  Platform, ConnectionAttribute, access_mode, autocommit, connection_timeout, login_timeout,
  current_catalog, metadata_id, packet_size, quiet_mode, translate_lib, translate_option,
  txn_isolation, odbc_cursors, async_enable, auto_ipd, enlist_in_dtc, connection_dead, ansi_app,
  other_attribute, AttributeValue, assign, Connection, cleared, refuse, caught,
}
use snappy_odbc.Connecting.Apply.{set_connection_attribute}

-- What the switch does with an attribute: keep a value in m_attributes, go on without that, or
-- refuse.
pub data Choice : Type 0 where
  keep : AttributeValue → Choice
  pass : AttributeValue → Choice
  reject : SqlError → Choice

abbrev pub plain : Bool → AttributeValue
plain ascii = record { ascii = ascii; word = 0; chars = [] }

-- (SQLUINTEGER)(SQLBIGINT)value
abbrev pub integer : Bool → ℕ → Choice
integer ascii value = keep (record { ascii = ascii; word = value % 4294967296; chars = [] })

-- The units of the string are copied, and one more.
unfoldable pub copy_units_and_one : ℕ → List ℕ → Option (List ℕ)
copy_units_and_one n memory =
    if leb (suc n) (length memory) then some (take (suc n) memory) else none

unfoldable pub string_units : List ℕ → ℤ → Option (List ℕ)
string_units memory (pos n) = copy_units_and_one n memory
string_units memory (negsuc n) = do k ← strlen memory; copy_units_and_one k memory

unfoldable pub string_choice : Bool → List ℕ → ℤ → Option Choice
string_choice ascii memory len = do
  chars ← string_units memory len
  some (keep (record { ascii = ascii; word = 0; chars = chars }))

-- The switch of setAttribute; `value` is the argument itself, `memory` the units that it refers to.
unfoldable pub choose : ConnectionAttribute → ℕ → List ℕ → ℤ → Bool → Bool → Option Choice
choose access_mode value memory len ascii is_open = some (integer ascii value)
choose autocommit value memory len ascii is_open = some (integer ascii value)
choose connection_timeout value memory len ascii is_open = some (integer ascii value)
choose metadata_id value memory len ascii is_open = some (integer ascii value)
choose packet_size value memory len ascii is_open = some (integer ascii value)
choose translate_option value memory len ascii is_open = some (integer ascii value)
choose txn_isolation value memory len ascii is_open = some (integer ascii value)
choose login_timeout value memory len ascii is_open =
    some (if is_open then reject attribute_cannot_be_set_now else integer ascii value)
choose quiet_mode value memory len ascii is_open =
    some (keep (record { ascii = ascii; word = value; chars = [] }))
choose current_catalog value memory len ascii is_open = string_choice ascii memory len
choose translate_lib value memory len ascii is_open = string_choice ascii memory len
choose odbc_cursors value memory len ascii is_open =
    some (if value == 2 then pass (plain ascii) else reject invalid_attribute_value)
choose async_enable value memory len ascii is_open = some (reject feature_not_implemented)
choose auto_ipd value memory len ascii is_open = some (reject feature_not_implemented)
choose enlist_in_dtc value memory len ascii is_open = some (reject feature_not_implemented)
choose connection_dead value memory len ascii is_open = some (reject unknown_attribute)
choose ansi_app value memory len ascii is_open = some (reject unknown_attribute)
choose (other_attribute n) value memory len ascii is_open = some (reject unknown_attribute)

module _ {N : Type 0} (api : Platform N) where
  -- After the switch: an open connection is told at once, except of the login timeout.
  unfoldable pub tell :
      ConnectionAttribute → AttributeValue → Connection N → Connection N × SqlReturn
  tell login_timeout v c = (c, success)
  tell a v c =
      if api.is_open c.native then caught (set_connection_attribute api a v c) else (c, success)

  unfoldable pub follow : ConnectionAttribute → Connection N → Choice → Connection N × SqlReturn
  follow a c (keep v) = tell a v (record c { attributes = assign a v c.attributes })
  follow a c (pass v) = tell a v c
  follow a c (reject e) = refuse e c

  unfoldable pub set_attribute :
      ConnectionAttribute → ℕ → List ℕ → ℤ → Bool → Connection N → Option (Connection N × SqlReturn)
  set_attribute a value memory len ascii c = do
    choice ← choose a value memory len ascii (api.is_open c.native)
    some (follow a (cleared c) choice)
