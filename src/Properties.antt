-- ===== src/Properties.antt =====
-- Connection properties: src/driver/cpp/ConnStringPropertyReader.h, IniPropertyReader.h,
-- ArrayIterator.h and the lookup of OdbcIniKeys.cpp. A std::string is the list of its chars. The
-- ini file, the table of keys that OdbcIniKeys::init builds out of the client library's
-- properties, and the names of ClientAttribute are parameters.
pub mod Reader
pub mod Collect
pub mod Cut
pub mod Total
pub mod Plain
pub mod Printed
pub mod Misplaced
pub mod Decimal
use Prim.Native.Char.{code}
use Prim.Native.String.{String}
use snappy_odbc.Common.{
  ℕ, ◌+◌, Bool, true, false, ◌&&◌, Option, none, some, List, [], ◌∷◌, ◌==◌, leb, if◌then◌else◌,
}

-- The code points of a text.
abbrev pub codes : String → List ℕ
codes String.[] = []
codes (String.◌∷◌ c s) = code c ∷ codes s

-- ConnectionProperty::F_IS_*
pub record Flags : Type 0 where
  pub is_driver : Bool
  pub is_server : Bool
  pub is_port : Bool
  pub is_user : Bool
  pub is_passwd : Bool
  pub is_system_prop : Bool

abbrev pub no_flags : Flags
no_flags = record {
  is_driver = false;
  is_server = false;
  is_port = false;
  is_user = false;
  is_passwd = false;
  is_system_prop = false;
}

-- An entry of OdbcIniKeys::s_keyMap, with getPropertyName() and getFlags().
pub record Key : Type 0 where
  pub key : List ℕ
  pub property_name : List ℕ
  pub flags : Flags

-- What lies outside: SQLGetPrivateProfileString (section, name), an empty value standing for none;
-- the table of keys; ODBC_DRIVER_NAME; ClientAttribute::USERNAME and PASSWORD.
pub record Setup : Type 0 where
  pub profile : List ℕ → List ℕ → List ℕ
  pub key_map : List Key
  pub driver_name : List ℕ
  pub username_key : List ℕ
  pub password_key : List ℕ

unfoldable pub to_lower : ℕ → ℕ
to_lower c = if leb b'A' c && leb c b'Z' then c + 32 else c

-- boost::iequals
unfoldable pub iequals : List ℕ → List ℕ → Bool
unfolding to_lower
iequals [] [] = true
iequals [] (d ∷ ds) = false
iequals (c ∷ cs) [] = false
iequals (c ∷ cs) (d ∷ ds) = (to_lower c == to_lower d) && iequals cs ds

-- operator== of std::string
unfoldable pub equals : List ℕ → List ℕ → Bool
equals [] [] = true
equals [] (d ∷ ds) = false
equals (c ∷ cs) [] = false
equals (c ∷ cs) (d ∷ ds) = (c == d) && equals cs ds

-- find(prefix) == 0
unfoldable pub starts_with : List ℕ → List ℕ → Bool
starts_with [] text = true
starts_with (p ∷ ps) [] = false
starts_with (p ∷ ps) (c ∷ cs) = (p == c) && starts_with ps cs

-- boost::istarts_with
unfoldable pub istarts_with : List ℕ → List ℕ → Bool
unfolding to_lower
istarts_with [] text = true
istarts_with (p ∷ ps) [] = false
istarts_with (p ∷ ps) (c ∷ cs) = (to_lower p == to_lower c) && istarts_with ps cs

-- find(part) != npos
unfoldable pub has_part : List ℕ → List ℕ → Bool
unfolding starts_with
has_part part [] = starts_with part []
has_part part (c ∷ cs) =
    let rest = has_part part cs in if starts_with part (c ∷ cs) then true else rest

-- boost::replace_all(name, "-", "")
unfoldable pub without_dashes : List ℕ → List ℕ
without_dashes [] = []
without_dashes (c ∷ cs) = if c == b'-' then without_dashes cs else c ∷ without_dashes cs

unfoldable pub find_key : (List ℕ → Bool) → List Key → Option Key
find_key test [] = none
find_key test (k ∷ ks) = if test k.key then some k else find_key test ks

-- OdbcIniKeys::getConnPropertyName: the property's name and flags.
unfoldable pub get_conn_property_name : List Key → List ℕ → Option (List ℕ × Flags)
unfolding starts_with
get_conn_property_name keys name = elim (find_key (equals name) keys) [
  | some k ↦ some (k.property_name, k.flags)
  | none ↦
      if starts_with (codes "snappydata.") name
      then some (name, no_flags)
      else if starts_with (codes "spark.") name
      then some (name, no_flags)
      else none
]

-- The lookup of readProperties, which falls back on names that differ in case and dashes.
unfoldable pub look_up : List Key → List ℕ → Option (List ℕ × Flags)
look_up keys name = elim (get_conn_property_name keys name) [
  | some p ↦ some p
  | none ↦ elim (find_key (iequals (without_dashes name)) keys) [
    | some k ↦ some (k.property_name, k.flags)
    | none ↦ none
  ]
]
