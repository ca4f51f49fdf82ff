-- ===== src/Connecting/Attach.antt =====
-- connectT, connect and disconnect of src/driver/cpp/SnappyConnection.cpp, with getStringValue.
use snappy_odbc.Common.{
  ℕ, zero, suc, ◌+◌, ◌/◌, ◌%◌, Bool, true, false, Option, none, some, List, [], ◌∷◌, ◌++◌, ltb,
  if◌then◌else◌, ◌>>=◌, ℤ, pos, negsuc, ◌-ℤ◌, length,
}
use snappy_odbc.Driver.{
  SqlReturn, success, success_with_info, error, connection_in_use, no_current_connection,
  string_truncated, Outcome, returned, threw, error_of, set_exception,
}
use snappy_odbc.Strings.{
  Copied, restrict_length, sqlinteger, sqlsmallint, copy_string, copy_converted, strlen,
}
use snappy_odbc.Connecting.{
  Platform, ConnectionAttribute, login_timeout, AttributeMap, Connection, cleared, refuse, caught,
}
use snappy_odbc.Connecting.Apply.{set_connection_attribute}

-- std::to_string of an int: ten digits are enough.
unfoldable pub digits : ℕ → ℕ → List ℕ
digits zero n = []
digits (suc f) n =
    let rest = digits f (n / 10) ++ (48 + n % 10) ∷ [] in if ltb n 10 then (48 + n) ∷ [] else rest

unfoldable pub to_string : ℤ → List ℕ
unfolding digits
to_string (pos n) = digits 10 n
to_string (negsuc n) = b'-' ∷ digits 10 (suc n)

abbrev pub Properties : Type 0
Properties = List (List ℕ × List ℕ)

unfoldable pub append_properties : Properties → List ℕ
append_properties [] = []
append_properties ((k, v) ∷ m) = b';' ∷ (k ++ b'=' ∷ (v ++ append_properties m))

-- "server=<server>;port=<port>" and the properties.
unfoldable pub connection_string : List ℕ → ℤ → Properties → List ℕ
unfolding append_properties to_string
connection_string server port props =
    b's'
    ∷ b'e'
    ∷ b'r'
    ∷ b'v'
    ∷ b'e'
    ∷ b'r'
    ∷ b'='
    ∷ (server
        ++ b';' ∷ b'p' ∷ b'o' ∷ b'r' ∷ b't' ∷ b'=' ∷ (to_string port ++ append_properties props))

-- Between characters of one width a copy needs no conversion.
unfoldable pub copied : Option (List ℕ → ℤ → List ℕ) → List ℕ → ℤ → List ℕ → ℤ → Option Copied
copied none str len out size = copy_string (some str) len out size
copied (some convert) str len out size = copy_converted convert (some str) len out size

module _ {N : Type 0} where
  unfoldable pub note_truncation : Bool → ℤ → Connection N → Connection N × SqlReturn
  note_truncation true size c = (
    record c { diag = set_exception (string_truncated (size -ℤ pos 1)) c.diag },
    success_with_info,
  )
  note_truncation false size c = (c, success)

  -- getStringValue: the connection, the result, the buffer after it, and *stringLengthPtr.
  unfoldable pub get_string_value :
      Option (List ℕ → ℤ → List ℕ)
      → List ℕ
      → ℤ
      → Option (List ℕ)
      → ℤ
      → Connection N
      → Option (Connection N × SqlReturn × List ℕ × ℤ)
  unfolding note_truncation
  get_string_value convert str len (some out) size c = do
    k ← copied convert str len out size
    let (c', r) = note_truncation k.truncated size c
    some (c', r, k.out, restrict_length sqlinteger false k.total_len)
  get_string_value convert str len none size c = do
    n ← strlen str
    some (c, success, [], restrict_length sqlinteger false (pos n))

  -- An attribute's result: an error or an exception ends the loop over the attributes.
  unfoldable pub go_on :
      (SqlReturn → Connection N → Connection N × Outcome SqlReturn)
      → SqlReturn
      → Connection N × Outcome SqlReturn
      → Connection N × Outcome SqlReturn
  go_on rest result (c, threw t) = (c, threw t)
  go_on rest result (c, returned error) = (c, returned error)
  go_on rest result (c, returned success) = rest result c
  go_on rest result (c, returned result2) = rest result2 c

unfoldable pub is_login_timeout : ConnectionAttribute → Bool
is_login_timeout login_timeout = true
is_login_timeout _ = false

-- What connectT leaves: the connection, its result, the application's buffer, and what is stored in
-- *connStrLen where the string was asked for and that pointer is not null.
pub record Connected (N : Type 0) : Type 0 where
  pub conn : Connection N
  pub outcome : Outcome SqlReturn
  pub out_string : List ℕ
  pub out_length : Option ℤ

-- The buffer that the application gave.
abbrev pub contents : Option (List ℕ) → List ℕ
contents none = []
contents (some out) = out

module _ {N : Type 0} (api : Platform N) where
  unfoldable pub set_attributes :
      AttributeMap → SqlReturn → Connection N → Connection N × Outcome SqlReturn
  set_attributes [] result c = (c, returned result)
  set_attributes ((a, v) ∷ m) result c =
      if is_login_timeout a
      then set_attributes m result c
      else go_on (set_attributes m) result (set_connection_attribute api a v c)

  unfoldable pub finish_attributes : Connection N → SqlReturn → List ℕ → Option ℤ → Connected N
  finish_attributes c result out len =
      let (c', r) = set_attributes c.attributes result c in
      record { conn = c'; outcome = r; out_string = out; out_length = len }

  unfoldable pub fill_string :
      Option (List ℕ → ℤ → List ℕ)
      → List ℕ
      → Option (List ℕ)
      → ℤ
      → Connection N
      → Option (Connected N)
  fill_string convert str none size c = some (finish_attributes c success [] none)
  fill_string convert str (some out) size c = do
    (c', result, out', len) ← get_string_value convert str (pos (length str)) (some out) size c
    some (finish_attributes c' result out' (some (restrict_length sqlsmallint false len)))

  unfoldable pub opened :
      (Connection N → Option (Connected N))
      → Option (List ℕ)
      → Connection N
      → N × Outcome (Unit {0})
      → Option (Connected N)
  opened rest out c (n, threw t) = some (record {
    conn = record c { native = n };
    outcome = threw t;
    out_string = contents out;
    out_length = none;
  })
  opened rest out c (n, returned _) = rest (record c { native = n })

  unfoldable pub connect_t :
      Option (List ℕ → ℤ → List ℕ)
      → List ℕ
      → ℤ
      → Properties
      → Option (List ℕ)
      → ℤ
      → Connection N
      → Option (Connected N)
  unfolding opened
  connect_t convert server port props out size c =
      if api.is_open c.native
      then some (record {
        conn = (refuse connection_in_use (cleared c)).0;
        outcome = returned error;
        out_string = contents out;
        out_length = none;
      })
      else opened (fill_string convert (connection_string server port props) out size) out
          (cleared c) (api.open_at server port props c.native)

  -- What the two connect functions do with the result.
  unfoldable pub named : List ℕ → Connection N × SqlReturn → Connection N × SqlReturn
  named name (c, error) = (record c { dsn = [] }, error)
  named name (c, result) = (record c { dsn = name }, result)

  unfoldable pub connect :
      Option (List ℕ → ℤ → List ℕ)
      → List ℕ
      → ℤ
      → Properties
      → List ℕ
      → Option (List ℕ)
      → ℤ
      → Connection N
      → Option (Connection N × SqlReturn × List ℕ × Option ℤ)
  unfolding named
  connect convert server port props name out size c = do
    k ← connect_t convert server port props out size c
    let (c', result) = named name (caught (k.conn, k.outcome))
    some (c', result, k.out_string, k.out_length)

  unfoldable pub closed : Connection N → N × Outcome (Unit {0}) → Connection N × SqlReturn
  closed c (n, returned _) = (record c { native = n }, success)
  closed c (n, threw t) = refuse (error_of t) (record c { native = n })

  unfoldable pub disconnect : Connection N → Connection N × SqlReturn
  unfolding closed
  disconnect c =
      if api.is_open c.native
      then closed (cleared c) (api.close c.native)
      else refuse no_current_connection (cleared c)
