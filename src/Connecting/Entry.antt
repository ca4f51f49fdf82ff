-- ===== src/Connecting/Entry.antt =====
-- SQLConnect, SQLDriverConnect and SQLDisconnect of src/driver/cpp/SnappyDriverAPIs.cpp: the
-- properties are read, and the connection is made with them.
use snappy_odbc.Common.{
  ℕ, Bool, true, false, ◌&&◌, ◌||◌, not, Option, none, some, List, [], ◌∷◌, ◌==◌, if◌then◌else◌,
  ◌>>=◌, ℤ, pos, negsuc, leb_ℤ, ◌==ℤ◌, get_or,
}
use snappy_odbc.Driver.{
  SqlReturn, error, invalid_handle, HandleType, SqlError, Diag, set_exception, error_of,
  error_null_handle, error_not_implemented, error_invalid_buffer_length, other_exception,
}
use snappy_odbc.Strings.{sql_nts}
use snappy_odbc.Connecting.{Platform, Connection}
use snappy_odbc.Connecting.Attach.{connect, contents}
use snappy_odbc.Properties.{Setup, codes, Key}
use snappy_odbc.Properties.Collect.{
  Collected, Ending, returns, raises, read_properties, Credentials, credentials, empty_user,
  bad_text, read_credentials,
}
use snappy_odbc.Properties.Reader.{
  Reader, Text, chars, no_length, read, read_ini, init_reader, to_text,
}

-- What a call leaves: the connection, the result, the buffer for the connection string, and what is
-- stored in its length.
pub record Reply (N : Type 0) : Type 0 where
  pub conn : Connection N
  pub result : SqlReturn
  pub out_string : List ℕ
  pub out_length : Option ℤ

module _ {N : Type 0} where
  abbrev pub reply : Option (List ℕ) → Connection N × SqlReturn → Reply N
  reply out (c, r) = record { conn = c; result = r; out_string = contents out; out_length = none }

  abbrev pub with_diag : Connection N → Diag × SqlReturn → Connection N × SqlReturn
  with_diag c (d, r) = (record c { diag = d }, r)

  -- What readProperties reported on the handle.
  abbrev pub noted : Option SqlError → Connection N → Connection N
  noted e c = record c { diag = record { last_error = e; global_error = c.diag.global_error } }

  abbrev pub connected : Connection N × SqlReturn × List ℕ × Option ℤ → Reply N
  connected (c, r, text, len) = record { conn = c; result = r; out_string = text; out_length = len }

-- The property names of OdbcIniKeys::ALL_PROPERTIES.
unfoldable pub all_properties : List Key → List (List ℕ)
all_properties [] = []
all_properties (k ∷ ks) = k.key ∷ all_properties ks

module _ {N : Type 0} (api : Platform N) (setup : Setup) where
  -- After readProperties: its result is not looked at, but for SQL_ERROR.
  unfoldable pub connect_with :
      Option (List ℕ → ℤ → List ℕ)
      → Option (List ℕ)
      → ℤ
      → Connection N
      → Reader × Collected × Ending
      → Option (Reply N)
  connect_with convert out size c (r, k, raises t) = some (
      reply out (record c { diag = set_exception (error_of t) (noted k.last_error c).diag }, error))
  connect_with convert out size c (r, k, returns error) =
      some (reply out (noted k.last_error c, error))
  connect_with convert out size c (r, k, returns _) = do
    x ← connect api convert k.server k.port k.conn_props r.dsn out size (noted k.last_error c)
    some (connected x)

  -- SQLDriverConnect on a connection; `prompt` is completionFlag == SQL_DRIVER_PROMPT.
  unfoldable pub driver_connect :
      ℕ
      → Option (List ℕ → ℤ → List ℕ)
      → Bool
      → List ℕ
      → ℤ
      → Option (List ℕ)
      → ℤ
      → Connection N
      → Option (Reply N)
  driver_connect fuel convert prompt text len out size c =
      if prompt
      then some (reply out (with_diag c (error_not_implemented false c.diag)))
      else if leb_ℤ len (pos 0) && not (len ==ℤ sql_nts)
      then some (reply out (with_diag c (error_invalid_buffer_length len c.diag)))
      else (do
        r ← init_reader text len (all_properties setup.key_map)
        k ← read_properties setup (read setup fuel) fuel r none none c.diag.last_error
        connect_with convert out size c k)

  -- SQLConnect: the default DSN stands for none.
  named_dsn : Option (List ℕ) → ℤ → Bool
  named_dsn none len = false
  named_dsn (some text) len = not (get_or text 0 0 == 0 || len ==ℤ pos 0)

  ini_reader : Text → Option Reader
  ini_reader no_length = none
  ini_reader (chars dsn) =
      some (record {
        rest = none;
        names = all_properties setup.key_map;
        dsn = dsn;
        reading_dsn = true;
      })

  with_reader :
      ℕ
      → Option (List ℕ × ℤ)
      → Option (List ℕ × ℤ)
      → Connection N
      → Option Reader
      → Option (Reply N)
  with_reader fuel user passwd c none =
      some (reply none (record c { diag = set_exception (error_of other_exception) c.diag }, error))
  with_reader fuel user passwd c (some r) = do
    k ← read_properties setup (λ s. some (read_ini setup s)) fuel r user passwd c.diag.last_error
    connect_with none none (negsuc 0) c k

  dsn_text : Option (List ℕ) → ℤ → Option Text
  unfolding named_dsn
  dsn_text dsn len =
      if named_dsn dsn len then to_text (contents dsn) len else some (chars (codes "Default"))

  -- The DSN is read only once the credentials have been.
  dsn_after : Option (List ℕ) → ℤ → Credentials → Option Text
  unfolding dsn_text
  dsn_after dsn len empty_user = some (chars [])
  dsn_after dsn len bad_text = some (chars [])
  dsn_after dsn len (credentials u p) = dsn_text dsn len

  unfoldable pub sql_connect :
      ℕ
      → Option (List ℕ)
      → ℤ
      → Option (List ℕ × ℤ)
      → Option (List ℕ × ℤ)
      → Connection N
      → Option (Reply N)
  unfolding dsn_after ini_reader with_reader
  sql_connect fuel dsn len user passwd c = do
    k ← read_credentials user passwd
    t ← dsn_after dsn len k
    with_reader fuel user passwd c (ini_reader t)

  -- The check of the handle that each function begins with.
  unfoldable pub on_handle {ℓ} :
      {A : Type ℓ}
      → (Connection N → A × SqlReturn)
      → HandleType
      → Option (Connection N)
      → Diag
      → (Option A × Diag) × SqlReturn
  on_handle f t none d = ((none, (error_null_handle t false d).0), invalid_handle)
  on_handle f t (some c) d = ((some (f c).0, d), (f c).1)
