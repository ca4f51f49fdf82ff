-- ===== src/Properties/Reader.antt =====
-- The two readers: IniPropertyReader::read and ConnStringPropertyReader::init and read, for
-- characters of one byte (src/driver/cpp).
use snappy_odbc.Common.{
  ℕ, zero, suc, ◌-◌, Bool, true, false, Option, none, some, List, [], ◌∷◌, ◌++◌, ◌==◌, leb,
  if◌then◌else◌, ◌>>=◌, ℤ, pos, negsuc, ◌-ℤ◌, ◌==ℤ◌, length, get_elem?, take, drop,
}
use snappy_odbc.Driver.{SqlError, invalid_connection_property_value, Thrown, other_exception}
use snappy_odbc.Strings.{sql_nts, strlen, strchr, ltrim, rtrim}
use snappy_odbc.Properties.{codes, iequals, Setup}

-- ConnStringPropertyReader: `rest` is the text from m_connStrp on, none where that is null; `names`
-- are the property names from the shared iterator on, `dsn` is that of m_iniReader.
pub record Reader : Type 0 where
  pub rest : Option (List ℕ)
  pub names : List (List ℕ)
  pub dsn : List ℕ
  pub reading_dsn : Bool

-- What read answers: a property and SQL_SUCCESS_WITH_INFO, SQL_SUCCESS, SQL_ERROR with its
-- exception, or a C++ exception.
pub data Answer : Type 0 where
  property : List ℕ → List ℕ → Answer
  finished : Answer
  failure : SqlError → Answer
  raised : Thrown → Answer

-- The loop of IniPropertyReader::read: names without a value are passed over.
unfoldable pub next_name : (List ℕ → List ℕ) → List (List ℕ) → List (List ℕ) × Answer
next_name profile [] = ([], finished)
next_name profile (n ∷ ns) = elim (profile n) [
  | [] ↦ next_name profile ns
  | c ∷ cs ↦ (ns, property n (c ∷ cs))
]

unfoldable pub read_ini : Setup → Reader → Reader × Answer
read_ini setup r =
    let (ns, a) = next_name (setup.profile r.dsn) r.names in (record r { names = ns }, a)

-- What toString makes of a pointer and a length: std::string(chars, n) throws for a length that is
-- negative, and the read of fewer than n chars is a fault.
pub data Text : Type 0 where
  chars : List ℕ → Text
  no_length : Text

unfoldable pub to_text : List ℕ → ℤ → Option Text
to_text memory (pos n) = if leb n (length memory) then some (chars (take n memory)) else none
to_text memory (negsuc n) =
    if negsuc n ==ℤ sql_nts
    then (do k ← strlen memory; some (chars (take k memory)))
    else some no_length

-- One entry of the connection string: its name, the memory from its value on, the value's length,
-- and what m_connStrp is after it.
pub record Entry : Type 0 where
  pub name : List ℕ
  pub value_at : List ℕ
  pub value_length : ℤ
  pub after : Option (List ℕ)

-- How the value ends: at the first semicolon of the text, or at its terminator.
unfoldable pub value_end : List ℕ → ℕ → Option ℕ → Option (ℤ × Option (List ℕ))
value_end s start (some k) = some (pos k -ℤ pos start, some (drop (suc k) s))
value_end s start none = do n ← strlen (drop start s); some (pos n, none)

unfoldable pub cut_entry : List ℕ → ℕ → Option ℕ → Option Entry
cut_entry s equal semicolon = do
  start ← ltrim s
  stop ← rtrim s equal
  (len, after) ← value_end s (suc stop) semicolon
  some (record {
    name = take (stop - start) (drop start s);
    value_at = drop (suc stop) s;
    value_length = len;
    after = after;
  })

-- What the text holds next: nothing, an entry, or no '='.
pub data Next : Type 0 where
  at_end : Next
  entry : Entry → Next
  no_equal : Next

unfoldable pub split_at_equal : List ℕ → Option ℕ → Option ℕ → Option Next
split_at_equal s none semicolon = some no_equal
split_at_equal s (some e) semicolon = do x ← cut_entry s e semicolon; some (entry x)

unfoldable pub next_entry : Option (List ℕ) → Option Next
unfolding split_at_equal
next_entry none = some at_end
next_entry (some s) = do
  n ← strlen s
  semicolon ← strchr s b';'
  equal ← strchr s b'='
  if n == 0 then some at_end else split_at_equal s equal semicolon

-- The DSN attribute, where it has a value.
unfoldable pub names_dsn : List ℕ → List ℕ → Bool
unfolding iequals
names_dsn name [] = false
names_dsn name (c ∷ cs) = iequals name (codes "DSN")

module _ (setup : Setup) where
  -- What is done with a value that was cut out; `again` is the call of read by itself.
  unfoldable pub with_value :
      (Reader → Option (Reader × Answer)) → Reader → List ℕ → Text → Option (Reader × Answer)
  with_value again r name no_length = some (r, raised other_exception)
  with_value again r name (chars value) =
      if names_dsn name value
      then again (record r { dsn = value; reading_dsn = true })
      else some (r, property name value)

  unfoldable pub take_next :
      (Reader → Option (Reader × Answer)) → Reader → Next → Option (Reader × Answer)
  take_next again r at_end = some (r, finished)
  take_next again r no_equal = some (r, failure invalid_connection_property_value)
  take_next again r (entry x) = do
    value ← to_text x.value_at x.value_length
    with_value again (record r { rest = x.after }) x.name value

  unfoldable pub read_string :
      (Reader → Option (Reader × Answer)) → Reader → Option (Reader × Answer)
  read_string again r = do next ← next_entry r.rest; take_next again r next

  -- After a property of the DSN comes the next of them; after the last of them the text goes on.
  unfoldable pub after_ini :
      (Reader → Option (Reader × Answer)) → Reader × Answer → Option (Reader × Answer)
  after_ini again (r, finished) = read_string again (record r { reading_dsn = false })
  after_ini again (r, property name value) = some (r, property name value)
  after_ini again (r, failure e) = some (record r { reading_dsn = false }, failure e)
  after_ini again (r, raised t) = some (r, raised t)

  -- ConnStringPropertyReader::read; the fuel bounds the calls of it by itself.
  unfoldable pub read : ℕ → Reader → Option (Reader × Answer)
  read zero r = none
  read (suc f) r =
      if r.reading_dsn then after_ini (read f) (read_ini setup r) else read_string (read f) r

-- ConnStringPropertyReader::init: a counted text that is not terminated is copied.
unfoldable pub init_reader : List ℕ → ℤ → List (List ℕ) → Option Reader
init_reader text (pos n) names = do
  c ← get_elem? text n
  some (record {
    rest = some (if c == 0 then text else take n text ++ 0 ∷ []);
    names = names;
    dsn = [];
    reading_dsn = false;
  })
init_reader text (negsuc n) names =
    if negsuc n ==ℤ sql_nts
    then some (record { rest = some text; names = names; dsn = []; reading_dsn = false })
    else none
