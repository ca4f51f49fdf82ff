-- ===== src/Properties/Collect.antt =====
-- readProperties of src/driver/cpp/ConnStringPropertyReader.h: the properties are sorted into the
-- server, the port, the credentials, and those that go to the connection or to the system.
use snappy_odbc.Common.{
  ℕ, zero, suc, ◌+◌, ◌-◌, ◌*◌, Bool, true, false, ◌&&◌, ◌||◌, Option, none, some, List, [], ◌∷◌,
  ◌==◌, ltb, leb, if◌then◌else◌, ◌>>=◌, ℤ, pos, negsuc, leb_ℤ, take, drop, length, get_or, is_some,
}
use snappy_odbc.Driver.{
  SqlReturn, success, success_with_info, error, SqlError, invalid_buffer_length,
  invalid_connection_property, invalid_connection_property_value, invalid_driver_name, Thrown,
  other_exception,
}
use snappy_odbc.Attributes.{to_sqlinteger}
use snappy_odbc.Properties.{
  codes, Flags, Setup, equals, istarts_with, has_part, without_dashes, look_up,
}
use snappy_odbc.Properties.Reader.{
  Answer, property, finished, failure, raised, Text, chars, no_length, to_text,
}

-- The variables of readProperties; `last_error` is the exception of the handle, `given_user` and
-- `given_passwd` are user and passwd.
pub record Collected : Type 0 where
  pub server : List ℕ
  pub port : ℤ
  pub given_user : List ℕ
  pub given_passwd : List ℕ
  pub conn_props : List (List ℕ × List ℕ)
  pub system_props : List (List ℕ × List ℕ)
  pub result : SqlReturn
  pub last_error : Option SqlError

-- Whether the loop goes on, or the function returns SQL_ERROR.
pub data Step : Type 0 where
  go : Collected → Step
  stop : Collected → Step

abbrev pub stop_with : SqlError → Collected → Step
stop_with e c = stop (record c { last_error = some e })

-- The order of std::string: the first byte that differs decides, and a prefix comes first.
unfoldable comes_before : List ℕ → List ℕ → Bool
comes_before _ [] = false
comes_before [] (d ∷ ds) = true
comes_before (c ∷ cs) (d ∷ ds) = ltb c d || (c == d && comes_before cs ds)

-- connProps[name] = value in a std::map, whose entries are ordered by their keys.
unfoldable pub put : List ℕ → List ℕ → List (List ℕ × List ℕ) → List (List ℕ × List ℕ)
unfolding comes_before
put k v [] = (k, v) ∷ []
put k v ((j, w) ∷ m) =
    if equals j k
    then (j, v) ∷ m
    else if comes_before k j
    then (k, v) ∷ (j, w) ∷ m
    else (j, w) ∷ put k v m

-- strtol in base 10: blanks, a sign and digits. The second part says whether *endp is 0.
unfoldable pub skip_space : List ℕ → List ℕ
skip_space [] = []
skip_space (c ∷ cs) = if c == b' ' || (leb 9 c && leb c 13) then skip_space cs else c ∷ cs

unfoldable pub is_digit : ℕ → Bool
is_digit c = leb b'0' c && leb c b'9'

unfoldable pub digits_value : ℕ → List ℕ → ℕ × Bool
unfolding is_digit
digits_value acc [] = (acc, true)
digits_value acc (c ∷ cs) =
    if is_digit c then digits_value (acc * 10 + (c - 48)) cs else (acc, false)

-- The value is clamped to the range of a long.
abbrev to_long : Bool → ℕ → ℤ
to_long true n =
    if ltb 9223372036854775808 n
    then negsuc 9223372036854775807
    else if n == 0
    then pos 0
    else negsuc (n - 1)
to_long false n = if ltb 9223372036854775807 n then pos 9223372036854775807 else pos n

unfoldable pub number : Bool → List ℕ → List ℕ → ℤ × Bool
unfolding is_digit digits_value
number negative whole [] = (pos 0, length whole == 0)
number negative whole (c ∷ cs) =
    if is_digit c
    then (let (n, ended) = digits_value 0 (c ∷ cs) in (to_long negative n, ended))
    else (pos 0, length whole == 0)

unfoldable pub signed : List ℕ → List ℕ → ℤ × Bool
unfolding number
signed whole [] = number false whole []
signed whole (c ∷ cs) =
    if c == b'-'
    then number true whole cs
    else if c == b'+'
    then number false whole cs
    else number false whole (c ∷ cs)

unfoldable pub strtol : List ℕ → ℤ × Bool
unfolding signed skip_space
strtol text = signed text (skip_space text)

-- The braces around a driver's name.
unfoldable pub without_braces : List ℕ → List ℕ
without_braces value =
    if get_or value 0 0 == b'{' && get_or value (length value - 1) 0 == b'}'
    then take (length value - 2) (drop 1 value)
    else value

unfoldable pub known_driver : List ℕ → List ℕ → Bool
known_driver driver_name value =
    has_part driver_name value
    || istarts_with (codes "SnappyData") value
    || istarts_with (codes "TIBCO ComputeDB") value

unfoldable pub take_driver : List ℕ → List ℕ → Collected → Step
unfolding without_braces known_driver
take_driver driver_name value c =
    if known_driver driver_name (without_braces value)
    then go c
    else stop_with invalid_driver_name c

unfoldable pub port_of : ℤ × Bool → Collected → Step
port_of (n, true) c = go (record c { port = to_sqlinteger n })
port_of (n, false) c =
    stop_with invalid_connection_property_value (record c { port = to_sqlinteger n })

unfoldable pub take_port : List ℕ → Collected → Step
unfolding port_of
take_port value c = port_of (strtol value) c

-- The first user that is not empty is kept, that of the call before all.
unfoldable pub take_user : List ℕ → List ℕ → Collected → Step
take_user value [] c =
    if length value == 0
    then stop_with (invalid_buffer_length (pos 0)) c
    else go (record c { given_user = value })
take_user value (u ∷ us) c = go c

unfoldable pub take_passwd : List ℕ → List ℕ → Collected → Step
take_passwd value [] c = go (record c { given_passwd = value })
take_passwd value (p ∷ ps) c = go c

unfoldable pub sort_property : Setup → List ℕ → Flags → List ℕ → Collected → Step
sort_property setup name flags value c =
    if flags.is_driver
    then take_driver setup.driver_name value c
    else if flags.is_server
    then go (record c { server = value })
    else if flags.is_port
    then take_port value c
    else if flags.is_user
    then take_user value c.given_user c
    else if flags.is_passwd
    then take_passwd value c.given_passwd c
    else if flags.is_system_prop
    then go (record c { system_props = put name value c.system_props })
    else go (record c { conn_props = put name value c.conn_props })

-- The body of the loop.
unfoldable pub take_property : Setup → List ℕ → List ℕ → Collected → Step
take_property setup name value c = elim (look_up setup.key_map name) [
  | none ↦ go (record c {
    last_error = some (invalid_connection_property (without_dashes name));
    result = success_with_info;
  })
  | some (property_name, flags) ↦ sort_property setup property_name flags value c
]

-- After the loop.
unfoldable pub finish_properties : Setup → Collected → Collected
finish_properties setup c = record c {
  port = if leb_ℤ c.port (pos 0) then pos 1527 else c.port;
  conn_props =
      let m =
        if ltb 0 (length c.given_user)
        then put setup.username_key c.given_user c.conn_props
        else c.conn_props in
      if ltb 0 (length c.given_passwd) then put setup.password_key c.given_passwd m else m;
}

-- What readProperties comes to: a return code, or a C++ exception.
pub data Ending : Type 0 where
  returns : SqlReturn → Ending
  raises : Thrown → Ending

-- `reads` is the virtual call reader->read.
unfoldable pub next_round {ℓ} :
    {R : Type ℓ}
    → Setup
    → (R → Collected → Option (R × Collected × Ending))
    → Collected
    → R × Answer
    → Option (R × Collected × Ending)
unfolding finish_properties
next_round setup rest c (r, finished) =
    some (r, finish_properties setup c, returns (finish_properties setup c).result)
next_round setup rest c (r, failure e) = some (r, record c { last_error = some e }, returns error)
next_round setup rest c (r, raised t) = some (r, c, raises t)
next_round setup rest c (r, property name value) = elim (take_property setup name value c) [
  | go c' ↦ rest r c'
  | stop c' ↦ some (r, c', returns error)
]

-- The loop; the fuel bounds its rounds.
unfoldable pub read_loop {ℓ} :
    {R : Type ℓ}
    → Setup
    → (R → Option (R × Answer))
    → ℕ
    → R
    → Collected
    → Option (R × Collected × Ending)
read_loop setup reads zero r c = none
read_loop setup reads (suc f) r c = do a ← reads r; next_round setup (read_loop setup reads f) c a

-- The user and the password that the call was given, where their pointers are not null.
pub data Credentials : Type 0 where
  credentials : List ℕ → List ℕ → Credentials
  empty_user : Credentials
  bad_text : Credentials

text_or_empty : Option (List ℕ × ℤ) → Option Text
text_or_empty none = some (chars [])
text_or_empty (some (memory, len)) = to_text memory len

with_passwd : List ℕ → Text → Credentials
with_passwd user no_length = bad_text
with_passwd user (chars passwd) = credentials user passwd

-- The flag says whether the user's pointer is not null.
with_user : Bool → Option (List ℕ × ℤ) → Text → Option Credentials
unfolding with_passwd text_or_empty
with_user given passwd no_length = some bad_text
with_user given passwd (chars user) =
    if given && length user == 0
    then some empty_user
    else (do p ← text_or_empty passwd; some (with_passwd user p))

unfoldable pub read_credentials : Option (List ℕ × ℤ) → Option (List ℕ × ℤ) → Option Credentials
unfolding text_or_empty with_user
read_credentials user passwd = do u ← text_or_empty user; with_user (is_some user) passwd u

abbrev pub nothing_collected : Option SqlError → Collected
nothing_collected e = record {
  server = [];
  port = pos 0;
  given_user = [];
  given_passwd = [];
  conn_props = [];
  system_props = [];
  result = success;
  last_error = e;
}

unfoldable pub with_credentials {ℓ} :
    {R : Type ℓ}
    → Setup
    → (R → Option (R × Answer))
    → ℕ
    → R
    → Collected
    → Credentials
    → Option (R × Collected × Ending)
with_credentials setup reads fuel r c bad_text = some (r, c, raises other_exception)
with_credentials setup reads fuel r c empty_user =
    some (r, record c { last_error = some (invalid_buffer_length (pos 0)) }, returns error)
with_credentials setup reads fuel r c (credentials u p) =
    read_loop setup reads fuel r (record c { given_user = u; given_passwd = p })

-- readProperties, for a reader that has been initialised.
unfoldable pub read_properties {ℓ} :
    {R : Type ℓ}
    → Setup
    → (R → Option (R × Answer))
    → ℕ
    → R
    → Option (List ℕ × ℤ)
    → Option (List ℕ × ℤ)
    → Option SqlError
    → Option (R × Collected × Ending)
unfolding with_credentials
read_properties setup reads fuel r user passwd e = do
  k ← read_credentials user passwd
  with_credentials setup reads fuel r (nothing_collected e) k
