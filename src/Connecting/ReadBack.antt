-- ===== src/Connecting/ReadBack.antt =====
-- What SQLGetConnectAttr answers after SQLSetConnectAttr (src/driver/cpp/SnappyConnection.cpp).
use snappy_odbc.Common.{
  ℕ, ◌*◌, ◌%◌, ◌<◌, ◌≡◌, refl, ap, inl, inr, Bool, true, false, Option, some, List, [], ◌∷◌, ◌==◌,
  ltb, if◌then◌else◌, ℤ, pos, arith, Bool-cases, ==_iff,
}
use snappy_odbc.Driver.{SqlReturn, success, no_current_connection, Outcome, returned, threw}
use snappy_odbc.Connecting.{
  Platform, ConnectionAttribute, access_mode, autocommit, connection_timeout, login_timeout,
  metadata_id, packet_size, translate_option, txn_isolation, attribute_code, AttributeValue,
  AttributeMap, find, assign, Connection, cleared, caught,
}
use snappy_odbc.Connecting.Apply.{apply, set_connection_attribute, answer}
use snappy_odbc.Connecting.Settings.{choose, tell, follow, set_attribute, integer}
use snappy_odbc.Connecting.Queries.{
  Answer, value, failure, Target, uinteger, give, recorded, remembered, recall, ask, get_attribute,
  nested,
}
use snappy_odbc.Connecting.Attempts.{with_setting, masked_twice, tell-closed}

pub find-assign :
    (a : ConnectionAttribute) (v : AttributeValue) (m : AttributeMap)
    → find a (assign a v m) ≡ some v
unfolding find assign
find-assign a v [] = rw ((==_iff (attribute_code a) (attribute_code a)).1 refl)
find-assign a v ((b, w) ∷ m) = elim (Bool-cases (attribute_code b == attribute_code a)) [
  | inl e ↦ rw (e, (==_iff (attribute_code a) (attribute_code a)).1 refl)
  | inr e ↦ rw (e, e) (find-assign a v m)
]

-- The attributes that are integers.
unfoldable pub is_number : ConnectionAttribute → Bool
is_number access_mode = true
is_number autocommit = true
is_number connection_timeout = true
is_number login_timeout = true
is_number packet_size = true
is_number txn_isolation = true
is_number metadata_id = true
is_number translate_option = true
is_number _ = false

-- What is read back on a closed connection: what was set, where its top bit is clear; of
-- SQL_ATTR_METADATA_ID, the flag from before; of SQL_ATTR_TRANSLATE_OPTION, always the error.
unfoldable pub read_back : ConnectionAttribute → ℕ → Bool → Answer
read_back metadata_id v before = value (if before then 1 else 0)
read_back translate_option v before = failure no_current_connection
read_back a v before =
    if ltb (v % 4294967296) 2147483648
    then value (v % 4294967296)
    else failure no_current_connection

module _ {N : Type 0} (api : Platform N) where
  choose-number :
      (a : ConnectionAttribute) (v : ℕ) (memory : List ℕ) (len : ℤ) (ascii : Bool)
      → is_number a ≡ true
      → choose a v memory len ascii false ≡ some (integer ascii v)
  unfolding is_number choose
  choose-number access_mode v memory len ascii h = refl
  choose-number autocommit v memory len ascii h = refl
  choose-number connection_timeout v memory len ascii h = refl
  choose-number login_timeout v memory len ascii h = refl
  choose-number packet_size v memory len ascii h = refl
  choose-number txn_isolation v memory len ascii h = refl
  choose-number metadata_id v memory len ascii h = refl
  choose-number translate_option v memory len ascii h = refl
  choose-number _ v memory len ascii h = cc

  remembered-read_back :
      (a : ConnectionAttribute) (v : ℕ) (ascii : Bool) (t : Target) (c : Connection N)
      → remembered api a t (with_setting a v ascii c)
        ≡ give t (with_setting a v ascii c) (
            if ltb (v % 4294967296) 2147483648
            then value (v % 4294967296)
            else failure no_current_connection)
  unfolding remembered recorded
  remembered-read_back a v ascii t c =
      rw (find-assign a (record { ascii = ascii; word = v % 4294967296; chars = [] }) c.attributes)
        (rw (masked_twice v) refl)

  recall-read_back :
      (a : ConnectionAttribute) (v : ℕ) (ascii : Bool) (t : Target) (c : Connection N)
      → is_number a ≡ true
      → t.given ≡ true
      → recall api a t (with_setting a v ascii c)
        ≡ some (give t (with_setting a v ascii c) (read_back a v c.args_as_identifiers))
  unfolding recall is_number read_back give
  recall-read_back access_mode v ascii t c h g = ap some (remembered-read_back _ v ascii t c)
  recall-read_back autocommit v ascii t c h g = ap some (remembered-read_back _ v ascii t c)
  recall-read_back connection_timeout v ascii t c h g = ap some (remembered-read_back _ v ascii t c)
  recall-read_back login_timeout v ascii t c h g = ap some (remembered-read_back _ v ascii t c)
  recall-read_back packet_size v ascii t c h g = ap some (remembered-read_back _ v ascii t c)
  recall-read_back txn_isolation v ascii t c h g = ap some (remembered-read_back _ v ascii t c)
  recall-read_back metadata_id v ascii t c h g = rw g refl
  recall-read_back translate_option v ascii t c h g = refl
  recall-read_back _ v ascii t c h g = cc

  -- An integer attribute that is set on a closed connection is kept with SQL_SUCCESS. Reading it
  -- there into a buffer that is given answers: SQL_ATTR_METADATA_ID as the flag that it was
  -- before; SQL_ATTR_TRANSLATE_OPTION always with the error that there is no connection;
  -- SQL_ATTR_ACCESS_MODE, AUTOCOMMIT, CONNECTION_TIMEOUT, LOGIN_TIMEOUT, PACKET_SIZE and
  -- TXN_ISOLATION as the low 32 bits that were set where the topmost of them is clear, and with
  -- that error where it is set.
  pub closed_settings_read_back :
      (convert : Bool → Option (List ℕ → ℤ → List ℕ)) (a : ConnectionAttribute) (v : ℕ)
      (memory : List ℕ) (len : ℤ) (ascii : Bool) (t : Target) (c c' : Connection N) {r : SqlReturn}
      → api.is_open c.native ≡ false
      → is_number a ≡ true
      → t.given ≡ true
      → set_attribute api a v memory len ascii c ≡ some (c', r)
      → (r ≡ success)
        × (get_attribute api convert a t c'
            ≡ some (give t (cleared c') (read_back a v c.args_as_identifiers)))
  unfolding get_attribute set_attribute follow
  closed_settings_read_back convert a v memory len ascii t c c' closed number given h =
      let stored : set_attribute api a v memory len ascii c
          ≡ some (with_setting a v ascii (cleared c), success) =
        rw (closed, choose-number a v memory len ascii number)
          (ap some (tell-closed api a _ (with_setting a v ascii (cleared c)) closed)) in
      let kept : c' ≡ with_setting a v ascii (cleared c) = cc (stored, h) in
      (cc (stored, h), rw (kept, closed) (recall-read_back a v ascii t (cleared c) number given))

-- What is relied on of the native timeouts: what was set is read, and the connection stays open.
pub record TimeoutLaws {N : Type 0} (api : Platform N) : Type 0 where
  pub receives :
      (t : ℕ) (n : N)
      → (api.set_receive_timeout t n).1 ≡ returned tt
      → api.get_receive_timeout (api.set_receive_timeout t n).0 ≡ returned t
  pub stays : (t : ℕ) (n : N) → api.is_open (api.set_receive_timeout t n).0 ≡ api.is_open n

module _ {N : Type 0} (api : Platform N) (laws : TimeoutLaws api) where
  answered :
      (c : Connection N) (x : N × Outcome (Unit {0}))
      → x.1 ≡ returned tt
      → caught (answer c x) ≡ (record c { native = x.0 }, success)
  unfolding answer caught
  answered c (n, returned _) h = refl
  answered c (n, threw t) h = absurd (ground arith)

  in_milliseconds :
      (v : ℕ) → v < 4294967 → v % 4294967296 % 4294967296 * 1000 % 4294967296 ≡ v * 1000
  in_milliseconds v h = omega arith

  timeout_set :
      (v : ℕ) (memory : List ℕ) (len : ℤ) (ascii : Bool) (c : Connection N)
      → v < 4294967
      → api.is_open c.native ≡ true
      → (api.set_receive_timeout (v * 1000) c.native).1 ≡ returned tt
      → set_attribute api connection_timeout v memory len ascii c
        ≡ some (
          record (with_setting connection_timeout v ascii (cleared c)) {
            native = (api.set_receive_timeout (v * 1000) c.native).0;
          },
          success,
        )
  unfolding set_attribute choose follow tell set_connection_attribute apply
  timeout_set v memory len ascii c bound opened works =
      rw (opened, in_milliseconds v bound)
        (ap some (
          answered (with_setting connection_timeout v ascii (cleared c))
            (api.set_receive_timeout (v * 1000) c.native) works))

  -- On an open connection a connection timeout below 4294967 seconds that the native connection
  -- takes is set with SQL_SUCCESS and read back a thousand times larger, in milliseconds; for
  -- native timeouts that are read as they were set.
  pub timeout_read_in_milliseconds :
      (convert : Bool → Option (List ℕ → ℤ → List ℕ)) (v : ℕ) (memory : List ℕ) (len : ℤ)
      (ascii : Bool) (t : Target) (c c' : Connection N) {r : SqlReturn}
      → v < 4294967
      → api.is_open c.native ≡ true
      → (api.set_receive_timeout (v * 1000) c.native).1 ≡ returned tt
      → set_attribute api connection_timeout v memory len ascii c ≡ some (c', r)
      → (r ≡ success)
        × (get_attribute api convert connection_timeout t c'
            ≡ some (cleared c', success, nested t (uinteger (v * 1000)) (pos 4)))
  unfolding get_attribute ask give
  timeout_read_in_milliseconds convert v memory len ascii t c c' bound opened works h =
      let stored = timeout_set v memory len ascii c bound opened works in
      let kept : c' ≡ record (with_setting connection_timeout v ascii (cleared c)) {
        native = (api.set_receive_timeout (v * 1000) c.native).0;
      } =
        cc (stored, h) in
      (
        cc (stored, h),
        rw (kept, laws.stays (v * 1000) c.native, opened, laws.receives (v * 1000) c.native works)
            refl,
      )
