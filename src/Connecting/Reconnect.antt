-- ===== src/Connecting/Reconnect.antt =====
-- The connection string that connect gave out, handed to SQLDriverConnect
-- (src/driver/cpp/SnappyConnection.cpp, ConnStringPropertyReader.h and SnappyDriverAPIs.cpp).
use mathlib.Core.Option
use snappy_odbc.Common.{
  ℕ, zero, suc, ◌+◌, ◌<◌, ◌≡◌, refl, ap, ◌∙◌, true, false, Option, none, some, List, [], ◌∷◌, ◌++◌,
  arith, ◌>>=◌, ℤ, pos, leb_ℤ, All, length, if_no,
}
use snappy_odbc.Driver.{success, SqlError}
use snappy_odbc.Strings.{sql_nts}
use snappy_odbc.Connecting.{Platform, Connection}
use snappy_odbc.Connecting.Attach.{connection_string, connect, to_string}
use snappy_odbc.Connecting.Entry.{connected, all_properties, connect_with, driver_connect}
use snappy_odbc.Properties.{Setup, Flags, no_flags, codes, look_up}
use snappy_odbc.Properties.Collect.{
  Collected, nothing_collected, put, Step, take_property, sort_property, take_port, port_of,
  finish_properties, returns,
}
use snappy_odbc.Properties.Decimal.{strtol-to_string, to_sqlinteger-small}
use snappy_odbc.Properties.Printed.{AreEntries, printed_entries, sort_all, printed_string_read_back}

abbrev pub server_flags : Flags
server_flags = record no_flags { is_server = true }

abbrev pub port_flags : Flags
port_flags = record no_flags { is_port = true }

-- The table knows the names that connect prints: those of the server and the port, and each
-- property by its own name, as one that is handed to the connection.
pub record Resolves (setup : Setup) (props : List (List ℕ × List ℕ)) : Type 0 where
  pub server_property : List ℕ
  pub port_property : List ℕ
  pub finds_server : look_up setup.key_map (codes "server") ≡ some (server_property, server_flags)
  pub finds_port : look_up setup.key_map (codes "port") ≡ some (port_property, port_flags)
  pub finds_props : All (λ p. look_up setup.key_map p.0 ≡ some (p.0, no_flags)) props

-- The properties put into a map one after the other.
unfoldable pub put_all : List (List ℕ × List ℕ) → List (List ℕ × List ℕ) → List (List ℕ × List ℕ)
put_all [] m = m
put_all ((k, v) ∷ es) m = put_all es (put k v m)

bind-map {ℓ κ} :
    {A : Type ℓ} {B : Type κ} (f : A → B) (o : Option A)
    → (o >>= (λ x. some (f x))) ≡ Option.map f o
bind-map f none = refl
bind-map f (some a) = refl

positive : (n : ℕ) → 0 < n → leb_ℤ (pos n) (pos 0) ≡ false
positive n h = ground arith

module _ (setup : Setup) where
  found-sorted :
      (k v name : List ℕ) (flags : Flags) (c : Collected)
      → look_up setup.key_map k ≡ some (name, flags)
      → take_property setup k v c ≡ sort_property setup name flags v c
  unfolding take_property
  found-sorted k v name flags c h = rw (take_property, h) refl

  sort_all-go :
      (k v : List ℕ) (es : List (List ℕ × List ℕ)) (c c' : Collected)
      → take_property setup k v c ≡ Step.go c'
      → sort_all setup ((k, v) ∷ es) c ≡ sort_all setup es c'
  unfolding sort_all
  sort_all-go k v es c c' h = rw (sort_all, h) refl

  sort_all-props :
      (props : List (List ℕ × List ℕ)) (c : Collected)
      → All (λ p. look_up setup.key_map p.0 ≡ some (p.0, no_flags)) props
      → sort_all setup props c
        ≡ sort_all setup [] (record c { conn_props = put_all props c.conn_props })
  unfolding put_all sort_property
  sort_all-props [] c h = refl
  sort_all-props ((k, v) ∷ es) c h =
      let c' : Collected = record c { conn_props = put k v c.conn_props } in
      sort_all-go k v es c c' (found-sorted k v k no_flags c h.0) ∙ sort_all-props es c' h.1

  collected : List ℕ → ℤ → List (List ℕ × List ℕ) → Option SqlError → Collected
  collected server port props e = record (nothing_collected e) {
    server = server;
    port = port;
    conn_props = put_all props [];
  }

  take_port-printed :
      (port : ℕ) (c : Collected)
      → port < 2147483648
      → take_port (to_string (pos port)) c ≡ Step.go (record c { port = pos port })
  unfolding take_port port_of
  take_port-printed port c h =
      rw (strtol-to_string port h)
        (ap (λ p. Step.go (record c { port = p })) (to_sqlinteger-small port h))

  sort_all-printed :
      (server : List ℕ) (port : ℕ) (props : List (List ℕ × List ℕ)) (e : Option SqlError)
      → Resolves setup props
      → port < 2147483648
      → sort_all setup (printed_entries server (pos port) props) (nothing_collected e)
        ≡ sort_all setup [] (collected server (pos port) props e)
  unfolding collected sort_property
  sort_all-printed server port props e r h =
      let start = nothing_collected e in
      let served : Collected = record start { server = server } in
      let ported : Collected = record served { port = pos port } in
      let rest = (codes "port", to_string (pos port)) ∷ props in
      sort_all-go (codes "server") server rest start served
        (found-sorted (codes "server") server r.server_property server_flags start r.finds_server)
      ∙ sort_all-go (codes "port") (to_string (pos port)) props served ported (
          found-sorted (codes "port") (to_string (pos port)) r.port_property port_flags served
            r.finds_port
          ∙ take_port-printed port served h)
      ∙ sort_all-props props ported r.finds_props

  finish-collected :
      (server : List ℕ) (port : ℕ) (props : List (List ℕ × List ℕ)) (e : Option SqlError)
      → 0 < port
      → sort_all setup [] (collected server (pos port) props e)
        ≡ (collected server (pos port) props e, returns success)
  unfolding sort_all finish_properties collected
  finish-collected server port props e h =
      ap (λ p. (record (collected server (pos port) props e) { port = p }, returns success))
        (if_no (leb_ℤ (pos port) (pos 0)) (pos 1527) (pos port) (positive port h))

module _ {N : Type 0} (api : Platform N) (setup : Setup) where
  -- The connection string that connect prints for a server, a port from 1 to 2^31 - 1 and
  -- properties, handed to SQLDriverConnect with SQL_NTS, connects to the same server and port,
  -- with those properties put into a map in their order, no DSN and the output arguments of that
  -- call; if names and values stand in the string as they are (no semicolon or terminator, no
  -- equals sign in a name and no blank before it, no DSN) and the key table knows the server, the
  -- port and each property by its own name. Fuel above the number of properties and two is enough.
  pub reconnect :
      (convert : Option (List ℕ → ℤ → List ℕ)) (server : List ℕ) (port : ℕ)
      (props : List (List ℕ × List ℕ)) (out : Option (List ℕ)) (size : ℤ) (fuel : ℕ)
      (c : Connection N)
      → AreEntries (printed_entries server (pos port) props)
      → Resolves setup props
      → 0 < port
      → port < 2147483648
      → length props + 2 < fuel
      → driver_connect api setup fuel convert false
          (connection_string server (pos port) props ++ 0 ∷ [])
          sql_nts
          out
          size
          c
        ≡ Option.map connected
            (connect api convert server (pos port) (put_all props []) [] out size c)
  unfolding driver_connect connect_with collected
  reconnect convert server port props out size zero c plain r p q l = absurd (omega arith)
  reconnect convert server port props out size (suc d) c plain r p q l =
      let e = c.diag.last_error in
      let (r₁, r₂, starts, reads, named) =
        printed_string_read_back setup server (pos port) props (all_properties setup.key_map) d
          (suc d) e plain l in
      let sorted =
        sort_all-printed setup server port props e r q
        ∙ finish-collected setup server port props e p in
      rw (starts, reads, sorted, named) (bind-map connected _)
