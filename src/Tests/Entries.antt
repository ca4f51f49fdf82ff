-- ===== src/Tests/Entries.antt =====
-- Concrete connection strings.
use mathlib.Core.Option
use snappy_odbc.Common.{
  ℕ, ◌≡◌, refl, true, false, none, some, is_some, List, [], ◌∷◌, ◌++◌, arith, pos,
}
use snappy_odbc.Driver.{other_exception}
use snappy_odbc.Strings.{sql_nts, strlen, is_blank}
use snappy_odbc.Connecting.Attach.{connection_string, connect, to_string, digits}
use snappy_odbc.Connecting.Entry.{driver_connect, connected}
use snappy_odbc.Connecting.Reconnect.{Resolves, put_all, reconnect, server_flags, port_flags}
use snappy_odbc.Properties.{
  Setup, codes, look_up, get_conn_property_name, find_key, equals, iequals, starts_with,
  without_dashes, to_lower,
}
use snappy_odbc.Properties.Collect.{read_properties}
use snappy_odbc.Properties.Misplaced.{entry_without_equal_raises}
use snappy_odbc.Properties.Printed.{AreEntries, printed_entries}
use snappy_odbc.Properties.Reader.{Reader, raised, read, init_reader, names_dsn}
use snappy_odbc.Properties.Total.{read_properties_ends}
use snappy_odbc.Tests.Links.{wire, fresh}

abbrev plain_setup : Setup
plain_setup = record {
  profile = λ dsn name. [];
  key_map =
      record { key = codes "Server"; property_name = []; flags = server_flags }
      ∷ record { key = codes "Port"; property_name = []; flags = port_flags }
      ∷ [];
  driver_name = codes "libsnappyodbc.so";
  username_key = codes "user";
  password_key = codes "password";
}

abbrev shuffle : List (List ℕ × List ℕ)
shuffle = (codes "spark.a", codes "7") ∷ []

plain-Resolves : Resolves plain_setup shuffle
unfolding look_up get_conn_property_name find_key equals iequals starts_with without_dashes to_lower
plain-Resolves = record {
  server_property = [];
  port_property = [];
  finds_server = refl;
  finds_port = refl;
  finds_props = (refl, tt);
}

shuffle-AreEntries : AreEntries (printed_entries (codes "h") (pos 1527) shuffle)
unfolding is_blank names_dsn iequals to_lower to_string digits
shuffle-AreEntries = (
  record {
    name_plain = (
      (refl, refl, refl),
      (
        (refl, refl, refl),
        ((refl, refl, refl), ((refl, refl, refl), ((refl, refl, refl), ((refl, refl, refl), tt)))),
      ),
    );
    name_starts = refl;
    value_plain = ((refl, refl), tt);
    no_dsn = refl;
  },
  (
    record {
      name_plain = (
        (refl, refl, refl),
        ((refl, refl, refl), ((refl, refl, refl), ((refl, refl, refl), tt))),
      );
      name_starts = refl;
      value_plain = ((refl, refl), ((refl, refl), ((refl, refl), ((refl, refl), tt))));
      no_dsn = refl;
    },
    (
      record {
        name_plain = (
          (refl, refl, refl),
          (
            (refl, refl, refl),
            (
              (refl, refl, refl),
              (
                (refl, refl, refl),
                ((refl, refl, refl), ((refl, refl, refl), ((refl, refl, refl), tt))),
              ),
            ),
          ),
        );
        name_starts = refl;
        value_plain = ((refl, refl), tt);
        no_dsn = refl;
      },
      tt,
    ),
  ),
)

reconnect_example :
    driver_connect wire plain_setup 5 none false
      (connection_string (codes "h") (pos 1527) shuffle ++ 0 ∷ [])
      sql_nts
      none
      (pos 0)
      fresh
    ≡ Option.map connected
        (connect wire none (codes "h") (pos 1527) (put_all shuffle []) [] none (pos 0) fresh)
reconnect_example =
    reconnect wire plain_setup none (codes "h") 1527 shuffle none (pos 0) 5 fresh shuffle-AreEntries
      plain-Resolves (omega arith) (omega arith) (omega arith)

-- "DSN=x;a=b", counted, with a unit behind it.
abbrev counted_text : List ℕ
counted_text = codes "DSN=x;a=b#"

read_properties_ends_example :
    (r : Reader) × (init_reader counted_text (pos 9) (codes "Port" ∷ []) ≡ some r)
    × (is_some (read_properties plain_setup (read plain_setup 13) 13 r none none none) ≡ true)
read_properties_ends_example =
    read_properties_ends plain_setup counted_text (pos 9) (codes "Port" ∷ []) 13 none (omega arith)
      (omega arith)

abbrev idle_reader : Reader
idle_reader = record { rest = none; names = []; dsn = []; reading_dsn = false }

one_char : strlen (codes "1" ++ 0 ∷ []) ≡ some 1
unfolding strlen
one_char = refl

-- "h;xy=1"
entry_without_equal_raises_example :
    read plain_setup 1 (record idle_reader {
      rest = some (codes "h" ++ b';' ∷ (codes "xy" ++ b'=' ∷ (codes "1" ++ 0 ∷ [])));
    })
    ≡ some (
      record idle_reader { rest = some (codes "xy" ++ b'=' ∷ (codes "1" ++ 0 ∷ [])) },
      raised other_exception,
    )
entry_without_equal_raises_example =
    entry_without_equal_raises plain_setup (codes "h") (codes "xy") (codes "1" ++ 0 ∷ []) 1 0
      idle_reader ((refl, refl, refl), tt) ((refl, refl), ((refl, refl), tt)) one_char (omega arith)
