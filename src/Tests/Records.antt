-- ===== src/Tests/Records.antt =====
-- Concrete diagnostic records.
use snappy_odbc.Common.{ℕ, ◌≡◌, refl, true, none, some, List, [], ◌∷◌, pos, map, arith}
use snappy_odbc.Driver.{no_data, stmt}
use snappy_odbc.Diagnostics.{Exceptions, Errors}
use snappy_odbc.Diagnostics.Records.{read_records, read_records_complete, arguments, stored_record}

-- An exception is a number, and has a record for itself and one for the number before it.
abbrev numbered : Exceptions ℕ
numbered = record {
  state_of = λ e. b'H' ∷ b'Y' ∷ b'0' ∷ b'0' ∷ b'0' ∷ [];
  severity_of = λ e. pos e;
  fill_records = λ size e. (e, b'a' ∷ b'b' ∷ b'c' ∷ b'd' ∷ []) ∷ (3, b'e' ∷ []) ∷ [];
  num_records = λ e. 2;
}

abbrev failing : Errors ℕ
failing = record { global = none; given = true; last = some 7; lockable = true }

abbrev six_cells : List ℕ
six_cells = 1 ∷ 1 ∷ 1 ∷ 1 ∷ 1 ∷ 1 ∷ []

-- The first message does not fit into three characters.
read_records_complete_example :
    read_records numbered stmt 3 0 (pos 3) failing (arguments six_cells (9 ∷ 9 ∷ 9 ∷ []))
    ≡ some (
      map
          (stored_record numbered 3 six_cells (9 ∷ 9 ∷ 9 ∷ []))
          ((7, b'a' ∷ b'b' ∷ b'c' ∷ b'd' ∷ []) ∷ (3, b'e' ∷ []) ∷ []),
      no_data,
    )
read_records_complete_example =
    read_records_complete numbered 3 six_cells (9 ∷ 9 ∷ 9 ∷ []) (omega arith) (omega arith) stmt
      refl failing 7 refl refl ((omega arith, omega arith), ((omega arith, omega arith), tt))
