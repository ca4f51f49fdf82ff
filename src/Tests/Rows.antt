-- ===== src/Tests/Rows.antt =====
-- Concrete fetches: the theorems of Fetch on a cursor over a list.
use snappy_odbc.Common.{
  ℕ, ◌≡◌, refl, Bool, true, false, Option, none, some, List, [], ◌∷◌, arith, pos, negsuc, ◌&&◌,
  ◌==◌, if◌then◌else◌,
}
use snappy_odbc.Driver.{
  SqlReturn, success, success_with_info, no_data, is_succeeded, Outcome, returned,
}
use snappy_odbc.Fetch.{CursorApi, OutputField, Fill, fill_once}
use snappy_odbc.Fetch.Rows.{Cursor, next_row, fill_output_fields, clear_error}
use snappy_odbc.Fetch.Batch.{CursorLaws, batch_fills, last_code}
use snappy_odbc.Fetch.Loop.{BatchRan}
use snappy_odbc.Fetch.Scan.{fetch_all, scan_fills, fetch_all_run, next_batch}
use snappy_odbc.Fetch.Single.{field_fills, fill_output_fields_lem}

-- The current row, and the rows to come.
abbrev ListCursor : Type 0
ListCursor = Option ℕ × List ℕ

abbrev step : ListCursor → ListCursor × Outcome Bool
step (c, []) = ((none, []), returned false)
step (c, r ∷ rs) = ((some r, rs), returned true)

abbrev list_api : CursorApi ListCursor ℕ
list_api = record {
  cursor_next = step;
  cursor_previous = λ s. (s, returned true);
  advance = λ n s. (s, returned false);
  begin = λ n s. (s, returned false);
  current = λ s. s.0;
  is_no_current_row = λ n. false;
  row_deleted = λ s. false;
  row_updated = λ s. false;
  row_inserted = λ s. false;
}

abbrev rows_left : ListCursor → List ℕ
rows_left s = s.1

list_laws : CursorLaws list_api rows_left
list_laws = record {
  at_end = at_end;
  stays_at_end = stays_at_end;
  moves = moves;
  comes_to = comes_to;
  leaves = leaves;
}
  where
    at_end : (s : ListCursor) → rows_left s ≡ [] → (step s).1 ≡ returned false
    at_end (c, []) h = refl
    at_end (c, r ∷ rs) h = absurd (ground (arith, h))

    stays_at_end : (s : ListCursor) → rows_left s ≡ [] → rows_left (step s).0 ≡ []
    stays_at_end (c, []) h = refl
    stays_at_end (c, r ∷ rs) h = absurd (ground (arith, h))

    moves :
        (s : ListCursor) (r : ℕ) (rs : List ℕ) → rows_left s ≡ r ∷ rs → (step s).1 ≡ returned true
    moves (c, []) r rs h = absurd (ground (arith, h))
    moves (c, x ∷ xs) r rs h = refl

    comes_to : (s : ListCursor) (r : ℕ) (rs : List ℕ) → rows_left s ≡ r ∷ rs → (step s).0.0 ≡ some r
    comes_to (c, []) r rs h = absurd (ground (arith, h))
    comes_to (c, x ∷ xs) r rs h = ground (arith, h)

    leaves :
        (s : ListCursor) (r : ℕ) (rs : List ℕ) → rows_left s ≡ r ∷ rs → rows_left (step s).0 ≡ rs
    leaves (c, []) r rs h = absurd (ground (arith, h))
    leaves (c, x ∷ xs) r rs h = ground (arith, h)

abbrev column_at : ℕ → OutputField
column_at a = record {
  target_type = 4;
  target_value = some (pos a);
  value_size = pos 4;
  len_or_ind = pos 0;
}

-- Batches of two rows, two bound columns and one unbound.
abbrev three_rows : Cursor ListCursor ℕ
three_rows = record {
  is_open = true;
  bulk = record { cursor = (none, 7 ∷ 8 ∷ 9 ∷ []); position = negsuc 0; batch_size = 2 };
  binding = record {
    output_fields =
        column_at 100
        ∷ record { target_type = 4; target_value = none; value_size = pos 0; len_or_ind = pos 0 }
        ∷ column_at 200
        ∷ [];
    orientation = 0;
    bind_offset = none;
    has_row_status = true;
    has_fetched_rows = true;
  };
  has_warnings = false;
  warnings = none;
  written = record { fills = []; statuses = []; fetched_rows = none };
  diag = record { last_error = none; global_error = none };
}

-- The text in row 7's first column was cut.
abbrev code : Fill ℕ → SqlReturn
code w = if (w.row == 7) && (w.column == 1) then success_with_info else success

code_ok : (w : Fill ℕ) → is_succeeded (code w) ≡ true
code_ok w = ground arith

next_batch_example :
    (c' : Cursor ListCursor ℕ) × (next_row list_api (λ w. returned (code w)) three_rows
      ≡ some (c', last_code code success (batch_fills three_rows.binding 0 (7 ∷ 8 ∷ []))))
    × BatchRan 0 0 (7 ∷ 8 ∷ []) (clear_error three_rows) c'
    × (rows_left c'.bulk.cursor ≡ 9 ∷ [])
next_batch_example =
    next_batch list_api rows_left list_laws code code_ok three_rows 0 7 (8 ∷ 9 ∷ []) refl refl
      (omega arith) (omega arith) refl

fetch_all_run_example :
    (c' : Cursor ListCursor ℕ) × (fetch_all list_api (λ w. returned (code w)) 4 three_rows
      ≡ some (c', no_data))
    × (c'.written.fills ≡ scan_fills three_rows.binding 2 0 (7 ∷ 8 ∷ 9 ∷ []))
fetch_all_run_example =
    fetch_all_run list_api rows_left list_laws code code_ok 4 0 three_rows (7 ∷ 8 ∷ 9 ∷ []) refl
      refl (omega arith) (omega arith) refl (omega arith)

abbrev on_seven : Cursor ListCursor ℕ
on_seven = record three_rows { bulk = record three_rows.bulk { cursor = (some 7, []) } }

fill_output_fields_lem_example : fill_output_fields list_api (λ w. returned (code w)) on_seven ≡ (
  record on_seven {
    written = record on_seven.written { fills = field_fills 7 1 on_seven.binding.output_fields };
  },
  returned success_with_info,
)
unfolding field_fills fill_once
fill_output_fields_lem_example = fill_output_fields_lem list_api code on_seven 7 refl
