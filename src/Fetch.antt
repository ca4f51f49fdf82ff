-- ===== src/Fetch.antt =====
-- Fetching rows: src/driver/cpp/BatchRowIterator.h, and fetch, fetchScroll and their helpers of
-- SnappyStatement.cpp. The cursor is the client library's ResultSet::iterator, a parameter; what
-- the driver writes into the application's buffers is a log. A null dereference is the fault `none`.
pub mod Rows
pub mod Batch
pub mod Loop
pub mod Scan
pub mod Single
use snappy_odbc.Common.{
  ◌+◌, ◌%◌, ℕ, zero, suc, ◌%◌, Bool, true, false, ◌&&◌, Option, none, some, List, [], ◌∷◌, ◌++◌,
  ltb, leb, ◌==◌, if◌then◌else◌, ◌>>=◌, ℤ, pos, negsuc, ◌+ℤ◌, ◌-ℤ◌, ◌*ℤ◌, ltb_ℤ, ◌==ℤ◌,
}
use snappy_odbc.Strings.{restrict_length, IntType}
use snappy_odbc.Driver.{
  SqlReturn, success, success_with_info, error, no_data, SqlError, feature_not_implemented,
  invalid_cursor_state2, server_warning, Outcome, returned, threw,
}

abbrev pub int32 : IntType
int32 = record { lo = negsuc 2147483647; hi = pos 2147483647 }

-- static_cast<int32_t> of a uint32_t.
unfoldable pub to_int32 : ℕ → ℤ
to_int32 n = if ltb n 2147483648 then pos n else pos n -ℤ pos 4294967296

-- What the driver uses of ResultSet::iterator; a move says whether the cursor is then on a row.
-- `is_no_current_row` says which of its exceptions has the reason NO_CURRENT_ROW_MSG.
pub record CursorApi {ℓ κ} (S : Type ℓ) (R : Type κ) : Type (ℓ ⊔ κ) where
  pub cursor_next : S → S × Outcome Bool
  pub cursor_previous : S → S × Outcome Bool
  pub advance : ℤ → S → S × Outcome Bool
  pub begin : ℤ → S → S × Outcome Bool
  pub current : S → Option R
  pub is_no_current_row : ℕ → Bool
  pub row_deleted : S → Bool
  pub row_updated : S → Bool
  pub row_inserted : S → Bool

-- m_bulkCursor, with the cursor it refers to.
pub record BatchIterator {ℓ} (S : Type ℓ) : Type ℓ where
  pub cursor : S
  pub position : ℤ
  pub batch_size : ℕ

abbrev pub new_batch_iterator {ℓ} : {S : Type ℓ} → S → ℕ → BatchIterator S
new_batch_iterator s n = record { cursor = s; position = negsuc 0; batch_size = n }

abbrev pub init_next_batch {ℓ} : {S : Type ℓ} → BatchIterator S → BatchIterator S
init_next_batch b = record b { position = pos 0 }

abbrev pub init_previous_batch {ℓ} : {S : Type ℓ} → BatchIterator S → BatchIterator S
init_previous_batch b = record b { position = to_int32 ((b.batch_size + 4294967295) % 4294967296) }

module _ {ℓ κ} {S : Type ℓ} {R : Type κ} (api : CursorApi S R) where
  -- The underlying cursor moves only within the batch.
  unfoldable pub batch_next : BatchIterator S → BatchIterator S × Outcome Bool
  batch_next b =
      let p = b.position +ℤ pos 1 in
      if ltb_ℤ p (to_int32 b.batch_size)
      then (
        record b { position = p; cursor = (api.cursor_next b.cursor).0 },
        (api.cursor_next b.cursor).1,
      )
      else (record b { position = p }, returned false)

  unfoldable pub batch_previous : BatchIterator S → BatchIterator S × Outcome Bool
  batch_previous b =
      let p = b.position -ℤ pos 1 in
      if ltb_ℤ (pos 0) p
      then (
        record b { position = p; cursor = (api.cursor_previous b.cursor).0 },
        (api.cursor_previous b.cursor).1,
      )
      else (record b { position = p }, returned false)

-- A column's buffers, as SQLBindCol gave them: the addresses of the value and of the length.
pub record OutputField : Type 0 where
  pub target_type : ℕ
  pub target_value : Option ℤ
  pub value_size : ℤ
  pub len_or_ind : ℤ

-- A call of fillOutput: the row, the column, its C type, and the buffers.
pub record Fill {ℓ} (R : Type ℓ) : Type ℓ where
  pub row : R
  pub column : ℕ
  pub ctype : ℕ
  pub value_at : ℤ
  pub room : ℤ
  pub len_at : ℤ

pub data RowStatus : Type 0 where
  row_success row_deleted row_updated row_added : RowStatus

-- What was written to the application: the fills in order, the row status array's elements, and
-- the row count.
pub record Written {ℓ} (R : Type ℓ) : Type ℓ where
  pub fills : List (Fill R)
  pub statuses : List (ℤ × RowStatus)
  pub fetched_rows : Option ℕ

-- How the application bound its buffers: m_outputFields, SQL_ATTR_ROW_BIND_TYPE (0 is by column),
-- the bind offset, and whether the row status array and the row count are bound.
pub record Binding : Type 0 where
  pub output_fields : List OutputField
  pub orientation : ℕ
  pub bind_offset : Option ℤ
  pub has_row_status : Bool
  pub has_fetched_rows : Bool

abbrev pub add_fill {ℓ} : {R : Type ℓ} → Fill R → Written R → Written R
add_fill w app = record app { fills = app.fills ++ w ∷ [] }

abbrev pub bind_offset_of : Binding → ℤ
bind_offset_of b = elim b.bind_offset [ none ↦ pos 0 | some o ↦ o ]

-- sizeof(SQLLEN)
abbrev pub sqllen_size : ℤ
sqllen_size = pos 8

-- The buffers of a column for the row in a slot of the batch, bound by column or by row.
unfoldable pub fill_by_column {ℓ} : {R : Type ℓ} → R → ℤ → ℤ → ℕ → OutputField → ℤ → Fill R
fill_by_column r p offset n f v = record {
  row = r;
  column = n;
  ctype = f.target_type;
  value_at = v +ℤ p *ℤ f.value_size +ℤ offset;
  room = f.value_size;
  len_at = f.len_or_ind +ℤ p *ℤ sqllen_size +ℤ offset;
}

unfoldable pub fill_by_row {ℓ} : {R : Type ℓ} → R → ℤ → ℤ → ℕ → ℕ → OutputField → ℤ → Fill R
fill_by_row r p offset struct_size n f v = record {
  row = r;
  column = n;
  ctype = f.target_type;
  value_at = v +ℤ p *ℤ pos struct_size +ℤ offset;
  room = f.value_size;
  len_at = f.len_or_ind +ℤ (p *ℤ pos struct_size +ℤ offset);
}

unfoldable pub fill_in_slot {ℓ} : {R : Type ℓ} → Binding → R → ℤ → ℕ → OutputField → ℤ → Fill R
unfolding fill_by_column fill_by_row
fill_in_slot b r p n f v =
    if b.orientation == 0
    then fill_by_column r p (bind_offset_of b) n f v
    else fill_by_row r p (bind_offset_of b) b.orientation n f v

-- The buffers of a column, as they are bound.
unfoldable pub fill_once {ℓ} : {R : Type ℓ} → R → ℕ → OutputField → ℤ → Fill R
fill_once r n f v = record {
  row = r;
  column = n;
  ctype = f.target_type;
  value_at = v;
  room = f.value_size;
  len_at = f.len_or_ind;
}

abbrev pub is_error : SqlReturn → Bool
is_error error = true
is_error _ = false

abbrev pub is_success : SqlReturn → Bool
is_success success = true
is_success _ = false

-- `if (result2 != SQL_SUCCESS) result = result2;`
abbrev pub keep_worse : SqlReturn → SqlReturn → SqlReturn
keep_worse result result2 = if is_success result2 then result else result2

module _ {ℓ} {R : Type ℓ} (fill : Fill R → Outcome SqlReturn) where
  -- The loop of fillOutputFields, from column n on; an exception of fillOutput ends it.
  unfoldable pub fill_fields :
      R → ℕ → List OutputField → SqlReturn → SqlReturn → Written R → Written R × Outcome SqlReturn
  unfolding fill_once
  fill_fields r n [] result result2 app = (app, returned result)
  fill_fields r n (f ∷ fs) result result2 app = elim f.target_value [
    | none ↦ fill_fields r (suc n) fs (keep_worse result result2) result2 app
    | some v ↦
        let w = fill_once r n f v in
        elim (fill w) [
          | returned res ↦ fill_fields r (suc n) fs (keep_worse result res) res (add_fill w app)
          | threw t ↦ (add_fill w app, threw t)
        ]
  ]

  -- The loop over the columns in fillOutputFieldsWithArrays, for the row in slot p.
  unfoldable pub fill_slot :
      Binding → R → ℤ → ℕ → List OutputField → SqlReturn → Written R → Written R × Outcome SqlReturn
  unfolding fill_in_slot
  fill_slot b r p n [] result app = (app, returned result)
  fill_slot b r p n (f ∷ fs) result app = elim f.target_value [
    | none ↦ fill_slot b r p (suc n) fs result app
    | some v ↦
        let w = fill_in_slot b r p n f v in
        elim (fill w) [
          | returned error ↦ (add_fill w app, returned error)
          | returned res ↦ fill_slot b r p (suc n) fs res (add_fill w app)
          | threw t ↦ (add_fill w app, threw t)
        ]
  ]
