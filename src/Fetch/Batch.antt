-- ===== src/Fetch/Batch.antt =====
-- One batch of rows: what fillOutputFieldsWithArrays of src/driver/cpp/SnappyStatement.cpp leaves,
-- for a cursor that runs through a list of rows and fills that do not fail.
use mathlib.Core.List.{append-nil, append_assoc}
use snappy_odbc.Common.{
  ℕ, suc, ◌≤◌, ◌<◌, ◌≡◌, refl, ◌⊎◌, inl, inr, true, false, Option, Option-cases, none, some, List,
  [], ◌∷◌, ◌++◌, if◌then◌else◌, arith, ℤ, pos, ◌+ℤ◌, ltb_ℤ,
}
use snappy_odbc.Driver.{
  SqlReturn, success, success_with_info, error, is_succeeded, no_data, invalid_handle, need_data,
  Outcome, returned,
}
use snappy_odbc.Fetch.{
  CursorApi, BatchIterator, batch_next, to_int32, OutputField, Fill, fill_in_slot, RowStatus,
  row_success, Written, Binding, add_fill, fill_slot,
}
use snappy_odbc.Fetch.Rows.{Cursor, mark_row, fill_batch, fill_row, after_row, after_batch_next}

-- What fetching relies on: `left` are the rows that the cursor has still to come to; a move to
-- the next row ends on the first of them, or says that there is none.
pub record CursorLaws {ℓ κ} {S : Type ℓ} {R : Type κ} (api : CursorApi S R) (left : S → List R)
    : Type (ℓ ⊔ κ) where
  pub at_end : (s : S) → left s ≡ [] → (api.cursor_next s).1 ≡ returned false
  pub stays_at_end : (s : S) → left s ≡ [] → left (api.cursor_next s).0 ≡ []
  pub moves :
      (s : S) (r : R) (rs : List R) → left s ≡ r ∷ rs → (api.cursor_next s).1 ≡ returned true
  pub comes_to :
      (s : S) (r : R) (rs : List R) → left s ≡ r ∷ rs → api.current (api.cursor_next s).0 ≡ some r
  pub leaves : (s : S) (r : R) (rs : List R) → left s ≡ r ∷ rs → left (api.cursor_next s).0 ≡ rs

abbrev pub slot_statuses {ℓ} : {R : Type ℓ} → ℕ → List R → List (ℤ × RowStatus)
slot_statuses p [] = []
slot_statuses p (r ∷ rs) = (pos p, row_success) ∷ slot_statuses (suc p) rs

module _ {ℓ} {R : Type ℓ} (b : Binding) where
  -- The fills of the bound columns for a row in a slot of the batch.
  unfoldable pub slot_fills : R → ℤ → ℕ → List OutputField → List (Fill R)
  slot_fills r p n [] = []
  slot_fills r p n (f ∷ fs) = elim f.target_value [
    | none ↦ slot_fills r p (suc n) fs
    | some v ↦ fill_in_slot b r p n f v ∷ slot_fills r p (suc n) fs
  ]

  -- The fills of rows in the slots from p on.
  unfoldable pub batch_fills : ℕ → List R → List (Fill R)
  unfolding slot_fills
  batch_fills p [] = []
  batch_fills p (r ∷ rs) = slot_fills r (pos p) 1 b.output_fields ++ batch_fills (suc p) rs

  unfoldable pub batch_statuses : ℕ → List R → List (ℤ × RowStatus)
  batch_statuses p rs = if b.has_row_status then slot_statuses p rs else []

-- The code of the last fill, or the one given where there is none.
abbrev pub last_code {ℓ} :
    {R : Type ℓ} → (Fill R → SqlReturn) → SqlReturn → List (Fill R) → SqlReturn
last_code code result [] = result
last_code code result (w ∷ ws) = last_code code (code w) ws

module _ {ℓ} {R : Type ℓ} (code : Fill R → SqlReturn) where
  pub last_code-append :
      (result : SqlReturn) (xs ys : List (Fill R))
      → last_code code result (xs ++ ys) ≡ last_code code (last_code code result xs) ys
  last_code-append result [] ys = refl
  last_code-append result (x ∷ xs) ys = last_code-append (code x) xs ys

is_succeeded-cases :
    (c : SqlReturn) → is_succeeded c ≡ true → (c ≡ success) ⊎ (c ≡ success_with_info)
is_succeeded-cases c h = ground arith

module _ {ℓ} {R : Type ℓ} (code : Fill R → SqlReturn)
    (ok : (w : Fill R) → is_succeeded (code w) ≡ true) where
  pub last_code-succeeds :
      (result : SqlReturn) (ws : List (Fill R))
      → is_succeeded result ≡ true
      → is_succeeded (last_code code result ws) ≡ true
  last_code-succeeds result [] h = h
  last_code-succeeds result (w ∷ ws) h = last_code-succeeds (code w) ws (ok w)

  code-cases : (w : Fill R) → (code w ≡ success) ⊎ (code w ≡ success_with_info)
  code-cases w = is_succeeded-cases (code w) (ok w)

  pub fill_slot_lem :
      (b : Binding) (r : R) (p : ℤ) (n : ℕ) (fs : List OutputField) (result : SqlReturn)
      (app : Written R)
      → fill_slot (λ w. returned (code w)) b r p n fs result app ≡ (
        record app { fills = app.fills ++ slot_fills b r p n fs },
        returned (last_code code result (slot_fills b r p n fs)),
      )
  unfolding fill_slot slot_fills
  fill_slot_lem b r p n [] result app = rw (append-nil app.fills)
  fill_slot_lem b r p n (f ∷ fs) result app = elim (Option-cases f.target_value) [
    | inl e ↦ rw (e, fill_slot_lem b r p (suc n) fs result app)
    | inr q ↦
        let w = fill_in_slot b r p n f q.0 in
        elim (code-cases w) [
          | inl e ↦ rw (
            q.1,
            e,
            fill_slot_lem b r p (suc n) fs success (add_fill w app),
            append_assoc app.fills (w ∷ []) (slot_fills b r p (suc n) fs),
          )
          | inr e ↦ rw (
            q.1,
            e,
            fill_slot_lem b r p (suc n) fs success_with_info (add_fill w app),
            append_assoc app.fills (w ∷ []) (slot_fills b r p (suc n) fs),
          )
        ]
  ]

module _ {ℓ κ} {S : Type ℓ} {R : Type κ} where
  -- The statement once the current row r is in its slot.
  abbrev pub filled_row : Cursor S R → R → Cursor S R
  filled_row c r = record c {
    written = record c.written {
      fills = c.written.fills ++ slot_fills c.binding r c.bulk.position 1 c.binding.output_fields;
    };
  }

  abbrev pub slot_code : (Fill R → SqlReturn) → SqlReturn → Cursor S R → R → SqlReturn
  slot_code code result c r =
      last_code code result (slot_fills c.binding r c.bulk.position 1 c.binding.output_fields)

module _ {ℓ κ} {S : Type ℓ} {R : Type κ} (api : CursorApi S R) (code : Fill R → SqlReturn)
    (ok : (w : Fill R) → is_succeeded (code w) ≡ true) where
  fill_row_lem :
      (result : SqlReturn) (c : Cursor S R) (r : R)
      → fill_row api (λ w. returned (code w)) result c r
        ≡ (filled_row c r, returned (slot_code code result c r))
  unfolding fill_row
  fill_row_lem result c r =
      rw (
        fill_slot_lem code ok c.binding r c.bulk.position 1 c.binding.output_fields result
          c.written)

  after_row-more :
      (continue : ℕ → SqlReturn → Cursor S R → Option (Cursor S R × Outcome SqlReturn)) (rows : ℕ)
      (c : Cursor S R) (result : SqlReturn)
      → is_succeeded result ≡ true
      → after_row api (λ w. returned (code w)) continue rows (c, returned result)
        ≡ after_batch_next api
            (λ w. returned (code w))
            continue
            (suc rows)
            result
            (mark_row c)
            (batch_next api c.bulk)
  unfolding after_row
  after_row-more continue rows c success h = refl
  after_row-more continue rows c success_with_info h = refl
  after_row-more continue rows c error h = absurd (ground (arith, h))
  after_row-more continue rows c invalid_handle h = absurd (ground (arith, h))
  after_row-more continue rows c no_data h = absurd (ground (arith, h))
  after_row-more continue rows c need_data h = absurd (ground (arith, h))

  -- One round of the loop.
  pub fill_batch-round :
      (fuel rows : ℕ) (result : SqlReturn) (c : Cursor S R) (r : R)
      → is_succeeded result ≡ true
      → api.current c.bulk.cursor ≡ some r
      → fill_batch api (λ w. returned (code w)) (suc fuel) rows result c
        ≡ after_batch_next api
            (λ w. returned (code w))
            (fill_batch api (λ w. returned (code w)) fuel)
            (suc rows)
            (slot_code code result c r)
            (mark_row (filled_row c r))
            (batch_next api c.bulk)
  unfolding fill_batch
  fill_batch-round fuel rows result c r h k = rw (
    k,
    fill_row_lem result c r,
    after_row-more (fill_batch api (λ w. returned (code w)) fuel) rows (filled_row c r)
        (slot_code code result c r)
        (last_code-succeeds code ok result
          (slot_fills c.binding r c.bulk.position 1 c.binding.output_fields) h),
  )

next_position : (p : ℕ) → pos p +ℤ pos 1 ≡ pos (suc p)
next_position p = ground arith

within : (p n : ℕ) → suc p < n → n ≤ 2147483647 → ltb_ℤ (pos (suc p)) (to_int32 n) ≡ true
unfolding to_int32
within p n h m = ground arith

not_within : (p n : ℕ) → n ≤ suc p → n ≤ 2147483647 → ltb_ℤ (pos (suc p)) (to_int32 n) ≡ false
unfolding to_int32
not_within p n h m = ground arith

module _ {ℓ κ} {S : Type ℓ} {R : Type κ} (api : CursorApi S R) where
  pub batch_next-within :
      (b : BatchIterator S) (p : ℕ)
      → b.position ≡ pos p
      → suc p < b.batch_size
      → b.batch_size ≤ 2147483647
      → batch_next api b ≡ (
        record b { position = pos (suc p); cursor = (api.cursor_next b.cursor).0 },
        (api.cursor_next b.cursor).1,
      )
  unfolding batch_next
  batch_next-within b p e h m = rw (e, next_position p, within p b.batch_size h m)

  pub batch_next-full :
      (b : BatchIterator S) (p : ℕ)
      → b.position ≡ pos p
      → b.batch_size ≤ suc p
      → b.batch_size ≤ 2147483647
      → batch_next api b ≡ (record b { position = pos (suc p) }, returned false)
  unfolding batch_next
  batch_next-full b p e h m = rw (e, next_position p, not_within p b.batch_size h m)
