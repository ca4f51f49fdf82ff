-- ===== src/Fetch/Loop.antt =====
-- The do-while loop of fillOutputFieldsWithArrays (src/driver/cpp/SnappyStatement.cpp): it puts the
-- rows into the slots of the batch in order, and stops at the batch's end or the rows' end.
use mathlib.Core.List.{append_assoc, append-nil}
use snappy_odbc.Common.{
  ℕ, zero, suc, ◌+◌, ◌≤◌, ◌<◌, ◌≡◌, refl, inl, inr, sym, ◌∙◌, ap, true, false, Bool-cases, some,
  List, [], ◌∷◌, ◌++◌, if◌then◌else◌, arith, ◌==◌, pos, length, take, drop,
}
use snappy_odbc.Driver.{
  SqlReturn, success, success_with_info, error, invalid_handle, no_data, need_data, is_succeeded,
  returned,
}
use snappy_odbc.Fetch.{CursorApi, BatchIterator, batch_next, Fill, row_success, Binding}
use snappy_odbc.Fetch.Rows.{Cursor, mark_row, end_batch, fill_batch, after_batch_next}
use snappy_odbc.Fetch.Batch.{
  CursorLaws, slot_fills, slot_statuses, batch_fills, batch_statuses, last_code, last_code-append,
  last_code-succeeds, filled_row, slot_code, fill_batch-round, batch_next-within, batch_next-full,
}

batch_statuses-nil {κ} : (R : Type κ) (b : Binding) (p : ℕ) → batch_statuses {R = R} b p [] ≡ []
unfolding batch_statuses
batch_statuses-nil R b p = elim (Bool-cases b.has_row_status) [ inl e ↦ rw e | inr e ↦ rw e ]

plus_one : (n : ℕ) → suc n ≡ n + 1
plus_one n = omega arith

plus_suc : (m n : ℕ) → suc m + n ≡ m + suc n
plus_suc m n = omega arith

suc-ne_zero : (n : ℕ) → (suc n == 0) ≡ false
suc-ne_zero n = ground arith

module _ {ℓ κ} {S : Type ℓ} {R : Type κ} where
  -- The parts of a statement that a batch leaves alone.
  pub record SameSetup (c c' : Cursor S R) : Type (ℓ ⊔ κ) where
    pub same_open : c'.is_open ≡ c.is_open
    pub same_binding : c'.binding ≡ c.binding
    pub same_size : c'.bulk.batch_size ≡ c.bulk.batch_size
    pub same_has_warnings : c'.has_warnings ≡ c.has_warnings
    pub same_diag : c'.diag ≡ c.diag

  -- From c to c' the rows ts were put into the slots from p on; `rows` were counted before.
  pub record BatchRan (p rows : ℕ) (ts : List R) (c c' : Cursor S R) : Type (ℓ ⊔ κ) where
    pub setup : SameSetup c c'
    pub ran_fills : c'.written.fills ≡ c.written.fills ++ batch_fills c.binding p ts
    pub ran_statuses : c'.written.statuses ≡ c.written.statuses ++ batch_statuses c.binding p ts
    pub ran_count :
        c'.written.fetched_rows
        ≡ (if c.binding.has_fetched_rows then some (rows + length ts) else c.written.fetched_rows)

  abbrev next_slot : ℕ → R → BatchIterator S → Cursor S R → Cursor S R
  next_slot p r b c = record (mark_row (filled_row c r)) { bulk = b }

  statuses-mark :
      (c : Cursor S R) (p : ℕ) (r : R) (ts : List R)
      → c.bulk.position ≡ pos p
      → (mark_row (filled_row c r)).written.statuses ++ batch_statuses c.binding (suc p) ts
        ≡ c.written.statuses ++ batch_statuses c.binding p (r ∷ ts)
  unfolding mark_row batch_statuses
  statuses-mark c p r ts h = elim (Bool-cases c.binding.has_row_status) [
    | inl e ↦ rw (
      h,
      e,
      append_assoc c.written.statuses ((pos p, row_success) ∷ []) (slot_statuses (suc p) ts),
    )
    | inr e ↦ rw (h, e)
  ]

  fills-mark :
      (c : Cursor S R) (p : ℕ) (r : R) (ts : List R)
      → c.bulk.position ≡ pos p
      → (mark_row (filled_row c r)).written.fills ++ batch_fills c.binding (suc p) ts
        ≡ c.written.fills ++ batch_fills c.binding p (r ∷ ts)
  unfolding mark_row batch_fills
  fills-mark c p r ts h = rw (
    h,
    append_assoc c.written.fills (slot_fills c.binding r (pos p) 1 c.binding.output_fields)
        (batch_fills c.binding (suc p) ts),
  )

  BatchRan-last :
      (p rows : ℕ) (result : SqlReturn) (r : R) (b : BatchIterator S) (c : Cursor S R)
      → c.bulk.position ≡ pos p
      → b.batch_size ≡ c.bulk.batch_size
      → BatchRan p rows (r ∷ []) c (end_batch (suc rows) result (next_slot p r b c)).0
  unfolding end_batch mark_row batch_fills
  BatchRan-last p rows result r b c h k = record {
    setup = record {
      same_open = refl;
      same_binding = refl;
      same_size = k;
      same_has_warnings = refl;
      same_diag = refl;
    };
    ran_fills = sym (append-nil _) ∙ fills-mark c p r [] h;
    ran_statuses =
        sym (append-nil _)
        ∙ ap (λ xs. (mark_row (filled_row c r)).written.statuses ++ xs)
            (sym (batch_statuses-nil R c.binding (suc p)))
        ∙ statuses-mark c p r [] h;
    ran_count = elim (Bool-cases c.binding.has_fetched_rows) [
      | inl e ↦ rw (e, plus_one rows)
      | inr e ↦ rw e
    ];
  }

  BatchRan-more :
      (p rows : ℕ) (r : R) (ts : List R) (b : BatchIterator S) (c c' : Cursor S R)
      → c.bulk.position ≡ pos p
      → b.batch_size ≡ c.bulk.batch_size
      → BatchRan (suc p) (suc rows) ts (next_slot p r b c) c'
      → BatchRan p rows (r ∷ ts) c c'
  unfolding mark_row
  BatchRan-more p rows r ts b c c' h k ran = record {
    setup = record {
      same_open = ran.setup.same_open;
      same_binding = ran.setup.same_binding;
      same_size = ran.setup.same_size ∙ k;
      same_has_warnings = ran.setup.same_has_warnings;
      same_diag = ran.setup.same_diag;
    };
    ran_fills = ran.ran_fills ∙ fills-mark c p r ts h;
    ran_statuses = ran.ran_statuses ∙ statuses-mark c p r ts h;
    ran_count = ran.ran_count ∙ elim (Bool-cases c.binding.has_fetched_rows) [
      | inl e ↦ rw (e, plus_suc rows (length ts))
      | inr e ↦ rw e
    ];
  }

module _ {ℓ κ} {S : Type ℓ} {R : Type κ} (api : CursorApi S R) (left : S → List R)
    (laws : CursorLaws api left) (code : Fill R → SqlReturn)
    (ok : (w : Fill R) → is_succeeded (code w) ≡ true) where
  slot_code-more :
      (p : ℕ) (result : SqlReturn) (c : Cursor S R) (r : R) (ts : List R)
      → c.bulk.position ≡ pos p
      → last_code code (slot_code code result c r) (batch_fills c.binding (suc p) ts)
        ≡ last_code code result (batch_fills c.binding p (r ∷ ts))
  unfolding batch_fills
  slot_code-more p result c r ts h = rw (
    h,
    last_code-append code result (slot_fills c.binding r (pos p) 1 c.binding.output_fields)
        (batch_fills c.binding (suc p) ts),
  )

  end_batch-code :
      (rows : ℕ) (result : SqlReturn) (c : Cursor S R)
      → end_batch (suc rows) result c ≡ ((end_batch (suc rows) result c).0, returned result)
  unfolding end_batch
  end_batch-code rows success c = rw (suc-ne_zero rows)
  end_batch-code rows success_with_info c = refl
  end_batch-code rows error c = refl
  end_batch-code rows invalid_handle c = refl
  end_batch-code rows no_data c = refl
  end_batch-code rows need_data c = refl

  -- The loop ends after this row.
  fill_batch_stops :
      (fuel p rows : ℕ) (result : SqlReturn) (c : Cursor S R) (r : R) (b : BatchIterator S)
      → is_succeeded result ≡ true
      → c.bulk.position ≡ pos p
      → api.current c.bulk.cursor ≡ some r
      → batch_next api c.bulk ≡ (b, returned false)
      → fill_batch api (λ w. returned (code w)) (suc fuel) rows result c
        ≡ some (
          (end_batch (suc rows) (slot_code code result c r) (next_slot p r b c)).0,
          returned (last_code code result (batch_fills c.binding p (r ∷ []))),
        )
  unfolding after_batch_next batch_fills
  fill_batch_stops fuel p rows result c r b h e cur n = rw (
    fill_batch-round api code ok fuel rows result c r h cur,
    n,
    end_batch-code rows (slot_code code result c r) (next_slot p r b c),
    slot_code-more p result c r [] e,
  )

  -- The loop goes on with the next slot.
  fill_batch_goes_on :
      (fuel p rows : ℕ) (result : SqlReturn) (c : Cursor S R) (r : R) (b : BatchIterator S)
      → is_succeeded result ≡ true
      → api.current c.bulk.cursor ≡ some r
      → batch_next api c.bulk ≡ (b, returned true)
      → fill_batch api (λ w. returned (code w)) (suc fuel) rows result c
        ≡ fill_batch api
            (λ w. returned (code w))
            fuel
            (suc rows)
            (slot_code code result c r)
            (next_slot p r b c)
  unfolding after_batch_next
  fill_batch_goes_on fuel p rows result c r b h cur n =
      rw (fill_batch-round api code ok fuel rows result c r h cur, n)

  -- The loop from slot p on, with room for k more rows after this one, and the fuel for them.
  pub fill_batch_run :
      (k fuel p rows : ℕ) (result : SqlReturn) (c : Cursor S R) (r : R) (rs : List R)
      → is_succeeded result ≡ true
      → c.bulk.position ≡ pos p
      → c.bulk.batch_size ≡ suc p + k
      → c.bulk.batch_size ≤ 2147483647
      → k < fuel
      → api.current c.bulk.cursor ≡ some r
      → left c.bulk.cursor ≡ rs
      → (c' : Cursor S R) × (fill_batch api (λ w. returned (code w)) fuel rows result c
          ≡ some (c', returned (last_code code result (batch_fills c.binding p (r ∷ take k rs)))))
        × BatchRan p rows (r ∷ take k rs) c c'
        × (left c'.bulk.cursor ≡ drop k rs)
  unfolding end_batch mark_row
  fill_batch_run k zero p rows result c r rs h e size m f cur l = absurd (omega arith)
  fill_batch_run zero (suc fuel) p rows result c r rs h e size m f cur l =
      let b = record c.bulk { position = pos (suc p) } in
      (
        (end_batch (suc rows) (slot_code code result c r) (next_slot p r b c)).0,
        fill_batch_stops fuel p rows result c r b h e cur
            (batch_next-full api c.bulk p e (omega arith) m),
        BatchRan-last p rows (slot_code code result c r) r b c e refl,
        l,
      )
  fill_batch_run (suc k) (suc fuel) p rows result c r [] h e size m f cur l =
      let b = record c.bulk {
        position = pos (suc p);
        cursor = (api.cursor_next c.bulk.cursor).0;
      } in
      (
        (end_batch (suc rows) (slot_code code result c r) (next_slot p r b c)).0,
        fill_batch_stops fuel p rows result c r b h e cur (
            batch_next-within api c.bulk p e (omega arith) m
            ∙ ap (λ o. (b, o)) (laws.at_end c.bulk.cursor l)),
        BatchRan-last p rows (slot_code code result c r) r b c e refl,
        laws.stays_at_end c.bulk.cursor l,
      )
  fill_batch_run (suc k) (suc fuel) p rows result c r (r' ∷ rs) h e size m f cur l =
      let b = record c.bulk {
        position = pos (suc p);
        cursor = (api.cursor_next c.bulk.cursor).0;
      } in
      let n =
        batch_next-within api c.bulk p e (omega arith) m
        ∙ ap (λ o. (b, o)) (laws.moves c.bulk.cursor r' rs l) in
      let rest =
        fill_batch_run k fuel (suc p) (suc rows) (slot_code code result c r) (next_slot p r b c) r'
          rs
          (last_code-succeeds code ok result
            (slot_fills c.binding r c.bulk.position 1 c.binding.output_fields) h)
          refl (omega arith) m (omega arith) (laws.comes_to c.bulk.cursor r' rs l)
          (laws.leaves c.bulk.cursor r' rs l) in
      (
        rest.0,
        fill_batch_goes_on fuel p rows result c r b h cur n
            ∙ rest.1
            ∙ ap (λ res. some (rest.0, returned res))
                (slot_code-more p result c r (r' ∷ take k rs) e),
        BatchRan-more p rows r (r' ∷ take k rs) b c rest.0 e refl rest.2,
        rest.3,
      )
