-- ===== src/Fetch/Single.antt =====
-- A single row: fillOutputFields of src/driver/cpp/SnappyStatement.cpp; and the steps back of
-- src/driver/cpp/BatchRowIterator.h.
use mathlib.Core.List.{append_assoc, append-nil}
use snappy_odbc.Common.{
  ℕ, suc, ◌≡◌, refl, inl, inr, Option-cases, none, some, List, [], ◌∷◌, ◌++◌, arith,
}
use snappy_odbc.Driver.{SqlReturn, success, returned}
use snappy_odbc.Fetch.{
  CursorApi, OutputField, Fill, fill_once, Written, add_fill, fill_fields, keep_worse,
}
use snappy_odbc.Fetch.Rows.{Cursor, fill_output_fields}

-- The fills of the bound columns for one row, at the addresses that were bound.
unfoldable pub field_fills {ℓ} : {R : Type ℓ} → R → ℕ → List OutputField → List (Fill R)
field_fills r n [] = []
field_fills r n (f ∷ fs) = elim f.target_value [
  | none ↦ field_fills r (suc n) fs
  | some v ↦ fill_once r n f v ∷ field_fills r (suc n) fs
]

-- The code of the last fill that is not SQL_SUCCESS.
abbrev pub last_problem {ℓ} :
    {R : Type ℓ} → (Fill R → SqlReturn) → SqlReturn → List (Fill R) → SqlReturn
last_problem code result [] = result
last_problem code result (w ∷ ws) = last_problem code (keep_worse result (code w)) ws

keep_worse-twice :
    (result res : SqlReturn) → keep_worse (keep_worse result res) res ≡ keep_worse result res
keep_worse-twice result res = ground arith

module _ {ℓ} {R : Type ℓ} (code : Fill R → SqlReturn) where
  -- `result2` is left over from the column before, and is in `result` already.
  fill_fields_lem :
      (r : R) (n : ℕ) (fs : List OutputField) (result result2 : SqlReturn) (app : Written R)
      → keep_worse result result2 ≡ result
      → fill_fields (λ w. returned (code w)) r n fs result result2 app ≡ (
        record app { fills = app.fills ++ field_fills r n fs },
        returned (last_problem code result (field_fills r n fs)),
      )
  unfolding fill_fields field_fills
  fill_fields_lem r n [] result result2 app h = rw (append-nil app.fills)
  fill_fields_lem r n (f ∷ fs) result result2 app h = elim (Option-cases f.target_value) [
    | inl e ↦ rw (e, h, fill_fields_lem r (suc n) fs result result2 app h)
    | inr q ↦
        let w = fill_once r n f q.0 in
        rw (
          q.1,
          fill_fields_lem r (suc n) fs (keep_worse result (code w)) (code w) (add_fill w app)
              (keep_worse-twice result (code w)),
          append_assoc app.fills (w ∷ []) (field_fills r (suc n) fs),
        )
  ]

module _ {ℓ κ} {S : Type ℓ} {R : Type κ} (api : CursorApi S R) where
  -- With the cursor on a row and fills that throw nothing, fillOutputFields fills each bound
  -- column of the row in order at the addresses bound, also behind a column that failed, and
  -- without the bind offset; its result is the last code that is not SQL_SUCCESS.
  pub fill_output_fields_lem :
      (code : Fill R → SqlReturn) (c : Cursor S R) (r : R)
      → api.current c.bulk.cursor ≡ some r
      → fill_output_fields api (λ w. returned (code w)) c ≡ (
        record c {
          written = record c.written {
            fills = c.written.fills ++ field_fills r 1 c.binding.output_fields;
          };
        },
        returned (last_problem code success (field_fills r 1 c.binding.output_fields)),
      )
  unfolding fill_output_fields
  fill_output_fields_lem code c r h = rw (
    fill_output_fields,
    h,
    fill_fields_lem code r 1 c.binding.output_fields success success c.written refl,
  )
