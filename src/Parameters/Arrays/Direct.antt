-- ===== src/Parameters/Arrays/Direct.antt =====
-- execute(sqlText) of src/driver/cpp/SnappyStatement.cpp with an array of parameters, for a
-- statement that is not prepared.
use mathlib.Core.List.{append_assoc, append-nil}
use snappy_odbc.Common.{
  if◌then◌else◌, Option, none, ℕ, zero, suc, ◌<◌, ◌≡◌, refl, ap, sym, ◌∙◌, if_yes, if_no, lt→ltb,
  true, false, some, List, [], ◌∷◌, ◌++◌, ℤ, replicate, ◌>>=◌,
}
use snappy_odbc.Driver.{SqlReturn, error, success, Outcome, returned, clear_last_error}
use snappy_odbc.Parameters.{Conversion, Bound, resize}
use snappy_odbc.Parameters.Execute.{Stmt, Answer, with_diag}
use snappy_odbc.Parameters.Arrays.Columns.{resize_empty}
use snappy_odbc.Parameters.Arrays.{
  ParamStatus, param_success, Filling, given_offset, next_offset, bind_set, bind_sets,
  bind_array_of_parameters,
}
use snappy_odbc.Parameters.Arrays.Running.{
  ArraysWritten, Prepared, ArrayAttributes, finish_batch, forget_parameters, execute_array,
  execute_with_array_of_params, execute_direct,
}

module _ {ℓ} {V : Type ℓ} (cv : Conversion V) (at : ℤ → ℤ) where
  -- Without parameters every set is made of empty slots.
  bind_sets-empty :
      (num_params orientation : ℕ) (bind_offset : ℤ) (n i : ℕ) (offset : ℤ) (b : Bound V)
      (batch : List (List (List V))) (statuses : List ParamStatus)
      → b.exec ≡ []
      → (f : Filling V) × (bind_sets cv at num_params orientation bind_offset n i offset (record {
        fields = [];
        slots = b;
        batch = batch;
        statuses = statuses;
        result = success;
        raised = false;
      })
          ≡ some f)
        × (f.fields ≡ [])
        × (f.batch ≡ batch ++ replicate n (replicate num_params []))
        × (f.result ≡ success)
        × (f.raised ≡ false)
  unfolding bind_sets bind_set
  bind_sets-empty num_params orientation bind_offset zero i offset b batch statuses e =
      (_, refl, refl, sym (append-nil batch), refl, refl)
  bind_sets-empty num_params orientation bind_offset (suc n) i offset b batch statuses e =
      let filled = resize [] num_params b.exec in
      let (f, h, p, q, r, x) =
        bind_sets-empty num_params orientation bind_offset n (suc i)
          (next_offset orientation offset) (record b { exec = [] }) (batch ++ filled ∷ [])
          (statuses ++ param_success ∷ []) refl in
      (
        f,
        h,
        p,
        q
            ∙ (append_assoc batch (filled ∷ []) (replicate n (replicate num_params []))
                ∙ ap (λ x. batch ++ x ∷ replicate n (replicate num_params []))
                    (ap (resize [] num_params) e ∙ resize_empty num_params [])),
        r,
        x,
      )

module _ {ℓ} {V : Type ℓ} (cv : Conversion V) (at : ℤ → ℤ) (attrs : ArrayAttributes)
    (q q' : Prepared V) (run : List (List V) → Outcome Answer) (run_plain : Outcome Answer) where
  -- SQLExecDirect with more than one and fewer than 2^32 parameter sets, on a statement without a
  -- result set that is not prepared, whose text prepares, executes a batch of that many sets of
  -- empty slots, whatever parameters were bound, and leaves the statement prepared and without
  -- parameters.
  pub direct_array_forgets_parameters :
      (s : Stmt V)
      → s.has_result_set ≡ false
      → s.prepared ≡ false
      → 1 < attrs.set_size
      → attrs.set_size < 4294967296
      → (f : Filling V) × (s' : Stmt V) × (execute_direct cv at attrs
            (returned q')
            q
            run
            run_plain
            s
          ≡ some (finish_batch attrs q' f (q'.execute_batch f.batch) s'))
        × (f.batch ≡ replicate attrs.set_size (replicate q'.num_params []))
        × (s'.params ≡ [])
        × (s'.prepared ≡ true)
  unfolding execute_direct execute_with_array_of_params execute_array bind_array_of_parameters
  direct_array_forgets_parameters s h p n m =
      let d = given_offset attrs.bind_offset_ptr in
      let s₀ = with_diag clear_last_error s in
      let s₁ = record (forget_parameters (record s₀ { has_result = false })) { prepared = true } in
      let (f, e, fs, b, r, x) =
        bind_sets-empty cv at q'.num_params attrs.orientation d attrs.set_size 0 d s₁.bound [] []
          refl in
      (
        f,
        record s₁ { params = f.fields; bound = f.slots },
        if_no _ _ _ h
            ∙ (if_yes _ _ _ (lt→ltb 1 attrs.set_size n)
                ∙ (if_no _ _ _ p
                    ∙ (ap (λ o. o >>= finish s₁)
                          (if_yes _ _ _ (lt→ltb attrs.set_size 4294967296 m) ∙ e)
                        ∙ ap some (if_no _ _ _ x)))),
        b,
        fs,
        refl,
      )
    where
      finish : Stmt V → Filling V → Option (Stmt V × SqlReturn × ArraysWritten)
      finish t g =
          let t' = record t { params = g.fields; bound = g.slots } in
          some (
            if g.raised
            then (t', error, record { param_statuses = some g.statuses; row_status_array = none })
            else finish_batch attrs q' g (q'.execute_batch g.batch) t')
