-- ===== src/Parameters/Arrays/Severity.antt =====
-- updateStatus of src/driver/cpp/SnappyStatement.cpp over the answers of all parameters.
use snappy_odbc.Common.{
  refl, Option, ◌≡◌, Bool, true, false, some, List, [], ◌∷◌, ◌||◌, bind-some, some_injective, sym,
  ap, ◌∙◌, ℤ, if◌then◌else◌, arith,
}
use snappy_odbc.Driver.{SqlReturn, is_succeeded}
use snappy_odbc.Parameters.Arrays.{
  ParamStatus, param_success, param_error, is_sql_error, status_after, result_after, bind_set,
}
use snappy_odbc.Parameters.{throws, Parameter, Conversion, Bound, bind_parameter}

abbrev pub statuses_after : ParamStatus → List SqlReturn → ParamStatus
statuses_after status [] = status
statuses_after status (ret ∷ rets) = statuses_after (status_after status ret) rets

abbrev pub results_after : SqlReturn → List SqlReturn → SqlReturn
results_after result [] = result
results_after result (ret ∷ rets) = results_after (result_after result ret) rets

abbrev pub any_of : (SqlReturn → Bool) → List SqlReturn → Bool
any_of f [] = false
any_of f (ret ∷ rets) = f ret || any_of f rets

abbrev pub is_failure : SqlReturn → Bool
is_failure ret = if is_succeeded ret then false else true

abbrev pub is_param_error : ParamStatus → Bool
is_param_error param_error = true
is_param_error _ = false

status_step :
    (status : ParamStatus) (ret : SqlReturn)
    → is_param_error (status_after status ret) ≡ (is_param_error status || is_failure ret)
unfolding status_after
status_step status ret = ground arith

result_step :
    (result ret : SqlReturn)
    → is_sql_error (result_after result ret) ≡ (is_sql_error result || is_sql_error ret)
unfolding result_after
result_step result ret = ground arith

pub statuses_after-error :
    (status : ParamStatus) (rets : List SqlReturn)
    → is_param_error (statuses_after status rets)
      ≡ (is_param_error status || any_of is_failure rets)
statuses_after-error status [] = ground arith
statuses_after-error status (ret ∷ rets) =
    rw (statuses_after-error (status_after status ret) rets, status_step status ret) ground arith

pub results_after-error :
    (result : SqlReturn) (rets : List SqlReturn)
    → is_sql_error (results_after result rets) ≡ (is_sql_error result || any_of is_sql_error rets)
results_after-error result [] = ground arith
results_after-error result (ret ∷ rets) =
    rw (results_after-error (result_after result ret) rets, result_step result ret) (ground arith)

module _ {ℓ} {V : Type ℓ} (cv : Conversion V) (at : ℤ → ℤ) (vo : Parameter → ℤ) (lo : ℤ) where
  -- The answers of bindParameter to the parameters of one set, in their order.
  pub data Answers : List Parameter → Bound V → List SqlReturn → Type ℓ where
    no_parameter : {b : Bound V} → Answers [] b []
    parameter :
        {p p' : Parameter} {ps : List Parameter} {b b' : Bound V} {ret : SqlReturn}
        {rets : List SqlReturn}
        → bind_parameter cv at false (vo p) lo p b ≡ some (p', b', ret)
        → Answers ps b' rets
        → Answers (p ∷ ps) b (ret ∷ rets)

  went_on :
      (k : Bool) (z : List Parameter × Bound V × ParamStatus × SqlReturn × Bool)
      (go : Option (List Parameter × Bound V × ParamStatus × SqlReturn × Bool))
      (out : List Parameter × Bound V × ParamStatus × SqlReturn × Bool)
      → z.4 ≡ true
      → (elim k as (λ _. Option (List Parameter × Bound V × ParamStatus × SqlReturn × Bool)) [
        | true ↦ some z
        | false ↦ go
      ])
        ≡ some out
      → out.4 ≡ false
      → go ≡ some out
  went_on true z go out e h n =
      let same = ap (λ o. o.4) (some_injective h) in absurd (cc (e, same, n))
  went_on false z go out e h n = h

  -- The status and the result of a set, by the answers of its parameters.
  bind_set-Answers :
      (ps : List Parameter) (b : Bound V) (status : ParamStatus) (result : SqlReturn)
      (out : List Parameter × Bound V × ParamStatus × SqlReturn × Bool)
      → bind_set cv at vo lo ps b status result ≡ some out
      → out.4 ≡ false
      → (rets : List SqlReturn) × Answers ps b rets
        × (out.2 ≡ statuses_after status rets)
        × (out.3 ≡ results_after result rets)
  unfolding bind_set
  bind_set-Answers [] b status result out h n = (
    [],
    no_parameter,
    sym (ap (λ o. o.2) (some_injective h)),
    sym (ap (λ o. o.3) (some_injective h)),
  )
  bind_set-Answers (p ∷ ps) b status result out h n =
      let (x, e, h₁) = bind-some (bind_parameter cv at false (vo p) lo p b) _ h in
      let (rest, e₁, h₂) =
        bind-some (bind_set cv at vo lo ps x.1 (status_after status x.2) (result_after result x.2))
          _ (went_on (throws at p) (x.0 ∷ ps, x.1, status, result, true) _ out refl h₁ n) in
      let (rets, a, s, r) =
        bind_set-Answers ps x.1 (status_after status x.2) (result_after result x.2) rest e₁
          (ap (λ o. o.4) (some_injective h₂) ∙ n) in
      (
        x.2 ∷ rets,
        parameter e a,
        sym (ap (λ o. o.2) (some_injective h₂)) ∙ s,
        sym (ap (λ o. o.3) (some_injective h₂)) ∙ r,
      )

  -- Where the parameters of one set are bound without a fault and without an exception, its status
  -- is SQL_PARAM_ERROR exactly if some answer of bindParameter was neither SQL_SUCCESS nor
  -- SQL_SUCCESS_WITH_INFO, SQL_NEED_DATA included, and the result is SQL_ERROR exactly if it was
  -- before or some answer is.
  pub bind_set-severity :
      (ps : List Parameter) (b : Bound V) (result : SqlReturn)
      (out : List Parameter × Bound V × ParamStatus × SqlReturn × Bool)
      → bind_set cv at vo lo ps b param_success result ≡ some out
      → out.4 ≡ false
      → (rets : List SqlReturn) × Answers ps b rets
        × (is_param_error out.2 ≡ any_of is_failure rets)
        × (is_sql_error out.3 ≡ (is_sql_error result || any_of is_sql_error rets))
  bind_set-severity ps b result out h n =
      let (rets, a, s, r) = bind_set-Answers ps b param_success result out h n in
      (
        rets,
        a,
        ap is_param_error s ∙ statuses_after-error param_success rets,
        ap is_sql_error r ∙ results_after-error result rets,
      )
