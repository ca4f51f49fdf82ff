-- ===== src/Parameters/Asks.antt =====
-- When SQLExecute asks for data, and the places where a value that was given is lost
-- (execute, getParamData, bindParameter and Parameter::set of src/driver/cpp/SnappyStatement.cpp and
-- SnappyStatement.h).
use mathlib.Core.List.{append_assoc}
use snappy_odbc.Common.{
  ℕ, ◌-◌, ◌≡◌, refl, sym, ◌∙◌, inl, inr, Bool, true, false, Bool-cases, Option-cases, ◌||◌, none,
  some, List, [], ◌∷◌, ◌++◌, if◌then◌else◌, ℤ, pos, length, length-append, length-take,
  length-replicate, take, drop, replicate, arith, All,
}
use snappy_odbc.Types.{CType, convert_type_to_c_type}
use snappy_odbc.Driver.{success, need_data, Outcome, clear_last_error}
use snappy_odbc.Parameters.{Parameter, Piece, Bound, bind_parameters, bind_each, needs_data, resize}
use snappy_odbc.Parameters.Execute.{Stmt, Answer, with_diag, execute, execute_bound, get_param_data}
use snappy_odbc.Parameters.Contents.{partial_conversion, AreInputs}
use snappy_odbc.Parameters.Ready.{executed, kept, length-snoc}
use snappy_odbc.Parameters.Protocol.{next_asked-none}
use snappy_odbc.Parameters.Ready.{bind_parameter-ready}
use snappy_odbc.Parameters.Supply.{execute-bound}
use snappy_odbc.Parameters.{
  Given, set_fields, set_parameter, bind_parameter, bind_value, is_default,
}

length-resize {ℓ} : {A : Type ℓ} (d : A) (n : ℕ) (xs : List A) → length (resize d n xs) ≡ n
unfolding resize
length-resize d n xs = omega (
  arith,
  length-append (take n xs) (replicate (n - length xs) d),
  length-take n xs,
  length-replicate (n - length xs) d,
)

module _ {ℓ} {V : Type ℓ} (knows : CType → Bool) (conv : CType → Bool → Piece → List V → List V)
    (null_value : V) (noted : CType → ℤ → ℤ) (at : ℤ → ℤ) where
  -- Some parameter asks for data.
  abbrev pub asks_any : List Parameter → Bool
  asks_any [] = false
  asks_any (p ∷ ps) = needs_data at p || asks_any ps

  bind_parameter-asks :
      (p : Parameter) (b : Bound V)
      → needs_data at p ≡ true
      → bind_parameter (partial_conversion knows conv null_value noted) at false (pos 0) (pos 0) p b
        ≡ some (record p { is_data_at_exec = true; len_or_ind = none }, b, need_data)
  unfolding bind_parameter
  bind_parameter-asks p b h = rw h

  bind_each-asks :
      (ps : List Parameter) (xs olds : List (List V)) (b : Bound V)
      → length ps ≡ length olds
      → AreInputs knows (length xs) ps
      → asks_any ps ≡ true
      → b.exec ≡ xs ++ olds
      → (ps' : List Parameter) × (b' : Bound V) × (bind_each
            (partial_conversion knows conv null_value noted)
            at
            ps
            b
          ≡ some (ps', b', need_data))
  unfolding bind_each
  bind_each-asks [] xs olds b n h a e = absurd (ground (arith, a))
  bind_each-asks (p ∷ ps) xs [] b n h a e = absurd (omega arith)
  bind_each-asks (p ∷ ps) xs (old ∷ olds) b n h a e = elim (Bool-cases (needs_data at p)) [
    | inl k ↦ (
      record p { is_data_at_exec = true; len_or_ind = none } ∷ ps,
      b,
      rw (bind_parameter-asks p b k),
    )
    | inr k ↦
        let new = executed knows conv null_value noted at p old in
        let rest =
          bind_each-asks ps (xs ++ new ∷ []) olds (record b { exec = xs ++ new ∷ olds })
            (omega arith) (rw (length-snoc xs new) h.1) (rw k at a)
            (sym (append_assoc xs (new ∷ []) olds)) in
        (
          kept knows conv null_value noted at p ∷ rest.0,
          rest.1,
          rw (bind_parameter-ready knows conv null_value noted at p xs old olds b h.0 k e, rest.2),
        )
  ]

  bind_parameter-skips :
      (q : Parameter) (b : Bound V)
      → q.is_bound ≡ true
      → needs_data at q ≡ false
      → bind_parameter (partial_conversion knows conv null_value noted) at false (pos 0) (pos 0) q b
        ≡ some (q, b, success)
  unfolding bind_parameter
  bind_parameter-skips q b h n = rw n (choice q.is_bound h)
    where
      choice :
          (k : Bool)
          → k ≡ true
          → (if k
              then some (q, b, success)
              else bind_value
                  (partial_conversion knows conv null_value noted)
                  at
                  false
                  (pos 0)
                  (pos 0)
                  q
                  b)
            ≡ some (q, b, success)
      choice true e = refl
      choice false e = absurd (ground (arith, e))

  set_parameter-is_bound :
      (precision : ℤ) (g : Given) (p : Parameter)
      → (set_parameter precision g p).0.is_bound ≡ p.is_bound
  unfolding set_parameter set_fields
  set_parameter-is_bound precision g p = elim (Bool-cases (is_default g.given_value_type)) [
    | inl e ↦ elim (Option-cases (convert_type_to_c_type g.given_param_type)) [
      | inl n ↦ rw (e, n)
      | inr q ↦ rw (e, q.1)
    ]
    | inr e ↦ rw e
  ]

  -- A value that is bound to a parameter which SQLPutData supplied before is not used: binding it
  -- for an execution answers SQL_SUCCESS and changes nothing.
  pub rebound_value_is_dropped :
      (precision : ℤ) (g : Given) (p : Parameter) (b : Bound V)
      → p.is_bound ≡ true
      → needs_data at (set_parameter precision g p).0 ≡ false
      → bind_parameter
          (partial_conversion knows conv null_value noted)
          at
          false
          (pos 0)
          (pos 0)
          (set_parameter precision g p).0
          b
        ≡ some ((set_parameter precision g p).0, b, success)
  rebound_value_is_dropped precision g p b h n =
      bind_parameter-skips (set_parameter precision g p).0 b
        (set_parameter-is_bound precision g p ∙ h) n

module _ {ℓ} {V : Type ℓ} (knows : CType → Bool) (conv : CType → Bool → Piece → List V → List V)
    (null_value : V) (noted : CType → ℤ → ℤ) (at : ℤ → ℤ)
    (run : List (List V) → Outcome Answer) where
  execute_bound-asks :
      (s : Stmt V)
      → AreInputs knows 0 s.params
      → asks_any knows conv null_value noted at s.params ≡ true
      → (s' : Stmt V) × (execute_bound (partial_conversion knows conv null_value noted) at run s
          ≡ some (s', need_data))
        × (s'.sent ≡ s.sent)
        × (s'.current ≡ s.current)
  unfolding execute_bound bind_parameters
  execute_bound-asks s h a =
      let sized = resize [] (length s.params) s.bound.exec in
      let asks =
        bind_each-asks knows conv null_value noted at s.params [] sized
          (record s.bound { exec = sized }) (sym (length-resize [] (length s.params) s.bound.exec))
          h a refl in
      (record s { params = asks.0; bound = asks.1 }, rw asks.2, refl, refl)

  -- SQLExecute of a prepared statement without a result set, with one parameter set, whose
  -- parameters are numbered in order from 1 and bound for input with C types that the conversion
  -- knows and SQL types that have a native type, and some of which asks for data, answers
  -- SQL_NEED_DATA and sends nothing, and leaves the current parameter index as it is.
  pub execute-asks :
      (s : Stmt V)
      → AreInputs knows 0 s.params
      → asks_any knows conv null_value noted at s.params ≡ true
      → s.prepared ≡ true
      → s.has_result_set ≡ false
      → (s' : Stmt V) × (execute (partial_conversion knows conv null_value noted) at run s
          ≡ some (s', need_data))
        × (s'.sent ≡ s.sent)
        × (s'.current ≡ s.current)
  execute-asks s h a p o =
      let asks =
        execute_bound-asks (record (with_diag clear_last_error s) { has_result = false }) h a in
      (asks.0, execute-bound knows conv null_value noted at run s p o ∙ asks.1, asks.2, asks.3)

  -- On a prepared statement without a result set, with one parameter set, whose parameters are
  -- numbered in order from 1 and bound for input with C types that the conversion knows and SQL
  -- types that have a native type: where the parameters from the current index on ask for no data,
  -- but binding one before it does, SQLParamData answers SQL_NEED_DATA, sends nothing, and does
  -- not move the current index to the parameter that asks.
  pub asked_before_current :
      (s : Stmt V)
      → AreInputs knows 0 s.params
      → asks_any knows conv null_value noted at s.params ≡ true
      → All (λ p. needs_data at p ≡ false) (drop s.current s.params)
      → s.prepared ≡ true
      → s.has_result_set ≡ false
      → (s' : Stmt V) × (get_param_data (partial_conversion knows conv null_value noted) at run s
          ≡ some (s', need_data))
        × (s'.sent ≡ s.sent)
        × (s'.current ≡ s.current)
  unfolding get_param_data
  asked_before_current s h a r p o =
      let asks = execute-asks (with_diag clear_last_error s) h a p o in
      (
        asks.0,
        rw (get_param_data, next_asked-none at (drop s.current s.params) s.current r) asks.1,
        asks.2,
        asks.3,
      )
