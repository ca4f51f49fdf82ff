-- ===== src/Parameters/Supply.antt =====
-- Data at execution from the first SQLParamData to the execution: what is executed
-- (getParamData, putData and execute of src/driver/cpp/SnappyStatement.cpp).
use snappy_odbc.Common.{
  ◌≡◌, refl, Bool, true, false, some, List, [], ◌∷◌, ◌++◌, ℤ, length, drop, map, All,
}
use snappy_odbc.Types.{CType}
use snappy_odbc.Driver.{Outcome, clear_last_error}
use snappy_odbc.Parameters.{Parameter, Piece, Conversion, bind_parameters, needs_data}
use snappy_odbc.Parameters.Execute.{
  Stmt, Answer, with_diag, execute, execute_bound, take_answer, get_param_data,
}
use snappy_odbc.Parameters.Contents.{partial_conversion, IsInput, AreInputs}
use snappy_odbc.Parameters.Ready.{executed_each, kept, bind_each-ready}
use snappy_odbc.Parameters.Puts.{
  fed_contents, fed_parameter, put_parameter, put_parameter-IsInput, put_contents, put_data-current,
}
use snappy_odbc.Parameters.Protocol.{put_all, resize_same, next_asked-none, All-drop}

module _ {ℓ} {V : Type ℓ} where
  -- What the calls between two executions leave alone.
  pub record SameStatement (s s' : Stmt V) : Type ℓ where
    pub same_prepared : s'.prepared ≡ s.prepared
    pub same_result_set : s'.has_result_set ≡ s.has_result_set
    pub same_sent : s'.sent ≡ s.sent

module _ {ℓ} {V : Type ℓ} (knows : CType → Bool) (conv : CType → Bool → Piece → List V → List V)
    (null_value : V) (noted : CType → ℤ → ℤ) (at : ℤ → ℤ)
    (run : List (List V) → Outcome Answer) where
  abbrev cvt : Conversion V
  cvt = partial_conversion knows conv null_value noted

  pub put_all-run :
      (ds : List (ℤ × ℤ)) (done todo : List Parameter) (p : Parameter) (xs : List (List V))
      (old : List V) (ys : List (List V)) (s : Stmt V)
      → s.params ≡ done ++ p ∷ todo
      → s.current ≡ length done
      → s.bound.exec ≡ xs ++ old ∷ ys
      → IsInput knows (length xs) p
      → (s' : Stmt V) × (put_all cvt ds s ≡ some s')
        × (s'.params ≡ done ++ fed_parameter knows conv null_value noted p ds ∷ todo)
        × (s'.bound.exec ≡ xs ++ fed_contents knows conv null_value noted p old ds ∷ ys)
        × (s'.current ≡ length done)
        × SameStatement s s'
  unfolding put_all
  put_all-run [] done todo p xs old ys s q c e h =
      (s, refl, q, e, c, record { same_prepared = refl; same_result_set = refl; same_sent = refl })
  put_all-run (d ∷ ds) done todo p xs old ys s q c e h =
      let first =
        put_data-current knows conv null_value noted at done todo p xs old ys d s q c e h in
      let rest =
        put_all-run ds done todo (put_parameter knows conv null_value noted p d) xs
          (put_contents knows conv null_value noted p d old) ys
          (record s {
            params = done ++ put_parameter knows conv null_value noted p d ∷ todo;
            bound = record s.bound {
              exec = xs ++ put_contents knows conv null_value noted p d old ∷ ys;
              diag = clear_last_error s.bound.diag;
            };
          })
          refl c refl (put_parameter-IsInput knows conv null_value noted (length xs) p d h) in
      (
        rest.0,
        rw first rest.1,
        rest.2,
        rest.3,
        rest.4,
        record {
          same_prepared = rest.5.same_prepared;
          same_result_set = rest.5.same_result_set;
          same_sent = rest.5.same_sent;
        },
      )

  pub execute-bound :
      (s : Stmt V)
      → s.prepared ≡ true
      → s.has_result_set ≡ false
      → execute cvt at run s
        ≡ execute_bound cvt at run (record (with_diag clear_last_error s) { has_result = false })
  unfolding execute
  execute-bound s p o = rw (o, p)

  execute_bound-ready :
      (s : Stmt V)
      → length s.params ≡ length s.bound.exec
      → AreInputs knows 0 s.params
      → All (λ p. needs_data at p ≡ false) s.params
      → (s' : Stmt V) × (execute_bound cvt at run s ≡ some (take_answer (run s'.bound.exec) s'))
        × (s'.bound.exec ≡ executed_each knows conv null_value noted at s.params s.bound.exec)
        × SameStatement s s'
  unfolding execute_bound bind_parameters
  execute_bound-ready s l h r =
      let new = executed_each knows conv null_value noted at s.params s.bound.exec in
      (
        record s {
          params = map (kept knows conv null_value noted at) s.params;
          bound = record s.bound { exec = new };
        },
        rw (
          resize_same [] s.bound.exec (length s.params) l,
          bind_each-ready knows conv null_value noted at s.params [] s.bound.exec s.bound l h r
              refl,
        ),
        refl,
        record { same_prepared = refl; same_result_set = refl; same_sent = refl },
      )

  -- With no parameter left to ask for, SQLParamData executes.
  pub get_param_data-executes :
      (s : Stmt V)
      → length s.params ≡ length s.bound.exec
      → AreInputs knows 0 s.params
      → All (λ p. needs_data at p ≡ false) s.params
      → s.prepared ≡ true
      → s.has_result_set ≡ false
      → (s' : Stmt V) × (get_param_data cvt at run s ≡ some (take_answer (run s'.bound.exec) s'))
        × (s'.bound.exec ≡ executed_each knows conv null_value noted at s.params s.bound.exec)
        × SameStatement s s'
  unfolding get_param_data
  get_param_data-executes s l h r p o =
      let s₁ = record (with_diag clear_last_error s) { has_result = false } in
      let ready = execute_bound-ready s₁ l h r in
      (
        ready.0,
        rw
            (
              get_param_data,
              next_asked-none at (drop s.current s.params) s.current
                  (All-drop (λ q. needs_data at q ≡ false) s.current s.params r),
              execute-bound (with_diag clear_last_error s) p o,
            )
            ready.1,
        ready.2,
        record {
          same_prepared = ready.3.same_prepared;
          same_result_set = ready.3.same_result_set;
          same_sent = ready.3.same_sent;
        },
      )
