-- ===== src/Parameters/Puts.antt =====
-- Successive calls of SQLPutData for one parameter: putData of src/driver/cpp/SnappyStatement.cpp.
use snappy_odbc.Common.{
  ℕ, ◌≡◌, refl, ◌∙◌, Bool, true, false, Option, none, some, List, [], ◌∷◌, ◌++◌, ℤ, length, set,
  get_elem?, pos,
}
use snappy_odbc.Types.{CType}
use snappy_odbc.Driver.{success, clear_last_error}
use snappy_odbc.Parameters.{Parameter, Piece, bind_parameter, needs_data, asks_data_at_exec}
use snappy_odbc.Parameters.Execute.{Stmt, with_diag, put_data, switched, put_back}
use snappy_odbc.Parameters.Contents.{
  partial_conversion, IsInput, contents_after, parameter_after, parameter_with, bind_value-after,
  get_elem?-append, set-append,
}

module _ {ℓ} {V : Type ℓ} (knows : CType → Bool) (conv : CType → Bool → Piece → List V → List V)
    (null_value : V) (noted : CType → ℤ → ℤ) where
  -- One call: the application's address and length.
  abbrev pub put_contents : Parameter → ℤ × ℤ → List V → List V
  put_contents p d old =
      contents_after knows conv null_value noted (λ a. d.1) true (switched (some d.0) d.1 p) old

  abbrev pub put_parameter : Parameter → ℤ × ℤ → Parameter
  put_parameter p d =
      put_back p success
        (parameter_after knows conv null_value noted (λ a. d.1) (switched (some d.0) d.1 p))

  -- All calls for a parameter.
  abbrev pub fed_contents : Parameter → List V → List (ℤ × ℤ) → List V
  fed_contents p old [] = old
  fed_contents p old (d ∷ ds) = fed_contents (put_parameter p d) (put_contents p d old) ds

  abbrev pub fed_parameter : Parameter → List (ℤ × ℤ) → Parameter
  fed_parameter p [] = p
  fed_parameter p (d ∷ ds) = fed_parameter (put_parameter p d) ds

  parameter_with-IsInput :
      (at : ℤ → ℤ) (i : ℕ) (p : Parameter) (v : Option ℤ) (c : Option CType)
      → IsInput knows i p
      → IsInput knows i (parameter_with knows conv null_value noted at p v c)
  unfolding parameter_with
  parameter_with-IsInput at i p none c h = h
  parameter_with-IsInput at i p (some v) none h = h
  parameter_with-IsInput at i p (some v) (some c) h = record {
    numbered = h.numbered;
    is_input = h.is_input;
    ctype = h.ctype;
    typed = h.typed;
    known = h.known;
    sql_typed = h.sql_typed;
  }

  parameter_with-is_data_at_exec :
      (at : ℤ → ℤ) (p : Parameter) (v : Option ℤ) (c : Option CType)
      → (parameter_with knows conv null_value noted at p v c).is_data_at_exec ≡ p.is_data_at_exec
  unfolding parameter_with
  parameter_with-is_data_at_exec at p none c = refl
  parameter_with-is_data_at_exec at p (some v) none = refl
  parameter_with-is_data_at_exec at p (some v) (some c) = refl

  switched-IsInput :
      (i : ℕ) (p : Parameter) (d : ℤ × ℤ)
      → IsInput knows i p
      → IsInput knows i (switched (some d.0) d.1 p)
  unfolding switched
  switched-IsInput i p d h = record {
    numbered = h.numbered;
    is_input = h.is_input;
    ctype = h.ctype;
    typed = h.typed;
    known = h.known;
    sql_typed = h.sql_typed;
  }

  pub put_parameter-IsInput :
      (i : ℕ) (p : Parameter) (d : ℤ × ℤ) → IsInput knows i p → IsInput knows i (put_parameter p d)
  unfolding put_back
  put_parameter-IsInput i p d h =
      let sw = switched (some d.0) d.1 p in
      let k =
        parameter_with-IsInput (λ a. d.1) i sw sw.value sw.value_type (switched-IsInput i p d h) in
      record {
        numbered = k.numbered;
        is_input = k.is_input;
        ctype = k.ctype;
        typed = k.typed;
        known = k.known;
        sql_typed = k.sql_typed;
      }

  pub fed_parameter-IsInput :
      (i : ℕ) (p : Parameter) (ds : List (ℤ × ℤ))
      → IsInput knows i p
      → IsInput knows i (fed_parameter p ds)
  fed_parameter-IsInput i p [] h = h
  fed_parameter-IsInput i p (d ∷ ds) h =
      fed_parameter-IsInput i (put_parameter p d) ds (put_parameter-IsInput i p d h)

  -- A parameter that was put is bound, and asks for no data.
  put_parameter-len : (p : Parameter) (d : ℤ × ℤ) → (put_parameter p d).len_or_ind ≡ p.len_or_ind
  unfolding put_back
  put_parameter-len p d = refl

  put_parameter-at_exec : (p : Parameter) (d : ℤ × ℤ) → (put_parameter p d).is_data_at_exec ≡ false
  unfolding put_back switched
  put_parameter-at_exec p d =
      let sw = switched (some d.0) d.1 p in
      parameter_with-is_data_at_exec (λ a. d.1) sw sw.value sw.value_type

  put_parameter-is_bound : (p : Parameter) (d : ℤ × ℤ) → (put_parameter p d).is_bound ≡ true
  unfolding put_back
  put_parameter-is_bound p d = refl

  pub fed_parameter-is_bound :
      (p : Parameter) (d : ℤ × ℤ) (ds : List (ℤ × ℤ)) → (fed_parameter p (d ∷ ds)).is_bound ≡ true
  fed_parameter-is_bound p d [] = put_parameter-is_bound p d
  fed_parameter-is_bound p d (e ∷ ds) = fed_parameter-is_bound (put_parameter p d) e ds

  pub fed_parameter-ready :
      (at : ℤ → ℤ) (p : Parameter) (ds : List (ℤ × ℤ))
      → p.is_data_at_exec ≡ false
      → p.len_or_ind ≡ none
      → needs_data at (fed_parameter p ds) ≡ false
  unfolding needs_data asks_data_at_exec
  fed_parameter-ready at p [] h k = rw (h, k)
  fed_parameter-ready at p (d ∷ ds) h k =
      fed_parameter-ready at (put_parameter p d) ds (put_parameter-at_exec p d)
        (put_parameter-len p d ∙ k)

module _ {ℓ} {V : Type ℓ} (knows : CType → Bool) (conv : CType → Bool → Piece → List V → List V)
    (null_value : V) (noted : CType → ℤ → ℤ) (at : ℤ → ℤ) where
  current_elem :
      (done todo : List Parameter) (p : Parameter) (s : Stmt V)
      → s.params ≡ done ++ p ∷ todo
      → s.current ≡ length done
      → get_elem? s.params s.current ≡ some p
  current_elem done todo p s q c = rw (q, c) (get_elem?-append done p todo)

  current_set :
      (done todo : List Parameter) (p p' : Parameter) (s : Stmt V)
      → s.params ≡ done ++ p ∷ todo
      → s.current ≡ length done
      → set s.params s.current p' ≡ done ++ p' ∷ todo
  current_set done todo p p' s q c = rw (q, c) (set-append done p p' todo)

  -- One call on the current parameter.
  pub put_data-current :
      (done todo : List Parameter) (p : Parameter) (xs : List (List V)) (old : List V)
      (ys : List (List V)) (d : ℤ × ℤ) (s : Stmt V)
      → s.params ≡ done ++ p ∷ todo
      → s.current ≡ length done
      → s.bound.exec ≡ xs ++ old ∷ ys
      → IsInput knows (length xs) p
      → put_data (partial_conversion knows conv null_value noted) (some d.0) d.1 s
        ≡ some (
          record s {
            params = done ++ put_parameter knows conv null_value noted p d ∷ todo;
            bound = record s.bound {
              exec = xs ++ put_contents knows conv null_value noted p d old ∷ ys;
              diag = clear_last_error s.bound.diag;
            };
          },
          success,
        )
  unfolding put_data bind_parameter
  put_data-current done todo p xs old ys d s q c e h =
      let sw = switched (some d.0) d.1 p in
      rw (
        put_data,
        current_elem done todo p s q c,
        bind_parameter,
        bind_value-after knows conv null_value noted (λ a. d.1) (pos 0) (pos 0) true sw xs old ys
            (with_diag clear_last_error s).bound
            (switched-IsInput knows conv null_value noted (length xs) p d h) e,
        current_set done todo p (put_parameter knows conv null_value noted p d) s q c,
      )
