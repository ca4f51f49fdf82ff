-- ===== src/Parameters/Rounds.antt =====
-- The rounds of SQLParamData and SQLPutData, from any parameter on (getParamData and putData of
-- src/driver/cpp/SnappyStatement.cpp).
use mathlib.Core.List.{append_assoc}
use snappy_odbc.Common.{
  ℕ, suc, ◌+◌, ◌≤◌, ◌≡◌, ◌≢◌, refl, ap, sym, ◌∙◌, Bool, true, false, Option, some, List, [], ◌∷◌,
  ◌++◌, if◌then◌else◌, ℤ, length, drop, set, arith, All, All-append,
}
use snappy_odbc.Types.{CType}
use snappy_odbc.Driver.{
  SqlReturn, success, success_with_info, error, invalid_handle, no_data, need_data, Outcome,
  returned, threw, clear_last_error,
}
use snappy_odbc.Parameters.{Parameter, Piece, needs_data}
use snappy_odbc.Parameters.Execute.{
  Stmt, Answer, with_diag, take_answer, get_param_data, next_asked, asked,
}
use snappy_odbc.Parameters.Contents.{partial_conversion, IsInput, AreInputs, set-append}
use snappy_odbc.Parameters.Ready.{executed, executed_each, length-snoc}
use snappy_odbc.Parameters.Puts.{fed_contents}
use snappy_odbc.Parameters.Protocol.{next_asked-drop}

module _ {ℓ} {V : Type ℓ} (knows : CType → Bool) (conv : CType → Bool → Piece → List V → List V)
    (null_value : V) (noted : CType → ℤ → ℤ) (at : ℤ → ℤ) where
  -- The contents of the parameters from index i on: the pieces that were put, or the bound value.
  abbrev pub answered : (ℕ → List (ℤ × ℤ)) → ℕ → List Parameter → List (List V) → List (List V)
  answered app i [] olds = []
  answered app i (p ∷ ps) [] = []
  answered app i (p ∷ ps) (old ∷ olds) =
      (if needs_data at p
        then fed_contents knows conv null_value noted (asked p) old (app i)
        else executed knows conv null_value noted at p old)
      ∷ answered app (suc i) ps olds

  pub executed_each-append :
      (ps qs : List Parameter) (xs ys : List (List V))
      → length xs ≡ length ps
      → executed_each knows conv null_value noted at (ps ++ qs) (xs ++ ys)
        ≡ executed_each knows conv null_value noted at ps xs
          ++ executed_each knows conv null_value noted at qs ys
  executed_each-append [] qs [] ys h = refl
  executed_each-append [] qs (x ∷ xs) ys h = absurd (omega arith)
  executed_each-append (p ∷ ps) qs [] ys h = absurd (omega arith)
  executed_each-append (p ∷ ps) qs (x ∷ xs) ys h =
      ap (◌∷◌ (executed knows conv null_value noted at p x))
        (executed_each-append ps qs xs ys (omega arith))

AreInputs-snoc :
    {knows : CType → Bool} (i : ℕ) (ps : List Parameter) (p : Parameter)
    → AreInputs knows i ps
    → IsInput knows (i + length ps) p
    → AreInputs knows i (ps ++ p ∷ [])
AreInputs-snoc i [] p h k = (rw (plus_zero i) at k, tt)
  where
    plus_zero : (n : ℕ) → n + 0 ≡ n
    plus_zero n = omega arith
AreInputs-snoc i (q ∷ ps) p h k =
    (h.0, AreInputs-snoc (suc i) ps p h.1 (rw (plus_suc i (length ps)) k))
  where
    plus_suc : (m n : ℕ) → suc m + n ≡ m + suc n
    plus_suc m n = omega arith

pub asked-IsInput :
    {knows : CType → Bool} (i : ℕ) (p : Parameter) → IsInput knows i p → IsInput knows i (asked p)
asked-IsInput i p h = record {
  numbered = h.numbered;
  is_input = h.is_input;
  ctype = h.ctype;
  typed = h.typed;
  known = h.known;
  sql_typed = h.sql_typed;
}

module _ {ℓ} {V : Type ℓ} (knows : CType → Bool) (conv : CType → Bool → Piece → List V → List V)
    (null_value : V) (noted : CType → ℤ → ℤ) (at : ℤ → ℤ)
    (run : List (List V) → Outcome Answer) where
  pub get_param_data-asks :
      (done todo : List Parameter) (p : Parameter) (s : Stmt V)
      → s.params ≡ done ++ p ∷ todo
      → s.current ≤ length done
      → All (λ q. needs_data at q ≡ false) done
      → needs_data at p ≡ true
      → get_param_data (partial_conversion knows conv null_value noted) at run s
        ≡ some (
          record (with_diag clear_last_error s) {
            current = length done;
            params = done ++ asked p ∷ todo;
          },
          need_data,
        )
  unfolding get_param_data
  get_param_data-asks done todo p s q c r n = rw (get_param_data, found, stored)
    where
      found : next_asked at (drop s.current s.params) s.current ≡ some (length done, p)
      found = rw q (
          next_asked-drop at s.current done todo p s.current c r n
          ∙ ap (λ k. some (k, p)) (omega arith))

      stored : set s.params (length done) (asked p) ≡ done ++ asked p ∷ todo
      stored = rw q (set-append done p (asked p) todo)

  pub pass :
      (r : Stmt V × SqlReturn) (x : Option (Stmt V × SqlReturn))
      → r.1 ≢ need_data
      → (elim r.1 [ need_data ↦ x | other ↦ some r ]) ≡ some r
  pass (s, success) x h = refl
  pass (s, success_with_info) x h = refl
  pass (s, error) x h = refl
  pass (s, invalid_handle) x h = refl
  pass (s, no_data) x h = refl
  pass (s, need_data) x h = absurd (h refl)

  pub take_answer-ne-need_data : (a : Outcome Answer) (s : Stmt V) → (take_answer a s).1 ≢ need_data
  unfolding take_answer
  take_answer-ne-need_data (threw t) s h = ground (arith, h)
  take_answer-ne-need_data (returned a) s h = ground (arith, h)

-- What the rounds need of a statement: `done` are the parameters that ask for nothing any more,
-- with the contents xs, `todo` the others, with the contents olds.
pub record AtRound {ℓ} {V : Type ℓ} (knows : CType → Bool) (at : ℤ → ℤ) (done todo : List Parameter)
    (xs olds : List (List V)) (s : Stmt V) : Type ℓ where
  pub params_are : s.params ≡ done ++ todo
  pub contents_are : s.bound.exec ≡ xs ++ olds
  pub done_length : length xs ≡ length done
  pub todo_length : length olds ≡ length todo
  pub done_inputs : AreInputs knows 0 done
  pub todo_inputs : AreInputs knows (length done) todo
  pub done_ready : All (λ p. needs_data at p ≡ false) done
  pub not_past : s.current ≤ length done
  pub is_prepared : s.prepared ≡ true
  pub no_result_set : s.has_result_set ≡ false

-- A parameter is done with.
pub snoc_done {ℓ} :
    {V : Type ℓ} (knows : CType → Bool) (at : ℤ → ℤ) (done todo : List Parameter) (p : Parameter)
    (xs olds : List (List V)) (x : List V) (s : Stmt V)
    → s.params ≡ done ++ p ∷ todo
    → s.bound.exec ≡ xs ++ x ∷ olds
    → length xs ≡ length done
    → length olds ≡ length todo
    → AreInputs knows 0 done
    → IsInput knows (length done) p
    → AreInputs knows (suc (length done)) todo
    → All (λ q. needs_data at q ≡ false) done
    → needs_data at p ≡ false
    → s.current ≤ length done
    → s.prepared ≡ true
    → s.has_result_set ≡ false
    → AtRound knows at (done ++ p ∷ []) todo (xs ++ x ∷ []) olds s
snoc_done knows at done todo p xs olds x s q e l m i k j r n c u o = record {
  params_are = q ∙ sym (append_assoc done (p ∷ []) todo);
  contents_are = e ∙ sym (append_assoc xs (x ∷ []) olds);
  done_length = omega (arith, length-snoc xs x, length-snoc done p);
  todo_length = m;
  done_inputs = AreInputs-snoc 0 done p i (rw (zero_plus (length done)) k);
  todo_inputs = rw (length-snoc done p) j;
  done_ready = All-append (λ q. needs_data at q ≡ false) done (p ∷ []) r (n, tt);
  not_past = omega (arith, length-snoc done p);
  is_prepared = u;
  no_result_set = o;
}
  where
    zero_plus : (n : ℕ) → 0 + n ≡ n
    zero_plus n = omega arith
