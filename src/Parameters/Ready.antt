-- ===== src/Parameters/Ready.antt =====
-- bindParameters (src/driver/cpp/SnappyStatement.cpp) on parameters none of which asks for data.
use mathlib.Core.List.{append_assoc}
use snappy_odbc.Common.{
  suc, ◌≡◌, ap, sym, Bool, true, false, some, List, [], ◌∷◌, ◌++◌, if◌then◌else◌, ℤ, pos, length,
  length-append, arith, map, All,
}
use snappy_odbc.Types.{CType}
use snappy_odbc.Driver.{success}
use snappy_odbc.Parameters.{
  Parameter, Piece, Bound, bind_value, bind_parameter, bind_each, needs_data,
}
use snappy_odbc.Parameters.Contents.{
  partial_conversion, IsInput, AreInputs, contents_after, parameter_after, bind_value-after,
}

pub length-snoc {ℓ} : {A : Type ℓ} (xs : List A) (x : A) → length (xs ++ x ∷ []) ≡ suc (length xs)
length-snoc xs x = omega (arith, length-append xs (x ∷ []))

module _ {ℓ} {V : Type ℓ} (knows : CType → Bool) (conv : CType → Bool → Piece → List V → List V)
    (null_value : V) (noted : CType → ℤ → ℤ) (at : ℤ → ℤ) where
  -- The contents with which a parameter is executed: SQLPutData's, or its bound value.
  abbrev pub executed : Parameter → List V → List V
  executed p old =
      if p.is_bound then old else contents_after knows conv null_value noted at false p old

  abbrev pub kept : Parameter → Parameter
  kept p = if p.is_bound then p else parameter_after knows conv null_value noted at p

  abbrev pub executed_each : List Parameter → List (List V) → List (List V)
  executed_each [] olds = []
  executed_each (p ∷ ps) [] = []
  executed_each (p ∷ ps) (old ∷ olds) = executed p old ∷ executed_each ps olds

  abbrev pub IsReady : Parameter → Type 0
  IsReady p = needs_data at p ≡ false

  pub bind_parameter-ready :
      (p : Parameter) (xs : List (List V)) (old : List V) (ys : List (List V)) (b : Bound V)
      → IsInput knows (length xs) p
      → IsReady p
      → b.exec ≡ xs ++ old ∷ ys
      → bind_parameter (partial_conversion knows conv null_value noted) at false (pos 0) (pos 0) p b
        ≡ some (kept p, record b { exec = xs ++ executed p old ∷ ys }, success)
  unfolding bind_parameter
  bind_parameter-ready p xs old ys b h r e = rw r (choice p.is_bound)
    where
      choice :
          (k : Bool)
          → (if k
              then some (p, b, success)
              else bind_value
                  (partial_conversion knows conv null_value noted)
                  at
                  false
                  (pos 0)
                  (pos 0)
                  p
                  b)
            ≡ some (
              if k then p else parameter_after knows conv null_value noted at p,
              record b {
                exec =
                    xs
                    ++ (if k
                        then old
                        else contents_after knows conv null_value noted at false p old)
                      ∷ ys;
              },
              success,
            )
      choice true = ap (λ x. some (p, record b { exec = x }, success)) e
      choice false =
          bind_value-after knows conv null_value noted at (pos 0) (pos 0) false p xs old ys b h e

  pub bind_each-ready :
      (ps : List Parameter) (xs olds : List (List V)) (b : Bound V)
      → length ps ≡ length olds
      → AreInputs knows (length xs) ps
      → All IsReady ps
      → b.exec ≡ xs ++ olds
      → bind_each (partial_conversion knows conv null_value noted) at ps b
        ≡ some (map kept ps, record b { exec = xs ++ executed_each ps olds }, success)
  unfolding bind_each
  bind_each-ready [] xs [] b n h r e = ap (λ x. some ([], record b { exec = x }, success)) e
  bind_each-ready [] xs (old ∷ olds) b n h r e = absurd (omega arith)
  bind_each-ready (p ∷ ps) xs [] b n h r e = absurd (omega arith)
  bind_each-ready (p ∷ ps) xs (old ∷ olds) b n h r e =
      let new = executed p old in
      rw (
        bind_parameter-ready p xs old olds b h.0 r.0 e,
        bind_each-ready ps (xs ++ new ∷ []) olds (record b { exec = xs ++ new ∷ olds })
            (omega arith) (rw (length-snoc xs new) h.1) r.1 (sym (append_assoc xs (new ∷ []) olds)),
        append_assoc xs (new ∷ []) (executed_each ps olds),
      )
