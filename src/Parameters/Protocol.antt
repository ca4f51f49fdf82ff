-- ===== src/Parameters/Protocol.antt =====
-- Data at execution: SQLParamData and SQLPutData until the statement is executed
-- (getParamData, putData and execute of src/driver/cpp/SnappyStatement.cpp).
use mathlib.Core.List.{append-nil}
use snappy_odbc.Common.{
  ℕ, zero, suc, ◌+◌, ◌-◌, ◌≤◌, ◌≡◌, refl, ap, ◌∙◌, true, false, Option, none, some, List, [], ◌∷◌,
  ◌++◌, ◌>>=◌, ℤ, length, take, drop, arith, All,
}
use snappy_odbc.Driver.{SqlReturn, success, need_data, Outcome}
use snappy_odbc.Parameters.{Parameter, Conversion, needs_data, resize}
use snappy_odbc.Parameters.Execute.{Stmt, Answer, get_param_data, next_asked, asked, put_data}

module _ {ℓ} {V : Type ℓ} (cv : Conversion V) where
  -- An application's calls of SQLPutData for one parameter; it gives up where one fails.
  unfoldable pub put_all : List (ℤ × ℤ) → Stmt V → Option (Stmt V)
  put_all [] s = some s
  put_all (d ∷ ds) s = do
    put ← put_data cv (some d.0) d.1 s
    elim put.1 [ success ↦ put_all ds put.0 | other ↦ none ]

module _ {ℓ} {V : Type ℓ} (cv : Conversion V) (at : ℤ → ℤ)
    (run : List (List V) → Outcome Answer) where
  -- An application's loop: SQLParamData, and the values of the parameter it asks for, by index.
  unfoldable pub supply_data : ℕ → (ℕ → List (ℤ × ℤ)) → Stmt V → Option (Stmt V × SqlReturn)
  supply_data zero app s = none
  supply_data (suc fuel) app s = do
    asked ← get_param_data cv at run s
    elim asked.1 [
      | need_data ↦ (do put ← put_all cv (app asked.0.current) asked.0; supply_data fuel app put)
      | other ↦ some asked
    ]

pub resize_same {ℓ} :
    {A : Type ℓ} (d : A) (xs : List A) (n : ℕ) → n ≡ length xs → resize d n xs ≡ xs
unfolding resize
resize_same d xs n h = rw (h, take_all xs, sub_self (length xs), append-nil xs)
  where
    take_all : {A : Type ℓ} (ys : List A) → take (length ys) ys ≡ ys
    take_all [] = refl
    take_all (y ∷ ys) = ap (◌∷◌ y) (take_all ys)

    sub_self : (m : ℕ) → m - m ≡ 0
    sub_self m = omega arith

module _ (at : ℤ → ℤ) where
  pub next_asked-none :
      (ps : List Parameter) (i : ℕ)
      → All (λ p. needs_data at p ≡ false) ps
      → next_asked at ps i ≡ none
  unfolding next_asked
  next_asked-none [] i h = refl
  next_asked-none (p ∷ ps) i h = rw (h.0) (next_asked-none ps (suc i) h.1)

  next_asked-found :
      (done todo : List Parameter) (p : Parameter) (i : ℕ)
      → All (λ q. needs_data at q ≡ false) done
      → needs_data at p ≡ true
      → next_asked at (done ++ p ∷ todo) i ≡ some (i + length done, p)
  unfolding next_asked
  next_asked-found [] todo p i h k = rw (k) (ap (λ n. some (n, p)) (omega arith))
  next_asked-found (q ∷ done) todo p i h k =
      rw (h.0) (next_asked-found done todo p (suc i) h.1 k ∙ ap (λ n. some (n, p)) (omega arith))

  -- Skipping some of the parameters that ask for nothing.
  pub next_asked-drop :
      (c : ℕ) (done todo : List Parameter) (p : Parameter) (i : ℕ)
      → c ≤ length done
      → All (λ q. needs_data at q ≡ false) done
      → needs_data at p ≡ true
      → next_asked at (drop c (done ++ p ∷ todo)) i ≡ some (i + (length done - c), p)
  next_asked-drop zero done todo p i l h k =
      next_asked-found done todo p i h k ∙ ap (λ n. some (n, p)) (omega arith)
  next_asked-drop (suc c) [] todo p i l h k = absurd (omega arith)
  next_asked-drop (suc c) (q ∷ done) todo p i l h k =
      next_asked-drop c done todo p i (omega arith) h.1 k ∙ ap (λ n. some (n, p)) (omega arith)

pub All-drop {ℓ κ} :
    {A : Type ℓ} (P : A → Type κ) (n : ℕ) (xs : List A) → All P xs → All P (drop n xs)
All-drop P zero xs h = h
All-drop P (suc n) [] h = tt
All-drop P (suc n) (x ∷ xs) h = All-drop P n xs h.1
