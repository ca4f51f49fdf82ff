-- ===== src/Parameters/Answered.antt =====
-- What is executed after any number of rounds of SQLParamData and SQLPutData (getParamData, putData
-- and execute of src/driver/cpp/SnappyStatement.cpp).
use snappy_odbc.Common.{ℕ, Bool, List, ◌∷◌, ℤ}
use snappy_odbc.Types.{CType}
use snappy_odbc.Driver.{Outcome}
use snappy_odbc.Parameters.{Piece}
use snappy_odbc.Parameters.Execute.{Answer}

module _ {ℓ} {V : Type ℓ} (knows : CType → Bool) (conv : CType → Bool → Piece → List V → List V)
    (null_value : V) (noted : CType → ℤ → ℤ) (at : ℤ → ℤ) (run : List (List V) → Outcome Answer)
    (first : ℕ → ℤ × ℤ) (rest : ℕ → List (ℤ × ℤ)) where
  abbrev pub supplied : ℕ → List (ℤ × ℤ)
  supplied i = first i ∷ rest i
