-- ===== src/Strings/Compare.antt =====
-- strncmp as getTables uses it (src/driver/cpp/StringFunctions.h).
use snappy_odbc.Common.{ℕ, zero, suc, ◌≢◌, List, [], ◌∷◌, some, arith, pos}
use snappy_odbc.Strings.{strncmp}

-- strncmp never answers that two texts are equal, whatever the texts and the count.
pub strncmp-ne-zero : (str1 str2 : List ℕ) (n : ℕ) → strncmp str1 str2 n ≢ some (pos 0)
unfolding strncmp
strncmp-ne-zero str1 str2 zero h = ground arith
strncmp-ne-zero str1 [] (suc n) h = ground arith
strncmp-ne-zero [] (d ∷ ds) (suc n) h = ground arith
strncmp-ne-zero (c ∷ cs) (d ∷ ds) (suc n) h = ground (arith, strncmp-ne-zero cs ds n)
