-- ===== src/Lifecycle/Faults.antt =====
-- The null dereferences of handleWarnings (src/driver/cpp/SnappyStatement.h) in the calls of
-- SnappyStatement.cpp.
use snappy_odbc.Common.{◌≡◌, refl, Bool, not, true, false, Option, none, some, is_some, ◌||◌, ◌&&◌}
use snappy_odbc.Driver.{returned}
use snappy_odbc.Lifecycle.{Life, Native, Run}
use snappy_odbc.Lifecycle.Histories.{Call, prepares, asks_more, is_initialized}

-- Next results that are open and have warnings.
abbrev pub reads_next : Native → Bool → Bool
reads_next n is_open = is_some n.object && is_open && n.has_warnings

-- The calls whose handleWarnings reads the warnings of m_result that may be missing.
unfoldable pub reads_result : Call → Life → Bool
reads_result (prepares (returned n) w) s = not (is_some n.object) || n.has_warnings
reads_result (asks_more (returned n) i is_open w) s =
    (is_some s.pstmt || is_some s.result_set) && (is_initialized i && reads_next n is_open)
reads_result _ s = false

-- A call or a run that does not fault.
abbrev Ends {ℓ} : {A : Type ℓ} → Option (Life × A) → Type 0
Ends m = is_some m ≡ true

-- A run that does not fault and leaves m_result there.
abbrev HasResult {ℓ} : {A : Type ℓ} → Run A → Type 0
HasResult none = false ≡ true
HasResult (some r) = r.0.result ≡ true

HasResult-Ends {ℓ} : {A : Type ℓ} (m : Run A) → HasResult m → Ends m
HasResult-Ends none h = h
HasResult-Ends (some r) h = refl
