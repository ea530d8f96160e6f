-- ===== src/Base/Decimal.antt =====
-- Numbers in decimal, as the source's string interpolation writes them.
use Prim.Native.Nat.{ℕ, zero, suc, ◌+◌, ◌/◌, ◌%◌}
use mathlib.Core.List.{List, [], ◌∷◌, ◌++◌}
use end_to_end_kubernetes_ch.Base.Tests.{ltb, if◌then◌else◌}

-- A number in decimal; one more digit than its value is enough.
unfoldable pub decimal_from : ℕ → ℕ → List ℕ
decimal_from zero n = []
decimal_from (suc fuel) n =
    let front = decimal_from fuel (n / 10) in
    if ltb n 10 then (b'0' + n) ∷ [] else front ++ (b'0' + n % 10) ∷ []

abbrev pub decimal : ℕ → List ℕ
decimal n = decimal_from (suc n) n
