-- ===== src/Prelude/Rounding.antt =====
-- Distances and quotients of the native numbers.
use Prim.Native.Nat.{ℕ, suc, ◌+◌, ◌-◌, ◌*◌, ◌/◌, ◌%◌}
use vi_xauusd.Prelude.Tests.{ltb, if◌then◌else◌}

-- `abs(a - b)`
abbrev pub distance : ℕ → ℕ → ℕ
distance a b = (a - b) + (b - a)

-- `round(n / d)`: a half goes to the even neighbour.
unfoldable pub round_ratio : ℕ → ℕ → ℕ
round_ratio n d =
    let q = n / d in
    let twice = 2 * (n % d) in if ltb twice d then q else if ltb d twice then suc q else q + q % 2
