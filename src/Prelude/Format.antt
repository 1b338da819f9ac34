-- ===== src/Prelude/Format.antt =====
-- Go's formatted text.
use Prim.Native.Nat.{ℕ, zero, suc, ◌+◌, ◌/◌, ◌%◌}
use mathlib.Core.List.{[], ◌∷◌, ◌++◌}
use air_bridge5g.Prelude.Tests.{ltb, if◌then◌else◌}
use air_bridge5g.Prelude.Map.{Bytes}

-- `fmt.Sprintf("%d", n)` of a number with at most so many digits
unfoldable pub decimal : ℕ → ℕ → Bytes
decimal zero n = []
decimal (suc digits) n =
    let front = decimal digits (n / 10) in (if ltb n 10 then [] else front) ++ (48 + n % 10) ∷ []

-- `fmt.Sprintf("%s:%d", host, port)`
abbrev pub sprintf_port : Bytes → ℕ → Bytes
sprintf_port host port = host ++ 58 ∷ decimal 5 port
