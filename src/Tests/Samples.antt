-- ===== src/Tests/Samples.antt =====
-- A generator and a target, with what the theorems ask of them, for the tests.
use air_bridge5g.Prelude.{ℕ, ◌<◌, ◌≡◌, refl, arith, Option, none, some, ◌++◌, Bytes, length}
use air_bridge5g.Prelude.Stream.{Takes}

-- Always draws 0.
abbrev pub draw : ℕ → Unit {0} → Option ℕ × Unit {0}
draw n s = (some 0, s)

pub draw_lt : (n : ℕ) (s : Unit {0}) (v : ℕ) → 0 < n → (draw n s).0 ≡ some v → v < n
draw_lt n s v h e = ground arith

-- Keeps all that is written to it.
abbrev pub sink : Bytes → Bytes → Bytes × ℕ × Option (Unit {0})
sink w p = (w ++ p, length p, none)

abbrev pub content : Bytes → Bytes
content w = w

pub sink-Takes : Takes sink content
sink-Takes = record { all = λ w p. refl; no_error = λ w p. refl; delivered = λ w p. refl }
