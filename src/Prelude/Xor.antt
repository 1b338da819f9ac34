-- ===== src/Prelude/Xor.antt =====
-- Go's `^` on unsigned numbers of a width.
use Prim.Native.Nat.{ℕ, zero, suc, ◌+◌, ◌*◌, ◌/◌, ◌%◌, ◌<◌}
use mathlib.Core.Path.{◌≡◌, refl, ap, ◌∙◌}
use native.Mathlib.Omega.{arith}

abbrev pub xor : ℕ → ℕ → ℕ → ℕ
xor zero a b = 0
xor (suc width) a b = xor width (a / 2) (b / 2) * 2 + (a + b) % 2

-- The lowest digits of a number
abbrev pub low : ℕ → ℕ → ℕ
low zero a = 0
low (suc width) a = low width (a / 2) * 2 + a % 2

pub xor-xor : (width a b : ℕ) → xor width (xor width a b) b ≡ low width a
xor-xor zero a b = refl
xor-xor (suc width) a b =
    let x = xor width (a / 2) (b / 2) in
    let half : (x * 2 + (a + b) % 2) / 2 ≡ x = omega arith in
    ap (λ h. xor width h (b / 2) * 2 + (x * 2 + (a + b) % 2 + b) % 2) half
    ∙ omega (arith, xor-xor width (a / 2) (b / 2))

pub low_byte : (a : ℕ) → a < 256 → low 8 a ≡ a
low_byte a h = omega arith

pub low_word : (a : ℕ) → a < 65536 → low 16 a ≡ a
low_word a h = omega arith
