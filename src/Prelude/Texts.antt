-- ===== src/Prelude/Texts.antt =====
-- Go's `strings.Split`, `strings.TrimSpace` (on ASCII) and `strings.EqualFold` (on ASCII).
use Prim.Native.Nat.{ℕ}
use mathlib.Core.Bool.{Bool, true, ◌&&◌, ◌||◌}
use mathlib.Core.List.{List, [], ◌∷◌}
use air_bridge5g.Prelude.Tests.{leb, ◌==◌, if◌then◌else◌}
use air_bridge5g.Prelude.Map.{Bytes}

-- A byte in front of the first piece.
unfoldable pub push_front : ℕ → List Bytes → List Bytes
push_front b [] = (b ∷ []) ∷ []
push_front b (piece ∷ pieces) = (b ∷ piece) ∷ pieces

unfoldable pub split_on : ℕ → Bytes → List Bytes
split_on sep [] = [] ∷ []
split_on sep (b ∷ bs) =
    let rest = split_on sep bs in if b == sep then [] ∷ rest else push_front b rest

unfoldable pub is_space : ℕ → Bool
is_space b = b == 32 || leb 9 b && leb b 13

unfoldable pub trim_left : Bytes → Bytes
trim_left [] = []
trim_left (b ∷ bs) = let rest = trim_left bs in if is_space b then rest else b ∷ bs

unfoldable pub is_blank : Bytes → Bool
is_blank [] = true
is_blank (b ∷ bs) = is_space b && is_blank bs

unfoldable pub trim_right : Bytes → Bytes
trim_right [] = []
trim_right (b ∷ bs) = let rest = trim_right bs in if is_blank (b ∷ bs) then [] else b ∷ rest

unfoldable pub trim_space : Bytes → Bytes
trim_space bs = trim_right (trim_left bs)
