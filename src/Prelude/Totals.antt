-- ===== src/Prelude/Totals.antt =====
-- Counts in lists of numbers, and weights summed over a map.
use Prim.Native.Nat.{ℕ, ◌+◌}
use mathlib.Core.Path.{◌≡◌, refl}
use mathlib.Core.Option.{Option, none, some}
use mathlib.Core.List.{List, [], ◌∷◌, ◌++◌}
use native.Mathlib.Omega.{arith}
use air_bridge5g.Prelude.Tests.{◌==◌, if◌then◌else◌}
use air_bridge5g.Prelude.Map.{Bytes, str_eq_iff, lookup, insert, erase, lookup-insert, lookup-erase}

abbrev pub count : ℕ → List ℕ → ℕ
count n [] = 0
count n (m ∷ ms) = (if n == m then 1 else 0) + count n ms

pub count-append : (n : ℕ) (xs ys : List ℕ) → count n (xs ++ ys) ≡ count n xs + count n ys
count-append n [] ys = omega arith
count-append n (x ∷ xs) ys = omega (arith, count-append n xs ys)

abbrev pub count_option : ℕ → Option ℕ → ℕ
count_option n none = 0
count_option n (some m) = if n == m then 1 else 0

module _ {ℓ} {V : Type ℓ} where
  -- The keys of a Go map are distinct.
  abbrev pub IsMap : List (Bytes × V) → Type ℓ
  IsMap [] = Unit
  IsMap ((k, v) ∷ m) = (lookup k m ≡ none) × IsMap m

  abbrev pub total : (V → ℕ) → List (Bytes × V) → ℕ
  total w [] = 0
  total w ((k, v) ∷ m) = w v + total w m

  abbrev pub weight : (V → ℕ) → Option V → ℕ
  weight w none = 0
  weight w (some v) = w v

  pub total-insert :
      (w : V → ℕ) (k : Bytes) (v : V) (m : List (Bytes × V))
      → total w (insert k v m) + weight w (lookup k m) ≡ total w m + w v
  unfolding insert lookup
  total-insert w k v [] = ground arith
  total-insert w k v ((j, u) ∷ m) = ground (arith, total-insert w k v m)

  pub erase-none : (k : Bytes) (m : List (Bytes × V)) → lookup k m ≡ none → erase k m ≡ m
  unfolding erase lookup
  erase-none k [] h = refl
  erase-none k ((j, u) ∷ m) h = ground (arith, erase-none k m)

  pub total-erase :
      (w : V → ℕ) (k : Bytes) (m : List (Bytes × V))
      → IsMap m
      → total w (erase k m) + weight w (lookup k m) ≡ total w m
  unfolding erase lookup
  total-erase w k [] h = refl
  total-erase w k ((j, u) ∷ m) h =
      ground (arith, total-erase w k m h.1, erase-none k m, str_eq_iff j k)

  pub insert-IsMap : (k : Bytes) (v : V) (m : List (Bytes × V)) → IsMap m → IsMap (insert k v m)
  unfolding insert lookup
  insert-IsMap k v [] h = ground arith
  insert-IsMap k v ((j, u) ∷ m) h =
      ground (arith, insert-IsMap k v m h.1, str_eq_iff j k, lookup-insert k j v m, str_eq_iff k j)

  pub erase-IsMap : (k : Bytes) (m : List (Bytes × V)) → IsMap m → IsMap (erase k m)
  unfolding erase
  erase-IsMap k [] h = h
  erase-IsMap k ((j, u) ∷ m) h = ground (arith, erase-IsMap k m h.1, lookup-erase k j m)
