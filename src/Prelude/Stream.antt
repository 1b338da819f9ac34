-- ===== src/Prelude/Stream.antt =====
-- Go's connections: `io.ReadFull` on the bytes that have come in, and targets that take each write.
use Prim.Native.Nat.{ℕ}
use mathlib.Core.Path.{◌≡◌}
use mathlib.Core.Option.{Option, none, some}
use mathlib.Core.List.{◌++◌}
use native.Mathlib.Omega.{arith}
use air_bridge5g.Prelude.Tests.{leb, if◌then◌else◌}
use air_bridge5g.Prelude.Lists.{
  length, take, drop, take-append, drop-append, length-append, length-take, take-append-drop,
}
use air_bridge5g.Prelude.Map.{Bytes}

-- The next `n` bytes and those after them; `none` is the error of a connection that ends before.
unfoldable pub read_full : ℕ → Bytes → Option (Bytes × Bytes)
read_full n input = if leb n (length input) then some (take n input, drop n input) else none

pub read_full-append : (xs ys : Bytes) → read_full (length xs) (xs ++ ys) ≡ some (xs, ys)
unfolding read_full
read_full-append xs ys = ground (arith, length-append xs ys, take-append xs ys, drop-append xs ys)

pub read_full-some :
    (n : ℕ) (input : Bytes) {buf rest : Bytes}
    → read_full n input ≡ some (buf, rest)
    → (length buf ≡ n) × (input ≡ buf ++ rest)
unfolding read_full
read_full-some n input h = ground (arith, length-take n input, take-append-drop n input)

-- A target that takes every write whole: `sent` is what it has received.
pub record Takes {W E : Type 0} (write : W → Bytes → W × ℕ × Option E) (sent : W → Bytes)
    : Type 0 where
  pub all : (w : W) (p : Bytes) → (write w p).1 ≡ length p
  pub no_error : (w : W) (p : Bytes) → (write w p).2 ≡ none
  pub delivered : (w : W) (p : Bytes) → sent (write w p).0 ≡ sent w ++ p
