-- ===== src/Prelude/Hosts.antt =====
-- Go's `net.SplitHostPort` and `strconv.Atoi`, and what they make of an address that `fmt.Sprintf`
-- has joined.
use Prim.Native.Nat.{ℕ, zero, suc, ◌+◌, ◌-◌, ◌*◌, ◌/◌, ◌%◌, ◌^◌, ◌<◌}
use mathlib.Core.Path.{◌≡◌, refl}
use mathlib.Core.Bool.{Bool, true, false, not, ◌&&◌, ◌||◌}
use mathlib.Core.Option.{Option, none, some}
use mathlib.Core.List.{[], ◌∷◌, ◌++◌}
use native.Mathlib.Omega.{arith}
use air_bridge5g.Prelude.Tests.{ltb, leb, ◌==◌, if◌then◌else◌}
use air_bridge5g.Prelude.Lists.{length, length-append}
use air_bridge5g.Prelude.Int.{ℤ, pos, negsuc}
use air_bridge5g.Prelude.Map.{Bytes}
use air_bridge5g.Prelude.Format.{decimal}

unfoldable pub has : ℕ → Bytes → Bool
has c [] = false
has c (b ∷ bs) = b == c || has c bs

-- Before and behind the last byte c, and the first.
unfoldable pub split_last : ℕ → Bytes → Option (Bytes × Bytes)
split_last c [] = none
split_last c (b ∷ bs) = elim (split_last c bs) [
  | none ↦ if b == c then some ([], bs) else none
  | some (front, back) ↦ some (b ∷ front, back)
]

unfoldable pub split_first : ℕ → Bytes → Option (Bytes × Bytes)
split_first c [] = none
split_first c (b ∷ bs) =
    let rest = split_first c bs in
    if b == c
    then some ([], bs)
    else elim rest [ none ↦ none | some (front, back) ↦ some (b ∷ front, back) ]

-- Behind the `[` that an address starts with: the host ends at the first `]`, and the port is behind
-- the colon that comes next, which is the last one.
unfoldable pub split_bracketed : Bytes → Option (Bytes × Bytes)
split_bracketed bs = elim (split_first b']' bs) [
  | none ↦ none
  | some (host, []) ↦ none
  | some (host, c ∷ port) ↦
      if c == b':' && not (has b':' port) && not (has b'[' bs) && not (has b']' port)
      then some (host, port)
      else none
]

unfoldable pub split_plain : Bytes → Bytes × Bytes → Option (Bytes × Bytes)
split_plain bs (host, port) =
    if has b':' host || has b'[' bs || has b']' bs then none else some (host, port)

unfoldable pub starts_with_bracket : Bytes → Bool
starts_with_bracket [] = false
starts_with_bracket (b ∷ bs) = b == b'['

unfoldable pub behind : Bytes → Bytes
behind [] = []
behind (b ∷ bs) = bs

unfoldable pub split_host_port : Bytes → Option (Bytes × Bytes)
split_host_port bs = elim (split_last b':' bs) [
  | none ↦ none
  | some (host, port) ↦
      if starts_with_bracket bs then split_bracketed (behind bs) else split_plain bs (host, port)
]

-- The digits of a number behind those that are read.
unfoldable pub digits : ℕ → Bytes → Option ℕ
digits n [] = some n
digits n (b ∷ bs) =
    let rest = digits (n * 10 + (b - 48)) bs in if leb 48 b && leb b 57 then rest else none

unfoldable pub parse_digits : Bytes → Option ℕ
parse_digits [] = none
parse_digits (b ∷ bs) = digits 0 (b ∷ bs)

unfoldable pub to_int64 : Bool → Option ℕ → Option ℤ
to_int64 negative none = none
to_int64 true (some n) =
    if leb n (2 ^ 63) then some (if n == 0 then pos 0 else negsuc (n - 1)) else none
to_int64 false (some n) = if ltb n (2 ^ 63) then some (pos n) else none

unfoldable pub atoi : Bytes → Option ℤ
atoi [] = none
atoi (b ∷ bs) =
    if b == b'-'
    then to_int64 true (parse_digits bs)
    else to_int64 false (parse_digits (if b == b'+' then bs else b ∷ bs))

pub has-append : (c : ℕ) (xs ys : Bytes) → has c (xs ++ ys) ≡ (has c xs || has c ys)
unfolding has
has-append c [] ys = refl
has-append c (x ∷ xs) ys = ground (arith, has-append c xs ys)

split_last-none : (c : ℕ) (bs : Bytes) → has c bs ≡ false → split_last c bs ≡ none
unfolding split_last has
split_last-none c [] h = refl
split_last-none c (b ∷ bs) h = ground (arith, split_last-none c bs)

pub split_last-append :
    (c : ℕ) (front back : Bytes)
    → has c back ≡ false
    → split_last c (front ++ (c ∷ back)) ≡ some (front, back)
unfolding split_last has
split_last-append c [] back h = ground (arith, split_last-none c back h)
split_last-append c (f ∷ front) back h = ground (arith, split_last-append c front back h)

-- A decimal has no byte above those of the digits.
pub has-decimal : (c k n : ℕ) → 57 < c → has c (decimal k n) ≡ false
unfolding decimal has
has-decimal c zero n h = refl
has-decimal c (suc k) n h = ground (
  arith,
  has-decimal c k (n / 10) h,
  has-append c [] ((48 + n % 10) ∷ []),
  has-append c (decimal k (n / 10)) ((48 + n % 10) ∷ []),
)

digits-append :
    (n d : ℕ) (bs : Bytes) (m : ℕ)
    → d < 10
    → digits n bs ≡ some m
    → digits n (bs ++ ((48 + d) ∷ [])) ≡ some (m * 10 + d)
unfolding digits
digits-append n d [] m h e = ground arith
digits-append n d (b ∷ bs) m h e = ground (arith, digits-append (n * 10 + (b - 48)) d bs m h)

abbrev pub pow10 : ℕ → ℕ
pow10 zero = 1
pow10 (suc k) = 10 * pow10 k

pub digits-decimal : (k n : ℕ) → n < pow10 k → digits 0 (decimal k n) ≡ some n
unfolding decimal digits
digits-decimal zero n h = ground arith
digits-decimal (suc k) n h =
    ground
      (arith, digits-decimal k (n / 10), digits-append 0 (n % 10) (decimal k (n / 10)) (n / 10))

pub length-decimal : (k n : ℕ) → 0 < length (decimal (suc k) n)
unfolding decimal
length-decimal k n = ground (
  arith,
  length-append (decimal k (n / 10)) ((48 + n % 10) ∷ []),
  length-append [] ((48 + n % 10) ∷ []),
)
