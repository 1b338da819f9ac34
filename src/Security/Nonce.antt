-- ===== src/Security/Nonce.antt =====
-- core/go/internal/hotpath/hotpath.go: the big-endian counter of a nonce, and the comparison of
-- secrets. A byte is a number below 256.
use air_bridge5g.Prelude.{
  ℕ, zero, suc, ◌+◌, ◌*◌, ◌%◌, ◌≤◌, ◌<◌, ◌≡◌, refl, Bool, true, false, not, [], ◌∷◌, arith, Bytes,
  ◌==◌, if◌then◌else◌, length, All,
}
use air_bridge5g.Prelude.Map.{str_eq}
use native.Mathlib.Nat.{mul-le-mul_right}

-- The nonce after the loop that has come down to its front, and whether the loop goes on there.
unfoldable pub increment_from : Bytes → Bytes × Bool
increment_from [] = ([], true)
increment_from (b ∷ bs) =
    let (bs', carry) = increment_from bs in
    let b' = (b + 1) % 256 in if carry then (b' ∷ bs', b' == 0) else (b ∷ bs', false)

-- `IncrementNonce`
unfoldable pub increment_nonce : Bytes → Bytes
unfolding increment_from
increment_nonce nonce = (increment_from nonce).0

-- `ConstantTimeEqual`: the library compares lists of one length byte by byte.
unfoldable pub constant_time_equal : Bytes → Bytes → Bool
constant_time_equal left right =
    if not (length left == length right) then false else str_eq left right

abbrev pub pow256 : ℕ → ℕ
pow256 zero = 1
pow256 (suc k) = 256 * pow256 k

-- The number that a nonce is, its first byte the most significant.
abbrev pub value : Bytes → ℕ
value [] = 0
value (b ∷ bs) = b * pow256 (length bs) + value bs

abbrev pub AreBytes : Bytes → Type 0
AreBytes bs = All (λ (b : ℕ). b < 256) bs

add_one_mul : (b p : ℕ) → (b + 1) * p ≡ b * p + p
add_one_mul b p = omega arith

mul_le : (b c p : ℕ) → b ≤ c → b * p ≤ c * p
mul_le b c p h = mul-le-mul_right p h

value_lt : (bs : Bytes) → AreBytes bs → value bs < pow256 (length bs)
value_lt [] h = omega arith
value_lt (b ∷ bs) h =
    omega (arith, value_lt bs h.1, mul_le b 255 (pow256 (length bs)) (omega arith))

increment_from-value :
    (bs : Bytes)
    → AreBytes bs
    → let (bs', carry) = increment_from bs in
      (length bs' ≡ length bs)
      × (value bs' + (if carry then pow256 (length bs) else 0) ≡ value bs + 1)
      × AreBytes bs'
unfolding increment_from
increment_from-value [] h = (refl, refl, tt)
increment_from-value (b ∷ bs) h =
    let (l, v, a) = increment_from-value bs h.1 in
    (ground (arith, l), ground (arith, l, v, add_one_mul b (pow256 (length bs))), ground (arith, a))

-- Incrementing a nonce of bytes keeps its length and leaves bytes, and as a big-endian number it
-- adds one, or comes back to 0 from the largest number of that length.
pub increment_nonce-value :
    (nonce : Bytes)
    → AreBytes nonce
    → let nonce' = increment_nonce nonce in
      (length nonce' ≡ length nonce)
      × AreBytes nonce'
      × (value nonce' ≡ (if value nonce + 1 == pow256 (length nonce) then 0 else value nonce + 1))
unfolding increment_nonce
increment_nonce-value nonce h =
    let (l, v, a) = increment_from-value nonce h in
    (l, a, ground (arith, l, v, value_lt nonce h, value_lt (increment_from nonce).0 a))
