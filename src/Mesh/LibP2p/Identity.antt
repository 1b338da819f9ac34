-- ===== src/Mesh/LibP2p/Identity.antt =====
-- The identity of a node, in `NewLibP2PService` of core/go/internal/mesh/libp2p.go. The keys are
-- ed25519's, which is an argument.
use air_bridge5g.Prelude.{
  ℕ, ◌+◌, ◌*◌, ◌/◌, ◌%◌, ◌<◌, ◌≡◌, refl, ap, ◌↔◌, Option, none, some, List, [], ◌∷◌, arith, Bytes,
  ltb, ◌==◌, if◌then◌else◌, length, take, All, length-take,
}
use air_bridge5g.Prelude.Result.{Result, ok, err}
use air_bridge5g.Mesh.LibP2p.{LibP2pService, new_service}

pub data NewError : Type 0 where
  private_key_length generate_node_key : NewError

unfoldable pub hex_digit : ℕ → ℕ
hex_digit n = if ltb n 10 then 48 + n else 87 + n

-- `hex.EncodeToString`
unfoldable pub hex : Bytes → Bytes
hex [] = []
hex (b ∷ bs) = hex_digit (b / 16) ∷ hex_digit (b % 16) ∷ hex bs

unfoldable pub node_id_of : Bytes → Bytes
node_id_of public_key = hex (take 16 public_key)

-- `NewLibP2PService`: `public_of` is the public key of a private one, and `generated` the one that
-- `GenerateKey` makes.
unfoldable pub new_lib_p2p_service :
    (Bytes → Bytes) → Option Bytes → Bytes → List Bytes → Result NewError LibP2pService
new_lib_p2p_service public_of generated private_key listen_addrs =
    if ltb 0 (length private_key)
    then (if length private_key == 64
        then ok (new_service (node_id_of (public_of private_key)) listen_addrs)
        else err private_key_length)
    else elim generated [
      | none ↦ err generate_node_key
      | some public_key ↦ ok (new_service (node_id_of public_key) listen_addrs)
    ]

hex_digit_lem : (m n : ℕ) → m < 16 → n < 16 → hex_digit m ≡ hex_digit n → m ≡ n
unfolding hex_digit
hex_digit_lem m n a b e = ground arith

byte_lem : (a b : ℕ) → a / 16 ≡ b / 16 → a % 16 ≡ b % 16 → a ≡ b
byte_lem a b d r = omega arith

hex_lem :
    (bs cs : Bytes)
    → All (λ (b : ℕ). b < 256) bs
    → All (λ (b : ℕ). b < 256) cs
    → hex bs ≡ hex cs
    → bs ≡ cs
unfolding hex
hex_lem [] [] h k e = refl
hex_lem [] (c ∷ cs) h k e = absurd (ground (arith, e))
hex_lem (b ∷ bs) [] h k e = absurd (ground (arith, e))
hex_lem (b ∷ bs) (c ∷ cs) (hb, h) (hc, k) e =
    let d : b / 16 ≡ c / 16 =
      hex_digit_lem (b / 16) (c / 16) (omega arith) (omega arith) (ground (arith, e)) in
    let r : b % 16 ≡ c % 16 =
      hex_digit_lem (b % 16) (c % 16) (omega arith) (omega arith) (ground (arith, e)) in
    let t : hex bs ≡ hex cs = ground (arith, e) in rw (byte_lem b c d r, hex_lem bs cs h k t) refl

length-hex : (bs : Bytes) → length (hex bs) ≡ 2 * length bs
unfolding hex
length-hex [] = refl
length-hex (b ∷ bs) = omega (arith, length-hex bs)

-- Two nodes have the same identity exactly when their public keys begin with the same 16 bytes, and
-- the identity of a key of 32 bytes has 32 digits.
pub node_id_of_iff :
    (k l : Bytes)
    → All (λ (b : ℕ). b < 256) (take 16 k)
    → All (λ (b : ℕ). b < 256) (take 16 l)
    → length k ≡ 32
    → (node_id_of k ≡ node_id_of l ↔ take 16 k ≡ take 16 l) × (length (node_id_of k) ≡ 32)
unfolding node_id_of
node_id_of_iff k l hk hl e = (
  (hex_lem (take 16 k) (take 16 l) hk hl, λ (p : take 16 k ≡ take 16 l). ap hex p),
  omega (arith, length-hex (take 16 k), length-take 16 k, e),
)
