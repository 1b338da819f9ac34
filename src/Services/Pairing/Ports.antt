-- ===== src/Services/Pairing/Ports.antt =====
-- The ports that core/go/internal/services/daemon.go reads from addresses.
use air_bridge5g.Prelude.{
  ℕ, ◌^◌, ◌≤◌, ◌<◌, ◌≡◌, refl, inl, inr, false, ◌||◌, Option, none, some, [], ◌∷◌, ◌++◌, arith,
  Bytes, Option-cases, length,
}
use air_bridge5g.Prelude.Int.{ℤ, pos, negsuc}
use air_bridge5g.Prelude.Format.{decimal, sprintf_port}
use air_bridge5g.Prelude.Hosts.{
  has, has-append, has-decimal, split_last-append, starts_with_bracket, split_plain,
  split_host_port, digits, digits-decimal, length-decimal, parse_digits, to_int64, atoi,
}
use air_bridge5g.Services.Pairing.{valid_port, extract_port}

atoi-digits :
    (bs : Bytes) (n : ℕ)
    → digits 0 bs ≡ some n
    → 0 < length bs
    → n < 2 ^ 63
    → atoi bs ≡ some (pos n)
unfolding atoi parse_digits to_int64 digits
atoi-digits [] n e l h = absurd (omega arith)
atoi-digits (b ∷ bs) n e l h = ground arith

atoi-decimal : (n : ℕ) → n < 100_000 → atoi (decimal 5 n) ≡ some (pos n)
atoi-decimal n h =
    atoi-digits (decimal 5 n) n (digits-decimal 5 n h) (length-decimal 4 n) (omega arith)

starts_with_bracket-host :
    (host port : Bytes) → has b'[' host ≡ false → starts_with_bracket (host ++ (58 ∷ port)) ≡ false
unfolding starts_with_bracket has
starts_with_bracket-host [] port h = refl
starts_with_bracket-host (b ∷ host) port h = ground arith

split_host_port-sprintf :
    (host port : Bytes)
    → (has b':' host || has b'[' host || has b']' host) ≡ false
    → (has b':' port || has b'[' port || has b']' port) ≡ false
    → split_host_port (host ++ (58 ∷ port)) ≡ some (host, port)
unfolding split_host_port split_plain has
split_host_port-sprintf host port h k = ground (
  arith,
  split_last-append 58 host port,
  starts_with_bracket-host host port,
  has-append 91 host (58 ∷ port),
  has-append 93 host (58 ∷ port),
)

valid_port-bounds : (p : Option ℤ) → (1 ≤ valid_port p) × (valid_port p ≤ 65535)
unfolding valid_port
valid_port-bounds none = omega arith
valid_port-bounds (some (negsuc n)) = omega arith
valid_port-bounds (some (pos n)) = ground arith

extract_port-bounds :
    (address : Bytes) → (1 ≤ extract_port address) × (extract_port address ≤ 65535)
unfolding extract_port
extract_port-bounds address = elim (Option-cases (split_host_port address)) [
  | inl e ↦ ground arith
  | inr (hp, e) ↦ ground (arith, valid_port-bounds (atoi hp.1))
]

-- The port of an address that is printed from a host with no colon and no bracket and a port from 1
-- to 65535 is that port; and the port of whatever text is between 1 and 65535.
pub extract_port-sprintf_port :
    (host address : Bytes) (port : ℕ)
    → (has b':' host || has b'[' host || has b']' host) ≡ false
    → 0 < port
    → port ≤ 65535
    → (extract_port (sprintf_port host port) ≡ port)
      × (1 ≤ extract_port address)
      × (extract_port address ≤ 65535)
unfolding extract_port valid_port
extract_port-sprintf_port host address port h lo hi = (
  ground (
    arith,
    split_host_port-sprintf host (decimal 5 port),
    has-decimal 58 5 port,
    has-decimal 91 5 port,
    has-decimal 93 5 port,
    atoi-decimal port,
  ),
  (extract_port-bounds address).0,
  (extract_port-bounds address).1,
)
