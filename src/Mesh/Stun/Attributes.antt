-- ===== src/Mesh/Stun/Attributes.antt =====
-- The addresses that core/go/internal/mesh/nat_traversal.go reads from STUN responses.
use air_bridge5g.Prelude.{
  ℕ, zero, suc, ◌+◌, ◌-◌, ◌/◌, ◌%◌, ◌≤◌, ◌<◌, ◌≡◌, refl, ap, ◌∙◌, ◌≢◌, none, [], ◌∷◌, ◌++◌,
  append_assoc, arith, Bytes, length, get_or, take, drop, slice, length-append, length-take,
  take-append,
}
use air_bridge5g.Mesh.Stun.{uint16_at, pad, parse_attributes, parse_address, read_response}

pad-bounds : (n : ℕ) → n ≤ pad n
unfolding pad
pad-bounds n = ground arith

module _ (ip_string : Bytes → Bytes) where
  -- Each attribute takes four bytes at least.
  parse_attributes-ends :
      (fuel : ℕ) (msg : Bytes) (end offset : ℕ)
      → length msg < fuel + offset
      → parse_attributes ip_string (suc fuel) msg end offset ≢ none
  unfolding parse_attributes
  parse_attributes-ends zero msg end offset h = ground arith
  parse_attributes-ends (suc fuel) msg end offset h =
      let next = pad (offset + 4 + uint16_at msg (offset + 2)) in
      ground (
        arith,
        parse_attributes-ends fuel msg end next,
        pad-bounds (offset + 4 + uint16_at msg (offset + 2)),
      )

  -- Whatever bytes a server sends, the loop over its attributes ends with the fuel that it is given.
  pub read_response-ends : (msg : Bytes) → read_response ip_string msg ≢ none
  unfolding read_response parse_address
  read_response-ends msg =
      ground (arith, parse_attributes-ends (length msg) msg (uint16_at msg 2 + 20) 20 (omega arith))

get_or-after :
    (pre ys : Bytes) (i n : ℕ) → n ≡ length pre + i → get_or (pre ++ ys) n 0 ≡ get_or ys i 0
get_or-after [] ys i n h = ap (λ k. get_or ys k 0) (omega arith)
get_or-after (p ∷ pre) ys i zero h = absurd (omega arith)
get_or-after (p ∷ pre) ys i (suc n) h = get_or-after pre ys i n (omega arith)

drop-after : (pre ys : Bytes) (k n : ℕ) → n ≡ length pre + k → drop n (pre ++ ys) ≡ drop k ys
drop-after [] ys k n h = ap (λ i. drop i ys) (omega arith)
drop-after (p ∷ pre) ys k zero h = absurd (omega arith)
drop-after (p ∷ pre) ys k (suc n) h = drop-after pre ys k n (omega arith)

abbrev zeros : Bytes
zeros = 0 ∷ 0 ∷ 0 ∷ []

-- Zeros up to a multiple of four
abbrev pub padding : ℕ → Bytes
padding n = take ((4 - n % 4) % 4) zeros

abbrev pub attribute : ℕ → Bytes → Bytes
attribute t v = t / 256 ∷ t % 256 ∷ length v / 256 ∷ length v % 256 ∷ v ++ padding (length v)

pub pad-attribute :
    (pre v : Bytes) (t : ℕ)
    → length pre % 4 ≡ 0
    → pad (length pre + 4 + length v) ≡ length (pre ++ attribute t v)
unfolding pad
pad-attribute pre v t h = ground (
  arith,
  length-append pre (attribute t v),
  length-append v (padding (length v)),
  length-take ((4 - length v % 4) % 4) zeros,
)

pub aligned : (t : ℕ) (v : Bytes) → length (attribute t v) % 4 ≡ 0
aligned t v =
    omega (arith, length-append v (padding (length v)), length-take ((4 - length v % 4) % 4) zeros)

-- What the loop sees of an attribute behind `pre`.
pub attribute_seen :
    (pre v post : Bytes) (t : ℕ)
    → let msg = pre ++ (attribute t v ++ post) in
      (uint16_at msg (length pre) ≡ t)
      × (uint16_at msg (length pre + 2) ≡ length v)
      × (slice msg (length pre + 4) (length pre + 4 + length v) ≡ v)
      × (length pre + 4 + length v ≤ length msg)
attribute_seen pre v post t =
    let ys = attribute t v ++ post in
    let body = v ++ padding (length v) ++ post in
    let n = length pre in
    let stop : n + 4 + length v - (n + 4) ≡ length v = omega arith in
    (
      omega (
        arith,
        get_or-after pre ys 0 n (omega arith),
        get_or-after pre ys 1 (n + 1) (omega arith),
      ),
      omega (
        arith,
        get_or-after pre ys 2 (n + 2) (omega arith),
        get_or-after pre ys 3 (n + 2 + 1) (omega arith),
      ),
      ap (λ k. take k (drop (n + 4) (pre ++ ys))) stop
          ∙ ap (take (length v)) (drop-after pre ys 4 (n + 4) refl)
          ∙ rw append_assoc (take-append v (padding (length v) ++ post)),
      omega (
        arith,
        length-append pre ys,
        length-append (v ++ padding (length v)) post,
        length-append v (padding (length v)),
      ),
    )
