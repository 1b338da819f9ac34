-- ===== src/Mesh/Stun/XorMapped.antt =====
-- The XOR-MAPPED-ADDRESS of a STUN response in core/go/internal/mesh/nat_traversal.go.
use air_bridge5g.Prelude.{
  ℕ, zero, suc, ◌+◌, ◌*◌, ◌/◌, ◌%◌, ◌^◌, ◌≤◌, ◌<◌, ◌≡◌, refl, sym, ap, ◌∙◌, subst, ◌≢◌, some, List,
  [], ◌∷◌, ◌++◌, append_assoc, arith, Bytes, length, get_or, slice, All, length-append,
}
use air_bridge5g.Prelude.Result.{ok}
use air_bridge5g.Prelude.Format.{sprintf_port}
use air_bridge5g.Prelude.Xor.{xor, xor-xor, low_byte, low_word}
use air_bridge5g.Mesh.Stun.{
  magic_cookie, parse_xor_mapped_address, parse_attributes, parse_address, read_response,
  stun_attr_xor_mapped_address, stun_attr_mapped_address,
}
use air_bridge5g.Mesh.Stun.Attributes.{attribute, pad-attribute, attribute_seen, aligned}

-- An attribute that carries no address.
abbrev pub IsOther : ℕ × Bytes → Type 0
IsOther (t, v) = (t ≢ stun_attr_xor_mapped_address) × (t ≢ stun_attr_mapped_address)

abbrev pub attributes : List (ℕ × Bytes) → Bytes
attributes [] = []
attributes ((t, v) ∷ others) = attribute t v ++ attributes others

-- The value of an XOR-MAPPED-ADDRESS with an IPv4 address
abbrev pub xor_mapped : Bytes → ℕ → Bytes
xor_mapped ip port =
    let p = xor 16 port 0x2112 in
    0
    ∷ 1
    ∷ p / 256
    ∷ p % 256
    ∷ xor 8 (get_or ip 0 0) 0x21
    ∷ xor 8 (get_or ip 1 0) 0x12
    ∷ xor 8 (get_or ip 2 0) 0xA4
    ∷ xor 8 (get_or ip 3 0) 0x42
    ∷ []

-- A binding response with the length of its attributes
abbrev pub response : Bytes → Bytes → Bytes
response txid body =
    1 ∷ 1 ∷ length body / 256 ∷ length body % 256 ∷ 0x21 ∷ 0x12 ∷ 0xA4 ∷ 0x42 ∷ txid ++ body

length-others : (others : List (ℕ × Bytes)) → length others ≤ length (attributes others)
length-others [] = omega arith
length-others ((t, v) ∷ others) =
    omega (arith, length-others others, length-append (attribute t v) (attributes others))

module _ (ip_string : Bytes → Bytes) where
  parse_xor-xor_mapped :
      (a b c d port : ℕ)
      → a < 256
      → b < 256
      → c < 256
      → d < 256
      → port < 2 ^ 16
      → parse_xor_mapped_address ip_string (xor_mapped (a ∷ b ∷ c ∷ d ∷ []) port) magic_cookie
        ≡ ok (sprintf_port (ip_string (a ∷ b ∷ c ∷ d ∷ [])) port)
  unfolding parse_xor_mapped_address
  parse_xor-xor_mapped a b c d port ha hb hc hd hp =
      let p = xor 16 port 0x2112 in
      let whole : p / 256 * 256 + p % 256 ≡ p = omega arith in
      rw
        (
          whole,
          xor-xor 16 port 0x2112,
          xor-xor 8 a 0x21,
          xor-xor 8 b 0x12,
          xor-xor 8 c 0xA4,
          xor-xor 8 d 0x42,
          low_word port (omega arith),
          low_byte a ha,
          low_byte b hb,
          low_byte c hc,
          low_byte d hd,
        )
        refl

  skip_attribute :
      (fuel end : ℕ) (pre v post : Bytes) (t : ℕ)
      → IsOther (t, v)
      → length pre % 4 ≡ 0
      → length pre < end
      → parse_attributes ip_string (suc fuel) (pre ++ (attribute t v ++ post)) end (length pre)
        ≡ parse_attributes ip_string fuel
            (pre ++ (attribute t v ++ post))
            end
            (length (pre ++ attribute t v))
  unfolding parse_attributes
  skip_attribute fuel end pre v post t (x, y) h k =
      ground (arith, attribute_seen pre v post t, pad-attribute pre v t h)

  take_attribute :
      (fuel end : ℕ) (pre v post : Bytes)
      → length pre < end
      → parse_attributes ip_string
          (suc fuel)
          (pre ++ (attribute stun_attr_xor_mapped_address v ++ post))
          end
          (length pre)
        ≡ some (
            parse_xor_mapped_address ip_string v
              (slice (pre ++ (attribute stun_attr_xor_mapped_address v ++ post)) 4 8))
  unfolding parse_attributes
  take_attribute fuel end pre v post k =
      ground (arith, attribute_seen pre v post stun_attr_xor_mapped_address)

  find_address :
      (fuel end : ℕ) (pre : Bytes) (others : List (ℕ × Bytes)) (v tail msg : Bytes)
      → msg ≡ pre ++ (attributes others ++ (attribute stun_attr_xor_mapped_address v ++ tail))
      → length others < fuel
      → All IsOther others
      → length pre % 4 ≡ 0
      → length pre + length (attributes others) < end
      → parse_attributes ip_string fuel msg end (length pre)
        ≡ some (parse_xor_mapped_address ip_string v (slice msg 4 8))
  find_address zero end pre others v tail msg e f o h k = absurd (omega arith)
  find_address (suc fuel) end pre [] v tail msg e f o h k =
      subst
        (λ m.
          parse_attributes ip_string (suc fuel) m end (length pre)
          ≡ some (parse_xor_mapped_address ip_string v (slice m 4 8)))
        (sym e) (take_attribute fuel end pre v tail (omega arith))
  find_address (suc fuel) end pre ((t, w) ∷ others) v tail msg e f (o, os) h k =
      let post = attributes others ++ (attribute stun_attr_xor_mapped_address v ++ tail) in
      let e1 : msg ≡ pre ++ (attribute t w ++ post) =
        e
        ∙ ap (λ l. pre ++ l)
            (append_assoc (attribute t w) (attributes others)
              (attribute stun_attr_xor_mapped_address v ++ tail)) in
      let grown = length-append pre (attribute t w) in
      let split = length-append (attribute t w) (attributes others) in
      subst
        (λ m.
          parse_attributes ip_string (suc fuel) m end (length pre)
          ≡ parse_attributes ip_string fuel m end (length (pre ++ attribute t w)))
        (sym e1) (skip_attribute fuel end pre w post t o h (omega arith))
      ∙ find_address fuel end (pre ++ attribute t w) others v tail msg
          (e1 ∙ sym (append_assoc pre (attribute t w) post)) (omega arith) os
          (omega (arith, grown, h, aligned t w)) (omega (arith, grown, split))

  -- A response with these attributes is read as its XOR-MAPPED-ADDRESS.
  read_response-attribute :
      (txid v body tail : Bytes) (others : List (ℕ × Bytes))
      → length txid ≡ 12
      → All IsOther others
      → body ≡ attributes others ++ (attribute stun_attr_xor_mapped_address v ++ tail)
      → length body < 2 ^ 16
      → read_response ip_string (response txid body)
        ≡ some (parse_xor_mapped_address ip_string v magic_cookie)
  unfolding read_response parse_address
  read_response-attribute txid v body tail others lt o e lb =
      let pre : Bytes =
        1 ∷ 1 ∷ length body / 256 ∷ length body % 256 ∷ 0x21 ∷ 0x12 ∷ 0xA4 ∷ 0x42 ∷ txid in
      let n : length body / 256 * 256 + length body % 256 ≡ length body = omega arith in
      let whole : length (response txid body) ≡ 20 + length body =
        omega (arith, length-append txid body) in
      let found =
        find_address (suc (length (response txid body))) (length body + 20) pre others v tail
          (response txid body) (ap (λ l. pre ++ l) e)
          (omega (
            arith,
            whole,
            ap length e,
            length-others others,
            length-append (attributes others) (attribute stun_attr_xor_mapped_address v ++ tail),
          ))
          o (omega arith)
          (omega (
            arith,
            ap length e,
            length-append (attributes others) (attribute stun_attr_xor_mapped_address v ++ tail),
          )) in
      let start : length pre ≡ 20 = omega arith in ground (arith, n, whole, start, found)

  -- Take a response of the right type, length and cookie, whose attributes are any that carry no
  -- address, then an XOR-MAPPED-ADDRESS with an IPv4 address and a port by RFC 5389, then any bytes.
  -- It is read as that address, a colon and that port in decimal.
  pub read_response-xor_mapped :
      (txid body tail : Bytes) (others : List (ℕ × Bytes)) (a b c d port : ℕ)
      → length txid ≡ 12
      → All IsOther others
      → body
        ≡ attributes others
          ++ (attribute stun_attr_xor_mapped_address (xor_mapped (a ∷ b ∷ c ∷ d ∷ []) port) ++ tail)
      → length body < 2 ^ 16
      → a < 256
      → b < 256
      → c < 256
      → d < 256
      → port < 2 ^ 16
      → read_response ip_string (response txid body)
        ≡ some (ok (sprintf_port (ip_string (a ∷ b ∷ c ∷ d ∷ [])) port))
  read_response-xor_mapped txid body tail others a b c d port lt o e lb ha hb hc hd hp =
      read_response-attribute txid (xor_mapped (a ∷ b ∷ c ∷ d ∷ []) port) body tail others lt o e lb
      ∙ ap some (parse_xor-xor_mapped a b c d port ha hb hc hd hp)
