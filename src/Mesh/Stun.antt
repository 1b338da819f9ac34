-- ===== src/Mesh/Stun.antt =====
-- core/go/internal/mesh/nat_traversal.go: the binding request and what is read from a response.
-- `ip_string` stands for `net.IP.String` on four bytes.
pub mod Attributes
pub mod XorMapped
use air_bridge5g.Prelude.{
  ℕ, zero, suc, ◌+◌, ◌-◌, ◌*◌, ◌%◌, not, Option, none, some, [], ◌∷◌, ◌++◌, Bytes, codes, ltb, ◌==◌,
  if◌then◌else◌, length, get_or, slice,
}
use air_bridge5g.Prelude.Result.{Result, ok, err}
use air_bridge5g.Prelude.Format.{sprintf_port}
use air_bridge5g.Prelude.Xor.{xor}

abbrev pub stun_binding_response : ℕ
stun_binding_response = 0x0101

abbrev pub stun_attr_mapped_address : ℕ
stun_attr_mapped_address = 0x0001

abbrev pub stun_attr_xor_mapped_address : ℕ
stun_attr_xor_mapped_address = 0x0020

-- The bytes of `stunMagicCookie`
abbrev pub magic_cookie : Bytes
magic_cookie = 0x21 ∷ 0x12 ∷ 0xA4 ∷ 0x42 ∷ []

pub data StunError : Type 0 where
  response_too_short message_too_short length_mismatch no_mapped_address : StunError
  xor_mapped_too_short mapped_too_short : StunError
  unexpected_type unsupported_family : ℕ → StunError

-- `msg` of `sendBindingRequest`
unfoldable pub binding_request : Bytes
binding_request = 0 ∷ 1 ∷ 0 ∷ 0 ∷ magic_cookie ++ codes "airbridge5gx"

-- `binary.BigEndian.Uint16(msg[i:i+2])`
abbrev pub uint16_at : Bytes → ℕ → ℕ
uint16_at msg i = get_or msg i 0 * 256 + get_or msg (i + 1) 0

unfoldable pub pad : ℕ → ℕ
pad offset = if offset % 4 == 0 then offset else offset + (4 - offset % 4)

module _ (ip_string : Bytes → Bytes) where
  unfoldable pub parse_xor_mapped_address : Bytes → Bytes → Result StunError Bytes
  parse_xor_mapped_address attr cookie =
      if ltb (length attr) 8
      then err xor_mapped_too_short
      else if get_or attr 1 0 == 1
      then ok (
          sprintf_port
            (ip_string (
              xor 8 (get_or attr 4 0) (get_or cookie 0 0)
              ∷ xor 8 (get_or attr 5 0) (get_or cookie 1 0)
              ∷ xor 8 (get_or attr 6 0) (get_or cookie 2 0)
              ∷ xor 8 (get_or attr 7 0) (get_or cookie 3 0)
              ∷ []))
            (xor 16 (uint16_at attr 2) 0x2112))
      else err (unsupported_family (get_or attr 1 0))

  unfoldable pub parse_mapped_address : Bytes → Result StunError Bytes
  parse_mapped_address attr =
      if ltb (length attr) 8
      then err mapped_too_short
      else if get_or attr 1 0 == 1
      then ok (sprintf_port (ip_string (slice attr 4 8)) (uint16_at attr 2))
      else err (unsupported_family (get_or attr 1 0))

  -- The loop over the attributes up to `end`; `none` means that the fuel ran out.
  unfoldable pub parse_attributes : ℕ → Bytes → ℕ → ℕ → Option (Result StunError Bytes)
  parse_attributes zero msg end offset = none
  parse_attributes (suc fuel) msg end offset =
      let rest = parse_attributes fuel msg end (pad (offset + 4 + uint16_at msg (offset + 2))) in
      if not (ltb offset end)
      then some (err no_mapped_address)
      else if ltb (length msg) (offset + 4)
      then some (err no_mapped_address)
      else (let stop = offset + 4 + uint16_at msg (offset + 2) in
          let attr = slice msg (offset + 4) stop in
          if ltb (length msg) stop
          then some (err no_mapped_address)
          else if uint16_at msg offset == stun_attr_xor_mapped_address
          then some (parse_xor_mapped_address attr (slice msg 4 8))
          else if uint16_at msg offset == stun_attr_mapped_address
          then some (parse_mapped_address attr)
          else rest)

  unfoldable pub parse_address : Bytes → Option (Result StunError Bytes)
  parse_address msg =
      if ltb (length msg) 20
      then some (err message_too_short)
      else if ltb (length msg) (uint16_at msg 2 + 20)
      then some (err length_mismatch)
      else parse_attributes (suc (length msg)) msg (uint16_at msg 2 + 20) 20

  -- What `sendBindingRequest` makes of the bytes that it has read.
  unfoldable pub read_response : Bytes → Option (Result StunError Bytes)
  read_response msg =
      if ltb (length msg) 20
      then some (err response_too_short)
      else if not (uint16_at msg 0 == stun_binding_response)
      then some (err (unexpected_type (uint16_at msg 0)))
      else parse_address msg
