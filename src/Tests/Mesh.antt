-- ===== src/Tests/Mesh.antt =====
-- Concrete inputs of core/go/internal/mesh/nat_traversal.go.
use air_bridge5g.Prelude.{ℕ, ◌≡◌, refl, some, List, [], ◌∷◌, ◌++◌, arith, Bytes, codes}
use air_bridge5g.Prelude.Result.{ok}
use air_bridge5g.Prelude.Format.{sprintf_port, decimal}
use air_bridge5g.Mesh.Stun.{read_response, stun_attr_xor_mapped_address}
use air_bridge5g.Mesh.Stun.Attributes.{attribute}
use air_bridge5g.Mesh.Stun.XorMapped.{response, attributes, xor_mapped, read_response-xor_mapped}

-- An address in dotted decimal
abbrev dotted : Bytes → Bytes
dotted [] = []
dotted (b ∷ []) = decimal 3 b
dotted (b ∷ bs) = decimal 3 b ++ 46 ∷ dotted bs

abbrev txid : Bytes
txid = codes "airbridge5gx"

-- A SOFTWARE attribute of three bytes
abbrev others : List (ℕ × Bytes)
others = (0x8022, 1 ∷ 2 ∷ 3 ∷ []) ∷ []

abbrev body : Bytes
body =
    attributes others
    ++ (attribute stun_attr_xor_mapped_address (xor_mapped (10 ∷ 0 ∷ 0 ∷ 7 ∷ []) 4433) ++ [])

read_response-xor_mapped_example :
    read_response dotted (response txid body)
    ≡ some (ok (sprintf_port (dotted (10 ∷ 0 ∷ 0 ∷ 7 ∷ [])) 4433))
read_response-xor_mapped_example =
    read_response-xor_mapped dotted txid body [] others 10 0 0 7 4433 (omega arith)
      (((omega arith, omega arith)), tt) refl (omega arith) (omega arith) (omega arith)
      (omega arith) (omega arith) (omega arith)
