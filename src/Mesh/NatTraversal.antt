-- ===== src/Mesh/NatTraversal.antt =====
-- core/go/internal/mesh/nat_traversal.go: what the answers of the STUN servers say of the NAT. An
-- answer is the reflexive address and the local address of the socket; `none` is an error.
pub mod Classes
use air_bridge5g.Prelude.{
  Bool, true, false, Option, none, some, List, [], ◌∷◌, Bytes, codes, if◌then◌else◌,
}
use air_bridge5g.Prelude.Map.{str_eq}

pub data NatType : Type 0 where
  nat_unknown nat_none nat_full nat_restricted nat_port_restricted nat_symmetric : NatType

unfoldable pub nat_string : NatType → Bytes
nat_string nat_none = codes "No NAT (Public IP)"
nat_string nat_full = codes "Full Cone NAT"
nat_string nat_restricted = codes "Restricted Cone NAT"
nat_string nat_port_restricted = codes "Port-Restricted Cone NAT"
nat_string nat_symmetric = codes "Symmetric NAT"
nat_string nat_unknown = codes "Unknown"

pub record NatTraversalResult : Type 0 where
  pub nat_type : NatType
  pub public_addr : Bytes
  pub local_addr : Bytes
  pub mapping_stable : Bool

abbrev pub Answer : Type 0
Answer = Option (Bytes × Bytes)

-- `NewSTUNClient`, given the default servers
unfoldable pub new_stun_client : List Bytes → List Bytes → List Bytes
new_stun_client defaults [] = defaults
new_stun_client defaults (s ∷ servers) = s ∷ servers

abbrev pub initial : NatTraversalResult
initial = record {
  nat_type = nat_unknown;
  public_addr = [];
  local_addr = [];
  mapping_stable = false;
}

-- The servers after the first; `first` is `firstAddr`.
unfoldable pub compare_mappings : Bytes → List Answer → NatTraversalResult → NatTraversalResult
compare_mappings first [] r = r
compare_mappings first (none ∷ answers) r = compare_mappings first answers r
compare_mappings first (some (addr, _) ∷ answers) r = compare_mappings first answers (
    if str_eq addr first
    then record r { mapping_stable = true }
    else record r { nat_type = nat_symmetric; mapping_stable = false })

-- The loop over the servers; its first turn is the one with `i == 0`.
unfoldable pub try_servers : List Answer → NatTraversalResult
try_servers [] = initial
try_servers (none ∷ answers) = compare_mappings [] answers initial
try_servers (some (addr, local) ∷ answers) =
    compare_mappings addr answers (record initial { public_addr = addr; local_addr = local })

unfoldable pub determine_type : NatTraversalResult → NatTraversalResult
determine_type r = elim r.nat_type [
  | nat_symmetric ↦ r
  | _ ↦
      if str_eq r.public_addr r.local_addr
      then record r { nat_type = nat_none }
      else if r.mapping_stable
      then record r { nat_type = nat_full }
      else r
]

-- `DiscoverPublicAddress` on the servers' answers; `none` is "all STUN servers unreachable".
unfoldable pub discover_public_address : List Answer → Option NatTraversalResult
discover_public_address answers =
    let r = try_servers answers in if str_eq r.public_addr [] then none else some (determine_type r)
