-- ===== src/Mesh/NatTraversal/Classes.antt =====
-- The NAT types that core/go/internal/mesh/nat_traversal.go comes to.
use air_bridge5g.Prelude.{
  ◌≡◌, refl, ◌≢◌, Bool, true, false, not, ◌||◌, none, some, List, [], ◌∷◌, arith, Bytes,
  if◌then◌else◌,
}
use air_bridge5g.Prelude.Map.{str_eq, str_eq_iff}
use air_bridge5g.Mesh.NatTraversal.{
  nat_unknown, nat_none, nat_full, nat_symmetric, NatTraversalResult, Answer, initial,
  compare_mappings, try_servers, determine_type, discover_public_address,
}

-- Some server has answered, and some server has answered with another address than the first.
abbrev pub answered : List Answer → Bool
answered [] = false
answered (none ∷ answers) = answered answers
answered (some _ ∷ answers) = true

abbrev pub differs : Bytes → List Answer → Bool
differs first [] = false
differs first (none ∷ answers) = differs first answers
differs first (some (addr, _) ∷ answers) = not (str_eq addr first) || differs first answers

compare_mappings-addr :
    (first : Bytes) (answers : List Answer) (r : NatTraversalResult)
    → ((compare_mappings first answers r).public_addr ≡ r.public_addr)
      × ((compare_mappings first answers r).local_addr ≡ r.local_addr)
unfolding compare_mappings
compare_mappings-addr first [] r = (refl, refl)
compare_mappings-addr first (none ∷ answers) r = compare_mappings-addr first answers r
compare_mappings-addr first (some (addr, l) ∷ answers) r =
    let r' =
      if str_eq addr first
      then record r { mapping_stable = true }
      else record r { nat_type = nat_symmetric; mapping_stable = false } in
    ground (arith, compare_mappings-addr first answers r')

compare_mappings-type :
    (first : Bytes) (answers : List Answer) (r : NatTraversalResult)
    → (compare_mappings first answers r).nat_type
      ≡ (if differs first answers then nat_symmetric else r.nat_type)
unfolding compare_mappings
compare_mappings-type first [] r = refl
compare_mappings-type first (none ∷ answers) r = compare_mappings-type first answers r
compare_mappings-type first (some (addr, l) ∷ answers) r =
    let r' =
      if str_eq addr first
      then record r { mapping_stable = true }
      else record r { nat_type = nat_symmetric; mapping_stable = false } in
    ground (arith, compare_mappings-type first answers r')

-- Without an answer that differs, the mapping is stable once there is an answer.
compare_mappings-stable :
    (first : Bytes) (answers : List Answer) (r : NatTraversalResult)
    → differs first answers ≡ false
    → (compare_mappings first answers r).mapping_stable ≡ (r.mapping_stable || answered answers)
unfolding compare_mappings
compare_mappings-stable first [] r h = ground arith
compare_mappings-stable first (none ∷ answers) r h = compare_mappings-stable first answers r h
compare_mappings-stable first (some (addr, l) ∷ answers) r h =
    ground (arith, compare_mappings-stable first answers (record r { mapping_stable = true }))

-- Take answers of which the first is an address other than the empty string. The result is that
-- address and the local one, and the type is symmetric where any later answer differs; where none
-- does, it is no NAT where the two addresses are equal, else full cone where a later server has
-- answered, else unknown.
pub discover-classifies :
    (addr local : Bytes) (answers : List Answer)
    → addr ≢ []
    → (r : NatTraversalResult) × (discover_public_address (some (addr, local) ∷ answers) ≡ some r)
      × (r.public_addr ≡ addr)
      × (r.local_addr ≡ local)
      × (r.nat_type ≡ (
          if differs addr answers
          then nat_symmetric
          else if str_eq addr local
          then nat_none
          else if answered answers
          then nat_full
          else nat_unknown))
unfolding discover_public_address try_servers determine_type
discover-classifies addr local answers h =
    let r0 : NatTraversalResult = record initial { public_addr = addr; local_addr = local } in
    let a = compare_mappings-addr addr answers r0 in
    let t = compare_mappings-type addr answers r0 in
    let s = compare_mappings-stable addr answers r0 in
    (
      determine_type (compare_mappings addr answers r0),
      ground (arith, a, str_eq_iff addr [], h),
      ground (arith, a, t),
      ground (arith, a, t),
      ground (arith, a, t, s),
    )

-- Where the first server fails, the result is the error that no server is reachable, whatever the
-- others have answered.
pub discover-first_fails : (answers : List Answer) → discover_public_address (none ∷ answers) ≡ none
unfolding discover_public_address try_servers str_eq
discover-first_fails answers = ground (arith, compare_mappings-addr [] answers initial)
