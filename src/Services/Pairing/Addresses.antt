-- ===== src/Services/Pairing/Addresses.antt =====
-- The addresses in the credentials of core/go/internal/services/daemon.go.
use air_bridge5g.Prelude.{
  ℕ, ◌<◌, ◌≡◌, refl, inl, inr, Bool, true, false, not, ◌&&◌, Option, none, some, List, [], ◌∷◌,
  ◌++◌, arith, Bytes, codes, ◌==◌, if◌then◌else◌, Bool-cases, length, All, length-append,
  All-append,
}
use air_bridge5g.Prelude.Format.{decimal}
use air_bridge5g.Prelude.Hosts.{length-decimal}
use air_bridge5g.Privacy.UserAgent.{to_lower, contains, contains_any}
use air_bridge5g.Services.Pairing.{
  InterfaceAddr, ipv4, other_addr, Interface, loopback_ip, ip_string, is_virtual, is_preferred,
  is_skipped, addrs_of, scan_addrs, scan_interfaces, choose_ip, detect_local_ip,
}

-- Whether a name contains one of some texts, in capitals or not.
unfoldable pub mentions : List Bytes → Bytes → Bool
mentions [] name = false
mentions (word ∷ words) name =
    let rest = mentions words name in if contains word (to_lower name) then true else rest

abbrev pub words_of_virtual : List Bytes
words_of_virtual =
    codes "docker"
    ∷ codes "vbox"
    ∷ codes "veth"
    ∷ codes "wsl"
    ∷ codes "br-"
    ∷ codes "tun"
    ∷ codes "tap"
    ∷ codes "vnic"
    ∷ codes "vmnet"
    ∷ []

abbrev pub words_of_preferred : List Bytes
words_of_preferred = codes "wlan" ∷ codes "wifi" ∷ codes "eth" ∷ codes "en" ∷ []

-- An interface that is up, no loopback and not virtual.
abbrev pub is_usable : Interface → Bool
is_usable iface = iface.is_up && not iface.is_loopback && not (mentions words_of_virtual iface.name)

-- Its addresses, where the host gives them.
abbrev pub usable_addrs : Interface → List InterfaceAddr
usable_addrs iface =
    if is_usable iface then elim iface.addrs [ none ↦ [] | some addrs ↦ addrs ] else []

-- The IPv4 addresses that are looked at, in their order, with whether the interface is preferred.
unfoldable pub candidates_of : Bytes → List InterfaceAddr → List (Bool × Bytes)
candidates_of name [] = []
candidates_of name (other_addr ∷ addrs) = candidates_of name addrs
candidates_of name (ipv4 loops a b c d ∷ addrs) =
    let rest = candidates_of name addrs in
    if loops then rest else (mentions words_of_preferred name, ip_string a b c d) ∷ rest

unfoldable pub candidates : List Interface → List (Bool × Bytes)
candidates [] = []
candidates (iface ∷ ifaces) = candidates_of iface.name (usable_addrs iface) ++ candidates ifaces

mentions-contains_any :
    (words : List Bytes) (name : Bytes) → contains_any words (to_lower name) ≡ mentions words name
unfolding mentions contains_any
mentions-contains_any [] name = refl
mentions-contains_any (word ∷ words) name = ground (arith, mentions-contains_any words name)

is_preferred_lem : (name : Bytes) → is_preferred name ≡ mentions words_of_preferred name
unfolding is_preferred
is_preferred_lem name = mentions-contains_any words_of_preferred name

addrs_of_lem : (iface : Interface) → addrs_of iface ≡ usable_addrs iface
unfolding addrs_of is_skipped is_virtual
addrs_of_lem iface = ground (arith, mentions-contains_any words_of_virtual iface.name)

unfoldable pub first_preferred : List (Bool × Bytes) → Option Bytes
first_preferred [] = none
first_preferred ((preferred, ip) ∷ cs) = if preferred then some ip else first_preferred cs

unfoldable pub first_ip : List (Bool × Bytes) → Bytes
first_ip [] = loopback_ip
first_ip ((preferred, ip) ∷ cs) = ip

unfoldable pub pick : List (Bool × Bytes) → Bytes
pick cs = elim (first_preferred cs) [ some ip ↦ ip | none ↦ first_ip cs ]

-- The loops on the candidates in place of the interfaces.
unfoldable walk : List (Bool × Bytes) → Bytes → Option Bytes × Bytes
walk [] fallback = (none, fallback)
walk ((preferred, ip) ∷ cs) fallback =
    let rest = walk cs (if length fallback == 0 then ip else fallback) in
    if preferred then (some ip, fallback) else rest

scan_addrs-walk :
    (name : Bytes) (addrs : List InterfaceAddr) (fallback : Bytes)
    → scan_addrs name addrs fallback ≡ walk (candidates_of name addrs) fallback
unfolding scan_addrs walk candidates_of
scan_addrs-walk name [] fallback = refl
scan_addrs-walk name (other_addr ∷ addrs) fallback = scan_addrs-walk name addrs fallback
scan_addrs-walk name (ipv4 true a b c d ∷ addrs) fallback = scan_addrs-walk name addrs fallback
scan_addrs-walk name (ipv4 false a b c d ∷ addrs) fallback = elim (Bool-cases (is_preferred name)) [
  | inl e ↦ rw (← is_preferred_lem name, e) refl
  | inr e ↦
      rw (← is_preferred_lem name, e)
        (scan_addrs-walk name addrs (if length fallback == 0 then ip_string a b c d else fallback))
]

walk-append :
    (xs ys : List (Bool × Bytes)) (fallback : Bytes)
    → let (found, fallback') = walk xs fallback in
      walk (xs ++ ys) fallback
      ≡ elim found [ some ip ↦ (some ip, fallback') | none ↦ walk ys fallback' ]
unfolding walk
walk-append [] ys fallback = refl
walk-append ((true, ip) ∷ xs) ys fallback = refl
walk-append ((false, ip) ∷ xs) ys fallback =
    walk-append xs ys (if length fallback == 0 then ip else fallback)

scan_interfaces-walk :
    (ifaces : List Interface) (fallback : Bytes)
    → scan_interfaces ifaces fallback ≡ walk (candidates ifaces) fallback
unfolding scan_interfaces candidates
scan_interfaces-walk [] fallback = (unfold walk in refl)
scan_interfaces-walk (iface ∷ ifaces) fallback =
    let w = walk (candidates_of iface.name (usable_addrs iface)) fallback in
    ground (
      arith,
      addrs_of_lem iface,
      scan_addrs-walk iface.name (usable_addrs iface) fallback,
      walk-append (candidates_of iface.name (usable_addrs iface)) (candidates ifaces) fallback,
      scan_interfaces-walk ifaces w.1,
    )

-- Each candidate is a text that is not empty.
abbrev AreTexts : List (Bool × Bytes) → Type 0
AreTexts cs = All (λ (c : Bool × Bytes). 0 < length c.1) cs

choose_ip-walk :
    (cs : List (Bool × Bytes)) (fallback : Bytes)
    → AreTexts cs
    → choose_ip (walk cs fallback) ≡ elim (first_preferred cs) [
      | some ip ↦ ip
      | none ↦ if length fallback == 0 then first_ip cs else fallback
    ]
unfolding choose_ip walk first_preferred first_ip
choose_ip-walk [] fallback h = refl
choose_ip-walk ((true, ip) ∷ cs) fallback h = refl
choose_ip-walk ((false, ip) ∷ cs) fallback h =
    ground (arith, choose_ip-walk cs ip h.1, choose_ip-walk cs fallback h.1)

ip_string-length : (a b c d : ℕ) → 0 < length (ip_string a b c d)
unfolding ip_string
ip_string-length a b c d = omega (
  arith,
  length-decimal 2 a,
  length-append (decimal 3 a) (46 ∷ decimal 3 b ++ (46 ∷ decimal 3 c ++ (46 ∷ decimal 3 d))),
)

candidates_of-AreTexts :
    (name : Bytes) (addrs : List InterfaceAddr) → AreTexts (candidates_of name addrs)
unfolding candidates_of
candidates_of-AreTexts name [] = tt
candidates_of-AreTexts name (other_addr ∷ addrs) = candidates_of-AreTexts name addrs
candidates_of-AreTexts name (ipv4 true a b c d ∷ addrs) = candidates_of-AreTexts name addrs
candidates_of-AreTexts name (ipv4 false a b c d ∷ addrs) =
    (ip_string-length a b c d, candidates_of-AreTexts name addrs)

candidates-AreTexts : (ifaces : List Interface) → AreTexts (candidates ifaces)
unfolding candidates
candidates-AreTexts [] = tt
candidates-AreTexts (iface ∷ ifaces) =
    All-append _ (candidates_of iface.name (usable_addrs iface)) (candidates ifaces)
      (candidates_of-AreTexts iface.name (usable_addrs iface)) (candidates-AreTexts ifaces)

-- The nested loops of `detectLocalIP`, with their early return and their fallback, choose from the
-- list of the IPv4 addresses that are not loopback addresses and whose interface is up, no loopback
-- and not virtual, in order: the first one whose interface has a preferred name, and if there is
-- none, the first one, and if the list is empty, 127.0.0.1. A name is that of a virtual interface
-- when it contains docker, vbox, veth, wsl, br-, tun, tap, vnic or vmnet, in capitals or not, and a
-- preferred one when it contains wlan, wifi, eth or en.
pub detect_local_ip-pick :
    (ifaces : List Interface) → detect_local_ip (some ifaces) ≡ pick (candidates ifaces)
unfolding detect_local_ip pick
detect_local_ip-pick ifaces =
    rw (scan_interfaces-walk ifaces [])
      (choose_ip-walk (candidates ifaces) [] (candidates-AreTexts ifaces))
