-- ===== src/Mesh/LibP2p/Gossip/Discovery.antt =====
-- What a gossip message of core/go/internal/mesh/libp2p.go does, and the addresses that STUN finds.
use air_bridge5g.Prelude.{
  ℕ, ◌+◌, ◌-◌, ◌≡◌, refl, ap, ◌∙◌, inl, inr, true, false, ◌&&◌, none, some, List, [], ◌∷◌, ◌++◌,
  arith, Bytes, codes, ◌==◌, if◌then◌else◌, Bool-cases, Option-cases, length, take,
}
use air_bridge5g.Prelude.Int.{add64}
use air_bridge5g.Prelude.Map.{str_eq, str_eq_iff, lookup, insert, lookup-insert}
use air_bridge5g.Prelude.Totals.{count}
use air_bridge5g.Mesh.Events.{DiscoveryEvent, Events, subscribed, emit_event}
use air_bridge5g.Mesh.Events.Delivery.{emit_events, emit_events-delivered}
use air_bridge5g.Mesh.LibP2p.{ConnectedPeer, LibP2pService, update_peer_last_seen}
use air_bridge5g.Mesh.LibP2p.Gossip.{
  GossipMessage, any_addr, is_known, discovered, discover, count_message, handle_message,
  add_listen_addr, add_listen_addrs,
}

-- How often an address stands in a list, and among the addresses of a table's peers.
abbrev pub occurrences : Bytes → List Bytes → ℕ
occurrences addr [] = 0
occurrences addr (a ∷ addrs) = (if str_eq a addr then 1 else 0) + occurrences addr addrs

unfoldable pub in_peers : Bytes → List (Bytes × ConnectedPeer) → ℕ
in_peers addr [] = 0
in_peers addr ((id, p) ∷ m) = occurrences addr p.info.addrs + in_peers addr m

-- The event for an address: a peer that is named after it and has it for its only address.
abbrev pub event_for : Bytes → DiscoveryEvent
event_for addr = record {
  peer = record { id = codes "discovered-" ++ addr; public_key = []; addrs = addr ∷ [] };
}

-- The events for the addresses that stand with no peer of the table.
unfoldable pub discoveries : List (Bytes × ConnectedPeer) → List Bytes → List DiscoveryEvent
discoveries m [] = []
discoveries m (addr ∷ addrs) =
    let rest = discoveries m addrs in if in_peers addr m == 0 then event_for addr ∷ rest else rest

any_addr-occurrences :
    (addr : Bytes) (addrs : List Bytes)
    → any_addr addr addrs ≡ (if occurrences addr addrs == 0 then false else true)
unfolding any_addr
any_addr-occurrences addr [] = refl
any_addr-occurrences addr (a ∷ addrs) = ground (arith, any_addr-occurrences addr addrs)

is_known-in_peers :
    (addr : Bytes) (m : List (Bytes × ConnectedPeer))
    → is_known addr m ≡ (if in_peers addr m == 0 then false else true)
unfolding is_known in_peers
is_known-in_peers addr [] = refl
is_known-in_peers addr ((id, p) ∷ m) =
    ground (arith, is_known-in_peers addr m, any_addr-occurrences addr p.info.addrs)

discover-emit_events :
    (m : List (Bytes × ConnectedPeer)) (addrs : List Bytes) (ev : Events)
    → discover m addrs ev ≡ emit_events [] (discoveries m addrs) ev
unfolding discover discoveries emit_events
discover-emit_events m [] ev = refl
discover-emit_events m (addr ∷ addrs) ev = elim (Bool-cases (in_peers addr m == 0)) [
  | inl e ↦
      let k : is_known addr m ≡ false = ground (arith, is_known-in_peers addr m) in
      rw (e, k) (discover-emit_events m addrs (emit_event [] (discovered addr) ev))
  | inr e ↦
      let k : is_known addr m ≡ true = ground (arith, is_known-in_peers addr m) in
      rw (e, k) (discover-emit_events m addrs ev)
]

-- A peer that is seen has the addresses that it had.
in_peers-insert :
    (addr id : Bytes) (now : ℕ) (p : ConnectedPeer) (m : List (Bytes × ConnectedPeer))
    → lookup id m ≡ some p
    → in_peers addr (insert id (record p { last_seen = now }) m) ≡ in_peers addr m
unfolding in_peers lookup insert
in_peers-insert addr id now p [] h = cc
in_peers-insert addr id now p ((j, q) ∷ m) h = ground (arith, in_peers-insert addr id now p m)

in_peers-update :
    (addr id : Bytes) (now : ℕ) (s : LibP2pService)
    → in_peers addr (update_peer_last_seen id now s).peers ≡ in_peers addr s.peers
unfolding update_peer_last_seen
in_peers-update addr id now s = elim (Option-cases (lookup id s.peers)) [
  | inl e ↦ ground arith
  | inr (p, e) ↦ ground (arith, in_peers-insert addr id now p s.peers)
]

discoveries-update :
    (id : Bytes) (now : ℕ) (addrs : List Bytes) (s : LibP2pService)
    → discoveries (update_peer_last_seen id now s).peers addrs ≡ discoveries s.peers addrs
unfolding discoveries
discoveries-update id now [] s = refl
discoveries-update id now (addr ∷ addrs) s =
    ground (arith, discoveries-update id now addrs s, in_peers-update addr id now s)

update-events :
    (id : Bytes) (now : ℕ) (s : LibP2pService) → (update_peer_last_seen id now s).events ≡ s.events
unfolding update_peer_last_seen
update-events id now s = ground arith

handle_message-events :
    (msg : GossipMessage) (n now : ℕ) (s : LibP2pService)
    → str_eq msg.sender s.node_id ≡ false
    → (handle_message msg n now s).events
      ≡ emit_events [] (discoveries s.peers msg.known_peers) s.events
unfolding handle_message count_message
handle_message-events msg n now s e =
    let s1 = count_message n s in
    rw e (
      discover-emit_events (update_peer_last_seen msg.sender now s1).peers msg.known_peers _
      ∙ rw (discoveries-update msg.sender now msg.known_peers s1, update-events msg.sender now s1)
          refl)

handle_message-own :
    (msg : GossipMessage) (n now : ℕ) (s : LibP2pService)
    → str_eq msg.sender s.node_id ≡ true
    → handle_message msg n now s ≡ s
unfolding handle_message
handle_message-own msg n now s e = rw e refl

handle_message-counts :
    (msg : GossipMessage) (n now : ℕ) (s : LibP2pService)
    → str_eq msg.sender s.node_id ≡ false
    → let s' = handle_message msg n now s in
      (s'.stats.messages_relayed ≡ add64 s.stats.messages_relayed 1)
      × (s'.stats.bytes_relayed ≡ add64 s.stats.bytes_relayed n)
unfolding handle_message count_message update_peer_last_seen
handle_message-counts msg n now s e = ground arith

handle_message-lookup :
    (msg : GossipMessage) (n now : ℕ) (id : Bytes) (s : LibP2pService)
    → str_eq msg.sender s.node_id ≡ false
    → lookup id (handle_message msg n now s).peers ≡ elim (lookup id s.peers) [
      | none ↦ none
      | some p ↦ some (if str_eq msg.sender id then record p { last_seen = now } else p)
    ]
unfolding handle_message count_message update_peer_last_seen
handle_message-lookup msg n now id s e = elim (Option-cases (lookup msg.sender s.peers)) [
  | inl h ↦ ground (arith, str_eq_iff msg.sender id)
  | inr (p, h) ↦ ground (
    arith,
    str_eq_iff msg.sender id,
    lookup-insert msg.sender id (record p { last_seen = now }) s.peers,
  )
]

-- A gossip message of this node itself changes nothing. One of another node adds one event for each
-- address it names that no peer of the table has among its addresses, in the message's order, to the
-- buffer of each channel of the empty topic, as far as the capacity of 32 goes: the event is a peer
-- with that address only, and with the address behind "discovered-" for its identity. The message
-- adds no peer to the table and takes none away, and only the time at which its sender was last seen
-- changes; and it is counted with its bytes.
pub handle_message-delivers :
    (msg : GossipMessage) (n now c : ℕ) (id : Bytes) (s : LibP2pService)
    → count c (subscribed [] s.events) ≡ 1
    → s.events.is_closed c ≡ false
    → let s' = handle_message msg n now s in
      (str_eq msg.sender s.node_id ≡ true → s' ≡ s)
      × (str_eq msg.sender s.node_id ≡ false
          → let held = s.events.buffer c in
            (s'.events.buffer c
              ≡ held ++ take (32 - length held) (discoveries s.peers msg.known_peers))
            × (lookup id s'.peers ≡ elim (lookup id s.peers) [
              | none ↦ none
              | some p ↦ some (if str_eq msg.sender id then record p { last_seen = now } else p)
            ])
            × (s'.stats.messages_relayed ≡ add64 s.stats.messages_relayed 1)
            × (s'.stats.bytes_relayed ≡ add64 s.stats.bytes_relayed n))
handle_message-delivers msg n now c id s h open' = (
  handle_message-own msg n now s,
  λ e. (
    ap (λ (ev : Events). ev.buffer c) (handle_message-events msg n now s e)
        ∙ emit_events-delivered (discoveries s.peers msg.known_peers) s.events c h open',
    handle_message-lookup msg n now id s e,
    (handle_message-counts msg n now s e).0,
    (handle_message-counts msg n now s e).1,
  ),
)

occurrences-append :
    (addr a : Bytes) (addrs : List Bytes)
    → occurrences addr (addrs ++ (a ∷ []))
      ≡ occurrences addr addrs + (if str_eq a addr then 1 else 0)
occurrences-append addr a [] = omega arith
occurrences-append addr a (x ∷ addrs) = omega (arith, occurrences-append addr a addrs)

add_listen_addr-once :
    (addr a : Bytes) (s : LibP2pService)
    → occurrences a (add_listen_addr addr s).listen_addrs ≡ (
        if str_eq addr a && (occurrences a s.listen_addrs == 0)
        then 1
        else occurrences a s.listen_addrs)
unfolding add_listen_addr
add_listen_addr-once addr a s = ground (
  arith,
  any_addr-occurrences addr s.listen_addrs,
  occurrences-append a addr s.listen_addrs,
  str_eq_iff addr a,
)

-- Whatever public addresses the STUN queries find one after the other, each of them is a listen
-- address in the end; an address that was one before stands there as often as before, and any other
-- once if it was found and not at all otherwise.
pub add_listen_addrs-once :
    (found : List Bytes) (a : Bytes) (s : LibP2pService)
    → occurrences a (add_listen_addrs found s).listen_addrs ≡ (
        if any_addr a found && (occurrences a s.listen_addrs == 0)
        then 1
        else occurrences a s.listen_addrs)
unfolding add_listen_addrs any_addr
add_listen_addrs-once [] a s = refl
add_listen_addrs-once (addr ∷ found) a s =
    ground
      (arith, add_listen_addrs-once found a (add_listen_addr addr s), add_listen_addr-once addr a s)
