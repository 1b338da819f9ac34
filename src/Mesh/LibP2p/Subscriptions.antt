-- ===== src/Mesh/LibP2p/Subscriptions.antt =====
-- The subscribers of core/go/internal/mesh/libp2p.go along a run.
use air_bridge5g.Prelude.{
  ℕ, ◌≤◌, ◌<◌, ◌≡◌, refl, ◌∙◌, ◌≢◌, ◌⊎◌, inl, inr, false, List, [], ◌∷◌, ◌++◌, arith, Bytes,
}
use air_bridge5g.Prelude.Map.{str_eq, str_eq_iff, lookup, lookup-insert}
use air_bridge5g.Prelude.Totals.{count, count-append}
use air_bridge5g.Mesh.Events.{
  DiscoveryEvent, Events, new_events, subscribed, subscribe, remove_first, unsubscribe, emit_event,
  receive, close_all,
}
use air_bridge5g.Mesh.Events.Delivery.{emit_event-frame, subscribed-count, send_all-others}
use air_bridge5g.Mesh.Events.Channels.{
  IsSound, subscribe-IsSound, unsubscribe-IsSound, emit_event-IsSound, receive-IsSound,
  close_all-IsSound, new_events-IsSound, remove_first-count, close_topics-next, close_topics-buffer,
}
use air_bridge5g.Mesh.LibP2p.{new_service}
use air_bridge5g.Mesh.LibP2p.Runs.{Mesh, new_mesh, with_service, Steps, stay, next}
use air_bridge5g.Mesh.LibP2p.Changes.{
  Change, none_of_them, emits, subs, unsubs, takes, closes, Step-Change,
}

Change-IsSound : {ev ev' : Events} → Change ev ev' → IsSound ev → IsSound ev'
Change-IsSound none_of_them v = v
Change-IsSound (emits {ev} {ev'} event c) v = emit_event-IsSound event ev' (Change-IsSound c v)
Change-IsSound (subs {ev} topic) v = subscribe-IsSound topic ev v
Change-IsSound (unsubs {ev} topic ch) v = unsubscribe-IsSound topic ch ev v
Change-IsSound (takes {ev} ch) v = receive-IsSound ch ev v
Change-IsSound (closes {ev}) v = close_all-IsSound ev v

Steps-IsSound : {m n : Mesh} → Steps m n → IsSound m.service.events → IsSound n.service.events
Steps-IsSound stay v = v
Steps-IsSound (next r q) v = Change-IsSound (Step-Change q) (Steps-IsSound r v)

new_mesh-events :
    (node_id : Bytes) (addrs : List Bytes) → (new_mesh node_id addrs).service.events ≡ new_events
unfolding new_mesh new_service
new_mesh-events node_id addrs = refl

-- In no run of the mesh service, whatever the order in which calls of `Subscribe`, cancelled
-- contexts, events and calls of `Stop` interleave, is an event sent on a closed channel or a channel
-- closed twice, either of which is a panic in Go.
pub channels-no_panic :
    (node_id : Bytes) (listen_addrs : List Bytes) (m : Mesh)
    → Steps (new_mesh node_id listen_addrs) m
    → m.service.events.panicked ≡ false
channels-no_panic node_id listen_addrs m r =
    (Steps-IsSound r (rw (new_mesh-events node_id listen_addrs) new_events-IsSound)).quiet

-- A channel that is no subscriber of the empty topic and holds nothing.
record IsQuiet (c : ℕ) (ev : Events) : Type 0 where
  absent : count c (subscribed [] ev) ≡ 0
  empty : ev.buffer c ≡ []

emit_event-IsQuiet :
    (c : ℕ) (event : DiscoveryEvent) (ev : Events)
    → IsQuiet c ev
    → IsQuiet c (emit_event [] event ev)
unfolding emit_event str_eq
emit_event-IsQuiet c event ev v = record {
  absent = subscribed-count c (emit_event [] event ev) ev (emit_event-frame event ev).0 ∙ v.absent;
  empty = send_all-others event (subscribed [] ev) ev c v.absent ∙ v.empty;
}

subscribe-IsQuiet :
    (c : ℕ) (topic : Bytes) (ev : Events)
    → ((c ≢ ev.next_chan) ⊎ (str_eq topic [] ≡ false))
    → IsQuiet c ev
    → IsQuiet c (subscribe topic ev).1
unfolding subscribe subscribed
subscribe-IsQuiet c topic ev h v = record {
  absent = ground (
    arith,
    v.absent,
    h,
    str_eq_iff topic [],
    lookup-insert topic [] (subscribed topic ev ++ (ev.next_chan ∷ [])) ev.subscribers,
    count-append c (subscribed topic ev) (ev.next_chan ∷ []),
  );
  empty = v.empty;
}

unsubscribe-IsQuiet :
    (c : ℕ) (topic : Bytes) (ch : ℕ) (ev : Events)
    → IsQuiet c ev
    → IsQuiet c (unsubscribe topic ch ev)
unfolding unsubscribe subscribed
unsubscribe-IsQuiet c topic ch ev v = record {
  absent = ground (
    arith,
    v.absent,
    str_eq_iff topic [],
    lookup-insert topic [] (remove_first ch (subscribed topic ev)) ev.subscribers,
    remove_first-count c ch (subscribed topic ev),
  );
  empty = ground (arith, v.empty);
}

receive-IsQuiet : (c ch : ℕ) (ev : Events) → IsQuiet c ev → IsQuiet c (receive ch ev).1
unfolding receive subscribed
receive-IsQuiet c ch ev v = record {
  absent = ground (arith, v.absent);
  empty = ground (arith, v.empty);
}

close_all-IsQuiet : (c : ℕ) (ev : Events) → IsQuiet c ev → IsQuiet c (close_all ev)
unfolding close_all subscribed lookup
close_all-IsQuiet c ev v = record {
  absent = refl;
  empty = close_topics-buffer ev.subscribers c ev ∙ v.empty;
}

-- For a channel that is made before, or not made by then.
Change-IsQuiet :
    (c : ℕ) {ev ev' : Events}
    → Change ev ev'
    → (c < ev.next_chan) ⊎ (ev'.next_chan ≤ c)
    → IsQuiet c ev
    → IsQuiet c ev'
unfolding subscribe
Change-IsQuiet c none_of_them h v = v
Change-IsQuiet c (emits {ev} {ev'} event p) h v =
    let f = emit_event-frame event ev' in
    emit_event-IsQuiet c event ev' (Change-IsQuiet c p (ground (arith, f, h)) v)
Change-IsQuiet c (subs {ev} topic) h v =
    subscribe-IsQuiet c topic ev (inl (λ e. ground (arith, h, e))) v
Change-IsQuiet c (unsubs {ev} topic ch) h v = unsubscribe-IsQuiet c topic ch ev v
Change-IsQuiet c (takes {ev} ch) h v = receive-IsQuiet c ch ev v
Change-IsQuiet c (closes {ev}) h v = close_all-IsQuiet c ev v

Change-next : {ev ev' : Events} → Change ev ev' → ev.next_chan ≤ ev'.next_chan
unfolding subscribe unsubscribe receive close_all
Change-next none_of_them = omega arith
Change-next (emits {ev} {ev'} event p) = ground (arith, Change-next p, emit_event-frame event ev')
Change-next (subs topic) = omega arith
Change-next (unsubs topic ch) = ground arith
Change-next (takes ch) = ground arith
Change-next (closes {ev}) = omega (arith, close_topics-next ev.subscribers ev)

Steps-next : {m n : Mesh} → Steps m n → m.service.events.next_chan ≤ n.service.events.next_chan
Steps-next stay = omega arith
Steps-next (next r q) = omega (arith, Steps-next r, Change-next (Step-Change q))

Steps-IsQuiet :
    (c : ℕ) {m n : Mesh}
    → Steps m n
    → (c < m.service.events.next_chan) ⊎ (n.service.events.next_chan ≤ c)
    → IsQuiet c m.service.events
    → IsQuiet c n.service.events
Steps-IsQuiet c stay h v = v
Steps-IsQuiet c (next r q) h v =
    let p = Step-Change q in
    let a = Steps-next r in
    let b = Change-next p in Change-IsQuiet c p (ground arith) (Steps-IsQuiet c r (ground arith) v)

new_events-IsQuiet : (c : ℕ) → IsQuiet c new_events
unfolding new_events subscribed lookup
new_events-IsQuiet c = record { absent = refl; empty = refl }

subscribe-next : (topic : Bytes) (ev : Events) → ev.next_chan < (subscribe topic ev).1.next_chan
unfolding subscribe
subscribe-next topic ev = omega arith

-- The channel that `Subscribe` returns for a topic that is not empty never holds an event, in no
-- run from there on, whatever events the mesh emits: every event is emitted for the empty topic.
pub topic_subscriber-starves :
    (node_id : Bytes) (listen_addrs : List Bytes) (topic : Bytes) (m m' : Mesh)
    → Steps (new_mesh node_id listen_addrs) m
    → str_eq topic [] ≡ false
    → Steps (with_service m (record m.service { events = (subscribe topic m.service.events).1 })) m'
    → m'.service.events.buffer (subscribe topic m.service.events).0 ≡ []
unfolding subscribe
topic_subscriber-starves node_id listen_addrs topic m m' r e r' =
    let ch = m.service.events.next_chan in
    let q =
      Steps-IsQuiet ch r (inr (omega arith))
        (rw (new_mesh-events node_id listen_addrs) (new_events-IsQuiet ch)) in
    let q' = subscribe-IsQuiet ch topic m.service.events (inr e) q in
    (Steps-IsQuiet ch r' (inl (subscribe-next topic m.service.events)) q').empty
