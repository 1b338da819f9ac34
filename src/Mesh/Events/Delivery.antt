-- ===== src/Mesh/Events/Delivery.antt =====
-- What the subscribers of core/go/internal/mesh/libp2p.go receive.
use air_bridge5g.Prelude.{
  ℕ, zero, suc, ◌+◌, ◌-◌, ◌≡◌, refl, ◌∙◌, inl, inr, true, false, List, [], ◌∷◌, ◌++◌, append_assoc,
  append-nil, arith, Bytes, ltb, if◌then◌else◌, Bool-cases, length, take, length-append,
}
use air_bridge5g.Prelude.Map.{str_eq}
use air_bridge5g.Prelude.Totals.{count}
use air_bridge5g.Mesh.Events.{
  DiscoveryEvent, Events, capacity, subscribed, send, send_all, emit_event,
}

-- Events that one call of `emitEvent` after the other passes to a topic.
unfoldable pub emit_events : Bytes → List DiscoveryEvent → Events → Events
emit_events topic [] ev = ev
emit_events topic (event ∷ events) ev = emit_events topic events (emit_event topic event ev)

-- The subscribers and the closed channels stay as they are.
send_all-frame :
    (event : DiscoveryEvent) (chs : List ℕ) (ev : Events)
    → let ev' = send_all event chs ev in
      (ev'.subscribers ≡ ev.subscribers)
      × (ev'.is_closed ≡ ev.is_closed)
      × (ev'.next_chan ≡ ev.next_chan)
unfolding send_all send
send_all-frame event [] ev = (refl, refl, refl)
send_all-frame event (ch ∷ chs) ev = send_all-frame event chs (send event ch ev)

-- A channel that is not among the receivers keeps its buffer.
pub send_all-others :
    (event : DiscoveryEvent) (chs : List ℕ) (ev : Events) (c : ℕ)
    → count c chs ≡ 0
    → (send_all event chs ev).buffer c ≡ ev.buffer c
unfolding send_all send
send_all-others event [] ev c h = refl
send_all-others event (ch ∷ chs) ev c h =
    ground (arith, send_all-others event chs (send event ch ev) c)

-- A channel that stands once among them gets the event, if there is room.
send_all-receiver :
    (event : DiscoveryEvent) (chs : List ℕ) (ev : Events) (c : ℕ)
    → count c chs ≡ 1
    → ev.is_closed c ≡ false
    → (send_all event chs ev).buffer c
      ≡ (if ltb (length (ev.buffer c)) capacity then ev.buffer c ++ (event ∷ []) else ev.buffer c)
unfolding send_all send
send_all-receiver event [] ev c h e = absurd (omega arith)
send_all-receiver event (ch ∷ chs) ev c h e = ground (
  arith,
  send_all-receiver event chs (send event ch ev) c,
  send_all-others event chs (send event ch ev) c,
)

pub emit_event-frame :
    (event : DiscoveryEvent) (ev : Events)
    → let ev' = emit_event [] event ev in
      (ev'.subscribers ≡ ev.subscribers)
      × (ev'.is_closed ≡ ev.is_closed)
      × (ev'.next_chan ≡ ev.next_chan)
unfolding emit_event str_eq
emit_event-frame event ev = send_all-frame event (subscribed [] ev) ev

pub subscribed-count :
    (c : ℕ) (ev' ev : Events)
    → ev'.subscribers ≡ ev.subscribers
    → count c (subscribed [] ev') ≡ count c (subscribed [] ev)
unfolding subscribed
subscribed-count c ev' ev e = rw e refl

emit_event-receiver :
    (event : DiscoveryEvent) (ev : Events) (c : ℕ)
    → count c (subscribed [] ev) ≡ 1
    → ev.is_closed c ≡ false
    → (emit_event [] event ev).buffer c
      ≡ (if ltb (length (ev.buffer c)) capacity then ev.buffer c ++ (event ∷ []) else ev.buffer c)
unfolding emit_event str_eq
emit_event-receiver event ev c h e = send_all-receiver event (subscribed [] ev) ev c h e

take-nil : (n : ℕ) → take {A = DiscoveryEvent} n [] ≡ []
take-nil zero = refl
take-nil (suc n) = refl

-- With room for one more, the event and what fits behind it.
full_step :
    (held : List DiscoveryEvent) (event : DiscoveryEvent) (events held' : List DiscoveryEvent)
    → ltb (length held) capacity ≡ true
    → held' ≡ held ++ (event ∷ [])
    → held' ++ take (capacity - length held') events
      ≡ held ++ take (capacity - length held) (event ∷ events)
full_step held event events held' lt e =
    let l : length (held ++ (event ∷ [])) ≡ length held + 1 = length-append held (event ∷ []) in
    let k : capacity - length held ≡ suc (capacity - (length held + 1)) = ground arith in
    rw (e, l, k) (append_assoc held (event ∷ []) (take (capacity - (length held + 1)) events))

-- A call of `emitEvent` after the other with the empty topic adds the events to the buffer of each
-- channel of that topic in their order, as far as the capacity of 32 goes, and drops the others.
pub emit_events-delivered :
    (events : List DiscoveryEvent) (ev : Events) (c : ℕ)
    → count c (subscribed [] ev) ≡ 1
    → ev.is_closed c ≡ false
    → (emit_events [] events ev).buffer c
      ≡ ev.buffer c ++ take (capacity - length (ev.buffer c)) events
unfolding emit_events
emit_events-delivered [] ev c h e =
    rw (take-nil (capacity - length (ev.buffer c)), append-nil (ev.buffer c)) refl
emit_events-delivered (event ∷ events) ev c h e =
    let f = emit_event-frame event ev in
    let ih =
      emit_events-delivered events (emit_event [] event ev) c
        (subscribed-count c (emit_event [] event ev) ev f.0 ∙ h) (cc) in
    let step = emit_event-receiver event ev c h e in
    elim (Bool-cases (ltb (length (ev.buffer c)) capacity)) [
      | inl lt ↦ ih ∙ full_step (ev.buffer c) event events _ lt (step ∙ rw lt refl)
      | inr ge ↦
          ih
          ∙ rw (step, ge) (let z : capacity - length (ev.buffer c) ≡ 0 = ground arith in rw z refl)
    ]
