-- ===== src/Mesh/Events/Channels.antt =====
-- The channels of the subscribers of core/go/internal/mesh/libp2p.go: which are closed, and which
-- receive.
use air_bridge5g.Prelude.{
  ℕ, ◌+◌, ◌≤◌, ◌≡◌, refl, ◌∙◌, false, List, [], ◌∷◌, ◌++◌, arith, Bytes, ltb, if◌then◌else◌,
}
use air_bridge5g.Prelude.Map.{str_eq, lookup, insert}
use air_bridge5g.Prelude.Totals.{count, count-append, total, weight, total-insert}
use air_bridge5g.Mesh.Events.{
  DiscoveryEvent, Events, new_events, subscribed, subscribe, remove_first, unsubscribe, send,
  send_all, emit_event, receive, close_chan, close_chans, close_topics, close_all,
}
use air_bridge5g.Mesh.Events.Delivery.{emit_event-frame}

-- A channel stands among the subscribers once at most, and not at all once it is closed or before
-- it is made.
abbrev pub room : ℕ → Events → ℕ
room c ev = if ev.is_closed c then 0 else (if ltb c ev.next_chan then 1 else 0)

abbrev pub entries : ℕ → List (Bytes × List ℕ) → ℕ
entries c subs = total (count c) subs

pub record IsSound (ev : Events) : Type 0 where
  pub quiet : ev.panicked ≡ false
  pub single : (c : ℕ) → entries c ev.subscribers ≤ room c ev
  pub fresh : (c : ℕ) → ev.next_chan ≤ c → ev.is_closed c ≡ false

subscribed-entries :
    (c : ℕ) (topic : Bytes) (ev : Events)
    → count c (subscribed topic ev) ≡ weight (count c) (lookup topic ev.subscribers)
unfolding subscribed
subscribed-entries c topic ev = ground arith

-- `s.subscribers[topic] = chs`
insert-entries :
    (c : ℕ) (topic : Bytes) (chs : List ℕ) (ev : Events)
    → entries c (insert topic chs ev.subscribers) + count c (subscribed topic ev)
      ≡ entries c ev.subscribers + count c chs
insert-entries c topic chs ev =
    omega (arith, subscribed-entries c topic ev, total-insert (count c) topic chs ev.subscribers)

pub subscribe-IsSound : (topic : Bytes) (ev : Events) → IsSound ev → IsSound (subscribe topic ev).1
unfolding subscribe
subscribe-IsSound topic ev v = record {
  quiet = v.quiet;
  single = λ c. ground (
    arith,
    v.single c,
    v.fresh c,
    count-append c (subscribed topic ev) (ev.next_chan ∷ []),
    insert-entries c topic (subscribed topic ev ++ (ev.next_chan ∷ [])) ev,
  );
  fresh = λ c h. v.fresh c (omega arith);
}

pub remove_first-count : (c ch : ℕ) (chs : List ℕ) → count c (remove_first ch chs) ≤ count c chs
unfolding remove_first
remove_first-count c ch [] = omega arith
remove_first-count c ch (h ∷ chs) = ground (arith, remove_first-count c ch chs)

pub unsubscribe-IsSound :
    (topic : Bytes) (ch : ℕ) (ev : Events) → IsSound ev → IsSound (unsubscribe topic ch ev)
unfolding unsubscribe
unsubscribe-IsSound topic ch ev v = record {
  quiet = ground (arith, v.quiet);
  single = λ c. ground (
    arith,
    v.single c,
    remove_first-count c ch (subscribed topic ev),
    insert-entries c topic (remove_first ch (subscribed topic ev)) ev,
  );
  fresh = λ c. ground (arith, v.fresh c);
}

-- No receiver is closed, so no send panics.
send_all-quiet :
    (event : DiscoveryEvent) (chs : List ℕ) (ev : Events)
    → ev.panicked ≡ false
    → ((c : ℕ) → count c chs ≤ room c ev)
    → (send_all event chs ev).panicked ≡ false
unfolding send_all send
send_all-quiet event [] ev q f = q
send_all-quiet event (ch ∷ chs) ev q f =
    send_all-quiet event chs (send event ch ev) (ground (arith, f ch)) (λ c. ground (arith, f c))

emit_event-quiet :
    (event : DiscoveryEvent) (ev : Events) → IsSound ev → (emit_event [] event ev).panicked ≡ false
unfolding emit_event str_eq
emit_event-quiet event ev v =
    send_all-quiet event (subscribed [] ev) ev v.quiet
      (λ c. omega (arith, v.single c, insert-entries c [] [] ev))

pub emit_event-IsSound :
    (event : DiscoveryEvent) (ev : Events) → IsSound ev → IsSound (emit_event [] event ev)
emit_event-IsSound event ev v =
    let f = emit_event-frame event ev in
    record {
      quiet = emit_event-quiet event ev v;
      single = λ c. ground (arith, v.single c, f);
      fresh = λ c. ground (arith, v.fresh c, f);
    }

pub receive-IsSound : (ch : ℕ) (ev : Events) → IsSound ev → IsSound (receive ch ev).1
unfolding receive
receive-IsSound ch ev v = record {
  quiet = ground (arith, v.quiet);
  single = λ c. ground (arith, v.single c);
  fresh = λ c. ground (arith, v.fresh c);
}

-- The channels that are left to close are open.
close_chans-quiet :
    (rest : ℕ → ℕ) (chs : List ℕ) (ev : Events)
    → ev.panicked ≡ false
    → ((c : ℕ) → count c chs + rest c ≤ room c ev)
    → ((close_chans chs ev).panicked ≡ false) × ((c : ℕ) → rest c ≤ room c (close_chans chs ev))
unfolding close_chans close_chan
close_chans-quiet rest [] ev q f = (q, λ c. omega (arith, f c))
close_chans-quiet rest (ch ∷ chs) ev q f =
    close_chans-quiet rest chs (close_chan ch ev) (ground (arith, f ch)) (λ c. ground (arith, f c))

close_topics-quiet :
    (subs : List (Bytes × List ℕ)) (ev : Events)
    → ev.panicked ≡ false
    → ((c : ℕ) → entries c subs ≤ room c ev)
    → (close_topics subs ev).panicked ≡ false
unfolding close_topics
close_topics-quiet [] ev q f = q
close_topics-quiet ((topic, chs) ∷ subs) ev q f =
    let s = close_chans-quiet (λ c. entries c subs) chs ev q (λ c. omega (arith, f c)) in
    close_topics-quiet subs (close_chans chs ev) s.0 s.1

-- A channel that is not among them stays as it is.
close_chans-others :
    (c : ℕ) (chs : List ℕ) (ev : Events)
    → count c chs ≡ 0
    → let ev' = close_chans chs ev in
      (ev'.is_closed c ≡ ev.is_closed c) × (ev'.next_chan ≡ ev.next_chan)
unfolding close_chans close_chan
close_chans-others c [] ev h = (refl, refl)
close_chans-others c (ch ∷ chs) ev h = ground (arith, close_chans-others c chs (close_chan ch ev))

close_topics-others :
    (c : ℕ) (subs : List (Bytes × List ℕ)) (ev : Events)
    → entries c subs ≡ 0
    → let ev' = close_topics subs ev in (ev'.is_closed c ≡ ev.is_closed c)
unfolding close_topics
close_topics-others c [] ev h = refl
close_topics-others c ((topic, chs) ∷ subs) ev h =
    ground (arith, close_topics-others c subs (close_chans chs ev), close_chans-others c chs ev)

close_chans-next : (chs : List ℕ) (ev : Events) → (close_chans chs ev).next_chan ≡ ev.next_chan
unfolding close_chans close_chan
close_chans-next [] ev = refl
close_chans-next (ch ∷ chs) ev = close_chans-next chs (close_chan ch ev)

pub close_topics-next :
    (subs : List (Bytes × List ℕ)) (ev : Events) → (close_topics subs ev).next_chan ≡ ev.next_chan
unfolding close_topics
close_topics-next [] ev = refl
close_topics-next ((topic, chs) ∷ subs) ev =
    close_topics-next subs (close_chans chs ev) ∙ close_chans-next chs ev

pub close_all-IsSound : (ev : Events) → IsSound ev → IsSound (close_all ev)
unfolding close_all
close_all-IsSound ev v = record {
  quiet = close_topics-quiet ev.subscribers ev v.quiet v.single;
  single = λ c. omega arith;
  fresh = λ c. ground (
    arith,
    v.fresh c,
    v.single c,
    close_topics-next ev.subscribers ev,
    close_topics-others c ev.subscribers ev,
  );
}

pub new_events-IsSound : IsSound new_events
unfolding new_events
new_events-IsSound = record { quiet = refl; single = λ c. omega arith; fresh = λ c h. refl }

close_chans-buffer :
    (chs : List ℕ) (c : ℕ) (ev : Events) → (close_chans chs ev).buffer c ≡ ev.buffer c
unfolding close_chans close_chan
close_chans-buffer [] c ev = refl
close_chans-buffer (ch ∷ chs) c ev = close_chans-buffer chs c (close_chan ch ev)

pub close_topics-buffer :
    (subs : List (Bytes × List ℕ)) (c : ℕ) (ev : Events)
    → (close_topics subs ev).buffer c ≡ ev.buffer c
unfolding close_topics
close_topics-buffer [] c ev = refl
close_topics-buffer ((topic, chs) ∷ subs) c ev =
    close_topics-buffer subs c (close_chans chs ev) ∙ close_chans-buffer chs c ev
