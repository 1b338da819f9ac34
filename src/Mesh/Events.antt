-- ===== src/Mesh/Events.antt =====
-- The events of core/go/internal/mesh/libp2p.go: `Subscribe`, `emitEvent` and the closing of the
-- channels in `Stop`, with the types of service.go. A channel is a number, and the state holds its
-- buffer, so that a channel that two sides share is one channel.
pub mod Delivery
pub mod Channels
use air_bridge5g.Prelude.{
  ℕ, ◌+◌, Bool, false, not, ◌&&◌, ◌||◌, Option, none, some, List, [], ◌∷◌, ◌++◌, Bytes, ltb, ◌==◌,
  if◌then◌else◌, length,
}
use air_bridge5g.Prelude.Map.{str_eq, lookup, insert}
use air_bridge5g.Prelude.Totals.{count}

pub record PeerInfo : Type 0 where
  pub id : Bytes
  pub public_key : Bytes
  pub addrs : List Bytes

pub record DiscoveryEvent : Type 0 where
  pub peer : PeerInfo

pub record Events : Type 0 where
  pub subscribers : List (Bytes × List ℕ)
  -- What a channel holds, the oldest event first.
  pub buffer : ℕ → List DiscoveryEvent
  pub is_closed : ℕ → Bool
  -- The number of the next `make(chan DiscoveryEvent, 32)`.
  pub next_chan : ℕ
  -- A send on a closed channel, or a second `close`, has panicked.
  pub panicked : Bool

unfoldable pub new_events : Events
new_events = record {
  subscribers = [];
  buffer = λ ch. [];
  is_closed = λ ch. false;
  next_chan = 0;
  panicked = false;
}

abbrev pub capacity : ℕ
capacity = 32

-- `s.subscribers[topic]`
unfoldable pub subscribed : Bytes → Events → List ℕ
subscribed topic ev = elim (lookup topic ev.subscribers) [ none ↦ [] | some chs ↦ chs ]

-- `Subscribe`, with the channel that it returns.
unfoldable pub subscribe : Bytes → Events → ℕ × Events
unfolding subscribed
subscribe topic ev = (
  ev.next_chan,
  record ev {
    subscribers = insert topic (subscribed topic ev ++ (ev.next_chan ∷ [])) ev.subscribers;
    next_chan = ev.next_chan + 1;
  },
)

-- `append(subs[:i], subs[i+1:]...)` at the first i with `subs[i] == ch`.
unfoldable pub remove_first : ℕ → List ℕ → List ℕ
remove_first ch [] = []
remove_first ch (c ∷ chs) = if c == ch then chs else c ∷ remove_first ch chs

-- The goroutine of `Subscribe` once its context is done.
unfoldable pub unsubscribe : Bytes → ℕ → Events → Events
unfolding subscribed
unsubscribe topic ch ev = if count ch (subscribed topic ev) == 0 then ev else record ev {
  subscribers = insert topic (remove_first ch (subscribed topic ev)) ev.subscribers;
}

-- `select { case ch <- event: default: }`
unfoldable pub send : DiscoveryEvent → ℕ → Events → Events
send event ch ev = record ev {
  buffer = λ c.
      if c == ch && not (ev.is_closed ch) && ltb (length (ev.buffer ch)) capacity
      then ev.buffer c ++ (event ∷ [])
      else ev.buffer c;
  panicked = ev.panicked || ev.is_closed ch;
}

unfoldable pub send_all : DiscoveryEvent → List ℕ → Events → Events
send_all event [] ev = ev
send_all event (ch ∷ chs) ev = send_all event chs (send event ch ev)

unfoldable pub emit_event : Bytes → DiscoveryEvent → Events → Events
unfolding subscribed
emit_event topic event ev =
    let ev1 = send_all event (subscribed topic ev) ev in
    if str_eq topic [] then ev1 else send_all event (subscribed [] ev1) ev1

-- A receive by the holder of a channel, where the channel holds an event.
unfoldable pub receive : ℕ → Events → Option DiscoveryEvent × Events
receive ch ev = elim (ev.buffer ch) [
  | [] ↦ (none, ev)
  | event ∷ rest ↦ (some event, record ev { buffer = λ c. if c == ch then rest else ev.buffer c })
]

-- `close(ch)`
unfoldable pub close_chan : ℕ → Events → Events
close_chan ch ev = record ev {
  is_closed = λ c. c == ch || ev.is_closed c;
  panicked = ev.panicked || ev.is_closed ch;
}

unfoldable pub close_chans : List ℕ → Events → Events
close_chans [] ev = ev
close_chans (ch ∷ chs) ev = close_chans chs (close_chan ch ev)

-- The loop of `Stop` over the topics.
unfoldable pub close_topics : List (Bytes × List ℕ) → Events → Events
close_topics [] ev = ev
close_topics ((topic, chs) ∷ subs) ev = close_topics subs (close_chans chs ev)

unfoldable pub close_all : Events → Events
close_all ev = record (close_topics ev.subscribers ev) { subscribers = [] }
