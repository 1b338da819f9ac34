-- ===== src/Services/Stats.antt =====
-- The statistics that core/go/internal/services/daemon.go gathers and grpc_server.go answers with. A
-- throughput is a number of bits and one of nanoseconds, whose quotient is the float of the source.
pub mod Updates
use air_bridge5g.Prelude.{
  ℕ, ◌%◌, ◌^◌, Bool, true, false, Option, none, some, List, [], ◌∷◌, map, ◌==◌, if◌then◌else◌,
}
use air_bridge5g.Privacy.Fragment.{Fragmenter, FragmentStats}
use air_bridge5g.Privacy.Ttl.{Normalizer, TtlStats}
use air_bridge5g.Privacy.UserAgent.{UaHarmonizer}
use air_bridge5g.Services.Daemon.{Reading, Snapshot, Collector, tick, get_traffic_snapshot}
use air_bridge5g.Services.Engine.{Engine}

-- The counters of the proxy, and their snapshot.
pub record Metrics : Type 0 where
  pub active_connections : ℕ
  pub total_connections : ℕ
  pub bytes_in : ℕ
  pub bytes_out : ℕ
  pub auth_failures : ℕ
  pub connection_errors : ℕ

-- `currentTrafficSnapshot`
unfoldable pub current_reading : Option Metrics → Option Normalizer → Reading
current_reading metrics normalizer = record {
  bytes_in = elim metrics [ none ↦ 0 | some m ↦ m.bytes_in ];
  bytes_out = elim metrics [ none ↦ 0 | some m ↦ m.bytes_out ];
  active_connections = elim metrics [ none ↦ 0 | some m ↦ m.active_connections ];
  total_connections = elim metrics [ none ↦ 0 | some m ↦ m.total_connections ];
  packets_processed = elim normalizer [ none ↦ 0 | some n ↦ n.stats.packets_processed ];
}

-- It has no throughput.
unfoldable pub current_snapshot : Option Metrics → Option Normalizer → Snapshot
current_snapshot metrics normalizer = record {
  reading = current_reading metrics normalizer;
  bits_in = 0;
  bits_out = 0;
  elapsed = 1;
}

-- `controlv1.TrafficSnapshot`
pub record SnapshotMessage : Type 0 where
  pub bytes_in : ℕ
  pub bytes_out : ℕ
  pub throughput_in : ℕ × ℕ
  pub throughput_out : ℕ × ℕ
  pub active_connections : ℕ
  pub total_connections : ℕ
  pub packets_processed : ℕ

unfoldable pub snapshot_message : Snapshot → SnapshotMessage
snapshot_message s = record {
  bytes_in = s.reading.bytes_in;
  bytes_out = s.reading.bytes_out;
  throughput_in = (s.bits_in, s.elapsed);
  throughput_out = (s.bits_out, s.elapsed);
  active_connections = s.reading.active_connections;
  total_connections = s.reading.total_connections;
  packets_processed = s.reading.packets_processed;
}

pub record TrafficStatsResponse : Type 0 where
  pub current : SnapshotMessage
  pub history : List SnapshotMessage

-- The handler `GetTrafficStats`, on what `Daemon.GetTrafficStats` copies.
unfoldable pub get_traffic_stats : Snapshot → Collector → TrafficStatsResponse
get_traffic_stats current c = record {
  current = snapshot_message current;
  history = map snapshot_message c.traffic_history;
}

-- Milliseconds between two updates of a stream.
unfoldable pub interval : ℕ → ℕ
interval interval_ms = if interval_ms == 0 then 500 else interval_ms

-- What happens while a stream is served: the collector ticks; the stream's ticker ticks, with what
-- `currentTrafficSnapshot` reads at that time, and `Send` succeeds or not; or the client goes.
pub data StreamEvent : Type 0 where
  collects : Reading → ℕ → StreamEvent
  updates : Snapshot → Bool → StreamEvent
  done : StreamEvent

-- The loop of `StreamTrafficStats`: the updates that it passes to `Send`, and whether it returns
-- nil. The events can end before the loop does.
unfoldable pub stream_traffic_stats : Collector → List StreamEvent → List SnapshotMessage × Bool
stream_traffic_stats c [] = ([], true)
stream_traffic_stats c (collects r now ∷ events) = stream_traffic_stats (tick r now c) events
stream_traffic_stats c (updates current sent ∷ events) =
    let rest = stream_traffic_stats c events in
    let update = snapshot_message (get_traffic_snapshot current c) in
    if sent then (update ∷ rest.0, rest.1) else (update ∷ [], false)
stream_traffic_stats c (done ∷ events) = ([], true)

-- `UAHarmonizeStatsSnapshot`
pub record UaStats : Type 0 where
  pub requests_processed : ℕ
  pub requests_modified : ℕ
  pub headers_stripped : ℕ

pub record PrivacyStats : Type 0 where
  pub ttl : TtlStats
  pub fragmentation : FragmentStats
  pub user_agent : UaStats

abbrev no_ttl_stats : TtlStats
no_ttl_stats = record {
  packets_processed = 0;
  packets_modified = 0;
  ipv4_packets = 0;
  ipv6_packets = 0;
  original_ttls = [];
}

abbrev no_fragment_stats : FragmentStats
no_fragment_stats = record {
  packets_fragmented = 0;
  fragments_created = 0;
  tls_records_split = 0;
  bytes_processed = 0;
}

abbrev no_ua_stats : UaStats
no_ua_stats = record { requests_processed = 0; requests_modified = 0; headers_stripped = 0 }

unfoldable pub ua_stats : UaHarmonizer → UaStats
ua_stats h = record {
  requests_processed = h.requests_processed;
  requests_modified = h.requests_modified;
  headers_stripped = h.headers_stripped;
}

-- `Daemon.GetPrivacyStats`
unfoldable pub get_privacy_stats : Engine → PrivacyStats
get_privacy_stats d = record {
  ttl = elim d.ttl_normalizer [ none ↦ no_ttl_stats | some n ↦ n.stats ];
  fragmentation = elim d.fragmenter [ none ↦ no_fragment_stats | some f ↦ f.stats ];
  user_agent = elim d.ua_harmonizer [ none ↦ no_ua_stats | some h ↦ ua_stats h ];
}

-- The histogram with `uint32(k)` for its keys, which are TTLs and stay distinct.
unfoldable pub histogram : List (ℕ × ℕ) → List (ℕ × ℕ)
histogram [] = []
histogram ((ttl, n) ∷ m) = (ttl % 2 ^ 32, n) ∷ histogram m

-- The handler `GetPrivacyStats`
unfoldable pub handle_get_privacy_stats : Engine → PrivacyStats
handle_get_privacy_stats d =
    let stats = get_privacy_stats d in
    record stats { ttl = record stats.ttl { original_ttls = histogram stats.ttl.original_ttls } }
