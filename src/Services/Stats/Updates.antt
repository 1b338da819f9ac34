-- ===== src/Services/Stats/Updates.antt =====
-- What a client of core/go/internal/services/grpc_server.go sees of the traffic, and of the privacy
-- engine.
use air_bridge5g.Prelude.{
  ℕ, ◌^◌, ◌<◌, ◌≡◌, refl, ◌∙◌, Bool, true, false, Option, none, some, List, [], ◌∷◌, map, arith,
  if◌then◌else◌, All,
}
use air_bridge5g.Privacy.Fragment.{set_enabled}
use air_bridge5g.Services.Daemon.{Reading, Snapshot, Collector, tick, get_traffic_snapshot, latest}
use air_bridge5g.Services.Daemon.History.{
  reading_of, run_ticks, readings, last, history-last, get_traffic_snapshot-tick,
}
use air_bridge5g.Services.Engine.{
  Engine, PrivacyConfig, set_privacy_config, set_ttl_enabled, set_ua_enabled,
}
use air_bridge5g.Services.Stats.{
  SnapshotMessage, snapshot_message, StreamEvent, collects, updates, done, stream_traffic_stats,
  get_traffic_stats, get_privacy_stats, ua_stats, histogram, handle_get_privacy_stats,
}

-- The part of a message that is no throughput.
unfoldable pub message_reading : SnapshotMessage → Reading
message_reading m = record {
  bytes_in = m.bytes_in;
  bytes_out = m.bytes_out;
  active_connections = m.active_connections;
  total_connections = m.total_connections;
  packets_processed = m.packets_processed;
}

snapshot_message_lem : (s : Snapshot) → message_reading (snapshot_message s) ≡ s.reading
unfolding message_reading snapshot_message
snapshot_message_lem s = refl

-- The reading of the last tick, and the one before where there is no tick.
unfoldable pub last_tick : Option Reading → List (Reading × ℕ) → Option Reading
last_tick before [] = before
last_tick before ((r, now) ∷ ts) = last_tick (some r) ts

-- What an update shows: the last tick, and what is read at the update where there was none.
unfoldable pub shown_reading : Option Reading → Snapshot → Reading
shown_reading none current = current.reading
shown_reading (some r) current = r

-- The stream that keeps the last tick, and nothing of a history: what it sends.
unfoldable pub stream_of_readings : Option Reading → List StreamEvent → List Reading × Bool
stream_of_readings last_one [] = ([], true)
stream_of_readings last_one (collects r now ∷ events) = stream_of_readings (some r) events
stream_of_readings last_one (updates current sent ∷ events) =
    let rest = stream_of_readings last_one events in
    let r = shown_reading last_one current in if sent then (r ∷ rest.0, rest.1) else (r ∷ [], false)
stream_of_readings last_one (done ∷ events) = ([], true)

-- The snapshots of a collector are those of the tick, whatever is read meanwhile.
abbrev Shows : Option Reading → Collector → Type 0
Shows last_one c =
    (current : Snapshot) → (get_traffic_snapshot current c).reading ≡ shown_reading last_one current

tick-Shows : (r : Reading) (now : ℕ) (c : Collector) → Shows (some r) (tick r now c)
unfolding shown_reading
tick-Shows r now c current = get_traffic_snapshot-tick current r now c

run_ticks-Shows :
    (last_one : Option Reading) (c : Collector) (ts : List (Reading × ℕ))
    → Shows last_one c
    → Shows (last_tick last_one ts) (run_ticks c ts)
unfolding last_tick
run_ticks-Shows last_one c [] h = h
run_ticks-Shows last_one c ((r, now) ∷ ts) h =
    run_ticks-Shows (some r) (tick r now c) ts (tick-Shows r now c)

no_ticks-Shows : (c : Collector) → c.traffic_history ≡ [] → Shows none c
unfolding get_traffic_snapshot latest shown_reading
no_ticks-Shows c h current = rw h refl

stream-latest :
    (last_one : Option Reading) (c : Collector) (events : List StreamEvent)
    → Shows last_one c
    → let (sent, ok) = stream_traffic_stats c events in
      (map message_reading sent, ok) ≡ stream_of_readings last_one events
unfolding stream_traffic_stats stream_of_readings
stream-latest last_one c [] h = refl
stream-latest last_one c (collects r now ∷ events) h =
    stream-latest (some r) (tick r now c) events (tick-Shows r now c)
stream-latest last_one c (updates current true ∷ events) h = ground (
  arith,
  stream-latest last_one c events h,
  snapshot_message_lem (get_traffic_snapshot current c),
  h current,
)
stream-latest last_one c (updates current false ∷ events) h =
    ground (arith, snapshot_message_lem (get_traffic_snapshot current c), h current)
stream-latest last_one c (done ∷ events) h = refl

messages-readings :
    (xs : List Snapshot) → map message_reading (map snapshot_message xs) ≡ map reading_of xs
messages-readings [] = refl
messages-readings (x ∷ xs) = ground (arith, snapshot_message_lem x, messages-readings xs)

-- What a client sees of the traffic after any ticks of a new collector. `GetTrafficStats` answers
-- with the present reading and with those of the last 60 ticks in their order; and a stream that
-- begins then, whatever it and the collector do in which order, is the one that remembers a single
-- reading: each update has that of the last tick before it, or what is read at the update itself
-- where there has been no tick; and the stream ends with an error at the first update that cannot be
-- sent, and with none when the client goes.
pub stream_traffic_stats-refines :
    (current : Snapshot) (c : Collector) (ts : List (Reading × ℕ)) (events : List StreamEvent)
    → c.traffic_history ≡ []
    → let c' = run_ticks c ts in
      let answer = get_traffic_stats current c' in
      let (sent, ok) = stream_traffic_stats c' events in
      (message_reading answer.current ≡ current.reading)
      × (map message_reading answer.history ≡ last 60 (readings ts))
      × ((map message_reading sent, ok) ≡ stream_of_readings (last_tick none ts) events)
unfolding get_traffic_stats
stream_traffic_stats-refines current c ts events h = (
  snapshot_message_lem current,
  messages-readings (run_ticks c ts).traffic_history ∙ history-last c ts h,
  stream-latest (last_tick none ts) (run_ticks c ts) events
      (run_ticks-Shows none c ts (no_ticks-Shows c h)),
)

get_privacy_stats-set_privacy_config :
    (cfg : PrivacyConfig) (d : Engine)
    → get_privacy_stats (set_privacy_config cfg d) ≡ get_privacy_stats d
unfolding get_privacy_stats set_privacy_config set_ttl_enabled set_ua_enabled set_enabled ua_stats
get_privacy_stats-set_privacy_config cfg d = ground arith

histogram-bytes : (m : List (ℕ × ℕ)) → All (λ (p : ℕ × ℕ). p.0 < 2 ^ 32) m → histogram m ≡ m
unfolding histogram
histogram-bytes [] h = refl
histogram-bytes ((ttl, n) ∷ m) h = ground (arith, histogram-bytes m h.1, h.0)

-- Switching the engine and the proxy by `SetPrivacyConfig` resets no statistics: with the TTLs of
-- its histogram below 2³², the handler `GetPrivacyStats` answers after it with the counters that the
-- parts of the engine had before, whichever of them there are.
pub handle_get_privacy_stats-set_privacy_config :
    (cfg : PrivacyConfig) (d : Engine)
    → All (λ (p : ℕ × ℕ). p.0 < 2 ^ 32) (get_privacy_stats d).ttl.original_ttls
    → handle_get_privacy_stats (set_privacy_config cfg d) ≡ get_privacy_stats d
unfolding handle_get_privacy_stats
handle_get_privacy_stats-set_privacy_config cfg d h = ground (
  arith,
  get_privacy_stats-set_privacy_config cfg d,
  histogram-bytes (get_privacy_stats d).ttl.original_ttls h,
)
