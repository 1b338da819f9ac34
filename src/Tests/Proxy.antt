-- ===== src/Tests/Proxy.antt =====
-- Concrete inputs of core/go/internal/proxy.
use air_bridge5g.Prelude.{
  ℕ, ◌+◌, ◌-◌, ◌*◌, ◌%◌, ◌^◌, ◌≤◌, ◌≡◌, refl, true, false, none, some, List, [], ◌∷◌, ◌++◌, arith,
  Bytes, length,
}
use air_bridge5g.Tests.Samples.{draw, draw_lt, sink, content, sink-Takes}
use air_bridge5g.Tests.Privacy.{
  small, splitter, repeat_byte, small-IsValid, splitter-IsValid, bytes_below,
}
use air_bridge5g.Prelude.Int.{pos}
use air_bridge5g.Proxy.Relay.{Sink, copy_loop, fragmenting_write, short_write, ReadResult}
use air_bridge5g.Proxy.Relay.Copies.{relayed, ending}
use air_bridge5g.Proxy.Relay.Fragmented.{
  IsLossless, IsLongRecord, relay_delivers, tls_split-ends-relay,
}
use air_bridge5g.Proxy.RateLimiter.{RateLimiter, new_rate_limiter, wait}
use air_bridge5g.Services.Engine.{PrivacyConfig, Engine, set_privacy_config}
use air_bridge5g.Services.Engine.Limits.{low_limit-stalls}
use air_bridge5g.Proxy.Server.{
  ServerConfig, new_server, Server, Steps, stay, next, admit, start, initial, start_handler, go_to,
  admitted, is_full,
}
use air_bridge5g.Proxy.Server.Connections.{connections-bounded}

abbrev client : Sink Bytes (Unit {0})
client = record { target = []; fragmenter = small; rng = tt }

client-IsLossless : IsLossless client
client-IsLossless = record { valid = small-IsValid; strategy = λ e. cc }

abbrev reads : List ReadResult
reads = (repeat_byte 100 7, false) ∷ (3 ∷ 4 ∷ [], true) ∷ (5 ∷ [], false) ∷ []

relay_delivers_example :
    (k' : Sink Bytes (Unit {0})) × (copy_loop (fragmenting_write sink draw) client 0 reads
      ≡ some (k', length (relayed reads) % 2 ^ 64, ending reads))
    × (content k'.target ≡ [] ++ relayed reads)
relay_delivers_example =
    relay_delivers sink content sink-Takes draw draw_lt client reads client-IsLossless

abbrev tls_client : Sink Bytes (Unit {0})
tls_client = record client { fragmenter = splitter }

-- A record of 100 bytes with nothing behind it.
abbrev long_record : Bytes
long_record = 22 ∷ 3 ∷ 1 ∷ 0 ∷ 100 ∷ repeat_byte 100 9

long_record-IsLongRecord : IsLongRecord splitter long_record
long_record-IsLongRecord = record {
  split_type = refl;
  bytes = (
    omega arith,
    (omega arith, (omega arith, (omega arith, (omega arith, bytes_below 100 9 (omega arith))))),
  );
  exact = omega arith;
  long = omega arith;
}

tls_split-ends-relay_example :
    (k' : Sink Bytes (Unit {0})) × (total : ℕ) × (copy_loop
        (fragmenting_write sink draw)
        tls_client
        0
        ((long_record, false) ∷ (1 ∷ [], false) ∷ [])
      ≡ some (k', total, short_write))
    × (length (content []) + length long_record + 5 ≤ length (content k'.target))
tls_split-ends-relay_example =
    tls_split-ends-relay sink content sink-Takes draw draw_lt tls_client long_record false
      ((1 ∷ [], false) ∷ []) splitter-IsValid refl refl long_record-IsLongRecord

-- One token for each tick of the clock and unit of the rate.
abbrev mint : ℕ → ℕ → ℕ → ℕ
mint last now rate = (now - last) * rate

abbrev limits : PrivacyConfig
limits = record {
  doh_enabled = false;
  kill_switch_enabled = true;
  ttl_enabled = true;
  fragmenter_enabled = true;
  ua_harmonize_enabled = true;
  bandwidth_limit_kbps = pos 64;
}

abbrev server : ServerConfig
server = new_server (record {
  max_connections = pos 0;
  dial_timeout = pos 0;
  relay_buf_size = pos 0;
  doh_enabled = false;
  kill_switch_enabled = false;
})

abbrev engine : Engine
engine = record {
  privacy_cfg = limits;
  ttl_normalizer = none;
  fragmenter = none;
  ua_harmonizer = none;
  proxy_server = some (server, new_rate_limiter (pos 0) 0);
}

low_limit-stalls_example :
    (server' : ServerConfig) × (limiter : RateLimiter) × ((set_privacy_config limits
        engine).proxy_server
      ≡ some (server', limiter))
    × ((wait mint 32_768 (1 ∷ 2 ∷ 3 ∷ []) limiter).1 ≡ false)
low_limit-stalls_example =
    low_limit-stalls mint limits engine server 64 0 (1 ∷ 2 ∷ 3 ∷ []) refl refl (omega arith)
      (omega arith)

abbrev bucket : RateLimiter
bucket = record {
  bytes_per_sec = 1000;
  tokens = pos 0;
  max_burst = 1000;
  last_refill = 0;
  enabled = true;
}

-- One connection that is served, under a limit of 1.
abbrev serving : Server
serving = start_handler (go_to admitted (initial 1))

serving-reached : Steps (initial 1) serving
unfolding is_full go_to start_handler
serving-reached = next (next stay (admit refl refl)) (start refl)

connections-bounded_example :
    (serving.active_connections ≡ serving.handlers) × (serving.handlers ≤ 1)
connections-bounded_example = connections-bounded 1 serving (omega arith) serving-reached
