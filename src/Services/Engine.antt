-- ===== src/Services/Engine.antt =====
-- core/go/internal/services/daemon.go: `SetPrivacyConfig`, which switches the privacy engine and the
-- proxy. A subsystem that is missing is `none`.
pub mod Limits
use air_bridge5g.Prelude.{ℕ, ◌+◌, ◌-◌, ◌*◌, ◌/◌, ◌%◌, ◌^◌, Bool, Option, map, ltb, if◌then◌else◌}
use air_bridge5g.Prelude.Int.{ℤ, pos, negsuc, sub_ℕ}
use air_bridge5g.Privacy.Fragment.{Fragmenter}
use air_bridge5g.Privacy.Fragment
use air_bridge5g.Privacy.Ttl.{Normalizer}
use air_bridge5g.Privacy.UserAgent.{UaHarmonizer}
use air_bridge5g.Proxy.RateLimiter.{RateLimiter, set_rate}
use air_bridge5g.Proxy.Server.{ServerConfig, update_privacy_config}
use mathlib.Core.Option

pub record PrivacyConfig : Type 0 where
  pub doh_enabled : Bool
  pub kill_switch_enabled : Bool
  pub ttl_enabled : Bool
  pub fragmenter_enabled : Bool
  pub ua_harmonize_enabled : Bool
  pub bandwidth_limit_kbps : ℤ

pub record Engine : Type 0 where
  pub privacy_cfg : PrivacyConfig
  pub ttl_normalizer : Option Normalizer
  pub fragmenter : Option Fragmenter
  pub ua_harmonizer : Option UaHarmonizer
  -- The proxy's configuration and its limiter
  pub proxy_server : Option (ServerConfig × RateLimiter)

-- A product with 1024 as an int64, from the bit pattern of its factor's magnitude
unfoldable pub times_1024 : ℤ → ℕ
times_1024 (pos k) = (k * 1024) % 2 ^ 64
times_1024 (negsuc k) = (2 ^ 64 - ((k + 1) * 1024) % 2 ^ 64) % 2 ^ 64

-- `int64(kbps) * 1024 / 8`, whose division drops the fraction on both sides of 0
unfoldable pub bytes_per_sec : ℤ → ℤ
bytes_per_sec kbps =
    let v = times_1024 kbps in if ltb v (2 ^ 63) then pos (v / 8) else sub_ℕ 0 ((2 ^ 64 - v) / 8)

-- `TTLNormalizer.SetEnabled` and `UAHarmonizer.SetEnabled`
unfoldable pub set_ttl_enabled : Bool → Normalizer → Normalizer
set_ttl_enabled b n = record n { enabled = b }

unfoldable pub set_ua_enabled : Bool → UaHarmonizer → UaHarmonizer
set_ua_enabled b h = record h { enabled = b }

unfoldable pub set_proxy : PrivacyConfig → ServerConfig × RateLimiter → ServerConfig × RateLimiter
set_proxy cfg (server, limiter) = (
  update_privacy_config cfg.doh_enabled cfg.kill_switch_enabled server,
  set_rate limiter (bytes_per_sec cfg.bandwidth_limit_kbps),
)

unfoldable pub set_privacy_config : PrivacyConfig → Engine → Engine
set_privacy_config cfg d = record {
  privacy_cfg = cfg;
  ttl_normalizer = Option.map (set_ttl_enabled cfg.ttl_enabled) d.ttl_normalizer;
  fragmenter = Option.map (λ f. Fragment.set_enabled f cfg.fragmenter_enabled) d.fragmenter;
  ua_harmonizer = Option.map (set_ua_enabled cfg.ua_harmonize_enabled) d.ua_harmonizer;
  proxy_server = Option.map (set_proxy cfg) d.proxy_server;
}
