-- ===== src/Services/Engine/Limits.antt =====
-- The bandwidth limit that core/go/internal/services/daemon.go sets, at work in the proxy's limiter.
use air_bridge5g.Prelude.{ℕ, ◌*◌, ◌^◌, ◌<◌, ◌≡◌, false, some, List, arith}
use air_bridge5g.Prelude.Int.{pos}
use air_bridge5g.Proxy.RateLimiter.{RateLimiter, new_rate_limiter, set_rate, wait}
use air_bridge5g.Proxy.RateLimiter.Tokens.{server-limit-starves}
use air_bridge5g.Proxy.Server.{ServerConfig, update_privacy_config}
use air_bridge5g.Services.Engine.{
  PrivacyConfig, Engine, times_1024, bytes_per_sec, set_proxy, set_privacy_config,
}

bytes_per_sec_lem : (k : ℕ) → k < 2 ^ 40 → bytes_per_sec (pos k) ≡ pos (k * 128)
unfolding bytes_per_sec times_1024
bytes_per_sec_lem k h = ground arith

-- Take a daemon with a proxy that has had no limit yet, and set a limit of 1 to 255 kilobits per
-- second. From then on the proxy's limiter never lets through a read or write of the relay's whole
-- buffer of 32768 bytes, whatever the clock shows and however long it waits.
pub low_limit-stalls :
    (mint : ℕ → ℕ → ℕ → ℕ) (cfg : PrivacyConfig) (d : Engine) (server : ServerConfig) (kbps now : ℕ)
    (clock : List ℕ)
    → d.proxy_server ≡ some (server, new_rate_limiter (pos 0) now)
    → cfg.bandwidth_limit_kbps ≡ pos kbps
    → 0 < kbps
    → kbps < 256
    → (server' : ServerConfig) × (limiter : RateLimiter) × ((set_privacy_config cfg d).proxy_server
        ≡ some (server', limiter))
      × ((wait mint 32_768 clock limiter).1 ≡ false)
unfolding set_privacy_config set_proxy
low_limit-stalls mint cfg d server kbps now clock e k h l = (
  update_privacy_config cfg.doh_enabled cfg.kill_switch_enabled server,
  set_rate (new_rate_limiter (pos 0) now) (pos (kbps * 128)),
  ground (arith, e, k, bytes_per_sec_lem kbps (omega arith)),
  server-limit-starves mint (kbps * 128) 32_768 now clock (omega arith) (omega arith),
)
