-- ===== src/Tests/Pairing.antt =====
-- Concrete inputs of the pairing, the daemon and the handlers of core/go/internal/services.
use air_bridge5g.Prelude.{
  ℕ, ◌≡◌, refl, true, false, Option, none, some, List, [], ◌∷◌, Bytes, codes, if◌then◌else◌,
}
use air_bridge5g.Prelude.Int.{pos}
use air_bridge5g.Proxy.Socks5.{Conn, Ip, ip4, handle_connection}
use air_bridge5g.Mesh.LibP2p.{LibP2pService, new_service}
use air_bridge5g.Services.Tunnel.{tunnel_stopped}
use air_bridge5g.Services.Daemon.{
  Daemon, role_unspecified, default_daemon_config, new_daemon, main_proxy,
}
use air_bridge5g.Services.Daemon.Reload.{validator, main_proxy-refuses}
use air_bridge5g.Services.Handlers.{Request, start_request, set_role_request, serve_all, get_status}
use air_bridge5g.Services.Handlers.Replies.{known, last_role, last_started, get_status-serve_all}
use air_bridge5g.Services.Pairing.{Interface, ipv4, other_addr, detect_local_ip}
use air_bridge5g.Services.Pairing.Addresses.{candidates, pick, detect_local_ip-pick}
use air_bridge5g.Tests.Samples.{sink}

-- A bridge of containers, and a wireless interface.
abbrev interfaces : List Interface
interfaces =
    record {
      name = codes "docker0";
      is_up = true;
      is_loopback = false;
      addrs = some (ipv4 false 172 17 0 1 ∷ []);
    }
    ∷ record {
      name = codes "wlan0";
      is_up = true;
      is_loopback = false;
      addrs = some (other_addr ∷ ipv4 false 192 168 1 4 ∷ []);
    }
    ∷ []

detect_local_ip-pick_example : detect_local_ip (some interfaces) ≡ pick (candidates interfaces)
detect_local_ip-pick_example = detect_local_ip-pick interfaces

abbrev plain : Bytes → Bytes
plain bs = bs

-- The daemon of main.go.
abbrev daemon : Daemon
daemon = new_daemon default_daemon_config (some main_proxy) (some false)

abbrev client : Conn Bytes
client = record {
  input = 5 ∷ 1 ∷ 2 ∷ 1 ∷ 1 ∷ 117 ∷ 1 ∷ 112 ∷ [];
  out = [];
  auth_failures = 0;
  connection_errors = 0;
}

abbrev target : Bytes → Option (Ip × ℕ)
target addr = some (ip4 (10 ∷ 0 ∷ 0 ∷ 9 ∷ []), 80)

main_proxy-refuses_example :
    (handle_connection sink plain target (validator main_proxy) client).0 ≡ none
main_proxy-refuses_example = main_proxy-refuses sink plain target client

abbrev calls : List Request
calls = start_request true (pos 1) ∷ set_role_request (pos 9) ∷ []

new_role : daemon.role ≡ role_unspecified
unfolding new_daemon
new_role = refl

new_state : daemon.tunnel_state ≡ tunnel_stopped
unfolding new_daemon
new_state = refl

abbrev importer : LibP2pService
importer = new_service (codes "n2") []

get_status-serve_all_example :
    ((get_status (some importer) (serve_all calls daemon)).role ≡ known (last_role (pos 0) calls))
    × ((get_status (some importer) (serve_all calls daemon)).tunnel_state
        ≡ (if last_started false calls then pos 3 else pos 1))
get_status-serve_all_example = get_status-serve_all calls (some importer) daemon new_role new_state
