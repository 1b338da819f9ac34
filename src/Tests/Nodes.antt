-- ===== src/Tests/Nodes.antt =====
-- Concrete inputs of two nodes that pair, of the traffic that a client sees, and of a node's end, in
-- core/go/internal/services.
use air_bridge5g.Prelude.{
  ℕ, ◌+◌, ◌*◌, ◌≡◌, refl, ◌↔◌, inl, Bool, true, false, not, Option, none, some, List, [], ◌∷◌, map,
  arith, Bytes, codes, ltb, if◌then◌else◌,
}
use air_bridge5g.Prelude.Int.{pos}
use air_bridge5g.Prelude.Map.{str_eq, lookup}
use air_bridge5g.Prelude.Result.{ok}
use air_bridge5g.Mesh.Events.{PeerInfo}
use air_bridge5g.Mesh.LibP2p.{LibP2pService, new_service, dial_addrs, connect}
use air_bridge5g.Services.Tunnel.{tunnel_stopped}
use air_bridge5g.Services.Daemon.{
  default_daemon_config, new_daemon, main_proxy, Reading, Snapshot, Collector,
}
use air_bridge5g.Services.Daemon.History.{run_ticks, readings, last}
use air_bridge5g.Services.Handlers.{start_request}
use air_bridge5g.Services.Pairing.{
  QrCredentials, credentials_expired, lifetime, detect_local_ip, extract_port, sprintf_int,
}
use air_bridge5g.Services.Credentials.{
  GenerateQrResponse, ImportQrResponse, generate_response, handle_generate_qr, handle_import_qr,
}
use air_bridge5g.Services.Credentials.Pairs.{
  credentials, generating_peer, handle_import_qr-handle_generate_qr,
}
use air_bridge5g.Services.Lifecycle.{
  Node, start_node, Action, serves, reloads, restarts, proxy_fails, proxy_returns, act_all,
  stop_node, exit_main,
}
use air_bridge5g.Services.Lifecycle.Exit.{IsJustified, exit_main-releases}
use air_bridge5g.Services.Stats.{
  SnapshotMessage, StreamEvent, collects, updates, done, stream_traffic_stats, get_traffic_stats,
}
use air_bridge5g.Services.Stats.Updates.{
  message_reading, stream_of_readings, last_tick, stream_traffic_stats-refines,
}

abbrev plain : Bytes → Bytes
plain bs = bs

abbrev plain_back : Bytes → Option Bytes
plain_back bs = some bs

abbrev made : QrCredentials
made = credentials plain (codes "key") (codes "token") none 1000 default_daemon_config

abbrev text_of : QrCredentials → Bytes
text_of creds = creds.node_id

abbrev parse_text : Bytes → Option QrCredentials
parse_text bs = if str_eq bs default_daemon_config.node_id then some made else none

abbrev importer : LibP2pService
importer = record (new_service (codes "n2") []) { started = true }

abbrev dial : ℕ → Bytes → Bool
dial n addr = true

abbrev upgrade : ℕ → Bool
upgrade n = true

abbrev shown : GenerateQrResponse
shown = generate_response plain plain text_of made

abbrev imported : ImportQrResponse × Option LibP2pService
imported =
    handle_import_qr plain_back parse_text dial upgrade 5000 9 shown.qr_payload (some importer)

abbrev first_node : PeerInfo
first_node = generating_peer none default_daemon_config

abbrev connected : LibP2pService
connected = (connect dial upgrade first_node 9 importer).1

parses : parse_text (text_of made) ≡ some made
unfolding str_eq
parses = refl

differs : str_eq default_daemon_config.node_id importer.node_id ≡ false
unfolding str_eq new_service
differs = refl

abbrev expired : Bool
expired = ltb (1000 + lifetime) 5000

handle_import_qr-handle_generate_qr_example :
    (handle_generate_qr plain plain text_of
        (some (codes "key"))
        (some (codes "token"))
        none
        1000
        default_daemon_config
      ≡ ok shown)
    × (shown.encryption_key ≡ codes "key")
    × (imported.0.success ≡ not expired)
    × (imported.0.error_message ≡ (if expired then some credentials_expired else none))
    × (imported.0.peer_id ≡ (if expired then [] else default_daemon_config.node_id))
    × (imported.0.proxy_address ≡ (
        if expired
        then []
        else sprintf_int
            (detect_local_ip none)
            (pos (extract_port default_daemon_config.proxy_address))))
    × (imported.1 ≡ some (if expired then importer else connected))
    × (lookup default_daemon_config.node_id connected.peers
        ≡ some (record {
          info = first_node;
          connected_at = 9;
          last_seen = 9;
          conn = (dial_addrs dial upgrade first_node.addrs importer.conns).0;
        }))
handle_import_qr-handle_generate_qr_example =
    handle_import_qr-handle_generate_qr plain plain plain_back text_of parse_text dial upgrade
      (codes "key") (codes "token") none 1000 5000 9 default_daemon_config importer (λ bs. refl)
      refl parses refl differs

abbrev reading : ℕ → Reading
reading n = record {
  bytes_in = n;
  bytes_out = 2 * n;
  active_connections = 1;
  total_connections = 4;
  packets_processed = 0;
}

abbrev present : Snapshot
present = record { reading = reading 7; bits_in = 0; bits_out = 0; elapsed = 1 }

abbrev collector : Collector
collector = record { prev_in = 0; prev_out = 0; prev_time = 0; traffic_history = [] }

abbrev ticks : List (Reading × ℕ)
ticks = (reading 5, 1) ∷ (reading 6, 2) ∷ []

abbrev events : List StreamEvent
events =
    updates present true
    ∷ collects (reading 8) 3
    ∷ updates present true
    ∷ updates present false
    ∷ done
    ∷ []

abbrev streamed : List SnapshotMessage × Bool
streamed = stream_traffic_stats (run_ticks collector ticks) events

stream_traffic_stats-refines_example :
    (message_reading (get_traffic_stats present (run_ticks collector ticks)).current ≡ reading 7)
    × (map message_reading (get_traffic_stats present (run_ticks collector ticks)).history
        ≡ last 60 (readings ticks))
    × ((map message_reading streamed.0, streamed.1)
        ≡ stream_of_readings (last_tick none ticks) events)
stream_traffic_stats-refines_example =
    stream_traffic_stats-refines present collector ticks events refl

abbrev node : Node
node = record {
  daemon = new_daemon default_daemon_config (some main_proxy) (some false);
  mesh = some (new_service (codes "n1") []);
  cancelled = none;
}

-- A master's tunnel that is started, moved to another address, and started anew, and whose second
-- proxy fails.
abbrev life : List Action
life =
    serves (start_request true (pos 1))
    ∷ reloads ((codes "SECUREMESH_PROXY_ADDR", codes "127.0.0.1:1081") ∷ [])
    ∷ restarts true true
    ∷ proxy_returns
    ∷ proxy_fails
    ∷ []

unlocked : IsJustified node.daemon
unfolding new_daemon
unlocked = inl (λ e. ground (arith, e))

abbrev lived : Node
lived = act_all life (start_node node)

abbrev ended : Node
ended = exit_main true true lived

exit_main-releases_example :
    IsJustified lived.daemon
    × ((stop_node true lived).daemon.tunnel_state ≡ tunnel_stopped)
    × ((stop_node true lived).daemon.kill_switch ≡ lived.daemon.kill_switch)
    × ((s : LibP2pService) × (ended.mesh ≡ some s) × (s.started ≡ false))
    × (ended.cancelled ≡ some true)
    × ((ended.daemon.kill_switch ≡ some true)
        ↔ ((lived.daemon.kill_switch ≡ some true) × (true ≡ false)))
exit_main-releases_example =
    exit_main-releases life true true node (new_service (codes "n1") []) refl unlocked
      (tt, (tt, (refl, (tt, (tt, tt)))))
