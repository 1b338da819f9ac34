-- ===== src/Services/Pairing.antt =====
-- The pairing of two nodes in core/go/internal/services/daemon.go and daemon_api.go: the credentials
-- of a QR code, the address that they name, and their import. Randomness, the clock, the JSON and
-- base64 encodings and the interfaces of the host are arguments.
pub mod Addresses
pub mod Ports
pub mod Imports
use air_bridge5g.Prelude.{
  ℕ, ◌+◌, ◌*◌, Bool, not, ◌&&◌, ◌||◌, Option, none, some, List, [], ◌∷◌, ◌++◌, Bytes, codes, ltb,
  ◌==◌, if◌then◌else◌, length,
}
use air_bridge5g.Prelude.Result.{Result, ok, err}
use air_bridge5g.Prelude.Int.{ℤ, pos, negsuc, ltb_ℤ}
use air_bridge5g.Prelude.Format.{decimal, sprintf_port}
use air_bridge5g.Prelude.Hosts.{split_host_port, atoi}
use air_bridge5g.Privacy.UserAgent.{to_lower, contains, contains_any}
use air_bridge5g.Services.Daemon.{DaemonConfig}
use air_bridge5g.Mesh.Events.{PeerInfo}
use air_bridge5g.Mesh.LibP2p.{MeshError, LibP2pService, connect}

-- An address of an interface: an IPv4 address with whether it is a loopback address, or another.
pub data InterfaceAddr : Type 0 where
  ipv4 : Bool → ℕ → ℕ → ℕ → ℕ → InterfaceAddr
  other_addr : InterfaceAddr

pub record Interface : Type 0 where
  pub name : Bytes
  pub is_up : Bool
  pub is_loopback : Bool
  -- `none` where `Addrs` fails
  pub addrs : Option (List InterfaceAddr)

abbrev pub loopback_ip : Bytes
loopback_ip = codes "127.0.0.1"

-- `ip4.String()`
unfoldable pub ip_string : ℕ → ℕ → ℕ → ℕ → Bytes
ip_string a b c d = decimal 3 a ++ (46 ∷ decimal 3 b ++ (46 ∷ decimal 3 c ++ (46 ∷ decimal 3 d)))

abbrev pub virtual_names : List Bytes
virtual_names =
    codes "docker"
    ∷ codes "vbox"
    ∷ codes "veth"
    ∷ codes "wsl"
    ∷ codes "br-"
    ∷ codes "tun"
    ∷ codes "tap"
    ∷ codes "vnic"
    ∷ codes "vmnet"
    ∷ []

abbrev pub preferred_names : List Bytes
preferred_names = codes "wlan" ∷ codes "wifi" ∷ codes "eth" ∷ codes "en" ∷ []

unfoldable pub is_virtual : Bytes → Bool
is_virtual name = contains_any virtual_names (to_lower name)

unfoldable pub is_preferred : Bytes → Bool
is_preferred name = contains_any preferred_names (to_lower name)

-- The loop over the addresses of one interface: the address that is returned, if one is, and the
-- fallback.
unfoldable pub scan_addrs : Bytes → List InterfaceAddr → Bytes → Option Bytes × Bytes
scan_addrs name [] fallback = (none, fallback)
scan_addrs name (other_addr ∷ addrs) fallback = scan_addrs name addrs fallback
scan_addrs name (ipv4 loops a b c d ∷ addrs) fallback =
    let rest = scan_addrs name addrs (
      if loops then fallback else (if length fallback == 0 then ip_string a b c d else fallback)) in
    if not loops && is_preferred name then (some (ip_string a b c d), fallback) else rest

-- The interfaces that the loop goes into.
unfoldable pub is_skipped : Interface → Bool
is_skipped iface = not iface.is_up || iface.is_loopback || is_virtual iface.name

unfoldable pub addrs_of : Interface → List InterfaceAddr
addrs_of iface =
    if is_skipped iface then [] else elim iface.addrs [ none ↦ [] | some addrs ↦ addrs ]

unfoldable pub scan_interfaces : List Interface → Bytes → Option Bytes × Bytes
scan_interfaces [] fallback = (none, fallback)
scan_interfaces (iface ∷ ifaces) fallback =
    let (found, fallback') = scan_addrs iface.name (addrs_of iface) fallback in
    let rest = scan_interfaces ifaces fallback' in
    elim found [ some ip ↦ (some ip, fallback') | none ↦ rest ]

-- Behind the loops.
unfoldable pub choose_ip : Option Bytes × Bytes → Bytes
choose_ip (some ip, fallback) = ip
choose_ip (none, fallback) = if length fallback == 0 then loopback_ip else fallback

-- `none` where `net.Interfaces` fails.
unfoldable pub detect_local_ip : Option (List Interface) → Bytes
detect_local_ip none = loopback_ip
detect_local_ip (some ifaces) = choose_ip (scan_interfaces ifaces [])

-- `err != nil || port <= 0 || port > 65535`
unfoldable pub valid_port : Option ℤ → ℕ
valid_port none = 1080
valid_port (some (negsuc n)) = 1080
valid_port (some (pos n)) = if n == 0 || ltb 65535 n then 1080 else n

unfoldable pub extract_port : Bytes → ℕ
extract_port address = elim (split_host_port address) [
  | none ↦ 1080
  | some (host, port) ↦ valid_port (atoi port)
]

pub record QrCredentials : Type 0 where
  pub node_id : Bytes
  pub proxy_host : Bytes
  pub proxy_port : ℤ
  pub quic_port : ℤ
  pub encryption_key : Bytes
  pub expires_at : ℤ
  pub auth_token : Bytes

pub data PairingError : Type 0 where
  generate_encryption_key generate_auth_token decode_qr_payload : PairingError
  unmarshal_qr_credentials credentials_expired : PairingError
  mesh_connect : MeshError → PairingError

-- 24 * time.Hour, in milliseconds
abbrev pub lifetime : ℕ
lifetime = 24 * 3600 * 1000

module _ (encode64 : Bytes → Bytes) where
  -- `GenerateQRCredentials`: `key` and `token` are what `rand.Read` gives, and `now` the time in
  -- milliseconds.
  unfoldable pub generate_qr_credentials :
      Option Bytes
      → Option Bytes
      → Option (List Interface)
      → ℕ
      → DaemonConfig
      → Result PairingError QrCredentials
  generate_qr_credentials none token ifaces now cfg = err generate_encryption_key
  generate_qr_credentials (some key) none ifaces now cfg = err generate_auth_token
  generate_qr_credentials (some key) (some token) ifaces now cfg = ok (record {
    node_id = cfg.node_id;
    proxy_host = detect_local_ip ifaces;
    proxy_port = pos (extract_port cfg.proxy_address);
    quic_port = cfg.quic_port;
    encryption_key = encode64 key;
    expires_at = pos (now + lifetime);
    auth_token = encode64 token;
  })

  unfoldable pub encode_qr_payload : (QrCredentials → Bytes) → QrCredentials → Bytes
  encode_qr_payload marshal creds = encode64 (marshal creds)

module _ (decode64 : Bytes → Option Bytes) (unmarshal : Bytes → Option QrCredentials) where
  unfoldable pub decode_qr_payload_with : Bytes → Result PairingError QrCredentials
  decode_qr_payload_with payload = elim (decode64 payload) [
    | none ↦ err decode_qr_payload
    | some text ↦ elim (unmarshal text) [
      | none ↦ err unmarshal_qr_credentials
      | some creds ↦ ok creds
    ]
  ]

-- `fmt.Sprintf("%s:%d", creds.ProxyHost, creds.QUICPort)`
unfoldable pub sprintf_int : Bytes → ℤ → Bytes
sprintf_int host (pos n) = host ++ (58 ∷ decimal 20 n)
sprintf_int host (negsuc n) = host ++ (58 ∷ 45 ∷ decimal 20 (n + 1))

abbrev pub qr_peer : QrCredentials → PeerInfo
qr_peer creds = record {
  id = creds.node_id;
  public_key = [];
  addrs = sprintf_int creds.proxy_host creds.quic_port ∷ [];
}

-- `ImportQRCredentials` on what the payload decodes to; `now` is the time in milliseconds, and
-- `seen` the one in nanoseconds that `Connect` reads.
unfoldable pub import_qr_credentials :
    (ℕ → Bytes → Bool)
    → (ℕ → Bool)
    → ℕ
    → ℕ
    → Result PairingError QrCredentials
    → Option LibP2pService
    → Option PairingError × Option LibP2pService
import_qr_credentials dial upgrade now seen (err e) mesh = (some e, mesh)
import_qr_credentials dial upgrade now seen (ok creds) none =
    (if ltb_ℤ creds.expires_at (pos now) then some credentials_expired else none, none)
import_qr_credentials dial upgrade now seen (ok creds) (some s) =
    if ltb_ℤ creds.expires_at (pos now)
    then (some credentials_expired, some s)
    else let (e, s') = connect dial upgrade (qr_peer creds) seen s in
      (elim e [ none ↦ none | some x ↦ some (mesh_connect x) ], some s')
