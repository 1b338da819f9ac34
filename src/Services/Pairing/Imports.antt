-- ===== src/Services/Pairing/Imports.antt =====
-- Credentials that one node generates and another imports, in core/go/internal/services/daemon.go
-- and daemon_api.go.
use air_bridge5g.Prelude.{
  ℕ, ◌+◌, ◌≤◌, ◌<◌, ◌≡◌, ap, Bool, true, false, Option, none, some, List, [], ◌∷◌, arith, Bytes,
}
use air_bridge5g.Prelude.Result.{ok}
use air_bridge5g.Prelude.Int.{pos, ltb_ℤ}
use air_bridge5g.Prelude.Map.{str_eq, lookup, str_eq_refl}
use air_bridge5g.Services.Daemon.{DaemonConfig}
use air_bridge5g.Mesh.Events.{PeerInfo}
use air_bridge5g.Mesh.LibP2p.{LibP2pService, dial_addrs, connect}
use air_bridge5g.Mesh.LibP2p.Table.{connect-table}
use air_bridge5g.Services.Pairing.{
  Interface, detect_local_ip, QrCredentials, PairingError, credentials_expired, lifetime,
  generate_qr_credentials, encode_qr_payload, decode_qr_payload_with, sprintf_int, qr_peer,
  import_qr_credentials,
}

-- What is generated.
pub generated :
    (encode64 : Bytes → Bytes) (key token : Bytes) (ifaces : Option (List Interface)) (made : ℕ)
    (cfg : DaemonConfig) (creds : QrCredentials)
    → generate_qr_credentials encode64 (some key) (some token) ifaces made cfg ≡ ok creds
    → (creds.node_id ≡ cfg.node_id)
      × (creds.proxy_host ≡ detect_local_ip ifaces)
      × (creds.quic_port ≡ cfg.quic_port)
      × (creds.expires_at ≡ pos (made + lifetime))
unfolding generate_qr_credentials
generated encode64 key token ifaces made cfg creds g = ground arith

pub import-expired :
    (dial : ℕ → Bytes → Bool) (upgrade : ℕ → Bool) (now seen : ℕ) (creds : QrCredentials)
    (s : LibP2pService)
    → ltb_ℤ creds.expires_at (pos now) ≡ true
    → import_qr_credentials dial upgrade now seen (ok creds) (some s)
      ≡ (some credentials_expired, some s)
unfolding import_qr_credentials
import-expired dial upgrade now seen creds s h = ground arith

pub import-valid :
    (dial : ℕ → Bytes → Bool) (upgrade : ℕ → Bool) (now seen : ℕ) (creds : QrCredentials)
    (s : LibP2pService)
    → ltb_ℤ creds.expires_at (pos now) ≡ false
    → s.started ≡ true
    → str_eq creds.node_id s.node_id ≡ false
    → import_qr_credentials dial upgrade now seen (ok creds) (some s)
      ≡ (none, some (connect dial upgrade (qr_peer creds) seen s).1)
unfolding import_qr_credentials
import-valid dial upgrade now seen creds s h st ne =
    ground (arith, connect-table dial upgrade (qr_peer creds) seen s [])

module _ (encode64 : Bytes → Bytes) (decode64 : Bytes → Option Bytes)
    (marshal : QrCredentials → Bytes) (unmarshal : Bytes → Option QrCredentials)
    (base64 : (bs : Bytes) → decode64 (encode64 bs) ≡ some bs) where
  pub decode-encode :
      (creds : QrCredentials)
      → unmarshal (marshal creds) ≡ some creds
      → decode_qr_payload_with decode64 unmarshal (encode_qr_payload encode64 marshal creds)
        ≡ ok creds
  unfolding decode_qr_payload_with encode_qr_payload
  decode-encode creds json = ground (arith, base64 (marshal creds), json)

  -- The credentials that a node generates, shown as a QR payload and imported by another node whose
  -- mesh runs: up to 24 hours later the import answers nil, and the other node's table then has an
  -- entry for the first node's identity, dialled at the host that was detected and the QUIC port of
  -- its configuration; later than that it answers that the credentials have expired, and changes
  -- nothing. The importing node is not the generating one, base64 decodes what it has encoded, JSON
  -- decodes these credentials, and `rand.Read` gives a key and a token.
  pub import-generate :
      (dial : ℕ → Bytes → Bool) (upgrade : ℕ → Bool) (key token : Bytes)
      (ifaces : Option (List Interface)) (made now seen : ℕ) (cfg : DaemonConfig)
      (creds : QrCredentials) (s : LibP2pService)
      → generate_qr_credentials encode64 (some key) (some token) ifaces made cfg ≡ ok creds
      → unmarshal (marshal creds) ≡ some creds
      → s.started ≡ true
      → str_eq cfg.node_id s.node_id ≡ false
      → let payload = encode_qr_payload encode64 marshal creds in
        let peer : PeerInfo = record {
          id = cfg.node_id;
          public_key = [];
          addrs = sprintf_int (detect_local_ip ifaces) cfg.quic_port ∷ [];
        } in
        let (e, mesh) =
          import_qr_credentials dial upgrade now seen
            (decode_qr_payload_with decode64 unmarshal payload)
            (some s) in
        (now ≤ made + lifetime
          → (e ≡ none)
            × ((s' : LibP2pService) × (mesh ≡ some s')
                × (lookup cfg.node_id s'.peers
                    ≡ some (record {
                      info = peer;
                      connected_at = seen;
                      last_seen = seen;
                      conn = (dial_addrs dial upgrade peer.addrs s.conns).0;
                    }))))
        × (made + lifetime < now → (e ≡ some credentials_expired) × (mesh ≡ some s))
  import-generate dial upgrade key token ifaces made now seen cfg creds s g json st ne =
      let c = generated encode64 key token ifaces made cfg creds g in
      let d = decode-encode creds json in
      let r = connect-table dial upgrade (qr_peer creds) seen s creds.node_id in
      let s' = (connect dial upgrade (qr_peer creds) seen s).1 in
      let ne' : str_eq creds.node_id s.node_id ≡ false = rw c.0 ne in
      (
        λ h.
            let v = import-valid dial upgrade now seen creds s (rw c.3 (ground arith)) st ne' in
            (
              rw d (ap (λ (p : Option PairingError × Option LibP2pService). p.0) v),
              (
                s',
                rw d (ap (λ (p : Option PairingError × Option LibP2pService). p.1) v),
                ground (arith, r.0, r.2, c, str_eq_refl creds.node_id),
              ),
            ),
        λ h.
            let v = import-expired dial upgrade now seen creds s (rw c.3 (ground arith)) in
            (
              rw d (ap (λ (p : Option PairingError × Option LibP2pService). p.0) v),
              rw d (ap (λ (p : Option PairingError × Option LibP2pService). p.1) v),
            ),
      )
