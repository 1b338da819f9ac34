-- ===== src/Services/Credentials/Pairs.antt =====
-- Two nodes that pair by the handlers of core/go/internal/services/grpc_server.go.
use air_bridge5g.Prelude.{
  ℕ, ◌+◌, ◌≡◌, refl, inl, inr, Bool, true, false, not, Option, none, some, List, [], ◌∷◌, arith,
  Bytes, ltb, if◌then◌else◌, Bool-cases,
}
use air_bridge5g.Prelude.Int.{pos, ltb_ℤ}
use air_bridge5g.Prelude.Result.{ok}
use air_bridge5g.Prelude.Map.{str_eq, lookup, str_eq_refl}
use air_bridge5g.Mesh.Events.{PeerInfo}
use air_bridge5g.Mesh.LibP2p.{LibP2pService, dial_addrs, connect}
use air_bridge5g.Mesh.LibP2p.Table.{connect-table}
use air_bridge5g.Services.Daemon.{DaemonConfig}
use air_bridge5g.Services.Pairing.{
  Interface, detect_local_ip, extract_port, QrCredentials, credentials_expired, lifetime,
  generate_qr_credentials, encode_qr_payload, sprintf_int, qr_peer,
}
use air_bridge5g.Services.Pairing.Imports.{decode-encode, import-expired, import-valid}
use air_bridge5g.Services.Credentials.{
  generate_response, handle_generate_qr, import_failed, import_response, handle_import_qr,
}

-- The credentials that `GenerateQRCredentials` makes when `rand.Read` succeeds.
abbrev pub credentials :
    (Bytes → Bytes) → Bytes → Bytes → Option (List Interface) → ℕ → DaemonConfig → QrCredentials
credentials encode64 key token ifaces made cfg = record {
  node_id = cfg.node_id;
  proxy_host = detect_local_ip ifaces;
  proxy_port = pos (extract_port cfg.proxy_address);
  quic_port = cfg.quic_port;
  encryption_key = encode64 key;
  expires_at = pos (made + lifetime);
  auth_token = encode64 token;
}

-- The peer that the importing node dials.
abbrev pub generating_peer : Option (List Interface) → DaemonConfig → PeerInfo
generating_peer ifaces cfg = record {
  id = cfg.node_id;
  public_key = [];
  addrs = sprintf_int (detect_local_ip ifaces) cfg.quic_port ∷ [];
}

module _ (encode64 : Bytes → Bytes) (decode64 : Bytes → Option Bytes)
    (marshal : QrCredentials → Bytes) (unmarshal : Bytes → Option QrCredentials)
    (base64 : (bs : Bytes) → decode64 (encode64 bs) ≡ some bs) (dial : ℕ → Bytes → Bool)
    (upgrade : ℕ → Bool) (now seen : ℕ) (creds : QrCredentials) (s : LibP2pService)
    (json : unmarshal (marshal creds) ≡ some creds) where
  handle_import_qr-valid :
      ltb_ℤ creds.expires_at (pos now) ≡ false
      → s.started ≡ true
      → str_eq creds.node_id s.node_id ≡ false
      → handle_import_qr decode64 unmarshal dial upgrade now seen
          (encode_qr_payload encode64 marshal creds)
          (some s)
        ≡ (import_response (ok creds), some (connect dial upgrade (qr_peer creds) seen s).1)
  unfolding handle_import_qr
  handle_import_qr-valid h st ne =
      let d = decode-encode encode64 decode64 marshal unmarshal base64 creds json in
      ground (arith, d, import-valid dial upgrade now seen creds s h st ne)

  handle_import_qr-expired :
      ltb_ℤ creds.expires_at (pos now) ≡ true
      → handle_import_qr decode64 unmarshal dial upgrade now seen
          (encode_qr_payload encode64 marshal creds)
          (some s)
        ≡ (import_failed credentials_expired, some s)
  unfolding handle_import_qr
  handle_import_qr-expired h =
      let d = decode-encode encode64 decode64 marshal unmarshal base64 creds json in
      ground (arith, d, import-expired dial upgrade now seen creds s h)

-- The entry that a connection leaves.
connect-entry :
    (dial : ℕ → Bytes → Bool) (upgrade : ℕ → Bool) (peer : PeerInfo) (seen : ℕ) (s : LibP2pService)
    → s.started ≡ true
    → str_eq peer.id s.node_id ≡ false
    → lookup peer.id (connect dial upgrade peer seen s).1.peers
      ≡ some (record {
        info = peer;
        connected_at = seen;
        last_seen = seen;
        conn = (dial_addrs dial upgrade peer.addrs s.conns).0;
      })
connect-entry dial upgrade peer seen s st ne =
    let r = connect-table dial upgrade peer seen s peer.id in
    ground (arith, r.0, r.2, str_eq_refl peer.id)

-- A node answers `GenerateQRCredentials` with the key that `rand.Read` has given, and another node
-- whose mesh runs is asked to import the payload of this answer. Up to 24 hours later it answers
-- success with the first node's identity and with the host that was detected and the port of its
-- proxy address, and its table then has an entry for that identity, dialled at this host and the
-- QUIC port of the first node's configuration; later than that it answers that the credentials have
-- expired, and its mesh is as it was. The importing node has another identity, base64 decodes what
-- it has encoded, and JSON these credentials.
pub handle_import_qr-handle_generate_qr :
    (encode64 decode_key : Bytes → Bytes) (decode64 : Bytes → Option Bytes)
    (marshal : QrCredentials → Bytes) (unmarshal : Bytes → Option QrCredentials)
    (dial : ℕ → Bytes → Bool) (upgrade : ℕ → Bool) (key token : Bytes)
    (ifaces : Option (List Interface)) (made now seen : ℕ) (cfg : DaemonConfig) (s : LibP2pService)
    → ((bs : Bytes) → decode64 (encode64 bs) ≡ some bs)
    → decode_key (encode64 key) ≡ key
    → let creds = credentials encode64 key token ifaces made cfg in
      unmarshal (marshal creds) ≡ some creds
      → s.started ≡ true
      → str_eq cfg.node_id s.node_id ≡ false
      → let creds = credentials encode64 key token ifaces made cfg in
        let shown = generate_response encode64 decode_key marshal creds in
        let (answer, mesh) =
          handle_import_qr decode64 unmarshal dial upgrade now seen shown.qr_payload (some s) in
        let expired = ltb (made + lifetime) now in
        let peer = generating_peer ifaces cfg in
        let s' = (connect dial upgrade peer seen s).1 in
        (handle_generate_qr encode64 decode_key marshal (some key) (some token) ifaces made cfg
          ≡ ok shown)
        × (shown.encryption_key ≡ key)
        × (answer.success ≡ not expired)
        × (answer.error_message ≡ (if expired then some credentials_expired else none))
        × (answer.peer_id ≡ (if expired then [] else cfg.node_id))
        × (answer.proxy_address ≡ (
            if expired
            then []
            else sprintf_int (detect_local_ip ifaces) (pos (extract_port cfg.proxy_address))))
        × (mesh ≡ some (if expired then s else s'))
        × (lookup cfg.node_id s'.peers
            ≡ some (record {
              info = peer;
              connected_at = seen;
              last_seen = seen;
              conn = (dial_addrs dial upgrade peer.addrs s.conns).0;
            }))
unfolding handle_generate_qr generate_qr_credentials generate_response import_response import_failed
handle_import_qr-handle_generate_qr encode64 decode_key decode64 marshal unmarshal dial upgrade key
      token ifaces made now seen cfg s b64 k json st ne =
    let creds = credentials encode64 key token ifaces made cfg in
    let found = connect-entry dial upgrade (qr_peer creds) seen s st ne in
    elim (Bool-cases (ltb (made + lifetime) now)) [
      | inl e ↦
          let h =
            handle_import_qr-expired encode64 decode64 marshal unmarshal b64 dial upgrade now seen
              creds s json (ground arith) in
          rw (e, h) (refl, k, refl, refl, refl, refl, refl, found)
      | inr e ↦
          let h =
            handle_import_qr-valid encode64 decode64 marshal unmarshal b64 dial upgrade now seen
              creds s json (ground arith) st ne in
          rw (e, h) (refl, k, refl, refl, refl, refl, refl, found)
    ]
