-- ===== src/Services/Credentials.antt =====
-- core/go/internal/services/grpc_server.go: the two handlers of QR credentials. Base64, JSON and the
-- sockets are arguments, as in the daemon's functions that they call.
pub mod Pairs
use air_bridge5g.Prelude.{ℕ, Bool, true, false, Option, none, some, List, [], ◌∷◌, Bytes}
use air_bridge5g.Prelude.Int.{ℤ, pos}
use air_bridge5g.Prelude.Result.{Result, ok, err}
use air_bridge5g.Mesh.LibP2p.{LibP2pService}
use air_bridge5g.Services.Daemon.{DaemonConfig}
use air_bridge5g.Services.Handlers.{to_uint32}
use air_bridge5g.Services.Pairing.{
  Interface, QrCredentials, PairingError, generate_qr_credentials, encode_qr_payload,
  decode_qr_payload_with, sprintf_int, import_qr_credentials,
}

pub record GenerateQrResponse : Type 0 where
  pub qr_payload : Bytes
  pub proxy_host : Bytes
  pub proxy_port : ℕ
  pub quic_port : ℕ
  pub encryption_key : Bytes
  pub expires_at_unix_ms : ℤ

-- `decode_key` is what `DecodeString` gives, with its error dropped.
unfoldable pub generate_response :
    (Bytes → Bytes) → (Bytes → Bytes) → (QrCredentials → Bytes) → QrCredentials → GenerateQrResponse
generate_response encode64 decode_key marshal creds = record {
  qr_payload = encode_qr_payload encode64 marshal creds;
  proxy_host = creds.proxy_host;
  proxy_port = to_uint32 creds.proxy_port;
  quic_port = to_uint32 creds.quic_port;
  encryption_key = decode_key creds.encryption_key;
  expires_at_unix_ms = creds.expires_at;
}

-- The handler `GenerateQRCredentials`; `json.Marshal` of the credentials does not fail.
unfoldable pub handle_generate_qr :
    (Bytes → Bytes)
    → (Bytes → Bytes)
    → (QrCredentials → Bytes)
    → Option Bytes
    → Option Bytes
    → Option (List Interface)
    → ℕ
    → DaemonConfig
    → Result PairingError GenerateQrResponse
handle_generate_qr encode64 decode_key marshal key token ifaces now cfg =
    elim (generate_qr_credentials encode64 key token ifaces now cfg) [
      | err e ↦ err e
      | ok creds ↦ ok (generate_response encode64 decode_key marshal creds)
    ]

-- The error message is the error that it prints.
pub record ImportQrResponse : Type 0 where
  pub success : Bool
  pub error_message : Option PairingError
  pub peer_id : Bytes
  pub proxy_address : Bytes

unfoldable pub import_failed : PairingError → ImportQrResponse
import_failed e = record {
  success = false;
  error_message = some e;
  peer_id = [];
  proxy_address = [];
}

-- The answer to an import that succeeds, on the credentials that are decoded once more.
unfoldable pub import_response : Result PairingError QrCredentials → ImportQrResponse
import_response (err e) = record {
  success = true;
  error_message = none;
  peer_id = [];
  proxy_address = 58 ∷ 48 ∷ [];
}
import_response (ok creds) = record {
  success = true;
  error_message = none;
  peer_id = creds.node_id;
  proxy_address = sprintf_int creds.proxy_host creds.proxy_port;
}

-- The handler `ImportQRCredentials`
unfoldable pub handle_import_qr :
    (Bytes → Option Bytes)
    → (Bytes → Option QrCredentials)
    → (ℕ → Bytes → Bool)
    → (ℕ → Bool)
    → ℕ
    → ℕ
    → Bytes
    → Option LibP2pService
    → ImportQrResponse × Option LibP2pService
handle_import_qr decode64 unmarshal dial upgrade now seen payload mesh =
    let creds = decode_qr_payload_with decode64 unmarshal payload in
    let (e, mesh') = import_qr_credentials dial upgrade now seen creds mesh in
    (elim e [ some x ↦ import_failed x | none ↦ import_response creds ], mesh')
