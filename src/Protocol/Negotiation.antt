-- ===== src/Protocol/Negotiation.antt =====
-- core/go/internal/protocol/negotiation.go. The three negotiating functions differ in the type of
-- their strings only; a set of strings is the list of what was put into it.
pub mod Mutual
use air_bridge5g.Prelude.{Bool, false, not, ◌||◌, List, [], ◌∷◌, Bytes, codes, if◌then◌else◌}
use air_bridge5g.Prelude.Result.{Result, ok, err, ◌>>=◌}
use air_bridge5g.Prelude.Map.{str_eq}

pub record Capabilities : Type 0 where
  pub aead_suites : List Bytes
  pub transports : List Bytes
  pub handshake_modes : List Bytes
  pub protocol_version : Bytes

pub record SessionProfile : Type 0 where
  pub aead : Bytes
  pub transport : Bytes
  pub noise_pattern : Bytes
  pub protocol_version : Bytes

pub data NegotiationError : Type 0 where
  protocol_mismatch no_aead no_transport no_pattern : NegotiationError

abbrev pub aead_aes_256_gcm : Bytes
aead_aes_256_gcm = codes "AES-256-GCM"

abbrev pub aead_chacha20_poly1305 : Bytes
aead_chacha20_poly1305 = codes "ChaCha20-Poly1305"

abbrev pub transport_quic : Bytes
transport_quic = codes "QUIC"

abbrev pub transport_socks5_tls : Bytes
transport_socks5_tls = codes "SOCKS5-TLS"

abbrev pub noise_ik : Bytes
noise_ik = codes "Noise_IK"

abbrev pub noise_xx : Bytes
noise_xx = codes "Noise_XX"

abbrev pub default_capabilities : Capabilities
default_capabilities = record {
  aead_suites = aead_chacha20_poly1305 ∷ aead_aes_256_gcm ∷ [];
  transports = transport_quic ∷ transport_socks5_tls ∷ [];
  handshake_modes = noise_ik ∷ noise_xx ∷ [];
  protocol_version = codes "securemesh/1";
}

-- `remoteSet[s] = struct{}{}` for each string, and `_, ok := remoteSet[s]`
unfoldable pub set_of : List Bytes → List Bytes → List Bytes
set_of s [] = s
set_of s (x ∷ xs) = set_of (x ∷ s) xs

unfoldable pub has : List Bytes → Bytes → Bool
has [] x = false
has (y ∷ s) x = str_eq y x || has s x

-- The loop over the local list.
unfoldable pub first_in : List Bytes → List Bytes → NegotiationError → Result NegotiationError Bytes
first_in remote_set [] e = err e
first_in remote_set (x ∷ xs) e =
    let rest = first_in remote_set xs e in if has remote_set x then ok x else rest

unfoldable pub negotiate_aead : List Bytes → List Bytes → Result NegotiationError Bytes
unfolding first_in set_of has
negotiate_aead local remote = first_in (set_of [] remote) local no_aead

unfoldable pub negotiate_transport : List Bytes → List Bytes → Result NegotiationError Bytes
unfolding first_in set_of has
negotiate_transport local remote = first_in (set_of [] remote) local no_transport

unfoldable pub negotiate_noise_pattern : List Bytes → List Bytes → Result NegotiationError Bytes
unfolding first_in set_of has
negotiate_noise_pattern local remote = first_in (set_of [] remote) local no_pattern

unfoldable pub negotiate_capabilities :
    Capabilities → Capabilities → Result NegotiationError SessionProfile
negotiate_capabilities local remote =
    if not (str_eq local.protocol_version remote.protocol_version)
    then err protocol_mismatch
    else do
      aead ← negotiate_aead local.aead_suites remote.aead_suites
      transport ← negotiate_transport local.transports remote.transports
      pattern ← negotiate_noise_pattern local.handshake_modes remote.handshake_modes
      ok (record {
        aead = aead;
        transport = transport;
        noise_pattern = pattern;
        protocol_version = local.protocol_version;
      })
