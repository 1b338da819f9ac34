-- ===== src/Transport/Framing.antt =====
-- core/go/internal/transport/socks5_tls.go, the packets of a `socks5TLSStream`. Those of a
-- `quicStream` in quic.go are read and written by the same statements.
pub mod Packets
use air_bridge5g.Prelude.{
  ℕ, ◌+◌, ◌*◌, ◌/◌, ◌%◌, ◌^◌, ◌||◌, Option, none, some, [], ◌∷◌, ◌++◌, Bytes, ltb, leb,
  if◌then◌else◌, length, get_or,
}
use air_bridge5g.Prelude.Stream.{read_full}
use air_bridge5g.Prelude.Result.{Result, ok, err}
use air_bridge5g.Prelude.Int.{add64}

-- The two counters that the packets move.
pub record Stats : Type 0 where
  pub bytes_sent : ℕ
  pub bytes_received : ℕ

pub data ReadError : Type 0 where
  read_packet_length read_packet_payload : ReadError
  invalid_packet_length : ℕ → ReadError

abbrev pub max_packet : ℕ
max_packet = 2 ^ 20

-- `int(lenBuf[0])<<24 | int(lenBuf[1])<<16 | int(lenBuf[2])<<8 | int(lenBuf[3])`
unfoldable pub packet_len : Bytes → ℕ
packet_len buf =
    get_or buf 0 0 * 2 ^ 24 + get_or buf 1 0 * 2 ^ 16 + get_or buf 2 0 * 2 ^ 8 + get_or buf 3 0

unfoldable pub len_bytes : ℕ → Bytes
len_bytes n = (n / 2 ^ 24) % 256 ∷ (n / 2 ^ 16) % 256 ∷ (n / 2 ^ 8) % 256 ∷ n % 256 ∷ []

-- `ReadPacket`: the packet, the counters, and the bytes that are left to read. What an incomplete
-- read leaves behind is nothing.
unfoldable pub read_packet : Stats → Bytes → Result ReadError Bytes × Stats × Bytes
read_packet st input = elim (read_full 4 input) [
  | none ↦ (err read_packet_length, st, [])
  | some (len_buf, input') ↦
      let n = packet_len len_buf in
      if leb n 0 || ltb max_packet n
      then (err (invalid_packet_length n), st, input')
      else elim (read_full n input') [
        | none ↦ (err read_packet_payload, st, [])
        | some (payload, input'') ↦
            (ok payload, record st { bytes_received = add64 st.bytes_received (n + 4) }, input'')
      ]
]

module _ {W E : Type 0} (write : W → Bytes → W × ℕ × Option E) where
  -- `WritePacket`: one write of the length and the packet.
  unfoldable pub write_packet : Stats → W → Bytes → Option E × Stats × W
  write_packet st w packet =
      let (w', n, e) = write w (len_bytes (length packet) ++ packet) in
      elim e [
        | some x ↦ (some x, st, w')
        | none ↦ (none, record st { bytes_sent = add64 st.bytes_sent n }, w')
      ]
