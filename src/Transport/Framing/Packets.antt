-- ===== src/Transport/Framing/Packets.antt =====
-- The packets of core/go/internal/transport/socks5_tls.go, one after the other on a stream.
use air_bridge5g.Prelude.{
  ℕ, zero, suc, ◌+◌, ◌^◌, ◌≤◌, ◌<◌, ◌≡◌, refl, sym, ◌∙◌, subst, ◌⊎◌, Option, none, some, List, [],
  ◌∷◌, ◌++◌, map, append_assoc, append-nil, arith, Bytes, length, All, length-append,
}
use air_bridge5g.Prelude.Stream.{read_full, read_full-append, Takes}
use air_bridge5g.Prelude.Result.{Result, ok, err}
use air_bridge5g.Prelude.Int.{add64}
use air_bridge5g.Transport.Framing.{
  Stats, max_packet, packet_len, len_bytes, ReadError, invalid_packet_length, read_packet,
  write_packet,
}

-- What a packet looks like on the wire.
abbrev pub frame : Bytes → Bytes
frame packet = len_bytes (length packet) ++ packet

packet_len-len_bytes : (n : ℕ) → n < 2 ^ 32 → packet_len (len_bytes n) ≡ n
unfolding packet_len len_bytes
packet_len-len_bytes n h = omega arith

length-len_bytes : (n : ℕ) → length (len_bytes n) ≡ 4
unfolding len_bytes
length-len_bytes n = refl

read_len : (n : ℕ) (rest : Bytes) → read_full 4 (len_bytes n ++ rest) ≡ some (len_bytes n, rest)
read_len n rest =
    subst (λ k. read_full k (len_bytes n ++ rest) ≡ some (len_bytes n, rest)) (length-len_bytes n)
      (read_full-append (len_bytes n) rest)

-- A frame of a length that the reader accepts is read back, and what follows it is left.
read_packet-frame :
    (st : Stats) (packet rest : Bytes)
    → 0 < length packet
    → length packet ≤ max_packet
    → read_packet st (frame packet ++ rest) ≡ (
      ok packet,
      record st { bytes_received = add64 st.bytes_received (length packet + 4) },
      rest,
    )
unfolding read_packet
read_packet-frame st packet rest h k = ground (
  arith,
  append_assoc (len_bytes (length packet)) packet rest,
  read_len (length packet) (packet ++ rest),
  packet_len-len_bytes (length packet) (omega arith),
  read_full-append packet rest,
)

-- A packet that is empty, or longer than 2²⁰ bytes and shorter than 2³², is refused when its frame is
-- read: the error has its length, the counters stay, and the packet itself is left in the stream.
pub read_packet-refused :
    (st : Stats) (packet rest : Bytes)
    → length packet < 2 ^ 32
    → (length packet ≡ 0) ⊎ (max_packet < length packet)
    → read_packet st (frame packet ++ rest)
      ≡ (err (invalid_packet_length (length packet)), st, packet ++ rest)
unfolding read_packet
read_packet-refused st packet rest h k = ground (
  arith,
  append_assoc (len_bytes (length packet)) packet rest,
  read_len (length packet) (packet ++ rest),
  packet_len-len_bytes (length packet) h,
)

-- So many packets read one after the other, and what is left.
abbrev pub read_packets : ℕ → Stats → Bytes → List (Result ReadError Bytes) × Stats × Bytes
read_packets zero st input = ([], st, input)
read_packets (suc k) st input =
    let (r, st', input') = read_packet st input in
    let (rs, st'', input'') = read_packets k st' input' in (r ∷ rs, st'', input'')

abbrev pub frames : List Bytes → Bytes
frames [] = []
frames (packet ∷ packets) = frame packet ++ frames packets

-- The lengths that the reader accepts.
abbrev pub Fits : Bytes → Type 0
Fits packet = (0 < length packet) × (length packet ≤ max_packet)

-- What the packets add to a counter.
abbrev pub counted : ℕ → List Bytes → ℕ
counted n [] = n
counted n (packet ∷ packets) = counted (add64 n (length packet + 4)) packets

read_packets-frames :
    (st : Stats) (packets : List Bytes) (rest : Bytes)
    → All Fits packets
    → read_packets (length packets) st (frames packets ++ rest)
      ≡ (map ok packets, record st { bytes_received = counted st.bytes_received packets }, rest)
read_packets-frames st [] rest h = refl
read_packets-frames st (packet ∷ packets) rest ((h, k), hs) = ground (
  arith,
  append_assoc (frame packet) (frames packets) rest,
  read_packet-frame st packet (frames packets ++ rest) h k,
  read_packets-frames (record st { bytes_received = add64 st.bytes_received (length packet + 4) })
      packets rest hs,
)

-- The packets written one after the other; the first error ends it.
abbrev pub write_packets :
    {W E : Type 0} → (W → Bytes → W × ℕ × Option E) → Stats → W → List Bytes → Option E × Stats × W
write_packets write st w [] = (none, st, w)
write_packets write st w (packet ∷ packets) =
    let (e, st', w') = write_packet write st w packet in
    elim e [ some x ↦ (some x, st', w') | none ↦ write_packets write st' w' packets ]

module _ {W E : Type 0} (write : W → Bytes → W × ℕ × Option E) (sent : W → Bytes)
    (takes : Takes write sent) where
  write_packet_lem :
      (st : Stats) (w : W) (packet : Bytes)
      → write_packet write st w packet ≡ (
        none,
        record st { bytes_sent = add64 st.bytes_sent (length packet + 4) },
        (write w (frame packet)).0,
      )
  unfolding write_packet
  write_packet_lem st w packet = ground (
    arith,
    takes.no_error w (frame packet),
    takes.all w (frame packet),
    length-append (len_bytes (length packet)) packet,
    length-len_bytes (length packet),
  )

  write_packets_lem :
      (st : Stats) (w : W) (packets : List Bytes)
      → (w' : W) × (write_packets write st w packets
          ≡ (none, record st { bytes_sent = counted st.bytes_sent packets }, w'))
        × (sent w' ≡ sent w ++ frames packets)
  write_packets_lem st w [] = (w, refl, sym (append-nil (sent w)))
  write_packets_lem st w (packet ∷ packets) =
      let st' = record st { bytes_sent = add64 st.bytes_sent (length packet + 4) } in
      let (w', e, d) = write_packets_lem st' (write w (frame packet)).0 packets in
      (
        w',
        ground (arith, write_packet_lem st w packet, e),
        d ∙ rw (takes.delivered w (frame packet), append_assoc),
      )

  -- Let the target take every write whole. Any sequence of packets of 1 to 2²⁰ bytes is written with
  -- no error, and as many reads of what was sent, with any bytes after it, give these packets in
  -- order and leave those bytes; from equal counters, the reader's counter ends equal to the writer's.
  pub read-write_packets :
      (out inn : Stats) (w : W) (packets : List Bytes) (rest : Bytes)
      → All Fits packets
      → out.bytes_sent ≡ inn.bytes_received
      → (w' : W) × (wire : Bytes) × (write_packets write out w packets
          ≡ (none, record out { bytes_sent = counted out.bytes_sent packets }, w'))
        × (sent w' ≡ sent w ++ wire)
        × (read_packets (length packets) inn (wire ++ rest) ≡ (
          map ok packets,
          record inn { bytes_received = counted out.bytes_sent packets },
          rest,
        ))
  read-write_packets out inn w packets rest h e =
      let (w', r, d) = write_packets_lem out w packets in
      (
        w',
        frames packets,
        r,
        d,
        subst
            (λ n.
              read_packets (length packets) inn (frames packets ++ rest)
              ≡ (map ok packets, record inn { bytes_received = counted n packets }, rest))
            (sym e) (read_packets-frames inn packets rest h),
      )
