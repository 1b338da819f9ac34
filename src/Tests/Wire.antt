-- ===== src/Tests/Wire.antt =====
-- Concrete inputs of core/go/internal/handshake and core/go/internal/transport.
use air_bridge5g.Prelude.{
  ℕ, zero, suc, ◌+◌, ◌-◌, ◌%◌, ◌^◌, ◌≡◌, refl, ap, ◌∙◌, ◌||◌, Option, none, some, List, [], ◌∷◌,
  ◌++◌, map, arith, Bytes, ◌==◌, if◌then◌else◌, length, take, drop, length-append, take-append,
}
use air_bridge5g.Tests.Samples.{sink, content, sink-Takes}
use air_bridge5g.Tests.Privacy.{repeat_byte}
use air_bridge5g.Prelude.Result.{ok, err}
use air_bridge5g.Handshake.Frames.{
  read_frame, put_uint16, invalid_frame_length, secure_write, secure_read,
}
use air_bridge5g.Handshake.Frames.Secure.{secure_read-secure_write, read_frame-wraps}
use air_bridge5g.Handshake.Rounds.{Keys, perform_initiator, perform_responder}
use air_bridge5g.Handshake.Rounds.Agreement.{XxRun, IkRun, handshake_xx_agrees}
use air_bridge5g.Transport.Framing.{Stats}
use air_bridge5g.Transport.Framing.Packets.{
  counted, read_packets, write_packets, read-write_packets,
}

abbrev zero_stats : Stats
zero_stats = record { bytes_sent = 0; bytes_received = 0 }

abbrev packets : List Bytes
packets = (1 ∷ 2 ∷ 3 ∷ []) ∷ (4 ∷ []) ∷ []

read-write_packets_example :
    (w' : Bytes) × (wire : Bytes) × (write_packets sink zero_stats [] packets
      ≡ (none, record zero_stats { bytes_sent = counted 0 packets }, w'))
    × (content w' ≡ [] ++ wire)
    × (read_packets 2 zero_stats (wire ++ (9 ∷ []))
        ≡ (map ok packets, record zero_stats { bytes_received = counted 0 packets }, 9 ∷ []))
read-write_packets_example =
    read-write_packets sink content sink-Takes zero_stats zero_stats [] packets (9 ∷ [])
      ((omega arith, omega arith), ((omega arith, omega arith), tt)) refl

read_frame-wraps_example : read_frame (put_uint16 3 ++ (1 ∷ 2 ∷ 3 ∷ []) ++ (9 ∷ [])) ≡ (
    let n = 3 % 2 ^ 16 in
    if n == 0
    then (err (invalid_frame_length 0), (1 ∷ 2 ∷ 3 ∷ []) ++ (9 ∷ []))
    else (ok (take n (1 ∷ 2 ∷ 3 ∷ [])), drop n (1 ∷ 2 ∷ 3 ∷ []) ++ (9 ∷ [])))
read_frame-wraps_example = read_frame-wraps (1 ∷ 2 ∷ 3 ∷ []) (9 ∷ [])

-- A cipher that counts its messages and puts 16 bytes behind each.
abbrev encrypt : ℕ → Bytes → Option Bytes × ℕ
encrypt c p = (some (p ++ repeat_byte 16 c), c + 1)

abbrev decrypt : ℕ → Bytes → Option Bytes × ℕ
decrypt d p = (some (take (length p - 16) p), d + 1)

length-repeat_byte : (n b : ℕ) → length (repeat_byte n b) ≡ n
length-repeat_byte zero b = refl
length-repeat_byte (suc n) b = ap suc (length-repeat_byte n b)

opens :
    (c d : ℕ) (p : Bytes)
    → c ≡ d
    → (ciphertext : Bytes) × (c' : ℕ) × (d' : ℕ) × (encrypt c p ≡ (some ciphertext, c'))
      × (length ciphertext ≡ length p + 16)
      × (decrypt d ciphertext ≡ (some p, d'))
      × (c' ≡ d')
opens c d p e =
    let l = length-append p (repeat_byte 16 c) in
    let n : length (p ++ repeat_byte 16 c) - 16 ≡ length p =
      omega (arith, l, length-repeat_byte 16 c) in
    (
      p ++ repeat_byte 16 c,
      c + 1,
      d + 1,
      refl,
      omega (arith, l, length-repeat_byte 16 c),
      ap (λ q. (some q, d + 1))
          (ap (λ k. take k (p ++ repeat_byte 16 c)) n ∙ take-append p (repeat_byte 16 c)),
      ap (λ k. k + 1) e,
    )

-- Room for two bytes of three: the third is lost.
secure_read-secure_write_example :
    (c' : ℕ) × (d' : ℕ) × (w' : Bytes) × (wire : Bytes) × (secure_write sink encrypt 5 []
        (1 ∷ 2 ∷ 3 ∷ [])
      ≡ (c', w', 3, none))
    × (content w' ≡ [] ++ wire)
    × (secure_read decrypt 5 (wire ++ (9 ∷ [])) 2 ≡ (d', 9 ∷ [], ok (take 2 (1 ∷ 2 ∷ 3 ∷ []))))
    × (c' ≡ d')
secure_read-secure_write_example =
    secure_read-secure_write sink content sink-Takes encrypt decrypt (λ c d. c ≡ d) opens 5 5 []
      (1 ∷ 2 ∷ 3 ∷ []) (9 ∷ []) 2 refl (omega arith)

-- Handshake states that count the messages; the keys come with the third, or with the second where
-- the state started at 10.
abbrev keys_at : ℕ → Keys ℕ
keys_at h = if h == 2 || h == 11 then some (7, 8) else none

abbrev write_message : ℕ → Option (Bytes × Keys ℕ) × ℕ
write_message h = (some ((h + 1) ∷ [], keys_at h), h + 1)

abbrev read_message : ℕ → Bytes → Option (Keys ℕ) × ℕ
read_message h msg = (some (keys_at h), h + 1)

xx_run : XxRun write_message read_message 0 0 3 3 (1 ∷ []) (2 ∷ []) (3 ∷ []) (7, 8) (7, 8)
xx_run = record {
  i1 = 1;
  r1 = 1;
  i2 = 2;
  r2 = 2;
  write1 = refl;
  read1 = refl;
  write2 = refl;
  read2 = refl;
  write3 = refl;
  read3 = refl;
}

ik_run : IkRun write_message read_message 10 10 12 12 (11 ∷ []) (12 ∷ []) (7, 8) (7, 8)
ik_run = record { i1 = 11; r1 = 11; write1 = refl; read1 = refl; write2 = refl; read2 = refl }

handshake_xx_agrees_example :
    (wi' : Bytes) × (wr' : Bytes) × (to_r : Bytes) × (to_i : Bytes) × (perform_initiator sink
        write_message read_message
        (record { hs = 0; out = []; input = to_i ++ (8 ∷ []) })
      ≡ (ok (some (7, 8)), record { hs = 3; out = wi'; input = 8 ∷ [] }))
    × (perform_responder sink write_message read_message
          (record { hs = 0; out = []; input = to_r ++ (9 ∷ []) })
        ≡ (ok (some (7, 8)), record { hs = 3; out = wr'; input = 9 ∷ [] }))
    × (content wi' ≡ [] ++ to_r)
    × (content wr' ≡ [] ++ to_i)
handshake_xx_agrees_example =
    handshake_xx_agrees sink content sink-Takes write_message read_message 0 0 3 3 (1 ∷ []) (2 ∷ [])
      (3 ∷ []) (7, 8) (7, 8) xx_run (omega arith, omega arith) (omega arith, omega arith)
      (omega arith, omega arith) [] [] (8 ∷ []) (9 ∷ [])
