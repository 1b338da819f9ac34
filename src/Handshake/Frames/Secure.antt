-- ===== src/Handshake/Frames/Secure.antt =====
-- What a `SecureConn` of core/go/internal/handshake/noise_conn.go delivers.
use air_bridge5g.Prelude.{
  ℕ, ◌+◌, ◌%◌, ◌^◌, ◌≤◌, ◌<◌, ◌≡◌, ◌∙◌, subst, inl, inr, Option, none, some, ◌++◌, append_assoc,
  arith, Bytes, ◌==◌, if◌then◌else◌, Bool-cases, length, take, drop, take-append-drop, length-take,
}
use air_bridge5g.Prelude.Stream.{read_full, read_full-append, Takes}
use air_bridge5g.Prelude.Result.{ok, err}
use air_bridge5g.Handshake.Frames.{
  max_handshake_payload, invalid_frame_length, put_uint16, uint16, read_frame, write_frame,
  secure_write, secure_read,
}

uint16-put_uint16 : (n : ℕ) → uint16 (put_uint16 n) ≡ n % 2 ^ 16
unfolding uint16 put_uint16
uint16-put_uint16 n = omega arith

read_length :
    (n : ℕ) (rest : Bytes) → read_full 2 (put_uint16 n ++ rest) ≡ some (put_uint16 n, rest)
unfolding put_uint16 read_full
read_length n rest = ground arith

-- A frame of 1 to 65535 bytes is read back whole.
pub read_frame_lem :
    (frame rest : Bytes)
    → 0 < length frame
    → length frame ≤ max_handshake_payload
    → read_frame (put_uint16 (length frame) ++ frame ++ rest) ≡ (ok frame, rest)
unfolding read_frame
read_frame_lem frame rest h k = ground (
  arith,
  append_assoc (put_uint16 (length frame)) frame rest,
  read_length (length frame) (frame ++ rest),
  uint16-put_uint16 (length frame),
  read_full-append frame rest,
)

-- A length field that is short leaves the remainder in the stream.
read_frame-cut :
    (n : ℕ) (frame tail rest : Bytes)
    → n % 2 ^ 16 ≡ length frame
    → 0 < length frame
    → read_frame (put_uint16 n ++ (frame ++ tail) ++ rest) ≡ (ok frame, tail ++ rest)
unfolding read_frame
read_frame-cut n frame tail rest e h = ground (
  arith,
  append_assoc (put_uint16 n) (frame ++ tail) rest,
  append_assoc frame tail rest,
  read_length n (frame ++ tail ++ rest),
  uint16-put_uint16 n,
  read_full-append frame (tail ++ rest),
)

-- Take any frame, also one longer than its 16-bit length field can say. Written as `writeFrame` does
-- and followed by any bytes, it is read as its first bytes, as many as its length modulo 2¹⁶, and the
-- others stay in the stream; where that number is 0, the read is the error for a length of 0.
pub read_frame-wraps :
    (frame rest : Bytes)
    → read_frame (put_uint16 (length frame) ++ frame ++ rest) ≡ (
        let n = length frame % 2 ^ 16 in
        if n == 0
        then (err (invalid_frame_length 0), frame ++ rest)
        else (ok (take n frame), drop n frame ++ rest))
unfolding read_frame
read_frame-wraps frame rest = elim (Bool-cases ((length frame % 2 ^ 16) == 0)) [
  | inl e ↦ ground (
    arith,
    append_assoc (put_uint16 (length frame)) frame rest,
    read_length (length frame) (frame ++ rest),
    uint16-put_uint16 (length frame),
    e,
  )
  | inr e ↦
      let n = length frame % 2 ^ 16 in
      let k : n ≡ length (take n frame) = omega (arith, length-take n frame) in
      rw e (
        subst
          (λ z.
            read_frame (put_uint16 (length frame) ++ z ++ rest)
            ≡ (ok (take n frame), drop n frame ++ rest))
          (take-append-drop n frame)
          (read_frame-cut (length frame) (take n frame) (drop n frame) rest k (ground arith)))
]

module _ {W E : Type 0} (write : W → Bytes → W × ℕ × Option E) (sent : W → Bytes)
    (takes : Takes write sent) where
  pub write_frame_lem :
      (w : W) (frame : Bytes)
      → (w' : W) × (write_frame write w frame ≡ (w', none))
        × (sent w' ≡ sent w ++ put_uint16 (length frame) ++ frame)
  unfolding write_frame
  write_frame_lem w frame =
      let w1 = (write w (put_uint16 (length frame))).0 in
      (
        (write w1 frame).0,
        ground (arith, takes.no_error w (put_uint16 (length frame)), takes.no_error w1 frame),
        rw (takes.delivered w1 frame, takes.delivered w (put_uint16 (length frame)), append_assoc),
      )

  module _ {C D : Type 0} (encrypt : C → Bytes → Option Bytes × C)
      (decrypt : D → Bytes → Option Bytes × D) (InStep : C → D → Type 0)
      (opens : (c : C) (d : D) (p : Bytes)
        → InStep c d
        → (ciphertext : Bytes) × (c' : C) × (d' : D) × (encrypt c p ≡ (some ciphertext, c'))
          × (length ciphertext ≡ length p + 16)
          × (decrypt d ciphertext ≡ (some p, d'))
          × InStep c' d') where
    -- Let the target take every write whole, and let the two ciphers stay in step: what one
    -- encrypts is 16 bytes longer and the other decrypts it. A write of at most 65519 bytes reports
    -- them all with no error, and one read of what it sent gives the first of them, as many as there
    -- is room for, takes the whole frame off the stream and keeps the ciphers in step: the bytes
    -- that there was no room for are lost.
    pub secure_read-secure_write :
        (c : C) (d : D) (w : W) (p rest : Bytes) (room : ℕ)
        → InStep c d
        → length p ≤ 65_519
        → (c' : C) × (d' : D) × (w' : W) × (wire : Bytes) × (secure_write write encrypt c w p
            ≡ (c', w', length p, none))
          × (sent w' ≡ sent w ++ wire)
          × (secure_read decrypt d (wire ++ rest) room ≡ (d', rest, ok (take room p)))
          × InStep c' d'
    unfolding secure_write secure_read
    secure_read-secure_write c d w p rest room s h =
        let (x, c', d', ec, len, ed, s') = opens c d p s in
        let (w', e, del) = write_frame_lem w x in
        (
          c',
          d',
          w',
          put_uint16 (length x) ++ x,
          ground (arith, ec, e),
          del ∙ append_assoc (sent w) (put_uint16 (length x)) x,
          ground (arith, read_frame_lem x rest (omega arith) (omega arith), ed),
          s',
        )
