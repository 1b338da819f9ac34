-- ===== src/Handshake/Frames.antt =====
-- core/go/internal/handshake/noise_conn.go: the frames of the handshake and of a `SecureConn`. The
-- ciphers of the Noise library are parameters.
pub mod Secure
use air_bridge5g.Prelude.{
  ℕ, ◌+◌, ◌*◌, ◌/◌, ◌%◌, ◌^◌, ◌||◌, Option, none, some, [], ◌∷◌, Bytes, ltb, leb, if◌then◌else◌,
  length, get_or, take,
}
use air_bridge5g.Prelude.Stream.{read_full}
use air_bridge5g.Prelude.Result.{Result, ok, err}

abbrev pub max_handshake_payload : ℕ
max_handshake_payload = 65_535

pub data FrameError : Type 0 where
  short_length short_data : FrameError
  invalid_frame_length : ℕ → FrameError

-- `binary.BigEndian.PutUint16(lenBuf, uint16(n))`
unfoldable pub put_uint16 : ℕ → Bytes
put_uint16 n = ((n % 2 ^ 16) / 256) ∷ (n % 256) ∷ []

unfoldable pub uint16 : Bytes → ℕ
uint16 buf = get_or buf 0 0 * 256 + get_or buf 1 0

-- `readFrame`, and the first half of `SecureConn.Read`: the frame and the bytes that are left.
unfoldable pub read_frame : Bytes → Result FrameError Bytes × Bytes
read_frame input = elim (read_full 2 input) [
  | none ↦ (err short_length, [])
  | some (len_buf, input') ↦
      let n = uint16 len_buf in
      if leb n 0 || ltb max_handshake_payload n
      then (err (invalid_frame_length n), input')
      else elim (read_full n input') [
        | none ↦ (err short_data, [])
        | some (frame, input'') ↦ (ok frame, input'')
      ]
]

module _ {W E : Type 0} (write : W → Bytes → W × ℕ × Option E) where
  -- `writeFrame`, and the second half of `SecureConn.Write`: two writes.
  unfoldable pub write_frame : W → Bytes → W × Option E
  write_frame w frame =
      let (w', _, e) = write w (put_uint16 (length frame)) in
      elim e [ some x ↦ (w', some x) | none ↦ let (w'', _, e') = write w' frame in (w'', e') ]

  -- `SecureConn.Write`: an inner `none` is the error of the cipher.
  unfoldable pub secure_write :
      {C : Type 0} → (C → Bytes → Option Bytes × C) → C → W → Bytes → C × W × ℕ × Option (Option E)
  secure_write encrypt c w p =
      let (r, c') = encrypt c p in
      elim r [
        | none ↦ (c', w, 0, some none)
        | some ciphertext ↦
            let (w', e) = write_frame w ciphertext in
            elim e [ some x ↦ (c', w', 0, some (some x)) | none ↦ (c', w', length p, none) ]
      ]

pub data ReadError : Type 0 where
  frame_error : FrameError → ReadError
  noise_decrypt : ReadError

-- `SecureConn.Read` with room for `room` bytes: what `copy` puts there.
unfoldable pub secure_read :
    {C : Type 0}
    → (C → Bytes → Option Bytes × C)
    → C
    → Bytes
    → ℕ
    → C × Bytes × Result ReadError Bytes
secure_read decrypt c input room =
    let (r, input') = read_frame input in
    elim r [
      | err e ↦ (c, input', err (frame_error e))
      | ok ciphertext ↦
          let (d, c') = decrypt c ciphertext in
          elim d [
            | none ↦ (c', input', err noise_decrypt)
            | some plaintext ↦ (c', input', ok (take room plaintext))
          ]
    ]
