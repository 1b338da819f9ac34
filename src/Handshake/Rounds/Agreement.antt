-- ===== src/Handshake/Rounds/Agreement.antt =====
-- The two sides of the handshake in core/go/internal/handshake/noise_conn.go against each other.
use air_bridge5g.Prelude.{
  ℕ, ◌≤◌, ◌<◌, ◌≡◌, refl, ◌∙◌, Option, none, some, ◌++◌, append_assoc, arith, Bytes, length,
}
use air_bridge5g.Prelude.Stream.{Takes}
use air_bridge5g.Prelude.Result.{ok}
use air_bridge5g.Handshake.Frames.{max_handshake_payload, put_uint16}
use air_bridge5g.Handshake.Frames.Secure.{read_frame_lem, write_frame_lem}
use air_bridge5g.Handshake.Rounds.{
  Keys, Side, send_round, receive_round, unless_done, perform_initiator, perform_responder,
}

-- A handshake message that fits a frame.
abbrev pub Fits : Bytes → Type 0
Fits msg = (0 < length msg) × (length msg ≤ max_handshake_payload)

abbrev pub frame : Bytes → Bytes
frame msg = put_uint16 (length msg) ++ msg

-- A run of the library for the pattern XX: three messages, and keys with the third.
pub record XxRun {H C : Type 0} (write_message : H → Option (Bytes × Keys C) × H)
    (read_message : H → Bytes → Option (Keys C) × H) (i r i' r' : H) (msg1 msg2 msg3 : Bytes)
    (initiator_keys responder_keys : C × C) : Type 0 where
  pub i1 : H
  pub r1 : H
  pub i2 : H
  pub r2 : H
  pub write1 : write_message i ≡ (some (msg1, none), i1)
  pub read1 : read_message r msg1 ≡ (some none, r1)
  pub write2 : write_message r1 ≡ (some (msg2, none), r2)
  pub read2 : read_message i1 msg2 ≡ (some none, i2)
  pub write3 : write_message i2 ≡ (some (msg3, some initiator_keys), i')
  pub read3 : read_message r2 msg3 ≡ (some (some responder_keys), r')

-- A run of the library for the pattern IK: two messages, and keys with the second.
pub record IkRun {H C : Type 0} (write_message : H → Option (Bytes × Keys C) × H)
    (read_message : H → Bytes → Option (Keys C) × H) (i r i' r' : H) (msg1 msg2 : Bytes)
    (initiator_keys responder_keys : C × C) : Type 0 where
  pub i1 : H
  pub r1 : H
  pub write1 : write_message i ≡ (some (msg1, none), i1)
  pub read1 : read_message r msg1 ≡ (some none, r1)
  pub write2 : write_message r1 ≡ (some (msg2, some responder_keys), r')
  pub read2 : read_message i1 msg2 ≡ (some (some initiator_keys), i')

module _ {W E H C : Type 0} (write : W → Bytes → W × ℕ × Option E) (sent : W → Bytes)
    (takes : Takes write sent) (write_message : H → Option (Bytes × Keys C) × H)
    (read_message : H → Bytes → Option (Keys C) × H) where
  send_round_lem :
      (n : ℕ) (s : Side H W) (msg : Bytes) (keys : Keys C) (h : H)
      → write_message s.hs ≡ (some (msg, keys), h)
      → (w : W) × (send_round write write_message read_message n s
          ≡ (ok keys, record s { hs = h; out = w }))
        × (sent w ≡ sent s.out ++ frame msg)
  unfolding send_round
  send_round_lem n s msg keys h e =
      let (w, r, d) = write_frame_lem write sent takes s.out msg in
      (w, ground (arith, e, r), d ∙ append_assoc (sent s.out) (put_uint16 (length msg)) msg)

  receive_round_lem :
      (n : ℕ) (s : Side H W) (msg rest : Bytes) (keys : Keys C) (h : H)
      → s.input ≡ frame msg ++ rest
      → Fits msg
      → read_message s.hs msg ≡ (some keys, h)
      → receive_round write write_message read_message n s
        ≡ (ok keys, record s { hs = h; input = rest })
  unfolding receive_round
  receive_round_lem n s msg rest keys h e (f, g) r =
      ground (arith, e, read_frame_lem msg rest f g, r)

  -- Let both targets take every write whole, and take a run of the library for the pattern XX whose
  -- messages have 1 to 65535 bytes. Both sides of the handshake end with the run's keys; each sends
  -- exactly the bytes that the other takes off its stream, and leaves what comes after them.
  pub handshake_xx_agrees :
      (i r i' r' : H) (msg1 msg2 msg3 : Bytes) (ik rk : C × C)
      → XxRun write_message read_message i r i' r' msg1 msg2 msg3 ik rk
      → Fits msg1
      → Fits msg2
      → Fits msg3
      → (wi wr : W) (rest rest' : Bytes)
      → (wi' : W) × (wr' : W) × (to_r : Bytes) × (to_i : Bytes) × (perform_initiator write
            write_message read_message
            (record { hs = i; out = wi; input = to_i ++ rest })
          ≡ (ok (some ik), record { hs = i'; out = wi'; input = rest }))
        × (perform_responder write write_message read_message
              (record { hs = r; out = wr; input = to_r ++ rest' })
            ≡ (ok (some rk), record { hs = r'; out = wr'; input = rest' }))
        × (sent wi' ≡ sent wi ++ to_r)
        × (sent wr' ≡ sent wr ++ to_i)
  unfolding perform_initiator perform_responder unless_done
  handshake_xx_agrees i r i' r' msg1 msg2 msg3 ik rk run f1 f2 f3 wi wr rest rest' =
      let to_r : Bytes = frame msg1 ++ frame msg3 in
      let a0 : Side H W = record { hs = i; out = wi; input = frame msg2 ++ rest } in
      let (wi1, ia, da) = send_round_lem 1 a0 msg1 none run.i1 run.write1 in
      let a1 : Side H W = record { hs = run.i1; out = wi1; input = frame msg2 ++ rest } in
      let ib = receive_round_lem 2 a1 msg2 rest none run.i2 refl f2 run.read2 in
      let a2 : Side H W = record { hs = run.i2; out = wi1; input = rest } in
      let (wi2, ic, dc) = send_round_lem 3 a2 msg3 (some ik) i' run.write3 in
      let b0 : Side H W = record { hs = r; out = wr; input = to_r ++ rest' } in
      let rb =
        receive_round_lem 1 b0 msg1 (frame msg3 ++ rest') none run.r1
          (append_assoc (frame msg1) (frame msg3) rest') f1 run.read1 in
      let b1 : Side H W = record { hs = run.r1; out = wr; input = frame msg3 ++ rest' } in
      let (wr1, ra, dr) = send_round_lem 2 b1 msg2 none run.r2 run.write2 in
      let b2 : Side H W = record { hs = run.r2; out = wr1; input = frame msg3 ++ rest' } in
      let rc = receive_round_lem 3 b2 msg3 rest' (some rk) r' refl f3 run.read3 in
      (
        wi2,
        wr1,
        to_r,
        frame msg2,
        ground (arith, ia, ib, ic),
        ground (arith, rb, ra, rc),
        dc ∙ rw (da) (append_assoc (sent wi) (frame msg1) (frame msg3)),
        dr,
      )

  -- Let both targets take every write whole, and take a run of the library for the pattern IK whose
  -- messages have 1 to 65535 bytes. Both sides end with the run's keys after these two messages,
  -- with no third round; each sends exactly what the other takes off its stream.
  pub handshake_ik_agrees :
      (i r i' r' : H) (msg1 msg2 : Bytes) (ik rk : C × C)
      → IkRun write_message read_message i r i' r' msg1 msg2 ik rk
      → Fits msg1
      → Fits msg2
      → (wi wr : W) (rest rest' : Bytes)
      → (wi' : W) × (wr' : W) × (to_r : Bytes) × (to_i : Bytes) × (perform_initiator write
            write_message read_message
            (record { hs = i; out = wi; input = to_i ++ rest })
          ≡ (ok (some ik), record { hs = i'; out = wi'; input = rest }))
        × (perform_responder write write_message read_message
              (record { hs = r; out = wr; input = to_r ++ rest' })
            ≡ (ok (some rk), record { hs = r'; out = wr'; input = rest' }))
        × (sent wi' ≡ sent wi ++ to_r)
        × (sent wr' ≡ sent wr ++ to_i)
  unfolding perform_initiator perform_responder unless_done
  handshake_ik_agrees i r i' r' msg1 msg2 ik rk run f1 f2 wi wr rest rest' =
      let a0 : Side H W = record { hs = i; out = wi; input = frame msg2 ++ rest } in
      let (wi1, ia, da) = send_round_lem 1 a0 msg1 none run.i1 run.write1 in
      let a1 : Side H W = record { hs = run.i1; out = wi1; input = frame msg2 ++ rest } in
      let ib = receive_round_lem 2 a1 msg2 rest (some ik) i' refl f2 run.read2 in
      let b0 : Side H W = record { hs = r; out = wr; input = frame msg1 ++ rest' } in
      let rb = receive_round_lem 1 b0 msg1 rest' none run.r1 refl f1 run.read1 in
      let b1 : Side H W = record { hs = run.r1; out = wr; input = rest' } in
      let (wr1, ra, dr) = send_round_lem 2 b1 msg2 (some rk) r' run.write2 in
      (wi1, wr1, frame msg1, frame msg2, ground (arith, ia, ib), ground (arith, rb, ra), da, dr)
