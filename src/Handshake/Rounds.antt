-- ===== src/Handshake/Rounds.antt =====
-- core/go/internal/handshake/noise_conn.go and noise.go: the two sides of the handshake. The states
-- of the Noise library and its `WriteMessage` and `ReadMessage` are parameters.
pub mod Agreement
use air_bridge5g.Prelude.{ℕ, Bool, Option, none, some, Bytes, codes, if◌then◌else◌}
use air_bridge5g.Prelude.Result.{Result, ok, err}
use air_bridge5g.Prelude.Map.{str_eq}
use air_bridge5g.Handshake.Frames.{FrameError, read_frame, write_frame}

abbrev pub noise_ik : Bytes
noise_ik = codes "IK"

abbrev pub noise_xx : Bytes
noise_xx = codes "XX"

abbrev pub aead_aes256_gcm : Bytes
aead_aes256_gcm = codes "AES256-GCM"

pub data CipherSuite : Type 0 where
  aes_gcm chacha_poly : CipherSuite

pub data Pattern : Type 0 where
  handshake_ik handshake_xx : Pattern

pub record Config : Type 0 where
  pub initiator : Bool
  pub pattern_name : Bytes
  pub aead : Bytes

unfoldable pub recommended_pattern : Bool → Bytes
recommended_pattern peer_static_known = if peer_static_known then noise_ik else noise_xx

unfoldable pub cipher_suite : Bytes → CipherSuite
cipher_suite aead = if str_eq aead aead_aes256_gcm then aes_gcm else chacha_poly

-- `none` is the error of an unsupported pattern.
unfoldable pub pattern_of : Bytes → Option Pattern
pattern_of value =
    if str_eq value noise_ik
    then some handshake_ik
    else if str_eq value noise_xx
    then some handshake_xx
    else none

pub data RoundError (E : Type 0) : Type 0 where
  write_handshake read_handshake : ℕ → RoundError E
  frame_read : FrameError → RoundError E
  frame_write : E → RoundError E
  create_state : RoundError E

-- One side: the handshake state, what it writes to, and what has come in.
pub record Side (H W : Type 0) : Type 0 where
  pub hs : H
  pub out : W
  pub input : Bytes

-- The two cipher states, which the library returns both or neither.
abbrev pub Keys : Type 0 → Type 0
Keys C = Option (C × C)

module _ {W E H C : Type 0} (write : W → Bytes → W × ℕ × Option E)
    (write_message : H → Option (Bytes × Keys C) × H)
    (read_message : H → Bytes → Option (Keys C) × H) where
  -- `hs.WriteMessage(nil, nil)` and `writeFrame`, in round `n`.
  unfoldable pub send_round : ℕ → Side H W → Result (RoundError E) (Keys C) × Side H W
  send_round n s =
      let (r, h) = write_message s.hs in
      elim r [
        | none ↦ (err (write_handshake n), record s { hs = h })
        | some (msg, keys) ↦
            let (w, e) = write_frame write s.out msg in
            elim e [
              | some x ↦ (err (frame_write x), record s { hs = h; out = w })
              | none ↦ (ok keys, record s { hs = h; out = w })
            ]
      ]

  -- `readFrame` and `hs.ReadMessage(nil, msg)`, in round `n`.
  unfoldable pub receive_round : ℕ → Side H W → Result (RoundError E) (Keys C) × Side H W
  receive_round n s =
      let (r, input) = read_frame s.input in
      elim r [
        | err e ↦ (err (frame_read e), record s { input = input })
        | ok msg ↦
            let (k, h) = read_message s.hs msg in
            elim k [
              | none ↦ (err (read_handshake n), record s { hs = h; input = input })
              | some keys ↦ (ok keys, record s { hs = h; input = input })
            ]
      ]

  -- The next round, unless there is an error or the keys are there.
  unfoldable pub unless_done :
      (Side H W → Result (RoundError E) (Keys C) × Side H W)
      → Result (RoundError E) (Keys C) × Side H W
      → Result (RoundError E) (Keys C) × Side H W
  unless_done next (err e, s) = (err e, s)
  unless_done next (ok (some keys), s) = (ok (some keys), s)
  unless_done next (ok none, s) = next s

  unfoldable pub perform_initiator : Side H W → Result (RoundError E) (Keys C) × Side H W
  perform_initiator s = unless_done (send_round 3) (unless_done (receive_round 2) (send_round 1 s))

  unfoldable pub perform_responder : Side H W → Result (RoundError E) (Keys C) × Side H W
  perform_responder s =
      unless_done (receive_round 3) (unless_done (send_round 2) (receive_round 1 s))

-- The cipher states of a `SecureConn`; `none` is a nil one.
pub record SecureConn (C : Type 0) : Type 0 where
  pub send : Option C
  pub recv : Option C

unfoldable pub secure_conn : {C : Type 0} → Bool → Keys C → SecureConn C
secure_conn initiator none = record { send = none; recv = none }
secure_conn initiator (some (cs1, cs2)) =
    if initiator
    then record { send = some cs1; recv = some cs2 }
    else record { send = some cs2; recv = some cs1 }

module _ {W E H C : Type 0} (write : W → Bytes → W × ℕ × Option E)
    (write_message : H → Option (Bytes × Keys C) × H)
    (read_message : H → Bytes → Option (Keys C) × H) where
  -- `UpgradeToSecure`; `new_handshake` is the library's `NewHandshakeState`.
  unfoldable pub upgrade_to_secure :
      (Config → CipherSuite → Pattern → Option H)
      → Config
      → W
      → Bytes
      → Result (RoundError E) (SecureConn C) × W × Bytes
  upgrade_to_secure new_handshake cfg w input = elim (pattern_of cfg.pattern_name) [
    | none ↦ (err create_state, w, input)
    | some p ↦ elim (new_handshake cfg (cipher_suite cfg.aead) p) [
      | none ↦ (err create_state, w, input)
      | some h ↦
          let side : Side H W = record { hs = h; out = w; input = input } in
          let (r, s) =
            if cfg.initiator
            then perform_initiator write write_message read_message side
            else perform_responder write write_message read_message side in
          elim r [
            | err e ↦ (err e, s.out, s.input)
            | ok keys ↦ (ok (secure_conn cfg.initiator keys), s.out, s.input)
          ]
    ]
  ]
