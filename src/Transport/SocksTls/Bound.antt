-- ===== src/Transport/SocksTls/Bound.antt =====
-- The limit on the streams of core/go/internal/transport/socks5_tls.go: its runs are runs of the
-- counters in Transport/Streams with one accept goroutine.
use air_bridge5g.Prelude.{
  ℕ, suc, ◌+◌, ◌^◌, ◌≤◌, ◌<◌, ◌≡◌, refl, ◌⊎◌, inl, inr, true, ◌&&◌, [], ◌∷◌, arith, Bool-cases,
  length, length-append,
}
use air_bridge5g.Transport.Streams.{
  Transport, initial, dial, pass, admit_stream, close_stream, start_acceptor, count_handshake_error,
  add_stream, is_full,
}
use air_bridge5g.Transport.Streams
use air_bridge5g.Transport.Streams.Limit.{open_streams, Steps-max, streams-bounded}
use air_bridge5g.Transport.SocksTls.{
  Phase, unheard, accepting, passed, ended, sending, SocksTls, new_socks_tls, dial_socks, listen,
  accept_error, check_limit, admit, enqueue, drop_stream, shutdown, Step, dials, listens,
  accept_fails, accepts, admits, sends, drops, receives, closes, shuts_down, Steps, stay, next,
}

-- The accept goroutines in a phase, and those of them past the test.
unfoldable acceptors_in : Phase → ℕ
acceptors_in unheard = 0
acceptors_in _ = 1

unfoldable checked_in : Phase → ℕ
checked_in passed = 1
checked_in _ = 0

-- The transport is reached by a run of its own, and the channel is within its capacity.
abbrev Follows : ℕ → SocksTls → Type 0
Follows limit s =
    Streams.Steps (initial limit) s.transport
    × (s.transport.acceptors ≡ acceptors_in s.phase)
    × (s.transport.checked ≡ checked_in s.phase)
    × (length s.queue ≤ s.transport.max_streams)

shutdown_cases : (s : SocksTls) → (shutdown s ≡ s) ⊎ (shutdown s ≡ record s { cancelled = true })
unfolding shutdown
shutdown_cases s = ground arith

shutdown-Follows : {limit : ℕ} (s : SocksTls) → Follows limit s → Follows limit (shutdown s)
shutdown-Follows s v = elim (shutdown_cases s) [ inl e ↦ rw e v | inr e ↦ rw e v ]

Step-Follows : {limit : ℕ} {s t : SocksTls} → Step s t → Follows limit s → Follows limit t
unfolding listen accept_error check_limit admit enqueue drop_stream acceptors_in checked_in
    dial_socks dial add_stream start_acceptor count_handshake_error pass admit_stream close_stream
Step-Follows (dials {s} has_tls connects) (r, a, c, q) =
    (Streams.next r (Streams.dials has_tls connects true), ground arith, ground arith, ground arith)
Step-Follows (listens {s} has_tls binds p) (r, a, c, q) = elim (Bool-cases (has_tls && binds)) [
  | inl e ↦ rw e (Streams.next r Streams.starts_acceptor, ground arith, ground arith, ground arith)
  | inr e ↦ rw e (r, a, c, q)
]
Step-Follows (accept_fails {s} p) (r, a, c, q) = elim (Bool-cases s.cancelled) [
  | inl e ↦ rw e (r, ground arith, ground arith, q)
  | inr e ↦ rw e (Streams.next r Streams.accept_fails, a, c, q)
]
Step-Follows (accepts {s} p) (r, a, c, q) = elim (Bool-cases (is_full s.transport)) [
  | inl e ↦ rw e (r, a, c, q)
  | inr e ↦ rw e (Streams.next r (Streams.passes (ground arith) e), ground arith, ground arith, q)
]
Step-Follows (admits {s} p) (r, a, c, q) =
    (Streams.next r (Streams.admits (ground arith)), ground arith, ground arith, q)
Step-Follows (sends {s} i p l) (r, a, c, q) =
    (r, ground arith, ground arith, omega (arith, length-append s.queue (i ∷ [])))
Step-Follows (drops {s} i p x) (r, a, c, q) =
    (Streams.next r (Streams.closes i), ground arith, ground arith, ground arith)
Step-Follows (receives {s} i rest e) (r, a, c, q) =
    let l : length s.queue ≡ suc (length rest) = rw e refl in (r, a, c, omega arith)
Step-Follows (closes {s} i) (r, a, c, q) =
    (Streams.next r (Streams.closes i), ground arith, ground arith, ground arith)
Step-Follows (shuts_down {s}) v = shutdown-Follows s v

Steps-Follows : {limit : ℕ} {s t : SocksTls} → Steps s t → Follows limit s → Follows limit t
Steps-Follows stay v = v
Steps-Follows (next r q) v = Step-Follows q (Steps-Follows r v)

acceptors_in_le : (p : Phase) → acceptors_in p ≤ 1
unfolding acceptors_in
acceptors_in_le unheard = omega arith
acceptors_in_le accepting = omega arith
acceptors_in_le passed = omega arith
acceptors_in_le ended = omega arith
acceptors_in_le (sending i) = omega arith

-- In every run of the SOCKS5 transport from a new one, however its dials, its accept goroutine, the
-- receiver of its streams, calls of `Close` and `Shutdown` interleave, the counter of active
-- connections is the number of tracked streams that are not closed; these are at most the limit plus
-- one for each dial, so that without dials the limit holds; and the channel holds no more than its
-- capacity. The numbers are below 2⁶³.
pub socks_tls-bounded :
    (limit : ℕ) (s : SocksTls)
    → Steps (new_socks_tls limit) s
    → limit + s.transport.dials + 1 < 2 ^ 63
    → (s.transport.active_streams ≡ open_streams s.transport.streams)
      × (s.transport.active_streams ≤ limit + s.transport.dials)
      × (length s.queue ≤ limit)
unfolding acceptors_in checked_in
socks_tls-bounded limit s r h =
    let (rs, a, c, q) = Steps-Follows r (Streams.stay, refl, refl, omega arith) in
    let l = acceptors_in_le s.phase in
    let b = streams-bounded limit s.transport rs (omega arith) in
    (b.0, omega (arith, b.1), omega (arith, Steps-max rs))
