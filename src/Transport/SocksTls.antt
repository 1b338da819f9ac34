-- ===== src/Transport/SocksTls.antt =====
-- core/go/internal/transport/socks5_tls.go: `Dial`, `Listen` and `Shutdown`, on the counters of
-- Transport/Streams. `Listen` is called once at most, and has one accept goroutine, which passes its
-- streams on by a channel.
pub mod Bound
use air_bridge5g.Prelude.{
  ℕ, ◌<◌, ◌≡◌, Bool, true, false, ◌&&◌, Option, List, [], ◌∷◌, ◌++◌, if◌then◌else◌, length,
}
use air_bridge5g.Transport.Streams.{
  Transport, DialError, initial, count_handshake_error, dial, start_acceptor, is_full, pass,
  admit_stream, close_stream,
}

-- Where the accept goroutine stands: not started, in `Accept`, past the test of the limit, sending a
-- stream, or behind its loop.
pub data Phase : Type 0 where
  unheard accepting passed ended : Phase
  sending : ℕ → Phase

-- The streams are numbered in the order in which they are made; `queue` is what the channel holds.
pub record SocksTls : Type 0 where
  pub transport : Transport
  pub phase : Phase
  pub queue : List ℕ
  pub cancelled : Bool

-- `NewSOCKS5OverTLS`
abbrev pub new_socks_tls : ℕ → SocksTls
new_socks_tls limit = record {
  transport = initial limit;
  phase = unheard;
  queue = [];
  cancelled = false;
}

abbrev pub go_to : Phase → SocksTls → SocksTls
go_to p s = record s { phase = p }

-- `SOCKS5OverTLS.Dial`: whether there is a TLS configuration, and the dial succeeds.
unfoldable pub dial_socks : Bool → Bool → SocksTls → Option DialError × SocksTls
dial_socks has_tls connects s =
    let (e, t) = dial has_tls connects true s.transport in (e, record s { transport = t })

-- `Listen`, with whether there is a TLS configuration and the listen succeeds.
unfoldable pub listen : Bool → Bool → SocksTls → SocksTls
listen has_tls listens s =
    if has_tls && listens
    then record s { transport = start_acceptor s.transport; phase = accepting }
    else s

-- `Accept` fails.
unfoldable pub accept_error : SocksTls → SocksTls
accept_error s =
    if s.cancelled
    then go_to ended s
    else record s { transport = count_handshake_error s.transport }

-- The test of the limit, on a connection that is accepted; a refused one is only closed.
unfoldable pub check_limit : SocksTls → SocksTls
check_limit s =
    if is_full s.transport then s else record s { transport = pass s.transport; phase = passed }

-- The two additions, and the tracked stream.
unfoldable pub admit : SocksTls → SocksTls
admit s = record s {
  transport = admit_stream s.transport;
  phase = sending (length s.transport.streams);
}

-- `streamCh <- stream`
unfoldable pub enqueue : ℕ → SocksTls → SocksTls
enqueue i s = record s { phase = accepting; queue = s.queue ++ (i ∷ []) }

-- The other branch of the `select`, when the context is cancelled.
unfoldable pub drop_stream : ℕ → SocksTls → SocksTls
drop_stream i s = record s { transport = close_stream i s.transport; phase = ended }

-- There is nothing to cancel before `Listen`.
unfoldable pub shutdown : SocksTls → SocksTls
shutdown s = elim s.phase [ unheard ↦ s | _ ↦ record s { cancelled = true } ]

pub data Step : SocksTls → SocksTls → Type 0 where
  dials : {s : SocksTls} (has_tls connects : Bool) → Step s (dial_socks has_tls connects s).1
  listens :
      {s : SocksTls} (has_tls binds : Bool) → s.phase ≡ unheard → Step s (listen has_tls binds s)
  accept_fails : {s : SocksTls} → s.phase ≡ accepting → Step s (accept_error s)
  accepts : {s : SocksTls} → s.phase ≡ accepting → Step s (check_limit s)
  admits : {s : SocksTls} → s.phase ≡ passed → Step s (admit s)
  sends :
      {s : SocksTls} (i : ℕ)
      → s.phase ≡ sending i
      → length s.queue < s.transport.max_streams
      → Step s (enqueue i s)
  drops :
      {s : SocksTls} (i : ℕ) → s.phase ≡ sending i → s.cancelled ≡ true → Step s (drop_stream i s)
  receives :
      {s : SocksTls} (i : ℕ) (rest : List ℕ)
      → s.queue ≡ i ∷ rest
      → Step s (record s { queue = rest })
  closes : {s : SocksTls} (i : ℕ) → Step s (record s { transport = close_stream i s.transport })
  shuts_down : {s : SocksTls} → Step s (shutdown s)

pub data Steps : SocksTls → SocksTls → Type 0 where
  stay : {s : SocksTls} → Steps s s
  next : {s t u : SocksTls} → Steps s t → Step t u → Steps s u
