-- ===== src/Transport/Streams.antt =====
-- core/go/internal/transport/quic.go and socks5_tls.go: the counters of streams, `Dial`, the accept
-- goroutines of `Listen` and `trackedStream`. The SOCKS5 transport has one accept goroutine, the
-- QUIC transport one for each connection; they interleave at the loads and additions of the counter.
pub mod Limit
use air_bridge5g.Prelude.{
  ℕ, ◌+◌, ◌-◌, ◌^◌, ◌<◌, ◌≡◌, Bool, true, false, not, ◌&&◌, Option, none, some, List, [], ◌∷◌, ◌++◌,
  ltb, leb, if◌then◌else◌, get_or, set,
}
use air_bridge5g.Prelude.Int.{add64, dec64}

pub record Transport : Type 0 where
  pub max_streams : ℕ
  pub active_streams : ℕ
  pub total_streams : ℕ
  pub handshake_errors : ℕ
  pub stream_errors : ℕ
  -- Whether `closeOnce` of each tracked stream has run.
  pub streams : List Bool
  -- The accept goroutines that were started, those of them behind the test of the limit, and the
  -- dials that made a stream.
  pub acceptors : ℕ
  pub checked : ℕ
  pub dials : ℕ

abbrev pub initial : ℕ → Transport
initial limit = record {
  max_streams = limit;
  active_streams = 0;
  total_streams = 0;
  handshake_errors = 0;
  stream_errors = 0;
  streams = [];
  acceptors = 0;
  checked = 0;
  dials = 0;
}

unfoldable pub count_handshake_error : Transport → Transport
count_handshake_error t = record t { handshake_errors = add64 t.handshake_errors 1 }

-- The two additions, and the tracked stream.
unfoldable pub add_stream : Transport → Transport
add_stream t = record t {
  total_streams = add64 t.total_streams 1;
  active_streams = add64 t.active_streams 1;
  streams = t.streams ++ (false ∷ []);
}

pub data DialError : Type 0 where
  tls_config_required dial_failed open_stream_failed : DialError

-- `QUICTransport.Dial`: whether there is a TLS configuration, the dial succeeds, and the stream is
-- opened. `SOCKS5OverTLS.Dial` has no stream to open: its last argument is true.
unfoldable pub dial : Bool → Bool → Bool → Transport → Option DialError × Transport
dial has_tls dials opens t =
    if not has_tls
    then (some tls_config_required, t)
    else if not dials
    then (some dial_failed, count_handshake_error t)
    else if not opens
    then (some open_stream_failed, t)
    else (none, record (add_stream t) { dials = t.dials + 1 })

-- An accept goroutine is started.
unfoldable pub start_acceptor : Transport → Transport
start_acceptor t = record t { acceptors = t.acceptors + 1 }

-- `t.stats.ActiveStreams.Load() >= int64(t.cfg.MaxStreams)`; a counter is below 2⁶³ where it is not
-- negative.
unfoldable pub is_full : Transport → Bool
is_full t = ltb t.active_streams (2 ^ 63) && leb t.max_streams t.active_streams

-- The QUIC transport counts the stream that it refuses.
unfoldable pub refuse_stream : Transport → Transport
refuse_stream t = record t { stream_errors = add64 t.stream_errors 1 }

unfoldable pub pass : Transport → Transport
pass t = record t { checked = t.checked + 1 }

unfoldable pub admit_stream : Transport → Transport
admit_stream t = record (add_stream t) { checked = t.checked - 1 }

-- `trackedStream.Close` of the i-th stream.
unfoldable pub close_stream : ℕ → Transport → Transport
close_stream i t =
    if get_or t.streams i true
    then t
    else record t { active_streams = dec64 t.active_streams; streams = set t.streams i true }

pub data Step : Transport → Transport → Type 0 where
  dials : {t : Transport} (has_tls connects opens : Bool) → Step t (dial has_tls connects opens t).1
  starts_acceptor : {t : Transport} → Step t (start_acceptor t)
  accept_fails : {t : Transport} → Step t (count_handshake_error t)
  refuses : {t : Transport} → t.checked < t.acceptors → is_full t ≡ true → Step t (refuse_stream t)
  passes : {t : Transport} → t.checked < t.acceptors → is_full t ≡ false → Step t (pass t)
  admits : {t : Transport} → 0 < t.checked → Step t (admit_stream t)
  closes : {t : Transport} (i : ℕ) → Step t (close_stream i t)

pub data Steps : Transport → Transport → Type 0 where
  stay : {t : Transport} → Steps t t
  next : {t u v : Transport} → Steps t u → Step u v → Steps t v
