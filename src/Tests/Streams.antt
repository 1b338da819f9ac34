-- ===== src/Tests/Streams.antt =====
-- Concrete inputs of the transports, of the relay in core/go/internal/proxy/socks5.go, and of the
-- nonces in hotpath/hotpath.go.
use air_bridge5g.Prelude.{
  ℕ, ◌+◌, ◌-◌, ◌^◌, ◌≤◌, ◌<◌, ◌≡◌, refl, Bool, true, false, Option, none, [], ◌∷◌, arith, Bytes,
  codes, length, take, drop,
}
use air_bridge5g.Privacy.UserAgent.{HeaderMap, chrome_mobile}
use air_bridge5g.Proxy.Readers.{harmonize_raw_http, HarmonizingReader, read_harmonized}
use air_bridge5g.Proxy.Readers.Drained.{or_else, drain}
use air_bridge5g.Proxy.Relay.Directions.{
  Relay, new_relay, read_chunk, end_up, Steps, stay, HasReturned, half_close-drops,
}
use air_bridge5g.Transport.Streams.{
  Transport, initial, start_acceptor, is_full, pass, admit_stream, add_stream, starts_acceptor,
  passes, admits,
}
use air_bridge5g.Transport.Streams
use air_bridge5g.Transport.SocksTls.{SocksTls, new_socks_tls, listen, check_limit, admit, enqueue}
use air_bridge5g.Transport.SocksTls
use air_bridge5g.Transport.SocksTls.Bound.{socks_tls-bounded}
use air_bridge5g.Transport.Streams.Limit.{open_streams, streams-bounded, streams-exceed}

abbrev one_stream : Transport
one_stream = admit_stream (pass (start_acceptor (initial 1)))

admitting : Streams.Steps (initial 1) one_stream
unfolding start_acceptor is_full pass admit_stream add_stream
admitting =
    Streams.next
      (Streams.next (Streams.next Streams.stay starts_acceptor) (passes (omega arith) refl))
      (admits (omega arith))

few : 1 + one_stream.acceptors + one_stream.dials < 2 ^ 63
unfolding start_acceptor pass admit_stream add_stream
few = omega arith

streams-bounded_example :
    (one_stream.active_streams ≡ open_streams one_stream.streams)
    × (one_stream.active_streams ≤ 1 + one_stream.dials + (one_stream.acceptors - 1))
streams-bounded_example = streams-bounded 1 one_stream admitting few

streams-exceed_example :
    (t : Transport) × Streams.Steps (initial 1) t
    × (t.acceptors ≡ 2)
    × (t.dials ≡ 0)
    × (t.active_streams ≡ 1 + 1)
streams-exceed_example = streams-exceed 1 (omega arith) (omega arith)

abbrev begun : Relay
begun = new_relay [] ((7 ∷ 8 ∷ []) ∷ (9 ∷ []) ∷ []) 0 0

-- A client that has sent all, while the target still sends and a chunk of it is read.
abbrev asking : Relay
asking = record begun { down = read_chunk (7 ∷ 8 ∷ []) ((9 ∷ []) ∷ []) begun.down }

asking-copies : asking.up.is_copying ≡ true
unfolding new_relay
asking-copies = refl

half_close-drops_example :
    ((end_up asking).down.delivered ≡ asking.down.delivered)
    × ((end_up asking).down.held ≡ asking.down.held)
    × ((end_up asking).down.incoming ≡ asking.down.incoming)
    × ((u : Relay) × Steps (end_up asking) u × HasReturned u)
half_close-drops_example = half_close-drops asking (end_up asking) asking-copies stay

-- A source of bytes, and a parser that knows no request.
abbrev source : Bytes → ℕ → Bytes × Bytes × Bool
source r n = (drop n r, take n r, false)

abbrev no_request : Bytes → Option (HeaderMap × Unit {0})
no_request bs = none

abbrev no_text : HeaderMap → Unit {0} → Option Bytes
no_text m body = none

abbrev reader : HarmonizingReader Bytes
reader = record {
  r = codes "hello";
  ua_harmonizer = record {
    target_ua = chrome_mobile;
    strip_headers = [];
    strip_client_hints = false;
    enabled = true;
    requests_processed = 0;
    requests_modified = 0;
    headers_stripped = 0;
  };
  inspected = false;
  buf = [];
  offset = 0;
}

abbrev given : Bytes
given =
    or_else (codes "hello")
      (harmonize_raw_http no_request no_text reader.ua_harmonizer (codes "hello")).1

abbrev read_first : HarmonizingReader Bytes × Bytes × Bool
read_first = read_harmonized no_request no_text source 2 reader

abbrev drained : HarmonizingReader Bytes × Bytes × Bool
drained = drain no_request no_text source 9 2 read_first.0

-- A transport whose single goroutine has admitted a stream and passed it on.
abbrev heard : SocksTls
heard = listen true true (new_socks_tls 3)

abbrev queued : SocksTls
queued = enqueue 0 (admit (check_limit heard))

queued_run : SocksTls.Steps (new_socks_tls 3) queued
unfolding listen enqueue admit check_limit is_full pass admit_stream add_stream start_acceptor
queued_run =
    SocksTls.next
      (SocksTls.next
        (SocksTls.next (SocksTls.next SocksTls.stay (SocksTls.listens true true refl))
          (SocksTls.accepts refl))
        (SocksTls.admits refl))
      (SocksTls.sends 0 refl (omega arith))

few_queued : 3 + queued.transport.dials + 1 < 2 ^ 63
unfolding listen enqueue admit check_limit is_full pass admit_stream add_stream start_acceptor
few_queued = omega arith

socks_tls-bounded_example :
    (queued.transport.active_streams ≡ open_streams queued.transport.streams)
    × (queued.transport.active_streams ≤ 3 + queued.transport.dials)
    × (length queued.queue ≤ 3)
socks_tls-bounded_example = socks_tls-bounded 3 queued queued_run few_queued
