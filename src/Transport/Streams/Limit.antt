-- ===== src/Transport/Streams/Limit.antt =====
-- The limit on the streams of core/go/internal/transport/quic.go and socks5_tls.go.
use air_bridge5g.Prelude.{
  ℕ, zero, suc, ◌+◌, ◌-◌, ◌^◌, ◌≤◌, ◌<◌, ◌≡◌, refl, ◌∙◌, Bool, true, false, List, [], ◌∷◌, ◌++◌,
  arith, if◌then◌else◌, get_or, set,
}
use air_bridge5g.Transport.Streams.{
  Transport, initial, count_handshake_error, add_stream, dial, start_acceptor, is_full,
  refuse_stream, pass, admit_stream, close_stream, Step, dials, starts_acceptor, accept_fails,
  refuses, passes, admits, closes, Steps, stay, next,
}

-- The streams that are not closed.
abbrev pub open_streams : List Bool → ℕ
open_streams [] = 0
open_streams (b ∷ bs) = (if b then 0 else 1) + open_streams bs

open_streams-append : (bs : List Bool) → open_streams (bs ++ (false ∷ [])) ≡ open_streams bs + 1
open_streams-append [] = refl
open_streams-append (b ∷ bs) = omega (arith, open_streams-append bs)

open_streams-set :
    (bs : List Bool) (i : ℕ)
    → get_or bs i true ≡ false
    → open_streams (set bs i true) + 1 ≡ open_streams bs
open_streams-set [] i h = cc
open_streams-set (b ∷ bs) zero h = ground arith
open_streams-set (b ∷ bs) (suc i) h = omega (arith, open_streams-set bs i h)

-- The counters are small enough for an int64.
abbrev pub IsSmall : Transport → Type 0
IsSmall t = t.max_streams + t.acceptors + t.dials < 2 ^ 63

abbrev pub IsBounded : Transport → Type 0
IsBounded t =
    (t.active_streams ≡ open_streams t.streams)
    × (open_streams t.streams + t.checked ≤ t.max_streams + t.dials + (t.acceptors - 1))

Step-IsSmall : {t u : Transport} → Step t u → IsSmall u → IsSmall t
unfolding dial add_stream start_acceptor count_handshake_error refuse_stream pass admit_stream
    close_stream
Step-IsSmall (dials a b c) h = ground arith
Step-IsSmall (starts_acceptor) h = ground arith
Step-IsSmall (accept_fails) h = ground arith
Step-IsSmall (refuses a f) h = ground arith
Step-IsSmall (passes a f) h = ground arith
Step-IsSmall (admits a) h = ground arith
Step-IsSmall (closes i) h = ground arith

Step-IsBounded : {t u : Transport} → Step t u → IsSmall u → IsBounded t → IsBounded u
unfolding dial add_stream start_acceptor is_full count_handshake_error refuse_stream pass
    admit_stream close_stream
Step-IsBounded (dials {t} a b c) h v = ground (arith, open_streams-append t.streams)
Step-IsBounded (starts_acceptor) h v = ground arith
Step-IsBounded (accept_fails) h v = ground arith
Step-IsBounded (refuses a f) h v = ground arith
Step-IsBounded (passes a f) h v = ground arith
Step-IsBounded (admits {t} a) h v = ground (arith, open_streams-append t.streams)
Step-IsBounded (closes {t} i) h v = ground (arith, open_streams-set t.streams i)

Steps-IsBounded : {t u : Transport} → Steps t u → IsSmall u → IsBounded t → IsBounded u
Steps-IsBounded stay h v = v
Steps-IsBounded (next r q) h v = Step-IsBounded q h (Steps-IsBounded r (Step-IsSmall q h) v)

Step-max : {t u : Transport} → Step t u → u.max_streams ≡ t.max_streams
unfolding dial add_stream start_acceptor count_handshake_error refuse_stream pass admit_stream
    close_stream
Step-max (dials a b c) = ground arith
Step-max (starts_acceptor) = refl
Step-max (accept_fails) = refl
Step-max (refuses a f) = refl
Step-max (passes a f) = refl
Step-max (admits a) = refl
Step-max (closes i) = ground arith

pub Steps-max : {t u : Transport} → Steps t u → u.max_streams ≡ t.max_streams
Steps-max stay = refl
Steps-max (next r q) = Step-max q ∙ Steps-max r

-- In every run of a transport, however dials, accept goroutines and calls of `Close` interleave and
-- however often a stream is closed, the counter of active streams is the number of tracked streams
-- that are not closed; and these are at most the limit, plus one for each dial, plus one for each
-- accept goroutine but the first. With one accept goroutine and no dial the limit holds. The
-- numbers are below 2⁶³.
pub streams-bounded :
    (limit : ℕ) (t : Transport)
    → Steps (initial limit) t
    → limit + t.acceptors + t.dials < 2 ^ 63
    → (t.active_streams ≡ open_streams t.streams)
      × (t.active_streams ≤ limit + t.dials + (t.acceptors - 1))
streams-bounded limit t r h =
    let e = Steps-max r in
    let v = Steps-IsBounded r (omega (arith, e)) (refl, omega arith) in
    (v.0, omega (arith, v.0, v.1, e))

-- A state with two accept goroutines, neither behind the test, and no dials.
abbrev IsIdle : ℕ → ℕ → Transport → Type 0
IsIdle limit active t =
    (t.max_streams ≡ limit)
    × (t.active_streams ≡ active)
    × (t.acceptors ≡ 2)
    × (t.checked ≡ 0)
    × (t.dials ≡ 0)

-- One goroutine admits so many streams, one after the other.
fill :
    (limit n active : ℕ) (t u : Transport)
    → Steps t u
    → active + n ≤ limit
    → limit < 2 ^ 62
    → IsIdle limit active u
    → (v : Transport) × Steps t v × IsIdle limit (active + n) v
unfolding is_full pass admit_stream add_stream
fill limit zero active t u r h b v = let e : active + 0 ≡ active = omega arith in (u, r, rw e v)
fill limit (suc n) active t u r h b v =
    let e : active + suc n ≡ (active + 1) + n = omega arith in
    rw e (
      fill limit n (active + 1) t (admit_stream (pass u))
        (next (next r (passes (ground arith) (ground arith))) (admits (ground arith))) (omega arith)
        b (ground arith))

-- For every limit above 0 and below 2⁶² there is a run of the QUIC transport with two connections and no dial
-- that ends with one active stream more than the limit: both accept goroutines load the counter
-- before either adds to it.
pub streams-exceed :
    (limit : ℕ)
    → 0 < limit
    → limit < 2 ^ 62
    → (t : Transport) × Steps (initial limit) t
      × (t.acceptors ≡ 2)
      × (t.dials ≡ 0)
      × (t.active_streams ≡ limit + 1)
unfolding is_full pass admit_stream add_stream start_acceptor
streams-exceed limit p h =
    let (u, r, v) =
      fill limit (limit - 1) 0 (initial limit) (start_acceptor (start_acceptor (initial limit)))
        (next (next stay starts_acceptor) starts_acceptor) (omega arith) h
        (refl, refl, refl, refl, refl) in
    let free : is_full u ≡ false = ground arith in
    (
      admit_stream (admit_stream (pass (pass u))),
      next
          (next (next (next r (passes (ground arith) free)) (passes (ground arith) (ground arith)))
            (admits (ground arith)))
          (admits (ground arith)),
      ground arith,
      ground arith,
      ground arith,
    )
