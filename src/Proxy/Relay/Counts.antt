-- ===== src/Proxy/Relay/Counts.antt =====
-- What `relay` in core/go/internal/proxy/socks5.go has delivered and counted when it returns.
use air_bridge5g.Prelude.{
  ℕ, ◌≡◌, refl, sym, ap, ◌∙◌, List, ◌++◌, append_assoc, arith, Bytes, if◌then◌else◌, length, concat,
}
use air_bridge5g.Prelude.Int.{add64}
use air_bridge5g.Proxy.Relay.Directions.{
  Direction, Relay, new_relay, read_chunk, write_some, end_up, end_down, expire, Step, reads_up,
  writes_up, reads_down, writes_down, ends_up, ends_down, expires, Steps, stay, next, HasReturned,
}

-- A counter moves by what is delivered once the direction has ended, and not before.
abbrev IsCounted : ℕ → ℕ → Relay → Type 0
IsCounted bytes_in bytes_out s =
    (s.bytes_in ≡ (if s.up.is_copying then bytes_in else add64 bytes_in (length s.up.delivered)))
    × (s.bytes_out
        ≡ (if s.down.is_copying then bytes_out else add64 bytes_out (length s.down.delivered)))

Step-IsCounted :
    {s t : Relay} (bytes_in bytes_out : ℕ)
    → Step s t
    → IsCounted bytes_in bytes_out s
    → IsCounted bytes_in bytes_out t
unfolding end_up end_down expire read_chunk write_some
Step-IsCounted bytes_in bytes_out (reads_up chunk rest c e b i) v = v
Step-IsCounted bytes_in bytes_out (writes_up front back c e b) v = ground arith
Step-IsCounted bytes_in bytes_out (reads_down chunk rest c e b i) v = v
Step-IsCounted bytes_in bytes_out (writes_down front back c e b) v = ground arith
Step-IsCounted bytes_in bytes_out (ends_up c) v = ground arith
Step-IsCounted bytes_in bytes_out (ends_down c) v = ground arith
Step-IsCounted bytes_in bytes_out (expires) v = v

Steps-IsCounted :
    {s t : Relay} (bytes_in bytes_out : ℕ)
    → Steps s t
    → IsCounted bytes_in bytes_out s
    → IsCounted bytes_in bytes_out t
Steps-IsCounted bytes_in bytes_out stay v = v
Steps-IsCounted bytes_in bytes_out (next r q) v =
    Step-IsCounted bytes_in bytes_out q (Steps-IsCounted bytes_in bytes_out r v)

-- What a direction has delivered, what it holds and what its source still sends are together what
-- the source sent.
abbrev IsPrefix : List Bytes → Direction → Type 0
IsPrefix sent d = d.delivered ++ (d.held ++ concat d.incoming) ≡ concat sent

write_some-sent :
    (front back rest delivered : Bytes)
    → (delivered ++ front) ++ (back ++ rest) ≡ delivered ++ ((front ++ back) ++ rest)
write_some-sent front back rest delivered =
    append_assoc delivered front (back ++ rest)
    ∙ ap (λ bs. delivered ++ bs) (sym (append_assoc front back rest))

Step-IsPrefix :
    {s t : Relay} (from_client from_target : List Bytes)
    → Step s t
    → IsPrefix from_client s.up × IsPrefix from_target s.down
    → IsPrefix from_client t.up × IsPrefix from_target t.down
unfolding end_up end_down expire read_chunk write_some
Step-IsPrefix f g (reads_up chunk rest c e b i) v = ground (arith, b, i)
Step-IsPrefix f g (writes_up {s} front back c e b) v =
    ground (arith, b, write_some-sent front back (concat s.up.incoming) s.up.delivered)
Step-IsPrefix f g (reads_down chunk rest c e b i) v = ground (arith, b, i)
Step-IsPrefix f g (writes_down {s} front back c e b) v =
    ground (arith, b, write_some-sent front back (concat s.down.incoming) s.down.delivered)
Step-IsPrefix f g (ends_up c) v = v
Step-IsPrefix f g (ends_down c) v = v
Step-IsPrefix f g (expires) v = v

Steps-IsPrefix :
    {s t : Relay} (from_client from_target : List Bytes)
    → Steps s t
    → IsPrefix from_client s.up × IsPrefix from_target s.down
    → IsPrefix from_client t.up × IsPrefix from_target t.down
Steps-IsPrefix f g stay v = v
Steps-IsPrefix f g (next r q) v = Step-IsPrefix f g q (Steps-IsPrefix f g r v)

-- On every schedule of the two loops and the watchdog, when the relay has returned, each side has
-- got a prefix of the bytes that the other sent, in order and with nothing added, and the counters
-- of bytes in and out have gone up by the lengths of these prefixes.
pub relay-counts :
    (from_client from_target : List Bytes) (bytes_in bytes_out : ℕ) (s : Relay)
    → Steps (new_relay from_client from_target bytes_in bytes_out) s
    → HasReturned s
    → (s.up.delivered ++ (s.up.held ++ concat s.up.incoming) ≡ concat from_client)
      × (s.down.delivered ++ (s.down.held ++ concat s.down.incoming) ≡ concat from_target)
      × (s.bytes_in ≡ add64 bytes_in (length s.up.delivered))
      × (s.bytes_out ≡ add64 bytes_out (length s.down.delivered))
unfolding new_relay
relay-counts from_client from_target bytes_in bytes_out s r h =
    let p = Steps-IsPrefix from_client from_target r (refl, refl) in
    let c = Steps-IsCounted bytes_in bytes_out r (refl, refl) in
    (p.0, p.1, ground (arith, c), ground (arith, c))
