-- ===== src/Proxy/Relay/Directions.antt =====
-- The two directions of `relay` in core/go/internal/proxy/socks5.go, and how the end of one ends the
-- other. A direction is what its source still sends, what is read and not written yet, and what its
-- destination has got.
use air_bridge5g.Prelude.{
  ℕ, ◌≡◌, refl, inl, inr, Bool, true, false, List, [], ◌∷◌, ◌++◌, arith, Bytes, Bool-cases, length,
}
use air_bridge5g.Prelude.Int.{add64}

pub record Direction : Type 0 where
  pub is_copying : Bool
  pub incoming : List Bytes
  pub held : Bytes
  pub delivered : Bytes

-- `closeSockets` has set the deadlines of both sockets; the counters are those of the metrics.
pub record Relay : Type 0 where
  pub up : Direction
  pub down : Direction
  pub expired : Bool
  pub bytes_in : ℕ
  pub bytes_out : ℕ

abbrev pub open_direction : List Bytes → Direction
open_direction incoming = record {
  is_copying = true;
  incoming = incoming;
  held = [];
  delivered = [];
}

unfoldable pub new_relay : List Bytes → List Bytes → ℕ → ℕ → Relay
new_relay from_client from_target bytes_in bytes_out = record {
  up = open_direction from_client;
  down = open_direction from_target;
  expired = false;
  bytes_in = bytes_in;
  bytes_out = bytes_out;
}

-- A chunk is read into the buffer.
unfoldable pub read_chunk : Bytes → List Bytes → Direction → Direction
read_chunk chunk rest d = record d { incoming = rest; held = chunk }

-- Some of the buffer is written.
unfoldable pub write_some : Bytes → Bytes → Direction → Direction
write_some front back d = record d { held = back; delivered = d.delivered ++ front }

unfoldable pub stop_direction : Direction → Direction
stop_direction d = record d { is_copying = false }

-- A loop ends: its total is counted, and its deferred function cancels the context and expires the
-- sockets.
unfoldable pub end_up : Relay → Relay
unfolding stop_direction
end_up s = record s {
  up = stop_direction s.up;
  expired = true;
  bytes_in = add64 s.bytes_in (length s.up.delivered);
}

unfoldable pub end_down : Relay → Relay
unfolding stop_direction
end_down s = record s {
  down = stop_direction s.down;
  expired = true;
  bytes_out = add64 s.bytes_out (length s.down.delivered);
}

-- The watchdog, when the context of the caller is cancelled.
unfoldable pub expire : Relay → Relay
expire s = record s { expired = true }

-- A read or a write on an expired socket fails, so that a loop copies before that only: it reads when
-- it has written all that it holds, and a loop that ends may hold something still.
pub data Step : Relay → Relay → Type 0 where
  reads_up :
      {s : Relay} (chunk : Bytes) (rest : List Bytes)
      → s.up.is_copying ≡ true
      → s.expired ≡ false
      → s.up.held ≡ []
      → s.up.incoming ≡ chunk ∷ rest
      → Step s (record s { up = read_chunk chunk rest s.up })
  writes_up :
      {s : Relay} (front back : Bytes)
      → s.up.is_copying ≡ true
      → s.expired ≡ false
      → s.up.held ≡ front ++ back
      → Step s (record s { up = write_some front back s.up })
  reads_down :
      {s : Relay} (chunk : Bytes) (rest : List Bytes)
      → s.down.is_copying ≡ true
      → s.expired ≡ false
      → s.down.held ≡ []
      → s.down.incoming ≡ chunk ∷ rest
      → Step s (record s { down = read_chunk chunk rest s.down })
  writes_down :
      {s : Relay} (front back : Bytes)
      → s.down.is_copying ≡ true
      → s.expired ≡ false
      → s.down.held ≡ front ++ back
      → Step s (record s { down = write_some front back s.down })
  ends_up : {s : Relay} → s.up.is_copying ≡ true → Step s (end_up s)
  ends_down : {s : Relay} → s.down.is_copying ≡ true → Step s (end_down s)
  expires : {s : Relay} → Step s (expire s)

pub data Steps : Relay → Relay → Type 0 where
  stay : {s : Relay} → Steps s s
  next : {s t u : Relay} → Steps s t → Step t u → Steps s u

-- Both loops have called `wg.Done`, and `relay` returns.
abbrev pub HasReturned : Relay → Type 0
HasReturned s = (s.up.is_copying ≡ false) × (s.down.is_copying ≡ false)

Step-expired :
    {s t : Relay}
    → Step s t
    → s.expired ≡ true
    → (t.expired ≡ true)
      × (t.up.delivered ≡ s.up.delivered)
      × (t.down.delivered ≡ s.down.delivered)
      × (t.down.held ≡ s.down.held)
      × (t.down.incoming ≡ s.down.incoming)
unfolding end_up end_down expire read_chunk write_some
Step-expired (reads_up chunk rest c e b i) h = ground arith
Step-expired (writes_up front back c e b) h = ground arith
Step-expired (reads_down chunk rest c e b i) h = ground arith
Step-expired (writes_down front back c e b) h = ground arith
Step-expired (ends_up c) h = ground arith
Step-expired (ends_down c) h = ground arith
Step-expired (expires) h = ground arith

Steps-expired :
    {s t : Relay}
    → Steps s t
    → s.expired ≡ true
    → (t.expired ≡ true)
      × (t.up.delivered ≡ s.up.delivered)
      × (t.down.delivered ≡ s.down.delivered)
      × (t.down.held ≡ s.down.held)
      × (t.down.incoming ≡ s.down.incoming)
Steps-expired stay h = (h, refl, refl, refl, refl)
Steps-expired (next r q) h =
    let a = Steps-expired r h in let b = Step-expired q a.0 in ground (arith, a, b)

-- When the loop from the client ends, as it does at the end of what the client sends, the client
-- gets nothing more: on every continuation it has what it had, what was read of the target and not
-- written yet is not written, and what the target still sends is left unread. From there the relay can return.
pub half_close-drops :
    (s t : Relay)
    → s.up.is_copying ≡ true
    → Steps (end_up s) t
    → (t.down.delivered ≡ s.down.delivered)
      × (t.down.held ≡ s.down.held)
      × (t.down.incoming ≡ s.down.incoming)
      × ((u : Relay) × Steps (end_up s) u × HasReturned u)
unfolding end_up end_down
half_close-drops s t h r =
    let a = Steps-expired r refl in
    (
      a.2,
      a.3,
      a.4,
      elim (Bool-cases s.down.is_copying) [
        | inl e ↦ (end_down (end_up s), next stay (ends_down e), (refl, refl))
        | inr e ↦ (end_up s, stay, (refl, e))
      ],
    )
