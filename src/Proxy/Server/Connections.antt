-- ===== src/Proxy/Server/Connections.antt =====
-- The limit on connections in core/go/internal/proxy/socks5.go.
use air_bridge5g.Prelude.{ℕ, zero, suc, ◌+◌, ◌^◌, ◌≤◌, ◌<◌, ◌≡◌, refl, ◌∙◌, arith}
use air_bridge5g.Proxy.Server.{
  Server, Phase, accepting, admitted, stopped, is_full, count_error, start_handler, end_handler,
  leave_group, go_to, Step, accept_error, shut_down, refuse, admit, start, finish, leave, Steps,
  stay, next, initial, HasReturned,
}

-- The connections that a phase has already promised a handler.
abbrev pub promised : Phase → ℕ
promised accepting = 0
promised admitted = 1
promised stopped = 0

-- The counter of active connections is the number of handlers, and the limit holds.
abbrev pub IsValid : Server → Type 0
IsValid s =
    (s.active_connections ≡ s.handlers)
    × (s.handlers + promised s.phase ≤ s.max_connections)
    × (s.max_connections < 2 ^ 63)

Step-IsValid : {s t : Server} → Step s t → IsValid s → IsValid t
unfolding is_full count_error start_handler end_handler leave_group go_to
Step-IsValid (accept_error p) v = ground arith
Step-IsValid (shut_down p) v = ground arith
Step-IsValid (refuse p f) v = ground arith
Step-IsValid (admit p f) v = ground arith
Step-IsValid (start p) v = ground arith
Step-IsValid (finish p) v = ground arith
Step-IsValid (leave p) v = v

Steps-IsValid : {s t : Server} → Steps s t → IsValid s → IsValid t
Steps-IsValid stay v = v
Steps-IsValid (next r q) v = Step-IsValid q (Steps-IsValid r v)

Step-max : {s t : Server} → Step s t → t.max_connections ≡ s.max_connections
unfolding count_error start_handler end_handler leave_group go_to
Step-max (accept_error p) = refl
Step-max (shut_down p) = refl
Step-max (refuse p f) = refl
Step-max (admit p f) = refl
Step-max (start p) = refl
Step-max (finish p) = refl
Step-max (leave p) = refl

Steps-max : {s t : Server} → Steps s t → t.max_connections ≡ s.max_connections
Steps-max stay = refl
Steps-max (next r q) = Step-max q ∙ Steps-max r

-- In every state that a server with a limit below 2⁶³ reaches, however the loop and the handlers
-- interleave, the counter of active connections is the number of handlers that have not come to
-- their deferred calls, and it is at most the limit.
pub connections-bounded :
    (limit : ℕ) (s : Server)
    → limit < 2 ^ 63
    → Steps (initial limit) s
    → (s.active_connections ≡ s.handlers) × (s.handlers ≤ limit)
connections-bounded limit s h r =
    let v = Steps-IsValid r (refl, omega arith, h) in
    let e = Steps-max r in (v.0, omega (arith, v.1, e))

after : {s t u : Server} → Steps s t → Steps t u → Steps s u
after r stay = r
after r (next q x) = next (after r q) x

-- A loop that has stopped and has so many handlers, and so many that are ending, returns once all of
-- them have ended.
drain :
    (n m : ℕ) (s : Server)
    → s.handlers ≡ n
    → s.ending ≡ m
    → s.phase ≡ stopped
    → (t : Server) × Steps s t × HasReturned t
unfolding end_handler leave_group
drain zero zero s h e p = (s, stay, (p, omega arith))
drain zero (suc m) s h e p =
    let (t, r, q) = drain zero m (leave_group s) h (omega arith) p in
    (t, after (next stay (leave (omega arith))) r, q)
drain (suc n) m s h e p =
    let (t, r, q) = drain n (suc m) (end_handler s) (omega arith) (omega arith) p in
    (t, after (next stay (finish (omega arith))) r, q)

-- From every state that the server reaches while it accepts connections, a shutdown and the ends of
-- its handlers lead to the return of `ListenAndServe`, and the counter of active connections is then
-- 0.
pub shutdown-returns :
    (limit : ℕ) (s : Server)
    → limit < 2 ^ 63
    → Steps (initial limit) s
    → s.phase ≡ accepting
    → (t : Server) × Steps s t × HasReturned t × (t.active_connections ≡ 0)
unfolding go_to
shutdown-returns limit s h r p =
    let stopped_state = go_to stopped s in
    let (t, q, ret) = drain s.handlers s.ending stopped_state refl refl refl in
    let path = after (next r (shut_down p)) q in
    let b = connections-bounded limit t h path in
    (t, after (next stay (shut_down p)) q, ret, omega (arith, b.0, ret.1))
