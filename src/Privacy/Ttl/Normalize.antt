-- ===== src/Privacy/Ttl/Normalize.antt =====
-- `NormalizePacket` of core/go/internal/privacy/ttl.go.
use air_bridge5g.Prelude.{
  ℕ, ◌≤◌, ◌<◌, ◌≡◌, sym, ap, ◌∙◌, ◌≢◌, ◌⊎◌, Bool, true, false, arith, Bytes, length, get_or, set,
  take, drop, All, length-set, get_or-set_self, get_or-set_ne, take-append-drop, length-take,
  set-take, drop-set, All-set, All-take,
}
use air_bridge5g.Prelude.Int.{add64}
use air_bridge5g.Prelude.Result.{Result, ok, err}
use air_bridge5g.Privacy.Ttl.{
  Normalizer, TtlError, recalc_ipv4_checksum, rewrite_ipv4, ihl_of, version_of, normalize_packet,
  count_processed, count_ipv4, note_ttl, count_modified, zero_checksum, header_checksum,
  put_checksum,
}
use air_bridge5g.Privacy.Ttl.Checksum.{IsByte, IsChecked, recalc_ipv4_checksum-IsChecked}

-- A packet whose first byte and length make it an IPv4 packet with a whole header.
pub record IsIpv4 (p : Bytes) : Type 0 where
  pub version : version_of p ≡ 4
  pub header_min : 20 ≤ ihl_of p
  pub header_fits : ihl_of p ≤ length p

-- Two packets of one length that may differ only in the TTL and the checksum.
pub record SameButTtl (p q : Bytes) : Type 0 where
  pub same_length : length q ≡ length p
  pub same_bytes : (i : ℕ) → i ≢ 8 → i ≢ 10 → i ≢ 11 → get_or q i 0 ≡ get_or p i 0

abbrev sets : Bytes → ℕ → ℕ → Bytes
sets p t c = put_checksum (zero_checksum (set p 8 t)) c

sets-take :
    (q : Bytes) (n c : ℕ)
    → put_checksum (zero_checksum (take n q)) c ≡ take n (put_checksum (zero_checksum q) c)
sets-take q n c = simp set-take

drop-sets : (q : Bytes) (n c : ℕ) → 12 ≤ n → drop n (put_checksum (zero_checksum q) c) ≡ drop n q
drop-sets q n c h =
    drop-set _ n 11 _ (omega arith)
    ∙ drop-set _ n 10 _ (omega arith)
    ∙ drop-set _ n 11 _ (omega arith)
    ∙ drop-set _ n 10 _ (omega arith)

-- Rewriting the header in place writes the TTL and the two bytes of the checksum.
rewrite_ipv4-sets :
    (p : Bytes) (t : ℕ)
    → 20 ≤ ihl_of p
    → rewrite_ipv4 p t ≡ sets p t (header_checksum (take (ihl_of p) (set p 8 t)))
unfolding recalc_ipv4_checksum
rewrite_ipv4-sets p t h =
    let q = set p 8 t in
    let n = ihl_of p in
    let c = header_checksum (take n q) in
    rw (sets-take q n c, ← drop-sets q n c (omega arith)) (take-append-drop n (sets p t c))

rewrite_ipv4-take :
    (p : Bytes) (t : ℕ)
    → 20 ≤ ihl_of p
    → take (ihl_of p) (rewrite_ipv4 p t) ≡ recalc_ipv4_checksum (take (ihl_of p) (set p 8 t))
unfolding recalc_ipv4_checksum
rewrite_ipv4-take p t h =
    let q = set p 8 t in
    let n = ihl_of p in
    ap (take n) (rewrite_ipv4-sets p t h) ∙ sym (sets-take q n (header_checksum (take n q)))

get_or-sets :
    (p : Bytes) (t c i : ℕ) → i ≢ 10 → i ≢ 11 → get_or (sets p t c) i 0 ≡ get_or (set p 8 t) i 0
get_or-sets p t c i b d =
    get_or-set_ne _ 11 i _ 0 (λ e. d (sym e))
    ∙ get_or-set_ne _ 10 i _ 0 (λ e. b (sym e))
    ∙ get_or-set_ne _ 11 i _ 0 (λ e. d (sym e))
    ∙ get_or-set_ne _ 10 i _ 0 (λ e. b (sym e))

sets-SameButTtl : (p : Bytes) (t c : ℕ) → SameButTtl p (sets p t c)
sets-SameButTtl p t c = record {
  same_length = simp length-set;
  same_bytes = λ i a b d. get_or-sets p t c i b d ∙ get_or-set_ne p 8 i t 0 (λ e. a (sym e));
}

sets-ttl : (p : Bytes) (t c : ℕ) → 9 ≤ length p → get_or (sets p t c) 8 0 ≡ t
sets-ttl p t c h =
    get_or-sets p t c 8 (omega arith) (omega arith) ∙ get_or-set_self p 8 t 0 (omega arith)

-- The counters of a packet whose TTL was rewritten.
abbrev pub counted_ipv4 : Normalizer → Bytes → Normalizer
counted_ipv4 n p = count_modified (note_ttl (count_ipv4 (count_processed n)) (get_or p 8 0))

ipv4_runs :
    (n : Normalizer) (p : Bytes)
    → n.enabled ≡ true
    → IsIpv4 p
    → get_or p 8 0 ≢ n.target_ttl
    → normalize_packet n p ≡ (counted_ipv4 n p, rewrite_ipv4 p n.target_ttl, ok (get_or p 8 0))
unfolding normalize_packet
ipv4_runs n p on v ne = ground arith

-- An enabled normalizer gives an IPv4 packet of bytes whose TTL is not its target that TTL, returns
-- the old one, leaves every byte but the TTL and the checksum as it was, leaves a header that passes
-- the receiver's checksum test, and counts the packet as processed, IPv4 and modified.
pub normalize_packet-ipv4 :
    (n : Normalizer) (p : Bytes)
    → n.enabled ≡ true
    → n.target_ttl < 256
    → IsIpv4 p
    → All IsByte p
    → get_or p 8 0 ≢ n.target_ttl
    → (q : Bytes) × (normalize_packet n p ≡ (counted_ipv4 n p, q, ok (get_or p 8 0)))
      × (get_or q 8 0 ≡ n.target_ttl)
      × SameButTtl p q
      × IsChecked (take (ihl_of p) q)
normalize_packet-ipv4 n p on t v bytes ne =
    let q = set p 8 n.target_ttl in
    let e = rewrite_ipv4-sets p n.target_ttl v.header_min in
    let c = header_checksum (take (ihl_of p) q) in
    let fits : length (take (ihl_of p) q) ≡ ihl_of p =
      omega (arith, length-take (ihl_of p) q, length-set p 8 n.target_ttl, v.header_fits) in
    (
      rewrite_ipv4 p n.target_ttl,
      ipv4_runs n p on v ne,
      ap (λ r. get_or r 8 0) e
          ∙ sets-ttl p n.target_ttl c (omega (arith, v.header_min, v.header_fits)),
      rw e (sets-SameButTtl p n.target_ttl c),
      rw (rewrite_ipv4-take p n.target_ttl v.header_min) (
          recalc_ipv4_checksum-IsChecked (take (ihl_of p) q)
            (All-take IsByte (ihl_of p) q (All-set IsByte p 8 n.target_ttl bytes t))
            (omega (arith, v.header_min)) (omega arith)),
    )

abbrev pub is_ok : Result TtlError ℕ → Bool
is_ok (ok ttl) = true
is_ok (err e) = false

-- A call of `NormalizePacket` either leaves the packet and the count of modified packets as they
-- were, or the normalizer is enabled, the result is a TTL, and the packet
-- counts as modified; so an error never comes with a changed packet.
pub normalize_packet-cases :
    (n : Normalizer) (p : Bytes)
    → let (n', q, r) = normalize_packet n p in
      ((q ≡ p) × (n'.stats.packets_modified ≡ n.stats.packets_modified))
      ⊎ ((is_ok r ≡ true)
          × (n.enabled ≡ true)
          × (n'.stats.packets_modified ≡ add64 n.stats.packets_modified 1))
unfolding normalize_packet
normalize_packet-cases n p = ground arith

rewrite_ipv4_facts :
    (p : Bytes) (t : ℕ)
    → 20 ≤ ihl_of p
    → 20 ≤ length p
    → (length (rewrite_ipv4 p t) ≡ length p)
      × (get_or (rewrite_ipv4 p t) 0 0 ≡ get_or p 0 0)
      × (get_or (rewrite_ipv4 p t) 8 0 ≡ t)
rewrite_ipv4_facts p t h k =
    let c = header_checksum (take (ihl_of p) (set p 8 t)) in
    let same = sets-SameButTtl p t c in
    rw (rewrite_ipv4-sets p t h) (
      same.same_length,
      same.same_bytes 0 (omega arith) (omega arith) (omega arith),
      sets-ttl p t c (omega arith),
    )

-- A packet that an enabled normalizer has handled is left as it is by every normalizer with the
-- same target.
pub normalize_packet-idempotent :
    (n m : Normalizer) (p : Bytes)
    → n.enabled ≡ true
    → m.target_ttl ≡ n.target_ttl
    → let q = (normalize_packet n p).1 in (normalize_packet m q).1 ≡ q
unfolding normalize_packet
normalize_packet-idempotent n m p on t = ground (
  arith,
  rewrite_ipv4_facts p n.target_ttl,
  length-set p 7 n.target_ttl,
  get_or-set_ne p 7 0 n.target_ttl 0 (omega arith),
  get_or-set_self p 7 n.target_ttl 0,
)
