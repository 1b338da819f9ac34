-- ===== src/Proxy/Readers.antt =====
-- The readers and writers that `relay` in core/go/internal/proxy/socks5.go wraps around its sockets:
-- the one that harmonizes the first request, with `HarmonizeRawHTTP` of privacy/useragent.go, and
-- the limited ones of rate_limiter.go. The parsing and printing of HTTP requests are arguments.
pub mod Drained
use air_bridge5g.Prelude.{
  ℕ, ◌+◌, Bool, true, false, not, ◌&&◌, ◌||◌, Option, none, some, List, [], Bytes, ltb, leb,
  if◌then◌else◌, length, take, drop,
}
use air_bridge5g.Prelude.Int.{add64}
use air_bridge5g.Privacy.UserAgent.{HeaderMap, UaHarmonizer, is_http_request, harmonize}
use air_bridge5g.Proxy.RateLimiter.{RateLimiter, wait}

-- `uaHarmonizingReader`; the empty buffer is nil.
pub record HarmonizingReader (R : Type 0) : Type 0 where
  pub r : R
  pub ua_harmonizer : UaHarmonizer
  pub inspected : Bool
  pub buf : Bytes
  pub offset : ℕ

-- `n = copy(p, u.buf[u.offset:])` and what follows, for a p of so many bytes.
unfoldable pub take_buffered : {R : Type 0} → ℕ → HarmonizingReader R → HarmonizingReader R × Bytes
take_buffered size u =
    let bs = take size (drop u.offset u.buf) in
    let offset' = u.offset + length bs in
    (
      if leb (length u.buf) offset'
          then record u { buf = []; offset = offset' }
          else record u { offset = offset' },
      bs,
    )

-- What is read for what `HarmonizeRawHTTP` returns.
unfoldable pub choose_bytes : Bytes → Option Bytes → Bytes
choose_bytes temp none = temp
choose_bytes temp (some out) = if ltb 0 (length out) then out else temp

module _ {Body : Type 0} (parse : Bytes → Option (HeaderMap × Body))
    (print : HeaderMap → Body → Option Bytes) where
  -- `HarmonizeRawHTTP`; `none` is an error.
  unfoldable pub harmonize_raw_http : UaHarmonizer → Bytes → UaHarmonizer × Option Bytes
  harmonize_raw_http h bs =
      let h1 = record h { requests_processed = add64 h.requests_processed 1 } in
      if not h.enabled || not (is_http_request bs) then (h, some bs) else elim (parse bs) [
        | none ↦ (h1, some bs)
        | some (m, body) ↦ let (h2, m') = harmonize h1 m in (h2, print m' body)
      ]

  module _ {R : Type 0} (read : R → ℕ → R × Bytes × Bool) where
    -- `Read` into so many bytes: the bytes, and whether an error comes with them.
    unfoldable pub read_harmonized : ℕ → HarmonizingReader R → HarmonizingReader R × Bytes × Bool
    unfolding harmonize_raw_http choose_bytes
    read_harmonized size u =
        let (r1, bs, failed) = read u.r size in
        let (r2, temp, failed') = read u.r 4096 in
        let (h, out) = harmonize_raw_http u.ua_harmonizer temp in
        let (u', first) = take_buffered size (record u {
          r = r2;
          ua_harmonizer = h;
          inspected = true;
          buf = choose_bytes temp out;
          offset = 0;
        }) in
        if not u.ua_harmonizer.enabled || u.inspected
        then (if ltb 0 (length u.buf)
            then (let (u'', rest) = take_buffered size u in (u'', rest, false))
            else (record u { r = r1 }, bs, failed))
        else (if ltb 0 (length temp)
            then (u', first, failed')
            else (record u { r = r2; inspected = true }, temp, failed'))

module _ (mint : ℕ → ℕ → ℕ → ℕ) where
  -- `RateLimitedWriter.Write` over the readings of the clock: `none` where it still waits after the
  -- last of them.
  unfoldable pub limited_write :
      {W E : Type 0}
      → (W → Bytes → W × ℕ × Option E)
      → List ℕ
      → RateLimiter
      → W
      → Bytes
      → RateLimiter × Option (W × ℕ × Option E)
  limited_write write clock limiter w p =
      let (limiter', done) =
        if limiter.enabled then wait mint (length p) clock limiter else (limiter, true) in
      (limiter', if done then some (write w p) else none)

  -- `RateLimitedReader.Read`
  unfoldable pub limited_read :
      {R : Type 0}
      → (R → ℕ → R × Bytes × Bool)
      → List ℕ
      → RateLimiter
      → R
      → ℕ
      → RateLimiter × Option (R × Bytes × Bool)
  limited_read read clock limiter r size =
      let (r', bs, failed) = read r size in
      let (limiter', done) =
        if ltb 0 (length bs) && limiter.enabled
        then wait mint (length bs) clock limiter
        else (limiter, true) in
      (limiter', if done then some (r', bs, failed) else none)
