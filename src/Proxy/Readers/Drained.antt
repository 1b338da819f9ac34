-- ===== src/Proxy/Readers/Drained.antt =====
-- What the harmonizing reader of core/go/internal/proxy/socks5.go hands to the relay.
use air_bridge5g.Prelude.{
  ℕ, zero, suc, ◌<◌, ◌≡◌, ◌⊎◌, Bool, false, ◌||◌, Option, none, some, [], ◌∷◌, ◌++◌, Bytes, ltb,
  if◌then◌else◌, length, drop,
}
use air_bridge5g.Privacy.UserAgent.{HeaderMap}
use air_bridge5g.Proxy.Readers.{HarmonizingReader, read_harmonized}

-- What is in the buffer still to be read.
abbrev pub pending : {R : Type 0} → HarmonizingReader R → Bytes
pending u = drop u.offset u.buf

-- The buffer is nil or the offset inside it.
abbrev IsBuffered : {R : Type 0} → HarmonizingReader R → Type 0
IsBuffered u = (u.buf ≡ []) ⊎ (u.offset < length u.buf)

-- What is meant to be given for some bytes: what comes out of them, unless that is nothing.
abbrev pub or_else : Bytes → Option Bytes → Bytes
or_else temp none = temp
or_else temp (some []) = temp
or_else temp (some (b ∷ out)) = b ∷ out

module _ {Body R : Type 0} (parse : Bytes → Option (HeaderMap × Body))
    (print : HeaderMap → Body → Option Bytes) (read : R → ℕ → R × Bytes × Bool) where
  -- Calls of `Read` into so many bytes, at most `fuel` of them, as long as the buffer holds some: the
  -- bytes that they give, and whether any of them gives an error.
  unfoldable pub drain : ℕ → ℕ → HarmonizingReader R → HarmonizingReader R × Bytes × Bool
  drain zero size u = (u, [], false)
  drain (suc fuel) size u =
      let (u', bs, failed) = read_harmonized parse print read size u in
      let (u'', rest, failed') = drain fuel size u' in
      if ltb 0 (length u.buf) then (u'', bs ++ rest, failed || failed') else (u, [], false)
