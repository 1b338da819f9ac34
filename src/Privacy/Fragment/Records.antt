-- ===== src/Privacy/Fragment/Records.antt =====
-- `fragmentTLSRecord` of core/go/internal/privacy/fragment.go, byte by byte.
use air_bridge5g.Prelude.{
  ℕ, ◌+◌, ◌*◌, ◌/◌, ◌%◌, ◌≤◌, ◌<◌, ◌≡◌, refl, ◌⊎◌, true, Option, some, List, [], ◌∷◌, ◌++◌, map,
  arith, Bytes, length, get_or, drop, slice, concat, All,
}
use air_bridge5g.Prelude.Result.{ok}
use air_bridge5g.Privacy.Fragment.{Fragmenter, tls_split, tls_record}
use air_bridge5g.Privacy.Fragment.Tls.{is_split_type, wrap_like, fragment}
use air_bridge5g.Privacy.Fragment.Chunks.{Sized}
use air_bridge5g.Privacy.Fragment.Lossless.{IsValid}
use air_bridge5g.Privacy.Fragment.Wrapped.{IsByte, IsChunk}
use air_bridge5g.Privacy.Fragment.Splits.{fragment_tls_wrapped}

-- A record with the type and the two bytes of the version that the payload starts with, the length
-- of the content in two bytes, the high one first, and the content.
abbrev pub record_of : Bytes → Bytes → Bytes
record_of payload content =
    get_or payload 0 0
    ∷ get_or payload 1 0
    ∷ get_or payload 2 0
    ∷ length content / 256
    ∷ length content % 256
    ∷ content

-- The length field of the record that the payload starts with.
abbrev pub stated_len : Bytes → ℕ
stated_len payload = get_or payload 3 0 * 256 + get_or payload 4 0

-- The content of an emitted record is not empty, its length fits into two bytes, and the record is no
-- longer than the maximum.
abbrev pub IsContent : Fragmenter → Bytes → Type 0
IsContent f content =
    (1 ≤ length content) × (length content < 65536) × (5 + length content ≤ f.max_len)

IsChunk-IsContent :
    (f : Fragmenter) (payload chunk : Bytes) → IsChunk f payload chunk → IsContent f chunk
unfolding tls_record
IsChunk-IsContent f payload chunk (z, r, m) = (omega (arith, z), omega (arith, r), omega (arith, m))

All-IsContent :
    (f : Fragmenter) (payload : Bytes) (chunks : List Bytes)
    → All (IsChunk f payload) chunks
    → All (IsContent f) chunks
All-IsContent f payload [] h = tt
All-IsContent f payload (c ∷ cs) h =
    (IsChunk-IsContent f payload c h.0, All-IsContent f payload cs h.1)

wrap_like-record_of :
    (payload chunk : Bytes)
    → length chunk < 65536
    → wrap_like payload chunk ≡ record_of payload chunk
unfolding tls_record
wrap_like-record_of payload chunk h =
    let e : length chunk / 256 % 256 ≡ length chunk / 256 = omega arith in rw e refl

map-record_of :
    (f : Fragmenter) (payload : Bytes) (chunks : List Bytes)
    → All (IsContent f) chunks
    → map (wrap_like payload) chunks ≡ map (record_of payload) chunks
map-record_of f payload [] h = refl
map-record_of f payload (c ∷ cs) h =
    rw (wrap_like-record_of payload c h.0.1, map-record_of f payload cs h.1) refl

split_type_lem : (t : ℕ) → t ≡ 22 ⊎ t ≡ 23 → is_split_type t ≡ true
split_type_lem t h = ground arith

module _ {S : Type 0} (rand_int : ℕ → S → Option ℕ × S)
    (rand_lt : (n : ℕ) (s : S) (v : ℕ) → 0 < n → (rand_int n s).0 ≡ some v → v < n) where
  -- With a generator that draws below its bound, a valid and enabled fragmenter of the TLS strategy
  -- turns a payload of bytes that starts with a whole record of type 22 or 23, handshake or
  -- application data, into records followed by fragments. Each record has the first byte of the
  -- payload for its type and the next two for its version, the length of its content in two bytes
  -- with the high one first, and at least one byte of content, and is no longer than the maximum; the
  -- contents make up that of the payload's record. The fragments have 1 to the maximum's length and
  -- make up what stands behind the record.
  pub fragment_tls_records :
      (f : Fragmenter) (payload : Bytes) (s : S)
      → IsValid f
      → f.enabled ≡ true
      → f.strategy ≡ tls_split
      → get_or payload 0 0 ≡ 22 ⊎ get_or payload 0 0 ≡ 23
      → All IsByte payload
      → 5 + stated_len payload ≤ length payload
      → (contents : List Bytes) × (extra : List Bytes) × (g : Fragmenter) × (s' : S) × (fragment
            rand_int f payload s
          ≡ some (ok (map (record_of payload) contents ++ extra), g, s'))
        × (concat contents ≡ slice payload 5 (5 + stated_len payload))
        × All (IsContent f) contents
        × (concat extra ≡ drop (5 + stated_len payload) payload)
        × All (Sized f.max_len) extra
  fragment_tls_records f payload s v on st t bytes h =
      let (chunks, extra, g, s', e, whole, sized, behind, small) =
        fragment_tls_wrapped rand_int rand_lt f payload s v on st
          (split_type_lem (get_or payload 0 0) t) bytes h in
      let c = All-IsContent f payload chunks sized in
      (chunks, extra, g, s', rw (← map-record_of f payload chunks c) e, whole, c, behind, small)
