-- ===== src/Proxy/Relay/Fragmented.antt =====
-- The client-to-target direction of `relay` (core/go/internal/proxy/socks5.go) with a fragmenter.
use air_bridge5g.Prelude.{
  ℕ, ◌+◌, ◌*◌, ◌%◌, ◌^◌, ◌≤◌, ◌<◌, ◌≡◌, refl, ap, ◌∙◌, ◌≢◌, inl, inr, Bool, true, false, Option,
  none, some, List, [], ◌∷◌, ◌++◌, map, arith, Bytes, Bool-cases, length, get_or, concat, All,
  length-append, length-slice, length-concat-append, ne-nil_of_length,
}
use mathlib.Core.Option
use air_bridge5g.Prelude.Int.{add64}
use air_bridge5g.Privacy.Fragment.{Fragmenter, tls_split, count_fragments, count_bytes}
use air_bridge5g.Privacy.Fragment.Tls.{fragment, is_split_type, record_len, max_payload, wrap_like}
use air_bridge5g.Privacy.Fragment.Lossless.{IsValid, fragment_lossless}
use air_bridge5g.Privacy.Fragment.Splits.{fragment_tls_wrapped}
use air_bridge5g.Privacy.Fragment.Wrapped.{length-wrap_like, IsByte, IsChunk}
use air_bridge5g.Proxy.Relay.{
  Sink, write_result, fragmenting_write, copy_loop, short_write, ReadResult,
}
use air_bridge5g.Prelude.Stream.{Takes}
use air_bridge5g.Proxy.Relay.Copies.{
  write_result_lem, copy_loop_lem, copy_loop_short, relayed, ending,
}

-- A sink whose fragmenter keeps the byte stream as it is.
pub record IsLossless {W S : Type 0} (k : Sink W S) : Type 0 where
  pub valid : IsValid k.fragmenter
  pub strategy : k.fragmenter.strategy ≢ tls_split

-- A whole TLS record of bytes with nothing behind it, too long for one record of the maximum's
-- length.
pub record IsLongRecord (f : Fragmenter) (p : Bytes) : Type 0 where
  pub split_type : is_split_type (get_or p 0 0) ≡ true
  pub bytes : All IsByte p
  pub exact : length p ≡ 5 + record_len p
  pub long : max_payload f < record_len p

concat-map-wrap_like :
    (p : Bytes) (chunks : List Bytes)
    → length (concat (map (wrap_like p) chunks)) ≡ 5 * length chunks + length (concat chunks)
concat-map-wrap_like p [] = omega arith
concat-map-wrap_like p (c ∷ cs) = omega (
  arith,
  length-append (wrap_like p c) (concat (map (wrap_like p) cs)),
  length-wrap_like p c,
  length-append c (concat cs),
  concat-map-wrap_like p cs,
)

-- Contents longer than one chunk take two records at least.
two_chunks :
    (f : Fragmenter) (p : Bytes) (chunks : List Bytes)
    → All (IsChunk f p) chunks
    → max_payload f < length (concat chunks)
    → 2 ≤ length chunks
two_chunks f p [] a h = absurd (omega arith)
two_chunks f p (c ∷ []) a h = absurd (omega (arith, length-append c [], a.0.0.1))
two_chunks f p (c ∷ d ∷ cs) a h = omega arith

module _ {W E S : Type 0} (write : W → Bytes → W × ℕ × Option E) (sent : W → Bytes)
    (takes : Takes write sent) (rand_int : ℕ → S → Option ℕ × S)
    (rand_lt : (n : ℕ) (s : S) (v : ℕ) → 0 < n → (rand_int n s).0 ≡ some v → v < n) where
  write_off :
      (k : Sink W S) (p : Bytes)
      → k.fragmenter.enabled ≡ false
      → fragmenting_write write rand_int k p
        ≡ some (record k { target = (write k.target p).0 }, length p, none)
  unfolding fragmenting_write
  write_off k p off = ground (arith, takes.all k.target p, takes.no_error k.target p)

  write_on :
      (k : Sink W S) (p : Bytes)
      → k.fragmenter.enabled ≡ true
      → fragmenting_write write rand_int k p
        ≡ Option.map
            (λ (r, g, s). write_result write (record k { fragmenter = g; rng = s }) p r)
            (fragment rand_int k.fragmenter p k.rng)
  unfolding fragmenting_write
  write_on k p on = ground arith

  -- One write of bytes through a lossless fragmenter delivers them and reports their number.
  write-IsLossless :
      (k : Sink W S) (p : Bytes)
      → IsLossless k
      → p ≢ []
      → (k' : Sink W S) × (fragmenting_write write rand_int k p ≡ some (k', length p, none))
        × (sent k'.target ≡ sent k.target ++ p)
        × IsLossless k'
  write-IsLossless k p l full = elim (Bool-cases k.fragmenter.enabled) [
    | inl on ↦
        let (frags, s', e, whole, sized) =
          fragment_lossless rand_int rand_lt k.fragmenter p k.rng l.valid on l.strategy full in
        let g = count_fragments (count_bytes k.fragmenter p) frags in
        let mid = record k { fragmenter = g; rng = s' } in
        let (w, r, d) = write_result_lem write sent takes mid p p frags whole full in
        (
          record mid { target = w },
          write_on k p on ∙ rw (e, r),
          d,
          record {
            valid = record {
              min_pos = l.valid.min_pos;
              min_le_max = l.valid.min_le_max;
              max_large = l.valid.max_large;
            };
            strategy = l.strategy;
          },
        )
    | inr off ↦ (
      record k { target = (write k.target p).0 },
      write_off k p off,
      takes.delivered k.target p,
      record { valid = l.valid; strategy = l.strategy },
    )
  ]

  -- With a target that takes every write whole and a generator that draws below its bound, a relay
  -- whose fragmenter is off, or valid and not of the TLS strategy, delivers exactly the bytes of the
  -- client's reads up to the first failing one, counts them, and ends only with such a read.
  pub relay_delivers :
      (k : Sink W S) (reads : List ReadResult)
      → IsLossless k
      → (k' : Sink W S) × (copy_loop (fragmenting_write write rand_int) k 0 reads
          ≡ some (k', length (relayed reads) % 2 ^ 64, ending reads))
        × (sent k'.target ≡ sent k.target ++ relayed reads)
  relay_delivers k reads l =
      let (k', e, d) =
        copy_loop_lem (fragmenting_write write rand_int) (λ k. sent k.target) IsLossless
          write-IsLossless k 0 reads l (omega arith) in
      (k', e ∙ ap (λ n. some (k', n, ending reads)) (omega arith), d)

  -- A valid and enabled fragmenter of the TLS strategy ends the relay at the first read that is a long
  -- TLS record: the target gets at least five bytes more than were read, and the loop takes the
  -- larger count for a short write, whatever would be read next.
  pub tls_split-ends-relay :
      (k : Sink W S) (p : Bytes) (failed : Bool) (reads : List ReadResult)
      → IsValid k.fragmenter
      → k.fragmenter.enabled ≡ true
      → k.fragmenter.strategy ≡ tls_split
      → IsLongRecord k.fragmenter p
      → (k' : Sink W S) × (total : ℕ) × (copy_loop
            (fragmenting_write write rand_int)
            k
            0
            ((p, failed) ∷ reads)
          ≡ some (k', total, short_write))
        × (length (sent k.target) + length p + 5 ≤ length (sent k'.target))
  tls_split-ends-relay k p failed reads v on st r =
      let (chunks, extra, g, s', e, whole, fit, behind, small) =
        fragment_tls_wrapped rand_int rand_lt k.fragmenter p k.rng v on st r.split_type r.bytes
          (omega (arith, r.exact)) in
      let frags = map (wrap_like p) chunks ++ extra in
      let body : length (concat chunks) ≡ record_len p =
        ap length whole
        ∙ length-slice p 5 (5 + record_len p) (omega (arith, r.exact))
        ∙ omega arith in
      let two = two_chunks k.fragmenter p chunks fit (omega (arith, r.long)) in
      let longer : length p + 5 ≤ length (concat frags) = omega (
        arith,
        length-concat-append (map (wrap_like p) chunks) extra,
        concat-map-wrap_like p chunks,
        r.exact,
      ) in
      let mid = record k { fragmenter = g; rng = s' } in
      let (w, q, d) =
        write_result_lem write sent takes mid p (concat frags) frags refl
          (ne-nil_of_length (concat frags) (omega arith)) in
      (
        record mid { target = w },
        add64 0 (length (concat frags)),
        copy_loop_short _ _ IsLossless write-IsLossless k 0 p failed reads (length (concat frags))
            (ne-nil_of_length p (omega (arith, r.exact))) (write_on k p on ∙ rw (e, q))
            (omega arith),
        omega (arith, ap length d, length-append (sent k.target) (concat frags)),
      )
