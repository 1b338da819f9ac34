-- ===== src/Privacy/Fragment/Splits.antt =====
-- The loops of `fragmentTLSRecord` in core/go/internal/privacy/fragment.go.
use air_bridge5g.Prelude.{
  ℕ, zero, suc, ◌+◌, ◌-◌, ◌≤◌, ◌<◌, ◌≡◌, ◌≢◌, ◌∙◌, true, false, Option, some, List, [], ◌∷◌, ◌++◌,
  Bytes, arith, length, concat, All, map, append-nil, ltb, Bool-cases, inl, inr, slice, drop,
  get_or, length-slice,
}
use air_bridge5g.Prelude.Result.{ok}
use air_bridge5g.Privacy.Fragment.{
  Fragmenter, FragmentStrategy, tls_split, count_bytes, clip, draw_size, tls_loop, count_fragments,
  count_tls_record,
}
use air_bridge5g.Privacy.Fragment.Tls.{
  record_len, is_split_type, max_payload, wrap_like, split_rest, split_record, fragment_tls,
  by_strategy, fragment,
}
use air_bridge5g.Privacy.Fragment.Chunks.{
  Sized, Cuts, Cuts-cons, Cuts-end, clip_bounds, draw_size_bounds,
}
use air_bridge5g.Privacy.Fragment.Lossless.{IsValid, fragment_on, fragment_random_lem}
use mathlib.Core.Option
use air_bridge5g.Privacy.Fragment.Wrapped.{IsByte, IsChunk, All-IsChunk, record_len-lt}

not_empty : (payload : Bytes) → 5 + record_len payload ≤ length payload → payload ≢ []
not_empty [] h = absurd (omega arith)
not_empty (b ∷ bs) h = λ e. cc

test : (b : ℕ) (bs : Bytes) → ltb 0 (length (b ∷ bs)) ≡ true
test b bs = ground arith

module _ {S : Type 0} (rand_int : ℕ → S → Option ℕ × S)
    (rand_lt : (n : ℕ) (s : S) (v : ℕ) → 0 < n → (rand_int n s).0 ≡ some v → v < n) where
  tls_loop_step :
      (fuel : ℕ) (wrap : Bytes → Bytes) (hi : ℕ) (payload : Bytes) (offset : ℕ) (s : S)
      → ltb offset (length payload) ≡ true
      → let (size, s') = draw_size rand_int 1 hi s in
        let end = clip payload (offset + size) in
        tls_loop rand_int (suc fuel) wrap hi payload offset s
        ≡ Option.map
            (λ (frags, s''). (wrap (slice payload offset end) ∷ frags, s''))
            (tls_loop rand_int fuel wrap hi payload end s')
  unfolding tls_loop
  tls_loop_step fuel wrap hi payload offset s more = rw (more, tls_loop)

  tls_loop_end :
      (fuel : ℕ) (wrap : Bytes → Bytes) (hi : ℕ) (payload : Bytes) (offset : ℕ) (s : S)
      → ltb offset (length payload) ≡ false
      → tls_loop rand_int (suc fuel) wrap hi payload offset s ≡ some ([], s)
  unfolding tls_loop
  tls_loop_end fuel wrap hi payload offset s done = rw (done, tls_loop)

  tls_loop-Cuts :
      (fuel : ℕ) (wrap : Bytes → Bytes) (hi : ℕ) (payload : Bytes) (offset : ℕ) (s : S)
      → 1 ≤ hi
      → length payload - offset < fuel
      → (chunks : List Bytes) × (s' : S) × (tls_loop rand_int fuel wrap hi payload offset s
          ≡ some (map wrap chunks, s'))
        × Cuts hi payload offset chunks
  tls_loop-Cuts zero wrap hi payload offset s h k = elim k [ ]
  tls_loop-Cuts (suc fuel) wrap hi payload offset s h k =
      elim (Bool-cases (ltb offset (length payload))) [
        | inl more ↦
            let size = (draw_size rand_int 1 hi s).0 in
            let b = draw_size_bounds rand_int rand_lt 1 hi s h in
            let c = clip_bounds payload offset size (ground arith) (omega arith) in
            let (chunks, s', e, cuts) =
              tls_loop-Cuts fuel wrap hi payload (clip payload (offset + size))
                (draw_size rand_int 1 hi s).1 h (omega arith) in
            (
              slice payload offset (clip payload (offset + size)) ∷ chunks,
              s',
              tls_loop_step fuel wrap hi payload offset s more ∙ rw e,
              Cuts-cons hi payload offset size chunks (ground arith) (omega arith) b.1 cuts,
            )
        | inr done ↦ (
          [],
          s,
          tls_loop_end fuel wrap hi payload offset s done,
          Cuts-end hi payload offset (ground arith),
        )
      ]

  -- The data behind the record, cut up as well.
  split_rest_lem :
      (f : Fragmenter) (frags : List Bytes) (remaining : Bytes) (s : S)
      → IsValid f
      → (extra : List Bytes) × (g : Fragmenter) × (s' : S) × (split_rest rand_int f frags remaining
            s
          ≡ some (frags ++ extra, g, s'))
        × Cuts f.max_len remaining 0 extra
  unfolding split_rest
  split_rest_lem f frags [] s v = (
    [],
    count_tls_record (count_fragments f frags),
    s,
    rw append-nil,
    Cuts-end f.max_len [] 0 (omega arith),
  )
  split_rest_lem f frags (b ∷ bs) s v =
      let (extra, s', e, c) = fragment_random_lem rand_int rand_lt f (b ∷ bs) s v in
      (
        extra,
        count_tls_record (count_fragments (count_fragments f extra) (frags ++ extra)),
        s',
        rw (test b bs, e),
        c,
      )

  split_record_lem :
      (f : Fragmenter) (payload : Bytes) (s : S)
      → IsValid f
      → record_len payload < 65536
      → 5 + record_len payload ≤ length payload
      → (chunks : List Bytes) × (extra : List Bytes) × (g : Fragmenter) × (s' : S) × (split_record
            rand_int f payload s
          ≡ some (map (wrap_like payload) chunks ++ extra, g, s'))
        × (concat chunks ≡ slice payload 5 (5 + record_len payload))
        × All (IsChunk f payload) chunks
        × (concat extra ≡ drop (5 + record_len payload) payload)
        × All (Sized f.max_len) extra
  unfolding split_record Option.bind
  split_record_lem f payload s v r h =
      let body = slice payload 5 (5 + record_len payload) in
      let (chunks, s1, e, c) =
        tls_loop-Cuts (suc (length body)) (wrap_like payload) (max_payload f) body 0 s
          (ground arith) (omega arith) in
      let (extra, g, s2, k, d) =
        split_rest_lem f (map (wrap_like payload) chunks) (drop (5 + record_len payload) payload) s1
          v in
      (
        chunks,
        extra,
        g,
        s2,
        rw (e, k),
        c.whole,
        All-IsChunk f payload (length body) chunks v
            (omega (arith, length-slice payload 5 (5 + record_len payload) h)) c.sized c.short,
        d.whole,
        d.sized,
      )

  fragment_tls_whole :
      (f : Fragmenter) (payload : Bytes) (s : S)
      → is_split_type (get_or payload 0 0) ≡ true
      → 5 + record_len payload ≤ length payload
      → fragment_tls rand_int f payload s ≡ split_record rand_int f payload s
  unfolding fragment_tls
  fragment_tls_whole f payload s t h = ground arith

  by_strategy_tls :
      (st : FragmentStrategy) (f : Fragmenter) (payload : Bytes) (s : S)
      → st ≡ tls_split
      → by_strategy rand_int st f payload s ≡ fragment_tls rand_int f payload s
  unfolding by_strategy
  by_strategy_tls st f payload s e = rw e

  -- The split of a whole record, in the terms of the code.
  pub fragment_tls_wrapped :
      (f : Fragmenter) (payload : Bytes) (s : S)
      → IsValid f
      → f.enabled ≡ true
      → f.strategy ≡ tls_split
      → is_split_type (get_or payload 0 0) ≡ true
      → All IsByte payload
      → 5 + record_len payload ≤ length payload
      → (chunks : List Bytes) × (extra : List Bytes) × (g : Fragmenter) × (s' : S) × (fragment
            rand_int f payload s
          ≡ some (ok (map (wrap_like payload) chunks ++ extra), g, s'))
        × (concat chunks ≡ slice payload 5 (5 + record_len payload))
        × All (IsChunk f payload) chunks
        × (concat extra ≡ drop (5 + record_len payload) payload)
        × All (Sized f.max_len) extra
  fragment_tls_wrapped f payload s v on st t bytes h =
      let g = count_bytes f payload in
      let v' : IsValid g = record {
        min_pos = v.min_pos;
        min_le_max = v.min_le_max;
        max_large = v.max_large;
      } in
      let (chunks, extra, g', s', e, whole, sized, behind, small) =
        split_record_lem g payload s v' (record_len-lt payload bytes) h in
      (
        chunks,
        extra,
        g',
        s',
        fragment_on rand_int rand_lt f payload s on (not_empty payload h)
            ∙ rw (by_strategy_tls f.strategy g payload s st, fragment_tls_whole g payload s t h, e),
        whole,
        sized,
        behind,
        small,
      )
