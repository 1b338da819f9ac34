-- ===== src/Privacy/Fragment/Chunks.antt =====
-- What the two chunking loops of core/go/internal/privacy/fragment.go return.
use air_bridge5g.Prelude.{
  ℕ, zero, suc, ◌+◌, ◌-◌, ◌≤◌, ◌<◌, ◌≡◌, ap, sym, ◌∙◌, true, false, Option, some, List, [], ◌∷◌,
  ◌++◌, Bytes, arith, ltb, Bool-cases, Option-cases, inl, inr, length, slice, drop, concat, All,
  slice-append-drop, length-slice, length-take, length-drop, drop-all,
}
use air_bridge5g.Privacy.Fragment.{Fragmenter, clip, fixed_loop, draw_size, random_loop}
use mathlib.Core.Option

-- Fragments are not empty, and no longer than `hi`.
abbrev pub Sized : ℕ → Bytes → Type 0
Sized hi frag = (1 ≤ length frag) × (length frag ≤ hi)

-- The clipped end of a chunk of at least one byte lies behind its start, within the payload.
pub clip_bounds :
    (payload : Bytes) (offset size : ℕ)
    → offset < length payload
    → 1 ≤ size
    → (offset < clip payload (offset + size))
      × (clip payload (offset + size) ≤ length payload)
      × (clip payload (offset + size) ≤ offset + size)
clip_bounds payload offset size h k = ground arith

pub slice-Sized :
    (payload : Bytes) (offset size hi : ℕ)
    → offset < length payload
    → 1 ≤ size
    → size ≤ hi
    → Sized hi (slice payload offset (clip payload (offset + size)))
slice-Sized payload offset size hi h k m =
    let c = clip_bounds payload offset size h k in
    omega (arith, length-slice payload offset (clip payload (offset + size)) c.1)

slice-short :
    (payload : Bytes) (offset end : ℕ) → length (slice payload offset end) ≤ length payload
slice-short payload offset end =
    omega (arith, length-take (end - offset) (drop offset payload), length-drop offset payload)

drop-clip : (payload : Bytes) (end : ℕ) → drop (clip payload end) payload ≡ drop end payload
drop-clip payload end = elim (Bool-cases (ltb (length payload) end)) [
  | inl past ↦
      rw past (
        drop-all (length payload) payload (omega arith) ∙ sym (drop-all end payload (ground arith)))
  | inr within ↦ rw within
]

-- A chunk and what lies behind its end make up what lies behind its start.
pub chunk_step :
    (payload : Bytes) (offset size : ℕ)
    → offset < length payload
    → 1 ≤ size
    → slice payload offset (clip payload (offset + size))
        ++ drop (clip payload (offset + size)) payload
      ≡ drop offset payload
chunk_step payload offset size h k =
    let c = clip_bounds payload offset size h k in
    slice-append-drop payload offset (clip payload (offset + size)) (omega arith)

-- The fragments are the payload from `offset` on, cut into pieces of 1 to `hi` bytes.
pub record Cuts (hi : ℕ) (payload : Bytes) (offset : ℕ) (frags : List Bytes) : Type 0 where
  pub whole : concat frags ≡ drop offset payload
  pub sized : All (Sized hi) frags
  pub short : All (λ frag. length frag ≤ length payload) frags

pub Cuts-end :
    (hi : ℕ) (payload : Bytes) (offset : ℕ) → length payload ≤ offset → Cuts hi payload offset []
Cuts-end hi payload offset h = record {
  whole = sym (drop-all offset payload h);
  sized = tt;
  short = tt;
}

pub Cuts-cons :
    (hi : ℕ) (payload : Bytes) (offset size : ℕ) (frags : List Bytes)
    → offset < length payload
    → 1 ≤ size
    → size ≤ hi
    → Cuts hi payload (clip payload (offset + size)) frags
    → Cuts hi payload offset (slice payload offset (clip payload (offset + size)) ∷ frags)
Cuts-cons hi payload offset size frags h k m c = record {
  whole =
      ap (λ rest. slice payload offset (clip payload (offset + size)) ++ rest) c.whole
      ∙ chunk_step payload offset size h k;
  sized = (slice-Sized payload offset size hi h k m, c.sized);
  short = (slice-short payload offset (clip payload (offset + size)), c.short);
}

Cuts-clip :
    (hi : ℕ) (payload : Bytes) (end : ℕ) (frags : List Bytes)
    → Cuts hi payload end frags
    → Cuts hi payload (clip payload end) frags
Cuts-clip hi payload end frags c = record {
  whole = c.whole ∙ sym (drop-clip payload end);
  sized = c.sized;
  short = c.short;
}

fixed_loop_step :
    (fuel size : ℕ) (payload : Bytes) (offset : ℕ)
    → ltb offset (length payload) ≡ true
    → fixed_loop (suc fuel) size payload offset
      ≡ Option.map
          (◌∷◌ (slice payload offset (clip payload (offset + size))))
          (fixed_loop fuel size payload (offset + size))
unfolding fixed_loop
fixed_loop_step fuel size payload offset more = rw (more, fixed_loop)

fixed_loop_end :
    (fuel size : ℕ) (payload : Bytes) (offset : ℕ)
    → ltb offset (length payload) ≡ false
    → fixed_loop (suc fuel) size payload offset ≡ some []
unfolding fixed_loop
fixed_loop_end fuel size payload offset done = rw (done, fixed_loop)

pub fixed_loop-Cuts :
    (fuel size : ℕ) (payload : Bytes) (offset : ℕ)
    → 1 ≤ size
    → length payload - offset < fuel
    → (frags : List Bytes) × (fixed_loop fuel size payload offset ≡ some frags)
      × Cuts size payload offset frags
fixed_loop-Cuts zero size payload offset h k = elim k [ ]
fixed_loop-Cuts (suc fuel) size payload offset h k =
    elim (Bool-cases (ltb offset (length payload))) [
      | inl more ↦
          let (frags, e, c) = fixed_loop-Cuts fuel size payload (offset + size) h (ground arith) in
          (
            slice payload offset (clip payload (offset + size)) ∷ frags,
            fixed_loop_step fuel size payload offset more ∙ rw e,
            Cuts-cons size payload offset size frags (ground arith) h (omega arith)
                (Cuts-clip size payload (offset + size) frags c),
          )
      | inr done ↦ (
        [],
        fixed_loop_end fuel size payload offset done,
        Cuts-end size payload offset (ground arith),
      )
    ]

module _ {S : Type 0} (rand_int : ℕ → S → Option ℕ × S)
    (rand_lt : (n : ℕ) (s : S) (v : ℕ) → 0 < n → (rand_int n s).0 ≡ some v → v < n) where
  pub draw_size_bounds :
      (lo hi : ℕ) (s : S)
      → lo ≤ hi
      → (lo ≤ (draw_size rand_int lo hi s).0) × ((draw_size rand_int lo hi s).0 ≤ hi)
  unfolding draw_size
  draw_size_bounds lo hi s h = elim (Option-cases (rand_int (hi - lo + 1) s).0) [
    | inl e ↦ ground arith
    | inr (v, e) ↦ ground (arith, rand_lt (hi - lo + 1) s v)
  ]

  random_loop_step :
      (fuel : ℕ) (f : Fragmenter) (payload : Bytes) (offset : ℕ) (s : S)
      → ltb offset (length payload) ≡ true
      → let (size, s') = draw_size rand_int f.min_len f.max_len s in
        let end = clip payload (offset + size) in
        random_loop rand_int (suc fuel) f payload offset s
        ≡ Option.map
            (λ (frags, s''). (slice payload offset end ∷ frags, s''))
            (random_loop rand_int fuel f payload end s')
  unfolding random_loop
  random_loop_step fuel f payload offset s more = rw (more, random_loop)

  random_loop_end :
      (fuel : ℕ) (f : Fragmenter) (payload : Bytes) (offset : ℕ) (s : S)
      → ltb offset (length payload) ≡ false
      → random_loop rand_int (suc fuel) f payload offset s ≡ some ([], s)
  unfolding random_loop
  random_loop_end fuel f payload offset s done = rw (done, random_loop)

  pub random_loop-Cuts :
      (fuel : ℕ) (f : Fragmenter) (payload : Bytes) (offset : ℕ) (s : S)
      → 1 ≤ f.min_len
      → f.min_len ≤ f.max_len
      → length payload - offset < fuel
      → (frags : List Bytes) × (s' : S) × (random_loop rand_int fuel f payload offset s
          ≡ some (frags, s'))
        × Cuts f.max_len payload offset frags
  random_loop-Cuts zero f payload offset s h m k = elim k [ ]
  random_loop-Cuts (suc fuel) f payload offset s h m k =
      elim (Bool-cases (ltb offset (length payload))) [
        | inl more ↦
            let size = (draw_size rand_int f.min_len f.max_len s).0 in
            let b = draw_size_bounds f.min_len f.max_len s m in
            let c = clip_bounds payload offset size (ground arith) (omega arith) in
            let (frags, s', e, cuts) =
              random_loop-Cuts fuel f payload (clip payload (offset + size))
                (draw_size rand_int f.min_len f.max_len s).1 h m (omega arith) in
            (
              slice payload offset (clip payload (offset + size)) ∷ frags,
              s',
              random_loop_step fuel f payload offset s more ∙ rw e,
              Cuts-cons f.max_len payload offset size frags (ground arith) (omega arith) b.1 cuts,
            )
        | inr done ↦ (
          [],
          s,
          random_loop_end fuel f payload offset s done,
          Cuts-end f.max_len payload offset (ground arith),
        )
      ]
