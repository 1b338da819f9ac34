-- ===== src/Privacy/Fragment/Lossless.antt =====
-- `NewFragmenter` and `Fragment` of core/go/internal/privacy/fragment.go, for the strategies that
-- do not look into the payload.
use air_bridge5g.Prelude.{
  ℕ, suc, ◌≤◌, ◌<◌, ◌≡◌, ◌≢◌, ◌⊎◌, refl, ◌∙◌, true, Option, some, List, [], ◌∷◌, Bytes, arith,
  length, concat, All,
}
use air_bridge5g.Prelude.Int.{ltb_ℤ, pos}
use air_bridge5g.Prelude.Result.{ok, err}
use air_bridge5g.Privacy.Fragment.{
  Fragmenter, FragmenterConfig, FragmentStrategy, fixed, random, tls_split, other,
  fragment_too_small, min_fragment_size, new_fragmenter, count_fragments, count_bytes,
  fragment_fixed, fragment_random,
}
use air_bridge5g.Privacy.Fragment.Tls.{by_strategy, fragment}
use air_bridge5g.Privacy.Fragment.Chunks.{Sized, Cuts, fixed_loop-Cuts, random_loop-Cuts}
use mathlib.Core.Option

pub record IsValid (f : Fragmenter) : Type 0 where
  pub min_pos : 1 ≤ f.min_len
  pub min_le_max : f.min_len ≤ f.max_len
  pub max_large : min_fragment_size ≤ f.max_len

-- `NewFragmenter` refuses exactly the configurations whose maximum is below 64, and what it
-- returns otherwise has 1 ≤ minimum ≤ maximum, 64 ≤ maximum, and the configuration's maximum.
pub new_fragmenter-IsValid :
    (c : FragmenterConfig)
    → ((ltb_ℤ c.max_fragment_len (pos 64) ≡ true) × (new_fragmenter c ≡ err fragment_too_small))
      ⊎ ((f : Fragmenter) × (new_fragmenter c ≡ ok f)
          × IsValid f
          × (pos f.max_len ≡ c.max_fragment_len))
unfolding new_fragmenter
new_fragmenter-IsValid c = ground arith

module _ {S : Type 0} (rand_int : ℕ → S → Option ℕ × S)
    (rand_lt : (n : ℕ) (s : S) (v : ℕ) → 0 < n → (rand_int n s).0 ≡ some v → v < n) where
  -- What one chunking strategy does to the counters.
  abbrev Counted : Fragmenter → Fragmenter → List Bytes → Type 0
  Counted f g frags = g ≡ count_fragments f frags

  pub fragment_random_lem :
      (f : Fragmenter) (payload : Bytes) (s : S)
      → IsValid f
      → (frags : List Bytes) × (s' : S) × (fragment_random rand_int f payload s
          ≡ some (frags, count_fragments f frags, s'))
        × Cuts f.max_len payload 0 frags
  unfolding fragment_random
  fragment_random_lem f payload s v =
      let (frags, s', e, c) =
        random_loop-Cuts rand_int rand_lt (suc (length payload)) f payload 0 s v.min_pos
          v.min_le_max (omega arith) in
      (frags, s', rw e, c)

  fragment_fixed_lem :
      (f : Fragmenter) (payload : Bytes)
      → IsValid f
      → (frags : List Bytes) × (fragment_fixed f payload ≡ some (frags, count_fragments f frags))
        × Cuts f.max_len payload 0 frags
  unfolding fragment_fixed
  fragment_fixed_lem f payload v =
      let (frags, e, c) =
        fixed_loop-Cuts (suc (length payload)) f.max_len payload 0
          (let a = v.max_large in omega arith) (omega arith) in
      (frags, rw e, c)

  by_strategy_lem :
      (st : FragmentStrategy) (f : Fragmenter) (payload : Bytes) (s : S)
      → IsValid f
      → st ≢ tls_split
      → (frags : List Bytes) × (s' : S) × (by_strategy rand_int st f payload s
          ≡ some (frags, count_fragments f frags, s'))
        × Cuts f.max_len payload 0 frags
  unfolding by_strategy
  by_strategy_lem fixed f payload s v ne =
      let (frags, e, c) = fragment_fixed_lem f payload v in (frags, s, rw e, c)
  by_strategy_lem random f payload s v ne = fragment_random_lem f payload s v
  by_strategy_lem tls_split f payload s v ne = absurd (ne refl)
  by_strategy_lem other f payload s v ne =
      let (frags, e, c) = fragment_fixed_lem f payload v in (frags, s, rw e, c)

  pub fragment_on :
      (f : Fragmenter) (payload : Bytes) (s : S)
      → f.enabled ≡ true
      → payload ≢ []
      → fragment rand_int f payload s
        ≡ Option.map
            (λ (frags, g, s'). (ok frags, g, s'))
            (by_strategy rand_int f.strategy (count_bytes f payload) payload s)
  unfolding fragment
  fragment_on f [] s on full = absurd (full refl)
  fragment_on f (b ∷ bs) s on full = ground arith

  -- With a generator that draws below its bound, an enabled and valid fragmenter whose strategy is
  -- not the TLS one cuts a payload that is not empty into fragments of 1 to the maximum's length
  -- that make up the payload, and counts one packet, the fragments and the payload's bytes.
  pub fragment_lossless :
      (f : Fragmenter) (payload : Bytes) (s : S)
      → IsValid f
      → f.enabled ≡ true
      → f.strategy ≢ tls_split
      → payload ≢ []
      → (frags : List Bytes) × (s' : S) × (fragment rand_int f payload s
          ≡ some (ok frags, count_fragments (count_bytes f payload) frags, s'))
        × (concat frags ≡ payload)
        × All (Sized f.max_len) frags
  fragment_lossless f [] s v on ne full = absurd (full refl)
  fragment_lossless f (b ∷ bs) s v on ne full =
      let (frags, s', e, c) =
        by_strategy_lem f.strategy (count_bytes f (b ∷ bs)) (b ∷ bs) s
          (record { min_pos = v.min_pos; min_le_max = v.min_le_max; max_large = v.max_large }) ne in
      (frags, s', fragment_on f (b ∷ bs) s on full ∙ rw e, c.whole, c.sized)
