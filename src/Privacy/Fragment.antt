-- ===== src/Privacy/Fragment.antt =====
-- core/go/internal/privacy/fragment.go: the fragmenter and its writer. `rand_int n` stands for
-- `rand.Int(rand.Reader, n)`, with the generator's state passed on; `none` is its error.
pub mod Tls
pub mod Writer
pub mod Chunks
pub mod Lossless
pub mod Wrapped
pub mod Splits
pub mod Records
use air_bridge5g.Prelude.{
  ℕ, zero, suc, ◌+◌, ◌-◌, ◌/◌, ◌%◌, Bool, true, false, Option, none, some, List, [], ◌∷◌, Bytes,
  ltb, leb, if◌then◌else◌, length, slice,
}
use air_bridge5g.Prelude.Int.{ℤ, pos, pos_part, ltb_ℤ, leb_ℤ, add64}
use air_bridge5g.Prelude.Result.{Result, ok, err}
use mathlib.Core.Option

abbrev pub default_fragment_size : ℕ
default_fragment_size = 512

abbrev pub min_fragment_size : ℕ
min_fragment_size = 64

abbrev pub tls_record_header_len : ℕ
tls_record_header_len = 5

abbrev pub tls_content_type_handshake : ℕ
tls_content_type_handshake = 0x16

abbrev pub tls_content_type_app_data : ℕ
tls_content_type_app_data = 0x17

-- `other` is any value that the switch sends to `default`.
pub data FragmentStrategy : Type 0 where
  fixed random tls_split other : FragmentStrategy

pub data FragmentError : Type 0 where
  fragment_too_small empty_payload : FragmentError

-- The counters are int64 bit patterns.
pub record FragmentStats : Type 0 where
  pub packets_fragmented : ℕ
  pub fragments_created : ℕ
  pub tls_records_split : ℕ
  pub bytes_processed : ℕ

pub record FragmenterConfig : Type 0 where
  pub strategy : FragmentStrategy
  pub max_fragment_len : ℤ
  pub min_fragment_len : ℤ
  pub enabled : Bool

abbrev pub default_fragmenter_config : FragmenterConfig
default_fragmenter_config = record {
  strategy = random;
  max_fragment_len = pos default_fragment_size;
  min_fragment_len = pos min_fragment_size;
  enabled = true;
}

-- Behind `NewFragmenter` the two lengths are not negative.
pub record Fragmenter : Type 0 where
  pub strategy : FragmentStrategy
  pub max_len : ℕ
  pub min_len : ℕ
  pub enabled : Bool
  pub stats : FragmentStats

abbrev pub no_stats : FragmentStats
no_stats = record {
  packets_fragmented = 0;
  fragments_created = 0;
  tls_records_split = 0;
  bytes_processed = 0;
}

unfoldable pub new_fragmenter : FragmenterConfig → Result FragmentError Fragmenter
new_fragmenter c =
    let min1 =
      if leb_ℤ c.min_fragment_len (pos 0) then pos min_fragment_size else c.min_fragment_len in
    let min2 = if ltb_ℤ c.max_fragment_len min1 then c.max_fragment_len else min1 in
    if ltb_ℤ c.max_fragment_len (pos min_fragment_size)
    then err fragment_too_small
    else ok (record {
      strategy = c.strategy;
      max_len = pos_part c.max_fragment_len;
      min_len = pos_part min2;
      enabled = c.enabled;
      stats = no_stats;
    })

unfoldable pub set_enabled : Fragmenter → Bool → Fragmenter
set_enabled f b = record f { enabled = b }

-- The two counters that every strategy adds to.
abbrev pub count_fragments : Fragmenter → List Bytes → Fragmenter
count_fragments f frags = record f {
  stats = record f.stats {
    packets_fragmented = add64 f.stats.packets_fragmented 1;
    fragments_created = add64 f.stats.fragments_created (length frags);
  };
}

abbrev pub count_bytes : Fragmenter → Bytes → Fragmenter
count_bytes f payload = record f {
  stats = record f.stats { bytes_processed = add64 f.stats.bytes_processed (length payload) };
}

abbrev pub count_tls_record : Fragmenter → Fragmenter
count_tls_record f = record f {
  stats = record f.stats { tls_records_split = add64 f.stats.tls_records_split 1 };
}

-- `if end > len(payload) { end = len(payload) }`
abbrev pub clip : Bytes → ℕ → ℕ
clip payload end = if ltb (length payload) end then length payload else end

-- The loop of `fragmentFixed`; `none` means that the fuel ran out.
unfoldable pub fixed_loop : ℕ → ℕ → Bytes → ℕ → Option (List Bytes)
fixed_loop zero size payload offset = none
fixed_loop (suc fuel) size payload offset = elim (ltb offset (length payload)) [
  | false ↦ some []
  | true ↦
      Option.map (◌∷◌ (slice payload offset (clip payload (offset + size))))
        (fixed_loop fuel size payload (offset + size))
]

unfoldable pub fragment_fixed : Fragmenter → Bytes → Option (List Bytes × Fragmenter)
fragment_fixed f payload =
    Option.map (λ frags. (frags, count_fragments f frags))
      (fixed_loop (suc (length payload)) f.max_len payload 0)

-- A TLS record of the given type and version around a chunk.
unfoldable pub tls_record : ℕ → ℕ → ℕ → Bytes → Bytes
tls_record content_type major minor chunk =
    content_type ∷ major ∷ minor ∷ (length chunk / 256 % 256) ∷ (length chunk % 256) ∷ chunk

module _ {S : Type 0} (rand_int : ℕ → S → Option ℕ × S) where
  -- `randomIntRange`; `none` is the error, whose value no caller reads.
  unfoldable pub random_int_range : ℕ → ℕ → S → Option ℕ × S
  random_int_range lo hi s =
      if leb hi lo
      then (some lo, s)
      else (Option.map (λ n. lo + n) (rand_int (hi - lo + 1) s).0, (rand_int (hi - lo + 1) s).1)

  -- A size drawn from a range, or the range's end when the generator fails.
  unfoldable pub draw_size : ℕ → ℕ → S → ℕ × S
  unfolding random_int_range
  draw_size lo hi s =
      (elim (random_int_range lo hi s).0 [ none ↦ hi | some n ↦ n ], (random_int_range lo hi s).1)

  -- The loop of `fragmentRandom`.
  unfoldable pub random_loop : ℕ → Fragmenter → Bytes → ℕ → S → Option (List Bytes × S)
  random_loop zero f payload offset s = none
  random_loop (suc fuel) f payload offset s = elim (ltb offset (length payload)) [
    | false ↦ some ([], s)
    | true ↦
        let (size, s') = draw_size f.min_len f.max_len s in
        let end = clip payload (offset + size) in
        Option.map (λ (frags, s''). (slice payload offset end ∷ frags, s''))
          (random_loop fuel f payload end s')
  ]

  unfoldable pub fragment_random : Fragmenter → Bytes → S → Option (List Bytes × Fragmenter × S)
  fragment_random f payload s =
      Option.map (λ (frags, s'). (frags, count_fragments f frags, s'))
        (random_loop (suc (length payload)) f payload 0 s)

  -- The loop of `fragmentTLSRecord` over the payload of the record.
  unfoldable pub tls_loop : ℕ → (Bytes → Bytes) → ℕ → Bytes → ℕ → S → Option (List Bytes × S)
  tls_loop zero wrap max_payload payload offset s = none
  tls_loop (suc fuel) wrap max_payload payload offset s = elim (ltb offset (length payload)) [
    | false ↦ some ([], s)
    | true ↦
        let (size, s') = draw_size 1 max_payload s in
        let end = clip payload (offset + size) in
        Option.map (λ (frags, s''). (wrap (slice payload offset end) ∷ frags, s''))
          (tls_loop fuel wrap max_payload payload end s')
  ]
