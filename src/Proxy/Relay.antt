-- ===== src/Proxy/Relay.antt =====
-- core/go/internal/proxy/socks5.go: the fragmenting writer of the client-to-target direction, and
-- the copy loop of both directions of `relay`.
pub mod Copies
pub mod Fragmented
pub mod Directions
pub mod Counts
use air_bridge5g.Prelude.{
  ℕ, Bool, true, false, not, Option, none, some, List, [], ◌∷◌, Bytes, ltb, ◌==◌, if◌then◌else◌,
  length,
}
use air_bridge5g.Prelude.Result.{Result, ok, err}
use air_bridge5g.Prelude.Int.{add64}
use air_bridge5g.Privacy.Fragment.{Fragmenter, FragmentError}
use air_bridge5g.Privacy.Fragment.Tls.{fragment}
use air_bridge5g.Privacy.Fragment.Writer.{write_frags}
use mathlib.Core.Option

-- The writer of a relay direction: the target, and what the fragmenter keeps.
pub record Sink (W S : Type 0) : Type 0 where
  pub target : W
  pub fragmenter : Fragmenter
  pub rng : S

module _ {W E : Type 0} (write : W → Bytes → W × ℕ × Option E) where
  abbrev unfragmented : {S : Type 0} → Sink W S → Bytes → Sink W S × ℕ × Option E
  unfragmented k p = let (w, n, e) = write k.target p in (record k { target = w }, n, e)

  -- The second half of `fragmentingWriter.Write`, on what `Fragment` returned.
  unfoldable pub write_result :
      {S : Type 0} → Sink W S → Bytes → Result FragmentError (List Bytes) → Sink W S × ℕ × Option E
  write_result k p (err e) = unfragmented k p
  write_result k p (ok []) = unfragmented k p
  write_result k p (ok (frag ∷ frags)) =
      let (w, n, e) = write_frags write k.target 0 (frag ∷ frags) in (record k { target = w }, n, e)

  -- `fragmentingWriter.Write`; an outer `none` means that a fuel ran out.
  unfoldable pub fragmenting_write :
      {S : Type 0} → (ℕ → S → Option ℕ × S) → Sink W S → Bytes → Option (Sink W S × ℕ × Option E)
  unfolding write_result
  fragmenting_write rand_int k p =
      if not k.fragmenter.enabled
      then some (unfragmented k p)
      else Option.map (λ (r, g, s). write_result (record k { fragmenter = g; rng = s }) p r)
          (fragment rand_int k.fragmenter p k.rng)

-- Why a copy loop ends; `waiting` is a loop that blocks in its next `Read`.
pub data CopyEnd : Type 0 where
  write_failed short_write read_failed waiting : CopyEnd

-- One `Read` of the source: the bytes, and whether an error came with them.
abbrev pub ReadResult : Type 0
ReadResult = Bytes × Bool

module _ {K E : Type 0} (dst : K → Bytes → Option (K × ℕ × Option E)) where
  -- The loop of `relay` over the source's reads; an outer `none` means that a writer's fuel ran out.
  unfoldable pub copy_loop : K → ℕ → List ReadResult → Option (K × ℕ × CopyEnd)
  copy_loop k total [] = some (k, total, waiting)
  copy_loop k total ((buf, failed) ∷ reads) = elim (ltb 0 (length buf)) [
    | false ↦ elim failed [ true ↦ some (k, total, read_failed) | false ↦ copy_loop k total reads ]
    | true ↦ elim (dst k buf) [
      | none ↦ none
      | some (k', nw, some e) ↦ some (k', add64 total nw, write_failed)
      | some (k', nw, none) ↦ elim (length buf == nw) [
        | false ↦ some (k', add64 total nw, short_write)
        | true ↦ elim failed [
          | true ↦ some (k', add64 total nw, read_failed)
          | false ↦ copy_loop k' (add64 total nw) reads
        ]
      ]
    ]
  ]
