-- ===== src/Privacy/Fragment/Writer.antt =====
-- core/go/internal/privacy/fragment.go: `FragmentWriter`. `write` stands for the `Write` of the
-- underlying `io.Writer`, with the writer's state passed on.
use air_bridge5g.Prelude.{ℕ, ◌+◌, Option, none, some, List, [], ◌∷◌, Bytes, length}
use air_bridge5g.Prelude.Result.{ok, err}
use air_bridge5g.Privacy.Fragment.{Fragmenter, FragmentError}
use air_bridge5g.Privacy.Fragment.Tls.{fragment}
use mathlib.Core.Option

pub data WriteError (E : Type 0) : Type 0 where
  refused : FragmentError → WriteError E
  io : E → WriteError E

module _ {W E : Type 0} (write : W → Bytes → W × ℕ × Option E) where
  -- The loop of `Write` over the fragments, which stops at the first error.
  unfoldable pub write_frags : W → ℕ → List Bytes → W × ℕ × Option E
  write_frags w total [] = (w, total, none)
  write_frags w total (frag ∷ frags) =
      let (w', n, e) = write w frag in
      elim e [ some x ↦ (w', total + n, some x) | none ↦ write_frags w' (total + n) frags ]

  module _ {S : Type 0} (rand_int : ℕ → S → Option ℕ × S) where
    unfoldable pub fragment_writer_write :
        Fragmenter → W → Bytes → S → Option (W × ℕ × Option (WriteError E))
    fragment_writer_write f w p s =
        Option.map
          (λ (r, g, s'). elim r [
            | err e ↦ (w, 0, some (refused e))
            | ok frags ↦
                let (w', total, e) = write_frags w 0 frags in
                elim e [ some x ↦ (w', total, some (io x)) | none ↦ (w', length p, none) ]
          ])
          (fragment rand_int f p s)
