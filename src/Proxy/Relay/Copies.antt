-- ===== src/Proxy/Relay/Copies.antt =====
-- What the copy loop of core/go/internal/proxy/socks5.go delivers.
use air_bridge5g.Prelude.{
  ℕ, suc, ◌+◌, ◌^◌, ◌<◌, ◌≡◌, refl, sym, ap, ◌∙◌, ◌≢◌, Bool, true, false, Option, none, some, List,
  [], ◌∷◌, ◌++◌, append_assoc, append-nil, arith, Bytes, ltb, ◌==◌, if◌then◌else◌, length, concat,
  length-append,
}
use air_bridge5g.Prelude.Int.{add64}
use air_bridge5g.Prelude.Stream.{Takes}
use air_bridge5g.Prelude.Result.{ok}
use air_bridge5g.Proxy.Relay.{
  Sink, write_result, copy_loop, CopyEnd, waiting, read_failed, short_write, ReadResult,
}
use air_bridge5g.Privacy.Fragment.Writer.{write_frags}

module _ {W E : Type 0} (write : W → Bytes → W × ℕ × Option E) (sent : W → Bytes)
    (takes : Takes write sent) where
  step :
      (w : W) (total : ℕ) (frag : Bytes) (frags : List Bytes)
      → write_frags write w total (frag ∷ frags)
        ≡ write_frags write (write w frag).0 (total + (write w frag).1) frags
  unfolding write_frags
  step w total frag frags = rw (takes.no_error w frag, write_frags)

  -- The fragments' writes report the sum of their lengths.
  pub write_frags_lem :
      (w : W) (total : ℕ) (frags : List Bytes)
      → (w' : W) × (write_frags write w total frags ≡ (w', total + length (concat frags), none))
        × (sent w' ≡ sent w ++ concat frags)
  unfolding write_frags
  write_frags_lem w total [] = (w, ap (λ n. (w, n, none)) (omega arith), sym (append-nil (sent w)))
  write_frags_lem w total (frag ∷ frags) =
      let (w', e, d) = write_frags_lem (write w frag).0 (total + (write w frag).1) frags in
      (
        w',
        step w total frag frags
            ∙ e
            ∙ ap (λ n. (w', n, none))
                (omega (arith, takes.all w frag, length-append frag (concat frags))),
        d ∙ rw (takes.delivered w frag, append_assoc),
      )

  -- Fragments that make up `q` are written in place of `p`, and their length is reported.
  pub write_result_lem :
      {S : Type 0} (k : Sink W S) (p q : Bytes) (frags : List Bytes)
      → concat frags ≡ q
      → q ≢ []
      → (w : W) × (write_result write k p (ok frags) ≡ (record k { target = w }, length q, none))
        × (sent w ≡ sent k.target ++ q)
  unfolding write_result
  write_result_lem k p q [] e full = absurd (full (sym e))
  write_result_lem k p q (frag ∷ frags) e full =
      let (w, r, d) = write_frags_lem k.target 0 (frag ∷ frags) in
      (w, rw (r, e) (ap (λ n. (record k { target = w }, n, none)) (omega arith)), rw e at d)

-- The bytes of the reads up to the first that fails, its own included.
abbrev pub relayed : List ReadResult → Bytes
relayed [] = []
relayed ((buf, true) ∷ reads) = buf
relayed ((buf, false) ∷ reads) = buf ++ relayed reads

abbrev pub ending : List ReadResult → CopyEnd
ending [] = waiting
ending ((buf, true) ∷ reads) = read_failed
ending ((buf, false) ∷ reads) = ending reads

pub nonempty : (n : ℕ) → ltb 0 (suc n) ≡ true
nonempty n = ground arith

pub ==_self : (n : ℕ) → (n == n) ≡ true
==_self n = ground arith

==_lt : (m n : ℕ) → m < n → (m == n) ≡ false
==_lt m n h = ground arith

module _ {K E : Type 0} (dst : K → Bytes → Option (K × ℕ × Option E)) (got : K → Bytes)
    (Ready : K → Type 0)
    (takes : (k : K) (p : Bytes)
      → Ready k
      → p ≢ []
      → (k' : K) × (dst k p ≡ some (k', length p, none)) × (got k' ≡ got k ++ p) × Ready k') where
  pub copy_loop_step :
      (k : K) (total : ℕ) (b : ℕ) (bs : Bytes) (failed : Bool) (reads : List ReadResult) {k' : K}
      → dst k (b ∷ bs) ≡ some (k', length (b ∷ bs), none)
      → copy_loop dst k total ((b ∷ bs, failed) ∷ reads) ≡ (
          if failed
          then some (k', add64 total (length (b ∷ bs)), read_failed)
          else copy_loop dst k' (add64 total (length (b ∷ bs))) reads)
  unfolding copy_loop
  copy_loop_step k total b bs true reads e =
      rw (nonempty (length bs), copy_loop) (rw e (rw (==_self (length (b ∷ bs)))))
  copy_loop_step k total b bs false reads e =
      rw (nonempty (length bs), copy_loop) (rw e (rw (==_self (length (b ∷ bs)))))

  pub copy_loop_short :
      (k : K) (total : ℕ) (p : Bytes) (failed : Bool) (reads : List ReadResult) (nw : ℕ) {k' : K}
      → p ≢ []
      → dst k p ≡ some (k', nw, none)
      → length p < nw
      → copy_loop dst k total ((p, failed) ∷ reads) ≡ some (k', add64 total nw, short_write)
  unfolding copy_loop
  copy_loop_short k total [] failed reads nw full e h = absurd (full refl)
  copy_loop_short k total (b ∷ bs) failed reads nw full e h =
      rw (nonempty (length bs), copy_loop) (rw e (rw (==_lt (length (b ∷ bs)) nw h)))

  pub copy_loop_lem :
      (k : K) (total : ℕ) (reads : List ReadResult)
      → Ready k
      → total < 2 ^ 64
      → (k' : K) × (copy_loop dst k total reads
          ≡ some (k', add64 total (length (relayed reads)), ending reads))
        × (got k' ≡ got k ++ relayed reads)
  unfolding copy_loop
  copy_loop_lem k total [] r h =
      (k, ap (λ n. some (k, n, waiting)) (omega arith), sym (append-nil (got k)))
  copy_loop_lem k total (([], true) ∷ reads) r h =
      (k, ap (λ n. some (k, n, read_failed)) (omega arith), sym (append-nil (got k)))
  copy_loop_lem k total (([], false) ∷ reads) r h = copy_loop_lem k total reads r h
  copy_loop_lem k total ((b ∷ bs, true) ∷ reads) r h =
      let (k', e, g, r') = takes k (b ∷ bs) r (λ x. cc) in
      (k', copy_loop_step k total b bs true reads e, g)
  copy_loop_lem k total ((b ∷ bs, false) ∷ reads) r h =
      let (k', e, g, r') = takes k (b ∷ bs) r (λ x. cc) in
      let (k'', e', g') = copy_loop_lem k' (add64 total (length (b ∷ bs))) reads r' (omega arith) in
      (
        k'',
        copy_loop_step k total b bs false reads e
            ∙ e'
            ∙ ap (λ n. some (k'', n, ending reads))
                (omega (arith, length-append (b ∷ bs) (relayed reads))),
        g' ∙ rw (g, append_assoc),
      )
