-- ===== src/Platform/Partial.antt =====
-- The kill switches of core/go/internal/platform when a command fails.
use air_bridge5g.Prelude.{◌≡◌, refl, Bool, true, false, List, [], ◌∷◌, ◌++◌, arith, Bytes, drop}
use air_bridge5g.Platform.{
  Command, run_until, block_outbound, windows_rules, Build, windows_build, enable_rules, enable,
}

module _ {F : Type 0} (run : Command → F → F × Bool × Bytes) where
  -- Commands that succeed, then one that fails: the machine is as that one leaves it.
  pub run_until-fails :
      (front back : List Command) (c : Command) (f : F)
      → (run_until run front f).1 ≡ true
      → (run c (run_until run front f).0).1 ≡ false
      → run_until run (front ++ (c ∷ back)) f ≡ ((run c (run_until run front f).0).0, false)
  unfolding run_until
  run_until-fails [] back c f h e = ground arith
  run_until-fails (d ∷ front) back c f h e =
      ground (arith, run_until-fails front back c (run d f).0)

-- `Enable` of each platform's kill switch, over the commands that it runs: when all succeed it answers
-- nil and is enabled, and the machine has run them all; when one fails, it answers an error, is
-- enabled only if it was before, and leaves the machine as that command has left it behind the ones
-- in front, which are not undone. On Windows the first of these blocks all that goes out.
pub enable-partial :
    {F : Type 0} (run : Command → F → F × Bool × Bytes) (b : Build) (enabled : Bool) (f : F)
    (front back : List Command) (c : Command)
    → enable_rules b ≡ front ++ (c ∷ back)
    → (run_until run front f).1 ≡ true
    → let f1 = (run_until run front f).0 in
      ((run c f1).1 ≡ false → enable run b enabled f ≡ ((run c f1).0, enabled, false))
      × ((run_until run (enable_rules b) f).1 ≡ true
          → enable run b enabled f ≡ ((run_until run (enable_rules b) f).0, true, true))
      × (enable_rules windows_build ≡ block_outbound ∷ (drop 1 windows_rules))
unfolding enable
enable-partial run b enabled f front back c e h = (
  λ fails. rw (e, run_until-fails run front back c f h fails) (ground arith),
  λ ends. ground arith,
  (unfold enable_rules in refl),
)
