-- ===== src/Security/KillSwitch/Lock.antt =====
-- What core/go/internal/security/killswitch.go leaves behind on Linux and Windows.
use air_bridge5g.Prelude.{
  ◌≡◌, refl, ap, ◌⊎◌, inl, inr, Bool, true, false, List, [], ◌∷◌, ◌++◌, map, arith, Bytes, codes,
  Bool-cases,
}
use air_bridge5g.Security.KillSwitch.{
  Command, Host, linux, done, command_failed, kill_switch_disabled, kill_switch_enabled,
  linux_rules, linux_deletes, run_all, run_rules, rules_outcome, enable_platform, commit, enable,
}

-- A command as it is typed, with a space behind each word.
unfoldable pub command_line : Command → Bytes
command_line [] = []
command_line (word ∷ words) = word ++ (32 ∷ command_line words)

-- The commands that lock the network on Linux: what leaves by the loopback, what answers, what the
-- daemon sends, what stays in the local networks and what asks for a name is let through, and then
-- the rest is dropped.
abbrev pub lock_lines : Bytes → List Bytes
lock_lines pid =
    codes "iptables -A OUTPUT -o lo -j ACCEPT "
    ∷ codes "iptables -A OUTPUT -m state --state ESTABLISHED,RELATED -j ACCEPT "
    ∷ (codes "iptables -A OUTPUT -m owner --pid-owner " ++ (pid ++ codes " -j ACCEPT "))
    ∷ codes "iptables -A OUTPUT -d 192.168.0.0/16 -j ACCEPT "
    ∷ codes "iptables -A OUTPUT -d 10.0.0.0/8 -j ACCEPT "
    ∷ codes "iptables -A OUTPUT -p udp --dport 53 -j ACCEPT "
    ∷ codes "iptables -A OUTPUT -j DROP "
    ∷ []

-- The commands that unlock it.
abbrev pub unlock_lines : List Bytes
unlock_lines = codes "iptables -F OUTPUT " ∷ codes "iptables -P OUTPUT ACCEPT " ∷ []

linux_rules-lines : (pid : Bytes) → map command_line (linux_rules pid) ≡ lock_lines pid
unfolding command_line linux_rules
linux_rules-lines pid = refl

linux_deletes-lines : map command_line linux_deletes ≡ unlock_lines
unfolding command_line linux_deletes
linux_deletes-lines = refl

module _ {F : Type 0} (run : Command → F → F × Bool) where
  -- The commands succeed, each on what those before it leave.
  abbrev pub Succeed : List Command → F → Type 0
  Succeed [] f = Unit
  Succeed (c ∷ cs) f = ((run c f).1 ≡ true) × Succeed cs (run c f).0

  -- `before` succeeds and the next command, `c`, fails.
  abbrev pub FailsAt : List Command → Command → List Command → F → Type 0
  FailsAt before c cs f =
      (after : List Command) × (cs ≡ before ++ c ∷ after)
      × Succeed before f
      × ((run c (run_all run before f)).1 ≡ false)

  run_rules_lem :
      (cleanup rules : List Command) (f : F)
      → (Succeed rules f × (run_rules run cleanup rules f ≡ (run_all run rules f, true)))
        ⊎ ((before : List Command) × (c : Command) × FailsAt before c rules f
            × (run_rules run cleanup rules f
                ≡ (run_all run cleanup (run c (run_all run before f)).0, false)))
  unfolding run_rules run_all
  run_rules_lem cleanup [] f = inl (tt, refl)
  run_rules_lem cleanup (c ∷ cs) f = elim (Bool-cases (run c f).1) [
    | inr e ↦ inr ([], c, (cs, refl, tt, e), ground (arith, e))
    | inl e ↦ elim (run_rules_lem cleanup cs (run c f).0) [
      | inl (s, r) ↦ inl ((e, s), ground (arith, e, r))
      | inr (before, d, (after, split, s, x), r) ↦
          inr (c ∷ before, d, (after, ap (λ l. c ∷ l) split, (e, s), x), ground (arith, e, r))
    ]
  ]

  -- On Linux, with the lock disabled, `Enable` does one of two things. Either all of its rules
  -- succeed, and the lock is enabled; or some rule is the first to fail, the clean-up runs on what it
  -- and those before it have left, the result is an error and the lock stays disabled. As commands
  -- the rules are these, in this order: `iptables -A OUTPUT` accepts the loopback, established
  -- connections, those of the daemon's process, 192.168.0.0/16, 10.0.0.0/8 and UDP to port 53, and
  -- the last rule drops the rest; the clean-up flushes OUTPUT and sets its policy to ACCEPT.
  pub enable-all_or_nothing :
      (host : Host) (f : F)
      → host.platform ≡ linux
      → (map command_line (linux_rules host.pid) ≡ lock_lines host.pid)
        × (map command_line linux_deletes ≡ unlock_lines)
        × ((Succeed (linux_rules host.pid) f
              × (enable run host kill_switch_disabled f
                  ≡ (kill_switch_enabled, run_all run (linux_rules host.pid) f, done)))
            ⊎ ((before : List Command) × (c : Command) × FailsAt before c (linux_rules host.pid) f
                × (enable run host kill_switch_disabled f ≡ (
                  kill_switch_disabled,
                  run_all run linux_deletes (run c (run_all run before f)).0,
                  command_failed,
                ))))
  unfolding enable enable_platform rules_outcome commit
  enable-all_or_nothing host f p = (
    linux_rules-lines host.pid,
    linux_deletes-lines,
    elim (run_rules_lem linux_deletes (linux_rules host.pid) f) [
      | inl (s, r) ↦ inl (s, ground (arith, p, r))
      | inr (before, c, x, r) ↦ inr (before, c, x, ground (arith, p, r))
    ],
  )
