-- ===== src/Tests/Control.antt =====
-- Concrete inputs of core/go/internal/services, core/go/internal/security, core/go/internal/mesh and
-- core/go/internal/protocol.
use air_bridge5g.Prelude.{
  ℕ, ◌≤◌, ◌≡◌, refl, ◌≢◌, ◌⊎◌, Bool, true, false, none, some, List, [], ◌∷◌, ◌++◌, map, arith,
  Bytes, codes, ltb, if◌then◌else◌, length,
}
use air_bridge5g.Prelude.Result.{ok}
use air_bridge5g.Prelude.Map.{str_eq}
use air_bridge5g.Services.IpLimiter.Bound.{granted, grants-bounded}
use air_bridge5g.Services.IpLimiter.Window.{recent, run, spec_run, run-refines_spec}
use air_bridge5g.Services.Tunnel.{Tunnel, entered, bind_failed, stay, next, fails, serve_fails}
use air_bridge5g.Services.Tunnel.Schedules.{bind_error-unreachable}
use air_bridge5g.Security.KillSwitch.{
  Command, Host, linux, done, command_failed, kill_switch_disabled, kill_switch_enabled,
  linux_rules, linux_deletes, run_all, enable,
}
use air_bridge5g.Security.KillSwitch.Lock.{
  command_line, lock_lines, unlock_lines, Succeed, FailsAt, enable-all_or_nothing,
}
use air_bridge5g.Mesh.NatTraversal.{
  NatTraversalResult, Answer, discover_public_address, nat_symmetric, nat_none, nat_full,
  nat_unknown,
}
use air_bridge5g.Mesh.NatTraversal.Classes.{differs, answered, discover-classifies}
use air_bridge5g.Protocol.Negotiation.{
  default_capabilities, negotiate_capabilities, negotiate_aead, negotiate_transport,
  negotiate_noise_pattern, first_in, set_of, has, aead_chacha20_poly1305, transport_quic, noise_ik,
}
use air_bridge5g.Protocol.Negotiation.Mutual.{IsAgreed, negotiate_capabilities-IsAgreed}

-- At most two calls of a key in ten units of time
abbrev limit : Bytes → ℕ
limit k = 2

abbrev calls : List (Bytes × ℕ)
calls = (codes "a", 1) ∷ (codes "a", 2) ∷ (codes "b", 3) ∷ (codes "a", 4) ∷ (codes "a", 12) ∷ []

run-refines_spec_example : (run limit 10 [] calls).1 ≡ (spec_run limit 10 [] calls).1
run-refines_spec_example =
    run-refines_spec limit 10 calls
      (omega arith, (omega arith, (omega arith, (omega arith, (omega arith, tt)))))

grants-bounded_example : recent 10 13 (codes "a") (granted calls (run limit 10 [] calls).1) ≤ 2
grants-bounded_example =
    grants-bounded limit 10 calls (codes "a") 13
      (omega arith, (omega arith, (omega arith, (omega arith, (omega arith, tt))))) (omega arith)

abbrev failed : Tunnel
failed = serve_fails (entered false)

bind_error-unreachable_example : failed.starter ≢ bind_failed
bind_error-unreachable_example = bind_error-unreachable false failed (next stay (fails refl))

-- A machine that keeps its commands and refuses all behind the third.
abbrev run_three : Command → List Command → List Command × Bool
run_three c cs = (cs ++ c ∷ [], ltb (length cs) 3)

abbrev host : Host
host = record { platform = linux; exe_path = []; pid = codes "42"; is_root = true }

enable-all_or_nothing_example :
    (map command_line (linux_rules (codes "42")) ≡ lock_lines (codes "42"))
    × (map command_line linux_deletes ≡ unlock_lines)
    × ((Succeed run_three (linux_rules (codes "42")) []
          × (enable run_three host kill_switch_disabled []
              ≡ (kill_switch_enabled, run_all run_three (linux_rules (codes "42")) [], done)))
        ⊎ ((before : List Command) × (c : Command) × FailsAt run_three before c
              (linux_rules (codes "42"))
              []
            × (enable run_three host kill_switch_disabled [] ≡ (
              kill_switch_disabled,
              run_all run_three linux_deletes (run_three c (run_all run_three before [])).0,
              command_failed,
            ))))
enable-all_or_nothing_example = enable-all_or_nothing run_three host [] refl

abbrev answers : List Answer
answers = none ∷ some (codes "1.2.3.4:6", codes "10.0.0.1:5") ∷ []

discover-classifies_example :
    (r : NatTraversalResult) × (discover_public_address
        (some (codes "1.2.3.4:5", codes "10.0.0.1:5") ∷ answers)
      ≡ some r)
    × (r.public_addr ≡ codes "1.2.3.4:5")
    × (r.local_addr ≡ codes "10.0.0.1:5")
    × (r.nat_type ≡ (
        if differs (codes "1.2.3.4:5") answers
        then nat_symmetric
        else if str_eq (codes "1.2.3.4:5") (codes "10.0.0.1:5")
        then nat_none
        else if answered answers
        then nat_full
        else nat_unknown))
discover-classifies_example =
    discover-classifies (codes "1.2.3.4:5") (codes "10.0.0.1:5") answers (λ e. cc)

default_agrees :
    negotiate_capabilities default_capabilities default_capabilities
    ≡ ok (record {
      aead = aead_chacha20_poly1305;
      transport = transport_quic;
      noise_pattern = noise_ik;
      protocol_version = codes "securemesh/1";
    })
unfolding negotiate_capabilities negotiate_aead negotiate_transport negotiate_noise_pattern first_in
    set_of has str_eq
default_agrees = refl

negotiate_capabilities-IsAgreed_example :
    IsAgreed default_capabilities default_capabilities (record {
      aead = aead_chacha20_poly1305;
      transport = transport_quic;
      noise_pattern = noise_ik;
      protocol_version = codes "securemesh/1";
    })
negotiate_capabilities-IsAgreed_example =
    negotiate_capabilities-IsAgreed default_capabilities default_capabilities default_agrees
