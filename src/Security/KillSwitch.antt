-- ===== src/Security/KillSwitch.antt =====
-- core/go/internal/security/killswitch.go: the lock and the commands that it runs. The operating
use air_bridge5g.Prelude.{Bool, true, false, List, [], ◌∷◌, ◌++◌, map, Bytes, codes, if◌then◌else◌}
-- system is a state of any type, and `run` is a command on it with whether it succeeds.
pub mod Lock

abbrev pub Command : Type 0
Command = List Bytes

pub data Platform : Type 0 where
  windows linux darwin other : Platform

pub data KillSwitchState : Type 0 where
  kill_switch_disabled kill_switch_enabled : KillSwitchState

-- `unsupported` is the error of a platform that is not known, `command_failed` that of a rule, and
-- `not_root` that of macOS without root.
pub data Outcome : Type 0 where
  done unsupported command_failed not_root : Outcome

abbrev pub windows_rule_name : Bytes
windows_rule_name = codes "AirBridge5G-KillSwitch"

abbrev pub netsh : List Bytes
netsh = codes "netsh" ∷ codes "advfirewall" ∷ codes "firewall" ∷ []

abbrev pub add_rule : Bytes → List Bytes → Command
add_rule suffix options =
    netsh
    ++ (codes "add"
        ∷ codes "rule"
        ∷ (codes "name=" ++ (windows_rule_name ++ suffix))
        ∷ codes "dir=out"
        ∷ [])
    ++ options
    ++ (codes "enable=yes" ∷ codes "profile=any" ∷ [])

unfoldable pub windows_rules : Bytes → List Command
windows_rules exe =
    add_rule (codes "-AllowLoopback") (codes "action=allow" ∷ codes "remoteip=127.0.0.0/8" ∷ [])
    ∷ add_rule (codes "-AllowDNS")
        (codes "action=allow" ∷ codes "protocol=UDP" ∷ codes "remoteport=53" ∷ [])
    ∷ add_rule (codes "-AllowDaemon") (codes "action=allow" ∷ (codes "program=" ++ exe) ∷ [])
    ∷ add_rule (codes "-AllowLAN")
        (codes "action=allow" ∷ codes "remoteip=192.168.0.0/16,10.0.0.0/8,172.16.0.0/12" ∷ [])
    ∷ add_rule (codes "-BlockAll") (codes "action=block" ∷ [])
    ∷ []

abbrev pub suffixes : List Bytes
suffixes =
    codes "-AllowLoopback"
    ∷ codes "-AllowDNS"
    ∷ codes "-AllowDaemon"
    ∷ codes "-AllowLAN"
    ∷ codes "-BlockAll"
    ∷ []

unfoldable pub windows_deletes : List Command
windows_deletes =
    map
      (λ suffix.
        netsh
        ++ (codes "delete" ∷ codes "rule" ∷ (codes "name=" ++ (windows_rule_name ++ suffix)) ∷ []))
      suffixes

abbrev pub append_output : List Bytes → Command
append_output options = codes "iptables" ∷ codes "-A" ∷ codes "OUTPUT" ∷ options

-- `pid` is the process id in decimal.
unfoldable pub linux_rules : Bytes → List Command
linux_rules pid =
    append_output (codes "-o" ∷ codes "lo" ∷ codes "-j" ∷ codes "ACCEPT" ∷ [])
    ∷ append_output (
        codes "-m"
        ∷ codes "state"
        ∷ codes "--state"
        ∷ codes "ESTABLISHED,RELATED"
        ∷ codes "-j"
        ∷ codes "ACCEPT"
        ∷ [])
    ∷ append_output
        (codes "-m" ∷ codes "owner" ∷ codes "--pid-owner" ∷ pid ∷ codes "-j" ∷ codes "ACCEPT" ∷ [])
    ∷ append_output (codes "-d" ∷ codes "192.168.0.0/16" ∷ codes "-j" ∷ codes "ACCEPT" ∷ [])
    ∷ append_output (codes "-d" ∷ codes "10.0.0.0/8" ∷ codes "-j" ∷ codes "ACCEPT" ∷ [])
    ∷ append_output
        (codes "-p" ∷ codes "udp" ∷ codes "--dport" ∷ codes "53" ∷ codes "-j" ∷ codes "ACCEPT" ∷ [])
    ∷ append_output (codes "-j" ∷ codes "DROP" ∷ [])
    ∷ []

unfoldable pub linux_deletes : List Command
linux_deletes =
    (codes "iptables" ∷ codes "-F" ∷ codes "OUTPUT" ∷ [])
    ∷ (codes "iptables" ∷ codes "-P" ∷ codes "OUTPUT" ∷ codes "ACCEPT" ∷ [])
    ∷ []

-- What the process sees of its machine.
pub record Host : Type 0 where
  pub platform : Platform
  pub exe_path : Bytes
  pub pid : Bytes
  pub is_root : Bool

module _ {F : Type 0} (run : Command → F → F × Bool) where
  -- Commands whose errors are dropped
  unfoldable pub run_all : List Command → F → F
  run_all [] f = f
  run_all (c ∷ cs) f = run_all cs (run c f).0

  -- The loop over the rules: at the first that fails, the clean-up.
  unfoldable pub run_rules : List Command → List Command → F → F × Bool
  run_rules cleanup [] f = (f, true)
  run_rules cleanup (c ∷ cs) f =
      let (f', succeeded) = run c f in
      if succeeded then run_rules cleanup cs f' else (run_all cleanup f', false)

  unfoldable pub rules_outcome : F × Bool → F × Outcome
  rules_outcome (f, true) = (f, done)
  rules_outcome (f, false) = (f, command_failed)

  -- `enableWindows`, `enableLinux` and `enableDarwin`
  unfoldable pub enable_platform : Host → Platform → F → F × Outcome
  enable_platform host windows f = rules_outcome (
      run_rules windows_deletes
        (windows_rules (elim host.exe_path [ [] ↦ codes "securemesh-node.exe" | b ∷ bs ↦ b ∷ bs ]))
        f)
  enable_platform host linux f = rules_outcome (run_rules linux_deletes (linux_rules host.pid) f)
  enable_platform host darwin f =
      if host.is_root then ((run (codes "pfctl" ∷ codes "-e" ∷ []) f).0, done) else (f, not_root)
  enable_platform host other f = (f, unsupported)

  -- `disableWindows`, `disableLinux` and `disableDarwin`
  unfoldable pub disable_platform : Host → Platform → F → F × Outcome
  disable_platform host windows f = (run_all windows_deletes f, done)
  disable_platform host linux f = (run_all linux_deletes f, done)
  disable_platform host darwin f =
      ((if host.is_root then (run (codes "pfctl" ∷ codes "-d" ∷ []) f).0 else f), done)
  disable_platform host other f = (f, unsupported)

  unfoldable pub commit :
      KillSwitchState → KillSwitchState → F × Outcome → KillSwitchState × F × Outcome
  commit old new (f, done) = (new, f, done)
  commit old new (f, e) = (old, f, e)

  unfoldable pub enable : Host → KillSwitchState → F → KillSwitchState × F × Outcome
  enable host kill_switch_enabled f = (kill_switch_enabled, f, done)
  enable host kill_switch_disabled f =
      commit kill_switch_disabled kill_switch_enabled (enable_platform host host.platform f)

  unfoldable pub disable : Host → KillSwitchState → F → KillSwitchState × F × Outcome
  disable host kill_switch_disabled f = (kill_switch_disabled, f, done)
  disable host kill_switch_enabled f =
      commit kill_switch_enabled kill_switch_disabled (disable_platform host host.platform f)
