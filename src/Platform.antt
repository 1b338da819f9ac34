-- ===== src/Platform.antt =====
-- core/go/internal/platform: the system proxy and the platforms' own kill switches, as commands of
-- the operating system, which is a state of any type: `run` is a command on it with whether it
-- succeeds and what it prints. And which platform this is.
pub mod Partial
pub mod Proxies
use air_bridge5g.Prelude.{
  ℕ, Bool, true, false, not, ◌&&◌, ◌||◌, List, [], ◌∷◌, ◌++◌, Bytes, codes, if◌then◌else◌,
}
use air_bridge5g.Prelude.Map.{str_eq}
use air_bridge5g.Prelude.Format.{decimal, sprintf_port}
use air_bridge5g.Prelude.Texts.{split_on, trim_space}
use air_bridge5g.Privacy.UserAgent.{contains, has_prefix, to_lower}

abbrev pub Command : Type 0
Command = List Bytes

-- platform.go
pub data Platform : Type 0 where
  android ios windows macos linux unknown : Platform

-- `Detect`: the name of the operating system, and whether the environment is Android's.
unfoldable pub detect : Bytes → Bool → Platform
detect goos is_android_env =
    if str_eq goos (codes "android")
    then android
    else if str_eq goos (codes "ios")
    then ios
    else if str_eq goos (codes "windows")
    then windows
    else if str_eq goos (codes "darwin")
    then macos
    else if str_eq goos (codes "linux")
    then (if is_android_env then android else linux)
    else unknown

unfoldable pub is_mobile : Platform → Bool
is_mobile android = true
is_mobile ios = true
is_mobile _ = false

unfoldable pub is_desktop : Platform → Bool
is_desktop windows = true
is_desktop macos = true
is_desktop linux = true
is_desktop _ = false

module _ {F : Type 0} (run : Command → F → F × Bool × Bytes) where
  -- Commands in their order, up to the first that fails.
  unfoldable pub run_until : List Command → F → F × Bool
  run_until [] f = (f, true)
  run_until (c ∷ cs) f =
      let (f', succeeded, output) = run c f in
      let rest = run_until cs f' in if succeeded then rest else (f', false)

  -- Commands whose errors are logged or dropped.
  unfoldable pub run_each : List Command → F → F
  run_each [] f = f
  run_each (c ∷ cs) f = run_each cs (run c f).0

abbrev pub proxy_text : Bytes → Bytes → ℕ → Bytes
proxy_text scheme host port = scheme ++ sprintf_port host port

-- platform_windows.go
abbrev pub winhttp : List Bytes → Command
winhttp args = codes "netsh" ∷ codes "winhttp" ∷ args

abbrev pub internet_settings : Bytes
internet_settings = codes "HKCU\\Software\\Microsoft\\Windows\\CurrentVersion\\Internet Settings"

abbrev pub reg_add : Bytes → Bytes → Bytes → Command
reg_add name type value =
    codes "reg"
    ∷ codes "add"
    ∷ internet_settings
    ∷ codes "/v"
    ∷ name
    ∷ codes "/t"
    ∷ type
    ∷ codes "/d"
    ∷ value
    ∷ codes "/f"
    ∷ []

abbrev pub firewall : List Bytes → Command
firewall args = codes "netsh" ∷ codes "advfirewall" ∷ codes "firewall" ∷ args

abbrev pub block_outbound : Command
block_outbound = firewall (
    codes "add"
    ∷ codes "rule"
    ∷ codes "name=AirBridge-KillSwitch-BlockOutbound"
    ∷ codes "dir=out"
    ∷ codes "action=block"
    ∷ codes "enable=yes"
    ∷ [])

abbrev pub allow_rule : Bytes → Bytes → Command
allow_rule name remote = firewall (
    codes "add"
    ∷ codes "rule"
    ∷ (codes "name=" ++ name)
    ∷ codes "dir=out"
    ∷ codes "action=allow"
    ∷ (codes "remoteip=" ++ remote)
    ∷ codes "enable=yes"
    ∷ [])

abbrev pub windows_rules : List Command
windows_rules =
    block_outbound
    ∷ allow_rule (codes "AirBridge-KillSwitch-AllowTunnel") (codes "127.0.0.1")
    ∷ allow_rule (codes "AirBridge-KillSwitch-AllowLocal")
        (codes "192.168.0.0/16,10.0.0.0/8,172.16.0.0/12")
    ∷ []

abbrev pub delete_rule : Bytes → Command
delete_rule name = firewall (codes "delete" ∷ codes "rule" ∷ (codes "name=" ++ name) ∷ [])

abbrev pub windows_rule_deletes : List Command
windows_rule_deletes =
    delete_rule (codes "AirBridge-KillSwitch-BlockOutbound")
    ∷ delete_rule (codes "AirBridge-KillSwitch-AllowTunnel")
    ∷ delete_rule (codes "AirBridge-KillSwitch-AllowLocal")
    ∷ []

-- platform_linux.go
abbrev pub accept_output : List Bytes → Command
accept_output args =
    codes "iptables" ∷ codes "-A" ∷ codes "OUTPUT" ∷ args ++ (codes "-j" ∷ codes "ACCEPT" ∷ [])

abbrev pub linux_rules : List Command
linux_rules =
    accept_output (codes "-o" ∷ codes "lo" ∷ [])
    ∷ accept_output (codes "-d" ∷ codes "192.168.0.0/16" ∷ [])
    ∷ accept_output (codes "-d" ∷ codes "10.0.0.0/8" ∷ [])
    ∷ accept_output (codes "-d" ∷ codes "172.16.0.0/12" ∷ [])
    ∷ accept_output (codes "-p" ∷ codes "tcp" ∷ codes "--dport" ∷ codes "1080" ∷ [])
    ∷ (codes "iptables" ∷ codes "-A" ∷ codes "OUTPUT" ∷ codes "-j" ∷ codes "DROP" ∷ [])
    ∷ []

abbrev pub flush_output : Command
flush_output = codes "iptables" ∷ codes "-F" ∷ codes "OUTPUT" ∷ []

abbrev pub gsettings : Bytes → Bytes → Bytes → Command
gsettings schema key value = codes "gsettings" ∷ codes "set" ∷ schema ∷ key ∷ value ∷ []

-- platform_darwin.go
abbrev pub networksetup : List Bytes → Command
networksetup args = codes "networksetup" ∷ args

abbrev pub pf_rules : Bytes
pf_rules =
    codes
      "\n# AirBridge Kill Switch\nblock out all\npass out on lo0\npass out to 192.168.0.0/16\npass out to 10.0.0.0/8\npass out to 172.16.0.0/12\npass out proto tcp to any port 1080\n"

abbrev pub pf_enable : Command
pf_enable =
    codes "bash" ∷ codes "-c" ∷ (codes "echo '" ++ (pf_rules ++ codes "' | sudo pfctl -ef -")) ∷ []

abbrev pub pf_disable : Command
pf_disable = codes "sudo" ∷ codes "pfctl" ∷ codes "-d" ∷ []

-- Which of the three files is built.
pub data Build : Type 0 where
  windows_build linux_build darwin_build : Build

-- The commands of `Enable`.
unfoldable pub enable_rules : Build → List Command
enable_rules windows_build = windows_rules
enable_rules linux_build = linux_rules
enable_rules darwin_build = pf_enable ∷ []

-- `configured`, and the variables that the Linux configurator keeps.
pub record ProxyConfigurator : Type 0 where
  pub configured : Bool
  pub env_vars : List (Bytes × Bytes)

module _ {F : Type 0} (run : Command → F → F × Bool × Bytes) where
  -- `Enable`: the Booleans are `enabled` and whether it returns nil.
  unfoldable pub enable : Build → Bool → F → F × Bool × Bool
  enable b enabled f =
      let (f', succeeded) = run_until run (enable_rules b) f in
      (f', enabled || succeeded, succeeded)

  -- `Disable`
  unfoldable pub disable : Build → Bool → F → F × Bool × Bool
  disable windows_build enabled f = (run_each run windows_rule_deletes f, false, true)
  disable linux_build enabled f =
      let (f', succeeded) = run_until run (flush_output ∷ []) f in
      (f', enabled && not succeeded, succeeded)
  disable darwin_build enabled f =
      let (f', succeeded) = run_until run (pf_disable ∷ []) f in
      (f', enabled && not succeeded, succeeded)
