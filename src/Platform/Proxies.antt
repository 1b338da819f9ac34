-- ===== src/Platform/Proxies.antt =====
-- The system proxy in platform_windows.go, platform_linux.go and platform_darwin.go of
-- core/go/internal/platform, and the network service that macOS configures.
use air_bridge5g.Prelude.{
  ℕ, Bool, true, false, not, ◌&&◌, ◌||◌, Option, none, some, List, [], ◌∷◌, ◌++◌, Bytes, codes,
  if◌then◌else◌,
}
use air_bridge5g.Prelude.Map.{str_eq, insert}
use air_bridge5g.Prelude.Format.{decimal, sprintf_port}
use air_bridge5g.Prelude.Texts.{split_on, trim_space}
use air_bridge5g.Privacy.UserAgent.{has_prefix, to_lower}
use air_bridge5g.Platform.{
  Command, run_until, run_each, winhttp, reg_add, gsettings, networksetup, ProxyConfigurator,
}

abbrev gnome_proxy : Bytes
gnome_proxy = codes "org.gnome.system.proxy"

module _ {F : Type 0} (run : Command → F → F × Bool × Bytes) where
  -- `WindowsProxyConfigurator.SetSystemProxy`, with whether it returns nil.
  unfoldable pub windows_set_proxy :
      Bytes → ℕ → ProxyConfigurator → F → (ProxyConfigurator × F) × Bool
  windows_set_proxy host port p f =
      let addr = codes "socks=" ++ sprintf_port host port in
      let (f1, succeeded) =
        run_until run
          (winhttp (codes "set" ∷ codes "proxy" ∷ (codes "proxy-server=" ++ addr) ∷ []) ∷ []) f in
      let f2 =
        run_each run
          (reg_add (codes "ProxyEnable") (codes "REG_DWORD") (codes "1")
            ∷ reg_add (codes "ProxyServer") (codes "REG_SZ") addr
            ∷ [])
          f1 in
      if succeeded then ((record p { configured = true }, f2), true) else ((p, f1), false)

  unfoldable pub windows_clear_proxy : ProxyConfigurator → F → (ProxyConfigurator × F) × Bool
  windows_clear_proxy p f =
      let (f1, succeeded) = run_until run (winhttp (codes "reset" ∷ codes "proxy" ∷ []) ∷ []) f in
      let f2 =
        run_each run (reg_add (codes "ProxyEnable") (codes "REG_DWORD") (codes "0") ∷ []) f1 in
      if succeeded then ((record p { configured = false }, f2), true) else ((p, f1), false)

  -- `LinuxProxyConfigurator.SetSystemProxy`
  unfoldable pub linux_set_proxy :
      Bytes → ℕ → ProxyConfigurator → F → (ProxyConfigurator × F) × Bool
  linux_set_proxy host port p f =
      let addr = codes "socks5://" ++ sprintf_port host port in
      let (f1, succeeded) =
        run_until run (gsettings gnome_proxy (codes "mode") (codes "manual") ∷ []) f in
      let f2 =
        run_each run
          (gsettings (codes "org.gnome.system.proxy.socks") (codes "host") host
            ∷ gsettings (codes "org.gnome.system.proxy.socks") (codes "port") (decimal 5 port)
            ∷ [])
          f1 in
      (
        (
          record {
            configured = true;
            env_vars = insert (codes "all_proxy") addr (insert (codes "ALL_PROXY") addr p.env_vars);
          },
          if succeeded then f2 else f1,
        ),
        true,
      )

  unfoldable pub linux_clear_proxy : ProxyConfigurator → F → (ProxyConfigurator × F) × Bool
  linux_clear_proxy p f = (
    (
      record { configured = false; env_vars = [] },
      run_each run (gsettings gnome_proxy (codes "mode") (codes "none") ∷ []) f,
    ),
    true,
  )

  -- `DarwinProxyConfigurator.SetSystemProxy`
  unfoldable pub darwin_set_proxy :
      Bytes → Bytes → ℕ → ProxyConfigurator → F → (ProxyConfigurator × F) × Bool
  darwin_set_proxy service host port p f =
      let (f1, succeeded) =
        run_until run
          (networksetup (codes "-setsocksfirewallproxy" ∷ service ∷ host ∷ decimal 5 port ∷ [])
            ∷ networksetup (codes "-setsocksfirewallproxystate" ∷ service ∷ codes "on" ∷ [])
            ∷ [])
          f in
      ((if succeeded then record p { configured = true } else p, f1), succeeded)

  unfoldable pub darwin_clear_proxy : Bytes → ProxyConfigurator → F → (ProxyConfigurator × F) × Bool
  darwin_clear_proxy service p f =
      let (f1, succeeded) =
        run_until run
          (networksetup (codes "-setsocksfirewallproxystate" ∷ service ∷ codes "off" ∷ []) ∷ [])
          f in
      ((if succeeded then record p { configured = false } else p, f1), succeeded)

-- `GeneratePACFile` of Linux and macOS.
unfoldable pub pac_file : Bytes → ℕ → Bytes
pac_file host port =
    codes
      "function FindProxyForURL(url, host) {\n    if (isPlainHostName(host) ||\n        shExpMatch(host, \"*.local\") ||\n        isInNet(dnsResolve(host), \"10.0.0.0\", \"255.0.0.0\") ||\n        isInNet(dnsResolve(host), \"172.16.0.0\", \"255.240.0.0\") ||\n        isInNet(dnsResolve(host), \"192.168.0.0\", \"255.255.0.0\") ||\n        isInNet(dnsResolve(host), \"127.0.0.0\", \"255.0.0.0\")) {\n        return \"DIRECT\";\n    }\n    return \"SOCKS5 "
    ++ (sprintf_port host port
        ++ (codes "; SOCKS " ++ (sprintf_port host port ++ codes "; DIRECT\";\n}")))

-- The lines of `detectActiveNetworkService` that the first loop passes over.
unfoldable pub is_passed_over : Bytes → Bool
is_passed_over line =
    str_eq line [] || has_prefix (codes "*") line || has_prefix (codes "An asterisk") line

unfoldable pub is_wifi : Bytes → Bool
is_wifi line = str_eq (to_lower line) (codes "wi-fi") || str_eq (to_lower line) (codes "wifi")

unfoldable pub find_wifi : List Bytes → Option Bytes
find_wifi [] = none
find_wifi (line ∷ lines) =
    let rest = find_wifi lines in
    let name = trim_space line in
    if not (is_passed_over name) && is_wifi name then some name else rest

unfoldable pub find_named : List Bytes → Option Bytes
find_named [] = none
find_named (line ∷ lines) =
    let rest = find_named lines in
    let name = trim_space line in
    if not (str_eq name []) && not (has_prefix (codes "An asterisk") name) then some name else rest

-- `detectActiveNetworkService` on what the command prints, or `none` where it fails.
unfoldable pub detect_service : Option Bytes → Bytes
detect_service none = codes "Wi-Fi"
detect_service (some output) = elim (find_wifi (split_on 10 output)) [
  | some name ↦ name
  | none ↦ elim (find_named (split_on 10 output)) [ some name ↦ name | none ↦ codes "Wi-Fi" ]
]
