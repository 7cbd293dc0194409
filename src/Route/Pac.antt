-- ===== src/Route/Pac.antt =====
-- `pac` of app/selective_route_windows.py, the PAC script that names the HTTP bridge.
use free_net_hub.Prelude.{ℕ, not, ◌++◌, List, Result, ok, ◌>>=◌, ◌>>◌, raise_if, Untyped, typed}
use free_net_hub.Text.{Text, Tables, text, join, decimal}
use free_net_hub.Selective.Pac.{PacError, proxy_port_invalid, from_domains, port_ok, port_of, dump}
use free_net_hub.Route.{normalize_domains}

abbrev pub bridge_port : ℕ
bridge_port = 19417

unfoldable pub bridge_script_head : ℕ → Text
bridge_script_head port =
    text "// Windows-compatible HTTPS HTTP CONNECT bridge to owned SOCKS5.\n"
    ++ (text "// Owned SOCKS5 provider port "
        ++ (decimal port
            ++ (text ".\n"
                ++ (text "function FindProxyForURL(url, host) {\n"
                    ++ (text "  host = host.toLowerCase().replace(/\\.$/, '');\n"
                        ++ text "  var allowed = ")))))

unfoldable pub bridge_script_loop : Text
bridge_script_loop =
    text ";\n"
    ++ (text "  for (var n=0; n<allowed.length; n++) {\n"
        ++ (text "    if (host === allowed[n] || dnsDomainIs(host, '.' + allowed[n])) {\n"
            ++ (text "      return 'PROXY 127.0.0.1:"
                ++ (decimal bridge_port ++ text "';\n    }\n  }\n  return 'DIRECT';\n}\n"))))

-- The script for given domains.
unfoldable pub bridge_script : List Text → ℕ → Text
bridge_script hosts port = bridge_script_head port ++ (dump hosts ++ bridge_script_loop)

unfoldable pub pac : Tables → List Text → Untyped ℕ → Result PacError Text
pac t rows port = do
  raise_if (not (port_ok port)) proxy_port_invalid
  hosts ← from_domains (normalize_domains t (typed (join b'\n' rows)))
  ok (bridge_script hosts (port_of port))
