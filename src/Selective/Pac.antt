-- ===== src/Selective/Pac.antt =====
-- The PAC script of crossplatform/linux/selective_tunnel.py: its text, and the routes that a browser
-- takes by it.
pub mod Routes
pub mod Size
use free_net_hub.Prelude.{
  ℕ, Bool, true, false, not, ◌&&◌, ◌||◌, ◌++◌, List, [], ◌∷◌, any, leb, if◌then◌else◌, Result, ok,
  err, ◌>>=◌, ◌>>◌, raise_if, Untyped, typed, ill_typed,
}
use free_net_hub.Text.{Text, Tables, text, eq_text, ends_with, lower, join, decimal}
use free_net_hub.Selective.Domains.{DomainError, parse_domains, drop_final_dot}

-- What `pac_script` raises.
pub data PacError : Type 0 where
  domains : DomainError → PacError
  proxy_port_invalid : PacError

abbrev pub from_domains : {A : Type 0} → Result DomainError A → Result PacError A
from_domains (ok a) = ok a
from_domains (err e) = err (domains e)

-- `isinstance(port, int) and 1024 <= port <= 65535`; an int below 0 is out of range as 0 is.
unfoldable pub port_ok : Untyped ℕ → Bool
port_ok (typed port) = leb 1024 port && leb port 65535
port_ok ill_typed = false

abbrev pub port_of : Untyped ℕ → ℕ
port_of (typed port) = port
port_of ill_typed = 0

-- `json.dumps` of a text that needs no escape, as no domain does.
abbrev pub quote : Text → Text
quote d = b'"' ∷ (d ++ (b'"' ∷ []))

unfoldable pub dump_items : List Text → Text
dump_items [] = []
dump_items (d ∷ []) = quote d
dump_items (d ∷ e ∷ ds) = quote d ++ (b',' ∷ dump_items (e ∷ ds))

-- `json.dumps(hosts, separators=(",", ":"))`
unfoldable pub dump : List Text → Text
unfolding dump_items
dump ds = b'[' ∷ (dump_items ds ++ (b']' ∷ []))

unfoldable pub script_head : Text
script_head =
    text
      "// FreeNetHub selective domain-only SOCKS5 PAC. No DIRECT fallback for selected domains.\n"
    ++ (text "function FindProxyForURL(url, host) {\n"
        ++ (text "  host = host.toLowerCase().replace(/\\.$/, '');\n" ++ text "  var domains = "))

unfoldable pub script_loop : Text
script_loop =
    text ";\n"
    ++ (text "  for (var i = 0; i < domains.length; i++) {\n"
        ++ (text "    if (host === domains[i] || dnsDomainIs(host, '.' + domains[i])) {\n"
            ++ text "      return 'SOCKS5 127.0.0.1:"))

unfoldable pub script_tail : Text
script_tail = text "';\n    }\n  }\n  return 'DIRECT';\n}\n"

-- The script for given hosts.
unfoldable pub script : List Text → ℕ → Text
script hosts port = script_head ++ (dump hosts ++ (script_loop ++ (decimal port ++ script_tail)))

unfoldable pub pac_script : Tables → List Text → Untyped ℕ → Result PacError Text
pac_script t rows port = do
  hosts ← from_domains (parse_domains t (typed (join b'\n' rows)))
  raise_if (not (port_ok port)) proxy_port_invalid
  ok (script hosts (port_of port))

-- What `FindProxyForURL` returns.
pub data Route : Type 0 where
  socks5 : ℕ → Route
  direct : Route

-- `host === d || dnsDomainIs(host, '.' + d)`
unfoldable pub selects : Text → Text → Bool
unfolding eq_text ends_with
selects host d = eq_text host d || ends_with host (b'.' ∷ d)

-- `FindProxyForURL` of the script: the loop over its list, for a host as a browser gives it.
unfoldable pub find_proxy : Tables → List Text → ℕ → Text → Route
unfolding selects lower drop_final_dot
find_proxy t hosts port host =
    if any (selects (drop_final_dot (lower t host))) hosts then socks5 port else direct
