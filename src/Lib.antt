-- ===== src/Lib.antt =====
-- FreeNet Hub lets a person route chosen web sites through a local SOCKS5 tunnel. This library
-- models the parts of it that decide what is tunnelled, that change the settings of the machine,
-- and that share the tunnel with one peer.
--
-- Text.antt models what the program uses of Python's `str`, as lists of code points. Hosts.antt
-- has the tests on host names that several modules of the program repeat, and Hosts/Address.antt
-- the range of the tailnet's addresses. Prelude/Exec.antt and Prelude/Faults.antt have the monad
-- of code that changes the outside world by commands that may fail: a schedule says of each
-- command to come whether it fails, and a theorem for every schedule is about every way in which
-- commands can fail.
--
-- Selective.antt and the files below it model crossplatform/linux/selective_tunnel.py.
-- Domains.antt is `parse_domains` and `merge_domains`. Pac.antt is `pac_script` and the function
-- `FindProxyForURL` of the script that it prints. World.antt is what the module keeps outside the
-- process (the policy file, the PAC file, the systemd unit and the two GNOME settings) with
-- `_setting`, `_set_setting`, `_atomic`, `_read_policy`, `_write_policy`, `_service_ctl`,
-- `_pac_online` and the answers of `_PACHandler`. Status.antt is `status`, Arguments.antt the
-- checks of `apply`, Apply.antt `apply` with the handler of its exception, and Disable.antt
-- `disable`. `apply` reads the domains by `parse_domains`, prints them by `pac_script`, and what
-- it saves in the policy is what `disable` goes back to.
--
-- Gateway.antt and the files below it model crossplatform/linux/tailnet_cfon_gateway.py.
-- Socket.antt is a connected socket with `_exact` and `sendall`: the bytes to come stand in the
-- segments in which the network delivers them. Request.antt is `_safe_host` and `_read_request`,
-- Upstream.antt `_connect_owned_upstream`, Peers.antt `tailnet_ip` and `verify_peers`, and
-- Sessions.antt the admission of clients by `_Handler.handle` and the semaphore of `serve`, whose
-- handlers run in threads: arrivals and endings in any order. The gateway takes its list of
-- domains from `parse_domains`.
--
-- Bridge.antt models `validate_proxy_host` and `normalize_connect_target` of
-- app/selective_http_bridge.py, which guard the CONNECT requests of the same domains on Windows.
--
-- Json.antt has Python's values as JSON has them, its `dict` in the order of insertion, and the
-- built-in functions on them; what they do with fractional numbers, `repr`, `json.dumps` and the
-- digest is a parameter (`Python`). No text has a lone surrogate. NodeHub.antt and the files below
-- it model app/nodehub.py, of which crossplatform/linux/nodehub_shared.py is a copy. JsonNode.antt
-- is `_singbox_json_node`, whose branches are JsonProtocols.antt and JsonProxies.antt, with `_id`;
-- Merge.antt is `merge` and `public_node`; Outbound.antt is `_outbound` and `sing_box_config`. A
-- node is read by the first, kept by the second and used by the third. Links.antt and the files
-- below it are the other way in: `_transport` (Transport.antt), `_tls` (Security.antt), the
-- branches of `parse_uri` (Schemes.antt and Uri.antt), and `extract_uris`, `_singbox_json_nodes`
-- and `parse_blob` (Blob.antt); the library's functions on links, base64, JSON and HTML are a
-- parameter (`Web`). The pattern of links is a search that goes on behind each match, by
-- structural recursion on the text. An interpreter that limits the digits of `int` is not
-- modelled.
--
-- Route.antt models `normalize_domains` and `merge_domains` of app/selective_route_windows.py, the
-- tunnel for chosen sites on Windows. Route/Registry.antt has the two values of the registry that
-- this module changes, its state file and its service, with `_load_state`, `_write_state`,
-- `_snapshot`, `_write_value`, `_restore`, `_notify`, `_health`, `_bridge_health` and
-- `_stop_service`, and Route/Disable.antt is `disable`. Route/Pac.antt is `pac`, and
-- Route/Status.antt is `status` with `_pac_ready`, `_check_tailnet_socks` and the answer of
-- `_Handler.do_GET`; the digest, `ipaddress.ip_address` and the answer of a SOCKS5 server are a
-- parameter (`Outside`). The state file is taken to be one that the module wrote, the two
-- listeners of the service to stand and fall together, and an accepted request to shut down to end
-- them at once; `wait_stopped` has the 30 polls of the source as its fuel. Sites.antt is
-- `host_from_url` and `diagnose_403_site`, which both tunnels have; `urlsplit`, `ipaddress` and
-- the runs of curl are a parameter (`Network`).
--
-- An external command takes effect and returns, or raises and has no effect; that a command fails
-- after its effect is not modelled. No other process changes the settings in between. A number
-- below 0 is given as 0 to the test of the port range, which refuses both. A socket whose other
-- side has failed raises at the end of its bytes, and `sendall` sends all or raises. What the
-- interpreter brings is a parameter: the tables of Unicode and the "idna" codec outside ASCII
-- (`Tables`), of the machine the SHA-256 digest and the path of the module's own file (`Host`),
-- and `ipaddress.ip_address` (`ip_address`). `wait_online` has the 15 polls of the source as its
-- fuel; `decimal` has the number itself, which is more than the number of its digits; `exact` has
-- the number of bytes wanted, as each pass finds one or raises.
--
-- Not modelled: the engine, the direct methods, the user interfaces, the PowerShell scripts and
-- the console gateway, which start and watch other programs; of the Windows tunnel `enable` and
-- the start of its service; of the bridge the sockets and the HTTP server; of the tailnet gateway
-- the loop of `exchange`, that of `serve`, and `start`, `stop` and `status`.
pub mod Prelude
pub mod Text
pub mod Hosts
pub mod Json
pub mod NodeHub
pub mod Selective
pub mod Gateway
pub mod Bridge
pub mod Route
pub mod Sites
