-- ===== src/Selective/Arguments.antt =====
-- The pure parts of `apply` of crossplatform/linux/selective_tunnel.py: the checks on its arguments
-- and on what it found, and the text of the systemd unit.
use free_net_hub.Prelude.{
  ◌>>=◌, ◌>>◌, raise_if, ℕ, Bool, true, false, ◌&&◌, ◌||◌, not, any, none, some, List, [], ◌∷◌,
  ◌++◌, ◌==◌, if◌then◌else◌, Result, ok, err, Untyped, typed, ill_typed,
}
use free_net_hub.Text.{Text, text, eq_text, elem, upper, starts_with}
use free_net_hub.Selective.Domains.{parse_domains}
use free_net_hub.Selective.Pac.{PacError, proxy_port_invalid, from_domains, pac_script, port_of}
use free_net_hub.Selective.World.{
  Mode, auto, unknown, Saved, Policy, Fault, rejected, method_invalid, settings_drift,
  proxy_foreign, path_unsafe, key_missing, Host, base_url, eq_mode,
}
use free_net_hub.Selective.Status.{owned_url}

unfoldable pub methods : List Text
methods = text "CFON" ∷ text "WARP" ∷ text "GOOL" ∷ text "TOR" ∷ text "NODE" ∷ text "CUSTOM" ∷ []

abbrev pub is_int : Untyped ℕ → Bool
is_int (typed port) = true
is_int ill_typed = false

-- The arguments after their checks.
pub record Wanted : Type 0 where
  pub hosts : List Text
  pub port : ℕ
  pub method : Text
  pub content : Text

abbrev pub rejecting : {A : Type 0} → Result PacError A → Result Fault A
rejecting (ok a) = ok a
rejecting (err e) = err (rejected e)

-- The checks on the arguments, up to `new_pac = ...`; they touch nothing outside.
unfoldable pub check_arguments : Host → Untyped Text → Untyped ℕ → Text → Result Fault Wanted
check_arguments h given port method = do
  hosts ← rejecting (from_domains (parse_domains h.tables given))
  raise_if (not (is_int port)) (rejected proxy_port_invalid)
  raise_if (not (elem (upper h.tables method) methods)) method_invalid
  content ← rejecting (pac_script h.tables hosts port)
  ok (record { hosts = hosts; port = port_of port; method = method; content = content })

-- `old_url == URL or old_url.startswith(URL + "?v=")`
unfoldable pub is_ours : Text → Bool
unfolding base_url starts_with eq_text
is_ours url = eq_text url base_url || starts_with url (base_url ++ text "?v=")

-- `restore`: the settings to go back to later, unless those found are not what they should be.
-- `previous["previous"]` of an enabled policy is what `enable` saved; without it the lookup raises.
unfoldable pub restore_point : Policy → Mode → Text → Result Fault Saved
unfolding is_ours owned_url
restore_point p mode url =
    if p.enabled
    then (if not (eq_mode mode auto) || not (eq_text url (owned_url p))
        then err settings_drift
        else elim p.previous [ none ↦ err key_missing | some s ↦ ok s ])
    else if eq_mode mode auto && is_ours url
    then err proxy_foreign
    else ok (record { mode = mode; url = url })

abbrev pub known_mode : Mode → Bool
known_mode (unknown m) = false
known_mode _ = true

-- `==` on lists of texts
unfoldable pub eq_texts : List Text → List Text → Bool
unfolding eq_text
eq_texts [] [] = true
eq_texts [] (b ∷ bs) = false
eq_texts (a ∷ as') [] = false
eq_texts (a ∷ as') (b ∷ bs) = eq_text a b && eq_texts as' bs

-- The stored policy asks for what is wanted: the test before `status()["ok"]`.
unfoldable pub same_request : Policy → Wanted → Bool
unfolding eq_text
same_request p x =
    p.enabled
    && (eq_texts p.domains x.hosts && (p.proxy_port == x.port && eq_text p.method x.method))

-- `_service_text`, which refuses a path that systemd would not read literally.
abbrev pub unsafe_char : ℕ → Bool
unsafe_char c = c == b'"' || (c == 10 || (c == 13 || (c == b'%' || c == 92)))

unfoldable pub service_text : Host → Result Fault Text
service_text h =
    if any unsafe_char h.helper
    then err path_unsafe
    else ok (
        text "# FreeNetHub-owned selective domain proxy PAC service\n"
        ++ (text
              "[Unit]\nDescription=FreeNetHub loopback selective PAC server\n[Service]\nType=simple\n"
            ++ (text "ExecStart=/usr/bin/python3 \""
                ++ (h.helper
                    ++ (text "\" serve\nRestart=on-failure\nRestartSec=2\nNoNewPrivileges=yes\n"
                        ++ text
                            "PrivateTmp=yes\nProtectSystem=full\nRestrictAddressFamilies=AF_INET AF_UNIX\n[Install]\nWantedBy=default.target\n")))))
