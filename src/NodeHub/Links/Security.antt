-- ===== src/NodeHub/Links/Security.antt =====
-- `_tls` and `_required_tls` of app/nodehub.py.
use free_net_hub.Prelude.{
  Bool, true, not, ◌&&◌, Option, none, some, [], ◌∷◌, is_nil, if◌then◌else◌, Result, ok, ◌>>=◌,
  ◌>>◌,
}
use free_net_hub.Text.{Text, text, eq_text, elem, lower, split_on}
use free_net_hub.Json.{Json, null, bool, str, obj, Dict, end, field, Exc, set}
use free_net_hub.NodeHub.Values.{refuse_if, set_if}
use free_net_hub.NodeHub.Links.{Web, Query, first_of, value, says_true, filled}
use free_net_hub.NodeHub.Links.Transport.{set_texts}

-- `security`; none where there is no TLS.
unfoldable pub security_of : Web → Query → Bool → Option Text
unfolding value lower elem
security_of w q default_enabled =
    let security = lower w.python.tables (value (text "security") q) in
    if elem security (text "tls" ∷ text "reality" ∷ [])
    then some security
    else if default_enabled && is_nil security
    then some (text "tls")
    else none

-- `if security == "reality": ...`
unfoldable pub add_reality : Query → Text → Dict → Result Exc Dict
unfolding eq_text first_of
add_reality q security out =
    if eq_text security (text "reality")
    then (do
      let pbk =
          first_of (text "pbk" ∷ text "publicKey" ∷ text "publickey" ∷ text "public_key" ∷ []) [] q
      refuse_if (is_nil pbk) "NODE_REALITY_PUBLIC_KEY_REQUIRED"
      let sid = first_of (text "sid" ∷ text "shortId" ∷ text "shortid" ∷ text "short_id" ∷ []) [] q
      ok (
          set (text "reality")
            (obj (
              field (text "enabled") (bool true)
                (field (text "public_key") (str pbk) (field (text "short_id") (str sid) end))))
            out))
    else ok out

unfoldable pub tls_fields : Web → Query → Text → Text → Result Exc Dict
unfolding first_of value
tls_fields w q server security =
    let out = field (text "enabled") (bool true) (
      field (text "server_name")
        (str (first_of (text "sni" ∷ text "servername" ∷ text "serverName" ∷ []) server q)) end) in
    let unchecked =
      first_of
        (text "allowInsecure" ∷ text "allowinsecure" ∷ text "allow_insecure" ∷ text "insecure" ∷ [])
        [] q in
    let fp = first_of (text "fp" ∷ text "fingerprint" ∷ []) [] q in
    add_reality q security (
      set_if (not (is_nil fp)) (text "utls")
        (obj (field (text "enabled") (bool true) (field (text "fingerprint") (str fp) end)))
        (set_texts (text "alpn") (filled (split_on b',' (value (text "alpn") q)))
          (set_if (says_true w unchecked) (text "insecure") (bool true) out)))

-- `_tls`
unfoldable pub tls : Web → Query → Text → Bool → Result Exc Json
tls w q server default_enabled = elim (security_of w q default_enabled) [
  | none ↦ ok null
  | some security ↦ (do fields ← tls_fields w q server security; ok (obj fields))
]

-- `_required_tls`
unfoldable pub required_tls : Web → Query → Text → Result Exc Json
required_tls w q server = tls w ((text "security", text "tls") ∷ q) server true
