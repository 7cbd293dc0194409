-- ===== src/NodeHub/JsonNode/Secure.antt =====
-- `_json_tls` of app/nodehub.py: what it makes of the TLS of an outbound.
use free_net_hub.Prelude.{
  ◌≡◌, refl, ◌∙◌, Bool, true, false, not, [], ◌∷◌, take, is_nil, Ensures, Ensures-ok, Ensures-err,
  Ensures-any, ◌&&◌,
}
use free_net_hub.Text.{Text, text, eq_text, elem, strip}
use free_net_hub.Json.{
  Json, null, bool, int, real, str, arr, obj, Items, nil, cons, Dict, end, field, Python, get, set,
  is_true, is_false,
}
use free_net_hub.Json.Keys.{get-set, only, only-set}
use free_net_hub.NodeHub.Values.{refuse_if, text_or, set_if, take_items, nonblank}
use free_net_hub.NodeHub.JsonProtocols.{json_tls, add_alpn, add_utls}

-- TLS that is on, with no key besides the five that `_json_tls` writes.
unfoldable pub tls_key : Text → Bool
unfolding elem
tls_key k =
    elem k (text "enabled" ∷ text "server_name" ∷ text "insecure" ∷ text "alpn" ∷ text "utls" ∷ [])

pub record IsTls (v : Json) : Type 0 where
  pub dict : Dict
  pub is_dict : v ≡ obj dict
  pub enabled : get (text "enabled") dict ≡ bool true
  pub keys : only tls_key dict ≡ true

abbrev IsTlsDict : Dict → Type 0
IsTlsDict d = (get (text "enabled") d ≡ bool true) × (only tls_key d ≡ true)

set-IsTlsDict :
    (k : Text) (v : Json) (d : Dict)
    → eq_text k (text "enabled") ≡ false
    → tls_key k ≡ true
    → IsTlsDict d
    → IsTlsDict (set k v d)
set-IsTlsDict k v d other key (e, o) =
    (get-set k (text "enabled") v d ∙ rw other e, only-set tls_key k v d o key)

set_if-IsTlsDict :
    (b : Bool) (k : Text) (v : Json) (d : Dict)
    → eq_text k (text "enabled") ≡ false
    → tls_key k ≡ true
    → IsTlsDict d
    → IsTlsDict (set_if b k v d)
set_if-IsTlsDict true k v d other key h = set-IsTlsDict k v d other key h
set_if-IsTlsDict false k v d other key h = h

alpn-IsTlsDict :
    (xs : Items) (d : Dict)
    → IsTlsDict d
    → IsTlsDict (elim xs [ nil ↦ d | cons y ys ↦ set (text "alpn") (arr (cons y ys)) d ])
unfolding eq_text tls_key
alpn-IsTlsDict nil d h = h
alpn-IsTlsDict (cons y ys) d h = set-IsTlsDict (text "alpn") _ d refl refl h

add_alpn-IsTlsDict : (p : Python) (v : Json) (d : Dict) → IsTlsDict d → IsTlsDict (add_alpn p v d)
add_alpn-IsTlsDict p null d h = h
add_alpn-IsTlsDict p (bool b) d h = h
add_alpn-IsTlsDict p (int n) d h = h
add_alpn-IsTlsDict p (real r) d h = h
add_alpn-IsTlsDict p (str s) d h = h
add_alpn-IsTlsDict p (arr xs) d h = alpn-IsTlsDict (take_items 8 (nonblank p (λ s. s) xs)) d h
add_alpn-IsTlsDict p (obj u) d h = h

add_utls-IsTlsDict : (p : Python) (v : Json) (d : Dict) → IsTlsDict d → IsTlsDict (add_utls p v d)
unfolding eq_text tls_key
add_utls-IsTlsDict p null d h = h
add_utls-IsTlsDict p (bool b) d h = h
add_utls-IsTlsDict p (int n) d h = h
add_utls-IsTlsDict p (real r) d h = h
add_utls-IsTlsDict p (str s) d h = h
add_utls-IsTlsDict p (arr xs) d h = h
add_utls-IsTlsDict p (obj u) d h =
    let fp = strip (text_or p (text "fingerprint") u []) in
    set_if-IsTlsDict (is_true (get (text "enabled") u) && not (is_nil fp)) (text "utls")
      (obj (field (text "enabled") (bool true) (field (text "fingerprint") (str (take 64 fp)) end)))
      d refl refl h

pub json_tls-IsTls : (p : Python) (v : Json) (server : Text) → Ensures IsTls (json_tls p v server)
unfolding json_tls eq_text tls_key get
json_tls-IsTls p null server = Ensures-err _
json_tls-IsTls p (bool b) server = Ensures-err _
json_tls-IsTls p (int n) server = Ensures-err _
json_tls-IsTls p (real r) server = Ensures-err _
json_tls-IsTls p (str s) server = Ensures-err _
json_tls-IsTls p (arr xs) server = Ensures-err _
json_tls-IsTls p (obj value) server =
    let out =
      field (text "enabled") (bool true)
        (field (text "server_name") (str (text_or p (text "server_name") value server)) end) in
    let base : IsTlsDict out = (refl, refl) in
    let insecure =
      set_if-IsTlsDict (is_true (get (text "insecure") value)) (text "insecure") (bool true) out
        refl refl base in
    let (on, clean) =
      add_utls-IsTlsDict p (get (text "utls") value) _
        (add_alpn-IsTlsDict p (get (text "alpn") value) _ insecure) in
    Ensures-any (refuse_if (is_false (get (text "enabled") value)) "NODE_JSON_TLS_REQUIRED") _
      (λ _. Ensures-ok _ record { dict = _; is_dict = refl; enabled = on; keys = clean })
