-- ===== src/NodeHub/JsonNode/Caught.antt =====
-- The exceptions of `_singbox_json_node` of app/nodehub.py: its caller catches `ValueError`.
use free_net_hub.Prelude.{
  String, ◌≡◌, refl, Bool, true, false, not, ◌||◌, [], arith, ◌>>=◌, ◌>>◌, is_nil, Result, ok, err,
}
use free_net_hub.Text.{Text, text, strip}
use free_net_hub.Json.{
  ℤ, pos, Json, null, bool, int, real, str, arr, obj, Dict, Exc, value_error, other_error, Python,
  get, in_range,
}
use free_net_hub.NodeHub.Values.{refuse_if, or_error, text_or, int_or}
use free_net_hub.NodeHub.JsonProtocols.{
  json_tls, tuic_fields, json_tuic, add_min_idle, json_anytls, json_shadowtls, add_network,
  network_of, json_hysteria, json_ssh,
}
use free_net_hub.NodeHub.JsonProxies.{
  is_int, bad_psk, snell_mode, json_snell, json_socks, json_http, json_naive,
}
use free_net_hub.NodeHub.JsonNode.{
  forbidden, add_tls, by_type, read_node, base_node, default_port, type_of, singbox_json_node,
}

-- A result, or a `ValueError`.
unfoldable pub caught : {A : Type 0} → Result Exc A → Bool
caught (ok a) = true
caught (err (value_error code)) = true
caught (err other_error) = false

caught-bind :
    {A B : Type 0} (m : Result Exc A) (f : A → Result Exc B)
    → caught m ≡ true
    → ((a : A) → caught (f a) ≡ true)
    → caught (m >>= f) ≡ true
unfolding caught
caught-bind (ok a) f h k = k a
caught-bind (err (value_error code)) f h k = refl
caught-bind (err other_error) f h k = cc

caught-or_error : {A : Type 0} (code : String) (m : Result Exc A) → caught (or_error code m) ≡ true
unfolding caught
caught-or_error code (ok a) = refl
caught-or_error code (err e) = refl

caught-refuse_if :
    {B : Type 0} (b : Bool) (code : String) (m : Result Exc B)
    → caught m ≡ true
    → caught (refuse_if b code >> m) ≡ true
unfolding caught
caught-refuse_if true code m h = refl
caught-refuse_if false code m h = h

caught-json_tls : (p : Python) (v : Json) (server : Text) → caught (json_tls p v server) ≡ true
unfolding json_tls caught
caught-json_tls p null server = refl
caught-json_tls p (bool b) server = refl
caught-json_tls p (int n) server = refl
caught-json_tls p (real r) server = refl
caught-json_tls p (str s) server = refl
caught-json_tls p (arr xs) server = refl
caught-json_tls p (obj value) server = ground arith

caught-json_tuic : (p : Python) (o node : Dict) → caught (json_tuic p o node) ≡ true
unfolding json_tuic tuic_fields caught
caught-json_tuic p o node = ground arith

caught-add_min_idle : (p : Python) (v : Json) (node : Dict) → caught (add_min_idle p v node) ≡ true
unfolding caught
caught-add_min_idle p null node = refl
caught-add_min_idle p (bool b) node = ground arith
caught-add_min_idle p (int k) node = ground arith
caught-add_min_idle p (real r) node = ground arith
caught-add_min_idle p (str s) node = ground arith
caught-add_min_idle p (arr xs) node = ground arith
caught-add_min_idle p (obj d) node = ground arith

caught-json_anytls : (p : Python) (o node : Dict) → caught (json_anytls p o node) ≡ true
unfolding json_anytls caught
caught-json_anytls p o node =
    ground (arith, λ (d : Dict). caught-add_min_idle p (get (text "min_idle_session") o) d)

caught-json_shadowtls : (p : Python) (o node : Dict) → caught (json_shadowtls p o node) ≡ true
unfolding json_shadowtls caught
caught-json_shadowtls p o node = ground arith

caught-add_network :
    (code network : Text) (node : Dict) → caught (add_network code network node) ≡ true
unfolding caught
caught-add_network code network node = ground arith

caught-json_hysteria : (p : Python) (o node : Dict) → caught (json_hysteria p o node) ≡ true
unfolding json_hysteria caught
caught-json_hysteria p o node = ground arith

caught-json_ssh : (p : Python) (o node : Dict) → caught (json_ssh p o node) ≡ true
unfolding json_ssh caught
caught-json_ssh p o node = ground arith

caught-snell_mode :
    (p : Python) (version : ℤ) (o node : Dict) → caught (snell_mode p version o node) ≡ true
unfolding snell_mode caught
caught-snell_mode p version o node = ground arith

caught-snell_end :
    (p : Python) (version : ℤ) (o d : Dict)
    → caught
        (add_network (text "SNELL_NETWORK_INVALID") (network_of p o) d >>= snell_mode p version o)
      ≡ true
caught-snell_end p version o d =
    caught-bind (add_network (text "SNELL_NETWORK_INVALID") (network_of p o) d)
      (snell_mode p version o)
      (caught-add_network (text "SNELL_NETWORK_INVALID") (network_of p o) d)
      (caught-snell_mode p version o)

caught-json_snell : (p : Python) (o node : Dict) → caught (json_snell p o node) ≡ true
unfolding json_snell
caught-json_snell p o node =
    caught-bind (or_error "SNELL_VERSION_INVALID" (int_or p (text "version") o (pos 4))) _
      (caught-or_error "SNELL_VERSION_INVALID" (int_or p (text "version") o (pos 4)))
      (λ version.
        caught-refuse_if (not (is_int 4 version || is_int 6 version)) "SNELL_VERSION_INVALID" _ (
          caught-refuse_if (bad_psk version (text_or p (text "psk") o [])) "SNELL_PSK_INVALID" _
            (caught-snell_end p version o _)))

caught-json_socks : (p : Python) (o node : Dict) → caught (json_socks p o node) ≡ true
unfolding json_socks caught
caught-json_socks p o node = ground arith

caught-json_naive : (p : Python) (o node : Dict) → caught (json_naive p o node) ≡ true
unfolding json_naive caught
caught-json_naive p o node = ground arith

caught-by_type :
    (p : Python) (o : Dict) (kind : Text) (node : Dict) → caught (by_type p o kind node) ≡ true
unfolding by_type json_http caught
caught-by_type p o kind node = ground (
  arith,
  caught-json_tuic p o node,
  caught-json_anytls p o node,
  caught-json_shadowtls p o node,
  caught-json_hysteria p o node,
  caught-json_ssh p o node,
  caught-json_snell p o node,
  caught-json_socks p o node,
  caught-json_naive p o node,
)

caught-add_tls :
    (p : Python) (o : Dict) (kind server : Text) (node : Dict)
    → caught (add_tls p o kind server node) ≡ true
unfolding add_tls caught
caught-add_tls p o kind server node = ground (arith, caught-json_tls p (get (text "tls") o) server)

caught-read_node : (p : Python) (o : Dict) (kind : Text) → caught (read_node p o kind) ≡ true
unfolding read_node
caught-read_node p o kind =
    let host = strip (text_or p (text "server") o []) in
    caught-bind (or_error "NODE_PORT_INVALID" (int_or p (text "server_port") o (default_port kind)))
      _ (caught-or_error "NODE_PORT_INVALID" (int_or p (text "server_port") o (default_port kind)))
      (λ port.
        caught-refuse_if (is_nil host || not (in_range 1 65535 port)) "NODE_HOST_PORT_REQUIRED" _ (
          caught-bind (add_tls p o kind host (base_node p o kind host port)) (by_type p o kind)
            (caught-add_tls p o kind host _) (caught-by_type p o kind)))

caught-forbidden : (p : Python) (o : Dict) → caught (forbidden p o) ≡ true
unfolding forbidden caught
caught-forbidden p o = ground arith

-- Whatever the outbound holds, it becomes a node or is refused by a `ValueError`.
pub caught-singbox_json_node : (p : Python) (o : Dict) → caught (singbox_json_node p (obj o)) ≡ true
unfolding singbox_json_node caught
caught-singbox_json_node p o =
    ground (arith, caught-forbidden p o, caught-read_node p o (type_of p o))
