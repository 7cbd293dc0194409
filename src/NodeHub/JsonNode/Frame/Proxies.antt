-- ===== src/NodeHub/JsonNode/Frame/Proxies.antt =====
-- The branches of `_singbox_json_node` of app/nodehub.py for the proxies, and their choice: the keys
-- of a node that they leave alone.
use free_net_hub.Prelude.{
  refl, not, [], ◌∷◌, take, Ensures-ok, Ensures-any, Ensures-bind, Ensures-if, ◌||◌,
}
use free_net_hub.Text.{Text, text, elem, lower}
use free_net_hub.Json.{
  Json, null, bool, int, real, str, arr, obj, Dict, end, Python, get, truthy, ℤ, pos, clamp,
}
use free_net_hub.NodeHub.Values.{refuse_if, or_error, text_or, int_or}
use free_net_hub.NodeHub.JsonProtocols.{network_of}
use free_net_hub.NodeHub.JsonProxies.{
  is_int, bad_psk, snell_mode, json_snell, add_udp_over_tcp, json_socks, add_headers, json_http,
  json_naive, cut_headers,
}
use free_net_hub.NodeHub.JsonNode.{by_type}
use free_net_hub.NodeHub.JsonNode.Frame.{
  Keeps, Keeps-refl, Keeps-set, Keeps-copy_texts, Holds, Holds-set, add_network-Keeps,
  json_tuic-Keeps, json_anytls-Keeps, json_shadowtls-Keeps, json_hysteria-Keeps, json_ssh-Keeps,
}

snell_mode-Keeps :
    (p : Python) (version : ℤ) (o old node : Dict)
    → Keeps old node
    → Holds old (snell_mode p version o node)
unfolding snell_mode elem
snell_mode-Keeps p version o old node h =
    let obfs = lower p.tables (text_or p (text "obfs_mode") o (text "none")) in
    let mode = lower p.tables (text_or p (text "mode") o (text "default")) in
    Ensures-if _ _ _
      (Ensures-any
        (refuse_if (not (elem obfs (text "none" ∷ text "http" ∷ []))) "SNELL_OBFS_INVALID") _
        (λ _. Ensures-ok _ (
          Keeps-copy_texts p 512 (text "obfs_host" ∷ []) o old _ refl
            (Keeps-set old node (text "obfs_mode") (str obfs) refl h))))
      (Ensures-any
        (refuse_if (not (elem mode (text "default" ∷ text "unshaped" ∷ text "unsafe-raw" ∷ [])))
          "SNELL_MODE_INVALID")
        _ (λ _. Holds-set old node (text "mode") (str mode) refl h))

json_snell-Keeps : (p : Python) (o node : Dict) → Holds node (json_snell p o node)
unfolding json_snell elem
json_snell-Keeps p o node =
    Ensures-any (or_error "SNELL_VERSION_INVALID" (int_or p (text "version") o (pos 4))) _
      (λ version.
        Ensures-any (refuse_if (not (is_int 4 version || is_int 6 version)) "SNELL_VERSION_INVALID")
          _
          (λ _.
            Ensures-any
              (refuse_if (bad_psk version (text_or p (text "psk") o [])) "SNELL_PSK_INVALID") _
              (λ _.
                Ensures-bind _ _
                  (add_network-Keeps (text "SNELL_NETWORK_INVALID") (network_of p o) node _ (
                    Keeps-copy_texts p 2048 (text "userkey" ∷ []) o node _ refl (
                      Keeps-set node _ (text "reuse") (bool (truthy p (get (text "reuse") o))) refl
                        (Keeps-set node _ (text "psk")
                          (str (take 2048 (text_or p (text "psk") o []))) refl
                          (Keeps-set node node (text "version") (int version) refl
                            (Keeps-refl node))))))
                  (λ networked h. snell_mode-Keeps p version o node networked h))))

add_udp_over_tcp-Keeps :
    (v : Json) (old node : Dict) → Keeps old node → Keeps old (add_udp_over_tcp v node)
unfolding elem
add_udp_over_tcp-Keeps null old node h = h
add_udp_over_tcp-Keeps (bool b) old node h =
    Keeps-set old node (text "udp_over_tcp") (bool b) refl h
add_udp_over_tcp-Keeps (int n) old node h = h
add_udp_over_tcp-Keeps (real r) old node h = h
add_udp_over_tcp-Keeps (str s) old node h = h
add_udp_over_tcp-Keeps (arr xs) old node h = h
add_udp_over_tcp-Keeps (obj d) old node h = Keeps-set old node (text "udp_over_tcp") (obj d) refl h

json_socks-Keeps : (p : Python) (o node : Dict) → Holds node (json_socks p o node)
unfolding json_socks elem
json_socks-Keeps p o node =
    let version = lower p.tables (text_or p (text "version") o (text "5")) in
    Ensures-any
      (refuse_if (not (elem version (text "4" ∷ text "4a" ∷ text "5" ∷ [])))
        "SOCKS_VERSION_INVALID")
      _
      (λ _.
        Ensures-bind _ _
          (add_network-Keeps (text "SOCKS_NETWORK_INVALID") (network_of p o) node _ (
            Keeps-copy_texts p 2048 (text "username" ∷ text "password" ∷ []) o node _ refl
              (Keeps-set node node (text "version") (str version) refl (Keeps-refl node))))
          (λ networked h.
            Ensures-ok _ (add_udp_over_tcp-Keeps (get (text "udp_over_tcp") o) node networked h)))

add_headers-Keeps :
    (p : Python) (v : Json) (old node : Dict) → Keeps old node → Keeps old (add_headers p v node)
unfolding elem
add_headers-Keeps p null old node h = h
add_headers-Keeps p (bool b) old node h = h
add_headers-Keeps p (int n) old node h = h
add_headers-Keeps p (real r) old node h = h
add_headers-Keeps p (str s) old node h = h
add_headers-Keeps p (arr xs) old node h = h
add_headers-Keeps p (obj d) old node h =
    Keeps-set old node (text "headers") (obj (cut_headers p 32 d end)) refl h

json_http-Keeps : (p : Python) (o node : Dict) → Holds node (json_http p o node)
unfolding json_http elem
json_http-Keeps p o node = Ensures-ok _ (
    add_headers-Keeps p (get (text "headers") o) node _ (
      Keeps-copy_texts p 2048 (text "username" ∷ text "password" ∷ text "path" ∷ []) o node node
        refl (Keeps-refl node)))

json_naive-Keeps : (p : Python) (o node : Dict) → Holds node (json_naive p o node)
unfolding json_naive elem
json_naive-Keeps p o node =
    Ensures-any
      (or_error "NAIVE_CONCURRENCY_INVALID" (int_or p (text "insecure_concurrency") o (pos 0))) _
      (λ n. Ensures-ok _ (
        Keeps-copy_texts p 64 (text "quic_congestion_control" ∷ []) o node _ refl (
          Keeps-set node _ (text "quic") (bool (truthy p (get (text "quic") o))) refl (
            Keeps-set node _ (text "insecure_concurrency") (int (clamp 64 n)) refl (
              Keeps-copy_texts p 2048 (text "username" ∷ text "password" ∷ []) o node node refl
                (Keeps-refl node))))))

pub by_type-Keeps :
    (p : Python) (o : Dict) (kind : Text) (node : Dict) → Holds node (by_type p o kind node)
unfolding by_type
by_type-Keeps p o kind node = Ensures-if _ _ _ (json_tuic-Keeps p o node) (
    Ensures-if _ _ _ (json_anytls-Keeps p o node) (
      Ensures-if _ _ _ (json_shadowtls-Keeps p o node) (
        Ensures-if _ _ _ (json_hysteria-Keeps p o node) (
          Ensures-if _ _ _ (json_ssh-Keeps p o node) (
            Ensures-if _ _ _ (json_snell-Keeps p o node) (
              Ensures-if _ _ _ (json_socks-Keeps p o node) (
                Ensures-if _ _ _ (json_http-Keeps p o node) (
                  Ensures-if _ _ _ (json_naive-Keeps p o node)
                    (Ensures-ok node (Keeps-refl node))))))))))
