-- ===== src/NodeHub/JsonNode/Accepted.antt =====
-- What `_singbox_json_node` of app/nodehub.py makes of an outbound that it accepts.
use free_net_hub.Prelude.{
  ℕ, ◌≡◌, refl, ◌∙◌, Bool, true, false, not, [], ◌∷◌, ◌>>=◌, ◌>>◌, is_nil, ok, Ensures, Ensures-ok,
  Ensures-err, Ensures-any, Ensures-bind, Ensures-guard, Ensures-weaken, ◌⊎◌, arith, all, raise_if,
  ◌||◌, ◌&&◌, Bool-cases, inl, inr, leb, or-eq_false,
}
use free_net_hub.Text.{Text, text, eq_text, elem, strip}
use free_net_hub.Json.{
  Json, null, int, str, obj, Dict, Exc, Python, get, set, truthy, ℤ, pos, negsuc, in_range,
}
use free_net_hub.NodeHub.Values.{or_error, text_or, int_or, is_obj}
use free_net_hub.NodeHub.JsonProtocols.{json_tls}
use free_net_hub.NodeHub.JsonNode.{
  json_types, tls_types, forbidden, finish, base_node, add_tls, by_type, type_of, default_port,
  read_node, singbox_json_node,
}
use free_net_hub.NodeHub.JsonNode.Frame.{Keeps, Keeps-refl, Keeps-set}
use free_net_hub.NodeHub.JsonNode.Frame.Proxies.{by_type-Keeps}
use free_net_hub.NodeHub.JsonNode.Secure.{IsTls, json_tls-IsTls}

-- A node that the JSON import may store.
pub record IsNode (node : Dict) : Type 0 where
  pub kind : Text
  pub host : Text
  pub number : ℕ
  pub known : elem kind json_types ≡ true
  pub named : is_nil host ≡ false
  pub bounds : (leb 1 number && leb number 65535) ≡ true
  pub protocol : get (text "protocol") node ≡ str kind
  pub server : get (text "server") node ≡ str host
  pub port : get (text "port") node ≡ int (pos number)
  pub transport : get (text "transport") node ≡ null
  pub tls :
      IsTls (get (text "tls") node)
      ⊎ ((get (text "tls") node ≡ null) × (elem kind tls_types ≡ false))

IsNode-Keeps : {d e : Dict} → IsNode d → Keeps d e → IsNode e
unfolding elem
IsNode-Keeps {d} {e} h k = record {
  kind = h.kind;
  host = h.host;
  number = h.number;
  known = h.known;
  named = h.named;
  bounds = h.bounds;
  protocol = k.at (text "protocol") refl ∙ h.protocol;
  server = k.at (text "server") refl ∙ h.server;
  port = k.at (text "port") refl ∙ h.port;
  transport = k.at (text "transport") refl ∙ h.transport;
  tls =
      let same : get (text "tls") e ≡ get (text "tls") d = k.at (text "tls") refl in rw same h.tls;
}

module _ (p : Python) (o : Dict) (kind host : Text) (number : ℕ) where
  base-IsNode :
      elem kind json_types ≡ true
      → is_nil host ≡ false
      → (leb 1 number && leb number 65535) ≡ true
      → elem kind tls_types ≡ false
      → IsNode (base_node p o kind host (pos number))
  unfolding base_node get eq_text
  base-IsNode known named bounds free = record {
    kind = kind;
    host = host;
    number = number;
    known = known;
    named = named;
    bounds = bounds;
    protocol = refl;
    server = refl;
    port = refl;
    transport = refl;
    tls = inr (refl, free);
  }

  secured-IsNode :
      (t : Json)
      → elem kind json_types ≡ true
      → is_nil host ≡ false
      → (leb 1 number && leb number 65535) ≡ true
      → IsTls t
      → IsNode (set (text "tls") t (base_node p o kind host (pos number)))
  unfolding base_node get eq_text set
  secured-IsNode t known named bounds h = record {
    kind = kind;
    host = host;
    number = number;
    known = known;
    named = named;
    bounds = bounds;
    protocol = refl;
    server = refl;
    port = refl;
    transport = refl;
    tls = inl h;
  }

  add_tls-IsNode :
      elem kind json_types ≡ true
      → is_nil host ≡ false
      → (leb 1 number && leb number 65535) ≡ true
      → Ensures IsNode (add_tls p o kind host (base_node p o kind host (pos number)))
  unfolding add_tls
  add_tls-IsNode known named bounds =
      elim (Bool-cases (elem kind tls_types || is_obj (get (text "tls") o))) [
        | inl wanted ↦ rw wanted (
            Ensures-bind (json_tls p (get (text "tls") o) host) _
              (json_tls-IsTls p (get (text "tls") o) host)
              (λ t h. Ensures-ok _ (secured-IsNode t known named bounds h)))
        | inr unwanted ↦
            let (free, _) = or-eq_false (elem kind tls_types) _ unwanted in
            rw unwanted (Ensures-ok _ (base-IsNode known named bounds free))
      ]

read_port-IsNode :
    (p : Python) (o : Dict) (kind host : Text) (port : ℤ)
    → elem kind json_types ≡ true
    → (is_nil host || not (in_range 1 65535 port)) ≡ false
    → Ensures IsNode (add_tls p o kind host (base_node p o kind host port) >>= by_type p o kind)
read_port-IsNode p o kind host (negsuc n) known h =
    let (_, bad) = or-eq_false (is_nil host) true h in cc
read_port-IsNode p o kind host (pos n) known h =
    let (named, b) = or-eq_false (is_nil host) (not (leb 1 n && leb n 65535)) h in
    let bounds : (leb 1 n && leb n 65535) ≡ true = ground arith in
    Ensures-bind _ _ (add_tls-IsNode p o kind host n known named bounds)
      (λ d q. Ensures-weaken _ (λ e k. IsNode-Keeps q k) (by_type-Keeps p o kind d))

finish-Keeps : (p : Python) (raw : Text) (node : Dict) → Keeps node (finish p raw node)
unfolding finish elem
finish-Keeps p raw node = Keeps-set node _ (text "source") _ refl (
    Keeps-set node _ (text "note") _ refl (
      Keeps-set node _ (text "tags") _ refl (
        Keeps-set node _ (text "rating") _ refl (
          Keeps-set node _ (text "pinned") _ refl (
            Keeps-set node _ (text "favorite") _ refl (
              Keeps-set node _ (text "raw") _ refl
                (Keeps-set node node (text "id") _ refl (Keeps-refl node))))))))

read_node-IsNode :
    (p : Python) (o : Dict) (kind : Text)
    → elem kind json_types ≡ true
    → Ensures IsNode (read_node p o kind)
unfolding read_node
read_node-IsNode p o kind known =
    Ensures-any (or_error "NODE_PORT_INVALID" (int_or p (text "server_port") o (default_port kind)))
      _
      (λ port.
        Ensures-guard _ _ _
          (λ h. read_port-IsNode p o kind (strip (text_or p (text "server") o [])) port known h))

-- The keys that an accepted outbound does not have, or has empty.
unfoldable pub no_detour : Python → Dict → Bool
no_detour p o =
    all (λ k. not (truthy p (get k o)))
      (text "detour"
        ∷ text "dialer_proxy"
        ∷ text "private_key_path"
        ∷ text "certificate_path"
        ∷ text "client_certificate_path"
        ∷ text "client_key_path"
        ∷ [])

-- Two guards in a row, on what they test.
refused-not :
    (x y : Exc) (a b c d e f : Bool)
    → Ensures
        (λ _. (not a && (not b && (not c && (not d && (not e && (not f && true)))))) ≡ true)
        (raise_if (a || b) x >> raise_if (c || (d || (e || f))) y)
refused-not x y true b c d e f = Ensures-err x
refused-not x y false true c d e f = Ensures-err x
refused-not x y false false true d e f = Ensures-err y
refused-not x y false false false true e f = Ensures-err y
refused-not x y false false false false true f = Ensures-err y
refused-not x y false false false false false true = Ensures-err y
refused-not x y false false false false false false = Ensures-ok tt refl

forbidden-no_detour : (p : Python) (o : Dict) → Ensures (λ _. no_detour p o ≡ true) (forbidden p o)
unfolding forbidden no_detour
forbidden-no_detour p o =
    refused-not _ _ (truthy p (get (text "detour") o)) (truthy p (get (text "dialer_proxy") o))
      (truthy p (get (text "private_key_path") o)) (truthy p (get (text "certificate_path") o))
      (truthy p (get (text "client_certificate_path") o))
      (truthy p (get (text "client_key_path") o))

accepted-IsNode :
    (p : Python) (o : Dict)
    → Ensures (λ node. IsNode node × (no_detour p o ≡ true)) (singbox_json_node p (obj o))
unfolding singbox_json_node
accepted-IsNode p o = Ensures-guard (not (elem (type_of p o) json_types)) _ _ (λ unknown.
    let known : elem (type_of p o) json_types ≡ true = ground arith in
    Ensures-bind (forbidden p o) _ (forbidden-no_detour p o) (λ _ direct.
      Ensures-bind (read_node p o (type_of p o)) _ (read_node-IsNode p o (type_of p o) known)
        (λ made good.
          Ensures-ok _ (IsNode-Keeps good (finish-Keeps p (p.dumps (obj o)) made), direct))))

-- Of an outbound that the import accepts, the node has: one of the nine protocols; a server that is
-- not empty; a port from 1 to 65535; no transport; and, for the five protocols that need it, TLS that
-- is on and has no key besides the five that are copied. The outbound has none of the six
-- keys "detour", "dialer_proxy", "private_key_path", "certificate_path", "client_certificate_path" and
-- "client_key_path", or has them empty.
pub singbox_json_node-IsNode :
    (p : Python) (o node : Dict)
    → singbox_json_node p (obj o) ≡ ok node
    → IsNode node × (no_detour p o ≡ true)
singbox_json_node-IsNode p o node = (accepted-IsNode p o).at node
