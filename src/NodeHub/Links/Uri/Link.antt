-- ===== src/NodeHub/Links/Uri/Link.antt =====
-- The protocol, the server and the port of a node that a link gives (app/nodehub.py).
use free_net_hub.Prelude.{
  ℕ, ◌≡◌, refl, ◌∙◌, inl, inr, Bool, true, false, not, ◌&&◌, Bool-cases, List, [], ◌∷◌, leb, is_nil,
  arith, ◌==◌, Ensures, Ensures-ok, Ensures-any, Ensures-guard,
}
use free_net_hub.Text.{Text, text, eq_text, elem}
use free_net_hub.Text.Affix.{eq_of_eq_text}
use free_net_hub.Json.{pos, Json, str, int, Dict, get, set}
use free_net_hub.Json.Keys.{get-set_other}
use free_net_hub.NodeHub.Values.{refuse_if, set_if}
use free_net_hub.NodeHub.Links.{Url, host_port, or_nil, or_zero}
use free_net_hub.NodeHub.Links.Schemes.{head, set_tls}

-- The protocols of the nodes that links give.
abbrev pub link_protocols : List Text
link_protocols =
    text "ss"
    ∷ text "vmess"
    ∷ text "vless"
    ∷ text "trojan"
    ∷ text "hysteria"
    ∷ text "hysteria2"
    ∷ text "tuic"
    ∷ text "anytls"
    ∷ []

abbrev pub core_keys : List Text
core_keys = text "protocol" ∷ text "server" ∷ text "port" ∷ []

-- A node that a link gives: its protocol, server and port.
pub record IsLink (node : Dict) : Type 0 where
  pub kind : Text
  pub host : Text
  pub number : ℕ
  pub known : elem kind link_protocols ≡ true
  pub named : is_nil host ≡ false
  pub bounds : (leb 1 number && leb number 65535) ≡ true
  pub protocol : get (text "protocol") node ≡ str kind
  pub server : get (text "server") node ≡ str host
  pub port : get (text "port") node ≡ int (pos number)

pub head-IsLink :
    (kind name host : Text) (number : ℕ) (rest : Dict)
    → elem kind link_protocols ≡ true
    → is_nil host ≡ false
    → (leb 1 number && leb number 65535) ≡ true
    → IsLink (head kind name host number rest)
unfolding head get eq_text
head-IsLink kind name host number rest known named bounds = record {
  kind = kind;
  host = host;
  number = number;
  known = known;
  named = named;
  bounds = bounds;
  protocol = refl;
  server = refl;
  port = refl;
}

get-set_free :
    (k j : Text) (v : Json) (d : Dict)
    → elem j core_keys ≡ true
    → elem k core_keys ≡ false
    → get j (set k v d) ≡ get j d
get-set_free k j v d known free = elim (Bool-cases (eq_text k j)) [
  | inl same ↦ let bad : elem k core_keys ≡ true = rw (eq_of_eq_text k j same) known in cc
  | inr other ↦ get-set_other k j v d other
]

pub IsLink-set :
    (k : Text) (v : Json) (d : Dict) → elem k core_keys ≡ false → IsLink d → IsLink (set k v d)
unfolding elem
IsLink-set k v d free h = record {
  kind = h.kind;
  host = h.host;
  number = h.number;
  known = h.known;
  named = h.named;
  bounds = h.bounds;
  protocol = get-set_free k (text "protocol") v d refl free ∙ h.protocol;
  server = get-set_free k (text "server") v d refl free ∙ h.server;
  port = get-set_free k (text "port") v d refl free ∙ h.port;
}

pub IsLink-set_if :
    (b : Bool) (k : Text) (v : Json) (d : Dict)
    → elem k core_keys ≡ false
    → IsLink d
    → IsLink (set_if b k v d)
IsLink-set_if true k v d free h = IsLink-set k v d free h
IsLink-set_if false k v d free h = h

pub set_tls-IsLink : (t v : Json) (d : Dict) → IsLink d → IsLink (set_tls t v d)
unfolding elem
set_tls-IsLink t v d h = IsLink-set (text "transport") v _ refl (IsLink-set (text "tls") t d refl h)

-- A server that is named, and a port in range.
abbrev pub IsEnd : Text × ℕ → Type 0
IsEnd at = (is_nil at.0 ≡ false) × ((leb 1 at.1 && leb at.1 65535) ≡ true)

pub host_port-IsEnd : (parts : Url) → Ensures IsEnd (host_port parts)
unfolding host_port
host_port-IsEnd parts = Ensures-guard (is_nil (or_nil parts.hostname)) _ _ (λ named.
    Ensures-any parts.port _ (λ port.
      Ensures-any (refuse_if (or_zero port == 0) "NODE_HOST_PORT_REQUIRED") _ (λ _.
        Ensures-guard (not (leb 1 (or_zero port) && leb (or_zero port) 65535)) _ _ (λ bad.
          let bounds : (leb 1 (or_zero port) && leb (or_zero port) 65535) ≡ true = ground arith in
          Ensures-ok _ (named, bounds)))))
