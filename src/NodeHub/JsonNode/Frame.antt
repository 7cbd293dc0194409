-- ===== src/NodeHub/JsonNode/Frame.antt =====
-- The branches of `_singbox_json_node` of app/nodehub.py for TUIC, AnyTLS, ShadowTLS, Hysteria and SSH:
-- the keys of a node that they leave alone.
pub mod Proxies
use free_net_hub.Prelude.{
  ℕ, String, ◌≡◌, refl, ◌∙◌, Bool, true, false, not, ◌&&◌, ◌||◌, List, [], ◌∷◌, all, take, is_nil,
  Bool-cases, inl, inr, and-eq_true, ◌>>=◌, ◌>>◌, if◌then◌else◌, Result, ok, err, Ensures,
  Ensures-ok, Ensures-err, Ensures-bind, Ensures-any, Ensures-if, Ensures-guard,
}
use free_net_hub.Text.{Text, text, eq_text, elem, strip}
use free_net_hub.Text.Affix.{eq_of_eq_text, eq_text_refl}
use free_net_hub.Json.{
  Json, null, bool, int, real, str, arr, truthy, obj, Dict, Exc, Python, get, set, to_int, to_str,
  is_given, ℤ, pos, clamp, in_range,
}
use free_net_hub.Json.Keys.{get-set}
use free_net_hub.NodeHub.Values.{
  refuse_if, or_error, text_or, int_or, copy_texts, copy_text, set_if, nonblank, take_items,
}
use free_net_hub.NodeHub.JsonProtocols.{
  congestion_controls, network_of, tuic_fields, json_tuic, add_min_idle, json_anytls,
  json_shadowtls, add_network, json_hysteria, copy_lists, json_ssh,
}
use free_net_hub.NodeHub.JsonProxies.{
  snell_mode, json_snell, add_udp_over_tcp, json_socks, add_headers, json_http, json_naive,
}

-- The keys that a node has before its protocol's branch.
abbrev pub reserved : List Text
reserved = text "protocol" ∷ text "server" ∷ text "port" ∷ text "transport" ∷ text "tls" ∷ []

-- `new` has the reserved keys of `old`.
pub record Keeps (old new : Dict) : Type 0 where
  pub at : (k : Text) → elem k reserved ≡ true → get k new ≡ get k old

pub Keeps-refl : (d : Dict) → Keeps d d
Keeps-refl d = record { at = λ k h. refl }

pub Keeps-set :
    (old d : Dict) (k : Text) (v : Json)
    → elem k reserved ≡ false
    → Keeps old d
    → Keeps old (set k v d)
Keeps-set old d k v free h = record {
  at = λ j r. elim (Bool-cases (eq_text k j)) [
    | inl same ↦ let bad : elem k reserved ≡ true = rw (eq_of_eq_text k j same) r in cc
    | inr other ↦ get-set k j v d ∙ rw other (h.at j r)
  ];
}

Keeps-if : (old d e : Dict) (b : Bool) → Keeps old d → Keeps old e → Keeps old (if b then d else e)
Keeps-if old d e true x y = x
Keeps-if old d e false x y = y

-- The keys of a list are not reserved.
abbrev Free : List Text → Type 0
Free keys = all (λ k. not (elem k reserved)) keys ≡ true

not-true : (b : Bool) → not b ≡ true → b ≡ false
not-true true h = cc
not-true false h = refl

Keeps-copy_texts :
    (p : Python) (n : ℕ) (keys : List Text) (o old d : Dict)
    → Free keys
    → Keeps old d
    → Keeps old (copy_texts p n keys o d)
unfolding copy_texts
Keeps-copy_texts p n [] o old d f h = h
Keeps-copy_texts p n (k ∷ keys) o old d f h =
    let (a, b) = and-eq_true (not (elem k reserved)) (all (λ k. not (elem k reserved)) keys) f in
    Keeps-copy_texts p n keys o old (copy_text p n k o d) b
      (Keeps-if old _ d (is_given (get k o)) (Keeps-set old d k _ (not-true _ a) h) h)

abbrev Holds : Dict → Result Exc Dict → Type 0
Holds node r = Ensures (Keeps node) r

-- One more key behind what is kept.
Holds-set :
    (node d : Dict) (k : Text) (v : Json)
    → elem k reserved ≡ false
    → Keeps node d
    → Holds node (ok (set k v d))
Holds-set node d k v free h = Ensures-ok _ (Keeps-set node d k v free h)

tuic_fields-Keeps :
    (uid password cc_ relay : Text) (zero_rtt : Bool) (node : Dict)
    → Holds node (tuic_fields uid password cc_ relay zero_rtt node)
unfolding tuic_fields elem
tuic_fields-Keeps uid password cc_ relay zero_rtt node =
    Ensures-any (refuse_if (not (elem cc_ congestion_controls)) "TUIC_CONGESTION_CONTROL_INVALID") _
      (λ _.
        Ensures-any
          (refuse_if (not (elem relay (text "native" ∷ text "quic" ∷ [])))
            "TUIC_UDP_RELAY_MODE_INVALID")
          _
          (λ _. Holds-set node _ (text "zero_rtt_handshake") _ refl (
            Keeps-set node _ (text "udp_relay_mode") _ refl (
              Keeps-set node _ (text "congestion_control") _ refl (
                Keeps-set node _ (text "password") _ refl
                  (Keeps-set node node (text "uuid") _ refl (Keeps-refl node)))))))

json_tuic-Keeps : (p : Python) (o node : Dict) → Holds node (json_tuic p o node)
unfolding json_tuic
json_tuic-Keeps p o node = Ensures-any _ _ (λ _. tuic_fields-Keeps _ _ _ _ _ node)

some_idle-Keeps :
    (p : Python) (v : Json) (old node : Dict)
    → Keeps old node
    → Holds old (
        or_error "ANYTLS_MIN_IDLE_SESSION_INVALID" (to_int p v) >>= λ n.
        ok (set (text "min_idle_session") (int (clamp 64 n)) node))
unfolding elem
some_idle-Keeps p v old node h =
    Ensures-any (or_error "ANYTLS_MIN_IDLE_SESSION_INVALID" (to_int p v)) _
      (λ n. Holds-set old node (text "min_idle_session") _ refl h)

add_min_idle-Keeps :
    (p : Python) (v : Json) (old node : Dict) → Keeps old node → Holds old (add_min_idle p v node)
add_min_idle-Keeps p null old node h = Ensures-ok node h
add_min_idle-Keeps p (bool b) old node h = some_idle-Keeps p (bool b) old node h
add_min_idle-Keeps p (int n) old node h = some_idle-Keeps p (int n) old node h
add_min_idle-Keeps p (real r) old node h = some_idle-Keeps p (real r) old node h
add_min_idle-Keeps p (str s) old node h = some_idle-Keeps p (str s) old node h
add_min_idle-Keeps p (arr xs) old node h = some_idle-Keeps p (arr xs) old node h
add_min_idle-Keeps p (obj d) old node h = some_idle-Keeps p (obj d) old node h

json_anytls-Keeps : (p : Python) (o node : Dict) → Holds node (json_anytls p o node)
unfolding json_anytls elem
json_anytls-Keeps p o node =
    Ensures-any
      (refuse_if (is_nil (strip (text_or p (text "password") o []))) "ANYTLS_PASSWORD_REQUIRED") _
      (λ _. add_min_idle-Keeps p (get (text "min_idle_session") o) node _ (
        Keeps-copy_texts p 512 _ o node _ refl
          (Keeps-set node node (text "password") _ refl (Keeps-refl node))))

Keeps-set_if :
    (old d : Dict) (b : Bool) (k : Text) (v : Json)
    → elem k reserved ≡ false
    → Keeps old d
    → Keeps old (set_if b k v d)
Keeps-set_if old d b k v free h = Keeps-if old (set k v d) d b (Keeps-set old d k v free h) h

json_shadowtls-Keeps : (p : Python) (o node : Dict) → Holds node (json_shadowtls p o node)
unfolding json_shadowtls elem
json_shadowtls-Keeps p o node =
    Ensures-any (or_error "SHADOWTLS_VERSION_INVALID" (int_or p (text "version") o (pos 1))) _
      (λ version.
        Ensures-any (refuse_if (not (in_range 1 3 version)) "SHADOWTLS_VERSION_INVALID") _ (λ _.
          Ensures-any
            (refuse_if (in_range 2 3 version && is_nil (strip (text_or p (text "password") o [])))
              "SHADOWTLS_PASSWORD_REQUIRED")
            _
            (λ _. Ensures-ok _ (
              Keeps-set_if node _ _ (text "password") _ refl
                (Keeps-set node node (text "version") _ refl (Keeps-refl node))))))

add_network-Keeps :
    (code network : Text) (old node : Dict)
    → Keeps old node
    → Holds old (add_network code network node)
unfolding elem
add_network-Keeps code network old node h =
    Ensures-if _ _ _ (Ensures-ok node h)
      (Ensures-if _ _ _ (Holds-set old node (text "network") _ refl h) (Ensures-err _))

json_hysteria-Keeps : (p : Python) (o node : Dict) → Holds node (json_hysteria p o node)
unfolding json_hysteria elem
json_hysteria-Keeps p o node =
    Ensures-any (or_error "HYSTERIA_V1_BANDWIDTH_REQUIRED" (to_int p (get (text "up_mbps") o))) _
      (λ up.
        Ensures-any
          (or_error "HYSTERIA_V1_BANDWIDTH_REQUIRED" (to_int p (get (text "down_mbps") o))) _
          (λ down.
            Ensures-any
              (refuse_if (not (in_range 1 100000 up) || not (in_range 1 100000 down))
                "HYSTERIA_V1_BANDWIDTH_INVALID")
              _
              (λ _.
                let rates : Keeps node _ =
                  Keeps-set node _ (text "down_mbps") (int down) refl
                    (Keeps-set node node (text "up_mbps") (int up) refl (Keeps-refl node)) in
                add_network-Keeps (text "HYSTERIA_V1_NETWORK_INVALID") (network_of p o) node _ (
                  Keeps-copy_texts p 2048 (text "obfs" ∷ []) o node _ refl (
                    Keeps-if node _ _ (is_given (get (text "auth_str") o))
                      (Keeps-set node _ (text "auth_str")
                        (str (take 2048 (to_str p (get (text "auth_str") o)))) refl rates)
                      (Keeps-copy_texts p 4096 (text "auth" ∷ []) o node _ refl rates))))))

-- The list that one key of an SSH outbound holds.
list-Keeps :
    (p : Python) (k : Text) (v : Json) (old node : Dict)
    → elem k reserved ≡ false
    → Keeps old node
    → Keeps old (elim v [
      | arr xs ↦ set k (arr (nonblank p (take 1024) (take_items 32 xs))) node
      | v ↦ node
    ])
list-Keeps p k null old node f h = h
list-Keeps p k (bool b) old node f h = h
list-Keeps p k (int n) old node f h = h
list-Keeps p k (real r) old node f h = h
list-Keeps p k (str s) old node f h = h
list-Keeps p k (arr xs) old node f h = Keeps-set old node k _ f h
list-Keeps p k (obj d) old node f h = h

copy_lists-Keeps :
    (p : Python) (keys : List Text) (o old node : Dict)
    → Free keys
    → Keeps old node
    → Keeps old (copy_lists p keys o node)
unfolding copy_lists
copy_lists-Keeps p [] o old node f h = h
copy_lists-Keeps p (k ∷ keys) o old node f h =
    let (a, b) = and-eq_true (not (elem k reserved)) (all (λ k. not (elem k reserved)) keys) f in
    copy_lists-Keeps p keys o old _ b (list-Keeps p k (get k o) old node (not-true _ a) h)

ended-Keeps :
    {old : Dict} (b : Bool) (code : String) (d : Dict)
    → Keeps old d
    → Holds old (refuse_if b code >> ok d)
ended-Keeps b code d h = Ensures-any (refuse_if b code) _ (λ _. Ensures-ok d h)

json_ssh-Keeps : (p : Python) (o node : Dict) → Holds node (json_ssh p o node)
unfolding json_ssh elem
json_ssh-Keeps p o node =
    Ensures-any
      (refuse_if (truthy p (get (text "private_key_path") o)) "NODE_JSON_LOCAL_PATH_UNSUPPORTED") _
      (λ _.
        let user : Keeps node _ =
          Keeps-set node node (text "user")
            (str (take 256 (text_or p (text "user") o (text "root")))) refl (Keeps-refl node) in
        let password : Keeps node _ =
          Keeps-copy_texts p 2048 (text "password" ∷ []) o node _ refl user in
        let keyed : Keeps node _ =
          Keeps-copy_texts p 32768 (text "private_key" ∷ []) o node _ refl password in
        let texts : Keeps node _ =
          Keeps-copy_texts p 2048 (text "private_key_passphrase" ∷ text "client_version" ∷ []) o
            node _ refl keyed in
        ended-Keeps _ "SSH_CREDENTIAL_REQUIRED" _ (
          copy_lists-Keeps p
            (text "host_key"
              ∷ text "host_key_algorithms"
              ∷ text "cipher"
              ∷ text "mac"
              ∷ text "kex_algorithm"
              ∷ [])
            o node _ refl texts))
