-- ===== src/NodeHub/Outbound/Harmless.antt =====
-- The keys of an outbound.
use free_net_hub.Prelude.{
  ◌≡◌, refl, Bool, true, false, List, [], ◌∷◌, all, Bool-cases, inl, inr, and-eq_true, Result, ok,
  Ensures, Ensures-ok, Ensures-err, Ensures-bind, Ensures-any, Ensures-if,
}
use free_net_hub.Text.{Text, text}
use free_net_hub.Json.{
  Json, null, str, int, bool, Dict, Exc, Python, get, get_or, set, to_int, truthy, is_given,
  or_else,
}
use free_net_hub.Json.Keys.{only}
use free_net_hub.NodeHub.Values.{copy_given, copy_true, set_if, int_or, need}
use free_net_hub.NodeHub.Outbound.{
  out_type, copy_needed, set_int, out_base, out_vmess, out_vless, out_hysteria2, out_tuic,
  out_anytls, out_shadowtls, out_hysteria, out_ssh, out_snell, out_socks, out_http, out_naive,
  out_fields, protocol_text, outbound,
}
use free_net_hub.NodeHub.Outbound.Clean.{
  harmless, clean, values, deep, Atoms, clean-set, values-get_or, anything, anything-Atoms,
  values-anything, clean-only, deep-Atoms,
}

abbrev IsClean : (Json → Bool) → Result Exc Dict → Type 0
IsClean v r = Ensures (λ d. clean v d ≡ true) r

module _ (v : Json → Bool) (atoms : Atoms v) (node : Dict) (h : values v node ≡ true) where
  get_ok : (k : Text) → v (get k node) ≡ true
  unfolding get
  get_ok k = values-get_or v null k node h atoms.empty

  get_or_ok : (default : Json) (k : Text) → v default ≡ true → v (get_or default k node) ≡ true
  get_or_ok default k e = values-get_or v default k node h e

  or_else_ok : (p : Python) (k s : Text) → v (or_else p (get k node) (str s)) ≡ true
  unfolding or_else
  or_else_ok p k s = elim (Bool-cases (truthy p (get k node))) [
    | inl t ↦ rw t (get_ok k)
    | inr n ↦ rw n (atoms.words s)
  ]

  need_ok : (k : Text) → Ensures (λ x. v x ≡ true) (need k node)
  unfolding need
  need_ok k = Ensures-if _ _ _ (Ensures-ok _ (get_ok k)) (Ensures-err _)

  clean-copy_given :
      (keys : List Text) (d : Dict)
      → all harmless keys ≡ true
      → clean v d ≡ true
      → clean v (copy_given keys node d) ≡ true
  unfolding copy_given
  clean-copy_given [] d e o = o
  clean-copy_given (k ∷ keys) d e o =
      let (a, b) = and-eq_true (harmless k) (all harmless keys) e in
      elim (Bool-cases (is_given (get k node))) [
        | inl y ↦ rw y (
            clean-copy_given keys (set k (get k node) d) b
              (clean-set v k (get k node) d o a (get_ok k)))
        | inr n ↦ rw n (clean-copy_given keys d b o)
      ]

  clean-copy_true :
      (y : Python) (keys : List Text) (d : Dict)
      → all harmless keys ≡ true
      → clean v d ≡ true
      → clean v (copy_true y keys node d) ≡ true
  unfolding copy_true
  clean-copy_true y [] d e o = o
  clean-copy_true y (k ∷ keys) d e o =
      let (a, b) = and-eq_true (harmless k) (all harmless keys) e in
      elim (Bool-cases (truthy y (get k node))) [
        | inl t ↦ rw t (
            clean-copy_true y keys (set k (get k node) d) b
              (clean-set v k (get k node) d o a (get_ok k)))
        | inr n ↦ rw n (clean-copy_true y keys d b o)
      ]

  needed :
      (keys : List Text) (d : Dict)
      → all harmless keys ≡ true
      → clean v d ≡ true
      → IsClean v (copy_needed keys node d)
  unfolding copy_needed
  needed [] d e o = Ensures-ok d o
  needed (k ∷ keys) d e o =
      let (a, b) = and-eq_true (harmless k) (all harmless keys) e in
      Ensures-bind _ _ (need_ok k) (λ x f. needed keys (set k x d) b (clean-set v k x d o a f))

  set_int_ok :
      (y : Python) (k : Text) (x : Json) (d : Dict)
      → harmless k ≡ true
      → clean v d ≡ true
      → IsClean v (set_int y k x d)
  set_int_ok y k x d e o =
      Ensures-any (to_int y x) _ (λ n. Ensures-ok _ (clean-set v k (int n) d o e (atoms.number n)))

  module _ (p : Python) (base : Dict) (o : clean v base ≡ true) where
    out_vmess-IsClean : IsClean v (out_vmess p node base)
    unfolding out_vmess harmless
    out_vmess-IsClean = Ensures-bind _ _ (needed (text "uuid" ∷ []) base refl o) (λ d q.
        set_int_ok p (text "alter_id") _ _ refl (
          clean-set v (text "security") _ d q refl
            (get_or_ok (str (text "auto")) (text "security") (atoms.words _))))

    out_vless-IsClean : IsClean v (out_vless p node base)
    unfolding out_vless harmless
    out_vless-IsClean =
        Ensures-bind _ _ (needed (text "uuid" ∷ []) base refl o)
          (λ d q. Ensures-ok _ (clean-copy_true p _ d refl q))

    out_hysteria2-IsClean : IsClean v (out_hysteria2 p node base)
    unfolding out_hysteria2 harmless
    out_hysteria2-IsClean =
        Ensures-bind _ _ (needed (text "password" ∷ []) base refl o)
          (λ d q. Ensures-ok _ (clean-copy_true p _ d refl q))

    out_tuic-IsClean : IsClean v (out_tuic p node base)
    unfolding out_tuic harmless
    out_tuic-IsClean =
        Ensures-bind _ _ (needed (text "uuid" ∷ text "password" ∷ []) base refl o) (λ d q.
          Ensures-ok _ (
            clean-set v (text "zero_rtt_handshake") _ _
              (clean-set v (text "udp_relay_mode") _ _
                (clean-set v (text "congestion_control") _ d q refl
                  (get_or_ok _ (text "congestion_control") (atoms.words _)))
                refl (get_or_ok _ (text "udp_relay_mode") (atoms.words _)))
              refl (atoms.truth _)))

    out_anytls-IsClean : IsClean v (out_anytls node base)
    unfolding out_anytls harmless
    out_anytls-IsClean =
        Ensures-bind _ _ (needed (text "password" ∷ []) base refl o)
          (λ d q. Ensures-ok _ (clean-copy_given _ d refl q))

    out_shadowtls-IsClean : IsClean v (out_shadowtls p node base)
    unfolding out_shadowtls harmless
    out_shadowtls-IsClean =
        Ensures-bind _ _ (set_int_ok p (text "version") _ base refl o)
          (λ d q. Ensures-ok _ (clean-copy_true p _ d refl q))

    out_hysteria-IsClean : IsClean v (out_hysteria p node base)
    unfolding out_hysteria harmless
    out_hysteria-IsClean = Ensures-any (need (text "up_mbps") node) _ (λ up.
        Ensures-bind _ _ (set_int_ok p (text "up_mbps") up base refl o) (λ d q.
          Ensures-any (need (text "down_mbps") node) _ (λ down.
            Ensures-bind _ _ (set_int_ok p (text "down_mbps") down d refl q)
              (λ e r. Ensures-ok _ (clean-copy_given _ e refl r)))))

    out_ssh-IsClean : IsClean v (out_ssh p node base)
    unfolding out_ssh harmless
    out_ssh-IsClean = Ensures-ok _ (
        clean-copy_true p _ _ refl (
          clean-copy_given _ _ refl
            (clean-set v (text "user") _ base o refl (or_else_ok p (text "user") (text "root")))))

    out_socks-IsClean : IsClean v (out_socks p node base)
    unfolding out_socks harmless
    out_socks-IsClean =
        Ensures-ok _
          (clean-copy_given _ _ refl (clean-set v (text "version") _ base o refl (atoms.words _)))

    out_http-IsClean : IsClean v (out_http node base)
    unfolding out_http harmless
    out_http-IsClean = Ensures-ok _ (clean-copy_given _ base refl o)

    out_naive-IsClean : IsClean v (out_naive node base)
    unfolding out_naive harmless
    out_naive-IsClean = Ensures-ok _ (clean-copy_given _ base refl o)

    clean-set_if :
        (b : Bool) (k : Text) (x : Json) (d : Dict)
        → harmless k ≡ true
        → v x ≡ true
        → clean v d ≡ true
        → clean v (set_if b k x d) ≡ true
    clean-set_if true k x d e f q = clean-set v k x d q e f
    clean-set_if false k x d e f q = q

    out_snell-IsClean : IsClean v (out_snell p node base)
    unfolding out_snell harmless
    out_snell-IsClean = Ensures-any (int_or p (text "version") node _) _ (λ version.
        Ensures-bind _ _
          (needed (text "psk" ∷ []) (set (text "version") (int version) base) refl
            (clean-set v (text "version") (int version) base o refl (atoms.number version)))
          (λ d q. Ensures-ok _ (
            clean-set_if (truthy p (get (text "reuse") node)) (text "reuse") (bool true) _ refl
              (atoms.truth true)
              (clean-copy_given
                (text "userkey"
                  ∷ text "network"
                  ∷ text "obfs_mode"
                  ∷ text "obfs_host"
                  ∷ text "mode"
                  ∷ [])
                d refl q))))

    out_fields-IsClean : (proto : Text) → IsClean v (out_fields p proto node base)
    unfolding out_fields harmless
    out_fields-IsClean proto =
        Ensures-if _ _ _ (needed (text "method" ∷ text "password" ∷ []) base refl o) (
          Ensures-if _ _ _ out_vmess-IsClean (
            Ensures-if _ _ _ out_vless-IsClean (
              Ensures-if _ _ _ (needed (text "password" ∷ []) base refl o) (
                Ensures-if _ _ _ out_hysteria2-IsClean (
                  Ensures-if _ _ _ out_tuic-IsClean (
                    Ensures-if _ _ _ out_anytls-IsClean (
                      Ensures-if _ _ _ out_shadowtls-IsClean (
                        Ensures-if _ _ _ out_hysteria-IsClean (
                          Ensures-if _ _ _ out_ssh-IsClean (
                            Ensures-if _ _ _ out_snell-IsClean (
                              Ensures-if _ _ _ out_socks-IsClean (
                                Ensures-if _ _ _ out_http-IsClean
                                  (Ensures-if _ _ _ out_naive-IsClean (Ensures-err _))))))))))))))

  out_base-IsClean : (p : Python) (proto : Text) → IsClean v (out_base p proto node)
  unfolding out_base harmless
  out_base-IsClean p proto = Ensures-bind _ _ (need_ok (text "server")) (λ server f.
      Ensures-any (need (text "port") node) _ (λ port. Ensures-any (to_int p port) _ (λ n.
        Ensures-ok _ (
          rw (atoms.words (out_type proto), atoms.words (text "provider"), f, atoms.number n)
            refl))))

  outbound-IsClean : (p : Python) → IsClean v (outbound p node)
  unfolding outbound harmless
  outbound-IsClean p = Ensures-any (need (text "protocol") node) _ (λ protocol.
      Ensures-any (protocol_text protocol) _ (λ proto.
        Ensures-bind _ _ (out_base-IsClean p proto) (λ base o.
          Ensures-bind _ _ (out_fields-IsClean p base o proto) (λ fields q.
            Ensures-ok _ (clean-copy_true p (text "tls" ∷ text "transport" ∷ []) fields refl q)))))

-- Whatever node `_outbound` is given, also one that was stored by hand: none of the keys of the
-- outbound itself ends in "_path" or is "detour", "dialer_proxy", "bind_interface" or
-- "routing_mark". The keys of dictionaries inside it are not looked at.
pub outbound-harmless :
    (p : Python) (node : Dict) {d : Dict} → outbound p node ≡ ok d → only harmless d ≡ true
outbound-harmless p node {d} e =
    clean-only d ((outbound-IsClean anything anything-Atoms node (values-anything node) p).at d e)

-- Where no dictionary in the values of a node, however deep, has a key that ends in "_path" or is
-- "detour", "dialer_proxy", "bind_interface" or "routing_mark", its outbound has no such key at any
-- depth, whatever the keys of the node itself are.
pub outbound-clean :
    (p : Python) (node : Dict) {d : Dict}
    → values deep node ≡ true
    → outbound p node ≡ ok d
    → clean deep d ≡ true
outbound-clean p node {d} h = (outbound-IsClean deep deep-Atoms node h p).at d
