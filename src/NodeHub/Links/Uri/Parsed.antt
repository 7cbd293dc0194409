-- ===== src/NodeHub/Links/Uri/Parsed.antt =====
-- What `parse_uri` of app/nodehub.py makes of a link that it accepts.
use free_net_hub.Prelude.{
  ◌≡◌, refl, inl, inr, Bool, true, false, not, ◌&&◌, ◌||◌, Bool-cases, [], ◌∷◌, ◌++◌, leb, ltb,
  is_nil, length, take, arith, or-eq_false, ok, Ensures, Ensures-ok, Ensures-any, Ensures-bind,
  Ensures-if, Ensures-guard,
}
use free_net_hub.Text.{Text, text, eq_text, elem, strip, lower, upper}
use free_net_hub.Json.{
  ℤ, pos, negsuc, null, str, int, arr, cons, nil, obj, Dict, end, field, get, to_int, in_range,
}
use free_net_hub.NodeHub.Values.{refuse_if, or_error, text_or, int_or, set_if}
use free_net_hub.NodeHub.JsonNode.{finish}
use free_net_hub.NodeHub.JsonProtocols.{tuic_fields, congestion_controls}
use free_net_hub.NodeHub.Links.{
  Web, Query, query_of, value, first_of, host_port, or_nil, says_yes, before, cut_first,
}
use free_net_hub.NodeHub.Links.Transport.{transport}
use free_net_hub.NodeHub.Links.Security.{tls, required_tls}
use free_net_hub.NodeHub.Links.Schemes.{
  user_of, titled, uri_tuic, port_or, uri_anytls, plain_tls, hysteria_end, uri_hysteria,
  hysteria2_end, hysteria2_fields, add_user, stream_fields, uri_stream,
}
use free_net_hub.NodeHub.Links.Uri.{
  after_scheme, vmess_dict, vmess_query, either_text, port_number, uri_vmess, ss_parts, or_refuse,
  uri_ss, scheme_of, full_scheme, by_scheme, parse_uri, schemes,
}
use free_net_hub.NodeHub.Links.Uri.Link.{
  link_protocols, IsLink, head-IsLink, IsLink-set, IsLink-set_if, set_tls-IsLink, host_port-IsEnd,
}

not-false : (b : Bool) → not b ≡ false → b ≡ true
not-false true h = refl
not-false false h = cc

tuic_fields-IsLink :
    (uid password cc_ relay : Text) (zero_rtt : Bool) (node : Dict)
    → IsLink node
    → Ensures IsLink (tuic_fields uid password cc_ relay zero_rtt node)
unfolding tuic_fields elem
tuic_fields-IsLink uid password cc_ relay zero_rtt node h =
    Ensures-any (refuse_if (not (elem cc_ congestion_controls)) "TUIC_CONGESTION_CONTROL_INVALID") _
      (λ _.
        Ensures-any
          (refuse_if (not (elem relay (text "native" ∷ text "quic" ∷ [])))
            "TUIC_UDP_RELAY_MODE_INVALID")
          _
          (λ _. Ensures-ok _ (
            IsLink-set (text "zero_rtt_handshake") _ _ refl (
              IsLink-set (text "udp_relay_mode") _ _ refl (
                IsLink-set (text "congestion_control") _ _ refl (
                  IsLink-set (text "password") _ _ refl
                    (IsLink-set (text "uuid") _ node refl h)))))))

uri_tuic-IsLink : (w : Web) (raw : Text) → Ensures IsLink (uri_tuic w raw)
unfolding uri_tuic elem
uri_tuic-IsLink w raw = Ensures-any (w.urlsplit raw) _ (λ parts.
    Ensures-bind (host_port parts) _ (host_port-IsEnd parts) (λ at h.
      Ensures-any (refuse_if _ "TUIC_CREDENTIALS_REQUIRED") _ (λ _.
        Ensures-bind _ _
          (tuic_fields-IsLink _ _ _ _ _ _ (
            head-IsLink (text "tuic") (titled w parts (text "TUIC") at.0) at.0 at.1 end refl h.0
              h.1))
          (λ node k.
            Ensures-any (required_tls w (query_of w parts) at.0) _
              (λ t. Ensures-ok _ (set_tls-IsLink t null node k))))))

uri_anytls-IsLink : (w : Web) (raw : Text) → Ensures IsLink (uri_anytls w raw)
unfolding uri_anytls elem
uri_anytls-IsLink w raw = Ensures-any (w.urlsplit raw) _ (λ parts.
    Ensures-guard (is_nil (or_nil parts.hostname)) _ _ (λ named.
      Ensures-any (or_error "NODE_PORT_INVALID" parts.port) _ (λ given.
        Ensures-guard (not (leb 1 (port_or 443 given) && leb (port_or 443 given) 65535)) _ _ (λ bad.
          let bounds : (leb 1 (port_or 443 given) && leb (port_or 443 given) 65535) ≡ true =
            not-false _ bad in
          Ensures-any (refuse_if (is_nil (user_of w parts)) "ANYTLS_PASSWORD_REQUIRED") _ (λ _.
            Ensures-any (required_tls w (query_of w parts) (or_nil parts.hostname)) _ (λ t.
              Ensures-ok _ (
                set_tls-IsLink t null _ (
                  head-IsLink (text "anytls") _ (or_nil parts.hostname) (port_or 443 given) _ refl
                    named bounds))))))))

hysteria_end-IsLink :
    (w : Web) (q : Query) (node : Dict) → IsLink node → Ensures IsLink (hysteria_end w q node)
unfolding hysteria_end elem
hysteria_end-IsLink w q node h =
    let auth = strip (value (text "auth") q) in
    let known : IsLink (set_if (not (is_nil auth)) (text "auth_str") (str (take 2048 auth)) node) =
      IsLink-set_if _ (text "auth_str") _ node refl h in
    Ensures-if _ _ _ (Ensures-ok _ known) (
      Ensures-any (refuse_if _ "HYSTERIA_V1_OBFS_UNSUPPORTED") _
        (λ _. Ensures-ok _ (IsLink-set (text "obfs") _ _ refl known)))

uri_hysteria-IsLink : (w : Web) (raw : Text) → Ensures IsLink (uri_hysteria w raw)
unfolding uri_hysteria elem
uri_hysteria-IsLink w raw = Ensures-any (w.urlsplit raw) _ (λ parts.
    Ensures-bind (host_port parts) _ (host_port-IsEnd parts) (λ at h.
      let q = query_of w parts in
      let alpn = strip (value (text "alpn") q) in
      let t = set_if (not (is_nil alpn)) (text "alpn") (arr (cons (str (take 64 alpn)) nil)) (
        plain_tls (first_of (text "peer" ∷ text "sni" ∷ []) at.0 q)
          (says_yes w (value (text "insecure") q))) in
      let protocol = lower w.python.tables (first_of (text "protocol" ∷ []) (text "udp") q) in
      Ensures-any
        (refuse_if (not (eq_text protocol (text "udp"))) "HYSTERIA_V1_PROTOCOL_UNSUPPORTED") _
        (λ _.
          Ensures-any
            (or_error "HYSTERIA_V1_BANDWIDTH_REQUIRED"
              (to_int w.python (str (first_of (text "upmbps" ∷ text "up_mbps" ∷ []) [] q))))
            _
            (λ up.
              Ensures-any
                (or_error "HYSTERIA_V1_BANDWIDTH_REQUIRED"
                  (to_int w.python (str (first_of (text "downmbps" ∷ text "down_mbps" ∷ []) [] q))))
                _
                (λ down.
                  Ensures-any
                    (refuse_if (not (in_range 1 100000 up) || not (in_range 1 100000 down))
                      "HYSTERIA_V1_BANDWIDTH_INVALID")
                    _
                    (λ _. hysteria_end-IsLink w q _ (
                      set_tls-IsLink (obj t) null _ (
                        head-IsLink (text "hysteria") (titled w parts (text "Hysteria") at.0) at.0
                          at.1
                          (field (text "up_mbps") (int up)
                            (field (text "down_mbps") (int down) end))
                          refl h.0 h.1))))))))

hysteria2_end-IsLink :
    (w : Web) (q : Query) (node : Dict) → IsLink node → Ensures IsLink (hysteria2_end w q node)
unfolding hysteria2_end elem
hysteria2_end-IsLink w q node h =
    let obfs = lower w.python.tables (strip (value (text "obfs") q)) in
    let password = strip (first_of (text "obfs-password" ∷ text "obfs_password" ∷ []) [] q) in
    Ensures-if (is_nil obfs) _ _ (Ensures-ok _ h) (
      Ensures-any
        (refuse_if (not (elem obfs (text "salamander" ∷ text "gecko" ∷ [])))
          "HYSTERIA2_OBFS_UNSUPPORTED")
        _
        (λ _. Ensures-any (refuse_if (is_nil password) "HYSTERIA2_OBFS_PASSWORD_REQUIRED") _ (λ _.
          Ensures-ok _ (
            IsLink-set (text "obfs")
              (obj (field (text "type") (str obfs) (field (text "password") (str password) end))) _
              refl h))))

add_user-IsLink :
    (scheme : Text) (q : Query) (user : Text) (node : Dict)
    → IsLink node
    → IsLink (add_user scheme q user node)
unfolding add_user elem
add_user-IsLink scheme q user node h = elim (Bool-cases (eq_text scheme (text "vless"))) [
  | inl vless ↦ rw vless (
      IsLink-set_if _ (text "packet_encoding") _ _ refl
        (IsLink-set_if _ (text "flow") _ _ refl (IsLink-set (text "uuid") _ node refl h)))
  | inr other ↦ rw other (IsLink-set (text "password") _ node refl h)
]

uri_stream-IsLink :
    (w : Web) (raw scheme : Text)
    → elem scheme link_protocols ≡ true
    → Ensures IsLink (uri_stream w raw scheme)
unfolding uri_stream hysteria2_fields stream_fields elem
uri_stream-IsLink w raw scheme known = Ensures-any (w.urlsplit raw) _ (λ parts.
    Ensures-bind (host_port parts) _ (host_port-IsEnd parts) (λ at h.
      Ensures-any (refuse_if (is_nil (user_of w parts)) "NODE_CREDENTIAL_REQUIRED") _ (λ _.
        Ensures-if _ _ _
          (hysteria2_end-IsLink w (query_of w parts) _ (
            set_tls-IsLink _ null _ (
              head-IsLink (text "hysteria2") (titled w parts (text "Hysteria2") at.0) at.0 at.1
                (field (text "password") (str (user_of w parts)) end) refl h.0 h.1)))
          (Ensures-any (tls w (query_of w parts) at.0 (eq_text scheme (text "trojan"))) _ (λ t.
            Ensures-any (transport w (query_of w parts)) _ (λ v. Ensures-ok _ (
              add_user-IsLink scheme (query_of w parts) (user_of w parts) _ (
                set_tls-IsLink t v _ (
                  head-IsLink scheme (titled w parts (upper w.python.tables scheme) at.0) at.0 at.1
                    end known h.0 h.1)))))))))

vmess_port :
    (server uid : Text) (port : ℤ)
    → (is_nil server || (is_nil uid || not (in_range 1 65535 port))) ≡ false
    → (is_nil server ≡ false) × ((leb 1 (port_number port) && leb (port_number port) 65535) ≡ true)
vmess_port server uid (pos n) h =
    let (named, more) = or-eq_false (is_nil server) _ h in
    let (_, bad) = or-eq_false (is_nil uid) _ more in (named, not-false _ bad)
vmess_port server uid (negsuc n) h =
    let (_, more) = or-eq_false (is_nil server) _ h in
    let (_, bad) = or-eq_false (is_nil uid) true more in cc

uri_vmess-IsLink : (w : Web) (raw : Text) → Ensures IsLink (uri_vmess w raw)
unfolding uri_vmess elem
uri_vmess-IsLink w raw = Ensures-any (after_scheme raw) _ (λ body.
    Ensures-any (vmess_dict w (before b'#' body)) _ (λ j.
      let server = strip (either_text w (text "add") (text "server") j []) in
      let uid = strip (text_or w.python (text "id") j []) in
      Ensures-any (or_error "NODE_PORT_INVALID" (to_int w.python (get (text "port") j))) _ (λ port.
        Ensures-guard (is_nil server || (is_nil uid || not (in_range 1 65535 port))) _ _ (λ fine.
          let (named, bounds) = vmess_port server uid port fine in
          Ensures-any (int_or w.python (text "aid") j (pos 0)) _ (λ alter_id.
            Ensures-any (tls w (vmess_query w j) server false) _ (λ t.
              Ensures-any (transport w (vmess_query w j)) _ (λ v. Ensures-ok _ (
                set_tls-IsLink t v _ (
                  head-IsLink (text "vmess") _ server (port_number port) _ refl named
                    bounds)))))))))

uri_ss-IsLink : (w : Web) (raw : Text) → Ensures IsLink (uri_ss w raw)
unfolding uri_ss elem
uri_ss-IsLink w raw = Ensures-any (after_scheme raw) _ (λ body.
    Ensures-any (ss_parts w (before b'?' (before b'#' body))) _ (λ found.
      Ensures-any (or_refuse (cut_first b':' found.0)) _ (λ user.
        Ensures-any (w.urlsplit (text "ss://" ++ found.1)) _ (λ parts.
          Ensures-bind (host_port parts) _ (host_port-IsEnd parts)
            (λ at h. Ensures-ok _ (head-IsLink (text "ss") _ at.0 at.1 _ refl h.0 h.1))))))

by_scheme-IsLink :
    (w : Web) (raw scheme : Text)
    → elem scheme link_protocols ≡ true
    → Ensures IsLink (by_scheme w raw scheme)
unfolding by_scheme
by_scheme-IsLink w raw scheme known = Ensures-if _ _ _ (uri_vmess-IsLink w raw) (
    Ensures-if _ _ _ (uri_ss-IsLink w raw) (
      Ensures-if _ _ _ (uri_tuic-IsLink w raw) (
        Ensures-if _ _ _ (uri_anytls-IsLink w raw)
          (Ensures-if _ _ _ (uri_hysteria-IsLink w raw) (uri_stream-IsLink w raw scheme known)))))

full_scheme-known : (s : Text) → elem s schemes ≡ true → elem (full_scheme s) link_protocols ≡ true
unfolding elem schemes
full_scheme-known s h = elim (Bool-cases (eq_text s (text "hy2"))) [
  | inl short ↦ rw short refl
  | inr long ↦ rw long (ground arith)
]

finish-IsLink :
    (w : Web) (raw : Text) (node : Dict) → IsLink node → IsLink (finish w.python raw node)
unfolding finish elem
finish-IsLink w raw node h = IsLink-set (text "source") _ _ refl (
    IsLink-set (text "note") _ _ refl (
      IsLink-set (text "tags") _ _ refl (
        IsLink-set (text "rating") _ _ refl (
          IsLink-set (text "pinned") _ _ refl (
            IsLink-set (text "favorite") _ _ refl
              (IsLink-set (text "raw") _ _ refl (IsLink-set (text "id") _ node refl h)))))))

uri-IsLink : (w : Web) (uri : Text) → Ensures IsLink (parse_uri w uri)
unfolding parse_uri
uri-IsLink w uri =
    let raw = strip uri in
    let scheme = scheme_of w raw in
    Ensures-any (refuse_if (ltb 8192 (length raw)) "NODE_URI_TOO_LARGE") _ (λ _.
      Ensures-guard (not (elem scheme schemes)) _ _ (λ bad.
        Ensures-bind _ _
          (by_scheme-IsLink w raw (full_scheme scheme) (full_scheme-known scheme (not-false _ bad)))
          (λ node h. Ensures-ok _ (finish-IsLink w raw node h))))

-- Of a link that is accepted, whatever its scheme, the node has one of the eight protocols ("hy2" is
-- read as "hysteria2"), a server that is not empty and a port from 1 to 65535.
pub parse_uri-IsLink :
    (w : Web) (uri : Text) {node : Dict} → parse_uri w uri ≡ ok node → IsLink node
parse_uri-IsLink w uri {node} = (uri-IsLink w uri).at node
