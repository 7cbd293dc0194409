-- ===== src/Gateway/Peers/Links.antt =====
-- The pairs of addresses that `verify_peers` lets through.
use free_net_hub.Prelude.{
  ◌≡◌, ◌≢◌, refl, ap, Bool, true, false, not, ◌||◌, Option, none, some, List, [], ◌∷◌, ◌++◌, any,
  Bool-cases, inl, inr, ok, >>=-eq-ok, raise_if, raise_if-eq-ok, and-eq_true, or-eq_false,
}
use free_net_hub.Text.{Text, text, eq_text, elem}
use free_net_hub.Text.Affix.{In, elem-In, eq_of_eq_text, eq_text_iff}
use free_net_hub.Hosts.Address.{IpAddress, is_outside, IsTailnet, is_outside-IsTailnet}
use free_net_hub.Gateway.Socket.{private_ipv4_required}
use free_net_hub.Gateway.Peers.{
  Node, Tailnet, is_false, is_true, or_refuse, tailnet_ip, online_at, check_peers, verify_peers,
}

-- The tailnet runs, `bind` is an address of this device, and `peer` another, of a device online.
pub record IsLink (status : Tailnet) (bind peer : Text) : Type 0 where
  pub different : bind ≢ peer
  pub running : status.backend_state ≡ text "Running"
  pub owned : In bind status.self.ips
  pub self_up : status.self.online ≢ some false
  pub device : Node
  pub before : List Node
  pub after : List Node
  pub listed : status.peers ≡ before ++ (device ∷ after)
  pub addressed : In peer device.ips
  pub online : device.online ≡ some true

record Found (p : Node → Bool) (ns : List Node) : Type 0 where
  device : Node
  before : List Node
  after : List Node
  listed : ns ≡ before ++ (device ∷ after)
  fits : p device ≡ true

any-Found : (p : Node → Bool) (ns : List Node) → any p ns ≡ true → Found p ns
any-Found p [] h = cc
any-Found p (n ∷ ns) h = elim (Bool-cases (p n)) [
  | inl yes_here ↦ record { device = n; before = []; after = ns; listed = refl; fits = yes_here }
  | inr no_match ↦
      let f = any-Found p ns (rw no_match at h) in
      record {
        device = f.device;
        before = n ∷ f.before;
        after = f.after;
        listed = ap (λ r. n ∷ r) f.listed;
        fits = f.fits;
      }
]

online_some : (o : Option Bool) → is_true o ≡ true → o ≡ some true
online_some none h = cc
online_some (some true) h = refl
online_some (some false) h = cc

not_some : (o : Option Bool) → is_false o ≡ false → o ≢ some false
not_some none h e = cc
not_some (some true) h e = cc
not_some (some false) h e = cc

not-false : (b : Bool) → not b ≡ false → b ≡ true
not-false true h = refl
not-false false h = cc

check_peers-IsLink :
    (bind peer : Text) (status : Tailnet) {b p : Text}
    → check_peers bind peer status ≡ ok (b, p)
    → (bind ≡ b) × (peer ≡ p) × IsLink status bind peer
unfolding check_peers online_at
check_peers-IsLink bind peer status {b} {p} e =
    let (_, other, e1) = >>=-eq-ok (raise_if (eq_text bind peer) _) _ e in
    let (_, running, e2) =
      >>=-eq-ok (raise_if (not (eq_text status.backend_state (text "Running"))) _) _ e1 in
    let (_, own, e3) =
      >>=-eq-ok (raise_if (not (elem bind status.self.ips) || is_false status.self.online) _) _
        e2 in
    let (_, reached, e4) = >>=-eq-ok (raise_if (not (any (online_at peer) status.peers)) _) _ e3 in
    let (mine, up) = or-eq_false _ _ (raise_if-eq-ok _ _ own) in
    let f = any-Found (online_at peer) status.peers (not-false _ (raise_if-eq-ok _ _ reached)) in
    let (has, live) = and-eq_true (elem peer f.device.ips) (is_true f.device.online) f.fits in
    (
      cc,
      cc,
      record {
        different = λ same. cc ((eq_text_iff bind peer).1 same, raise_if-eq-ok _ _ other);
        running = eq_of_eq_text _ _ (not-false _ (raise_if-eq-ok _ _ running));
        owned = elem-In bind status.self.ips (not-false _ mine);
        self_up = not_some _ up;
        device = f.device;
        before = f.before;
        after = f.after;
        listed = f.listed;
        addressed = elem-In peer f.device.ips has;
        online = online_some _ live;
      },
    )

or_refuse-eq-ok : (o : Option IpAddress) {a : IpAddress} → or_refuse o ≡ ok a → o ≡ some a
or_refuse-eq-ok none e = cc
or_refuse-eq-ok (some a) e = cc

tailnet_ip-IsTailnet :
    (ip_address : Text → Option IpAddress) (ip : Text) {a : Text}
    → tailnet_ip ip_address ip ≡ ok a
    → IsTailnet ip_address ip a
unfolding tailnet_ip
tailnet_ip-IsTailnet ip_address ip {a} e =
    let (address, accepted, e1) = >>=-eq-ok (or_refuse (ip_address ip)) _ e in
    let (_, inside, e2) = >>=-eq-ok (raise_if (is_outside address) private_ipv4_required) _ e1 in
    let same : address.canonical ≡ a = cc in
    is_outside-IsTailnet ip_address ip address (or_refuse-eq-ok (ip_address ip) accepted)
      (raise_if-eq-ok (is_outside address) private_ipv4_required inside) same

-- The pair that `verify_peers` returns are the canonical forms of the two given texts, which are IPv4
-- addresses from 100.64.0.0 to 100.127.255.255; they differ, the tailnet runs, the first is an address
-- of this device, which is not marked offline, and the second is an address of a peer that is marked
-- online.
pub verify_peers-IsLink :
    (ip_address : Text → Option IpAddress) (bind peer : Text) (status : Tailnet) {b p : Text}
    → verify_peers ip_address bind peer status ≡ ok (b, p)
    → IsTailnet ip_address bind b × IsTailnet ip_address peer p × IsLink status b p
unfolding verify_peers
verify_peers-IsLink ip_address bind peer status {b} {p} e =
    let (b', mine, e1) = >>=-eq-ok (tailnet_ip ip_address bind) _ e in
    let (p', other, e2) = >>=-eq-ok (tailnet_ip ip_address peer) _ e1 in
    let (same_b, same_p, link) = check_peers-IsLink b' p' status e2 in
    rw (← same_b, ← same_p)
      (tailnet_ip-IsTailnet ip_address bind mine, tailnet_ip-IsTailnet ip_address peer other, link)
